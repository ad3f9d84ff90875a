-- ===== src/Macros/Meaning.antt =====
-- What takes effect of the settings of a tree, by recursion on the rounds of the constructor.
use cime.Common.{
  Text, ℕ, zero, suc, true, false, ◌||◌, if◌then◌else◌, Option, none, some, List, [], ◌∷◌, ◌++◌,
  ◌≡◌, refl, sym, subst, length, ◌==◌, nat_eq, list_eq, arith, Bool-cases, Option-cases, inl, inr,
  ◌∙◌, ap, map, Result, ok, expect, ◌>>=◌, ok_of_bind, list_beq_iff,
}
use mathlib.Core.Path.{fun_ext}
use mathlib.Core.List.{append-nil}
use cime.Common.Dict.{lookup, member}
use cime.Common.Dict.Distinct.{distinct}
use cime.Macros.Setting.{option_eq, Build, Setting}
use cime.Macros.Tree.{
  Tree, node, Branches, MacroError, assertion, Partition, get, partition_from, choose, any_has,
  all_conditions, first_sorted, all_append, all_set_up, all_tear_down, leaf_of, branches_of,
  init_from,
}
use cime.Macros.Writer.{Call, write_leaf}
use cime.Macros.Effects.{effects, effects_none, effects_ifs}
use cime.Macros.Partition.{get-cons, get_absent, select, get-partition, distinct-partition}

-- The calls of a leaf with the settings.
unfoldable pub calls_of : Text → List Setting → List Call
calls_of name settings =
    write_leaf (all_append settings) (map (λ setting. (name, setting.value)) settings)
      (all_set_up settings) (all_tear_down settings)

-- The value that the build has for a condition selects the part of an if statement.
unfoldable pub chosen : (List Setting → List Call) → Option Text → (Text → List Setting) → List Call
chosen of none part = []
chosen of (some cond_val) part = of (part cond_val)

unfoldable pub meaning : Build → Text → ℕ → List Setting → List Call
meaning build name zero settings = []
meaning build name (suc fuel) settings = elim (choose settings) [
  | none ↦ calls_of name settings
  | some condition ↦
      meaning build name fuel (select condition none settings)
      ++ chosen (meaning build name fuel) (build condition)
          (λ cond_val. select condition (some cond_val) settings)
]

pub ok_injective : {E A : Type 0} {a b : A} → ◌≡◌ {A = Result E A} (ok a) (ok b) → a ≡ b
ok_injective same = cc

pub meaning-nil : (build : Build) (name : Text) (fuel : ℕ) → meaning build name fuel [] ≡ []
unfolding meaning calls_of choose any_has all_conditions first_sorted write_leaf all_set_up
    all_tear_down
meaning-nil build name zero = refl
meaning-nil build name (suc fuel) = refl

module _ (build : Build) (init : List Setting → Result MacroError Tree)
    (of : List Setting → List Call) (of_nil : of [] ≡ [])
    (agrees : (settings : List Setting) (tree : Tree)
      → init settings ≡ ok tree
      → effects build tree ≡ of settings) where
  effects_none-branches_of :
      (partition : Partition) (branches : Branches)
      → branches_of init partition ≡ ok branches
      → effects_none build branches ≡ of (get none partition)
  unfolding branches_of effects get lookup
  effects_none-branches_of [] branches done =
      subst (λ made. effects_none build made ≡ of []) (ok_injective done) (sym of_nil)
  effects_none-branches_of ((none, settings) ∷ partition) branches done =
      let (tree, made, later) = ok_of_bind (init settings) _ done in
      let (others, rest, last) = ok_of_bind (branches_of init partition) _ later in
      subst (λ made. effects_none build made ≡ of settings) (ok_injective last)
        (agrees settings tree made)
  effects_none-branches_of ((some cond_val, settings) ∷ partition) branches done =
      let (tree, made, later) = ok_of_bind (init settings) _ done in
      let (others, rest, last) = ok_of_bind (branches_of init partition) _ later in
      subst (λ made. effects_none build made ≡ of (get none partition)) (ok_injective last)
        (effects_none-branches_of partition others rest)

  chosen-nil : (value : Option Text) → chosen of value (λ _. []) ≡ []
  unfolding chosen
  chosen-nil none = refl
  chosen-nil (some v) = of_nil

  -- The entry of a partition for a value that the rest of the partition does not have.
  module _ (cond_val : Text) (settings : List Setting) (partition : Partition)
      (here later : List Call) (made : here ≡ of settings)
      (only : member (some cond_val) partition ≡ false) where
    chosen_self :
        later ≡ of (get (some cond_val) partition)
        → here ++ later ≡ of (get (some cond_val) ((some cond_val, settings) ∷ partition))
    chosen_self rest =
        rw
          (
            get-cons (some cond_val) (some cond_val) settings partition,
            (list_beq_iff cond_val cond_val).1 refl,
            rest,
            get_absent (some cond_val) partition only,
            of_nil,
            append-nil here,
          )
          made

    chosen_entry :
        (value : Option Text)
        → later ≡ chosen of value (λ v. get (some v) partition)
        → (if value == some cond_val then here else []) ++ later
          ≡ chosen of value (λ v. get (some v) ((some cond_val, settings) ∷ partition))
    unfolding chosen
    chosen_entry none rest = rest
    chosen_entry (some v) rest = elim (Bool-cases (v == cond_val)) [
      | inl same ↦
          let e = (list_beq_iff v cond_val).0 same in
          rw same (rw e (chosen_self (rest ∙ ap (λ w. of (get (some w) partition)) e)))
      | inr other ↦
          let e : (cond_val == v) ≡ false =
            ground (arith, list_beq_iff cond_val v, list_beq_iff v cond_val) in
          rw (other, get-cons (some cond_val) (some v) settings partition, e) rest
    ]

  effects_ifs-branches_of :
      (condition : Text) (partition : Partition) (branches : Branches)
      → distinct partition ≡ true
      → branches_of init partition ≡ ok branches
      → effects_ifs build condition branches
        ≡ chosen of (build condition) (λ cond_val. get (some cond_val) partition)
  unfolding branches_of effects get lookup distinct chosen
  effects_ifs-branches_of condition [] branches once done =
      subst (λ made. effects_ifs build condition made ≡ chosen of (build condition) (λ _. []))
        (ok_injective done) (sym (chosen-nil (build condition)))
  effects_ifs-branches_of condition ((none, settings) ∷ partition) branches once done =
      let (tree, made, later) = ok_of_bind (init settings) _ done in
      let (others, rest, last) = ok_of_bind (branches_of init partition) _ later in
      subst
        (λ made.
          effects_ifs build condition made
          ≡ chosen of (build condition) (λ cond_val. get (some cond_val) partition))
        (ok_injective last)
        (effects_ifs-branches_of condition partition others (ground (arith, once)) rest)
  effects_ifs-branches_of condition ((some cond_val, settings) ∷ partition) branches once done =
      let (tree, made, later) = ok_of_bind (init settings) _ done in
      let (others, rest, last) = ok_of_bind (branches_of init partition) _ later in
      let next = effects_ifs-branches_of condition partition others (ground (arith, once)) rest in
      subst
        (λ made.
          effects_ifs build condition made
          ≡ chosen of (build condition) (λ v. get (some v) ((some cond_val, settings) ∷ partition)))
        (ok_injective last)
        (chosen_entry cond_val settings partition (effects build tree)
          (effects_ifs build condition others) (agrees settings tree made) (ground (arith, once))
          (build condition) next)

leaf_of-effects :
    (build : Build) (name : Text) (settings : List Setting) (tree : Tree)
    → leaf_of name settings ≡ ok tree
    → effects build tree ≡ calls_of name settings
unfolding leaf_of effects calls_of
leaf_of-effects build name settings tree done =
    let (_, checked, made) =
      ok_of_bind (expect (all_append settings || length settings == 1) assertion) _ done in
    subst (λ tree. effects build tree ≡ calls_of name settings) (ok_injective made) refl

-- The two ways of a round.
module _ (name : Text) (fuel : ℕ) (settings : List Setting) where
  pub init_from-leaf :
      choose settings ≡ none → init_from (suc fuel) name settings ≡ leaf_of name settings
  unfolding init_from
  init_from-leaf bare = rw (bare, init_from)

  pub init_from-node :
      (condition : Text)
      → choose settings ≡ some condition
      → init_from (suc fuel) name settings ≡ (
          branches_of (init_from fuel name) (partition_from condition [] settings)
          >>= (λ branches. ok (node condition branches)))
  unfolding init_from
  init_from-node condition split = rw (split, init_from)

  pub meaning-leaf :
      (build : Build)
      → choose settings ≡ none
      → meaning build name (suc fuel) settings ≡ calls_of name settings
  unfolding meaning
  meaning-leaf build bare = rw (bare, meaning)

  pub meaning-node :
      (build : Build) (condition : Text)
      → choose settings ≡ some condition
      → meaning build name (suc fuel) settings
        ≡ meaning build name fuel (select condition none settings)
          ++ chosen
              (meaning build name fuel)
              (build condition)
              (λ cond_val. select condition (some cond_val) settings)
  unfolding meaning
  meaning-node build condition split = rw (split, meaning)

-- A tree that the constructor makes has the effects of its settings.
pub effects-init_from :
    (build : Build) (name : Text) (fuel : ℕ) (settings : List Setting) (tree : Tree)
    → init_from fuel name settings ≡ ok tree
    → effects build tree ≡ meaning build name fuel settings
unfolding init_from effects
effects-init_from build name zero settings tree done = cc
effects-init_from build name (suc fuel) settings tree done = elim (Option-cases (choose settings)) [
  | inl bare ↦
      leaf_of-effects build name settings tree (sym (init_from-leaf name fuel settings bare) ∙ done)
      ∙ sym (meaning-leaf name fuel settings build bare)
  | inr (condition, split) ↦
      let partition = partition_from condition [] settings in
      let agrees = effects-init_from build name fuel in
      let none_yet = meaning-nil build name fuel in
      let (branches, made, last) =
        ok_of_bind (branches_of (init_from fuel name) partition) _
          (sym (init_from-node name fuel settings condition split) ∙ done) in
      let of : List Setting → List Call = meaning build name fuel in
      subst (λ tree. effects build tree ≡ meaning build name (suc fuel) settings)
        (ok_injective last)
        (ap (λ calls. calls ++ effects_ifs build condition branches)
            (effects_none-branches_of build (init_from fuel name) of none_yet agrees partition
                branches made
              ∙ ap of (get-partition condition none settings))
          ∙ ap (λ calls. of (select condition none settings) ++ calls)
              (effects_ifs-branches_of build (init_from fuel name) of none_yet agrees condition
                  partition branches (distinct-partition condition settings) made
                ∙ ap (chosen of (build condition))
                    (fun_ext (λ cond_val. get-partition condition (some cond_val) settings)))
          ∙ sym (meaning-node name fuel settings build condition split))
]
