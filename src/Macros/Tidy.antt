-- ===== src/Macros/Tidy.antt =====
-- The constructor of MacroConditionTree makes trees whose leaves are alike, with one branch for None at most.
use cime.Common.{
  Text, ℕ, zero, suc, Bool, true, false, ◌||◌, if◌then◌else◌, Option, none, some, List, [], ◌∷◌,
  ◌++◌, ◌≡◌, refl, sym, subst, ◌==◌, nat_eq, list_eq, arith, Bool-cases, Option-cases, inl, inr,
  ◌∙◌, length, is_nil, is_some, All, Result, ok, expect, ok_of_bind,
}
use cime.Common.Dict.{lookup, member, insert}
use cime.Common.Dict.Distinct.{distinct, All-insert}
use cime.Macros.Setting.{Setting, option_eq, all}
use cime.Macros.Tree.{
  Tree, Branches, MacroError, assertion, Partition, get, pop, partition_from, choose, all_append,
  leaf_of, branches_of, init_from,
}
use cime.Macros.Partition.{distinct-partition, get-cons}
use cime.Macros.Selected.{all_append_of}
use cime.Macros.Meaning.{ok_injective, init_from-leaf, init_from-node}
use cime.Macros.Merge.{same_bool}
use cime.Macros.Weight.{is_tidy, are_tidy, has_none}

kind_of_leaf :
    (kind : Bool) (settings : List Setting)
    → is_nil settings ≡ false
    → All (λ setting. setting.do_append ≡ kind) settings
    → same_bool kind (all_append settings) ≡ true
unfolding all_append all
kind_of_leaf kind [] some_here each = cc
kind_of_leaf true (setting ∷ settings) some_here each = all_append_of (setting ∷ settings) each
kind_of_leaf false (setting ∷ settings) some_here (first, each) = ground (arith, first)

module _ (kind : Bool) where
  -- There are settings, and all of them append, or none does.
  abbrev pub IsAlike : List Setting → Type 0
  IsAlike settings = (is_nil settings ≡ false) × All (λ setting. setting.do_append ≡ kind) settings

  IsAlike-append :
      (settings : List Setting) (setting : Setting)
      → All (λ setting. setting.do_append ≡ kind) settings
      → setting.do_append ≡ kind
      → IsAlike (settings ++ setting ∷ [])
  IsAlike-append [] setting each last = (refl, (last, tt))
  IsAlike-append (first ∷ settings) setting (here, each) last =
      (refl, (here, (IsAlike-append settings setting each last).1))

  get-All :
      (key : Option Text) (partition : Partition)
      → All (λ entry. IsAlike entry.1) partition
      → All (λ setting. setting.do_append ≡ kind) (get key partition)
  unfolding get lookup
  get-All key [] each = tt
  get-All key ((here, settings) ∷ partition) (first, each) =
      let value = λ (test : Bool). if test then settings else get key partition in
      subst (All (λ setting. setting.do_append ≡ kind)) (sym (get-cons here key settings partition))
        (elim (Bool-cases (here == key)) [
          | inl same ↦
              subst (λ test. All (λ setting. setting.do_append ≡ kind) (value test)) (sym same)
                first.1
          | inr other ↦
              subst (λ test. All (λ setting. setting.do_append ≡ kind) (value test)) (sym other)
                (get-All key partition each)
        ])

  partition_from-IsAlike :
      (condition : Text) (partition : Partition) (settings : List Setting)
      → All (λ entry. IsAlike entry.1) partition
      → All (λ setting. setting.do_append ≡ kind) settings
      → All (λ entry. IsAlike entry.1) (partition_from condition partition settings)
  unfolding partition_from
  partition_from-IsAlike condition partition [] entries each = entries
  partition_from-IsAlike condition partition (setting ∷ settings) entries (first, each) =
      let here = lookup condition setting.conditions in
      let grown = get here partition ++ pop condition setting ∷ [] in
      partition_from-IsAlike condition (insert here grown partition) settings
        (All-insert (λ entry. IsAlike entry.1) here grown partition
          (IsAlike-append (get here partition) (pop condition setting)
            (get-All here partition entries) (unfold pop in first))
          entries)
        each

  leaf_of-tidy :
      (name : Text) (settings : List Setting) (tree : Tree)
      → IsAlike settings
      → leaf_of name settings ≡ ok tree
      → is_tidy kind tree ≡ true
  unfolding leaf_of is_tidy
  leaf_of-tidy name settings tree alike done =
      let (_, fits, made) =
        ok_of_bind (expect (all_append settings || length settings == 1) assertion) _ done in
      subst (λ t. is_tidy kind t ≡ true) (ok_injective made)
        (kind_of_leaf kind settings alike.0 alike.1)

  branches_of-tidy :
      (init : List Setting → Result MacroError Tree) (partition : Partition) (branches : Branches)
      → ((settings : List Setting) (tree : Tree)
          → IsAlike settings
          → init settings ≡ ok tree
          → is_tidy kind tree ≡ true)
      → distinct partition ≡ true
      → All (λ entry. IsAlike entry.1) partition
      → branches_of init partition ≡ ok branches
      → (are_tidy kind branches ≡ true) × (has_none branches ≡ member none partition)
  unfolding branches_of is_tidy distinct has_none member lookup
  branches_of-tidy init [] branches each once alike done =
      subst (λ b. (are_tidy kind b ≡ true) × (has_none b ≡ false)) (ok_injective done) (refl, refl)
  branches_of-tidy init ((none, settings) ∷ partition) branches each once (first, alike) done =
      let (tree, made, later) = ok_of_bind (init settings) _ done in
      let (others, rest, last) = ok_of_bind (branches_of init partition) _ later in
      let (tidy, same) =
        branches_of-tidy init partition others each (ground (arith, once)) alike rest in
      subst (λ b. (are_tidy kind b ≡ true) × (has_none b ≡ true)) (ok_injective last)
        (ground (arith, once, tidy, same, each settings tree first made), refl)
  branches_of-tidy init ((some v, settings) ∷ partition) branches each once (first, alike) done =
      let (tree, made, later) = ok_of_bind (init settings) _ done in
      let (others, rest, last) = ok_of_bind (branches_of init partition) _ later in
      let (tidy, same) =
        branches_of-tidy init partition others each (ground (arith, once)) alike rest in
      subst (λ b. (are_tidy kind b ≡ true) × (has_none b ≡ is_some (lookup none partition)))
        (ok_injective last) (ground (arith, tidy, each settings tree first made), same)

  pub init_from-tidy :
      (name : Text) (fuel : ℕ) (settings : List Setting) (tree : Tree)
      → IsAlike settings
      → init_from fuel name settings ≡ ok tree
      → is_tidy kind tree ≡ true
  unfolding init_from is_tidy
  init_from-tidy name zero settings tree alike done = cc
  init_from-tidy name (suc fuel) settings tree alike done = elim (Option-cases (choose settings)) [
    | inl plain ↦
        leaf_of-tidy name settings tree alike (sym (init_from-leaf name fuel settings plain) ∙ done)
    | inr (condition, picked) ↦
        let partition = partition_from condition [] settings in
        let (branches, made, last) =
          ok_of_bind (branches_of (init_from fuel name) partition) _
            (sym (init_from-node name fuel settings condition picked) ∙ done) in
        subst (λ t. is_tidy kind t ≡ true) (ok_injective last)
          (branches_of-tidy (init_from fuel name) partition branches (init_from-tidy name fuel)
            (distinct-partition condition settings)
            (partition_from-IsAlike condition [] settings tt alike.1) made).0
  ]
