-- ===== src/Macros/Selected.antt =====
-- The class MacroConditionTree makes a tree of the settings that pass the ambiguity check, and of appending
-- ones, and a build takes the most specific setting that applies.
use mathlib.Core.List.{append-nil}
use cime.Common.{
  Text, ℕ, zero, suc, ◌<◌, true, false, ◌||◌, Option, none, some, List, [], ◌∷◌, ◌++◌, ◌≡◌, refl,
  sym, subst, length, ◌==◌, nat_eq, arith, Option-cases, inl, inr, ◌∙◌, ap, All, map, ok, IsOk,
}
use cime.Macros.Setting.{Setting, Build, holds, all, is_subset}
use cime.Macros.Tree.{Tree, choose, all_append, all_set_up, all_tear_down, pop, init, size_all}
use cime.Macros.Writer.{write_line, assignment_call, write_leaf, write_out, run_file}
use cime.Macros.Choice.{choose-any_has, choose-none}
use cime.Macros.Effects.{run_file-effects}
use cime.Macros.Partition.{select, size_all-select-lt, select-All}
use cime.Macros.Meaning.{meaning, meaning-leaf, meaning-node, chosen, calls_of, effects-init_from}
use cime.Macros.Sound.{IsSound, spent, bare, split, init_from-IsOk}
use cime.Macros.Unambiguous.{
  Has, IsUnambiguous, select-IsUnambiguous, IsUnambiguous-IsSound, one_bare,
}
use cime.Macros.Specific.{
  last_set, last_set-append, after, Decided, unset, decided, Decided-none, Decided-some,
}

last_set-lines : (lines : List Text) → last_set (map write_line lines) ≡ none
unfolding last_set
last_set-lines [] = refl
last_set-lines (line ∷ lines) = last_set-lines lines

-- A leaf with one setting that sets the variable.
last_set-leaf :
    (name value : Text) (set_up tear_down : List Text)
    → last_set (write_leaf false ((name, value) ∷ []) set_up tear_down) ≡ some value
unfolding write_leaf
last_set-leaf name value set_up tear_down =
    last_set-append (map write_line set_up) _
    ∙ (unfold last_set assignment_call after in
        ground (arith, last_set-lines set_up, last_set-lines tear_down))

last_set-one :
    (name : Text) (setting : Setting)
    → setting.do_append ≡ false
    → last_set (calls_of name (setting ∷ [])) ≡ some setting.value
unfolding calls_of
last_set-one name setting sets =
    let not_all : all_append (setting ∷ []) ≡ false =
      unfold all_append all in ground (arith, sets) in
    ap
      (λ append. last_set (
        write_leaf append ((name, setting.value) ∷ []) (all_set_up (setting ∷ []))
          (all_tear_down (setting ∷ []))))
      not_all
    ∙ last_set-leaf name setting.value (all_set_up (setting ∷ [])) (all_tear_down (setting ∷ []))

Decided-leaf :
    (build : Build) (name : Text) (settings : List Setting)
    → IsUnambiguous settings
    → All (λ setting. setting.conditions ≡ []) settings
    → (all_append settings || length settings == 1) ≡ true
    → Decided build settings (last_set (calls_of name settings))
unfolding all_append all
Decided-leaf build name [] clear none_left fits =
    unfold calls_of write_leaf last_set all_set_up all_tear_down in unset (λ t has. absurd has)
Decided-leaf build name (setting ∷ []) (sets, _, _) (no_conditions, none_left) fits =
    subst (Decided build (setting ∷ [])) (sym (last_set-one name setting sets)) (
      decided setting (inl refl) (rw no_conditions (unfold holds all in refl))
        λ t has here. alone t has)
  where
    alone : (t : Setting) → Has t (setting ∷ []) → is_subset t.conditions setting.conditions ≡ true
    alone t (inl same) = rw same (rw no_conditions (unfold is_subset all in refl))
    alone t (inr has) = absurd has
Decided-leaf build name (setting ∷ other ∷ settings) (sets, _, _) none_left fits =
    absurd (ground (arith, sets, fits))

Decided-meaning :
    (build : Build) (name : Text) (fuel : ℕ) (settings : List Setting)
    → IsUnambiguous settings
    → size_all settings < fuel
    → Decided build settings (last_set (meaning build name fuel settings))
unfolding chosen
Decided-meaning build name zero settings clear enough = absurd (omega arith)
Decided-meaning build name (suc fuel) settings clear enough =
    elim (Option-cases (choose settings)) [
      | inl plain ↦ rw (meaning-leaf name fuel settings build plain) (
          let none_left = choose-none settings plain in
          Decided-leaf build name settings clear none_left (one_bare settings clear none_left))
      | inr (condition, picked) ↦
          let part = λ (at : Option Text).
            Decided-meaning build name fuel (select condition at settings)
              (select-IsUnambiguous condition at settings clear)
              (omega (
                arith,
                size_all-select-lt condition at settings (choose-any_has settings condition picked),
              )) in
          let of = λ (value : Option Text).
            meaning build name fuel (select condition none settings)
            ++ chosen (meaning build name fuel) value (λ v. select condition (some v) settings) in
          rw (meaning-node name fuel settings build condition picked)
            (elim (Option-cases (build condition)) [
              | inl unset_here ↦
                  subst (λ value. Decided build settings (last_set (of value))) (sym unset_here)
                    (subst (Decided build settings)
                      (ap last_set (
                        sym
                          (append-nil (meaning build name fuel (select condition none settings)))))
                      (Decided-none build condition settings unset_here (part none)))
              | inr (v, is_set) ↦
                  subst (λ value. Decided build settings (last_set (of value))) (sym is_set)
                    (subst (Decided build settings)
                      (sym (
                        last_set-append (meaning build name fuel (select condition none settings))
                          _))
                      (Decided-some build condition settings v clear is_set (part none)
                        (part (some v))))
            ])
    ]

-- Of settings that only set the variable, and of which no two are ambiguous, the constructor of
-- MacroConditionTree makes a tree. In every build, what the written tree leaves in the variable is
-- decided: if no setting applies, the variable is not set, and otherwise it has the value of a
-- setting that applies and has all the conditions of each setting that applies.
pub init-Decided :
    (name : Text) (settings : List Setting)
    → IsUnambiguous settings
    → (tree : Tree) × (init name settings ≡ ok tree)
      × ((build : Build) → Decided build settings (last_set (run_file build 0 (write_out tree))))
unfolding init
init-Decided name settings clear =
    let enough : size_all settings < suc (size_all settings) = omega arith in
    let (tree, done) =
      init_from-IsOk name (IsUnambiguous-IsSound (suc (size_all settings)) settings clear) enough in
    (
      tree,
      done,
      λ build.
          subst (Decided build settings)
            (ap last_set (
              sym (
                run_file-effects build tree
                ∙ effects-init_from build name (suc (size_all settings)) settings tree done)))
            (Decided-meaning build name (suc (size_all settings)) settings clear enough),
    )

pub all_append_of :
    (settings : List Setting)
    → All (λ setting. setting.do_append ≡ true) settings
    → all_append settings ≡ true
unfolding all_append all
all_append_of [] appending = refl
all_append_of (setting ∷ settings) (appends, appending) =
    ground (arith, appends, all_append_of settings appending)

all_append-IsSound :
    (fuel : ℕ) (settings : List Setting)
    → All (λ setting. setting.do_append ≡ true) settings
    → IsSound fuel settings
all_append-IsSound zero settings appending = spent
all_append-IsSound (suc fuel) settings appending = elim (Option-cases (choose settings)) [
  | inl plain ↦ bare plain (ground (arith, all_append_of settings appending))
  | inr (condition, picked) ↦ split picked λ at.
      all_append-IsSound fuel (select condition at settings) (
        select-All (λ setting. setting.do_append ≡ true) condition at settings
          (λ setting appends. unfold pop in appends) appending)
]

-- Of settings that all append to the variable, whatever their conditions, the constructor of
-- MacroConditionTree makes a tree: no assertion fails.
pub init-IsOk :
    (name : Text) (settings : List Setting)
    → All (λ setting. setting.do_append ≡ true) settings
    → IsOk (init name settings)
unfolding init
init-IsOk name settings appending =
    init_from-IsOk name (all_append-IsSound (suc (size_all settings)) settings appending)
      (omega arith)
