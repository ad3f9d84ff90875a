-- ===== src/Macros/Sound.antt =====
-- A partition of settings whose leaves the constructor of MacroConditionTree accepts.
use cime.Common.{
  Text, ℕ, zero, suc, ◌<◌, true, false, ◌||◌, if◌then◌else◌, Option, none, some, List, [], ◌∷◌, ◌≡◌,
  ◌⊎◌, refl, sym, subst, length, ◌==◌, nat_eq, list_eq, arith, Option-cases, Bool-cases, inl, inr,
  ◌∙◌, ap, All, Result, ok, expect, IsOk, IsOk-bind, IsOk-expect, ok_of_bind,
}
use cime.Common.Dict.{lookup, member}
use cime.Common.Dict.Distinct.{distinct}
use cime.Macros.Setting.{Setting, all, option_eq, option_beq_iff}
use cime.Macros.Tree.{
  Tree, leaf, node, Branches, empty, branch, MacroError, assertion, Partition, get, partition_from,
  choose, all_append, leaf_of, branches_of, init_from, size_all, any_has, all_conditions,
  first_sorted, all_set_up, all_tear_down,
}
use cime.Macros.Choice.{choose-any_has}
use cime.Macros.Meaning.{init_from-leaf, init_from-node}
use cime.Macros.Partition.{
  select, get-cons, get_absent, get-partition, distinct-partition, size_all-select-lt,
}

pub data IsSound : ℕ → List Setting → Type 0 where
  spent : {settings : List Setting} → IsSound 0 settings
  bare :
      {fuel : ℕ} {settings : List Setting}
      → choose settings ≡ none
      → (all_append settings || length settings == 1) ≡ true
      → IsSound (suc fuel) settings
  split :
      {fuel : ℕ} {settings : List Setting} {condition : Text}
      → choose settings ≡ some condition
      → ((cond_val : Option Text) → IsSound fuel (select condition cond_val settings))
      → IsSound (suc fuel) settings

pub IsSound-nil : (fuel : ℕ) → IsSound fuel []
unfolding choose any_has all_conditions first_sorted all_append all
IsSound-nil zero = spent
IsSound-nil (suc fuel) = bare refl refl

-- The entries of a partition, from what it gives for each key.
entries-get {ℓ} :
    (P : List Setting → Type ℓ) (partition : Partition)
    → distinct partition ≡ true
    → P []
    → ((cond_val : Option Text) → P (get cond_val partition))
    → All (λ entry. P entry.1) partition
unfolding distinct
entries-get P [] once no_settings each = tt
entries-get P ((here, settings) ∷ partition) once no_settings each =
    (first, entries-get P partition (ground (arith, once)) no_settings rest)
  where
    first : P settings
    first =
        subst P
          (get-cons here here settings partition
            ∙ ap (λ test. if test then settings else get here partition)
                ((option_beq_iff here here).1 refl))
          (each here)

    rest : (cond_val : Option Text) → P (get cond_val partition)
    rest at = elim (Bool-cases (here == at)) [
      | inl same ↦
          let absent : member here partition ≡ false = ground (arith, once) in
          let e = (option_beq_iff here at).0 same in
          subst (λ key. P (get key partition)) e
            (subst P (sym (get_absent here partition absent)) no_settings)
      | inr other ↦
          subst P
            (get-cons here at settings partition
              ∙ ap (λ test. if test then settings else get at partition) other)
            (each at)
    ]

-- The constructor accepts the branches if it accepts every part.
branches_of-IsOk :
    (init : List Setting → Result MacroError Tree) (partition : Partition)
    → All (λ entry. IsOk (init entry.1)) partition
    → IsOk (branches_of init partition)
unfolding branches_of
branches_of-IsOk init [] each = (empty, refl)
branches_of-IsOk init ((cond_val, settings) ∷ partition) ((tree, made), each) =
    let (branches, rest) = branches_of-IsOk init partition each in
    (branch cond_val tree branches, rw (made, rest))

init_from_nil-IsOk : (name : Text) (fuel : ℕ) → 0 < fuel → IsOk (init_from fuel name [])
unfolding init_from choose any_has all_conditions first_sorted leaf_of all_append all
init_from_nil-IsOk name zero enough = absurd (omega arith)
init_from_nil-IsOk name (suc fuel) enough = (leaf true [] (all_set_up []) (all_tear_down []), refl)

-- Where the fuel is enough, the constructor accepts sound settings.
pub init_from-IsOk :
    (name : Text) {fuel : ℕ} {settings : List Setting}
    → IsSound fuel settings
    → size_all settings < fuel
    → IsOk (init_from fuel name settings)
unfolding leaf_of
init_from-IsOk name spent enough = absurd (omega arith)
init_from-IsOk name (bare {fuel} {settings} chosen fits) enough =
    subst IsOk (sym (init_from-leaf name fuel settings chosen))
      (IsOk-bind (expect _ _) _ (IsOk-expect _ _ fits) (λ _ _. (_, refl)))
init_from-IsOk name (split {fuel} {settings} {condition} chosen each) enough =
    let partition = partition_from condition [] settings in
    let smaller = λ (at : Option Text).
      size_all-select-lt condition at settings (choose-any_has settings condition chosen) in
    let part = λ (at : Option Text).
      subst (λ part. IsOk (init_from fuel name part)) (sym (get-partition condition at settings))
        (init_from-IsOk name (each at) (omega (arith, smaller at))) in
    let entries =
      entries-get (λ part. IsOk (init_from fuel name part)) partition
        (distinct-partition condition settings)
        (init_from_nil-IsOk name fuel (omega (arith, smaller none))) part in
    subst IsOk (sym (init_from-node name fuel settings condition chosen)) (
      IsOk-bind (branches_of (init_from fuel name) partition) _
        (branches_of-IsOk (init_from fuel name) partition entries)
        (λ branches _. (node condition branches, refl)))

-- The parts of the branches that the constructor accepts.
branches_of-parts :
    (init : List Setting → Result MacroError Tree) (partition : Partition) (branches : Branches)
    → branches_of init partition ≡ ok branches
    → (at : Option Text) → IsOk (init (get at partition)) ⊎ (get at partition ≡ [])
unfolding branches_of
branches_of-parts init [] branches done at = inr (get_absent at [] (unfold member lookup in refl))
branches_of-parts init ((here, settings) ∷ partition) branches done at =
    let (tree, made, later) = ok_of_bind (init settings) _ done in
    let (others, rest, _) = ok_of_bind (branches_of init partition) _ later in
    elim (Bool-cases (here == at)) [
      | inl same ↦ rw (get-cons here at settings partition, same) (inl (tree, made))
      | inr other ↦
          rw (get-cons here at settings partition, other)
            (branches_of-parts init partition others rest at)
    ]

-- The constructor accepts only sound settings.
pub init_from-IsSound :
    (name : Text) (fuel : ℕ) (settings : List Setting) (tree : Tree)
    → init_from fuel name settings ≡ ok tree
    → IsSound fuel settings
unfolding leaf_of
init_from-IsSound name zero settings tree done = spent
init_from-IsSound name (suc fuel) settings tree done = elim (Option-cases (choose settings)) [
  | inl chosen ↦
      let (_, fits, _) =
        ok_of_bind (expect (all_append settings || length settings == 1) assertion) _
          (sym (init_from-leaf name fuel settings chosen) ∙ done) in
      bare chosen (ground (arith, fits))
  | inr (condition, chosen) ↦
      let partition = partition_from condition [] settings in
      let (branches, made, _) =
        ok_of_bind (branches_of (init_from fuel name) partition) _
          (sym (init_from-node name fuel settings condition chosen) ∙ done) in
      split chosen λ at.
        subst (IsSound fuel) (get-partition condition at settings)
          (elim (branches_of-parts (init_from fuel name) partition branches made at) [
            | inl (tree', done') ↦ init_from-IsSound name fuel (get at partition) tree' done'
            | inr nothing ↦ subst (IsSound fuel) (sym nothing) (IsSound-nil fuel)
          ])
]
