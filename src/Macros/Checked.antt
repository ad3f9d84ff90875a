-- ===== src/Macros/Checked.antt =====
-- When to_cond_trees of scripts/lib/CIME/BuildTools/possiblevalues.py returns trees.
use cime.Common.{
  Text, ℕ, true, false, none, some, List, [], ◌∷◌, ◌≡◌, refl, err, ◌==◌, nat_eq, is_nil, arith,
  Bool-cases, inl, inr, All, IsOk, IsOk-bind, IsOk-if,
}
use cime.Macros.Setting.{Setting, is_ambiguous_with}
use cime.Macros.Tree.{init}
use cime.Macros.Unambiguous.{IsUnambiguous}
use cime.Macros.Selected.{init-Decided, init-IsOk}
use cime.Macros.Values.{
  ValueEntry, PossibleValues, ambiguity, is_clear, are_clear, ambiguity_check, specificities,
  settings_for, tree_of, normal_trees, append_tree, to_cond_trees,
}
use cime.Macros.Relevant.{IsBuilt, Sets, Appends, IsBuilt-Sets, IsBuilt-Appends}

-- The entries with one specificity.
module _ (specificity : ℕ) where
  settings_for-apart :
      (mine : ValueEntry) (entries : List ValueEntry)
      → mine.specificity ≡ specificity
      → is_clear mine entries ≡ true
      → All
          (λ other. is_ambiguous_with mine.setting other ≡ false)
          (settings_for specificity entries)
  unfolding settings_for is_clear
  settings_for-apart mine [] same clear = tt
  settings_for-apart mine (other ∷ entries) same clear =
      let rest = settings_for-apart mine entries same (ground (arith, clear)) in
      elim (Bool-cases (other.specificity == specificity)) [
        | inl here ↦ rw here (ground (arith, clear, here, same), rest)
        | inr gone ↦ rw gone rest
      ]

  settings_for-IsUnambiguous :
      (entries : List ValueEntry)
      → are_clear entries ≡ true
      → All Sets entries
      → IsUnambiguous (settings_for specificity entries)
  unfolding settings_for are_clear
  settings_for-IsUnambiguous [] clear sets = tt
  settings_for-IsUnambiguous (mine ∷ entries) clear (sets_here, sets) =
      let rest = settings_for-IsUnambiguous entries (ground (arith, clear)) sets in
      elim (Bool-cases (mine.specificity == specificity)) [
        | inl here ↦ rw here (
          sets_here,
          settings_for-apart mine entries (ground (arith, here)) (ground (arith, clear)),
          rest,
        )
        | inr gone ↦ rw gone rest
      ]

tree_of-IsOk :
    (name : Text) (settings : List Setting)
    → IsOk (init name settings)
    → IsOk (tree_of name settings)
unfolding tree_of
tree_of-IsOk name settings (tree, made) = (tree, rw (made, tree_of) refl)

normal_trees-IsOk :
    (name : Text) (entries : List ValueEntry) (specificities : List ℕ)
    → are_clear entries ≡ true
    → All Sets entries
    → IsOk (normal_trees name entries specificities)
unfolding normal_trees
normal_trees-IsOk name entries [] clear sets = ([], refl)
normal_trees-IsOk name entries (specificity ∷ rest) clear sets =
    let settings = settings_for specificity entries in
    let (tree, made, _) =
      init-Decided name settings (settings_for-IsUnambiguous specificity entries clear sets) in
    IsOk-bind (tree_of name settings) _ (tree_of-IsOk name settings (tree, made)) λ tree _.
      IsOk-bind (normal_trees name entries rest) _ (normal_trees-IsOk name entries rest clear sets)
        λ trees _. (((specificity, tree) ∷ trees), refl)

append_tree-IsOk :
    (name : Text) (settings : List Setting)
    → All Appends settings
    → IsOk (append_tree name settings)
unfolding append_tree
append_tree-IsOk name settings appends =
    IsOk-if (is_nil settings) _ _ (λ _. (none, refl))
      λ _.
        IsOk-bind (tree_of name settings) _
          (tree_of-IsOk name settings (init-IsOk name settings appends)) λ tree _. (some tree, refl)

-- An object that the program makes is turned into trees exactly when no two of its entries with the
-- same specificity are ambiguous: then to_cond_trees returns, and no assertion about a tree fails,
-- and otherwise it raises the error about ambiguity.
pub to_cond_trees-cases :
    {values : PossibleValues}
    → IsBuilt values
    → (are_clear values.entries ≡ true → IsOk (to_cond_trees values))
      × (are_clear values.entries ≡ false → to_cond_trees values ≡ err ambiguity)
unfolding to_cond_trees ambiguity_check
to_cond_trees-cases {values} built = (returns, raises)
  where
    returns : are_clear values.entries ≡ true → IsOk (to_cond_trees values)
    returns clear = rw clear (
        IsOk-bind (normal_trees values.name values.entries (specificities values.entries)) _
          (normal_trees-IsOk values.name values.entries (specificities values.entries) clear
            (IsBuilt-Sets built))
          λ trees _.
            IsOk-bind (append_tree values.name values.append_settings) _
              (append_tree-IsOk values.name values.append_settings (IsBuilt-Appends built))
              λ appending _. ((trees, appending), refl))

    raises : are_clear values.entries ≡ false → to_cond_trees values ≡ err ambiguity
    raises unclear = rw unclear refl
