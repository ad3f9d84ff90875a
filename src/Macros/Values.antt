-- ===== src/Macros/Values.antt =====
-- scripts/lib/CIME/BuildTools/possiblevalues.py: the class PossibleValues.
use cime.Common.{
  Text, ℕ, Bool, true, not, ◌&&◌, ◌||◌, if◌then◌else◌, ltb, Option, none, some, List, [], ◌∷◌, ◌++◌,
  Result, ok, err, expect, ◌>>=◌, ◌>>◌, ◌==◌, nat_eq, list_eq, contains, is_nil,
}
use cime.Macros.Setting.{Setting, is_ambiguous_with, has_special_case}
use cime.Macros.Tree.{Tree, MacroError, init}

-- One place of self.settings, self._specificities and self._depends, which are kept in step.
pub record ValueEntry : Type 0 where
  pub setting : Setting
  pub specificity : ℕ
  pub depends : List Text

pub record PossibleValues : Type 0 where
  pub name : Text
  pub entries : List ValueEntry
  pub append_settings : List Setting
  pub append_depends : List Text

pub data ValuesError : Type 0 where
  -- the variable is set ambiguously
  ambiguity : ValuesError
  -- a tree cannot be made
  tree_error : MacroError → ValuesError

-- The union of two sets, mine |= other.
unfoldable pub union : List Text → List Text → List Text
union mine [] = mine
union mine (name ∷ names) = union (if contains mine name then mine else mine ++ name ∷ []) names

abbrev entry : Setting → ℕ → List Text → ValueEntry
entry setting specificity depends = record {
  setting = setting;
  specificity = specificity;
  depends = depends;
}

-- __init__
unfoldable pub possible_values : Text → Setting → ℕ → List Text → PossibleValues
possible_values name setting specificity depends =
    if setting.do_append
    then record {
      name = name;
      entries = [];
      append_settings = setting ∷ [];
      append_depends = depends;
    }
    else record {
      name = name;
      entries = entry setting specificity depends ∷ [];
      append_settings = [];
      append_depends = [];
    }

-- The entries that a new setting leaves; none if a more specific setting makes it useless.
unfoldable pub override : Setting → ℕ → List ValueEntry → Option (List ValueEntry)
override setting specificity [] = some []
override setting specificity (other ∷ entries) =
    let rest = override setting specificity entries in
    if ltb specificity other.specificity && has_special_case other.setting setting
    then none
    else elim rest [
      | none ↦ none
      | some kept ↦ some (
          if ltb other.specificity specificity && has_special_case setting other.setting
          then kept
          else other ∷ kept)
    ]

unfoldable pub add_setting : Setting → ℕ → List Text → PossibleValues → PossibleValues
add_setting setting specificity depends values =
    if setting.do_append
    then record values {
      append_settings = values.append_settings ++ setting ∷ [];
      append_depends = union values.append_depends depends;
    }
    else elim (override setting specificity values.entries) [
      | none ↦ values
      | some kept ↦ record values { entries = kept ++ entry setting specificity depends ∷ [] }
    ]

-- The loop over the entries behind one.
unfoldable pub is_clear : ValueEntry → List ValueEntry → Bool
is_clear mine [] = true
is_clear mine (other ∷ entries) =
    (not (mine.specificity == other.specificity)
      || not (is_ambiguous_with mine.setting other.setting))
    && is_clear mine entries

unfoldable pub are_clear : List ValueEntry → Bool
are_clear [] = true
are_clear (mine ∷ entries) = is_clear mine entries && are_clear entries

unfoldable pub ambiguity_check : PossibleValues → Result ValuesError (Unit {0})
ambiguity_check values = expect (are_clear values.entries) ambiguity

unfoldable pub all_depends : List Text → List ValueEntry → List Text
all_depends names [] = names
all_depends names (other ∷ entries) = all_depends (union names other.depends) entries

unfoldable pub dependencies : PossibleValues → List Text
dependencies values = all_depends values.append_depends values.entries

-- Into a sorted list, unless it is there.
unfoldable pub insert_specificity : ℕ → List ℕ → List ℕ
insert_specificity n [] = n ∷ []
insert_specificity n (m ∷ ms) =
    let rest = insert_specificity n ms in
    if ltb n m then n ∷ m ∷ ms else if n == m then m ∷ ms else m ∷ rest

-- sorted(list(set(self._specificities)))
unfoldable pub specificities : List ValueEntry → List ℕ
unfolding insert_specificity
specificities [] = []
specificities (other ∷ entries) = insert_specificity other.specificity (specificities entries)

-- settings_for_tree
unfoldable pub settings_for : ℕ → List ValueEntry → List Setting
settings_for specificity [] = []
settings_for specificity (other ∷ entries) =
    let rest = settings_for specificity entries in
    if other.specificity == specificity then other.setting ∷ rest else rest

unfoldable pub tree_of : Text → List Setting → Result ValuesError Tree
tree_of name settings = elim (init name settings) [ ok tree ↦ ok tree | err e ↦ err (tree_error e) ]

-- The trees of the specificities, in their order.
unfoldable pub normal_trees : Text → List ValueEntry → List ℕ → Result ValuesError (List (ℕ × Tree))
normal_trees name entries [] = ok []
normal_trees name entries (specificity ∷ rest) = do
  tree ← tree_of name (settings_for specificity entries)
  trees ← normal_trees name entries rest
  ok ((specificity, tree) ∷ trees)

unfoldable pub append_tree : Text → List Setting → Result ValuesError (Option Tree)
append_tree name settings =
    if is_nil settings then ok none else (tree_of name settings >>= (λ tree. ok (some tree)))

unfoldable pub to_cond_trees : PossibleValues → Result ValuesError (List (ℕ × Tree) × Option Tree)
to_cond_trees values = do
  ambiguity_check values
  trees ← normal_trees values.name values.entries (specificities values.entries)
  appending ← append_tree values.name values.append_settings
  ok (trees, appending)
