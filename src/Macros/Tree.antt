-- ===== src/Macros/Tree.antt =====
-- scripts/lib/CIME/BuildTools/macroconditiontree.py: the class MacroConditionTree.
use cime.Common.{
  Text, text, ℕ, zero, suc, ◌+◌, Bool, true, false, ◌&&◌, ◌||◌, if◌then◌else◌, ltb, Option, none,
  some, List, [], ◌∷◌, ◌++◌, map, length, Result, ok, err, expect, ◌>>=◌, ◌>>◌, ◌==◌, nat_eq,
  list_eq,
}
use cime.Common.Dict.{Dict, lookup, insert, remove, member, keys}
use cime.Macros.Setting.{Setting, all, option_eq}

-- The operator < on texts.
unfoldable pub text_less : Text → Text → Bool
text_less s [] = false
text_less [] (d ∷ t) = true
text_less (c ∷ s) (d ∷ t) = ltb c d || c == d && text_less s t

mutual
  pub data Tree : Type 0 where
    -- self._do_append, self._assignments, self._set_up and self._tear_down
    leaf : Bool → List (Text × Text) → List Text → List Text → Tree
    -- self._condition and self._branches
    node : Text → Branches → Tree

  -- The dictionary of branches, in its order. A settings' key none is Python's None.
  pub data Branches : Type 0 where
    empty : Branches
    branch : Option Text → Tree → Branches → Branches

pub data MacroError : Type 0 where
  -- an assertion of the class fails
  assertion : MacroError
  out_of_fuel : MacroError

abbrev pub compiler : Text
compiler = text "COMPILER"

-- any("COMPILER" in setting.conditions for setting in settings)
unfoldable pub any_has : Text → List Setting → Bool
any_has name [] = false
any_has name (setting ∷ settings) = member name setting.conditions || any_has name settings

unfoldable pub all_conditions : List Setting → List Text
all_conditions [] = []
all_conditions (setting ∷ settings) = keys setting.conditions ++ all_conditions settings

-- The least_name of the names, where `name` is the first of them.
unfoldable pub least_name : Text → List Text → Text
least_name name [] = name
least_name name (other ∷ others) = least_name (if text_less other name then other else name) others

-- sorted(names)[0], if there is a name
unfoldable pub first_sorted : List Text → Option Text
first_sorted [] = none
first_sorted (name ∷ names) = some (least_name name names)

-- The condition of the tree for the settings, none for a leaf.
unfoldable pub choose : List Setting → Option Text
choose settings =
    if any_has compiler settings then some compiler else first_sorted (all_conditions settings)

-- setting.conditions.pop(condition, None), for the setting
unfoldable pub pop : Text → Setting → Setting
pop condition setting = record setting { conditions = remove condition setting.conditions }

abbrev pub Partition : Type 0
Partition = Dict (Option Text) (List Setting)

-- partition[cond_val], and the empty list where the key is missing
unfoldable pub get : Option Text → Partition → List Setting
get cond_val partition = elim (lookup cond_val partition) [ none ↦ [] | some settings ↦ settings ]

-- The loop that partitions the settings.
unfoldable pub partition_from : Text → Partition → List Setting → Partition
partition_from condition partition [] = partition
partition_from condition partition (setting ∷ settings) =
    let cond_val = lookup condition setting.conditions in
    partition_from condition
      (insert cond_val (get cond_val partition ++ pop condition setting ∷ []) partition) settings

unfoldable pub all_append : List Setting → Bool
unfolding all
all_append = all (λ setting. setting.do_append)

unfoldable pub all_set_up : List Setting → List Text
all_set_up [] = []
all_set_up (setting ∷ settings) = setting.set_up ++ all_set_up settings

unfoldable pub all_tear_down : List Setting → List Text
all_tear_down [] = []
all_tear_down (setting ∷ settings) = setting.tear_down ++ all_tear_down settings

-- The tree of settings without conditions.
unfoldable pub leaf_of : Text → List Setting → Result MacroError Tree
leaf_of name settings = do
  expect (all_append settings || length settings == 1) assertion
  ok (
      leaf (all_append settings) (map (λ setting. (name, setting.value)) settings)
        (all_set_up settings) (all_tear_down settings))

-- The branches, where `init` makes the tree of one of them.
unfoldable pub branches_of :
    (List Setting → Result MacroError Tree) → Partition → Result MacroError Branches
branches_of init [] = ok empty
branches_of init ((cond_val, settings) ∷ partition) = do
  tree ← init settings
  branches ← branches_of init partition
  ok (branch cond_val tree branches)

-- __init__, on fuel.
unfoldable pub init_from : ℕ → Text → List Setting → Result MacroError Tree
init_from zero name settings = err out_of_fuel
init_from (suc fuel) name settings = elim (choose settings) [
  | none ↦ leaf_of name settings
  | some condition ↦
      branches_of (init_from fuel name) (partition_from condition [] settings)
      >>= (λ branches. ok (node condition branches))
]

-- The number of conditions of all settings.
unfoldable pub size_all : List Setting → ℕ
size_all [] = 0
size_all (setting ∷ settings) = length setting.conditions + size_all settings

-- __init__. Each round takes a condition from a setting.
unfoldable pub init : Text → List Setting → Result MacroError Tree
init name settings = init_from (suc (size_all settings)) name settings
