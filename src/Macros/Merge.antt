-- ===== src/Macros/Merge.antt =====
-- merge of scripts/lib/CIME/BuildTools/macroconditiontree.py.
use cime.Common.{
  Text, ℕ, zero, suc, ◌+◌, Bool, true, false, if◌then◌else◌, Option, none, some, ◌++◌, Result, ok,
  err, expect, ◌>>=◌, ◌>>◌, ◌==◌, nat_eq, list_eq,
}
use cime.Macros.Setting.{option_eq}
use cime.Macros.Tree.{
  Tree, leaf, node, Branches, empty, branch, MacroError, assertion, out_of_fuel, text_less,
}

-- The operator == on truth values.
abbrev pub same_bool : Bool → Bool → Bool
same_bool true b = b
same_bool false true = false
same_bool false false = true

-- self._branches.get(cond_val)
unfoldable pub find_branch : Option Text → Branches → Option Tree
find_branch key empty = none
find_branch key (branch cond_val tree branches) =
    if cond_val == key then some tree else find_branch key branches

-- self._branches[cond_val] = tree
unfoldable pub set_branch : Option Text → Tree → Branches → Branches
set_branch key tree empty = branch key tree empty
set_branch key tree (branch cond_val old branches) =
    if cond_val == key
    then branch cond_val tree branches
    else branch cond_val old (set_branch key tree branches)

-- The two trees, swapped where the method calls itself with its arguments swapped.
unfoldable pub in_order : Tree → Tree → Tree × Tree
in_order (leaf d a s t) (leaf d' a' s' t') = (leaf d a s t, leaf d' a' s' t')
in_order (leaf d a s t) (node condition branches) = (node condition branches, leaf d a s t)
in_order (node condition branches) (leaf d a s t) = (node condition branches, leaf d a s t)
in_order (node mine branches) (node other others) =
    if text_less mine other
    then (node other others, node mine branches)
    else (node mine branches, node other others)

module _ (merge : Tree → Tree → Result MacroError Tree) where
  -- Another tree for one of the keys.
  unfoldable pub merge_at : Option Text → Tree → Branches → Result MacroError Branches
  merge_at key other branches = elim (find_branch key branches) [
    | none ↦ ok (set_branch key other branches)
    | some mine ↦ merge mine other >>= (λ merged. ok (set_branch key merged branches))
  ]

  -- The loop over the other tree's branches.
  unfoldable pub merge_branches : Branches → Branches → Result MacroError Branches
  merge_branches mine empty = ok mine
  merge_branches mine (branch cond_val tree others) =
      merge_at cond_val tree mine >>= (λ branches. merge_branches branches others)

  unfoldable pub merge_step : Tree → Tree → Result MacroError Tree
  merge_step (leaf d a s t) (leaf d' a' s' t') = do
    expect (same_bool d d') assertion
    ok (leaf d (a ++ a') (s ++ s') (t ++ t'))
  merge_step (leaf d a s t) (node condition branches) = err assertion
  merge_step (node condition branches) (leaf d a s t) =
      merge_at none (leaf d a s t) branches >>= (λ merged. ok (node condition merged))
  merge_step (node mine branches) (node other others) =
      (if text_less other mine
        then merge_at none (node other others) branches
        else merge_branches branches others)
      >>= (λ merged. ok (node mine merged))

unfoldable pub merge_from : ℕ → Tree → Tree → Result MacroError Tree
merge_from zero mine other = err out_of_fuel
merge_from (suc fuel) mine other =
    merge_step (merge_from fuel) (in_order mine other).0 (in_order mine other).1

-- The number of leaves and nodes.
unfoldable mutual
  pub size : Tree → ℕ
  size (leaf d a s t) = 1
  size (node condition branches) = 1 + size_branches branches

  pub size_branches : Branches → ℕ
  size_branches empty = 0
  size_branches (branch cond_val tree branches) = size tree + size_branches branches

-- self.merge(other). Each round takes at least one node.
unfoldable pub merge : Tree → Tree → Result MacroError Tree
merge mine other = merge_from (size mine + size other) mine other

-- merge_optional_trees
unfoldable pub merge_optional_trees : Option Tree → Option Tree → Result MacroError (Option Tree)
merge_optional_trees none big_tree = ok big_tree
merge_optional_trees (some tree) none = ok (some tree)
merge_optional_trees (some tree) (some big_tree) =
    merge big_tree tree >>= (λ merged. ok (some merged))
