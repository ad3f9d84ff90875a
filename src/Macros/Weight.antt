-- ===== src/Macros/Weight.antt =====
-- The branches of a tree, by look-ups: what they weigh, how many there are, and their leaves.
use cime.Common.{
  Text, ℕ, ◌+◌, ◌≤◌, Bool, true, false, not, ◌&&◌, ◌||◌, if◌then◌else◌, Option, none, some, ◌≡◌,
  refl, ◌==◌, nat_eq, list_eq, arith, Bool-cases, inl, inr, ◌∙◌, ap,
}
use cime.Macros.Setting.{Build, option_eq, option_beq_iff}
use cime.Macros.Tree.{Tree, leaf, node, Branches, empty, branch}
use cime.Macros.Writer.{Call, write_leaf}
use cime.Macros.Effects.{effects, effects_none, effects_ifs}
use cime.Macros.Weigh.{weigh, weigh-append}
use cime.Macros.Merge.{same_bool, find_branch, set_branch, size, size_branches}

unfoldable pub has_none : Branches → Bool
has_none empty = false
has_none (branch none tree branches) = true
has_none (branch (some cond_val) tree branches) = has_none branches

-- All leaves append, or all do not; and no node has two branches for None.
unfoldable mutual
  unfolding has_none

  pub is_tidy : Bool → Tree → Bool
  is_tidy kind (leaf do_append a s t) = same_bool kind do_append
  is_tidy kind (node condition branches) = are_tidy kind branches

  pub are_tidy : Bool → Branches → Bool
  are_tidy kind empty = true
  are_tidy kind (branch none tree branches) =
      is_tidy kind tree && (not (has_none branches) && are_tidy kind branches)
  are_tidy kind (branch (some cond_val) tree branches) = is_tidy kind tree && are_tidy kind branches

module _ (f : Call → ℕ) (build : Build) where
  -- The branch for a key takes effect.
  unfoldable pub applies : Text → Option Text → Bool
  applies condition none = true
  applies condition (some cond_val) = build condition == some cond_val

  unfoldable mutual
    pub weight : Tree → ℕ
    weight (leaf do_append a s t) = weigh f (write_leaf do_append a s t)
    weight (node condition branches) = weight_branches condition branches

    pub weight_branches : Text → Branches → ℕ
    weight_branches condition empty = 0
    weight_branches condition (branch cond_val tree branches) =
        (if applies condition cond_val then weight tree else 0) + weight_branches condition branches

  effects_none-nil :
      (branches : Branches) → has_none branches ≡ false → weigh f (effects_none build branches) ≡ 0
  unfolding has_none effects weigh
  effects_none-nil empty missing = refl
  effects_none-nil (branch none tree branches) missing = cc
  effects_none-nil (branch (some cond_val) tree branches) missing =
      effects_none-nil branches missing

  mutual
    unfolding weight effects is_tidy applies weigh

    pub weigh-effects :
        (kind : Bool) (tree : Tree)
        → is_tidy kind tree ≡ true
        → weigh f (effects build tree) ≡ weight tree
    weigh-effects kind (leaf do_append a s t) tidy = refl
    weigh-effects kind (node condition branches) tidy =
        weigh-append f (effects_none build branches) (effects_ifs build condition branches)
        ∙ weigh-branches kind condition branches tidy

    weigh-branches :
        (kind : Bool) (condition : Text) (branches : Branches)
        → are_tidy kind branches ≡ true
        → weigh f (effects_none build branches) + weigh f (effects_ifs build condition branches)
          ≡ weight_branches condition branches
    weigh-branches kind condition empty tidy = refl
    weigh-branches kind condition (branch none tree branches) tidy = ground (
      arith,
      tidy,
      weigh-effects kind tree,
      effects_none-nil branches,
      weigh-branches kind condition branches,
    )
    weigh-branches kind condition (branch (some cond_val) tree branches) tidy =
        elim (Bool-cases (build condition == some cond_val)) [
          | inl here ↦ rw here (
              omega (
                arith,
                weigh-append f (effects build tree) (effects_ifs build condition branches),
                weigh-effects kind tree (ground (arith, tidy)),
                weigh-branches kind condition branches (ground (arith, tidy)),
              ))
          | inr gone ↦
              rw gone (omega (arith, weigh-branches kind condition branches (ground (arith, tidy))))
        ]

  -- What a branch weighs.
  abbrev pub share : Text → Option Text → Tree → ℕ
  share condition key tree = if applies condition key then weight tree else 0

  pub weight-set_branch_new :
      (condition : Text) (key : Option Text) (tree : Tree) (branches : Branches)
      → find_branch key branches ≡ none
      → weight_branches condition (set_branch key tree branches)
        ≡ weight_branches condition branches + share condition key tree
  unfolding find_branch set_branch weight
  weight-set_branch_new condition key tree empty missing = omega arith
  weight-set_branch_new condition key tree (branch cond_val old branches) missing =
      elim (Bool-cases (cond_val == key)) [
        | inl same ↦ absurd (ground (arith, same, missing))
        | inr other ↦
            let later = weight-set_branch_new condition key tree branches (rw other at missing) in
            rw other (omega (arith, later))
      ]

  pub weight-set_branch_old :
      (condition : Text) (key : Option Text) (tree found : Tree) (branches : Branches)
      → find_branch key branches ≡ some found
      → weight_branches condition (set_branch key tree branches) + share condition key found
        ≡ weight_branches condition branches + share condition key tree
  unfolding find_branch set_branch weight
  weight-set_branch_old condition key tree found empty is_found = cc
  weight-set_branch_old condition key tree found (branch cond_val old branches) is_found =
      elim (Bool-cases (cond_val == key)) [
        | inl same ↦
            let here : some old ≡ some found = rw same at is_found in
            let e : old ≡ found = cc in
            rw (same, (option_beq_iff cond_val key).0 same, e) (omega arith)
        | inr other ↦
            let later =
              weight-set_branch_old condition key tree found branches (rw other at is_found) in
            rw other (omega (arith, later))
      ]

has_none-set_branch :
    (key : Option Text) (tree : Tree) (branches : Branches)
    → has_none (set_branch key tree branches) ≡ (has_none branches || key == none)
unfolding has_none set_branch
has_none-set_branch none tree empty = refl
has_none-set_branch (some k) tree empty = refl
has_none-set_branch none tree (branch none old branches) = refl
has_none-set_branch none tree (branch (some v) old branches) =
    has_none-set_branch none tree branches
has_none-set_branch (some k) tree (branch none old branches) = refl
has_none-set_branch (some k) tree (branch (some v) old branches) = elim (Bool-cases (v == k)) [
  | inl same ↦ rw same (ground arith)
  | inr other ↦ rw other (has_none-set_branch (some k) tree branches)
]

module _ (kind : Bool) where
  pub tidy-set_branch :
      (key : Option Text) (tree : Tree) (branches : Branches)
      → is_tidy kind tree ≡ true
      → are_tidy kind branches ≡ true
      → are_tidy kind (set_branch key tree branches) ≡ true
  unfolding is_tidy set_branch
  tidy-set_branch none tree empty here tidy = ground (arith, here)
  tidy-set_branch (some k) tree empty here tidy = ground (arith, here)
  tidy-set_branch none tree (branch none old branches) here tidy = ground (arith, here, tidy)
  tidy-set_branch none tree (branch (some v) old branches) here tidy =
      ground (arith, tidy, tidy-set_branch none tree branches here)
  tidy-set_branch (some k) tree (branch none old branches) here tidy = ground (
    arith,
    tidy,
    has_none-set_branch (some k) tree branches,
    tidy-set_branch (some k) tree branches here,
  )
  tidy-set_branch (some k) tree (branch (some v) old branches) here tidy =
      elim (Bool-cases (v == k)) [
        | inl same ↦ rw same (ground (arith, here, tidy))
        | inr other ↦ rw other (ground (arith, tidy, tidy-set_branch (some k) tree branches here))
      ]

  pub tidy-find_branch :
      (key : Option Text) (found : Tree) (branches : Branches)
      → find_branch key branches ≡ some found
      → are_tidy kind branches ≡ true
      → is_tidy kind found ≡ true
  unfolding is_tidy find_branch
  tidy-find_branch key found empty is_found tidy = cc
  tidy-find_branch key found (branch none old branches) is_found tidy = ground (
    arith,
    tidy,
    is_found,
    ap (is_tidy kind) {x = old} {y = found},
    tidy-find_branch key found branches,
  )
  tidy-find_branch key found (branch (some v) old branches) is_found tidy = ground (
    arith,
    tidy,
    is_found,
    ap (is_tidy kind) {x = old} {y = found},
    tidy-find_branch key found branches,
  )

pub size-set_branch_new :
    (key : Option Text) (tree : Tree) (branches : Branches)
    → find_branch key branches ≡ none
    → size_branches (set_branch key tree branches) ≡ size_branches branches + size tree
unfolding find_branch set_branch size
size-set_branch_new key tree empty missing = omega arith
size-set_branch_new key tree (branch cond_val old branches) missing =
    elim (Bool-cases (cond_val == key)) [
      | inl same ↦ absurd (ground (arith, same, missing))
      | inr other ↦
          let later = size-set_branch_new key tree branches (rw other at missing) in
          rw other (omega (arith, later))
    ]

pub size-set_branch_old :
    (key : Option Text) (tree found : Tree) (branches : Branches)
    → find_branch key branches ≡ some found
    → size_branches (set_branch key tree branches) + size found ≡ size_branches branches + size tree
unfolding find_branch set_branch size
size-set_branch_old key tree found empty is_found = cc
size-set_branch_old key tree found (branch cond_val old branches) is_found =
    elim (Bool-cases (cond_val == key)) [
      | inl same ↦
          let here : some old ≡ some found = rw same at is_found in
          let e : old ≡ found = cc in rw (same, e) (omega arith)
      | inr other ↦
          let later = size-set_branch_old key tree found branches (rw other at is_found) in
          rw other (omega (arith, later))
    ]

pub size-find_branch-le :
    (key : Option Text) (found : Tree) (branches : Branches)
    → find_branch key branches ≡ some found
    → size found ≤ size_branches branches
unfolding find_branch size
size-find_branch-le key found empty is_found = cc
size-find_branch-le key found (branch cond_val old branches) is_found =
    ground (arith, is_found, ap size {x = old} {y = found}, size-find_branch-le key found branches)
