-- ===== src/Macros/Merged.antt =====
-- Merging two trees gives a tree with the effects of both.
use cime.Common.{
  Text, ℕ, suc, ◌+◌, ◌≤◌, Bool, true, false, Option, none, some, List, [], ◌∷◌, ◌++◌, ◌≡◌, refl,
  nat_eq, list_eq, arith, Option-cases, inl, inr, ◌∙◌, ap, map, Result, ok, ◌>>=◌,
}
use mathlib.Core.List.{map-append}
use cime.Macros.Setting.{Build, option_eq}
use cime.Macros.Tree.{Tree, node, Branches, empty, branch, MacroError, text_less}
use cime.Macros.Writer.{Call, write_line, assignment_call, write_leaf}
use cime.Macros.Weigh.{weigh, weigh-append}
use cime.Macros.Merge.{find_branch, set_branch, merge_at, merge_branches, size, size_branches}
use cime.Macros.Weight.{
  is_tidy, are_tidy, weight, weight_branches, applies, share, weight-set_branch_new,
  weight-set_branch_old, tidy-set_branch, tidy-find_branch, size-set_branch_new,
  size-set_branch_old, size-find_branch-le,
}

pub text_less-eq : (s t : Text) → text_less s t ≡ false → text_less t s ≡ false → s ≡ t
unfolding text_less
text_less-eq [] [] below above = refl
text_less-eq [] (d ∷ t) below above = cc
text_less-eq (c ∷ s) [] below above = cc
text_less-eq (c ∷ s) (d ∷ t) below above = ground (arith, text_less-eq s t)

weigh-map :
    {A : Type 0} (f : Call → ℕ) (call : A → Call) (xs ys : List A)
    → weigh f (map call (xs ++ ys)) ≡ weigh f (map call xs) + weigh f (map call ys)
weigh-map f call xs ys =
    ap (weigh f) (map-append call xs ys) ∙ weigh-append f (map call xs) (map call ys)

weigh-parts :
    (f : Call → ℕ) (kind : Bool) (a : List (Text × Text)) (s t : List Text)
    → weigh f (write_leaf kind a s t)
      ≡ weigh f (map write_line s)
        + (weigh f (map (assignment_call kind) a) + weigh f (map write_line t))
unfolding write_leaf
weigh-parts f kind a s t = omega (
  arith,
  weigh-append f (map write_line s) (map (assignment_call kind) a ++ map write_line t),
  weigh-append f (map (assignment_call kind) a) (map write_line t),
)

pub weigh-leaves :
    (f : Call → ℕ) (kind : Bool) (a a' : List (Text × Text)) (s s' t t' : List Text)
    → weigh f (write_leaf kind (a ++ a') (s ++ s') (t ++ t'))
      ≡ weigh f (write_leaf kind a s t) + weigh f (write_leaf kind a' s' t')
weigh-leaves f kind a a' s s' t t' = omega (
  arith,
  weigh-parts f kind (a ++ a') (s ++ s') (t ++ t'),
  weigh-parts f kind a s t,
  weigh-parts f kind a' s' t',
  weigh-map f write_line s s',
  weigh-map f (assignment_call kind) a a',
  weigh-map f write_line t t',
)

module _ (kind : Bool) where
  -- The tree has the effects of both, in every build, and no more nodes.
  pub record IsMerge (mine other merged : Tree) : Type 0 where
    pub tidy : is_tidy kind merged ≡ true
    pub size_le : size merged ≤ size mine + size other
    pub weighs :
        (f : Call → ℕ) (build : Build)
        → weight f build merged ≡ weight f build mine + weight f build other

  abbrev pub Merges : Result MacroError Tree → Tree → Tree → Type 0
  Merges result mine other = (merged : Tree) × (result ≡ ok merged) × IsMerge mine other merged

  pub IsMerge-sym :
      (mine other merged : Tree) → IsMerge mine other merged → IsMerge other mine merged
  IsMerge-sym mine other merged m = record {
    tidy = m.tidy;
    size_le = omega (arith, m.size_le);
    weighs = λ f build. omega (arith, m.weighs f build);
  }

  tidy_head :
      (cond_val : Option Text) (tree : Tree) (others : Branches)
      → are_tidy kind (branch cond_val tree others) ≡ true
      → is_tidy kind tree ≡ true
  unfolding is_tidy
  tidy_head none tree others tidy = ground (arith, tidy)
  tidy_head (some v) tree others tidy = ground (arith, tidy)

  tidy_tail :
      (cond_val : Option Text) (tree : Tree) (others : Branches)
      → are_tidy kind (branch cond_val tree others) ≡ true
      → are_tidy kind others ≡ true
  unfolding is_tidy
  tidy_tail none tree others tidy = ground (arith, tidy)
  tidy_tail (some v) tree others tidy = ground (arith, tidy)

  record IsBranchMerge (mine merged : Branches) (more : ℕ)
      (weighs_more : (Call → ℕ) → Build → Text → ℕ) : Type 0 where
    tidy : are_tidy kind merged ≡ true
    size_le : size_branches merged ≤ size_branches mine + more
    weighs :
        (f : Call → ℕ) (build : Build) (condition : Text)
        → weight_branches f build condition merged
          ≡ weight_branches f build condition mine + weighs_more f build condition

  module _ (merge_one : Tree → Tree → Result MacroError Tree) (bound : ℕ)
      (total : (mine other : Tree)
        → is_tidy kind mine ≡ true
        → is_tidy kind other ≡ true
        → size mine + size other ≤ bound
        → Merges (merge_one mine other) mine other) where
    merge_at-ok :
        (key : Option Text) (other : Tree) (mine : Branches)
        → is_tidy kind other ≡ true
        → are_tidy kind mine ≡ true
        → size_branches mine + size other ≤ bound
        → (merged : Branches) × (merge_at merge_one key other mine ≡ ok merged)
          × IsBranchMerge mine merged
              (size other)
              (λ f build condition. share f build condition key other)
    unfolding merge_at
    merge_at-ok key other mine other_tidy mine_tidy fits =
        elim (Option-cases (find_branch key mine)) [
          | inl missing ↦ (
            set_branch key other mine,
            rw (missing, merge_at) refl,
            record {
              tidy = tidy-set_branch kind key other mine other_tidy mine_tidy;
              size_le = omega (arith, size-set_branch_new key other mine missing);
              weighs = λ f build condition.
                  weight-set_branch_new f build condition key other mine missing;
            },
          )
          | inr (found, is_found) ↦
              let (one, done, m) =
                total found other (tidy-find_branch kind key found mine is_found mine_tidy)
                  other_tidy (omega (arith, size-find_branch-le key found mine is_found)) in
              (
                set_branch key one mine,
                rw (is_found, done, merge_at) refl,
                record {
                  tidy = tidy-set_branch kind key one mine m.tidy mine_tidy;
                  size_le =
                      omega (arith, size-set_branch_old key one found mine is_found, m.size_le);
                  weighs = λ f build condition. ground (
                    arith,
                    weight-set_branch_old f build condition key one found mine is_found,
                    m.weighs f build,
                  );
                },
              )
        ]

    merge_branches-ok :
        (mine others : Branches)
        → are_tidy kind mine ≡ true
        → are_tidy kind others ≡ true
        → size_branches mine + size_branches others ≤ bound
        → (merged : Branches) × (merge_branches merge_one mine others ≡ ok merged)
          × IsBranchMerge mine merged
              (size_branches others)
              (λ f build condition. weight_branches f build condition others)
    unfolding merge_branches is_tidy size weight
    merge_branches-ok mine empty mine_tidy others_tidy fits = (
      mine,
      refl,
      record { tidy = mine_tidy; size_le = omega arith; weighs = λ f build condition. omega arith },
    )
    merge_branches-ok mine (branch cond_val tree others) mine_tidy others_tidy fits =
        let first : is_tidy kind tree ≡ true = tidy_head cond_val tree others others_tidy in
        let rest : are_tidy kind others ≡ true = tidy_tail cond_val tree others others_tidy in
        let (one, done, m) = merge_at-ok cond_val tree mine first mine_tidy (omega (arith, fits)) in
        let (merged, finished, n) =
          merge_branches-ok one others m.tidy rest (omega (arith, fits, m.size_le)) in
        (
          merged,
          rw (done, finished) refl,
          record {
            tidy = n.tidy;
            size_le = omega (arith, m.size_le, n.size_le);
            weighs = λ f build condition.
                omega (arith, m.weighs f build condition, n.weighs f build condition);
          },
        )

    -- The other tree is merged into the branch for None.
    pub step_none :
        (condition : Text) (mine : Branches) (other : Tree)
        → are_tidy kind mine ≡ true
        → is_tidy kind other ≡ true
        → size (node condition mine) + size other ≤ suc bound
        → Merges
            (merge_at merge_one none other mine >>= (λ merged. ok (node condition merged)))
            (node condition mine)
            other
    unfolding is_tidy size weight applies
    step_none condition mine other mine_tidy other_tidy fits =
        let (merged, done, m) =
          merge_at-ok none other mine other_tidy mine_tidy (omega (arith, fits)) in
        (
          node condition merged,
          rw done refl,
          record {
            tidy = m.tidy;
            size_le = omega (arith, m.size_le);
            weighs = λ f build. m.weighs f build condition;
          },
        )

    pub step_branches :
        (condition : Text) (mine others : Branches)
        → are_tidy kind mine ≡ true
        → are_tidy kind others ≡ true
        → size (node condition mine) + size (node condition others) ≤ suc bound
        → Merges
            (merge_branches merge_one mine others >>= (λ merged. ok (node condition merged)))
            (node condition mine)
            (node condition others)
    unfolding is_tidy size weight
    step_branches condition mine others mine_tidy others_tidy fits =
        let (merged, done, m) =
          merge_branches-ok mine others mine_tidy others_tidy (omega (arith, fits)) in
        (
          node condition merged,
          rw done refl,
          record {
            tidy = m.tidy;
            size_le = omega (arith, m.size_le);
            weighs = λ f build. m.weighs f build condition;
          },
        )
