-- ===== src/Macros/Joined.antt =====
-- merge of scripts/lib/CIME/BuildTools/macroconditiontree.py, on trees that the program makes.
use cime.Common.{
  Text, ℕ, zero, suc, ◌+◌, ◌≤◌, Bool, true, false, List, ◌++◌, ◌≡◌, refl, sym, subst, arith,
  Bool-cases, inl, inr, ◌∙◌, ap, Result, ok, ◌>>=◌,
}
use cime.Macros.Setting.{Setting, Build}
use cime.Macros.Tree.{Tree, leaf, node, Branches, MacroError, text_less, init, size_all}
use cime.Macros.Writer.{Call, write_leaf, write_out, run_file}
use cime.Macros.Effects.{run_file-effects}
use cime.Macros.Weigh.{weigh}
use cime.Macros.Merge.{same_bool, in_order, merge_branches, merge_step, merge_from, size, merge}
use cime.Macros.Weight.{is_tidy, are_tidy, weight, weigh-effects}
use cime.Macros.Merged.{text_less-eq, weigh-leaves, Merges, IsMerge-sym, step_none, step_branches}
use cime.Macros.Meaning.{ok_injective}
use cime.Macros.Tidy.{IsAlike, init_from-tidy}

size-pos : (tree : Tree) → 1 ≤ size tree
unfolding size
size-pos (leaf d a s t) = omega arith
size-pos (node condition branches) = omega arith

leaves_alike : (kind d d' : Bool) → same_bool kind d ≡ true → same_bool kind d' ≡ true → d ≡ d'
leaves_alike kind d d' here there = ground (arith, here, there)

same_bool_refl : (d : Bool) → same_bool d d ≡ true
same_bool_refl true = refl
same_bool_refl false = refl

module _ (mine other : Text) (branches others : Branches) where
  in_order-less :
      text_less mine other ≡ true
      → in_order (node mine branches) (node other others) ≡ (node other others, node mine branches)
  unfolding in_order
  in_order-less less = rw less refl

  in_order-not_less :
      text_less mine other ≡ false
      → in_order (node mine branches) (node other others) ≡ (node mine branches, node other others)
  unfolding in_order
  in_order-not_less more = rw more refl

module _ (kind : Bool) where
  step_leaves :
      (merge_one : Tree → Tree → Result MacroError Tree) (d d' : Bool) (a a' : List (Text × Text))
      (s s' t t' : List Text)
      → is_tidy kind (leaf d a s t) ≡ true
      → is_tidy kind (leaf d' a' s' t') ≡ true
      → Merges kind
          (merge_step merge_one (leaf d a s t) (leaf d' a' s' t'))
          (leaf d a s t)
          (leaf d' a' s' t')
  unfolding merge_step is_tidy size weight
  step_leaves merge_one d d' a a' s s' t t' here there =
      let alike = leaves_alike kind d d' here there in
      let fits : same_bool d d' ≡ true =
        subst (λ b. same_bool d b ≡ true) alike (same_bool_refl d) in
      (
        leaf d (a ++ a') (s ++ s') (t ++ t'),
        rw fits refl,
        record {
          tidy = here;
          size_le = omega arith;
          weighs = λ f build.
              subst
                (λ b.
                  weigh f (write_leaf d (a ++ a') (s ++ s') (t ++ t'))
                  ≡ weigh f (write_leaf d a s t) + weigh f (write_leaf b a' s' t'))
                alike (weigh-leaves f d a a' s s' t t');
        },
      )

  module _ (merge_one : Tree → Tree → Result MacroError Tree) (bound : ℕ)
      (total : (mine other : Tree)
        → is_tidy kind mine ≡ true
        → is_tidy kind other ≡ true
        → size mine + size other ≤ bound
        → Merges kind (merge_one mine other) mine other)
      (mine other : Text) (branches others : Branches) (here : are_tidy kind branches ≡ true)
      (there : are_tidy kind others ≡ true) where
    step_smaller :
        text_less other mine ≡ true
        → size (node mine branches) + size (node other others) ≤ suc bound
        → Merges kind
            (merge_step merge_one (node mine branches) (node other others))
            (node mine branches)
            (node other others)
    unfolding merge_step is_tidy
    step_smaller less fits =
        rw less
          (step_none kind merge_one bound total mine branches (node other others) here there fits)

    step_nodes :
        text_less mine other ≡ false
        → size (node mine branches) + size (node other others) ≤ suc bound
        → Merges kind
            (merge_step merge_one (node mine branches) (node other others))
            (node mine branches)
            (node other others)
    unfolding merge_step
    step_nodes more fits = elim (Bool-cases (text_less other mine)) [
      | inl less ↦ step_smaller less fits
      | inr same ↦
          let e : mine ≡ other = text_less-eq mine other more same in
          rw same (
            subst
              (λ c.
                Merges kind
                  (merge_branches merge_one branches others >>= (λ merged. ok (node mine merged)))
                  (node mine branches) (node c others))
              e
              (step_branches kind merge_one bound total mine branches others here there
                (rw (sym e) at fits)))
    ]

  -- The fuel is enough where it is the number of nodes.
  merge_from-Merges :
      (fuel : ℕ) (mine other : Tree)
      → is_tidy kind mine ≡ true
      → is_tidy kind other ≡ true
      → size mine + size other ≤ fuel
      → Merges kind (merge_from fuel mine other) mine other
  unfolding merge_from in_order merge_step is_tidy
  merge_from-Merges zero mine other here there fits = absurd (omega (arith, size-pos mine))
  merge_from-Merges (suc fuel) (leaf d a s t) (leaf d' a' s' t') here there fits =
      step_leaves (merge_from fuel) d d' a a' s s' t t' here there
  merge_from-Merges (suc fuel) (leaf d a s t) (node condition branches) here there fits =
      let (merged, done, m) =
        step_none kind (merge_from fuel) fuel (merge_from-Merges fuel) condition branches
          (leaf d a s t) there here (omega (arith, fits)) in
      (merged, done, IsMerge-sym kind (node condition branches) (leaf d a s t) merged m)
  merge_from-Merges (suc fuel) (node condition branches) (leaf d a s t) here there fits =
      step_none kind (merge_from fuel) fuel (merge_from-Merges fuel) condition branches
        (leaf d a s t) here there fits
  merge_from-Merges (suc fuel) (node mine branches) (node other others) here there fits =
      let first = node mine branches in
      let second = node other others in
      let step = λ (pair : Tree × Tree).
        Merges kind (merge_step (merge_from fuel) pair.0 pair.1) first second in
      elim (Bool-cases (text_less mine other)) [
        | inl less ↦
            let (merged, done, m) =
              step_smaller (merge_from fuel) fuel (merge_from-Merges fuel) other mine others
                branches there here less (omega (arith, fits)) in
            subst step (sym (in_order-less mine other branches others less))
              (merged, done, IsMerge-sym kind second first merged m)
        | inr more ↦ subst step (sym (in_order-not_less mine other branches others more)) (
            step_nodes (merge_from fuel) fuel (merge_from-Merges fuel) mine other branches others
              here there more fits)
      ]

-- The trees that the program makes for settings that all append, or none.
pub data IsMade (kind : Bool) : Tree → Type 0 where
  made :
      (name : Text) (settings : List Setting) (tree : Tree)
      → IsAlike kind settings
      → init name settings ≡ ok tree
      → IsMade kind tree
  merges :
      {mine other : Tree} (merged : Tree)
      → IsMade kind mine
      → IsMade kind other
      → merge mine other ≡ ok merged
      → IsMade kind merged

merge-Merges :
    (kind : Bool) (mine other : Tree)
    → is_tidy kind mine ≡ true
    → is_tidy kind other ≡ true
    → Merges kind (merge mine other) mine other
unfolding merge
merge-Merges kind mine other here there =
    merge_from-Merges kind (size mine + size other) mine other here there (omega arith)

IsMade-tidy : {kind : Bool} {tree : Tree} → IsMade kind tree → is_tidy kind tree ≡ true
unfolding init
IsMade-tidy {kind} (made name settings tree alike done) =
    init_from-tidy kind name (suc (size_all settings)) settings tree alike done
IsMade-tidy {kind} (merges {mine} {other} merged m o done) =
    let (result, returned, is_merge) =
      merge-Merges kind mine other (IsMade-tidy m) (IsMade-tidy o) in
    let same : result ≡ merged = ok_injective (sym returned ∙ done) in
    subst (λ t. is_tidy kind t ≡ true) same is_merge.tidy

-- Of two trees that are made by the constructor and by merges, from settings that all append to
-- their variables or from settings that all set them, merge makes a tree: no assertion fails, and
-- it comes to an end. In every build, the calls that take effect of the written tree are those of
-- the one and of the other, each as often: every function of a call has the same sum over both.
pub merge-effects :
    {kind : Bool} {mine other : Tree}
    → IsMade kind mine
    → IsMade kind other
    → (merged : Tree) × (merge mine other ≡ ok merged)
      × ((f : Call → ℕ) (build : Build)
          → weigh f (run_file build 0 (write_out merged))
            ≡ weigh f (run_file build 0 (write_out mine))
              + weigh f (run_file build 0 (write_out other)))
merge-effects {kind} {mine} {other} m o =
    let mine_tidy = IsMade-tidy m in
    let other_tidy = IsMade-tidy o in
    let (merged, done, is_merge) = merge-Merges kind mine other mine_tidy other_tidy in
    let weighed = λ (f : Call → ℕ) (build : Build) (tree : Tree) (tidy : is_tidy kind tree ≡ true).
      ap (weigh f) (run_file-effects build tree) ∙ weigh-effects f build kind tree tidy in
    (
      merged,
      done,
      λ f build. omega (
        arith,
        weighed f build merged is_merge.tidy,
        weighed f build mine mine_tidy,
        weighed f build other other_tidy,
        is_merge.weighs f build,
      ),
    )
