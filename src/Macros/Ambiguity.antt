-- ===== src/Macros/Ambiguity.antt =====
-- is_ambiguous_with and has_special_case of scripts/lib/CIME/BuildTools/valuesetting.py, by the builds in which
-- settings apply.
use cime.Common.{
  Text, true, false, ◌≡◌, ◌⊎◌, refl, sym, ◌↔◌, nat_eq, list_eq, arith, Bool-cases, inl, inr, ap,
  list_beq_iff,
}
use cime.Common.Dict.{lookup, member, remove, lookup-remove}
use cime.Macros.Setting.{
  option_beq_iff, option_eq, Conditions, Setting, is_consistent, is_subset, is_proper_subset,
  is_ambiguous_with, has_special_case, Build, holds,
}
use cime.Macros.Tree.{pop}
use cime.Macros.Conditions.{
  all-member, all_members, same_truth, is_subset-member, is_subset_of, holds-lookup, holds_of,
  is_consistent_of_holds,
}

is_consistent-lookup :
    (mine other : Conditions) (name : Text)
    → is_consistent mine other ≡ true
    → member name mine ≡ true
    → member name other ≡ true
    → lookup name mine ≡ lookup name other
unfolding is_consistent
is_consistent-lookup mine other name consistent here there = ground (
  arith,
  there,
  all-member _ mine name consistent here,
  option_beq_iff (lookup name mine) (lookup name other),
)

is_consistent_of :
    (mine other : Conditions)
    → ((name : Text)
        → member name mine ≡ true
        → member name other ≡ true
        → lookup name mine ≡ lookup name other)
    → is_consistent mine other ≡ true
unfolding is_consistent
is_consistent_of mine other agree = all_members _ mine λ name here.
    ground (arith, here, agree name here, option_beq_iff (lookup name mine) (lookup name other))

is_consistent_sym :
    (mine other : Conditions) → is_consistent mine other ≡ true → is_consistent other mine ≡ true
is_consistent_sym mine other consistent =
    is_consistent_of other mine
      λ name here there. sym (is_consistent-lookup mine other name consistent there here)

-- A setting is ambiguous with another one exactly when that one is with it.
pub is_ambiguous_with_comm : (a b : Setting) → is_ambiguous_with a b ≡ is_ambiguous_with b a
unfolding is_ambiguous_with
is_ambiguous_with_comm a b = ground (
  arith,
  same_truth (is_consistent a.conditions b.conditions) (is_consistent b.conditions a.conditions)
      (is_consistent_sym a.conditions b.conditions) (is_consistent_sym b.conditions a.conditions),
)

-- Settings that apply in one build, and are not ambiguous, are comparable.
pub is_subset_of_applied :
    (build : Build) (a b : Setting)
    → a.do_append ≡ false
    → b.do_append ≡ false
    → is_ambiguous_with a b ≡ false
    → holds build a.conditions ≡ true
    → holds build b.conditions ≡ true
    → (is_subset a.conditions b.conditions ≡ true) ⊎ (is_subset b.conditions a.conditions ≡ true)
unfolding is_ambiguous_with is_proper_subset
is_subset_of_applied build a b a_sets b_sets clear here there =
    let consistent = is_consistent_of_holds build a.conditions b.conditions here there in
    elim (Bool-cases (is_subset a.conditions b.conditions)) [
      | inl within ↦ inl within
      | inr outside ↦ inr (ground (arith, a_sets, b_sets, clear, consistent, outside))
    ]

-- A condition that two settings treat alike does not matter.
module _ (condition : Text) (a b : Conditions)
    (alike : lookup condition a ≡ lookup condition b) where
  is_subset_of_remove :
      is_subset (remove condition a) (remove condition b) ≡ true → is_subset a b ≡ true
  unfolding member
  is_subset_of_remove within = is_subset_of a b λ name found. ground (
    arith,
    alike,
    found,
    list_beq_iff condition name,
    lookup-remove condition name a,
    lookup-remove condition name b,
    ap (λ k. lookup k a) {x = condition} {y = name},
    ap (λ k. lookup k b) {x = condition} {y = name},
    is_subset-member (remove condition a) (remove condition b) name within,
  )

  is_subset-remove :
      is_subset a b ≡ true → is_subset (remove condition a) (remove condition b) ≡ true
  unfolding member
  is_subset-remove within = is_subset_of (remove condition a) (remove condition b) λ name found.
      ground (
        arith,
        found,
        lookup-remove condition name a,
        lookup-remove condition name b,
        is_subset-member a b name within,
      )

  pub is_subset-remove_eq : is_subset (remove condition a) (remove condition b) ≡ is_subset a b
  is_subset-remove_eq = same_truth _ _ is_subset_of_remove is_subset-remove

  is_consistent-remove : is_consistent (remove condition a) (remove condition b) ≡ is_consistent a b
  unfolding member
  is_consistent-remove =
      same_truth _ _
        (λ consistent. is_consistent_of a b λ name here there. ground (
          arith,
          alike,
          here,
          there,
          list_beq_iff condition name,
          lookup-remove condition name a,
          lookup-remove condition name b,
          ap (λ k. lookup k a) {x = condition} {y = name},
          ap (λ k. lookup k b) {x = condition} {y = name},
          is_consistent-lookup (remove condition a) (remove condition b) name consistent,
        ))
        (λ consistent. is_consistent_of (remove condition a) (remove condition b) λ name here there.
          ground (
            arith,
            here,
            there,
            lookup-remove condition name a,
            lookup-remove condition name b,
            is_consistent-lookup a b name consistent,
          ))

pub is_ambiguous_with-pop :
    (condition : Text) (a b : Setting)
    → lookup condition a.conditions ≡ lookup condition b.conditions
    → is_ambiguous_with (pop condition a) (pop condition b) ≡ is_ambiguous_with a b
unfolding is_ambiguous_with is_proper_subset pop
is_ambiguous_with-pop condition a b alike =
    rw
      (
        is_consistent-remove condition a.conditions b.conditions alike,
        is_subset-remove_eq condition a.conditions b.conditions alike,
        is_subset-remove_eq condition b.conditions a.conditions (sym alike),
      )
      refl

-- A setting is a special case of another one exactly when the other one applies in each build in
-- which it applies.
pub has_special_case_iff :
    (a b : Setting)
    → (has_special_case a b ≡ true)
      ↔ ((build : Build) → holds build b.conditions ≡ true → holds build a.conditions ≡ true)
unfolding has_special_case
has_special_case_iff a b = (special, general)
  where
    special :
        has_special_case a b ≡ true
        → (build : Build) → holds build b.conditions ≡ true
        → holds build a.conditions ≡ true
    special case build there = holds_of build a.conditions λ name found.
        let both = all-member _ a.conditions name case found in
        ground (
          arith,
          both,
          holds-lookup build b.conditions name there,
          option_beq_iff (lookup name a.conditions) (lookup name b.conditions),
        )

    general :
        ((build : Build) → holds build b.conditions ≡ true → holds build a.conditions ≡ true)
        → has_special_case a b ≡ true
    general wherever = all_members _ a.conditions λ name found.
        let build : Build = λ name. lookup name b.conditions in
        let here = wherever build (holds_of build b.conditions (λ _ _. refl)) in
        ground (
          arith,
          found,
          holds-lookup build a.conditions name here found,
          option_beq_iff (lookup name a.conditions) (lookup name b.conditions),
        )
