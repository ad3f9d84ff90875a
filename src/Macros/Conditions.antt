-- ===== src/Macros/Conditions.antt =====
-- The loops over conditions in scripts/lib/CIME/BuildTools/valuesetting.py, by the look-ups that they make.
use cime.Common.{
  Text, Bool, true, false, ◌&&◌, none, some, List, [], ◌∷◌, ◌≡◌, refl, sym, ◌==◌, nat_eq, list_eq,
  arith, ◌∙◌, ap, contains, list_beq_iff,
}
use cime.Common.Dict.{lookup, member, keys, remove, contains-keys, lookup-remove}
use cime.Macros.Setting.{
  option_beq_iff, option_eq, all, Conditions, is_consistent, is_subset, Build, holds,
}

module _ (test : Text → Bool) where
  all-at : (xs : List Text) (x : Text) → all test xs ≡ true → contains xs x ≡ true → test x ≡ true
  unfolding all
  all-at [] x passed found = cc
  all-at (y ∷ xs) x passed found =
      ground (arith, list_beq_iff y x, ap test {x = y} {y = x}, all-at xs x)

  all-of :
      (xs : List Text) → ((x : Text) → contains xs x ≡ true → test x ≡ true) → all test xs ≡ true
  unfolding all
  all-of [] passes = refl
  all-of (y ∷ xs) passes =
      let rest = all-of xs (λ x found. passes x (ground (arith, found))) in
      ground (arith, passes y, list_beq_iff y y, rest)

  pub all-member :
      (mine : Conditions) (name : Text)
      → all test (keys mine) ≡ true
      → member name mine ≡ true
      → test name ≡ true
  all-member mine name passed found =
      all-at (keys mine) name passed (contains-keys name mine ∙ found)

  pub all_members :
      (mine : Conditions)
      → ((name : Text) → member name mine ≡ true → test name ≡ true)
      → all test (keys mine) ≡ true
  all_members mine passes =
      all-of (keys mine) (λ name found. passes name (sym (contains-keys name mine) ∙ found))

pub member_of_lookup :
    (name : Text) (mine : Conditions) {value : Text}
    → lookup name mine ≡ some value
    → member name mine ≡ true
unfolding member
member_of_lookup name mine found = rw found

pub same_truth : (a b : Bool) → (a ≡ true → b ≡ true) → (b ≡ true → a ≡ true) → a ≡ b
same_truth true b to from = sym (to refl)
same_truth false true to from = from refl
same_truth false false to from = refl

-- What `is_subset` says of a name.
pub is_subset-member :
    (mine other : Conditions) (name : Text)
    → is_subset mine other ≡ true
    → member name mine ≡ true
    → member name other ≡ true
unfolding is_subset
is_subset-member mine other name subset found = all-member _ mine name subset found

pub is_subset_of :
    (mine other : Conditions)
    → ((name : Text) → member name mine ≡ true → member name other ≡ true)
    → is_subset mine other ≡ true
unfolding is_subset
is_subset_of mine other passes = all_members _ mine passes

module _ (build : Build) where
  pub holds-lookup :
      (mine : Conditions) (name : Text)
      → holds build mine ≡ true
      → member name mine ≡ true
      → build name ≡ lookup name mine
  unfolding holds
  holds-lookup mine name yes_holds found =
      (option_beq_iff (build name) (lookup name mine)).0 (all-member _ mine name yes_holds found)

  pub holds_of :
      (mine : Conditions)
      → ((name : Text) → member name mine ≡ true → build name ≡ lookup name mine)
      → holds build mine ≡ true
  unfolding holds
  holds_of mine passes =
      all_members _ mine
        λ name found. (option_beq_iff (build name) (lookup name mine)).1 (passes name found)

  -- Conditions that hold in one build are consistent.
  pub is_consistent_of_holds :
      (mine other : Conditions)
      → holds build mine ≡ true
      → holds build other ≡ true
      → is_consistent mine other ≡ true
  unfolding is_consistent
  is_consistent_of_holds mine other here there = all_members _ mine λ name found. ground (
    arith,
    found,
    holds-lookup mine name here found,
    holds-lookup other name there,
    option_beq_iff (lookup name mine) (lookup name other),
  )

  holds_of_remove :
      (mine : Conditions) (name : Text)
      → holds build mine ≡ true
      → holds build (remove name mine) ≡ true
  unfolding member
  holds_of_remove mine name here = holds_of (remove name mine) λ other found.
      ground (arith, found, lookup-remove name other mine, holds-lookup mine other here)

  holds_from_remove :
      (mine : Conditions) (name : Text)
      → (member name mine ≡ true → build name ≡ lookup name mine)
      → holds build (remove name mine) ≡ true
      → holds build mine ≡ true
  unfolding member
  holds_from_remove mine name first rest = holds_of mine λ other found. ground (
    arith,
    first,
    found,
    list_beq_iff name other,
    lookup-remove name other mine,
    holds-lookup (remove name mine) other rest,
    ap build {x = name} {y = other},
    ap (λ k. lookup k mine) {x = name} {y = other},
  )

  pub holds-without :
      (mine : Conditions) (name : Text)
      → lookup name mine ≡ none
      → holds build (remove name mine) ≡ holds build mine
  unfolding member
  holds-without mine name missing =
      same_truth _ _ (holds_from_remove mine name (λ found. ground arith))
        (holds_of_remove mine name)

  pub holds-with :
      (mine : Conditions) (name value : Text)
      → lookup name mine ≡ some value
      → holds build mine ≡ (build name == some value && holds build (remove name mine))
  unfolding member
  holds-with mine name value found =
      same_truth _ _
        (λ here. ground (
          arith,
          holds_of_remove mine name here,
          holds-lookup mine name here (member_of_lookup name mine found),
          option_beq_iff (build name) (some value),
        ))
        (λ both. ground (
          arith,
          option_beq_iff (build name) (some value),
          holds_from_remove mine name
              (λ _. ground (arith, option_beq_iff (build name) (some value))),
        ))
