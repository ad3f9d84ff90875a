-- ===== src/Macros/Setting.antt =====
-- scripts/lib/CIME/BuildTools/valuesetting.py: the class ValueSetting.
use cime.Common.{
  Text, Bool, true, false, not, ◌&&◌, ◌||◌, if◌then◌else◌, Option, none, some, List, [], ◌∷◌, ◌≡◌,
  refl, ◌↔◌, Equality, ◌==◌, nat_eq, list_eq, arith,
}
use cime.Common.Dict.{Dict, lookup, member, keys}

abbrev pub option_beq {ℓ} : {A : Type ℓ} ⦃e : Equality A⦄ → Option A → Option A → Bool
option_beq none none = true
option_beq none (some b) = false
option_beq (some a) none = false
option_beq (some a) (some b) = a == b

pub option_beq_iff {ℓ} :
    {A : Type ℓ} ⦃e : Equality A⦄ (o p : Option A) → (option_beq o p ≡ true) ↔ (o ≡ p)
option_beq_iff none none = (λ _. refl, λ _. refl)
option_beq_iff none (some b) = (λ p. cc, λ p. cc)
option_beq_iff (some a) none = (λ p. cc, λ p. cc)
option_beq_iff ⦃e⦄ (some a) (some b) = ground (arith, e.same_iff a b)

instance abbrev pub option_eq {ℓ} : {A : Type ℓ} ⦃e : Equality A⦄ → Equality (Option A)
option_eq = record { same = option_beq; same_iff = option_beq_iff }

-- A loop that returns False at the first element that fails the test.
unfoldable pub all {ℓ} : {A : Type ℓ} → (A → Bool) → List A → Bool
all test [] = true
all test (x ∷ xs) = test x && all test xs

-- The values that variables have to have.
abbrev pub Conditions : Type 0
Conditions = Dict Text Text

pub record Setting : Type 0 where
  pub value : Text
  pub do_append : Bool
  pub conditions : Conditions
  pub set_up : List Text
  pub tear_down : List Text

-- The consistency check of is_ambiguous_with.
unfoldable pub is_consistent : Conditions → Conditions → Bool
unfolding all member
is_consistent mine other =
    all (λ var_name. not (member var_name other) || lookup var_name mine == lookup var_name other)
      (keys mine)

-- set(mine) <= set(other), on the names of the variables
unfoldable pub is_subset : Conditions → Conditions → Bool
unfolding all member
is_subset mine other = all (λ var_name. member var_name other) (keys mine)

-- set(mine) < set(other)
unfoldable pub is_proper_subset : Conditions → Conditions → Bool
is_proper_subset mine other = is_subset mine other && not (is_subset other mine)

unfoldable pub is_ambiguous_with : Setting → Setting → Bool
unfolding is_consistent is_proper_subset
is_ambiguous_with mine other =
    if mine.do_append || other.do_append
    then false
    else if not (is_consistent mine.conditions other.conditions)
    then false
    else if is_proper_subset mine.conditions other.conditions
        || is_proper_subset other.conditions mine.conditions
    then false
    else true

unfoldable pub has_special_case : Setting → Setting → Bool
unfolding all member
has_special_case mine other =
    all
      (λ var_name.
        member var_name other.conditions
        && lookup var_name mine.conditions == lookup var_name other.conditions)
      (keys mine.conditions)

-- A build: the value of each variable that conditions may name.
abbrev pub Build : Type 0
Build = Text → Option Text

-- The build has the values that the conditions name.
unfoldable pub holds : Build → Conditions → Bool
unfolding all
holds build mine = all (λ var_name. build var_name == lookup var_name mine) (keys mine)
