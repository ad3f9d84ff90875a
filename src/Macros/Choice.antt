-- ===== src/Macros/Choice.antt =====
-- The condition that the constructor of MacroConditionTree chooses.
use cime.Common.{
  Text, true, ◌||◌, none, some, List, [], ◌∷◌, ◌++◌, ◌≡◌, refl, sym, subst, nat_eq, list_eq, arith,
  Bool-cases, inl, inr, ◌∙◌, ap, contains, contains-append, list_beq_iff, All,
}
use cime.Common.Dict.{keys, contains-keys}
use cime.Macros.Setting.{Conditions, Setting}
use cime.Macros.Tree.{
  any_has, all_conditions, least_name, first_sorted, choose, text_less, compiler,
}

contains-least_name :
    (name : Text) (names : List Text) → contains (name ∷ names) (least_name name names) ≡ true
unfolding least_name
contains-least_name name [] = ground (arith, list_beq_iff name name)
contains-least_name name (other ∷ others) = elim (Bool-cases (text_less other name)) [
  | inl less ↦ rw less (ground (arith, contains-least_name other others))
  | inr more ↦ rw more (ground (arith, contains-least_name name others))
]

any_has-contains :
    (name : Text) (settings : List Setting)
    → any_has name settings ≡ contains (all_conditions settings) name
unfolding any_has all_conditions
any_has-contains name [] = refl
any_has-contains name (setting ∷ settings) =
    ap (λ found. found || any_has name settings) (sym (contains-keys name setting.conditions))
    ∙ ap (λ found. contains (keys setting.conditions) name || found)
        (any_has-contains name settings)
    ∙ sym (contains-append (keys setting.conditions) (all_conditions settings) name)

first_sorted-contains :
    (names : List Text) (name : Text) → first_sorted names ≡ some name → contains names name ≡ true
unfolding first_sorted
first_sorted-contains [] name first = cc
first_sorted-contains (other ∷ others) name first =
    subst (λ found. contains (other ∷ others) found ≡ true) (cc) (contains-least_name other others)

first_sorted-none : (names : List Text) → first_sorted names ≡ none → names ≡ []
unfolding first_sorted
first_sorted-none [] first = refl
first_sorted-none (other ∷ others) first = cc

-- Some setting has the condition that is chosen.
pub choose-any_has :
    (settings : List Setting) (condition : Text)
    → choose settings ≡ some condition
    → any_has condition settings ≡ true
unfolding choose
choose-any_has settings condition chosen = elim (Bool-cases (any_has compiler settings)) [
  | inl found ↦
      let same : some compiler ≡ some condition = rw found at chosen in
      subst (λ name. any_has name settings ≡ true) (cc) found
  | inr missing ↦
      any_has-contains condition settings
      ∙ first_sorted-contains (all_conditions settings) condition (rw missing at chosen)
]

keys-nil :
    (mine : Conditions) (rest : List Text)
    → keys mine ++ rest ≡ []
    → ◌≡◌ {A = Conditions} mine [] × (rest ≡ [])
keys-nil [] rest none_left = (refl, none_left)
keys-nil ((k, v) ∷ mine) rest none_left = cc

all_conditions-nil :
    (settings : List Setting)
    → all_conditions settings ≡ []
    → All (λ setting. setting.conditions ≡ []) settings
unfolding all_conditions
all_conditions-nil [] none_left = tt
all_conditions-nil (setting ∷ settings) none_left =
    let (first, rest) = keys-nil setting.conditions (all_conditions settings) none_left in
    (first, all_conditions-nil settings rest)

-- Where none is chosen, no setting has a condition.
pub choose-none :
    (settings : List Setting)
    → choose settings ≡ none
    → All (λ setting. setting.conditions ≡ []) settings
unfolding choose
choose-none settings bare = elim (Bool-cases (any_has compiler settings)) [
  | inl found ↦ cc
  | inr missing ↦
      all_conditions-nil settings (first_sorted-none (all_conditions settings) (rw missing at bare))
]
