-- ===== src/Macros/Unambiguous.antt =====
-- Settings for one variable that set it, and of which no two are ambiguous, as `ambiguity_check` of
-- scripts/lib/CIME/BuildTools/possiblevalues.py leaves them.
use cime.Common.{
  Text, ℕ, zero, suc, true, false, ◌||◌, Option, List, [], ◌∷◌, ◌≡◌, ◌⊎◌, refl, sym, subst, length,
  ◌==◌, nat_eq, list_eq, arith, Option-cases, Bool-cases, inl, inr, ◌∙◌, ap, All,
}
use cime.Common.Dict.{lookup}
use cime.Macros.Setting.{
  Setting, all, is_ambiguous_with, is_consistent, is_proper_subset, is_subset, option_eq,
  option_beq_iff,
}
use cime.Macros.Tree.{choose, all_append, pop}
use cime.Macros.Ambiguity.{is_ambiguous_with-pop, is_ambiguous_with_comm}
use cime.Macros.Choice.{choose-none}
use cime.Macros.Partition.{select}
use cime.Macros.Sound.{IsSound, spent, bare, split}

-- The setting is one of the settings.
abbrev pub Has : Setting → List Setting → Type 0
Has setting [] = ⊥
Has setting (other ∷ settings) = (setting ≡ other) ⊎ Has setting settings

abbrev pub IsUnambiguous : List Setting → Type 0
IsUnambiguous [] = Unit
IsUnambiguous (setting ∷ settings) =
    (setting.do_append ≡ false)
    × All (λ other. is_ambiguous_with setting other ≡ false) settings
    × IsUnambiguous settings

pub Has-select :
    (condition : Text) (at : Option Text) (setting : Setting) (settings : List Setting)
    → Has setting settings
    → lookup condition setting.conditions ≡ at
    → Has (pop condition setting) (select condition at settings)
unfolding select
Has-select condition at setting [] has found = has
Has-select condition at setting (other ∷ settings) (inl same) found =
    let here : (lookup condition other.conditions == at) ≡ true =
      (option_beq_iff (lookup condition other.conditions) at).1
        (ap (λ s. lookup condition s.conditions) (sym same) ∙ found) in
    rw here (inl (ap (pop condition) same))
Has-select condition at setting (other ∷ settings) (inr has) found =
    elim (Bool-cases (lookup condition other.conditions == at)) [
      | inl here ↦ rw here (inr (Has-select condition at setting settings has found))
      | inr gone ↦ rw gone (Has-select condition at setting settings has found)
    ]

-- A setting of a part is one of the settings, without the condition.
abbrev pub Origin : Text → Option Text → Setting → List Setting → Type 0
Origin condition at part settings =
    (setting : Setting) × Has setting settings
    × (lookup condition setting.conditions ≡ at)
    × (part ≡ pop condition setting)

Origin-cons :
    (condition : Text) (at : Option Text) (part other : Setting) (settings : List Setting)
    → Origin condition at part settings
    → Origin condition at part (other ∷ settings)
Origin-cons condition at part other settings (setting, one, found, popped) =
    (setting, inr one, found, popped)

pub select-Has :
    (condition : Text) (at : Option Text) (part : Setting) (settings : List Setting)
    → Has part (select condition at settings)
    → Origin condition at part settings
unfolding select
select-Has condition at part [] has = absurd has
select-Has condition at part (other ∷ settings) has =
    let later = λ (h : Has part (select condition at settings)).
      Origin-cons condition at part other settings (select-Has condition at part settings h) in
    elim (Bool-cases (lookup condition other.conditions == at)) [
      | inl here ↦ in_head later here (rw here at has)
      | inr gone ↦ later (rw gone at has)
    ]
  where
    in_head :
        (Has part (select condition at settings) → Origin condition at part (other ∷ settings))
        → (lookup condition other.conditions == at) ≡ true
        → Has part (pop condition other ∷ select condition at settings)
        → Origin condition at part (other ∷ settings)
    in_head later here (inl same) =
        (other, inl refl, (option_beq_iff (lookup condition other.conditions) at).0 here, same)
    in_head later here (inr has) = later has

pub Has-All {ℓ} :
    (P : Setting → Type ℓ) (setting : Setting) (settings : List Setting)
    → Has setting settings
    → All P settings
    → P setting
Has-All P setting [] has each = absurd has
Has-All P setting (other ∷ settings) (inl same) (first, each) = subst P (sym same) first
Has-All P setting (other ∷ settings) (inr has) (first, each) = Has-All P setting settings has each

pub Has-do_append :
    (setting : Setting) (settings : List Setting)
    → IsUnambiguous settings
    → Has setting settings
    → setting.do_append ≡ false
Has-do_append setting [] clear has = absurd has
Has-do_append setting (other ∷ settings) (sets, apart, clear) (inl same) =
    ap (λ s. s.do_append) same ∙ sets
Has-do_append setting (other ∷ settings) (sets, apart, clear) (inr has) =
    Has-do_append setting settings clear has

-- Two of the settings are one, or not ambiguous.
pub Has-pair :
    (a b : Setting) (settings : List Setting)
    → IsUnambiguous settings
    → Has a settings
    → Has b settings
    → (a ≡ b) ⊎ (is_ambiguous_with a b ≡ false)
Has-pair a b [] clear has_a has_b = absurd has_a
Has-pair a b (other ∷ settings) clear (inl is_a) (inl is_b) = inl (is_a ∙ sym is_b)
Has-pair a b (other ∷ settings) (sets, apart, clear) (inl is_a) (inr has_b) =
    inr (rw is_a (Has-All (λ t. is_ambiguous_with other t ≡ false) b settings has_b apart))
Has-pair a b (other ∷ settings) (sets, apart, clear) (inr has_a) (inl is_b) = inr (
    is_ambiguous_with_comm a b
    ∙ rw is_b (Has-All (λ t. is_ambiguous_with other t ≡ false) a settings has_a apart))
Has-pair a b (other ∷ settings) (sets, apart, clear) (inr has_a) (inr has_b) =
    Has-pair a b settings clear has_a has_b

module _ (condition : Text) (at : Option Text) where
  select-apart :
      (setting : Setting) (settings : List Setting)
      → lookup condition setting.conditions ≡ at
      → All (λ other. is_ambiguous_with setting other ≡ false) settings
      → All
          (λ other. is_ambiguous_with (pop condition setting) other ≡ false)
          (select condition at settings)
  unfolding select
  select-apart setting [] found apart = tt
  select-apart setting (other ∷ settings) found (first, apart) =
      elim (Bool-cases (lookup condition other.conditions == at)) [
        | inl here ↦ rw here (
          is_ambiguous_with-pop condition setting other
                (found ∙ sym ((option_beq_iff (lookup condition other.conditions) at).0 here))
              ∙ first,
          select-apart setting settings found apart,
        )
        | inr gone ↦ rw gone (select-apart setting settings found apart)
      ]

  pub select-IsUnambiguous :
      (settings : List Setting)
      → IsUnambiguous settings
      → IsUnambiguous (select condition at settings)
  unfolding select
  select-IsUnambiguous [] clear = tt
  select-IsUnambiguous (setting ∷ settings) (sets, apart, clear) =
      elim (Bool-cases (lookup condition setting.conditions == at)) [
        | inl here ↦ rw here (
          (unfold pop in sets),
          select-apart setting settings
              ((option_beq_iff (lookup condition setting.conditions) at).0 here) apart,
          select-IsUnambiguous settings clear,
        )
        | inr gone ↦ rw gone (select-IsUnambiguous settings clear)
      ]

-- Two settings without conditions are ambiguous.
bare-is_ambiguous_with :
    (a b : Setting)
    → a.do_append ≡ false
    → b.do_append ≡ false
    → a.conditions ≡ []
    → b.conditions ≡ []
    → is_ambiguous_with a b ≡ true
unfolding is_ambiguous_with is_consistent is_proper_subset is_subset all
bare-is_ambiguous_with a b a_sets b_sets a_bare b_bare = rw (a_sets, b_sets, a_bare, b_bare) refl

pub one_bare :
    (settings : List Setting)
    → IsUnambiguous settings
    → All (λ setting. setting.conditions ≡ []) settings
    → (all_append settings || length settings == 1) ≡ true
unfolding all_append all
one_bare [] clear none_left = refl
one_bare (setting ∷ []) clear none_left = ground arith
one_bare (setting ∷ other ∷ settings) (sets, (apart, _), (other_sets, _, _))
      (bare_here, (bare_there, _)) =
    absurd (
      ground
        (arith, apart, bare-is_ambiguous_with setting other sets other_sets bare_here bare_there))

pub IsUnambiguous-IsSound :
    (fuel : ℕ) (settings : List Setting) → IsUnambiguous settings → IsSound fuel settings
IsUnambiguous-IsSound zero settings clear = spent
IsUnambiguous-IsSound (suc fuel) settings clear = elim (Option-cases (choose settings)) [
  | inl chosen ↦ bare chosen (one_bare settings clear (choose-none settings chosen))
  | inr (condition, chosen) ↦ split chosen λ at.
      IsUnambiguous-IsSound fuel (select condition at settings)
        (select-IsUnambiguous condition at settings clear)
]
