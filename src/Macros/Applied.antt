-- ===== src/Macros/Applied.antt =====
-- The settings that apply in a build are those whose conditions hold, and the written tree makes their calls.
use cime.Common.{
  Text, ℕ, suc, ◌+◌, ◌<◌, true, false, ◌||◌, if◌then◌else◌, Option, none, some, List, [], ◌∷◌, ◌≡◌,
  refl, length, ◌==◌, nat_eq, list_eq, arith, Option-cases, Bool-cases, inl, inr, ◌∙◌, ap, All, ok,
  list_beq_iff,
}
use cime.Common.Dict.{lookup, remove}
use cime.Macros.Setting.{Setting, Build, holds, option_eq}
use cime.Macros.Tree.{Tree, all_append, pop, init, size_all}
use cime.Macros.Writer.{Call, write_out, run_file}
use cime.Macros.Conditions.{holds-with, holds-without}
use cime.Macros.Choice.{choose-any_has, choose-none}
use cime.Macros.Effects.{run_file-effects}
use cime.Macros.Partition.{select, size_all-select-lt}
use cime.Macros.Meaning.{meaning, meaning-leaf, meaning-node, chosen, calls_of, effects-init_from}
use cime.Macros.Sound.{IsSound, spent, bare, split, init_from-IsSound}
use cime.Macros.Weigh.{calls_for, applied, weigh, weigh-append, weigh-leaf, all_append-All, one-All}

module _ (f : Call → ℕ) (name : Text) where
  module _ (build : Build) where
    -- One setting, before and after it loses the condition.
    module _ (condition : Text) (setting : Setting) where
      calls_for-pop : calls_for name (pop condition setting) ≡ calls_for name setting
      unfolding calls_for pop
      calls_for-pop = refl

      applied-pop :
          (settings : List Setting)
          → weigh f (applied build name (pop condition setting ∷ settings))
            ≡ (if holds build (remove condition setting.conditions)
                then weigh f (calls_for name setting)
                else 0)
              + weigh f (applied build name settings)
      unfolding applied calls_for pop
      applied-pop settings = elim (Bool-cases (holds build (remove condition setting.conditions))) [
        | inl here ↦ rw here (weigh-append f (calls_for name setting) (applied build name settings))
        | inr gone ↦ rw gone (omega arith)
      ]

      applied-cons :
          (settings : List Setting)
          → weigh f (applied build name (setting ∷ settings))
            ≡ (if holds build setting.conditions then weigh f (calls_for name setting) else 0)
              + weigh f (applied build name settings)
      unfolding applied
      applied-cons settings = elim (Bool-cases (holds build setting.conditions)) [
        | inl here ↦ rw here (weigh-append f (calls_for name setting) (applied build name settings))
        | inr gone ↦ rw gone (omega arith)
      ]

    module _ (condition : Text) where
      weigh-part :
          (at : Option Text) (setting : Setting) (settings : List Setting)
          → weigh f (applied build name (select condition at (setting ∷ settings)))
            ≡ (if lookup condition setting.conditions == at
                then (if holds build (remove condition setting.conditions)
                    then weigh f (calls_for name setting)
                    else 0)
                else 0)
              + weigh f (applied build name (select condition at settings))
      unfolding select
      weigh-part at setting settings =
          elim (Bool-cases (lookup condition setting.conditions == at)) [
            | inl same ↦ rw same (applied-pop condition setting (select condition at settings))
            | inr other ↦ rw other (omega arith)
          ]

      select-none :
          (settings : List Setting)
          → build condition ≡ none
          → weigh f (applied build name settings)
            ≡ weigh f (applied build name (select condition none settings))
      unfolding select
      select-none [] unset = refl
      select-none (setting ∷ settings) unset =
          let conditions = setting.conditions in
          elim (Option-cases (lookup condition conditions)) [
            | inl missing ↦ ground (
              arith,
              missing,
              holds-without build conditions condition missing,
              applied-cons condition setting settings,
              weigh-part none setting settings,
              select-none settings unset,
            )
            | inr (value, found) ↦ ground (
              arith,
              found,
              unset,
              holds-with build conditions condition value found,
              applied-cons condition setting settings,
              weigh-part none setting settings,
              select-none settings unset,
            )
          ]

      select-some :
          (settings : List Setting) (v : Text)
          → build condition ≡ some v
          → weigh f (applied build name settings)
            ≡ weigh f (applied build name (select condition none settings))
              + weigh f (applied build name (select condition (some v) settings))
      unfolding select
      select-some [] v is_set = unfold weigh applied in refl
      select-some (setting ∷ settings) v is_set =
          let conditions = setting.conditions in
          elim (Option-cases (lookup condition conditions)) [
            | inl missing ↦ ground (
              arith,
              missing,
              holds-without build conditions condition missing,
              applied-cons condition setting settings,
              weigh-part none setting settings,
              weigh-part (some v) setting settings,
              select-some settings v is_set,
            )
            | inr (value, found) ↦ ground (
              arith,
              found,
              is_set,
              list_beq_iff v value,
              list_beq_iff value v,
              holds-with build conditions condition value found,
              applied-cons condition setting settings,
              weigh-part none setting settings,
              weigh-part (some v) setting settings,
              select-some settings v is_set,
            )
          ]

    weigh-bare :
        (settings : List Setting)
        → All (λ setting. setting.conditions ≡ []) settings
        → (all_append settings || length settings == 1) ≡ true
        → weigh f (calls_of name settings) ≡ weigh f (applied build name settings)
    unfolding calls_of
    weigh-bare settings none_left fits = elim (Bool-cases (all_append settings)) [
      | inl appending ↦
          rw appending
            (weigh-leaf f name build true settings none_left (all_append-All settings appending))
      | inr not_all ↦ rw not_all (
          weigh-leaf f name build false settings none_left
            (one-All settings not_all (ground (arith, fits, not_all))))
    ]

    -- What takes effect, on enough fuel.
    weigh-meaning :
        {fuel : ℕ} {settings : List Setting}
        → IsSound fuel settings
        → size_all settings < fuel
        → weigh f (meaning build name fuel settings) ≡ weigh f (applied build name settings)
    unfolding chosen weigh
    weigh-meaning spent enough = absurd (omega arith)
    weigh-meaning (bare {fuel} {settings} plain fits) enough =
        ap (weigh f) (meaning-leaf name fuel settings build plain)
        ∙ weigh-bare settings (choose-none settings plain) fits
    weigh-meaning (split {fuel} {settings} {condition} picked each) enough =
        let smaller = λ (at : Option Text).
          size_all-select-lt condition at settings (choose-any_has settings condition picked) in
        let part = λ (at : Option Text). weigh-meaning (each at) (omega (arith, smaller at)) in
        let with_value = λ (value : Option Text).
          weigh f (meaning build name fuel (select condition none settings))
          + weigh f
              (chosen (meaning build name fuel) value (λ v. select condition (some v) settings)) in
        ap (weigh f) (meaning-node name fuel settings build condition picked)
        ∙ weigh-append f (meaning build name fuel (select condition none settings)) _
        ∙ elim (Option-cases (build condition)) [
          | inl unset ↦
              ap with_value unset ∙ omega (arith, part none, select-none condition settings unset)
          | inr (v, is_set) ↦
              ap with_value is_set
              ∙ omega (arith, part none, part (some v), select-some condition settings v is_set)
        ]

-- When the constructor makes a tree, then in every build the calls that take effect of the written
-- tree are those of the settings whose conditions hold, each as often: every function of a call
-- has the same sum over both.
pub write_out-applied :
    (f : Call → ℕ) (build : Build) (name : Text) (settings : List Setting) (tree : Tree)
    → init name settings ≡ ok tree
    → weigh f (run_file build 0 (write_out tree)) ≡ weigh f (applied build name settings)
unfolding init
write_out-applied f build name settings tree done =
    ap (weigh f) (
      run_file-effects build tree
      ∙ effects-init_from build name (suc (size_all settings)) settings tree done)
    ∙ weigh-meaning f name build
        (init_from-IsSound name (suc (size_all settings)) settings tree done) (omega arith)
