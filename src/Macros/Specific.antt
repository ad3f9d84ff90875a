-- ===== src/Macros/Specific.antt =====
-- The value that a build gives to a variable by the tree of unambiguous settings.
use cime.Common.{
  Text, Bool, true, false, Option, none, some, List, [], ◌∷◌, ◌++◌, ◌≡◌, ◌⊎◌, refl, sym, subst,
  nat_eq, list_eq, arith, Option-cases, Bool-cases, inl, inr, ◌∙◌, ap, list_beq_iff,
}
use cime.Common.Dict.{lookup, member}
use cime.Macros.Setting.{Setting, Build, holds, is_subset, option_eq, option_beq_iff}
use cime.Macros.Tree.{pop}
use cime.Macros.Writer.{Call, write_line, set_variable, append_variable, start_ifeq, end_ifeq}
use cime.Macros.Conditions.{holds-with, holds-without, is_subset-member, member_of_lookup}
use cime.Macros.Partition.{select}
use cime.Macros.Ambiguity.{is_subset_of_applied, is_subset-remove_eq}
use cime.Macros.Unambiguous.{Has, IsUnambiguous, Has-select, select-Has, Has-do_append, Has-pair}

-- The value that the calls leave in a variable that only they set, none if they do not set it.
unfoldable pub last_set : List Call → Option Text
last_set [] = none
last_set (write_line line ∷ calls) = last_set calls
last_set (set_variable name value ∷ calls) = elim (last_set calls) [
  | none ↦ some value
  | some later ↦ some later
]
last_set (append_variable name value ∷ calls) = last_set calls
last_set (start_ifeq condition cond_val ∷ calls) = last_set calls
last_set (end_ifeq ∷ calls) = last_set calls

unfoldable pub after : Option Text → Option Text → Option Text
after early none = early
after early (some value) = some value

pub last_set-append : (xs ys : List Call) → last_set (xs ++ ys) ≡ after (last_set xs) (last_set ys)
unfolding last_set after
last_set-append [] ys = ground arith
last_set-append (write_line line ∷ calls) ys = last_set-append calls ys
last_set-append (set_variable name value ∷ calls) ys = ground (arith, last_set-append calls ys)
last_set-append (append_variable name value ∷ calls) ys = last_set-append calls ys
last_set-append (start_ifeq condition cond_val ∷ calls) ys = last_set-append calls ys
last_set-append (end_ifeq ∷ calls) ys = last_set-append calls ys

-- No setting applies, or one applies that has all the conditions of each setting that applies.
pub data Decided (build : Build) (settings : List Setting) : Option Text → Type 0 where
  unset :
      ((t : Setting) → Has t settings → holds build t.conditions ≡ false)
      → Decided build settings none
  decided :
      (setting : Setting)
      → Has setting settings
      → holds build setting.conditions ≡ true
      → ((t : Setting)
          → Has t settings
          → holds build t.conditions ≡ true
          → is_subset t.conditions setting.conditions ≡ true)
      → Decided build settings (some setting.value)

module _ (build : Build) (condition : Text) where
  -- A setting without the condition, and its copy in the part of such settings.
  holds-pop-none :
      (t : Setting)
      → lookup condition t.conditions ≡ none
      → holds build (pop condition t).conditions ≡ holds build t.conditions
  unfolding pop
  holds-pop-none t missing = holds-without build t.conditions condition missing

  holds-pop-some :
      (t : Setting) (v : Text)
      → lookup condition t.conditions ≡ some v
      → build condition ≡ some v
      → holds build (pop condition t).conditions ≡ holds build t.conditions
  unfolding pop
  holds-pop-some t v found is_set =
      ground (arith, is_set, list_beq_iff v v, holds-with build t.conditions condition v found)

  -- A setting applies only with the value that the build has.
  value_of_holds :
      (t : Setting) (v : Text)
      → lookup condition t.conditions ≡ some v
      → holds build t.conditions ≡ true
      → build condition ≡ some v
  value_of_holds t v found here = ground (
    arith,
    here,
    holds-with build t.conditions condition v found,
    option_beq_iff (build condition) (some v),
  )

  is_subset-pop :
      (a b : Setting)
      → lookup condition a.conditions ≡ lookup condition b.conditions
      → is_subset (pop condition a).conditions (pop condition b).conditions
        ≡ is_subset a.conditions b.conditions
  unfolding pop
  is_subset-pop a b alike = is_subset-remove_eq condition a.conditions b.conditions alike

  module _ (settings : List Setting) where
    -- What a part decides is decided, if the other settings that apply have fewer conditions.
    from_part :
        (at : Option Text) (part : Setting)
        → ((t : Setting)
            → lookup condition t.conditions ≡ at
            → holds build (pop condition t).conditions ≡ holds build t.conditions)
        → Has part (select condition at settings)
        → holds build part.conditions ≡ true
        → ((t : Setting)
            → Has t (select condition at settings)
            → holds build t.conditions ≡ true
            → is_subset t.conditions part.conditions ≡ true)
        → ((s : Setting)
            → Has s settings
            → lookup condition s.conditions ≡ at
            → holds build s.conditions ≡ true
            → (t : Setting) → Has t settings
            → holds build t.conditions ≡ true
            → (lookup condition t.conditions ≡ at) ⊎ (is_subset t.conditions s.conditions ≡ true))
        → Decided build settings (some part.value)
    from_part at part same has here most others =
        let (s, has_s, found, popped) = select-Has condition at part settings has in
        let same_value : s.value ≡ part.value =
          sym (ap (λ u. u.value) popped ∙ (unfold pop in refl)) in
        let applies = sym (same s found) ∙ ap (λ u. holds build u.conditions) (sym popped) ∙ here in
        subst (λ value. Decided build settings (some value)) same_value
          (decided s has_s applies λ t has_t t_here.
            elim (others s has_s found applies t has_t t_here) [
              | inl alike ↦
                  sym (is_subset-pop t s (alike ∙ sym found))
                  ∙ ap (λ u. is_subset (pop condition t).conditions u.conditions) (sym popped)
                  ∙ most (pop condition t) (Has-select condition at t settings has_t alike)
                      (same t alike ∙ t_here)
              | inr within ↦ within
            ])

    -- No setting of a part applies: no setting with this value for the condition applies.
    off_part :
        (at : Option Text)
        → ((t : Setting)
            → lookup condition t.conditions ≡ at
            → holds build (pop condition t).conditions ≡ holds build t.conditions)
        → ((t : Setting) → Has t (select condition at settings) → holds build t.conditions ≡ false)
        → (t : Setting) → Has t settings
        → lookup condition t.conditions ≡ at
        → holds build t.conditions ≡ false
    off_part at same off t has found =
        sym (same t found) ∙ off (pop condition t) (Has-select condition at t settings has found)

    not_set :
        build condition ≡ none
        → (t : Setting) → holds build t.conditions ≡ true
        → lookup condition t.conditions ≡ none
    not_set unset_here t here = elim (Option-cases (lookup condition t.conditions)) [
      | inl missing ↦ missing
      | inr (w, found) ↦ absurd (ground (arith, value_of_holds t w found here, unset_here))
    ]

    false_unless : {b : Bool} → (b ≡ true → b ≡ false) → b ≡ false
    false_unless {b} refute = elim (Bool-cases b) [ inl yes_it ↦ refute yes_it | inr no_it ↦ no_it ]

    pub Decided-none :
        {value : Option Text}
        → build condition ≡ none
        → Decided build (select condition none settings) value
        → Decided build settings value
    Decided-none unset_here (unset off) = unset λ t has.
        false_unless λ here. off_part none holds-pop-none off t has (not_set unset_here t here)
    Decided-none unset_here (decided part has here most) =
        from_part none part holds-pop-none has here most
          λ s has_s found applies t has_t t_here. inl (not_set unset_here t t_here)

    -- With the value of the build, or without the condition.
    with_or_without :
        (v : Text)
        → build condition ≡ some v
        → (t : Setting) → holds build t.conditions ≡ true
        → (lookup condition t.conditions ≡ none) ⊎ (lookup condition t.conditions ≡ some v)
    with_or_without v is_set t here = elim (Option-cases (lookup condition t.conditions)) [
      | inl missing ↦ inl missing
      | inr (w, found) ↦ inr (found ∙ sym (value_of_holds t w found here) ∙ is_set)
    ]

    -- A setting with the condition that applies has more conditions than one without.
    subset_of_without :
        (v : Text) (s t : Setting)
        → IsUnambiguous settings
        → Has s settings
        → Has t settings
        → holds build s.conditions ≡ true
        → holds build t.conditions ≡ true
        → lookup condition s.conditions ≡ some v
        → lookup condition t.conditions ≡ none
        → is_subset t.conditions s.conditions ≡ true
    unfolding member
    subset_of_without v s t clear has_s has_t s_here t_here found missing =
        elim (Has-pair s t settings clear has_s has_t) [
          | inl same ↦
              absurd (ground (arith, found, missing, ap (λ u. lookup condition u.conditions) same))
          | inr apart ↦
              elim (is_subset_of_applied build s t (Has-do_append s settings clear has_s)
                (Has-do_append t settings clear has_t) apart s_here t_here) [
                  | inl within ↦ absurd (
                      ground (
                        arith,
                        found,
                        missing,
                        is_subset-member s.conditions t.conditions condition within
                            (member_of_lookup condition s.conditions found),
                      ))
                  | inr within ↦ within
                ]
        ]

    pub Decided-some :
        (v : Text) {early late : Option Text}
        → IsUnambiguous settings
        → build condition ≡ some v
        → Decided build (select condition none settings) early
        → Decided build (select condition (some v) settings) late
        → Decided build settings (after early late)
    unfolding after
    Decided-some v clear is_set early (decided part has here most) =
        from_part (some v) part (λ t found. holds-pop-some t v found is_set) has here most
          λ s has_s found applies t has_t t_here. elim (with_or_without v is_set t t_here) [
            | inl missing ↦
                inr (subset_of_without v s t clear has_s has_t applies t_here found missing)
            | inr alike ↦ inl alike
          ]
    Decided-some v clear is_set (decided part has here most) (unset off) =
        from_part none part holds-pop-none has here most λ s has_s found applies t has_t t_here.
          elim (with_or_without v is_set t t_here) [
            | inl missing ↦ inl missing
            | inr alike ↦ absurd (
                ground (
                  arith,
                  t_here,
                  off_part (some v) (λ t found. holds-pop-some t v found is_set) off t has_t alike,
                ))
          ]
    Decided-some v clear is_set (unset early_off) (unset off) = unset λ t has. false_unless λ here.
        elim (with_or_without v is_set t here) [
          | inl missing ↦ off_part none holds-pop-none early_off t has missing
          | inr alike ↦
              off_part (some v) (λ t found. holds-pop-some t v found is_set) off t has alike
        ]
