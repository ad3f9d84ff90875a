-- ===== src/Macros/Weigh.antt =====
-- How often calls are made, for the settings of a leaf.
use cime.Common.{
  Text, ℕ, ◌+◌, Bool, true, false, if◌then◌else◌, List, [], ◌∷◌, ◌++◌, ◌≡◌, refl, length, nat_eq,
  list_eq, arith, ◌∙◌, ap, All, map,
}
use cime.Macros.Setting.{Setting, Build, holds, all, option_eq}
use cime.Macros.Tree.{all_append, all_set_up, all_tear_down}
use cime.Macros.Writer.{Call, write_line, assignment_call, write_leaf}

-- The calls for one setting of a variable.
unfoldable pub calls_for : Text → Setting → List Call
calls_for name setting =
    map write_line setting.set_up
    ++ assignment_call setting.do_append (name, setting.value) ∷ map write_line setting.tear_down

-- The calls for the settings that apply in a build.
unfoldable pub applied : Build → Text → List Setting → List Call
applied build name [] = []
applied build name (setting ∷ settings) =
    (if holds build setting.conditions then calls_for name setting else [])
    ++ applied build name settings

pub all_append-All :
    (settings : List Setting)
    → all_append settings ≡ true
    → All (λ setting. setting.do_append ≡ true) settings
unfolding all_append all
all_append-All [] appending = tt
all_append-All (setting ∷ settings) appending =
    (ground arith, all_append-All settings (ground (arith, appending)))

pub one-All :
    (settings : List Setting)
    → all_append settings ≡ false
    → length settings ≡ 1
    → All (λ setting. setting.do_append ≡ false) settings
unfolding all_append all
one-All [] not_all one = tt
one-All (setting ∷ []) not_all one = (ground (arith, not_all), tt)
one-All (setting ∷ other ∷ settings) not_all one = absurd (omega arith)

module _ (f : Call → ℕ) where
  -- The sum of `f` over the calls. Taken for every `f`, it says how often each call is made.
  unfoldable pub weigh : List Call → ℕ
  weigh [] = 0
  weigh (call ∷ calls) = f call + weigh calls

  weigh-cons : (call : Call) (calls : List Call) → weigh (call ∷ calls) ≡ f call + weigh calls
  unfolding weigh
  weigh-cons call calls = refl

  pub weigh-append : (xs ys : List Call) → weigh (xs ++ ys) ≡ weigh xs + weigh ys
  unfolding weigh
  weigh-append [] ys = omega arith
  weigh-append (call ∷ calls) ys = omega (arith, weigh-append calls ys)

  lines-append :
      (xs ys : List Text)
      → weigh (map write_line (xs ++ ys)) ≡ weigh (map write_line xs) + weigh (map write_line ys)
  unfolding weigh
  lines-append [] ys = omega arith
  lines-append (line ∷ lines) ys = omega (arith, lines-append lines ys)

  module _ (name : Text) where
    -- What a leaf with the settings weighs.
    weigh-write_leaf :
        (do_append : Bool) (assignments : List (Text × Text)) (set_up tear_down : List Text)
        → weigh (write_leaf do_append assignments set_up tear_down)
          ≡ weigh (map write_line set_up)
            + (weigh (map (assignment_call do_append) assignments)
                + weigh (map write_line tear_down))
    unfolding write_leaf
    weigh-write_leaf do_append assignments set_up tear_down = simp (weigh-append)

    weigh-calls_for :
        (setting : Setting)
        → weigh (calls_for name setting)
          ≡ weigh (map write_line setting.set_up)
            + (f (assignment_call setting.do_append (name, setting.value))
                + weigh (map write_line setting.tear_down))
    unfolding calls_for
    weigh-calls_for setting =
        weigh-append (map write_line setting.set_up) _ ∙ (unfold weigh in refl)

    -- Settings without conditions apply in each build.
    module _ (build : Build) (do_append : Bool) where
      pub weigh-leaf :
          (settings : List Setting)
          → All (λ setting. setting.conditions ≡ []) settings
          → All (λ setting. setting.do_append ≡ do_append) settings
          → weigh (
              write_leaf do_append
                (map (λ setting. (name, setting.value)) settings)
                (all_set_up settings)
                (all_tear_down settings))
            ≡ weigh (applied build name settings)
      unfolding applied all_set_up all_tear_down
      weigh-leaf [] none_left alike = unfold weigh write_leaf in refl
      weigh-leaf (setting ∷ settings) (no_conditions, none_left) (same, alike) =
          let apply_here : holds build setting.conditions ≡ true =
            rw no_conditions (unfold holds all in refl) in
          let values : List (Text × Text) = map (λ setting. (name, setting.value)) settings in
          rw apply_here (
            omega (
              arith,
              weigh-write_leaf do_append ((name, setting.value) ∷ values)
                  (setting.set_up ++ all_set_up settings)
                  (setting.tear_down ++ all_tear_down settings),
              weigh-write_leaf do_append values (all_set_up settings) (all_tear_down settings),
              weigh-cons (assignment_call do_append (name, setting.value))
                  (map (assignment_call do_append) values),
              lines-append setting.set_up (all_set_up settings),
              lines-append setting.tear_down (all_tear_down settings),
              weigh-append (calls_for name setting) (applied build name settings),
              weigh-calls_for setting,
              ap (λ append. f (assignment_call append (name, setting.value))) same,
              weigh-leaf settings none_left alike,
            ))
