-- ===== src/Scheduler/Rounds.antt =====
-- scripts/lib/CIME/test_scheduler.py: the loops of `_producer`, with threads that may end at any
-- moment of them.
use cime.Common.{
  ℕ, suc, Text, ◌≡◌, Bool, true, false, ◌||◌, not, some, List, [], ◌∷◌, ok, list_eq, nat_eq,
}
use cime.Common.Dict.{lookup}
use cime.TestStatus.Phase.{phase_eq}
use cime.Scheduler.State.{Env, Scheduler}
use cime.Scheduler.Threads.{
  Outcome, Thread, Flight, State, consumer, visit_test, launched, rejected, waits, full, busy, done,
  collect,
}
use cime.Scheduler.Steps.{ended, starts, rejects, ends, collects, Reach, step}

-- The condition under which `_wait_for_something_to_finish` stops waiting.
unfoldable pub some_ended : Flight → Bool
some_ended [] = false
some_ended ((test, t) ∷ flight) = not t.alive || some_ended flight

-- What ends between two statements of the producer.
pub data Ends (env : Env) (σ : State) : State → Type 0 where
  nothing : Ends env σ σ
  one_more :
      {τ : State} (test : Text) (t : Thread) (o ro : Outcome) (s : Scheduler)
      → Ends env σ τ
      → lookup test τ.flight ≡ some t
      → t.alive ≡ true
      → consumer env τ.sched test t.phase o ro ≡ ok s
      → Ends env σ (ended τ test t s)

-- The `for` loop of `_producer` over the tests that are left: `work_to_do` and
-- `num_threads_launched_this_iteration` at its end.
pub data Round (env : Env) : List Text → State → Bool → ℕ → State → Type 0 where
  finished : {σ : State} → Round env [] σ false 0 σ
  meanwhile :
      {tests : List Text} {σ τ υ : State} {work : Bool} {count : ℕ}
      → Ends env σ τ
      → Round env tests τ work count υ
      → Round env tests σ work count υ
  no_work :
      {test : Text} {tests : List Text} {σ υ : State} {work : Bool} {count : ℕ}
      → visit_test env σ test ≡ ok done
      → Round env tests σ work count υ
      → Round env (test ∷ tests) σ work count υ
  in_flight :
      {test : Text} {tests : List Text} {σ υ : State} {work : Bool} {count : ℕ}
      → visit_test env σ test ≡ ok busy
      → Round env tests σ work count υ
      → Round env (test ∷ tests) σ true count υ
  too_few :
      {test : Text} {tests : List Text} {σ υ : State} {work : Bool} {count : ℕ}
      → visit_test env σ test ≡ ok waits
      → Round env tests σ work count υ
      → Round env (test ∷ tests) σ true count υ
  breaks :
      {test : Text} {tests : List Text} {σ : State}
      → visit_test env σ test ≡ ok full
      → Round env (test ∷ tests) σ true 0 σ
  launches :
      {test : Text} {tests : List Text} {σ τ υ : State} {work : Bool} {count : ℕ}
      → visit_test env σ test ≡ ok (launched τ)
      → Round env tests τ work count υ
      → Round env (test ∷ tests) σ true (suc count) υ
  fails :
      {test : Text} {tests : List Text} {σ τ υ : State} {work : Bool} {count : ℕ}
      → visit_test env σ test ≡ ok (rejected τ)
      → Round env tests τ work count υ
      → Round env (test ∷ tests) σ true (suc count) υ

-- The `while` loop of `_producer`, from the start of one round until it is left.
pub data Producer (env : Env) (names : List Text) : State → State → Type 0 where
  leaves : {σ τ : State} {count : ℕ} → Round env names σ false count τ → Producer env names σ τ
  goes_on :
      {σ τ υ : State} {count : ℕ}
      → Round env names σ true (suc count) τ
      → Producer env names τ υ
      → Producer env names σ υ
  -- `_wait_for_something_to_finish`
  is_given_back :
      {σ τ υ φ : State}
      → Round env names σ true 0 τ
      → Ends env τ υ
      → some_ended υ.flight ≡ true
      → Producer env names (collect υ) φ
      → Producer env names σ φ

pub Ends-Reach :
    {env : Env} {names : List Text} {cost : ℕ} {σ τ : State}
    → Ends env σ τ
    → Reach env names cost σ
    → Reach env names cost τ
Ends-Reach nothing r = r
Ends-Reach (one_more test t o ro s before found alive over) r =
    step (Ends-Reach before r) (ends test t o ro s found alive over)

-- A round of the loop consists of the scheduler's steps.
pub Round-Reach :
    {env : Env} {names tests : List Text} {cost : ℕ} {σ τ : State} {work : Bool} {count : ℕ}
    → Round env tests σ work count τ
    → Reach env names cost σ
    → Reach env names cost τ
Round-Reach finished r = r
Round-Reach (meanwhile before round) r = Round-Reach round (Ends-Reach before r)
Round-Reach (no_work visit round) r = Round-Reach round r
Round-Reach (in_flight visit round) r = Round-Reach round r
Round-Reach (too_few visit round) r = Round-Reach round r
Round-Reach (breaks visit) r = r
Round-Reach (launches {test} {τ = τ} visit round) r =
    Round-Reach round (step r (starts test τ visit))
Round-Reach (fails {test} {τ = τ} visit round) r = Round-Reach round (step r (rejects test τ visit))

pub Producer-Reach :
    {env : Env} {names : List Text} {cost : ℕ} {σ τ : State}
    → Producer env names σ τ
    → Reach env names cost σ
    → Reach env names cost τ
Producer-Reach (leaves round) r = Round-Reach round r
Producer-Reach (goes_on round rest) r = Producer-Reach rest (Round-Reach round r)
Producer-Reach (is_given_back round before over rest) r =
    Producer-Reach rest (step (Ends-Reach before (Round-Reach round r)) collects)
