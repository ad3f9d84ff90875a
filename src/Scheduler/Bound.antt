-- ===== src/Scheduler/Bound.antt =====
-- `_producer` moves tests on only so many times, whatever the threads do.
use cime.Common.{
  ℕ, zero, suc, ◌+◌, ◌*◌, ◌≤◌, ◌≡◌, Text, some, List, [], ◌∷◌, list_eq, nat_eq, list_beq_iff, arith,
  length,
}
use cime.Common.Dict.{lookup, insert, lookup-insert}
use cime.TestStatus.Phase.{Phase, pend, pass, fail}
use cime.Scheduler.State.{Env, Entry, init_phase}
use cime.Scheduler.Threads.{State, collect}
use cime.Scheduler.Entries.{Tests}
use cime.Scheduler.Steps.{fresh_tests, start, ended, Step, starts, rejects, ends, collects}
use cime.Scheduler.Transition.{IsNext}
use cime.Scheduler.Launch.{visit_test-IsLaunch, visit_test-IsReject}
use cime.Scheduler.Potential.{rank_at, progress, progress_below, progress-insert, consumer-IsAhead}

-- Whether a step is a visit that starts or fails a test.
unfoldable pub moves : {env : Env} {σ σ' : State} → Step env σ σ' → ℕ
moves (starts test σ' visit) = 1
moves (rejects test σ' visit) = 1
moves (ends test t o ro s found alive ran) = 0
moves collects = 0

-- The steps from the start, with the number of visits among them that start or fail a test.
pub data Trace (env : Env) (names : List Text) (cost : ℕ) : ℕ → State → Type 0 where
  from_start : Trace env names cost 0 (start env names cost)
  then_step :
      {count : ℕ} {σ σ' : State}
      → Trace env names cost count σ
      → (next : Step env σ σ') → Trace env names cost (moves next + count) σ'

progress-next :
    (env : Env) (tests : Tests) (test : Text) (phase : Phase)
    → IsNext env tests test phase
    → (progress env (insert test (phase, pend) tests) ≡ suc (progress env tests))
      × (length (insert test (phase, pend) tests) ≡ length tests)
progress-next env tests test phase n = omega (
  arith,
  progress-insert env tests test (n.before, pass) (phase, pend) n.passed,
  rank_at env n.before n.position n.at_before,
  rank_at env phase (suc n.position) n.at_phase,
)

Step-progress :
    {env : Env} {σ σ' : State}
    → (next : Step env σ σ')
    → (moves next + progress env σ.sched.tests ≤ progress env σ'.sched.tests)
      × (length σ'.sched.tests ≡ length σ.sched.tests)
unfolding moves ended collect
Step-progress {env} {σ} (starts test σ' visit) =
    let l = visit_test-IsLaunch env σ σ' test visit in
    rw l.pending (omega (arith, progress-next env σ.sched.tests l.test l.thread.phase l.next))
Step-progress {env} {σ} (rejects test σ' visit) =
    let l = visit_test-IsReject env σ σ' test visit in
    let pending = insert l.test (l.phase, pend) σ.sched.tests in
    let set : lookup l.test pending ≡ some (l.phase, pend) = ground (
      arith,
      lookup-insert l.test l.test (l.phase, pend) σ.sched.tests,
      list_beq_iff l.test l.test,
    ) in
    rw l.failing (
      omega (
        arith,
        progress-next env σ.sched.tests l.test l.phase l.next,
        progress-insert env pending l.test (l.phase, pend) (l.phase, fail) set,
      ))
Step-progress {env} {σ} (ends test t o ro s found alive ran) =
    omega (arith, consumer-IsAhead env σ.sched s test t.phase o ro ran)
Step-progress collects = omega arith

length-insert_any :
    (tests : Tests) (test : Text) (e : Entry) → length (insert test e tests) ≤ suc (length tests)
unfolding insert
length-insert_any [] test e = omega arith
length-insert_any ((j, f) ∷ tests) test e = ground (arith, length-insert_any tests test e)

length-fresh_tests :
    (tests : Tests) (names : List Text)
    → length (fresh_tests tests names) ≤ length tests + length names
unfolding fresh_tests
length-fresh_tests tests [] = omega arith
length-fresh_tests tests (name ∷ names) = omega (
  arith,
  length-fresh_tests (insert name (init_phase, pass) tests) names,
  length-insert_any tests name (init_phase, pass),
)

Trace-progress :
    {env : Env} {names : List Text} {cost count : ℕ} {σ : State}
    → Trace env names cost count σ
    → (count ≤ progress env σ.sched.tests) × (length σ.sched.tests ≤ length names)
unfolding start
Trace-progress {names = names} from_start = omega (arith, length-fresh_tests [] names)
Trace-progress (then_step trace next) = omega (arith, Step-progress next, Trace-progress trace)

mul_below : (a b n : ℕ) → a ≤ b → a * n ≤ b * n
mul_below a b zero h = omega arith
mul_below a b (suc n) h = omega (arith, mul_below a b n h)

-- Whatever the threads do, the visits of the producer that start a thread or fail a test are at most
-- the number of tests times the number of phases.
pub Trace-bound :
    {env : Env} {names : List Text} {cost count : ℕ} {σ : State}
    → Trace env names cost count σ
    → count ≤ length names * length env.steps
Trace-bound {env} {names} {σ = σ} trace =
    let (moved, size) = Trace-progress trace in
    let below = progress_below env σ.sched.tests in
    omega
      (arith, moved, below, mul_below (length σ.sched.tests) (length names) (length env.steps) size)
