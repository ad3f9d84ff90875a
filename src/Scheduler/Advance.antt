-- ===== src/Scheduler/Advance.antt =====
-- The producer always moves some test on when nothing is in flight.
use cime.Common.{
  ℕ, ◌<◌, Text, ◌≡◌, refl, Bool, true, false, not, some, List, [], ◌∷◌, ok, expect, ◌==◌, list_eq,
  nat_eq, contains, arith, Bool-cases, inl, inr, ok_of_bind, length, is_nil, leb,
}
use cime.Common.Dict.{lookup, member}
use cime.TestStatus.Phase.{Phase, pend, is_pend, phase_eq}
use cime.Scheduler.State.{Env, Entry, get_test_data, update_test_status, unfinished, still_pending}
use cime.Scheduler.Threads.{
  Flight, State, Visit, procs_needed, next_step, launch, reject, start_next, visit_test, launched,
  rejected,
}
use cime.Scheduler.Steps.{Reach}
use cime.Scheduler.Pending.{IsBuilt}
use cime.Scheduler.NoRaise.{IsGrouped}
use cime.Scheduler.Producer.{Reach-visit_test}

-- The test has a new thread, or it failed for want of processors.
unfoldable pub moved_on : Visit → Bool
moved_on (launched σ') = true
moved_on (rejected σ') = true
moved_on v = false

pub launch-moved_on :
    (env : Env) (σ : State) (test : Text) (phase : Phase) (procs : ℕ) (v : Visit)
    → launch env σ test phase procs ≡ ok v
    → moved_on v ≡ true
unfolding launch moved_on
launch-moved_on env σ test phase procs v h =
    let (_, _, last) = ok_of_bind (update_test_status env _ test phase pend) _ h in ground arith

pub reject-moved_on :
    (env : Env) (σ : State) (test : Text) (phase : Phase) (v : Visit)
    → reject env σ test phase ≡ ok v
    → moved_on v ≡ true
unfolding reject moved_on
reject-moved_on env σ test phase v h =
    let (_, _, rest) = ok_of_bind (update_test_status env σ.sched test phase pend) _ h in
    let (_, _, last) = ok_of_bind (update_test_status env _ test phase _) _ rest in ground arith

start_next-moved_on :
    (env : Env) (σ : State) (test : Text) (e : Entry) (v : Visit)
    → is_nil σ.flight ≡ true
    → start_next env σ test e ≡ ok v
    → moved_on v ≡ true
unfolding start_next
start_next-moved_on env σ test e v alone h =
    let (_, _, from_phase) = ok_of_bind (expect (not (is_pend e.1)) (still_pending test)) _ h in
    let (phase, _, from_procs) = ok_of_bind (next_step env e.0) _ from_phase in
    let (procs, _, choice) =
      ok_of_bind (procs_needed env σ.sched σ.flight test phase) _ from_procs in
    elim (Bool-cases (leb procs σ.sched.procs_avail)) [
      | inl fits ↦ launch-moved_on env σ test phase procs v (rw fits at choice)
      | inr lacks ↦ reject-moved_on env σ test phase v (rw alone at (rw lacks at choice))
    ]

pub some_worker :
    (flight : Flight) (jobs : ℕ) → is_nil flight ≡ true → 0 < jobs → (length flight == jobs) ≡ false
some_worker [] jobs alone h = ground arith
some_worker (t ∷ flight) jobs alone h = cc

pub none_flies : (flight : Flight) (test : Text) → is_nil flight ≡ true → member test flight ≡ false
unfolding member lookup
none_flies [] test alone = refl
none_flies (t ∷ flight) test alone = cc

visit_test-moved_on :
    (env : Env) (σ : State) (test : Text) (e : Entry) (v : Visit)
    → is_nil σ.flight ≡ true
    → 0 < env.parallel_jobs
    → lookup test σ.sched.tests ≡ some e
    → unfinished env e ≡ true
    → visit_test env σ test ≡ ok v
    → moved_on v ≡ true
unfolding visit_test get_test_data
visit_test-moved_on env σ test e v alone jobs found works h =
    let (old, got, choice) = ok_of_bind (get_test_data σ.sched test) _ h in
    let same : old ≡ e = ground arith in
    let room : (length σ.flight == env.parallel_jobs) ≡ false =
      some_worker σ.flight env.parallel_jobs alone jobs in
    let idle : member test σ.flight ≡ false = none_flies σ.flight test alone in
    start_next-moved_on env σ test old v alone (ground (arith, same, room, idle, works))

-- Where there is a worker at all, the phases are those that the constructor sets up, and every test has
-- a build group whose first test is one of the tests: in every state that the scheduler reaches with
-- nothing in flight, a visit to a test that has work left gives it a thread or fails it, and does not
-- wait for processors that nobody will give back.
pub Reach-moved_on :
    {env : Env} {names : List Text} {cost : ℕ} {σ : State}
    → IsBuilt env
    → IsGrouped env names
    → 0 < env.parallel_jobs
    → Reach env names cost σ
    → is_nil σ.flight ≡ true
    → (test : Text) (e : Entry) → contains names test ≡ true
    → lookup test σ.sched.tests ≡ some e
    → unfinished env e ≡ true
    → (v : Visit) × (visit_test env σ test ≡ ok v) × (moved_on v ≡ true)
Reach-moved_on {env} {σ = σ} built grouped jobs reached alone test e listed found works =
    let (v, visited) = Reach-visit_test built grouped reached test listed in
    (v, visited, visit_test-moved_on env σ test e v alone jobs found works visited)
