-- ===== src/Scheduler/Leave.antt =====
-- `_producer` leaves its loop when no work remains, and it never waits for nothing.
use cime.Common.{
  ℕ, ◌<◌, Text, ◌≡◌, ◌≢◌, refl, subst, Bool, true, false, not, List, [], ◌∷◌, ◌⊎◌, ok, expect, ◌==◌,
  list_eq, nat_eq, list_beq_iff, contains, arith, Bool-cases, inl, inr, ok_of_bind, is_nil, leb,
}
use cime.Common.Dict.{insert}
use cime.TestStatus.Phase.{is_pend, phase_eq}
use cime.Scheduler.State.{Env, Entry, get_test_data, still_pending}
use cime.Scheduler.Threads.{
  Thread, Flight, State, Visit, procs_needed, next_step, start_next, visit_test, waits, full, busy,
  done,
}
use cime.Scheduler.Steps.{ended, Reach, step, collects}
use cime.Scheduler.Launch.{visit_test-IsLaunch, visit_test-IsReject}
use cime.Scheduler.Pending.{IsBuilt}
use cime.Scheduler.Advance.{moved_on, launch-moved_on, reject-moved_on, some_worker, none_flies}
use cime.Scheduler.Rounds.{
  Ends, nothing, one_more, Round, finished, meanwhile, no_work, in_flight, too_few, breaks,
  launches, fails, Producer, leaves, goes_on, is_given_back, Ends-Reach, Round-Reach,
}
use cime.Scheduler.Exit.{IsOver, quiet-IsOver}

-- What `start_next` may return besides a state: it waits, with some thread in flight.
start_next-cases :
    (env : Env) (σ : State) (test : Text) (e : Entry) (v : Visit)
    → start_next env σ test e ≡ ok v
    → (moved_on v ≡ true) ⊎ ((v ≡ waits) × (is_nil σ.flight ≡ false))
unfolding start_next
start_next-cases env σ test e v h =
    let (_, _, from_phase) = ok_of_bind (expect (not (is_pend e.1)) (still_pending test)) _ h in
    let (phase, _, from_procs) = ok_of_bind (next_step env e.0) _ from_phase in
    let (procs, _, choice) =
      ok_of_bind (procs_needed env σ.sched σ.flight test phase) _ from_procs in
    elim (Bool-cases (leb procs σ.sched.procs_avail)) [
      | inl fits ↦ inl (launch-moved_on env σ test phase procs v (rw fits at choice))
      | inr lacks ↦ elim (Bool-cases (is_nil σ.flight)) [
        | inl alone ↦ inl (reject-moved_on env σ test phase v (rw alone at (rw lacks at choice)))
        | inr others ↦ inr (ground (arith, rw others at (rw lacks at choice)), others)
      ]
    ]

done-IsOver :
    (env : Env) (σ : State) (test : Text) → visit_test env σ test ≡ ok done → IsOver env σ test
unfolding visit_test get_test_data moved_on
done-IsOver env σ test h new now =
    let (e, got, choice) = ok_of_bind (get_test_data σ.sched test) _ h in
    ground (arith, start_next-cases env σ test e done)

-- A visit that gives the producer a reason to wait finds a thread in flight.
waiting_flies :
    (env : Env) (σ : State) (test : Text) (v : Visit)
    → 0 < env.parallel_jobs
    → visit_test env σ test ≡ ok v
    → moved_on v ≡ false
    → v ≢ done
    → is_nil σ.flight ≡ false
unfolding visit_test get_test_data moved_on
waiting_flies env σ test v jobs h stays works =
    let (e, got, choice) = ok_of_bind (get_test_data σ.sched test) _ h in
    ground (
      arith,
      start_next-cases env σ test e v,
      some_worker σ.flight env.parallel_jobs,
      none_flies σ.flight test,
      works,
    )

insert_flies : (flight : Flight) (test : Text) (t : Thread) → is_nil (insert test t flight) ≡ false
unfolding insert
insert_flies [] test t = refl
insert_flies ((j, u) ∷ flight) test t = ground arith

ending_flies :
    {env : Env} {σ τ : State} → Ends env σ τ → is_nil σ.flight ≡ false → is_nil τ.flight ≡ false
unfolding ended
ending_flies nothing flies = flies
ending_flies (one_more {τ} test t o ro s before found alive ran) flies =
    insert_flies τ.flight test (record t { alive = false })

-- A round collects no thread.
round_flies :
    {env : Env} {tests : List Text} {σ τ : State} {work : Bool} {count : ℕ}
    → Round env tests σ work count τ
    → is_nil σ.flight ≡ false
    → is_nil τ.flight ≡ false
round_flies finished flies = flies
round_flies (meanwhile before round) flies = round_flies round (ending_flies before flies)
round_flies (no_work visit round) flies = round_flies round flies
round_flies (in_flight visit round) flies = round_flies round flies
round_flies (too_few visit round) flies = round_flies round flies
round_flies (breaks visit) flies = flies
round_flies {env} (launches {test} {σ = σ} {τ = τ} visit round) flies =
    let l = visit_test-IsLaunch env σ τ test visit in
    round_flies round (rw l.flies (insert_flies σ.flight l.test l.thread))
round_flies {env} (fails {test} {σ = σ} {τ = τ} visit round) flies =
    round_flies round (rw (visit_test-IsReject env σ τ test visit).flies flies)

-- Where there is a worker at all: when a round of the producer finds work to do and moves no test on,
-- some thread is in flight at its end, so that the producer waits only where something can finish.
pub Round-waits :
    {env : Env} {tests : List Text} {σ τ : State} {work : Bool} {count : ℕ}
    → 0 < env.parallel_jobs
    → Round env tests σ work count τ
    → work ≡ true
    → count ≡ 0
    → is_nil τ.flight ≡ false
unfolding moved_on
Round-waits jobs finished works none_moved = cc
Round-waits jobs (meanwhile before round) works none_moved = Round-waits jobs round works none_moved
Round-waits jobs (no_work visit round) works none_moved = Round-waits jobs round works none_moved
Round-waits {env} jobs (in_flight {test} {σ = σ} visit round) works none_moved =
    round_flies round (waiting_flies env σ test busy jobs visit refl (λ same. ground arith))
Round-waits {env} jobs (too_few {test} {σ = σ} visit round) works none_moved =
    round_flies round (waiting_flies env σ test waits jobs visit refl (λ same. ground arith))
Round-waits {env} jobs (breaks {test} {σ = σ} visit) works none_moved =
    waiting_flies env σ test full jobs visit refl (λ same. ground arith)
Round-waits jobs (launches visit round) works none_moved = absurd (ground arith)
Round-waits jobs (fails visit round) works none_moved = absurd (ground arith)

quiet_round :
    {env : Env} {names tests : List Text} {cost : ℕ} {σ τ : State} {work : Bool} {count : ℕ}
    (name : Text)
    → IsBuilt env
    → Reach env names cost σ
    → Round env tests σ work count τ
    → work ≡ false
    → contains tests name ≡ true
    → IsOver env τ name
quiet_round name built r finished quiet listed = cc
quiet_round name built r (meanwhile before round) quiet listed =
    quiet_round name built (Ends-Reach before r) round quiet listed
quiet_round {env} name built r (no_work {test} {σ = σ} visit round) quiet listed =
    elim (Bool-cases (test == name)) [
      | inl same ↦
          quiet-IsOver name built r round quiet
            (subst (IsOver env σ) ((list_beq_iff test name).0 same) (done-IsOver env σ test visit))
      | inr other ↦ quiet_round name built r round quiet (ground arith)
    ]
quiet_round name built r (in_flight visit round) quiet listed = cc
quiet_round name built r (too_few visit round) quiet listed = cc
quiet_round name built r (breaks visit) quiet listed = cc
quiet_round name built r (launches visit round) quiet listed = cc
quiet_round name built r (fails visit round) quiet listed = cc

-- Where the phases are those that the constructor sets up: when the producer, entering its loop in a
-- state that the scheduler reaches, leaves it, no work remains for any of the tests (each one has
-- failed or is in the last phase).
pub Producer-IsOver :
    {env : Env} {names : List Text} {cost : ℕ} {σ τ : State}
    → IsBuilt env
    → Reach env names cost σ
    → Producer env names σ τ
    → (name : Text) → contains names name ≡ true
    → IsOver env τ name
Producer-IsOver built r (leaves round) name listed = quiet_round name built r round refl listed
Producer-IsOver built r (goes_on round rest) name listed =
    Producer-IsOver built (Round-Reach round r) rest name listed
Producer-IsOver built r (is_given_back round before over rest) name listed =
    Producer-IsOver built (step (Ends-Reach before (Round-Reach round r)) collects) rest name listed
