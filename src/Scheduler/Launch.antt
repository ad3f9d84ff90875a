-- ===== src/Scheduler/Launch.antt =====
-- What a visit of the producer that starts or rejects a test does.
use cime.Common.{
  ℕ, ◌-◌, ◌≤◌, Text, ◌≡◌, refl, true, false, some, List, [], ◌∷◌, ok, expect, if◌then◌else◌, ◌==◌,
  list_eq, nat_eq, length, is_nil, Bool-cases, Option-cases, contains, index, inl, inr, ok_of_bind,
  ◌≢◌, not, leb, arith,
}
use cime.Common.Dict.{insert, member}
use cime.TestStatus.Phase.{Status, Phase, pend, fail, is_pend, phase_eq}
use cime.Scheduler.Entries.{tests-update_test_status}
use cime.Scheduler.Procs.{procs-update_test_status}
use cime.Scheduler.State.{
  Env, Entry, Scheduler, update_test_status, step_index, get_test_data, still_pending,
}
use cime.Scheduler.Threads.{
  Thread, State, Visit, launched, rejected, launch, reject, start_next, visit_test, note_rejected,
  next_step, procs_needed,
}
use cime.Scheduler.Transition.{IsNext, update_test_status-IsNext}

-- `_producer` starts a thread only for a test that has none, when a worker is free, and only with
-- processors that are left.
pub record IsLaunch (env : Env) (σ σ' : State) : Type 0 where
  pub test : Text
  pub present : member test σ.sched.tests ≡ true
  pub thread : Thread
  pub no_thread : member test σ.flight ≡ false
  pub some_worker : (length σ.flight == env.parallel_jobs) ≡ false
  pub enough : thread.procs ≤ σ.sched.procs_avail
  pub taken : σ'.sched.procs_avail ≡ σ.sched.procs_avail - thread.procs
  pub flies : σ'.flight ≡ insert test thread σ.flight
  pub lives : thread.alive ≡ true
  pub known : contains env.steps thread.phase ≡ true
  pub pending : σ'.sched.tests ≡ insert test (thread.phase, pend) σ.sched.tests
  pub next : IsNext env σ.sched.tests test thread.phase

pub index-contains :
    (ps : List Phase) (p : Phase) (i : ℕ) → index ps p ≡ some i → contains ps p ≡ true
index-contains [] p i h = cc
index-contains (q ∷ ps) p i h = elim (Option-cases (index ps p)) [
  | inl e ↦ ground arith
  | inr (j, e) ↦ ground (arith, index-contains ps p j e)
]

pub known-update_test_status :
    (env : Env) (s s' : Scheduler) (test : Text) (phase : Phase) (status : Status)
    → update_test_status env s test phase status ≡ ok s'
    → contains env.steps phase ≡ true
unfolding update_test_status step_index
known-update_test_status env s s' test phase status h =
    elim (Option-cases (index env.steps phase)) [
      | inl e ↦ ground arith
      | inr (i, e) ↦ index-contains env.steps phase i e
    ]

launch_lem :
    (env : Env) (σ σ' : State) (test : Text) (phase : Phase) (procs : ℕ)
    → launch env σ test phase procs ≡ ok (launched σ')
    → (σ'.sched.procs_avail ≡ σ.sched.procs_avail - procs)
      × (σ'.flight ≡ insert test (record { alive = true; procs = procs; phase = phase }) σ.flight)
      × (contains env.steps phase ≡ true)
      × (σ'.sched.tests ≡ insert test (phase, pend) σ.sched.tests)
unfolding launch
launch_lem env σ σ' test phase procs h =
    grind (arith, procs-update_test_status, tests-update_test_status, known-update_test_status)

launch-IsNext :
    (env : Env) (σ σ' : State) (test : Text) (phase : Phase) (procs : ℕ)
    → launch env σ test phase procs ≡ ok (launched σ')
    → IsNext env σ.sched.tests test phase
unfolding launch
launch-IsNext env σ σ' test phase procs h =
    let s = record σ.sched { procs_avail = σ.sched.procs_avail - procs } in
    let (started, made, _) = ok_of_bind (update_test_status env s test phase pend) _ h in
    update_test_status-IsNext env s started test phase made

reject-IsNext :
    (env : Env) (σ σ' : State) (test : Text) (phase : Phase)
    → reject env σ test phase ≡ ok (rejected σ')
    → IsNext env σ.sched.tests test phase
unfolding reject
reject-IsNext env σ σ' test phase h =
    let (started, made, _) = ok_of_bind (update_test_status env σ.sched test phase pend) _ h in
    update_test_status-IsNext env σ.sched started test phase made

no_launch :
    (env : Env) (σ σ' : State) (test : Text) (phase : Phase)
    → (if is_nil σ.flight then reject env σ test phase else ok Visit.waits) ≢ ok (launched σ')
unfolding reject
no_launch env σ σ' test phase h = ground arith

start_next-IsLaunch :
    (env : Env) (σ σ' : State) (test : Text) (e : Entry)
    → member test σ.sched.tests ≡ true
    → member test σ.flight ≡ false
    → (length σ.flight == env.parallel_jobs) ≡ false
    → start_next env σ test e ≡ ok (launched σ')
    → IsLaunch env σ σ'
unfolding start_next
start_next-IsLaunch env σ σ' test e present absent room h =
    let (_, _, from_phase) = ok_of_bind (expect (not (is_pend e.1)) (still_pending test)) _ h in
    let (phase, _, from_procs) = ok_of_bind (next_step env e.0) _ from_phase in
    let (procs, _, choice) =
      ok_of_bind (procs_needed env σ.sched σ.flight test phase) _ from_procs in
    elim (Bool-cases (leb procs σ.sched.procs_avail)) [
      | inl fits ↦
          let (taken, flies, known, pending) =
            launch_lem env σ σ' test phase procs (rw fits at choice) in
          record {
            test = test;
            present = present;
            thread = record { alive = true; procs = procs; phase = phase };
            no_thread = absent;
            some_worker = room;
            enough = ground arith;
            taken = taken;
            flies = flies;
            lives = refl;
            known = known;
            pending = pending;
            next = launch-IsNext env σ σ' test phase procs (rw fits at choice);
          }
      | inr lacks ↦ absurd (no_launch env σ σ' test phase (rw lacks at choice))
    ]

member_of_get :
    (s : Scheduler) (test : Text) (e : Entry)
    → get_test_data s test ≡ ok e
    → member test s.tests ≡ true
unfolding get_test_data member
member_of_get s test e h = ground arith

pub visit_test-IsLaunch :
    (env : Env) (σ σ' : State) (test : Text)
    → visit_test env σ test ≡ ok (launched σ')
    → IsLaunch env σ σ'
unfolding visit_test
visit_test-IsLaunch env σ σ' test h =
    let (e, got, choice) = ok_of_bind (get_test_data σ.sched test) _ h in
    start_next-IsLaunch env σ σ' test e (member_of_get σ.sched test e got) (ground arith)
      (ground arith) (ground arith)

-- `_producer` fails a test for want of processors only when it has no thread.
pub record IsReject (env : Env) (σ σ' : State) : Type 0 where
  pub test : Text
  pub present : member test σ.sched.tests ≡ true
  pub phase : Phase
  pub known : contains env.steps phase ≡ true
  pub no_thread : member test σ.flight ≡ false
  pub flies : σ'.flight ≡ σ.flight
  pub procs : σ'.sched.procs_avail ≡ σ.sched.procs_avail
  pub failing : σ'.sched.tests ≡ insert test (phase, fail) (insert test (phase, pend) σ.sched.tests)
  pub next : IsNext env σ.sched.tests test phase

note_rejected_lem :
    (test : Text) (phase : Phase) (s : Scheduler)
    → ((note_rejected test phase s).procs_avail ≡ s.procs_avail)
      × ((note_rejected test phase s).tests ≡ s.tests)
unfolding note_rejected
note_rejected_lem test phase s = ground arith

reject_lem :
    (env : Env) (σ σ' : State) (test : Text) (phase : Phase)
    → reject env σ test phase ≡ ok (rejected σ')
    → (σ'.sched.procs_avail ≡ σ.sched.procs_avail)
      × (σ'.flight ≡ σ.flight)
      × (contains env.steps phase ≡ true)
      × (σ'.sched.tests ≡ insert test (phase, fail) (insert test (phase, pend) σ.sched.tests))
unfolding reject
reject_lem env σ σ' test phase h = grind (
  arith, procs-update_test_status, tests-update_test_status, known-update_test_status,
  note_rejected_lem,
)

no_reject :
    (env : Env) (σ σ' : State) (test : Text) (phase : Phase) (procs : ℕ)
    → launch env σ test phase procs ≢ ok (rejected σ')
unfolding launch
no_reject env σ σ' test phase procs h = ground arith

rejecting :
    (env : Env) (σ σ' : State) (test : Text) (phase : Phase)
    → (if is_nil σ.flight then reject env σ test phase else ok Visit.waits) ≡ ok (rejected σ')
    → reject env σ test phase ≡ ok (rejected σ')
rejecting env σ σ' test phase h = ground arith

start_next-IsReject :
    (env : Env) (σ σ' : State) (test : Text) (e : Entry)
    → member test σ.sched.tests ≡ true
    → member test σ.flight ≡ false
    → start_next env σ test e ≡ ok (rejected σ')
    → IsReject env σ σ'
unfolding start_next
start_next-IsReject env σ σ' test e present absent h =
    let (_, _, from_phase) = ok_of_bind (expect (not (is_pend e.1)) (still_pending test)) _ h in
    let (phase, _, from_procs) = ok_of_bind (next_step env e.0) _ from_phase in
    let (procs, _, choice) =
      ok_of_bind (procs_needed env σ.sched σ.flight test phase) _ from_procs in
    elim (Bool-cases (leb procs σ.sched.procs_avail)) [
      | inl fits ↦ absurd (no_reject env σ σ' test phase procs (rw fits at choice))
      | inr lacks ↦
          let (avail, flies, known, failing) =
            reject_lem env σ σ' test phase (rejecting env σ σ' test phase (rw lacks at choice)) in
          record {
            test = test;
            present = present;
            phase = phase;
            known = known;
            no_thread = absent;
            flies = flies;
            procs = avail;
            failing = failing;
            next =
                reject-IsNext env σ σ' test phase
                  (rejecting env σ σ' test phase (rw lacks at choice));
          }
    ]

pub visit_test-IsReject :
    (env : Env) (σ σ' : State) (test : Text)
    → visit_test env σ test ≡ ok (rejected σ')
    → IsReject env σ σ'
unfolding visit_test
visit_test-IsReject env σ σ' test h =
    let (e, got, choice) = ok_of_bind (get_test_data σ.sched test) _ h in
    start_next-IsReject env σ σ' test e (member_of_get σ.sched test e got) (ground arith)
      (ground arith)
