-- ===== src/Scheduler/Threads.antt =====
-- scripts/lib/CIME/test_scheduler.py: the threads that run the phases, and the producer that starts
-- them. What a phase method does (shell commands, files) is its outcome, chosen by the environment.
use cime.Common.{
  ℕ, suc, ◌+◌, ◌-◌, Text, Bool, true, false, ◌&&◌, ◌||◌, not, Option, none, some, List, [], ◌∷◌,
  Result, ok, err, expect, ◌>>=◌, ◌>>◌, if◌then◌else◌, ◌==◌, nat_eq, list_eq, contains, get_elem?,
  length, is_nil, leb, ltb,
}
use cime.Common.Dict.{Dict, insert, member}
use cime.TestStatus.Phase.{
  Status, Phase, pend, pass, fail, create_newcase, xml, sharedlib_build, model_build, submit, run,
  is_pend, phase_eq,
}
use cime.Scheduler.State.{
  Env, Entry, Scheduler, Error, unknown_phase, no_build_group, still_pending, get_test_data,
  unfinished, work_remains, step_index, get_test_status, update_test_status,
}

-- What a phase method returned, and whether the XML phase reached the lines that scale the cost of
-- model builds back.
pub record Outcome : Type 0 where
  pub success : Bool
  pub scaled : Bool

unfoldable pub find_group : List (List Text) → Text → Option Text
find_group [] test = none
find_group ([] ∷ groups) test = find_group groups test
find_group ((first ∷ others) ∷ groups) test =
    let later = find_group groups test in
    if contains (first ∷ others) test then some first else later

-- _get_build_group: the first test of the group.
unfoldable pub get_build_group : Env → Text → Result Error Text
get_build_group env test = elim (find_group env.build_groups test) [
  | none ↦ err (no_build_group test)
  | some first ↦ ok first
]

-- The status after the phase method: a run that goes to the batch system stays pending.
unfoldable pub status_after : Env → Phase → Bool → Status
status_after env phase success =
    if success then (if phase == run && not env.no_batch then pend else pass) else fail

-- The scheduler updates the TestStatus file for these phases.
unfoldable pub writes_file : Bool → Phase → Bool
writes_file is_first phase =
    phase == create_newcase
    || phase == xml
    || (not is_first && (phase == sharedlib_build || phase == model_build))

unfoldable pub scale_cost : Env → Phase → Outcome → Scheduler → Scheduler
scale_cost env phase outcome s =
    if phase == xml && outcome.scaled && ltb env.proc_pool s.model_build_cost
    then record s { model_build_cost = env.proc_pool }
    else s

unfoldable pub set_finished : Env → Scheduler → Text → Phase → Status → Result Error Scheduler
set_finished env s test phase status =
    if is_pend status then ok s else update_test_status env s test phase status

unfoldable pub count_completed : Bool → Scheduler → Scheduler
count_completed remains s = if remains then s else record s { completed = s.completed + 1 }

unfoldable pub note_update : Bool → Text → Phase → Status → Scheduler → Scheduler
note_update writes test phase status s =
    if writes then record s { file_updates = (test, phase, status) ∷ s.file_updates } else s

-- `_consumer`, up to the immediate submission.
unfoldable pub finish_phase : Env → Scheduler → Text → Phase → Outcome → Result Error Scheduler
finish_phase env s test phase outcome = do
  let status = status_after env phase outcome.success
  updated ← set_finished env (scale_cost env phase outcome s) test phase status
  remains ← work_remains env updated test
  first ← get_build_group env test
  ok (
      note_update (writes_file (test == first) phase) test phase status
        (count_completed remains updated))

-- "On batch systems, we want to immediately submit to the queue"
unfoldable pub submits_now : Env → Phase → Outcome → Bool
submits_now env phase outcome =
    outcome.success && not env.no_run && not env.no_batch && phase == model_build

-- The nested call of `_consumer` for RUN, which submits nothing further.
unfoldable pub submit_now : Env → Scheduler → Text → Outcome → Result Error Scheduler
submit_now env s test outcome = do
  pending ← update_test_status env s test run pend
  finish_phase env pending test run outcome

-- _consumer
unfoldable pub consumer :
    Env → Scheduler → Text → Phase → Outcome → Outcome → Result Error Scheduler
consumer env s test phase outcome run_outcome = do
  finished ← finish_phase env s test phase outcome
  (if submits_now env phase outcome then submit_now env finished test run_outcome else ok finished)

pub record Thread : Type 0 where
  -- is_alive()
  pub alive : Bool
  pub procs : ℕ
  pub phase : Phase

abbrev pub Flight : Type 0
Flight = Dict Text Thread

unfoldable pub builds_sharedlib : Flight → Bool
builds_sharedlib [] = false
builds_sharedlib ((test, t) ∷ flight) = t.phase == sharedlib_build || builds_sharedlib flight

-- `_get_procs_needed` for a test that does not wait for the first one of its build group.
unfoldable pub own_procs : Env → Scheduler → Flight → Text → Phase → ℕ
own_procs env s flight test phase =
    if phase == run && env.no_batch
    then env.total_pes test
    else if phase == sharedlib_build
    then (if not env.is_e3sm && builds_sharedlib flight then env.proc_pool + 1 else 1)
    else if phase == model_build
    then s.model_build_cost
    else 1

-- build_group_dep_phases
unfoldable pub follows_first : Phase → Bool
follows_first phase = phase == xml || phase == sharedlib_build || phase == model_build

unfoldable pub first_procs : Env → Status → ℕ
first_procs env status = if is_pend status then env.proc_pool + 1 else 1

-- _get_procs_needed
unfoldable pub procs_needed : Env → Scheduler → Flight → Text → Phase → Result Error ℕ
procs_needed env s flight test phase = do
  first ← get_build_group env test
  (if not (test == first) && follows_first phase
      then (do status ← get_test_status env s first phase; ok (first_procs env status))
      else ok (own_procs env s flight test phase))

pub record State : Type 0 where
  pub sched : Scheduler
  pub flight : Flight

-- What the loop of `_producer` does at one test.
pub data Visit : Type 0 where
  -- no work remains for it, it is in flight, or it has to wait for processors
  done busy waits : Visit
  -- no worker is available: the loop breaks
  full : Visit
  launched rejected : State → Visit

-- self._phases[self._phases.index(test_phase) + 1]
unfoldable pub next_step : Env → Phase → Result Error Phase
next_step env phase = do
  i ← step_index env phase
  elim (get_elem? env.steps (suc i)) [ none ↦ err (unknown_phase phase) | some p ↦ ok p ]

unfoldable pub launch : Env → State → Text → Phase → ℕ → Result Error Visit
launch env σ test phase procs = do
  let s = σ.sched
  started ←
      update_test_status env (record s { procs_avail = s.procs_avail - procs }) test phase pend
  let thread = (let t : Thread = record { alive = true; procs = procs; phase = phase } in t)
  ok (launched (record { sched = started; flight = insert test thread σ.flight }))

unfoldable pub note_rejected : Text → Phase → Scheduler → Scheduler
note_rejected test phase s =
    if phase == run
    then record s { file_updates = (test, phase, fail) ∷ (test, submit, pass) ∷ s.file_updates }
    else record s { file_updates = (test, phase, fail) ∷ s.file_updates }

-- The phase needs more processors than there are.
unfoldable pub reject : Env → State → Text → Phase → Result Error Visit
reject env σ test phase = do
  pending ← update_test_status env σ.sched test phase pend
  failed ← update_test_status env pending test phase fail
  ok (rejected (record σ { sched = note_rejected test phase failed }))

unfoldable pub start_next : Env → State → Text → Entry → Result Error Visit
start_next env σ test e = do
  expect (not (is_pend e.1)) (still_pending test)
  phase ← next_step env e.0
  procs ← procs_needed env σ.sched σ.flight test phase
  (if leb procs σ.sched.procs_avail
      then launch env σ test phase procs
      else if is_nil σ.flight
      then reject env σ test phase
      else ok waits)

-- One round of the `for` loop of `_producer`.
unfoldable pub visit_test : Env → State → Text → Result Error Visit
visit_test env σ test = do
  e ← get_test_data σ.sched test
  (if not (unfinished env e)
      then ok done
      else if length σ.flight == env.parallel_jobs
      then ok full
      else if member test σ.flight
      then ok busy
      else start_next env σ test e)

-- `_wait_for_something_to_finish`: the loop over the threads that have finished.
unfoldable pub collect_procs : Flight → ℕ
collect_procs [] = 0
collect_procs ((test, t) ∷ flight) = (if t.alive then 0 else t.procs) + collect_procs flight

unfoldable pub still_flying : Flight → Flight
still_flying [] = []
still_flying ((test, t) ∷ flight) =
    let rest = still_flying flight in if t.alive then (test, t) ∷ rest else rest

unfoldable pub collect : State → State
collect σ =
    let s = σ.sched in
    record {
      sched = record s { procs_avail = s.procs_avail + collect_procs σ.flight };
      flight = still_flying σ.flight;
    }
