-- ===== src/Scheduler/State.antt =====
-- scripts/lib/CIME/test_scheduler.py: the phase and status of each test, and the transitions that
-- `_update_test_status` accepts. `Env` holds what the constructor fixes.
use cime.Common.{
  ℕ, suc, Text, text, Bool, false, ◌&&◌, ◌||◌, not, Option, none, some, List, [], ◌∷◌, Result, ok,
  err, expect, ◌>>=◌, ◌>>◌, if◌then◌else◌, ◌==◌, nat_eq, list_eq, index, ltb,
}
use cime.Common.Dict.{Dict, lookup, insert}
use cime.TestStatus.Phase.{
  Status, Phase, pend, pass, create_newcase, xml, setup, sharedlib_build, model_build, run, other,
  is_pass, is_pend, phase_eq,
}

-- TEST_START
abbrev pub init_phase : Phase
init_phase = other (text "INIT")

-- PHASES
abbrev pub all_steps : List Phase
all_steps = init_phase ∷ create_newcase ∷ xml ∷ setup ∷ sharedlib_build ∷ model_build ∷ run ∷ []

-- list.remove of a value that is there once
unfoldable pub without : Phase → List Phase → List Phase
without p [] = []
without p (q ∷ qs) = let rest = without p qs in if q == p then qs else q ∷ rest

-- "Setup phases" of the constructor
unfoldable pub steps_for : Bool → Bool → Bool → List Phase
unfolding without
steps_for no_setup no_build no_run =
    let set_up = if no_setup then without setup all_steps else all_steps in
    let built = if no_build then without model_build (without sharedlib_build set_up) else set_up in
    if no_run then without run built else built

pub record Env : Type 0 where
  -- self._phases
  pub steps : List Phase
  pub no_run : Bool
  pub no_batch : Bool
  pub is_e3sm : Bool
  pub proc_pool : ℕ
  pub parallel_jobs : ℕ
  pub build_groups : List (List Text)
  -- EnvMachPes(test_dir).get_value("TOTALPES")
  pub total_pes : Text → ℕ

-- The phase that a test is in, and its status there.
abbrev pub Entry : Type 0
Entry = Phase × Status

pub record Scheduler : Type 0 where
  -- self._tests
  pub tests : Dict Text Entry
  -- self._completed_tests
  pub completed : ℕ
  -- self._procs_avail
  pub procs_avail : ℕ
  -- self._model_build_cost
  pub model_build_cost : ℕ
  -- the calls of `_update_test_status_file`, the last one first
  pub file_updates : List (Text × Phase × Status)

pub data Error : Type 0 where
  -- KeyError of self._tests
  unknown_test : Text → Error
  -- ValueError of self._phases.index
  unknown_phase : Phase → Error
  -- "Only valid to transition from PEND to something else", "Cannot transition from PEND -> PEND"
  not_pending pend_to_pend : Error
  -- "Why did we move on to next phase when prior phase did not pass?"
  prior_not_passed : Error
  -- "New phase should be set to pending status"
  not_set_to_pend : Error
  -- "Skipped phase?"
  skipped_phase : Error
  -- "No build group for test"
  no_build_group : Text → Error
  -- expect(test_status != TEST_PEND_STATUS, test)
  still_pending : Text → Error

-- _get_test_data
unfoldable pub get_test_data : Scheduler → Text → Result Error Entry
get_test_data s test = elim (lookup test s.tests) [ none ↦ err (unknown_test test) | some e ↦ ok e ]

-- _is_broken, of the status
unfoldable pub is_broken : Status → Bool
unfolding is_pass is_pend
is_broken status = not (is_pass status) && not (is_pend status)

-- self._phases[-1]
unfoldable pub last_step : List Phase → Option Phase
last_step [] = none
last_step (p ∷ ps) = elim ps [ [] ↦ some p | _ ∷ _ ↦ last_step ps ]

unfoldable pub is_last : Env → Phase → Bool
unfolding last_step
is_last env phase = elim (last_step env.steps) [ none ↦ false | some p ↦ phase == p ]

-- _work_remains, of the test's entry
unfoldable pub unfinished : Env → Entry → Bool
unfolding is_last is_pass is_pend
unfinished env e = (is_pass e.1 || is_pend e.1) && not (is_last env e.0)

unfoldable pub work_remains : Env → Scheduler → Text → Result Error Bool
work_remains env s test = do e ← get_test_data s test; ok (unfinished env e)

-- self._phases.index(phase)
unfoldable pub step_index : Env → Phase → Result Error ℕ
step_index env phase = elim (index env.steps phase) [
  | none ↦ err (unknown_phase phase)
  | some i ↦ ok i
]

-- The status that `_get_test_status` gives of a phase other than the test's own.
unfoldable pub status_elsewhere : ℕ → ℕ → Status
status_elsewhere asked current = if ltb current asked then pend else pass

unfoldable pub other_status : Env → Phase → Phase → Result Error Status
other_status env phase current_phase = do
  asked ← step_index env phase
  current ← step_index env current_phase
  ok (status_elsewhere asked current)

-- _get_test_status(test, phase)
unfoldable pub get_test_status : Env → Scheduler → Text → Phase → Result Error Status
get_test_status env s test phase = do
  e ← get_test_data s test
  (if phase == e.0 then ok e.1 else other_status env phase e.0)

-- The conditions of `_update_test_status` on a change inside a phase.
unfoldable pub check_same : Status → Status → Result Error (Unit {0})
unfolding is_pend
check_same old status = do
  expect (is_pend old) not_pending
  expect (not (is_pend status)) pend_to_pend

-- The conditions on a move to another phase.
unfoldable pub check_next : Env → ℕ → Entry → Status → Result Error (Unit {0})
unfolding is_pass is_pend step_index
check_next env phase_idx old status = do
  expect (is_pass old.1) prior_not_passed
  expect (is_pend status) not_set_to_pend
  old_idx ← step_index env old.0
  expect (suc old_idx == phase_idx) skipped_phase

-- _update_test_status
unfoldable pub update_test_status : Env → Scheduler → Text → Phase → Status → Result Error Scheduler
update_test_status env s test phase status = do
  phase_idx ← step_index env phase
  old ← get_test_data s test
  (if old.0 == phase then check_same old.1 status else check_next env phase_idx old status)
  ok (record s { tests = insert test (phase, status) s.tests })
