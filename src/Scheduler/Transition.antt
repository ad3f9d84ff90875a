-- ===== src/Scheduler/Transition.antt =====
-- What `_update_test_status` allows: a test moves from a phase that passed to the phase after it.
use cime.Common.{
  ℕ, suc, ◌≡◌, ◌≢◌, ap, ◌∙◌, Text, some, Result, ok, expect, ◌>>=◌, ◌>>◌, if◌then◌else◌, ◌==◌,
  list_eq, nat_eq, arith, Bool-cases, inl, inr, ok_of_bind,
}
use cime.Common.Dict.{Dict, lookup}
use cime.TestStatus.Phase.{Status, Phase, pend, pass, is_pass, is_pend, phase_eq}
use cime.Scheduler.State.{
  Env, Entry, Scheduler, Error, get_test_data, step_index, update_test_status, check_same,
  check_next, prior_not_passed, not_set_to_pend, skipped_phase,
}

-- `phase` comes right after a phase that the test has passed.
pub record IsNext (env : Env) (tests : Dict Text Entry) (test : Text) (phase : Phase) : Type 0 where
  pub before : Phase
  pub position : ℕ
  pub passed : lookup test tests ≡ some (before, pass)
  pub at_before : step_index env before ≡ ok position
  pub at_phase : step_index env phase ≡ ok (suc position)

check_same-pend : (old : Status) → check_same old pend ≢ ok tt
unfolding check_same is_pend
check_same-pend old h = ground arith

pub check_next-ok :
    (env : Env) (i : ℕ) (old : Entry) (status : Status)
    → check_next env i old status ≡ ok tt
    → (j : ℕ) × (old.1 ≡ pass) × (step_index env old.0 ≡ ok j) × (i ≡ suc j)
unfolding check_next is_pass
check_next-ok env i old status h =
    let follows : Result Error (Unit {0}) =
      (step_index env old.0 >>= (λ j. expect (suc j == i) skipped_phase)) in
    let (_, _, rest) =
      ok_of_bind (expect (is_pass old.1) prior_not_passed)
        (λ _. expect (is_pend status) not_set_to_pend >> follows) h in
    let (_, _, indexed) =
      ok_of_bind (expect (is_pend status) not_set_to_pend) (λ _. follows) rest in
    let (j, at, last) =
      ok_of_bind (step_index env old.0) (λ j. expect (suc j == i) skipped_phase) indexed in
    (j, ground arith, at, ground arith)

-- `_update_test_status` lets a test begin a phase only after the phase before it has passed.
pub update_test_status-IsNext :
    (env : Env) (s s' : Scheduler) (test : Text) (phase : Phase)
    → update_test_status env s test phase pend ≡ ok s'
    → IsNext env s.tests test phase
unfolding update_test_status get_test_data
update_test_status-IsNext env s s' test phase h =
    let (i, at, rest) = ok_of_bind (step_index env phase) _ h in
    let (old, got, choice) = ok_of_bind (get_test_data s test) _ rest in
    let (_, checked, _) =
      ok_of_bind (if old.0 == phase then check_same old.1 pend else check_next env i old pend) _
        choice in
    elim (Bool-cases (old.0 == phase)) [
      | inl same ↦ absurd (check_same-pend old.1 (rw same at checked))
      | inr moves ↦
          let (j, passed, at_old, next) = check_next-ok env i old pend (rw moves at checked) in
          record {
            before = old.0;
            position = j;
            passed = ground arith;
            at_before = at_old;
            at_phase = at ∙ ap ok next;
          }
    ]
