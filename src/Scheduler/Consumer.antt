-- ===== src/Scheduler/Consumer.antt =====
-- A thread never raises, whatever its phase method does.
use cime.Common.{
  ℕ, suc, Text, ◌≡◌, refl, ap, ◌∙◌, subst, Bool, true, false, some, ok, if◌then◌else◌, list_eq,
  nat_eq, list_beq_iff, contains, index, arith, IsOk, IsOk-bind, IsOk-if,
}
use cime.Common.Dict.{lookup, lookup-insert}
use cime.TestStatus.Phase.{
  Status, Phase, pend, pass, model_build, run, is_pend, phase_beq, phase_beq_iff, phase_eq,
}
use cime.Scheduler.State.{
  Env, Scheduler, get_test_data, step_index, steps_for, update_test_status, unfinished,
  work_remains,
}
use cime.Scheduler.Threads.{
  Outcome, get_build_group, status_after, set_finished, scale_cost, finish_phase, submits_now,
  submit_now, consumer,
}
use cime.Scheduler.Entries.{
  tests-finish_phase, tests-set_finished, lookup-finished_tests_self, own_entry,
}
use cime.Scheduler.Pending.{IsBuilt, run_known}
use cime.Scheduler.NoRaise.{update_ended, update_next}

scale_cost-tests :
    (env : Env) (phase : Phase) (o : Outcome) (s : Scheduler)
    → (scale_cost env phase o s).tests ≡ s.tests
unfolding scale_cost
scale_cost-tests env phase o s = ground arith

set_finished-IsOk :
    (env : Env) (s : Scheduler) (test : Text) (phase : Phase) (status : Status)
    → lookup test s.tests ≡ some (phase, pend)
    → contains env.steps phase ≡ true
    → IsOk (set_finished env s test phase status)
unfolding set_finished
set_finished-IsOk env s test phase status found known =
    IsOk-if (is_pend status) _ _ (λ waits. (s, refl))
      (λ over. (_, update_ended env s test phase status found known over))

-- The test still has an entry.
finished_entry :
    (env : Env) (s s' : Scheduler) (test : Text) (phase : Phase) (status : Status)
    → lookup test s.tests ≡ some (phase, pend)
    → set_finished env s test phase status ≡ ok s'
    → lookup test s'.tests ≡ some (phase, status)
unfolding own_entry is_pend
finished_entry env s s' test phase status found over =
    ap (lookup test) (tests-set_finished env s s' test phase status over)
    ∙ lookup-finished_tests_self s.tests test phase status
    ∙ ground (arith, found)

finish_phase-IsOk :
    (env : Env) (s : Scheduler) (test first : Text) (phase : Phase) (o : Outcome)
    → lookup test s.tests ≡ some (phase, pend)
    → contains env.steps phase ≡ true
    → get_build_group env test ≡ ok first
    → IsOk (finish_phase env s test phase o)
unfolding finish_phase work_remains get_test_data
finish_phase-IsOk env s test first phase o found known group =
    let scaled = scale_cost env phase o s in
    let status = status_after env phase o.success in
    let found' = ap (lookup test) (scale_cost-tests env phase o s) ∙ found in
    IsOk-bind (set_finished env scaled test phase status) _
      (set_finished-IsOk env scaled test phase status found' known)
      (λ updated over.
        let entry = finished_entry env scaled updated test phase status found' over in
        IsOk-bind (work_remains env updated test) _ (unfinished env (phase, status), ground arith)
          (λ remains counted.
            IsOk-bind (get_build_group env test) _ (first, group) (λ leader led. (_, refl))))

entry-finish_phase :
    (env : Env) (s s' : Scheduler) (test : Text) (phase : Phase) (o : Outcome)
    → lookup test s.tests ≡ some (phase, pend)
    → finish_phase env s test phase o ≡ ok s'
    → lookup test s'.tests ≡ some (phase, status_after env phase o.success)
unfolding own_entry is_pend
entry-finish_phase env s s' test phase o found over =
    ap (lookup test) (tests-finish_phase env s s' test phase o over)
    ∙ lookup-finished_tests_self s.tests test phase (status_after env phase o.success)
    ∙ ground (arith, found)

run_index :
    (no_setup no_build : Bool)
    → contains (steps_for no_setup no_build false) model_build ≡ true
    → (index (steps_for no_setup no_build false) model_build ≡ some (if no_setup then 4 else 5))
      × (index (steps_for no_setup no_build false) run ≡ some (if no_setup then 5 else 6))
unfolding steps_for phase_beq
run_index no_setup no_build known = ground arith

run_after_build :
    (env : Env)
    → IsBuilt env
    → env.no_run ≡ false
    → contains env.steps model_build ≡ true
    → (i : ℕ) × (step_index env model_build ≡ ok i) × (step_index env run ≡ ok (suc i))
unfolding step_index
run_after_build env built runs known =
    let shape : env.steps ≡ steps_for built.no_setup built.no_build false =
      built.steps ∙ ap (steps_for built.no_setup built.no_build) runs in
    let at =
      run_index built.no_setup built.no_build
        (subst (λ ps. contains ps model_build ≡ true) shape known) in
    let here = ap (λ ps. index ps model_build) shape ∙ at.0 in
    let next = ap (λ ps. index ps run) shape ∙ at.1 in
    ((if built.no_setup then 4 else 5), ground arith, ground arith)

submit_now-IsOk :
    (env : Env) (s : Scheduler) (test first : Text) (o : Outcome)
    → IsBuilt env
    → env.no_run ≡ false
    → contains env.steps model_build ≡ true
    → lookup test s.tests ≡ some (model_build, pass)
    → get_build_group env test ≡ ok first
    → IsOk (submit_now env s test o)
unfolding submit_now
submit_now-IsOk env s test first o built runs known found group =
    let (i, here, next) = run_after_build env built runs known in
    let made = update_next env s test model_build run i found here next in
    IsOk-bind (update_test_status env s test run pend) _ (_, made)
      (λ pending after.
        let set : lookup test pending.tests ≡ some (run, pend) =
          ground (arith, lookup-insert test test (run, pend) s.tests, list_beq_iff test test) in
        finish_phase-IsOk env pending test first run o set (run_known env built runs) group)

-- When the build of the model is over and was a success, the test has passed that phase.
pub submits_after_build :
    (env : Env) (phase : Phase) (o : Outcome)
    → submits_now env phase o ≡ true
    → (phase ≡ model_build) × (env.no_run ≡ false) × (status_after env phase o.success ≡ pass)
unfolding submits_now status_after phase_beq
submits_after_build env phase o h = ground (arith, phase_beq_iff phase model_build)

pub consumer-IsOk :
    (env : Env) (s : Scheduler) (test first : Text) (phase : Phase) (o ro : Outcome)
    → IsBuilt env
    → lookup test s.tests ≡ some (phase, pend)
    → contains env.steps phase ≡ true
    → get_build_group env test ≡ ok first
    → IsOk (consumer env s test phase o ro)
unfolding consumer
consumer-IsOk env s test first phase o ro built found known group =
    IsOk-bind (finish_phase env s test phase o) _
      (finish_phase-IsOk env s test first phase o found known group)
      (λ finished over.
        IsOk-if (submits_now env phase o) _ _
          (λ submits.
            let (here, runs, passed) = submits_after_build env phase o submits in
            let entry = entry-finish_phase env s finished test phase o found over in
            submit_now-IsOk env finished test first ro built runs
              (subst (λ p. contains env.steps p ≡ true) here known)
              (ground (arith, entry, here, passed)) group)
          (λ other. (finished, refl)))
