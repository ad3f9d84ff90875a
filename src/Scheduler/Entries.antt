-- ===== src/Scheduler/Entries.antt =====
-- What a thread's end makes of the entries of the tests.
use cime.Common.{
  Text, ◌≡◌, refl, true, false, ◌&&◌, not, Option, some, ok, if◌then◌else◌, ◌==◌, list_eq, nat_eq,
  list_beq_iff, arith,
}
use cime.Common.Dict.{Dict, lookup, insert, lookup-insert}
use cime.TestStatus.Phase.{Status, Phase, pend, run, is_pend, phase_eq}
use cime.Scheduler.State.{Env, Entry, Scheduler, update_test_status}
use cime.Scheduler.Threads.{
  Outcome, finish_phase, set_finished, scale_cost, count_completed, note_update, submit_now,
  submits_now, consumer, status_after,
}

abbrev pub Tests : Type 0
Tests = Dict Text Entry

pub tests-update_test_status :
    (env : Env) (s s' : Scheduler) (test : Text) (phase : Phase) (status : Status)
    → update_test_status env s test phase status ≡ ok s'
    → s'.tests ≡ insert test (phase, status) s.tests
unfolding update_test_status
tests-update_test_status env s s' test phase status h = ground arith

-- The entries after a phase that ends with `status`.
unfoldable pub finished_tests : Tests → Text → Phase → Status → Tests
finished_tests tests test phase status =
    if is_pend status then tests else insert test (phase, status) tests

pub tests-set_finished :
    (env : Env) (s s' : Scheduler) (test : Text) (phase : Phase) (status : Status)
    → set_finished env s test phase status ≡ ok s'
    → s'.tests ≡ finished_tests s.tests test phase status
unfolding set_finished finished_tests
tests-set_finished env s s' test phase status h =
    ground (arith, tests-update_test_status env s s' test phase status)

pub tests-finish_phase :
    (env : Env) (s s' : Scheduler) (test : Text) (phase : Phase) (o : Outcome)
    → finish_phase env s test phase o ≡ ok s'
    → s'.tests ≡ finished_tests s.tests test phase (status_after env phase o.success)
unfolding finish_phase note_update count_completed scale_cost
tests-finish_phase env s s' test phase o h = grind (arith, tests-set_finished)

-- The entries after a thread of `test` in `phase`.
unfoldable pub consumed_tests : Env → Tests → Text → Phase → Outcome → Outcome → Tests
consumed_tests env tests test phase o ro =
    let first = finished_tests tests test phase (status_after env phase o.success) in
    if submits_now env phase o
    then finished_tests (insert test (run, pend) first) test run (status_after env run ro.success)
    else first

tests-submit_now :
    (env : Env) (s s' : Scheduler) (test : Text) (o : Outcome)
    → submit_now env s test o ≡ ok s'
    → s'.tests
      ≡ finished_tests (insert test (run, pend) s.tests) test run (status_after env run o.success)
unfolding submit_now
tests-submit_now env s s' test o h = grind (arith, tests-finish_phase, tests-update_test_status)

pub tests-consumer :
    (env : Env) (s s' : Scheduler) (test : Text) (phase : Phase) (o ro : Outcome)
    → consumer env s test phase o ro ≡ ok s'
    → s'.tests ≡ consumed_tests env s.tests test phase o ro
unfolding consumer consumed_tests
tests-consumer env s s' test phase o ro h = grind (arith, tests-finish_phase, tests-submit_now)

-- Other tests keep their entries.
lookup-finished_tests :
    (tests : Tests) (test other : Text) (phase : Phase) (status : Status)
    → lookup other (finished_tests tests test phase status)
      ≡ (if not (is_pend status) && test == other then some (phase, status) else lookup other tests)
unfolding finished_tests
lookup-finished_tests tests test other phase status =
    ground (arith, lookup-insert test other (phase, status) tests)

test_self : (test : Text) → (test == test) ≡ true
test_self test = (list_beq_iff test test).1 refl

-- The test's own entry.
unfoldable pub own_entry : Option Entry → Phase → Status → Option Entry
own_entry before phase status = if is_pend status then before else some (phase, status)

pub lookup-finished_tests_self :
    (tests : Tests) (test : Text) (phase : Phase) (status : Status)
    → lookup test (finished_tests tests test phase status)
      ≡ own_entry (lookup test tests) phase status
unfolding own_entry
lookup-finished_tests_self tests test phase status =
    ground (arith, lookup-finished_tests tests test test phase status, test_self test)

pub lookup-consumed_tests_self :
    (env : Env) (tests : Tests) (test : Text) (phase : Phase) (o ro : Outcome)
    → lookup test (consumed_tests env tests test phase o ro) ≡ (
        if submits_now env phase o
        then own_entry (some (run, pend)) run (status_after env run ro.success)
        else own_entry (lookup test tests) phase (status_after env phase o.success))
unfolding consumed_tests
lookup-consumed_tests_self env tests test phase o ro =
    let first = finished_tests tests test phase (status_after env phase o.success) in
    ground (
      arith,
      lookup-finished_tests_self tests test phase (status_after env phase o.success),
      lookup-finished_tests_self (insert test (run, pend) first) test run
          (status_after env run ro.success),
      lookup-insert test test (run, pend) first,
      test_self test,
    )

pub lookup-consumed_tests :
    (env : Env) (tests : Tests) (test other : Text) (phase : Phase) (o ro : Outcome)
    → (test == other) ≡ false
    → lookup other (consumed_tests env tests test phase o ro) ≡ lookup other tests
unfolding consumed_tests
lookup-consumed_tests env tests test other phase o ro apart =
    let first = finished_tests tests test phase (status_after env phase o.success) in
    ground (
      arith,
      lookup-finished_tests tests test other phase (status_after env phase o.success),
      lookup-finished_tests (insert test (run, pend) first) test other run
          (status_after env run ro.success),
      lookup-insert test other (run, pend) first,
    )
