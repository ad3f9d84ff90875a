-- ===== src/Scheduler/Procs.antt =====
-- The processors: what the threads hold and what is left add up to the pool, and there are never more
-- threads than workers.
use cime.Common.{ℕ, ◌+◌, Text, ◌≡◌, [], ◌∷◌, ok, list_eq, nat_eq, arith}
use cime.TestStatus.Phase.{Status, Phase, phase_eq}
use cime.Scheduler.State.{Env, Scheduler, update_test_status}
use cime.Scheduler.Threads.{
  Outcome, finish_phase, set_finished, scale_cost, count_completed, note_update, submit_now,
  consumer, Flight,
}

-- The processors that the threads hold until they are collected.
unfoldable pub held : Flight → ℕ
held [] = 0
held ((test, t) ∷ flight) = t.procs + held flight

pub procs-update_test_status :
    (env : Env) (s s' : Scheduler) (test : Text) (phase : Phase) (status : Status)
    → update_test_status env s test phase status ≡ ok s'
    → s'.procs_avail ≡ s.procs_avail
unfolding update_test_status
procs-update_test_status env s s' test phase status h = ground arith

procs-set_finished :
    (env : Env) (s s' : Scheduler) (test : Text) (phase : Phase) (status : Status)
    → set_finished env s test phase status ≡ ok s'
    → s'.procs_avail ≡ s.procs_avail
unfolding set_finished
procs-set_finished env s s' test phase status h =
    ground (arith, procs-update_test_status env s s' test phase status)

procs-finish_phase :
    (env : Env) (s s' : Scheduler) (test : Text) (phase : Phase) (o : Outcome)
    → finish_phase env s test phase o ≡ ok s'
    → s'.procs_avail ≡ s.procs_avail
unfolding finish_phase note_update count_completed scale_cost
procs-finish_phase env s s' test phase o h = grind (arith, procs-set_finished)

procs-submit_now :
    (env : Env) (s s' : Scheduler) (test : Text) (o : Outcome)
    → submit_now env s test o ≡ ok s'
    → s'.procs_avail ≡ s.procs_avail
unfolding submit_now
procs-submit_now env s s' test o h = grind (arith, procs-finish_phase, procs-update_test_status)

pub procs-consumer :
    (env : Env) (s s' : Scheduler) (test : Text) (phase : Phase) (o ro : Outcome)
    → consumer env s test phase o ro ≡ ok s'
    → s'.procs_avail ≡ s.procs_avail
unfolding consumer
procs-consumer env s s' test phase o ro h = grind (arith, procs-finish_phase, procs-submit_now)
