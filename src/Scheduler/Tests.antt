-- ===== src/Scheduler/Tests.antt =====
-- Runs of the scheduler's model, and its theorems at concrete inputs.
use cime.Common.{
  Text, text, ◌≡◌, refl, true, false, List, [], ◌∷◌, ok, err, IsOk, ◌≤◌, ◌*◌, length, is_nil, arith,
  contains, none, some, nat_eq, list_eq,
}
use cime.Common.Dict.{lookup, insert, remove, remove_if, member}
use cime.Common.Dict.Distinct.{distinct}
use cime.TestStatus.Phase.{
  Status, Phase, pend, pass, fail, create_newcase, xml, model_build, run, submit, is_pass, is_pend,
  phase_beq, phase_eq,
}
use cime.Scheduler.State.{
  Entry, Env, unknown_test, prior_not_passed, init_phase, all_steps, without, steps_for,
  get_test_data, is_broken, last_step, is_last, unfinished, work_remains, step_index,
  status_elsewhere, other_status, get_test_status, check_same, check_next, update_test_status,
}
use cime.Scheduler.Threads.{
  Outcome, find_group, get_build_group, status_after, writes_file, scale_cost, set_finished,
  count_completed, note_update, finish_phase, submits_now, submit_now, consumer, Thread,
  builds_sharedlib, own_procs, follows_first, first_procs, procs_needed, State, Visit, launched,
  rejected, full, done, next_step, launch, note_rejected, reject, start_next, visit_test,
  collect_procs, still_flying, collect,
}
use cime.Scheduler.Steps.{fresh_tests, start, ended, starts, Reach, begin, step}
use cime.Scheduler.Groups.{single_groups, single_groups-IsGrouped}
use cime.Scheduler.Pending.{IsBuilt}
use cime.Scheduler.Balance.{IsBalanced, Reach-IsBalanced}
use cime.Scheduler.Producer.{Reach-visit_test}
use cime.Scheduler.Manned.{Reach-consumer}
use cime.Scheduler.Transition.{IsNext, update_test_status-IsNext}
use cime.Scheduler.Advance.{moved_on, Reach-moved_on}
use cime.Scheduler.Setup.{
  Options, Machine, skips_build, skips_run, build_cost, jobs_for, pool_for, groups_for, make_env,
}
use cime.Scheduler.Abort.{Reach-make_env}
use cime.Scheduler.Rounds.{Round, finished, no_work, in_flight, too_few, fails, goes_on, leaves}
use cime.Scheduler.Exit.{IsOver}
use cime.Scheduler.Leave.{Round-waits, Producer-IsOver}
use cime.Scheduler.Bound.{Trace, from_start, then_step, moves, Trace-bound}

-- All that a test computes with.
program : Unit {0}
unfolding lookup insert remove remove_if member distinct is_pass is_pend phase_beq without steps_for
    get_test_data is_broken last_step is_last unfinished work_remains step_index status_elsewhere
    other_status get_test_status check_same check_next update_test_status find_group get_build_group
    status_after writes_file scale_cost set_finished count_completed note_update finish_phase
    submits_now submit_now consumer builds_sharedlib own_procs follows_first first_procs
    procs_needed next_step launch note_rejected reject start_next visit_test collect_procs
    still_flying collect fresh_tests start ended single_groups moved_on skips_build skips_run
    build_cost jobs_for pool_for groups_for make_env moves
program = tt

abbrev one : Text
one = text "ERS.f19"

abbrev two : Text
two = text "SMS.f19"

abbrev names : List Text
names = one ∷ two ∷ []

-- Two processors and two workers, no batch system.
abbrev small : Env
small = record {
  steps = steps_for false false false;
  no_run = false;
  no_batch = true;
  is_e3sm = false;
  proc_pool = 2;
  parallel_jobs = 2;
  build_groups = single_groups names;
  total_pes = λ test. 4;
}

small-IsBuilt : IsBuilt small
small-IsBuilt = record { no_setup = false; no_build = false; steps = refl }

abbrev worker : Phase → Thread
worker phase = record { alive = true; procs = 1; phase = phase }

-- `one` makes its new case.
abbrev one_flies : State
one_flies = record {
  sched = record {
    tests = (one, (create_newcase, pend)) ∷ (two, (init_phase, pass)) ∷ [];
    completed = 0;
    procs_avail = 1;
    model_build_cost = 1;
    file_updates = [];
  };
  flight = (one, worker create_newcase) ∷ [];
}

one_starts : visit_test small (start small names 1) one ≡ ok (launched one_flies)
unfolding program
one_starts = refl

reached : Reach small names 1 one_flies
reached = step begin (starts one one_flies one_starts)

abbrev failed : Outcome
failed = record { success = false; scaled = false }

abbrev succeeded : Outcome
succeeded = record { success = true; scaled = false }

-- With four processors to run on, `one` is rejected once it is built.
abbrev built_state : State
built_state = record {
  sched = record (start small names 1).sched {
    tests = (one, (model_build, pass)) ∷ (two, (model_build, fail)) ∷ [];
  };
  flight = [];
}

too_large :
    visit_test small built_state one
    ≡ ok (
        rejected (record built_state {
          sched = record built_state.sched {
            tests = (one, (run, fail)) ∷ (two, (model_build, fail)) ∷ [];
            file_updates = (one, run, fail) ∷ (one, submit, pass) ∷ [];
          };
        }))
unfolding program start
too_large = refl

nothing_left : visit_test small built_state two ≡ ok done
unfolding program
nothing_left = refl

skipping : update_test_status small one_flies.sched one xml pend ≡ err prior_not_passed
unfolding program
skipping = refl

stranger : visit_test small one_flies (text "PET") ≡ err (unknown_test (text "PET"))
unfolding program
stranger = refl

two_waits : visit_test (record small { parallel_jobs = 1 }) one_flies two ≡ ok full
unfolding program
two_waits = refl

Reach-IsBalanced_example : IsBalanced small one_flies
Reach-IsBalanced_example = Reach-IsBalanced reached

Reach-visit_test_example : IsOk (visit_test small one_flies two)
Reach-visit_test_example =
    Reach-visit_test small-IsBuilt (single_groups-IsGrouped small names refl) reached two refl

Reach-consumer_example : IsOk (consumer small one_flies.sched one create_newcase failed succeeded)
Reach-consumer_example =
    Reach-consumer small-IsBuilt (single_groups-IsGrouped small names refl) reached one
      (worker create_newcase) failed succeeded (unfold lookup in refl) refl

update_test_status-IsNext_example :
    IsNext small (start small names 1).sched.tests one create_newcase
update_test_status-IsNext_example =
    update_test_status-IsNext small (start small names 1).sched
      (record (start small names 1).sched {
        tests = (one, (create_newcase, pend)) ∷ (two, (init_phase, pass)) ∷ [];
      })
      one create_newcase (unfold program in refl)

Reach-moved_on_example :
    (v : Visit) × (visit_test small (start small names 1) two ≡ ok v) × (moved_on v ≡ true)
Reach-moved_on_example =
    Reach-moved_on {names = names} {cost = 1} small-IsBuilt
      (single_groups-IsGrouped small names refl) (omega arith) begin (unfold program in refl) two
      (init_phase, pass) refl (unfold program in refl) (unfold program in refl)

abbrev plain : Options
plain = record {
  no_setup = false;
  no_build = false;
  namelists_only = false;
  no_run = false;
  no_batch = false;
  parallel_jobs = none;
  proc_pool = none;
}

abbrev cluster : Machine
cluster = record {
  is_e3sm = false;
  has_batch_system = true;
  gmake_j = 8;
  max_tasks_per_node = 36;
  ntest_parallel_jobs = some 4;
  max_mpitasks_per_node = 36;
  total_pes = λ test. 72;
  shared_groups = λ names. [];
}

-- The build group of each test is the test, and the pool is a quarter more than a node has.
cluster_env : make_env plain cluster 2 names ≡ record {
  steps = all_steps;
  no_run = false;
  no_batch = false;
  is_e3sm = false;
  proc_pool = 45;
  parallel_jobs = 2;
  build_groups = (one ∷ []) ∷ (two ∷ []) ∷ [];
  total_pes = λ test. 72;
}
unfolding program
cluster_env = refl

abbrev cluster_flies : State
cluster_flies = record {
  sched = record {
    tests = (one, (create_newcase, pend)) ∷ (two, (init_phase, pass)) ∷ [];
    completed = 0;
    procs_avail = 44;
    model_build_cost = 4;
    file_updates = [];
  };
  flight = (one, worker create_newcase) ∷ [];
}

cluster_reached : Reach (make_env plain cluster 2 names) names (build_cost cluster) cluster_flies
unfolding program
cluster_reached = step begin (starts one cluster_flies refl)

Reach-make_env_example :
    ((test : Text)
      → contains names test ≡ true
      → IsOk (visit_test (make_env plain cluster 2 names) cluster_flies test))
    × ((test : Text) (t : Thread) (o ro : Outcome)
        → lookup test cluster_flies.flight ≡ some t
        → t.alive ≡ true
        → IsOk (consumer (make_env plain cluster 2 names) cluster_flies.sched test t.phase o ro))
Reach-make_env_example = Reach-make_env plain cluster 2 names refl cluster_reached

-- Without a processor, both tests fail at once, and the second round finds nothing to do.
abbrev none_left : Env
none_left = record small { proc_pool = 0 }

abbrev with_tests : List (Text × Entry) → List (Text × Phase × Status) → State
with_tests tests updates = record {
  sched = record {
    tests = tests;
    completed = 0;
    procs_avail = 0;
    model_build_cost = 1;
    file_updates = updates;
  };
  flight = [];
}

abbrev one_failed : State
one_failed =
    with_tests ((one, (create_newcase, fail)) ∷ (two, (init_phase, pass)) ∷ [])
      ((one, create_newcase, fail) ∷ [])

abbrev both_failed : State
both_failed =
    with_tests ((one, (create_newcase, fail)) ∷ (two, (create_newcase, fail)) ∷ [])
      ((two, create_newcase, fail) ∷ (one, create_newcase, fail) ∷ [])

failing_round : Round none_left names (start none_left names 1) true 2 both_failed
unfolding program
failing_round =
    fails {test = one} {τ = one_failed} refl (fails {test = two} {τ = both_failed} refl finished)

quiet_end : Round none_left names both_failed false 0 both_failed
unfolding program
quiet_end = no_work refl (no_work refl finished)

Producer-IsOver_example : IsOver none_left both_failed two
Producer-IsOver_example =
    Producer-IsOver {cost = 1} (record { no_setup = false; no_build = false; steps = refl }) begin
      (goes_on failing_round (leaves quiet_end)) two refl

-- `one` holds the last processors, so that `two` has to wait.
abbrev crowded : State
crowded = record one_flies { sched = record one_flies.sched { procs_avail = 0 } }

crowded_round : Round small names crowded true 0 crowded
unfolding program
crowded_round = in_flight refl (too_few refl finished)

Round-waits_example : is_nil crowded.flight ≡ false
Round-waits_example = Round-waits (omega arith) crowded_round refl refl

one_moved : Trace small names 1 1 one_flies
unfolding program
one_moved = then_step from_start (starts one one_flies one_starts)

Trace-bound_example : 1 ≤ length names * length small.steps
Trace-bound_example = Trace-bound one_moved
