-- ===== src/Scheduler/Steps.antt =====
-- scripts/lib/CIME/test_scheduler.py: the interleavings of the producer and the threads, as steps.
-- `_producer` visits a test, a thread ends its phase, the producer collects the threads that ended.
use cime.Common.{ℕ, Text, ◌≡◌, true, false, some, List, [], ◌∷◌, ok, nat_eq, list_eq}
use cime.Common.Dict.{Dict, lookup, insert}
use cime.TestStatus.Phase.{pass}
use cime.Scheduler.State.{Env, Entry, Scheduler, init_phase}
use cime.Scheduler.Threads.{
  Outcome, Thread, State, launched, rejected, visit_test, consumer, collect,
}

-- self._tests of the constructor: `tests` holds the names that were read so far.
unfoldable pub fresh_tests : Dict Text Entry → List Text → Dict Text Entry
unfolding insert
fresh_tests tests [] = tests
fresh_tests tests (name ∷ names) = fresh_tests (insert name (init_phase, pass) tests) names

-- What the constructor leaves, with no existing test directory in use.
unfoldable pub start : Env → List Text → ℕ → State
start env names cost = record {
  sched = record {
    tests = fresh_tests [] names;
    completed = 0;
    procs_avail = env.proc_pool;
    model_build_cost = cost;
    file_updates = [];
  };
  flight = [];
}

-- The thread of `test` is over.
unfoldable pub ended : State → Text → Thread → Scheduler → State
ended σ test t s = record { sched = s; flight = insert test (record t { alive = false }) σ.flight }

pub data Step (env : Env) (σ : State) : State → Type 0 where
  starts : (test : Text) (σ' : State) → visit_test env σ test ≡ ok (launched σ') → Step env σ σ'
  rejects : (test : Text) (σ' : State) → visit_test env σ test ≡ ok (rejected σ') → Step env σ σ'
  ends :
      (test : Text) (t : Thread) (o ro : Outcome) (s : Scheduler)
      → lookup test σ.flight ≡ some t
      → t.alive ≡ true
      → consumer env σ.sched test t.phase o ro ≡ ok s
      → Step env σ (ended σ test t s)
  collects : Step env σ (collect σ)

pub data Reach (env : Env) (names : List Text) (cost : ℕ) : State → Type 0 where
  begin : Reach env names cost (start env names cost)
  step : {σ σ' : State} → Reach env names cost σ → Step env σ σ' → Reach env names cost σ'
