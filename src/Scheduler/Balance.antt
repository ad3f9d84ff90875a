-- ===== src/Scheduler/Balance.antt =====
-- Whatever the interleaving and the outcomes of the phases, the threads never hold more processors
-- than the pool has, and there are never more threads than workers.
use cime.Common.{
  ℕ, ◌+◌, ◌≤◌, Text, ◌≡◌, ◌∙◌, false, some, List, [], ◌∷◌, ◌++◌, list_eq, nat_eq, length,
  length-append, arith,
}
use cime.Common.Dict.{lookup, insert, member}
use cime.Common.Dict.Distinct.{insert_new}
use cime.Scheduler.State.{Env}
use cime.Scheduler.Threads.{Thread, Flight, State, collect, collect_procs, still_flying}
use cime.Scheduler.Steps.{start, ended, Step, starts, rejects, ends, collects, Reach, begin, step}
use cime.Scheduler.Procs.{held, procs-consumer}
use cime.Scheduler.Launch.{IsLaunch, visit_test-IsLaunch, visit_test-IsReject}

held-append : (flight more : Flight) → held (flight ++ more) ≡ held flight + held more
unfolding held
held-append [] more = omega arith
held-append (t ∷ flight) more = omega (arith, held-append flight more)

held-insert_new :
    (flight : Flight) (test : Text) (t : Thread)
    → member test flight ≡ false
    → (held (insert test t flight) ≡ held flight + t.procs)
      × (length (insert test t flight) ≡ length flight + 1)
held-insert_new flight test t absent = rw (insert_new test t flight absent) (
  held-append flight ((test, t) ∷ []) ∙ (unfold held in omega arith),
  length-append flight ((test, t) ∷ []) ∙ omega arith,
)

-- A thread that is over still holds its processors, until it is collected.
held-insert_dead :
    (flight : Flight) (test : Text) (t : Thread)
    → lookup test flight ≡ some t
    → (held (insert test (record t { alive = false }) flight) ≡ held flight)
      × (length (insert test (record t { alive = false }) flight) ≡ length flight)
unfolding held lookup insert
held-insert_dead [] test t h = cc
held-insert_dead ((j, u) ∷ flight) test t h = ground (arith, held-insert_dead flight test t)

held-still_flying :
    (flight : Flight)
    → (collect_procs flight + held (still_flying flight) ≡ held flight)
      × (length (still_flying flight) ≤ length flight)
unfolding held collect_procs still_flying
held-still_flying [] = omega arith
held-still_flying ((j, u) ∷ flight) = ground (arith, held-still_flying flight)

pub record IsBalanced (env : Env) (σ : State) : Type 0 where
  pub balance : σ.sched.procs_avail + held σ.flight ≡ env.proc_pool
  pub workers : length σ.flight ≤ env.parallel_jobs

launch-IsBalanced :
    (env : Env) (σ σ' : State) → IsLaunch env σ σ' → IsBalanced env σ → IsBalanced env σ'
launch-IsBalanced env σ σ' l h =
    ground (arith, held-insert_new σ.flight l.test l.thread l.no_thread)

Step-IsBalanced : {env : Env} {σ σ' : State} → Step env σ σ' → IsBalanced env σ → IsBalanced env σ'
unfolding ended collect
Step-IsBalanced {env} {σ} (starts test σ' e) h =
    launch-IsBalanced env σ σ' (visit_test-IsLaunch env σ σ' test e) h
Step-IsBalanced {env} {σ} (rejects test σ' e) h =
    let r = visit_test-IsReject env σ σ' test e in ground (arith, r.procs, r.flies)
Step-IsBalanced {env} {σ} (ends test t o ro s found alive e) h = ground (
  arith,
  held-insert_dead σ.flight test t found,
  procs-consumer env σ.sched s test t.phase o ro e,
)
Step-IsBalanced {env} {σ} collects h = ground (arith, held-still_flying σ.flight)

-- In every state that the scheduler reaches, the processors that are left and those that the threads
-- hold are the pool, and there are at most `parallel_jobs` threads.
pub Reach-IsBalanced :
    {env : Env} {names : List Text} {cost : ℕ} {σ : State}
    → Reach env names cost σ
    → IsBalanced env σ
unfolding start
Reach-IsBalanced begin = record { balance = unfold held in omega arith; workers = omega arith }
Reach-IsBalanced (step r st) = Step-IsBalanced st (Reach-IsBalanced r)
