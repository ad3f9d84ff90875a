-- ===== src/Scheduler/Manned.antt =====
-- Every thread works on one of the tests, so that it ends without an error.
use cime.Common.{
  ℕ, Text, ◌≡◌, sym, ap, ◌∙◌, subst, true, false, some, List, [], list_eq, nat_eq, list_beq_iff,
  contains, arith, IsOk,
}
use cime.Common.Dict.{lookup, insert, member}
use cime.Common.Dict.Distinct.{member-insert}
use cime.TestStatus.Phase.{phase_eq}
use cime.Scheduler.State.{Env}
use cime.Scheduler.Threads.{Outcome, Thread, Flight, State, consumer, collect, still_flying}
use cime.Scheduler.Flight.{lookup-still_flying}
use cime.Scheduler.Launch.{visit_test-IsLaunch, visit_test-IsReject}
use cime.Scheduler.Steps.{start, ended, Step, starts, rejects, ends, collects, Reach, begin, step}
use cime.Scheduler.Pending.{IsBuilt, IsConsistent, Standing}
use cime.Scheduler.Reached.{IsPopulated, Reach-IsConsistent, Reach-IsPopulated}
use cime.Scheduler.NoRaise.{IsGrouped, get_build_group-IsOk}
use cime.Scheduler.Producer.{entry_of_listed}
use cime.Scheduler.Consumer.{consumer-IsOk}

abbrev IsManned : List Text → Flight → Type 0
IsManned names flight = (test : Text) → member test flight ≡ true → contains names test ≡ true

insert-IsManned :
    (names : List Text) (test : Text) (t : Thread) (flight : Flight)
    → contains names test ≡ true
    → IsManned names flight
    → IsManned names (insert test t flight)
insert-IsManned names test t flight listed h name there =
    ground (arith, member-insert test name t flight, list_beq_iff test name, h name)

still_flying-IsManned :
    (env : Env) (names : List Text) (σ : State)
    → IsConsistent env σ
    → IsManned names σ.flight
    → IsManned names (still_flying σ.flight)
unfolding member
still_flying-IsManned env names σ consistent h name there =
    ground (arith, h name, lookup-still_flying σ.flight name consistent.once)

Step-IsManned :
    (names : List Text) {env : Env} {σ σ' : State}
    → Step env σ σ'
    → IsPopulated names σ.sched.tests
    → IsConsistent env σ
    → IsManned names σ.flight
    → IsManned names σ'.flight
unfolding ended collect IsPopulated member
Step-IsManned names {env} {σ} (starts test σ' e) there consistent h =
    let l = visit_test-IsLaunch env σ σ' test e in
    rw l.flies (insert-IsManned names l.test l.thread σ.flight (sym (there l.test) ∙ l.present) h)
Step-IsManned names {env} {σ} (rejects test σ' e) there consistent h =
    rw (visit_test-IsReject env σ σ' test e).flies h
Step-IsManned names {env} {σ} (ends test t o ro s found alive e) there consistent h =
    insert-IsManned names test (record t { alive = false }) σ.flight (h test (ground arith)) h
Step-IsManned names {env} {σ} collects there consistent h =
    still_flying-IsManned env names σ consistent h

none_flying : (names : List Text) → IsManned names []
unfolding member lookup
none_flying names test there = ground arith

Reach-IsManned :
    {env : Env} {names : List Text} {cost : ℕ} {σ : State}
    → IsBuilt env
    → Reach env names cost σ
    → IsManned names σ.flight
unfolding start
Reach-IsManned {names = names} built begin = none_flying names
Reach-IsManned {names = names} built (step r st) =
    Step-IsManned names st (Reach-IsPopulated r) (Reach-IsConsistent built r)
      (Reach-IsManned built r)

-- Where the phases are those that the constructor sets up, and every test has a build group whose first
-- test is one of the tests: in every state that the scheduler reaches, a thread that is alive ends its
-- phase, and the RUN phase that it submits to the batch system, without an error, whether the phase
-- methods succeed or fail.
pub Reach-consumer :
    {env : Env} {names : List Text} {cost : ℕ} {σ : State}
    → IsBuilt env
    → IsGrouped env names
    → Reach env names cost σ
    → (test : Text) (t : Thread) (o ro : Outcome) → lookup test σ.flight ≡ some t
    → t.alive ≡ true
    → IsOk (consumer env σ.sched test t.phase o ro)
unfolding member
Reach-consumer {env} {names} {σ = σ} built grouped reached test t o ro found lives =
    let listed = Reach-IsManned built reached test (ground arith) in
    let (e, entry) = entry_of_listed names σ test (Reach-IsPopulated reached) listed in
    let stands = (Reach-IsConsistent built reached).stands test e entry in
    let working : Standing env (some t) e = subst (λ o. Standing env o e) found stands in
    let (first, group, among) = get_build_group-IsOk env names test grouped listed in
    let (pending, known) = (rw lives at working) in
    consumer-IsOk env σ.sched test first t.phase o ro built (entry ∙ ap some pending) known group
