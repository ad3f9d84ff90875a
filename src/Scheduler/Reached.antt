-- ===== src/Scheduler/Reached.antt =====
-- The invariants of the entries hold in every state that the scheduler reaches.
use cime.Common.{
  ℕ, subst, Text, ◌≡◌, refl, sym, Bool, true, false, ◌||◌, some, List, [], ◌∷◌, ◌==◌, list_eq,
  nat_eq, list_beq_iff, contains, arith, Bool-cases, inl, inr,
}
use cime.Common.Dict.{lookup, insert, member, lookup-insert}
use cime.Common.Dict.Distinct.{member-insert, distinct}
use cime.TestStatus.Phase.{Phase, pend, pass, fail, is_pend, phase_beq, phase_eq}
use cime.Scheduler.State.{Env, Entry, init_phase, steps_for}
use cime.Scheduler.Threads.{Outcome, State, collect}
use cime.Scheduler.Entries.{
  Tests, consumed_tests, tests-consumer, lookup-consumed_tests, lookup-consumed_tests_self,
  own_entry,
}
use cime.Scheduler.Steps.{
  start, fresh_tests, ended, Step, starts, rejects, ends, collects, Reach, begin, step,
}
use cime.Scheduler.Launch.{visit_test-IsLaunch, visit_test-IsReject}
use cime.Scheduler.Pending.{IsBuilt, IsSettled, IsConsistent, Step-IsConsistent, consumer_known}

-- The tests that have an entry are those that the constructor was given.
unfoldable pub IsPopulated : List Text → Tests → Type 0
IsPopulated names tests = (test : Text) → member test tests ≡ contains names test

insert-IsPopulated :
    (names : List Text) (tests : Tests) (test : Text) (e : Entry)
    → member test tests ≡ true
    → IsPopulated names tests
    → IsPopulated names (insert test e tests)
unfolding IsPopulated
insert-IsPopulated names tests test e present h name =
    ground (arith, member-insert test name e tests, list_beq_iff test name, h name)

consumed-IsPopulated :
    (env : Env) (names : List Text) (tests : Tests) (test : Text) (e : Entry) (phase : Phase)
    (o ro : Outcome)
    → lookup test tests ≡ some e
    → IsPopulated names tests
    → IsPopulated names (consumed_tests env tests test phase o ro)
unfolding IsPopulated member own_entry
consumed-IsPopulated env names tests test e phase o ro present h name =
    elim (Bool-cases (test == name)) [
      | inl same ↦ ground (
        arith,
        list_beq_iff test name,
        h name,
        lookup-consumed_tests_self env tests test phase o ro,
      )
      | inr other ↦
          ground (arith, h name, lookup-consumed_tests env tests test name phase o ro other)
    ]

Step-IsPopulated :
    (names : List Text) {env : Env} {σ σ' : State}
    → Step env σ σ'
    → IsPopulated names σ.sched.tests
    → IsPopulated names σ'.sched.tests
unfolding ended collect
Step-IsPopulated names {env} {σ} (starts test σ' e) h =
    let l = visit_test-IsLaunch env σ σ' test e in
    rw l.pending (insert-IsPopulated names σ.sched.tests l.test (l.thread.phase, pend) l.present h)
Step-IsPopulated names {env} {σ} (rejects test σ' e) h =
    let l = visit_test-IsReject env σ σ' test e in
    let pending = insert-IsPopulated names σ.sched.tests l.test (l.phase, pend) l.present h in
    rw l.failing (
      insert-IsPopulated names (insert l.test (l.phase, pend) σ.sched.tests) l.test (l.phase, fail)
        (ground (arith, member-insert l.test l.test (l.phase, pend) σ.sched.tests, l.present))
        pending)
Step-IsPopulated names {env} {σ} (ends test t o ro s found alive e) h =
    let (old, present) = consumer_known env σ.sched s test t.phase o ro e in
    rw (tests-consumer env σ.sched s test t.phase o ro e)
      (consumed-IsPopulated env names σ.sched.tests test old t.phase o ro present h)
Step-IsPopulated names collects h = h

member-fresh_tests :
    (tests : Tests) (names : List Text) (test : Text)
    → member test (fresh_tests tests names) ≡ (member test tests || contains names test)
unfolding fresh_tests
member-fresh_tests tests [] test = ground arith
member-fresh_tests tests (name ∷ names) test = ground (
  arith,
  member-fresh_tests (insert name (init_phase, pass) tests) names test,
  member-insert name test (init_phase, pass) tests,
)

member_empty : (test : Text) → member test (let d : Tests = [] in d) ≡ false
unfolding member lookup
member_empty test = refl

fresh-IsPopulated : (names : List Text) → IsPopulated names (fresh_tests [] names)
unfolding IsPopulated
fresh-IsPopulated names test = ground (arith, member-fresh_tests [] names test, member_empty test)

pub Reach-IsPopulated :
    {env : Env} {names : List Text} {cost : ℕ} {σ : State}
    → Reach env names cost σ
    → IsPopulated names σ.sched.tests
unfolding start
Reach-IsPopulated {names = names} begin = fresh-IsPopulated names
Reach-IsPopulated {names = names} (step r st) = Step-IsPopulated names st (Reach-IsPopulated r)

-- Before any step, every test has passed the initial phase.
lookup-fresh_tests :
    (tests : Tests) (names : List Text) (test : Text) (e : Entry)
    → ((e : Entry) → lookup test tests ≡ some e → e ≡ (init_phase, pass))
    → lookup test (fresh_tests tests names) ≡ some e
    → e ≡ (init_phase, pass)
unfolding fresh_tests
lookup-fresh_tests tests [] test e fresh found = fresh e found
lookup-fresh_tests tests (name ∷ names) test e fresh found =
    lookup-fresh_tests (insert name (init_phase, pass) tests) names test e
      (λ e' here. ground (arith, fresh e', lookup-insert name test (init_phase, pass) tests)) found

knows_init :
    (no_setup no_build no_run : Bool)
    → contains (steps_for no_setup no_build no_run) init_phase ≡ true
unfolding steps_for phase_beq
knows_init no_setup no_build no_run = ground arith

init-IsSettled : (env : Env) → IsBuilt env → IsSettled env (init_phase, pass)
unfolding is_pend
init-IsSettled env built =
    (rw built.steps (knows_init built.no_setup built.no_build env.no_run), λ waits. ground arith)

start-IsConsistent :
    (env : Env) (names : List Text) (cost : ℕ)
    → IsBuilt env
    → IsConsistent env (start env names cost)
unfolding start
start-IsConsistent env names cost built = record {
  once = unfold distinct in refl;
  stands = λ test e found.
      unfold lookup in
      (subst (IsSettled env)
        (sym (lookup-fresh_tests [] names test e (λ e' h. unfold lookup in ground arith) found))
        (init-IsSettled env built));
}

pub Reach-IsConsistent :
    {env : Env} {names : List Text} {cost : ℕ} {σ : State}
    → IsBuilt env
    → Reach env names cost σ
    → IsConsistent env σ
Reach-IsConsistent {env} {names} {cost} built begin = start-IsConsistent env names cost built
Reach-IsConsistent built (step r st) = Step-IsConsistent built st (Reach-IsConsistent built r)
