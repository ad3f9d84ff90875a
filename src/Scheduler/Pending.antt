-- ===== src/Scheduler/Pending.antt =====
-- A test is pending only while a thread works on it, or when its run has gone to the batch system.
use cime.Common.{
  Text, ◌≡◌, ◌≢◌, sym, ap, ◌∙◌, ok_of_bind, Bool, true, false, not, Option, none, some, ok, ◌==◌,
  list_eq, nat_eq, list_beq_iff, arith, Bool-cases, Option-cases, inl, inr, contains, subst,
}
use cime.Common.Dict.{lookup, member, lookup-insert}
use cime.Common.Dict.Distinct.{distinct, distinct-insert}
use cime.Scheduler.Flight.{alive_only, lookup-still_flying, distinct-still_flying}
use cime.TestStatus.Phase.{Status, Phase, pend, run, is_pend, phase_beq, phase_beq_iff, phase_eq}
use cime.Scheduler.State.{
  Env, Entry, Scheduler, update_test_status, work_remains, unfinished, is_last, last_step,
  steps_for, get_test_data,
}
use cime.Scheduler.Threads.{
  Outcome, finish_phase, set_finished, scale_cost, consumer, Thread, Flight, State, submits_now,
  status_after, collect,
}
use cime.Scheduler.Entries.{
  Tests, consumed_tests, tests-consumer, lookup-consumed_tests, lookup-consumed_tests_self,
  own_entry,
}
use cime.Scheduler.Steps.{ended, Step, starts, rejects, ends, collects}
use cime.Scheduler.Launch.{IsLaunch, visit_test-IsLaunch, IsReject, visit_test-IsReject}

-- The phases are those that the constructor sets up.
pub record IsBuilt (env : Env) : Type 0 where
  pub no_setup : Bool
  pub no_build : Bool
  pub steps : env.steps ≡ steps_for no_setup no_build env.no_run

steps_run :
    (no_setup no_build no_run : Bool)
    → contains (steps_for no_setup no_build no_run) run ≡ not no_run
unfolding steps_for phase_beq
steps_run no_setup no_build no_run = ground arith

steps_last : (no_setup no_build : Bool) → last_step (steps_for no_setup no_build false) ≡ some run
unfolding steps_for phase_beq last_step
steps_last no_setup no_build = ground arith

-- RUN is the last phase, where there is a run.
pub is_last-run : (env : Env) → IsBuilt env → contains env.steps run ≡ true → is_last env run ≡ true
unfolding is_last phase_beq
is_last-run env built known =
    let listed = subst (λ ps. contains ps run ≡ true) built.steps known in
    let runs : env.no_run ≡ false =
      ground (arith, steps_run built.no_setup built.no_build env.no_run) in
    let ends_in_run : last_step env.steps ≡ some run =
      rw (built.steps, runs) (steps_last built.no_setup built.no_build) in
    ground arith

pub run_known : (env : Env) → IsBuilt env → env.no_run ≡ false → contains env.steps run ≡ true
run_known env built runs = rw (built.steps, steps_run, runs)

-- No thread works on the entry: its phase is one of those set up, and it is pending only if nothing remains to be done.
abbrev pub IsSettled : Env → Entry → Type 0
IsSettled env e = (contains env.steps e.0 ≡ true) × (is_pend e.1 ≡ true → unfinished env e ≡ false)

abbrev pub StandingAlive : Env → Bool → Phase → Entry → Type 0
StandingAlive env true phase e = (e ≡ (phase, pend)) × (contains env.steps phase ≡ true)
StandingAlive env false phase e = IsSettled env e

-- How an entry stands to the thread of its test.
abbrev pub Standing : Env → Option Thread → Entry → Type 0
Standing env none e = IsSettled env e
Standing env (some t) e = StandingAlive env t.alive t.phase e

pub record IsConsistent (env : Env) (σ : State) : Type 0 where
  pub once : distinct σ.flight ≡ true
  pub stands :
      (test : Text) (e : Entry)
      → lookup test σ.sched.tests ≡ some e
      → Standing env (lookup test σ.flight) e

consumed-IsSettled :
    (env : Env) (tests : Tests) (test : Text) (phase : Phase) (o ro : Outcome) (e : Entry)
    → IsBuilt env
    → contains env.steps phase ≡ true
    → lookup test tests ≡ some (phase, pend)
    → lookup test (consumed_tests env tests test phase o ro) ≡ some e
    → IsSettled env e
unfolding unfinished status_after submits_now own_entry phase_beq
consumed-IsSettled env tests test phase o ro e built known old new = (
  ground (arith, lookup-consumed_tests_self env tests test phase o ro, run_known env built),
  λ waits. ground (
    arith,
    lookup-consumed_tests_self env tests test phase o ro,
    is_last-run env built,
    run_known env built,
    phase_beq_iff phase run,
  ),
)

Standing-alive_only :
    (env : Env) (o : Option Thread) (e : Entry) → Standing env o e → Standing env (alive_only o) e
Standing-alive_only env none e h = h
Standing-alive_only env (some t) e h = elim (Bool-cases t.alive) [
  | inl lives ↦ rw lives (rw lives at h)
  | inr over ↦ rw over (rw over at h)
]

collect-IsConsistent : (env : Env) (σ : State) → IsConsistent env σ → IsConsistent env (collect σ)
unfolding collect
collect-IsConsistent env σ h = record {
  once = distinct-still_flying σ.flight h.once;
  stands = λ test e found.
      rw (lookup-still_flying σ.flight test h.once)
        (Standing-alive_only env (lookup test σ.flight) e (h.stands test e found));
}

launch-IsConsistent :
    (env : Env) (σ σ' : State) → IsLaunch env σ σ' → IsConsistent env σ → IsConsistent env σ'
launch-IsConsistent env σ σ' l h = record {
  once = rw l.flies (distinct-insert l.test l.thread σ.flight h.once);
  stands = λ test e found.
      rw (l.flies, lookup-insert)
        (let now = (rw (l.pending, lookup-insert) at found) in
          elim (Bool-cases (l.test == test)) [
            | inl same ↦ rw (same, l.lives) (ground arith, l.known)
            | inr other ↦ rw other (h.stands test e (ground arith))
          ]);
}

lookup_of_member :
    (flight : Flight) (test : Text) → member test flight ≡ false → lookup test flight ≡ none
unfolding member
lookup_of_member flight test h = ground arith

reject-IsConsistent :
    (env : Env) (σ σ' : State) → IsReject env σ σ' → IsConsistent env σ → IsConsistent env σ'
unfolding is_pend
reject-IsConsistent env σ σ' l h = record {
  once = rw l.flies h.once;
  stands = λ test e found. rw l.flies (
      let now = (rw (l.failing, lookup-insert) at found) in
      elim (Bool-cases (l.test == test)) [
        | inl same ↦
            let gone = lookup_of_member σ.flight l.test l.no_thread in
            let here = (list_beq_iff l.test test).0 same in
            subst (λ name. Standing env (lookup name σ.flight) e) here
              (rw gone (ground (arith, l.known), λ waits. ground arith))
        | inr other ↦
            h.stands test e
              (ground (arith, lookup-insert l.test test (l.phase, pend) σ.sched.tests))
      ]);
}

-- A thread ends only when its test has an entry.
absent-update_test_status :
    (env : Env) (s s' : Scheduler) (test : Text) (phase : Phase) (status : Status)
    → lookup test s.tests ≡ none
    → update_test_status env s test phase status ≢ ok s'
unfolding update_test_status get_test_data
absent-update_test_status env s s' test phase status absent h = ground arith

absent-finish_phase :
    (env : Env) (s s' : Scheduler) (test : Text) (phase : Phase) (o : Outcome)
    → lookup test s.tests ≡ none
    → finish_phase env s test phase o ≢ ok s'
unfolding finish_phase set_finished scale_cost work_remains get_test_data
absent-finish_phase env s s' test phase o absent h = grind (arith, absent-update_test_status)

pub consumer_known :
    (env : Env) (s s' : Scheduler) (test : Text) (phase : Phase) (o ro : Outcome)
    → consumer env s test phase o ro ≡ ok s'
    → (e : Entry) × (lookup test s.tests ≡ some e)
unfolding consumer
consumer_known env s s' test phase o ro h =
    let (finished, done, _) = ok_of_bind (finish_phase env s test phase o) _ h in
    elim (Option-cases (lookup test s.tests)) [
      | inl absent ↦ absurd (absent-finish_phase env s finished test phase o absent done)
      | inr (e, found) ↦ (e, found)
    ]

thread-IsSettled :
    (env : Env) (σ : State) (test : Text) (t : Thread) (o ro : Outcome) (s : Scheduler)
    (e new : Entry)
    → IsBuilt env
    → StandingAlive env t.alive t.phase e
    → t.alive ≡ true
    → lookup test σ.sched.tests ≡ some e
    → lookup test (consumed_tests env σ.sched.tests test t.phase o ro) ≡ some new
    → IsSettled env new
thread-IsSettled env σ test t o ro s e new built stands lives old now =
    let (entry, known) = (rw lives at stands) in
    consumed-IsSettled env σ.sched.tests test t.phase o ro new built known (old ∙ ap some entry) now

pub ended-IsConsistent :
    (env : Env) (σ : State) (test : Text) (t : Thread) (o ro : Outcome) (s : Scheduler)
    → IsBuilt env
    → lookup test σ.flight ≡ some t
    → t.alive ≡ true
    → consumer env σ.sched test t.phase o ro ≡ ok s
    → IsConsistent env σ
    → IsConsistent env (ended σ test t s)
unfolding ended
ended-IsConsistent env σ test t o ro s built found alive e h =
    let after = tests-consumer env σ.sched s test t.phase o ro e in
    record {
      once = distinct-insert test (record t { alive = false }) σ.flight h.once;
      stands = λ name entry there. rw lookup-insert (
          let now = (rw after at there) in
          elim (Bool-cases (test == name)) [
            | inl same ↦ rw same (
                let (old, before) = consumer_known env σ.sched s test t.phase o ro e in
                let stood = subst (λ o. Standing env o old) found (h.stands test old before) in
                let here = sym ((list_beq_iff test name).0 same) in
                thread-IsSettled env σ test t o ro s old entry built stood alive before
                  (ground (arith, here)))
            | inr other ↦ rw other (
                h.stands name entry (
                  sym (lookup-consumed_tests env σ.sched.tests test name t.phase o ro other) ∙ now))
          ]);
    }

pub Step-IsConsistent :
    {env : Env} {σ σ' : State}
    → IsBuilt env
    → Step env σ σ'
    → IsConsistent env σ
    → IsConsistent env σ'
Step-IsConsistent {env} {σ} built (starts test σ' e) h =
    launch-IsConsistent env σ σ' (visit_test-IsLaunch env σ σ' test e) h
Step-IsConsistent {env} {σ} built (rejects test σ' e) h =
    reject-IsConsistent env σ σ' (visit_test-IsReject env σ σ' test e) h
Step-IsConsistent {env} {σ} built (ends test t o ro s found alive e) h =
    ended-IsConsistent env σ test t o ro s built found alive e h
Step-IsConsistent {env} {σ} built collects h = collect-IsConsistent env σ h
