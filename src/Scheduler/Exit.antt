-- ===== src/Scheduler/Exit.antt =====
-- When `_producer` leaves its loop, and that it never waits for nothing.
use cime.Common.{
  ℕ, Text, ◌≡◌, sym, ap, ◌∙◌, subst, Bool, true, false, some, List, ok, ◌==◌, list_eq, nat_eq,
  list_beq_iff, arith, Bool-cases, Option-cases, inl, inr,
}
use cime.Common.Dict.{lookup}
use cime.TestStatus.Phase.{Phase, pend, model_build, run, is_pass, is_pend, phase_beq_iff, phase_eq}
use cime.Scheduler.State.{Env, Entry, Scheduler, unfinished, last_step, is_last}
use cime.Scheduler.Threads.{Outcome, Thread, State, submits_now, consumer}
use cime.Scheduler.Entries.{
  consumed_tests, tests-consumer, lookup-consumed_tests, lookup-consumed_tests_self, own_entry,
}
use cime.Scheduler.Steps.{ended, Reach}
use cime.Scheduler.Pending.{IsBuilt, IsConsistent, Standing, consumer_known, is_last-run, run_known}
use cime.Scheduler.Consumer.{submits_after_build}
use cime.Scheduler.Reached.{Reach-IsConsistent}
use cime.Scheduler.Rounds.{
  Ends, nothing, one_more, Round, finished, meanwhile, no_work, in_flight, too_few, breaks,
  launches, fails, Ends-Reach,
}

-- No work remains for the test.
abbrev pub IsOver : Env → State → Text → Type 0
IsOver env σ test = (e : Entry) → lookup test σ.sched.tests ≡ some e → unfinished env e ≡ false

same_last : (env : Env) (p q : Phase) → is_last env p ≡ true → is_last env q ≡ true → p ≡ q
unfolding is_last
same_last env p q h k = elim (Option-cases (last_step env.steps)) [
  | inl absent ↦ ground arith
  | inr (r, found) ↦ ground (arith, phase_beq_iff p r, phase_beq_iff q r)
]

-- A phase that is the last one is not followed by the submission of RUN.
last_submits_nothing :
    (env : Env) (phase : Phase) (o : Outcome)
    → IsBuilt env
    → is_last env phase ≡ true
    → submits_now env phase o ≡ false
last_submits_nothing env phase o built last = elim (Bool-cases (submits_now env phase o)) [
  | inl submits ↦
      let (here, runs, passed) = submits_after_build env phase o submits in
      let ends_in_run = is_last-run env built (run_known env built runs) in
      let same : run ≡ model_build = same_last env run phase ends_in_run last ∙ here in cc
  | inr other ↦ other
]

own-IsOver :
    (env : Env) (σ : State) (test : Text) (t : Thread) (o ro : Outcome) (e new : Entry)
    → IsBuilt env
    → e ≡ (t.phase, pend)
    → lookup test σ.sched.tests ≡ some e
    → unfinished env e ≡ false
    → lookup test (consumed_tests env σ.sched.tests test t.phase o ro) ≡ some new
    → unfinished env new ≡ false
unfolding unfinished is_pend is_pass own_entry
own-IsOver env σ test t o ro e new built stands old over now =
    let last : is_last env t.phase ≡ true = ground arith in
    ground (
      arith,
      lookup-consumed_tests_self env σ.sched.tests test t.phase o ro,
      last_submits_nothing env t.phase o built last,
    )

ended-IsOver :
    (env : Env) (σ : State) (test name : Text) (t : Thread) (o ro : Outcome) (s : Scheduler)
    → IsBuilt env
    → IsConsistent env σ
    → lookup test σ.flight ≡ some t
    → t.alive ≡ true
    → consumer env σ.sched test t.phase o ro ≡ ok s
    → IsOver env σ name
    → IsOver env (ended σ test t s) name
unfolding ended
ended-IsOver env σ test name t o ro s built h found alive ran over new now =
    let after = ap (lookup name) (sym (tests-consumer env σ.sched s test t.phase o ro ran)) ∙ now in
    elim (Bool-cases (test == name)) [
      | inl same ↦
          let (old, before) = consumer_known env σ.sched s test t.phase o ro ran in
          let working : Standing env (some t) old =
            subst (λ o. Standing env o old) found (h.stands test old before) in
          let (entry, known) = (rw alive at working) in
          let here : name ≡ test = sym ((list_beq_iff test name).0 same) in
          own-IsOver env σ test t o ro old new built entry before
            (over old (ap (λ n. lookup n σ.sched.tests) here ∙ before))
            (ap (λ n. lookup n (consumed_tests env σ.sched.tests test t.phase o ro)) (sym here)
              ∙ after)
      | inr other ↦
          over new
            (sym (lookup-consumed_tests env σ.sched.tests test name t.phase o ro other) ∙ after)
    ]

Ends-IsOver :
    {env : Env} {names : List Text} {cost : ℕ} {σ τ : State} (name : Text)
    → IsBuilt env
    → Reach env names cost σ
    → Ends env σ τ
    → IsOver env σ name
    → IsOver env τ name
Ends-IsOver name built r nothing over = over
Ends-IsOver {env} name built r (one_more {τ} test t o ro s before found alive ran) over =
    ended-IsOver env τ test name t o ro s built (Reach-IsConsistent built (Ends-Reach before r))
      found alive ran (Ends-IsOver name built r before over)

-- A round that finds no work to do leaves what is over.
pub quiet-IsOver :
    {env : Env} {names tests : List Text} {cost : ℕ} {σ τ : State} {work : Bool} {count : ℕ}
    (name : Text)
    → IsBuilt env
    → Reach env names cost σ
    → Round env tests σ work count τ
    → work ≡ false
    → IsOver env σ name
    → IsOver env τ name
quiet-IsOver name built r finished quiet over = over
quiet-IsOver name built r (meanwhile before round) quiet over =
    quiet-IsOver name built (Ends-Reach before r) round quiet (Ends-IsOver name built r before over)
quiet-IsOver name built r (no_work visit round) quiet over =
    quiet-IsOver name built r round quiet over
quiet-IsOver name built r (in_flight visit round) quiet over = cc
quiet-IsOver name built r (too_few visit round) quiet over = cc
quiet-IsOver name built r (breaks visit) quiet over = cc
quiet-IsOver name built r (launches visit round) quiet over = cc
quiet-IsOver name built r (fails visit round) quiet over = cc
