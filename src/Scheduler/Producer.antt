-- ===== src/Scheduler/Producer.antt =====
-- A visit of `_producer` to a test never raises.
use cime.Common.{
  ℕ, suc, Text, ◌≡◌, refl, subst, true, false, not, none, some, List, ok, expect, ◌==◌, list_eq,
  nat_eq, contains, arith, Option-cases, inl, inr, IsOk, IsOk-bind, IsOk-if, IsOk-expect, length,
  is_nil, leb,
}
use cime.Common.Dict.{lookup, member}
use cime.TestStatus.Phase.{pass, is_pass, is_pend, phase_eq}
use cime.Scheduler.State.{Env, Entry, get_test_data, step_index, unfinished, is_last, still_pending}
use cime.Scheduler.Threads.{
  State, procs_needed, next_step, start_next, visit_test, waits, full, busy, done,
}
use cime.Scheduler.Steps.{Reach}
use cime.Scheduler.Order.{next_step_lem, contains_of_index}
use cime.Scheduler.Pending.{IsBuilt, IsSettled, IsConsistent, Standing}
use cime.Scheduler.Reached.{IsPopulated, Reach-IsConsistent, Reach-IsPopulated}
use cime.Scheduler.NoRaise.{
  IsGrouped, get_build_group-IsOk, procs_needed-IsOk, launch-IsOk, reject-IsOk, known_entry,
}

pub entry_of_listed :
    (names : List Text) (σ : State) (test : Text)
    → IsPopulated names σ.sched.tests
    → contains names test ≡ true
    → (e : Entry) × (lookup test σ.sched.tests ≡ some e)
unfolding IsPopulated member
entry_of_listed names σ test there listed =
    let same = there test in
    elim (Option-cases (lookup test σ.sched.tests)) [
      | inl absent ↦ absurd (ground arith)
      | inr found ↦ found
    ]

-- A test that has work left and no thread has passed its phase.
idle_passed :
    (env : Env) (σ : State) (test : Text) (e : Entry)
    → IsConsistent env σ
    → lookup test σ.sched.tests ≡ some e
    → member test σ.flight ≡ false
    → unfinished env e ≡ true
    → (e.1 ≡ pass) × (is_last env e.0 ≡ false)
unfolding unfinished is_pass is_pend member
idle_passed env σ test e h found idle works =
    let alone : lookup test σ.flight ≡ none = ground arith in
    let settled : IsSettled env e = subst (λ o. Standing env o e) alone (h.stands test e found) in
    let waits = settled.1 in ground (arith, waits)

start_next-IsOk :
    (env : Env) (σ : State) (names : List Text) (test : Text) (e : Entry)
    → IsBuilt env
    → IsGrouped env names
    → IsPopulated names σ.sched.tests
    → IsConsistent env σ
    → contains names test ≡ true
    → lookup test σ.sched.tests ≡ some e
    → member test σ.flight ≡ false
    → unfinished env e ≡ true
    → IsOk (start_next env σ test e)
unfolding start_next is_pend
start_next-IsOk env σ names test e built grouped there h listed found idle works =
    let (passed, more) = idle_passed env σ test e h found idle works in
    let (i, q, here, after, next) =
      next_step_lem env e.0 built (known_entry env σ test e h found) more in
    let (first, group, among) = get_build_group-IsOk env names test grouped listed in
    let (leader, leads) = entry_of_listed names σ first there among in
    let has_passed : lookup test σ.sched.tests ≡ some (e.0, pass) = ground arith in
    IsOk-bind (expect (not (is_pend e.1)) (still_pending test)) _
      (IsOk-expect (not (is_pend e.1)) (still_pending test) (ground arith))
      (λ _ _.
        IsOk-bind (next_step env e.0) _ (q, after)
          (λ phase chosen.
            let same : q ≡ phase = ground arith in
            let next' = subst (λ p. step_index env p ≡ ok (suc i)) same next in
            let known = contains_of_index env phase (suc i) next' in
            IsOk-bind (procs_needed env σ.sched σ.flight test phase) _
              (procs_needed-IsOk env σ names test first leader phase h group leads known)
              (λ procs counted.
                IsOk-if (leb procs σ.sched.procs_avail) _ _
                  (λ fits. launch-IsOk env σ test e.0 phase i procs has_passed here next')
                  (λ lacks.
                    IsOk-if (is_nil σ.flight) _ _
                      (λ alone. reject-IsOk env σ test e.0 phase i has_passed here next' known)
                      (λ others. (waits, refl))))))

visit_test-IsOk :
    (env : Env) (σ : State) (names : List Text) (test : Text)
    → IsBuilt env
    → IsGrouped env names
    → IsPopulated names σ.sched.tests
    → IsConsistent env σ
    → contains names test ≡ true
    → IsOk (visit_test env σ test)
unfolding visit_test get_test_data
visit_test-IsOk env σ names test built grouped there h listed =
    let (entry, found) = entry_of_listed names σ test there listed in
    IsOk-bind (get_test_data σ.sched test) _ (entry, ground arith)
      (λ e got.
        IsOk-if (not (unfinished env e)) _ _ (λ over. (done, refl))
          (λ works.
            IsOk-if (length σ.flight == env.parallel_jobs) _ _ (λ all. (full, refl))
              (λ room.
                IsOk-if (member test σ.flight) _ _ (λ manned. (busy, refl))
                  (λ idle.
                    start_next-IsOk env σ names test e built grouped there h listed (ground arith)
                      idle (ground arith)))))

-- Where the phases are those that the constructor sets up, and every test has a build group whose first
-- test is one of the tests: in every state that the scheduler reaches, a visit of `_producer` to one
-- of the tests does not raise, neither from its own checks nor from those of `_update_test_status`.
pub Reach-visit_test :
    {env : Env} {names : List Text} {cost : ℕ} {σ : State}
    → IsBuilt env
    → IsGrouped env names
    → Reach env names cost σ
    → (test : Text) → contains names test ≡ true
    → IsOk (visit_test env σ test)
Reach-visit_test {env} {names} {σ = σ} built grouped reached test listed =
    visit_test-IsOk env σ names test built grouped (Reach-IsPopulated reached)
      (Reach-IsConsistent built reached) listed
