-- ===== src/Scheduler/NoRaise.antt =====
-- Neither the producer nor a thread raises: every transition that they ask for is one that
-- `_update_test_status` accepts.
use cime.Common.{
  ℕ, suc, ◌-◌, Text, ◌≡◌, refl, sym, ap, ◌∙◌, Bool, true, false, ◌&&◌, not, Option, none, some,
  List, ok, ◌==◌, list_eq, nat_eq, list_beq_iff, contains, arith, IsOk, IsOk-bind, IsOk-if,
}
use cime.Common.Dict.{lookup, insert, lookup-insert}
use cime.TestStatus.Phase.{
  Status, Phase, pend, pass, fail, is_pass, is_pend, phase_beq_iff, phase_eq,
}
use cime.Scheduler.State.{
  Env, Entry, Scheduler, get_test_data, get_test_status, other_status, step_index,
  update_test_status, check_same, check_next,
}
use cime.Scheduler.Threads.{
  find_group, get_build_group, Thread, State, procs_needed, first_procs, own_procs, follows_first,
  launch, reject,
}
use cime.Scheduler.Order.{index_of_contains}
use cime.Scheduler.Pending.{IsConsistent, Standing, StandingAlive}

-- Every test has a build group, whose first test is one of the tests.
abbrev pub IsGrouped : Env → List Text → Type 0
IsGrouped env names =
    (test : Text)
    → contains names test ≡ true
    → (first : Text) × (find_group env.build_groups test ≡ some first)
      × (contains names first ≡ true)

pub get_build_group-IsOk :
    (env : Env) (names : List Text) (test : Text)
    → IsGrouped env names
    → contains names test ≡ true
    → (first : Text) × (get_build_group env test ≡ ok first) × (contains names first ≡ true)
unfolding get_build_group
get_build_group-IsOk env names test grouped listed =
    let (first, found, among) = grouped test listed in (first, ground arith, among)

pub step_index-IsOk :
    (env : Env) (p : Phase) → contains env.steps p ≡ true → IsOk (step_index env p)
unfolding step_index
step_index-IsOk env p known =
    let (i, found) = index_of_contains env.steps p known in (i, ground arith)

-- A move to the next phase, from one that passed.
pub update_next :
    (env : Env) (s : Scheduler) (test : Text) (p q : Phase) (i : ℕ)
    → lookup test s.tests ≡ some (p, pass)
    → step_index env p ≡ ok i
    → step_index env q ≡ ok (suc i)
    → update_test_status env s test q pend ≡ ok (record s { tests = insert test (q, pend) s.tests })
unfolding update_test_status get_test_data check_next is_pass is_pend
update_next env s test p q i found here next =
    let moves : (p == q) ≡ false = ground (arith, phase_beq_iff p q) in ground (arith, moves)

-- The end of a phase that is pending.
pub update_ended :
    (env : Env) (s : Scheduler) (test : Text) (p : Phase) (status : Status)
    → lookup test s.tests ≡ some (p, pend)
    → contains env.steps p ≡ true
    → is_pend status ≡ false
    → update_test_status env s test p status
      ≡ ok (record s { tests = insert test (p, status) s.tests })
unfolding update_test_status get_test_data check_same is_pend
update_ended env s test p status found known over =
    let (i, index) = step_index-IsOk env p known in ground (arith, phase_beq_iff p p, index)

-- The entry of a test is in a phase that is set up.
pub known_entry :
    (env : Env) (σ : State) (test : Text) (e : Entry)
    → IsConsistent env σ
    → lookup test σ.sched.tests ≡ some e
    → contains env.steps e.0 ≡ true
known_entry env σ test e h found = known_from (lookup test σ.flight) (h.stands test e found)
  where
    alive_known :
        (alive : Bool) (p : Phase) → StandingAlive env alive p e → contains env.steps e.0 ≡ true
    alive_known true p (same, known) = ground (arith, same, known)
    alive_known false p settled = settled.0

    known_from : (o : Option Thread) → Standing env o e → contains env.steps e.0 ≡ true
    known_from none settled = settled.0
    known_from (some t) stands = alive_known t.alive t.phase stands

get_test_status-IsOk :
    (env : Env) (σ : State) (first : Text) (e : Entry) (phase : Phase)
    → IsConsistent env σ
    → lookup first σ.sched.tests ≡ some e
    → contains env.steps phase ≡ true
    → IsOk (get_test_status env σ.sched first phase)
unfolding get_test_status get_test_data other_status
get_test_status-IsOk env σ first e phase h found known =
    IsOk-bind (get_test_data σ.sched first) _ (e, ground arith)
      (λ e' got.
        let here : e' ≡ e = ground arith in
        IsOk-if (phase == e'.0) (ok e'.1) (other_status env phase e'.0) (λ same. (e'.1, refl))
          (λ moved.
            IsOk-bind (step_index env phase) _ (step_index-IsOk env phase known) (λ asked at_asked.
              IsOk-bind (step_index env e'.0) _
                (step_index-IsOk env e'.0
                  (known_entry env σ first e' h (found ∙ ap some (sym here))))
                (λ current at_current. (_, refl)))))

pub procs_needed-IsOk :
    (env : Env) (σ : State) (names : List Text) (test first : Text) (e : Entry) (phase : Phase)
    → IsConsistent env σ
    → get_build_group env test ≡ ok first
    → lookup first σ.sched.tests ≡ some e
    → contains env.steps phase ≡ true
    → IsOk (procs_needed env σ.sched σ.flight test phase)
unfolding procs_needed
procs_needed-IsOk env σ names test first e phase h group found known = rw group (
    IsOk-if (not (test == first) && follows_first phase) _
      (ok (own_procs env σ.sched σ.flight test phase))
      (λ follows.
        let (status, got) = get_test_status-IsOk env σ first e phase h found known in
        (first_procs env status, rw got refl))
      (λ leads. (_, refl)))

pub launch-IsOk :
    (env : Env) (σ : State) (test : Text) (p q : Phase) (i procs : ℕ)
    → lookup test σ.sched.tests ≡ some (p, pass)
    → step_index env p ≡ ok i
    → step_index env q ≡ ok (suc i)
    → IsOk (launch env σ test q procs)
unfolding launch
launch-IsOk env σ test p q i procs found here next =
    let s = record σ.sched { procs_avail = σ.sched.procs_avail - procs } in
    IsOk-bind (update_test_status env s test q pend) _
      (_, update_next env s test p q i found here next) (λ started made. (_, refl))

pub reject-IsOk :
    (env : Env) (σ : State) (test : Text) (p q : Phase) (i : ℕ)
    → lookup test σ.sched.tests ≡ some (p, pass)
    → step_index env p ≡ ok i
    → step_index env q ≡ ok (suc i)
    → contains env.steps q ≡ true
    → IsOk (reject env σ test q)
unfolding reject is_pend
reject-IsOk env σ test p q i found here next known =
    let pending = record σ.sched { tests = insert test (q, pend) σ.sched.tests } in
    let set : lookup test pending.tests ≡ some (q, pend) =
      ground (arith, lookup-insert test test (q, pend) σ.sched.tests, list_beq_iff test test) in
    IsOk-bind (update_test_status env σ.sched test q pend) _
      (pending, update_next env σ.sched test p q i found here next)
      (λ started made.
        let same : started ≡ pending =
          ground (arith, made, update_next env σ.sched test p q i found here next) in
        IsOk-bind (update_test_status env started test q fail) _
          (
            _,
            update_ended env started test q fail (ap (λ s. lookup test s.tests) same ∙ set) known
                refl,
          )
          (λ failed over. (_, refl)))
