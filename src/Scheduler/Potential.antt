-- ===== src/Scheduler/Potential.antt =====
-- How far the tests have come: the positions of their phases, added up.
use cime.Common.{
  ℕ, ◌+◌, ◌*◌, ◌≤◌, ◌≡◌, ap, Text, Bool, none, some, List, [], ◌∷◌, ok, if◌then◌else◌, ◌==◌,
  list_eq, nat_eq, arith, Bool-cases, Option-cases, inl, inr, ok_of_bind, index, length,
}
use cime.Common.Dict.{lookup, insert}
use cime.TestStatus.Phase.{Status, Phase, pend, run, phase_beq_iff, phase_eq}
use cime.Scheduler.State.{
  Env, Entry, Scheduler, get_test_data, step_index, update_test_status, work_remains, check_same,
  check_next,
}
use cime.Scheduler.Threads.{
  Outcome, get_build_group, status_after, writes_file, set_finished, scale_cost, finish_phase,
  count_completed, note_update, submit_now, consumer,
}
use cime.Scheduler.Entries.{Tests}
use cime.Scheduler.Transition.{check_next-ok}

unfoldable pub rank : Env → Phase → ℕ
rank env phase = elim (index env.steps phase) [ none ↦ 0 | some i ↦ i ]

unfoldable pub progress : Env → Tests → ℕ
progress env [] = 0
progress env ((test, e) ∷ tests) = rank env e.0 + progress env tests

index_below : (ps : List Phase) (p : Phase) (i : ℕ) → index ps p ≡ some i → i ≤ length ps
index_below [] p i h = cc
index_below (q ∷ ps) p i h = elim (Option-cases (index ps p)) [
  | inl absent ↦ ground arith
  | inr (j, found) ↦ ground (arith, index_below ps p j found)
]

rank_below : (env : Env) (p : Phase) → rank env p ≤ length env.steps
unfolding rank
rank_below env p = elim (Option-cases (index env.steps p)) [
  | inl absent ↦ ground arith
  | inr (i, found) ↦ ground (arith, index_below env.steps p i found)
]

pub rank_at : (env : Env) (p : Phase) (i : ℕ) → step_index env p ≡ ok i → rank env p ≡ i
unfolding rank step_index
rank_at env p i at = ground arith

pub progress_below :
    (env : Env) (tests : Tests) → progress env tests ≤ length tests * length env.steps
unfolding progress
progress_below env [] = omega arith
progress_below env ((test, e) ∷ tests) = omega (arith, progress_below env tests, rank_below env e.0)

pub progress-insert :
    (env : Env) (tests : Tests) (test : Text) (old new : Entry)
    → lookup test tests ≡ some old
    → (progress env (insert test new tests) + rank env old.0 ≡ progress env tests + rank env new.0)
      × (length (insert test new tests) ≡ length tests)
unfolding progress lookup insert
progress-insert env [] test old new found = cc
progress-insert env ((j, e) ∷ tests) test old new found =
    ground (arith, progress-insert env tests test old new)

-- A transition that is accepted never takes a test back.
pub progress-update_test_status :
    (env : Env) (s s' : Scheduler) (test : Text) (phase : Phase) (status : Status)
    → update_test_status env s test phase status ≡ ok s'
    → (progress env s.tests ≤ progress env s'.tests) × (length s'.tests ≡ length s.tests)
unfolding update_test_status get_test_data
progress-update_test_status env s s' test phase status h =
    let (i, at, rest) = ok_of_bind (step_index env phase) _ h in
    let (old, got, choice) = ok_of_bind (get_test_data s test) _ rest in
    let (_, checked, last) =
      ok_of_bind (if old.0 == phase then check_same old.1 status else check_next env i old status) _
        choice in
    let grown = progress-insert env s.tests test old (phase, status) (ground arith) in
    elim (Bool-cases (old.0 == phase)) [
      | inl same ↦
          let here = ap (rank env) ((phase_beq_iff old.0 phase).0 same) in
          ground (arith, grown, here)
      | inr moves ↦
          let (j, passed, at_old, next) = check_next-ok env i old status (rw moves at checked) in
          ground (arith, grown, rank_at env phase i at, rank_at env old.0 j at_old)
    ]

-- The relation of two states of the scheduler between which no test went back.
abbrev pub IsAhead : Env → Scheduler → Scheduler → Type 0
IsAhead env s s' =
    (progress env s.tests ≤ progress env s'.tests) × (length s'.tests ≡ length s.tests)

tests-scale_cost :
    (env : Env) (s : Scheduler) (phase : Phase) (o : Outcome)
    → (scale_cost env phase o s).tests ≡ s.tests
unfolding scale_cost
tests-scale_cost env s phase o = ground arith

set_finished-IsAhead :
    (env : Env) (s s' : Scheduler) (test : Text) (phase : Phase) (status : Status)
    → set_finished env s test phase status ≡ ok s'
    → IsAhead env s s'
unfolding set_finished
set_finished-IsAhead env s s' test phase status h =
    ground (arith, progress-update_test_status env s s' test phase status)

tests-note_update :
    (writes remains : Bool) (test : Text) (phase : Phase) (status : Status) (s : Scheduler)
    → (note_update writes test phase status (count_completed remains s)).tests ≡ s.tests
unfolding note_update count_completed
tests-note_update writes remains test phase status s = ground arith

finish_phase-IsAhead :
    (env : Env) (s s' : Scheduler) (test : Text) (phase : Phase) (o : Outcome)
    → finish_phase env s test phase o ≡ ok s'
    → IsAhead env s s'
unfolding finish_phase
finish_phase-IsAhead env s s' test phase o h =
    let scaled = scale_cost env phase o s in
    let status = status_after env phase o.success in
    let (updated, over, counting) = ok_of_bind (set_finished env scaled test phase status) _ h in
    let (remains, _, grouping) = ok_of_bind (work_remains env updated test) _ counting in
    let (first, _, last) = ok_of_bind (get_build_group env test) _ grouping in
    let noted =
      tests-note_update (writes_file (test == first) phase) remains test phase status updated in
    let ahead = set_finished-IsAhead env scaled updated test phase status over in
    let before = ap (progress env) (tests-scale_cost env s phase o) in
    let size = ap length (tests-scale_cost env s phase o) in
    let same : s'.tests ≡ updated.tests = ground (arith, noted, last) in
    let after = ap (progress env) same in
    let size' = ap length same in omega (arith, ahead, before, after, size, size')

submit_now-IsAhead :
    (env : Env) (s s' : Scheduler) (test : Text) (o : Outcome)
    → submit_now env s test o ≡ ok s'
    → IsAhead env s s'
unfolding submit_now
submit_now-IsAhead env s s' test o h =
    let (pending, made, rest) = ok_of_bind (update_test_status env s test run pend) _ h in
    ground (
      arith,
      progress-update_test_status env s pending test run pend made,
      finish_phase-IsAhead env pending s' test run o rest,
    )

pub consumer-IsAhead :
    (env : Env) (s s' : Scheduler) (test : Text) (phase : Phase) (o ro : Outcome)
    → consumer env s test phase o ro ≡ ok s'
    → IsAhead env s s'
unfolding consumer
consumer-IsAhead env s s' test phase o ro h =
    let (finished, done, rest) = ok_of_bind (finish_phase env s test phase o) _ h in
    ground (
      arith,
      finish_phase-IsAhead env s finished test phase o done,
      submit_now-IsAhead env finished s' test ro,
    )
