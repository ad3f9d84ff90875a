-- ===== src/Scheduler/Order.antt =====
-- scripts/lib/CIME/test_scheduler.py, self._phases: what follows a phase that is not the last one.
use cime.Common.{
  ℕ, zero, suc, ◌≡◌, refl, Bool, true, false, ◌&&◌, not, none, some, List, [], ◌∷◌, ◌==◌, nat_eq,
  list_eq, contains, index, get_elem?, arith, Option-cases, Bool-cases, inl, inr, ok,
}
use cime.TestStatus.Phase.{Phase, phase_beq, phase_beq_iff, phase_eq}
use cime.Scheduler.State.{Env, steps_for, last_step, is_last, step_index}
use cime.Scheduler.Threads.{next_step}
use cime.Scheduler.Pending.{IsBuilt}
use cime.Scheduler.Launch.{index-contains}

-- No phase is there twice.
abbrev pub unique : List Phase → Bool
unique [] = true
unique (p ∷ ps) = not (contains ps p) && unique ps

unique-steps_for :
    (no_setup no_build no_run : Bool) → unique (steps_for no_setup no_build no_run) ≡ true
unfolding steps_for phase_beq
unique-steps_for no_setup no_build no_run = ground arith

pub index_of_contains :
    (ps : List Phase) (p : Phase) → contains ps p ≡ true → (i : ℕ) × (index ps p ≡ some i)
index_of_contains [] p h = cc
index_of_contains (q ∷ ps) p h = elim (Bool-cases (q == p)) [
  | inl here ↦ (0, rw here refl)
  | inr later ↦
      let (i, found) = index_of_contains ps p (ground arith) in (suc i, rw (later, found) refl)
]

contains-get_elem? :
    (ps : List Phase) (i : ℕ) (q : Phase) → get_elem? ps i ≡ some q → contains ps q ≡ true
contains-get_elem? [] i q h = cc
contains-get_elem? (p ∷ ps) zero q h = ground (arith, phase_beq_iff p q)
contains-get_elem? (p ∷ ps) (suc i) q h = ground (arith, contains-get_elem? ps i q h)

index-get_elem? :
    (ps : List Phase) (i : ℕ) (q : Phase)
    → unique ps ≡ true
    → get_elem? ps i ≡ some q
    → index ps q ≡ some i
index-get_elem? [] i q u h = cc
index-get_elem? (p ∷ ps) zero q u h = ground (arith, phase_beq_iff p q)
index-get_elem? (p ∷ ps) (suc i) q u h =
    ground (arith, contains-get_elem? ps i q h, index-get_elem? ps i q, phase_beq_iff p q)

-- The phase at which the list ends.
ends_at : List Phase → Phase → Bool
ends_at ps p = elim (last_step ps) [ none ↦ false | some q ↦ p == q ]

get_elem_after_index :
    (ps : List Phase) (p : Phase) (i : ℕ)
    → index ps p ≡ some i
    → ends_at ps p ≡ false
    → (q : Phase) × (get_elem? ps (suc i) ≡ some q)
unfolding ends_at last_step
get_elem_after_index [] p i h e = cc
get_elem_after_index (r ∷ []) p i h e = ground (arith, phase_beq_iff p r, phase_beq_iff r p)
get_elem_after_index (r ∷ s ∷ ps) p i h e = elim (Bool-cases (r == p)) [
  | inl here ↦ (s, ground arith)
  | inr later ↦ elim (Option-cases (index (s ∷ ps) p)) [
    | inl absent ↦ absurd (unfold ends_at last_step in (ground arith))
    | inr (j, found) ↦
        let (q, there) = get_elem_after_index (s ∷ ps) p j found e in (q, ground arith)
  ]
]

-- A phase that is set up and is not the last one has a next one.
pub next_step_lem :
    (env : Env) (p : Phase)
    → IsBuilt env
    → contains env.steps p ≡ true
    → is_last env p ≡ false
    → (i : ℕ) × (q : Phase) × (step_index env p ≡ ok i)
      × (next_step env p ≡ ok q)
      × (step_index env q ≡ ok (suc i))
unfolding is_last next_step step_index
next_step_lem env p built known more =
    let (i, found) = index_of_contains env.steps p known in
    let (q, there) = get_elem_after_index env.steps p i found (unfold ends_at in more) in
    let one : unique env.steps ≡ true =
      rw built.steps (unique-steps_for built.no_setup built.no_build env.no_run) in
    (
      i,
      q,
      ground arith,
      ground arith,
      ground (arith, index-get_elem? env.steps (suc i) q one there),
    )

pub contains_of_index :
    (env : Env) (p : Phase) (i : ℕ) → step_index env p ≡ ok i → contains env.steps p ≡ true
unfolding step_index
contains_of_index env p i h = elim (Option-cases (index env.steps p)) [
  | inl absent ↦ ground arith
  | inr (j, found) ↦ index-contains env.steps p j found
]
