-- ===== src/TestStatus/Entries.antt =====
-- What each entry of a TestStatus object is after `set_status`, and when it raises.
use cime.Common.{
  Text, ◌≡◌, refl, Bool, true, false, ◌&&◌, ◌||◌, Option, none, some, List, [], ◌∷◌, ok, ◌==◌,
  if◌then◌else◌, arith, Bool-cases, Option-cases, inl, inr,
}
use cime.Common.Dict.{lookup, insert, remove, lookup-insert, lookup-remove, lookup-remove_if}
use cime.TestStatus.Phase.{
  Status, Phase, pend, is_phase, is_status, is_compare, is_pass, next_core, phases_after, phase_eq,
}
use cime.TestStatus.State.{
  Entry, Phases, TestStatus, may_move_to, reran_phase, drop_phase, drop_phases, invalidate,
  pend_next, set_status,
}

-- The loop's body at `s` deletes the entry of `q`.
unfoldable pub drops : Phase → Phase → Bool
unfolding is_compare
drops s q = s == q || (is_compare s && is_compare q)

-- Some of the phases `ps` deletes the entry of `q`.
unfoldable pub any_drops : List Phase → Phase → Bool
unfolding drops
any_drops [] q = false
any_drops (s ∷ ps) q = drops s q || any_drops ps q

lookup-drop_phase :
    (s q : Phase) (d : Phases)
    → lookup q (drop_phase s d) ≡ (if drops s q then none else lookup q d)
unfolding drop_phase drops
lookup-drop_phase s q d = elim (Bool-cases (is_compare s)) [
  | inl c ↦ rw c (ground (arith, lookup-remove_if is_compare q (remove s d), lookup-remove s q d))
  | inr c ↦ rw c (ground (arith, lookup-remove s q d))
]

lookup-drop_phases :
    (ps : List Phase) (q : Phase) (d : Phases)
    → lookup q (drop_phases ps d) ≡ (if any_drops ps q then none else lookup q d)
unfolding drop_phases any_drops
lookup-drop_phases [] q d = refl
lookup-drop_phases (s ∷ ps) q d =
    ground (arith, lookup-drop_phases ps q (drop_phase s d), lookup-drop_phase s q d)

-- `q` is the core phase that a status of `phase` sets to PEND.
unfoldable pub pends : Phase → Status → Phase → Bool
unfolding next_core is_pass
pends phase status q = elim (next_core phase) [ none ↦ false | some n ↦ is_pass status && n == q ]

lookup-pend_next :
    (phase q : Phase) (status : Status) (d : Phases)
    → lookup q (pend_next phase status d)
      ≡ (if pends phase status q then some (pend, []) else lookup q d)
unfolding pend_next pends
lookup-pend_next phase q status d = elim (Option-cases (next_core phase)) [
  | inl e ↦ rw (e, pend_next, pends)
  | inr (n, e) ↦ rw (e, pend_next, pends) (ground (arith, lookup-insert n q (pend, []) d))
]

-- What a call that succeeds makes of the entries.
unfoldable pub next_phases : Phases → Phase → Status → Text → Phases
next_phases d phase status comments =
    pend_next phase status (insert phase (status, comments) (invalidate phase d))

-- The conditions of the four `expect` calls.
unfoldable pub accepts : TestStatus → Phase → Status → Bool
accepts ts phase status =
    ts.ok_to_modify && is_phase phase && is_status status && may_move_to ts.phase_statuses phase

pub set_status_lem :
    (ts : TestStatus) (phase : Phase) (status : Status) (comments : Text)
    → accepts ts phase status ≡ true
    → set_status ts phase status comments
      ≡ ok (record ts { phase_statuses = next_phases ts.phase_statuses phase status comments })
unfolding set_status accepts next_phases
set_status_lem ts phase status comments h = ground arith

pub accepts-set_status :
    (ts ts' : TestStatus) (phase : Phase) (status : Status) (comments : Text)
    → set_status ts phase status comments ≡ ok ts'
    → (accepts ts phase status ≡ true)
      × (ts' ≡ record ts { phase_statuses = next_phases ts.phase_statuses phase status comments })
unfolding set_status accepts next_phases
accepts-set_status ts ts' phase status comments h = ground arith

pub accepts-may_move_to :
    (ts : TestStatus) (phase : Phase) (status : Status)
    → accepts ts phase status ≡ true
    → may_move_to ts.phase_statuses phase ≡ true
unfolding accepts
accepts-may_move_to ts phase status h = ground arith

lookup-invalidate :
    (phase q : Phase) (d : Phases)
    → lookup q (invalidate phase d)
      ≡ (if reran_phase d phase && any_drops (phases_after phase) q then none else lookup q d)
unfolding invalidate
lookup-invalidate phase q d = ground (arith, lookup-drop_phases (phases_after phase) q d)

-- What a call that succeeds leaves for `q`, read off the entries before the call.
unfoldable pub entry_after : Phases → Phase → Status → Text → Phase → Option Entry
unfolding pends any_drops reran_phase phases_after
entry_after d phase status comments q =
    if pends phase status q
    then some (pend, [])
    else if phase == q
    then some (status, comments)
    else if reran_phase d phase && any_drops (phases_after phase) q
    then none
    else lookup q d

pub lookup-next_phases :
    (d : Phases) (phase : Phase) (status : Status) (comments : Text) (q : Phase)
    → lookup q (next_phases d phase status comments) ≡ entry_after d phase status comments q
unfolding next_phases entry_after
lookup-next_phases d phase status comments q = ground (
  arith,
  lookup-pend_next phase q status (insert phase (status, comments) (invalidate phase d)),
  lookup-insert phase q (status, comments) (invalidate phase d),
  lookup-invalidate phase q d,
)
