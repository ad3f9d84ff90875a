-- ===== src/TestStatus/Kept.antt =====
-- `set_status` keeps a TestStatus object such that its file holds all of it.
use cime.Common.{
  Text, ◌≡◌, refl, Bool, true, ◌&&◌, Option, none, some, List, [], ◌∷◌, ok, arith, subst,
  Bool-cases, Option-cases, inl, inr,
}
use cime.Common.Dict.{insert, remove}
use cime.Common.Dict.Distinct.{
  distinct-insert, distinct-remove, distinct-remove_if, All-insert, All-remove, All-remove_if,
}
use cime.Common.Words.{is_space, split, join}
use cime.Common.Words.Laws.{IsWord, is_word, is_word-IsWord}
use cime.TestStatus.Phase.{
  Status, Phase, pend, create_newcase, is_phase, is_status, is_pass, is_compare, next_core,
  phases_after, phase_eq,
}
use cime.TestStatus.State.{
  Phases, Entry, TestStatus, drop_phase, drop_phases, invalidate, reran_phase, pend_next,
  set_status,
}
use cime.TestStatus.Entries.{next_phases, accepts, accepts-set_status}
use cime.TestStatus.File.{phase_name}
use cime.TestStatus.RoundTrip.{IsDurable, IsStorable, IsComment}

insert-IsDurable :
    (d : Phases) (p : Phase) (e : Entry)
    → IsStorable (p, e)
    → IsDurable d
    → IsDurable (insert p e d)
insert-IsDurable d p e s h = record {
  storable = All-insert IsStorable p e d s h.storable;
  once = distinct-insert p e d h.once;
}

drop_phase-IsDurable : (p : Phase) (d : Phases) → IsDurable d → IsDurable (drop_phase p d)
unfolding drop_phase
drop_phase-IsDurable p d h = elim (Bool-cases (is_compare p)) [
  | inl c ↦ rw c (record {
    storable =
        All-remove_if IsStorable is_compare (remove p d) (All-remove IsStorable p d h.storable);
    once = distinct-remove_if is_compare (remove p d) (distinct-remove p d h.once);
  })
  | inr c ↦ rw c (record {
    storable = All-remove IsStorable p d h.storable;
    once = distinct-remove p d h.once;
  })
]

drop_phases-IsDurable : (ps : List Phase) (d : Phases) → IsDurable d → IsDurable (drop_phases ps d)
unfolding drop_phases
drop_phases-IsDurable [] d h = h
drop_phases-IsDurable (p ∷ ps) d h =
    drop_phases-IsDurable ps (drop_phase p d) (drop_phase-IsDurable p d h)

invalidate-IsDurable : (p : Phase) (d : Phases) → IsDurable d → IsDurable (invalidate p d)
unfolding invalidate
invalidate-IsDurable p d h = elim (Bool-cases (reran_phase d p)) [
  | inl c ↦ rw c (drop_phases-IsDurable (phases_after p) d h)
  | inr c ↦ rw c h
]

-- A phase that may be written with status PEND and no comment.
writable : Option Phase → Bool
writable none = true
writable (some q) = is_phase q && is_word (phase_name q)

writable-next_core : (p : Phase) → writable (next_core p) ≡ true
unfolding writable next_core is_phase is_word is_space phase_name
writable-next_core create_newcase = refl
writable-next_core _ = refl

writable-IsStorable : (q : Phase) → writable (some q) ≡ true → IsStorable (q, (pend, []))
unfolding writable is_status join split
writable-IsStorable q h = record {
  phase_known = ground arith;
  status_known = refl;
  one_word = is_word-IsWord (phase_name q) (ground arith);
  comment = refl;
}

next_core-IsStorable : (p q : Phase) → next_core p ≡ some q → IsStorable (q, (pend, []))
next_core-IsStorable p q e =
    writable-IsStorable q (subst (λ o. writable o ≡ true) e (writable-next_core p))

pend_next-IsDurable :
    (p : Phase) (s : Status) (d : Phases) → IsDurable d → IsDurable (pend_next p s d)
unfolding pend_next
pend_next-IsDurable p s d h = elim (Option-cases (next_core p)) [
  | inl e ↦ rw (e, pend_next) h
  | inr (q, e) ↦ elim (Bool-cases (is_pass s)) [
    | inl passes ↦
        rw (e, passes, pend_next) (insert-IsDurable d q (pend, []) (next_core-IsStorable p q e) h)
    | inr stays ↦ rw (e, stays, pend_next) h
  ]
]

-- A call that succeeds, of a phase with a name of one word and with a regular comment, leaves an
-- object whose phases are storable and each there once, if it found such an object.
pub set_status-IsDurable :
    (ts ts' : TestStatus) (phase : Phase) (status : Status) (comments : Text)
    → IsWord (phase_name phase)
    → IsComment comments
    → IsDurable ts.phase_statuses
    → set_status ts phase status comments ≡ ok ts'
    → IsDurable ts'.phase_statuses
unfolding next_phases accepts
set_status-IsDurable ts ts' phase status comments w c h e =
    let (fits, e') = accepts-set_status ts ts' phase status comments e in
    let entry : IsStorable (phase, (status, comments)) = record {
      phase_known = ground arith;
      status_known = ground arith;
      one_word = w;
      comment = c;
    } in
    let kept = invalidate-IsDurable phase ts.phase_statuses h in
    rw e'
      (pend_next-IsDurable phase status _ (insert-IsDurable _ phase (status, comments) entry kept))
