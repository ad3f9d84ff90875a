-- ===== src/TestStatus/Verdict.antt =====
-- When the overall status of a test is PASS, and which core failure decides it.
use cime.Common.{
  ◌≡◌, refl, ap, ◌∙◌, Bool, true, false, ◌&&◌, ◌||◌, not, Option, none, some, List, [], ◌∷◌, ◌++◌,
  ◌==◌, contains, contains-append, arith, Bool-cases, Option-cases, inl, inr, ◌↔◌,
}
use cime.Common.Dict.{lookup, member, keys, contains-keys}
use cime.TestStatus.Phase.{
  Status, Phase, run, namelist, core_phases, is_core, is_pend, is_fail, is_core_lem, phase_beq,
  phase_beq_iff, phase_eq,
}
use cime.TestStatus.State.{Entry, Phases, get_status}
use cime.TestStatus.Progress.{member_of_status}
use cime.TestStatus.Overall.{
  Overall, Verdict, pass, Flags, Progress, start, Round, next, stop, failed, is_pass, ignored,
  count_failure, blame, see_run, visit, judge, finish, after_round, status_from, other_keys,
  overall_status,
}

-- Nothing about this status speaks against PASS.
unfoldable pub is_fine : Flags → Phase → Status → Bool
is_fine o phase status = not (is_pend status) && (not (is_fail status) || ignored o phase)

abbrev NotPass : Round → Type 0
NotPass (next st) = is_pass st.rv ≡ false
NotPass (stop st) = is_pass st.rv ≡ false
NotPass (failed phase) = Unit

unfoldable pub fine_entry : Flags → Phase → Option Entry → Bool
unfolding is_fine
fine_entry o p none = true
fine_entry o p (some e) = is_fine o p e.0

-- `is_fine` at every phase of `ps` that has an entry.
unfoldable pub all_fine : Flags → Phases → List Phase → Bool
all_fine o d [] = true
all_fine o d (p ∷ ps) = fine_entry o p (lookup p d) && all_fine o d ps

-- RUN is one of `ps` and has an entry.
unfoldable pub sees_run : Phases → List Phase → Bool
sees_run d [] = false
sees_run d (p ∷ ps) = p == run && member p d || sees_run d ps

module _ (o : Flags) (all : o.no_run ≡ false) where
  pub visit_fine :
      (p : Phase) (s : Status) (st : Progress)
      → is_fine o p s ≡ true
      → visit o p s st ≡ next (see_run p (blame p s st))
  unfolding visit judge is_fine
  visit_fine p s st h = ground arith

  visit_bad :
      (p : Phase) (s : Status) (st : Progress) → is_fine o p s ≡ false → NotPass (visit o p s st)
  unfolding visit judge is_fine count_failure blame see_run
  visit_bad namelist s st h = ground arith
  visit_bad p s st h = ground arith

  visit_decided :
      (p : Phase) (s : Status) (st : Progress) → is_pass st.rv ≡ false → NotPass (visit o p s st)
  unfolding visit judge is_fine count_failure blame see_run
  visit_decided namelist s st h = ground arith
  visit_decided p s st h = ground arith

  after_decided :
      (rest : Progress → Verdict) (r : Round)
      → NotPass r
      → ((st : Progress) → is_pass st.rv ≡ false → is_pass (rest st).0 ≡ false)
      → is_pass (after_round o rest r).0 ≡ false
  unfolding after_round
  after_decided rest (next st) h k = k st h
  after_decided rest (stop st) h k = ground arith
  after_decided rest (failed p) h k = refl

  status_from_decided :
      (d : Phases) (ps : List Phase) (st : Progress)
      → is_pass st.rv ≡ false
      → is_pass (status_from o d ps st).0 ≡ false
  unfolding status_from finish
  status_from_decided d [] st h = ground arith
  status_from_decided d (p ∷ ps) st h = elim (Option-cases (lookup p d)) [
    | inl e ↦ rw (e, status_from) (status_from_decided d ps st h)
    | inr (x, e) ↦
        rw (e, status_from)
          (after_decided _ (visit o p x.0 st) (visit_decided p x.0 st h) (status_from_decided d ps))
  ]

  pub rv-see_run : (p : Phase) (s : Status) (st : Progress) → (see_run p (blame p s st)).rv ≡ st.rv
  unfolding see_run blame
  rv-see_run run s st = ground arith
  rv-see_run p s st = ground arith

  found-see_run :
      (p : Phase) (s : Status) (st : Progress)
      → (see_run p (blame p s st)).run_phase_found ≡ (p == run || st.run_phase_found)
  unfolding see_run blame phase_beq
  found-see_run run s st = ground arith
  found-see_run p s st = ground arith

  -- While nothing has gone wrong, the loop ends with PASS exactly when every phase is fine and the
  -- run is not waited for in vain.
  is_pass-status_from :
      (d : Phases) (ps : List Phase) (st : Progress)
      → is_pass st.rv ≡ true
      → is_pass (status_from o d ps st).0
        ≡ (all_fine o d ps && (not o.wait_for_run || (st.run_phase_found || sees_run d ps)))
  unfolding status_from finish all_fine sees_run fine_entry member
  is_pass-status_from d [] st h = ground arith
  is_pass-status_from d (p ∷ ps) st h = elim (Option-cases (lookup p d)) [
    | inl e ↦ ground (arith, is_pass-status_from d ps st h)
    | inr (x, e) ↦ elim (Bool-cases (is_fine o p x.0)) [
      | inl fine ↦
          let st' = see_run p (blame p x.0 st) in
          ground (
            arith,
            visit_fine p x.0 st fine,
            rv-see_run p x.0 st,
            found-see_run p x.0 st,
            is_pass-status_from d ps st' (rw rv-see_run h),
          )
      | inr bad ↦
          let worse =
            after_decided (status_from o d ps) (visit o p x.0 st) (visit_bad p x.0 st bad)
              (status_from_decided d ps) in
          ground (arith, worse)
    ]
  ]

pub fine_entry_of_status :
    (o : Flags) (d : Phases) (p : Phase)
    → ((s : Status) → get_status d p ≡ some s → is_fine o p s ≡ true)
    → fine_entry o p (lookup p d) ≡ true
unfolding fine_entry get_status
fine_entry_of_status o d p h = elim (Option-cases (lookup p d)) [
  | inl e ↦ rw e
  | inr (x, e) ↦ rw e (h x.0 (rw (e, get_status)))
]

all_fine_of_status :
    (o : Flags) (d : Phases) (ps : List Phase)
    → ((p : Phase) (s : Status) → get_status d p ≡ some s → is_fine o p s ≡ true)
    → all_fine o d ps ≡ true
unfolding all_fine
all_fine_of_status o d [] h = refl
all_fine_of_status o d (p ∷ ps) h =
    ground (arith, fine_entry_of_status o d p (h p), all_fine_of_status o d ps h)

fine_of_all_fine :
    (o : Flags) (d : Phases) (ps : List Phase) (p : Phase)
    → all_fine o d ps ≡ true
    → contains ps p ≡ true
    → fine_entry o p (lookup p d) ≡ true
unfolding all_fine
fine_of_all_fine o d [] p h m = cc
fine_of_all_fine o d (q ∷ ps) p h m = ground (arith, fine_of_all_fine o d ps p, phase_beq_iff q p)

contains-other_keys :
    (ps : List Phase) (p : Phase) → contains (other_keys ps) p ≡ (not (is_core p) && contains ps p)
unfolding other_keys
contains-other_keys [] p = ground arith
contains-other_keys (q ∷ ps) p =
    ground (arith, contains-other_keys ps p, phase_beq_iff q p, ap is_core {x = q} {y = p})

-- Every phase that has an entry is visited.
contains-phase_order :
    (d : Phases) (p : Phase)
    → member p d ≡ true
    → contains (core_phases ++ other_keys (keys d)) p ≡ true
contains-phase_order d p m =
    rw contains-append
      (ground (arith, contains-other_keys (keys d) p, contains-keys p d, is_core_lem p))

sees_run-member : (d : Phases) (ps : List Phase) → sees_run d ps ≡ (contains ps run && member run d)
unfolding sees_run
sees_run-member d [] = refl
sees_run-member d (p ∷ ps) = ground (arith, sees_run-member d ps, phase_beq_iff p run)

is_pass_iff : (v : Overall) → (is_pass v ≡ true) ↔ (v ≡ pass)
is_pass_iff v = ground arith

fine_of_entry :
    (o : Flags) (d : Phases) (p : Phase) (s : Status)
    → get_status d p ≡ some s
    → fine_entry o p (lookup p d) ≡ true
    → is_fine o p s ≡ true
unfolding fine_entry get_status
fine_of_entry o d p s e h = ground (arith, ap (is_fine o p))

contains-core_run : contains core_phases run ≡ true
unfolding phase_beq
contains-core_run = refl

module _ (o : Flags) (all : o.no_run ≡ false) (d : Phases) where
  phase_order : List Phase
  phase_order = core_phases ++ other_keys (keys d)

  core_pass :
      is_pass (status_from o d core_phases start).0
      ≡ (all_fine o d core_phases && (not o.wait_for_run || member run d))
  core_pass =
      is_pass-status_from o all d core_phases start refl
      ∙ (rw (sees_run-member, contains-core_run) refl)

  whole_pass :
      is_pass (status_from o d phase_order start).0
      ≡ (all_fine o d phase_order && (not o.wait_for_run || member run d))
  unfolding phase_order
  whole_pass =
      is_pass-status_from o all d phase_order start refl
      ∙ (rw (sees_run-member, contains-append, contains-core_run) refl)

  is_pass-overall_status : is_pass (overall_status o d).0 ≡ (
      all_fine o d core_phases && all_fine o d phase_order && (not o.wait_for_run || member run d))
  unfolding overall_status phase_order
  is_pass-overall_status = ground (arith, core_pass, whole_pass)

  fine_of_pass :
      (overall_status o d).0 ≡ pass
      → (p : Phase) (s : Status) → get_status d p ≡ some s
      → is_fine o p s ≡ true
  unfolding phase_order
  fine_of_pass h p s e =
      let visited = contains-phase_order d p (member_of_status d p s e) in
      let fine : all_fine o d phase_order ≡ true = ground (arith, is_pass-overall_status) in
      fine_of_entry o d p s e (fine_of_all_fine o d phase_order p fine visited)

  -- With `no_run` off, the overall status is PASS exactly when no phase that has an entry is pending,
  -- none has a failure that counts, and RUN has an entry if it is waited for.
  pub overall_status-pass_iff : ((overall_status o d).0 ≡ pass) ↔ (
      ((p : Phase) (s : Status) → get_status d p ≡ some s → is_fine o p s ≡ true)
      × (o.wait_for_run ≡ true → member run d ≡ true))
  overall_status-pass_iff = (
    λ h. (fine_of_pass h, λ w. ground (arith, is_pass-overall_status)),
    λ (fine, runs). ground (
      arith,
      is_pass-overall_status,
      all_fine_of_status o d core_phases fine,
      all_fine_of_status o d phase_order fine,
      is_pass_iff (overall_status o d).0,
    ),
  )

IsFail : Round → Type 0
IsFail (next st) = st.rv ≡ Overall.fail
IsFail (stop st) = st.rv ≡ Overall.fail
IsFail (failed phase) = Unit

visit_fail :
    (o : Flags) (p : Phase) (s : Status) (st : Progress)
    → st.rv ≡ Overall.fail
    → IsFail (visit o p s st)
unfolding visit judge count_failure blame see_run IsFail
visit_fail o namelist s st h = ground arith
visit_fail o p s st h = ground arith

after_fail :
    (o : Flags) (rest : Progress → Verdict) (r : Round)
    → IsFail r
    → ((st : Progress) → st.rv ≡ Overall.fail → (rest st).0 ≡ Overall.fail)
    → (after_round o rest r).0 ≡ Overall.fail
unfolding after_round IsFail finish
after_fail o rest (next st) h k = k st h
after_fail o rest (stop st) h k = ground arith
after_fail o rest (failed p) h k = refl

-- Once a failure has decided the loop's result, no later phase changes it, a pending one included.
pub status_from-fail_stays :
    (o : Flags) (d : Phases) (ps : List Phase) (st : Progress)
    → st.rv ≡ Overall.fail
    → (status_from o d ps st).0 ≡ Overall.fail
unfolding status_from finish
status_from-fail_stays o d [] st h = ground arith
status_from-fail_stays o d (p ∷ ps) st h = elim (Option-cases (lookup p d)) [
  | inl e ↦ rw (e, status_from) (status_from-fail_stays o d ps st h)
  | inr (x, e) ↦
      rw (e, status_from)
        (after_fail o _ (visit o p x.0 st) (visit_fail o p x.0 st h)
          (status_from-fail_stays o d ps))
]
