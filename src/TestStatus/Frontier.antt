-- ===== src/TestStatus/Frontier.antt =====
-- scripts/lib/CIME/test_status.py: what the loops of `_get_overall_status_based_on_phases` come to for
-- a test whose core phases were taken in order.
use cime.Common.{
  ◌≡◌, refl, true, false, some, List, [], ◌∷◌, ◌++◌, All, arith, Option-cases, inl, inr,
}
use cime.Common.Dict.{lookup, member}
use cime.TestStatus.Phase.{
  Status, Phase, create_newcase, xml, setup, sharedlib_build, model_build, submit, run, core_phases,
  is_core, is_pend, is_fail, phase_eq, previous_core,
}
use cime.TestStatus.State.{Phases, TestStatus, get_status}
use cime.TestStatus.Progress.{
  Earlier, just, after, Precedes, IsInProgress, IsInProgress-Earlier, Run, Run-IsInProgress,
  member_of_status,
}
use cime.TestStatus.Overall.{
  Flags, Progress, start, next, stop, failed, is_pass, blame, see_run, visit, judge, count_failure,
  status_from, overall_status, after_round, finish,
}
use cime.TestStatus.Overall
use cime.TestStatus.Verdict.{
  is_fine, all_fine, fine_entry, visit_fine, rv-see_run, fine_entry_of_status,
}

-- CORE_PHASES up to `q`, and what follows it.
upto : Phase → List Phase
upto xml = create_newcase ∷ []
upto setup = create_newcase ∷ xml ∷ []
upto sharedlib_build = create_newcase ∷ xml ∷ setup ∷ []
upto model_build = create_newcase ∷ xml ∷ setup ∷ sharedlib_build ∷ []
upto submit = create_newcase ∷ xml ∷ setup ∷ sharedlib_build ∷ model_build ∷ []
upto run = create_newcase ∷ xml ∷ setup ∷ sharedlib_build ∷ model_build ∷ submit ∷ []
upto _ = []

beyond : Phase → List Phase
beyond create_newcase = xml ∷ setup ∷ sharedlib_build ∷ model_build ∷ submit ∷ run ∷ []
beyond xml = setup ∷ sharedlib_build ∷ model_build ∷ submit ∷ run ∷ []
beyond setup = sharedlib_build ∷ model_build ∷ submit ∷ run ∷ []
beyond sharedlib_build = model_build ∷ submit ∷ run ∷ []
beyond model_build = submit ∷ run ∷ []
beyond submit = run ∷ []
beyond _ = []

core_phases-split : (q : Phase) → is_core q ≡ true → core_phases ≡ upto q ++ q ∷ beyond q
unfolding is_core upto beyond
core_phases-split create_newcase h = refl
core_phases-split xml h = refl
core_phases-split setup h = refl
core_phases-split sharedlib_build h = refl
core_phases-split model_build h = refl
core_phases-split submit h = refl
core_phases-split run h = refl
core_phases-split _ h = cc

Earlier-snoc :
    {q : Phase} (r : Phase) (ps : List Phase)
    → Precedes q r
    → All (λ p. Earlier p q) ps
    → All (λ p. Earlier p r) (ps ++ q ∷ [])
Earlier-snoc r [] e h = (just e, tt)
Earlier-snoc r (p ∷ ps) e h = (after h.0 e, Earlier-snoc r ps e h.1)

upto_xml : All (λ p. Earlier p xml) (upto xml)
unfolding upto previous_core
upto_xml = Earlier-snoc xml [] refl tt

upto_setup : All (λ p. Earlier p setup) (upto setup)
unfolding upto previous_core
upto_setup = Earlier-snoc setup (upto xml) refl upto_xml

upto_sharedlib_build : All (λ p. Earlier p sharedlib_build) (upto sharedlib_build)
unfolding upto previous_core
upto_sharedlib_build = Earlier-snoc sharedlib_build (upto setup) refl upto_setup

upto_model_build : All (λ p. Earlier p model_build) (upto model_build)
unfolding upto previous_core
upto_model_build = Earlier-snoc model_build (upto sharedlib_build) refl upto_sharedlib_build

upto_submit : All (λ p. Earlier p submit) (upto submit)
unfolding upto previous_core
upto_submit = Earlier-snoc submit (upto model_build) refl upto_model_build

upto_run : All (λ p. Earlier p run) (upto run)
unfolding upto previous_core
upto_run = Earlier-snoc run (upto submit) refl upto_submit

upto-Earlier : (q : Phase) → All (λ p. Earlier p q) (upto q)
unfolding upto
upto-Earlier xml = upto_xml
upto-Earlier setup = upto_setup
upto-Earlier sharedlib_build = upto_sharedlib_build
upto-Earlier model_build = upto_model_build
upto-Earlier submit = upto_submit
upto-Earlier run = upto_run
upto-Earlier _ = tt

module _ (o : Flags) (all : o.no_run ≡ false) (d : Phases) where
  status_from-append_fine :
      (ps qs : List Phase) (st : Progress)
      → is_pass st.rv ≡ true
      → all_fine o d ps ≡ true
      → (st' : Progress) × (is_pass st'.rv ≡ true)
        × (status_from o d (ps ++ qs) st ≡ status_from o d qs st')
  unfolding status_from all_fine fine_entry
  status_from-append_fine [] qs st h fine = (st, h, refl)
  status_from-append_fine (p ∷ ps) qs st h fine = elim (Option-cases (lookup p d)) [
    | inl e ↦
        let (st', h', e') = status_from-append_fine ps qs st h (ground arith) in
        (st', h', rw (e, status_from) e')
    | inr (x, e) ↦
        let (st', h', e') =
          status_from-append_fine ps qs (see_run p (blame p x.0 st))
            (ground (arith, rv-see_run o all p x.0 st)) (ground arith) in
        (
          st',
          h',
          rw (e, status_from)
              (rw (visit_fine o all p x.0 st (ground arith)) (unfold after_round in e')),
        )
  ]

  visit_core_fail :
      (q : Phase) (st : Progress) → is_core q ≡ true → visit o q Status.fail st ≡ failed q
  unfolding visit judge count_failure is_core is_pend is_fail Overall.ignored
  visit_core_fail create_newcase st h = ground arith
  visit_core_fail q st h = ground arith

  visit_core_pend :
      (q : Phase) (st : Progress)
      → is_core q ≡ true
      → is_pass st.rv ≡ true
      → visit o q Status.pend st
        ≡ stop (record (see_run q st) { rv = Overall.pend; responsible = some q })
  unfolding visit judge see_run blame is_pend is_fail
  visit_core_pend q st c h = ground arith

  -- The first core phase that has not passed decides.
  status_from-fail :
      (q : Phase) (qs : List Phase) (st : Progress)
      → is_core q ≡ true
      → get_status d q ≡ some Status.fail
      → status_from o d (q ∷ qs) st ≡ (Overall.fail, some q)
  unfolding status_from get_status after_round
  status_from-fail q qs st c e = ground (arith, visit_core_fail q st c)

  status_from-pend :
      (q : Phase) (qs : List Phase) (st : Progress)
      → is_core q ≡ true
      → is_pass st.rv ≡ true
      → get_status d q ≡ some Status.pend
      → status_from o d (q ∷ qs) st ≡ (Overall.pend, some q)
  unfolding status_from get_status after_round finish
  status_from-pend q qs st c h e = ground (arith, visit_core_pend q st c h)

  core_then :
      (q : Phase)
      → is_core q ≡ true
      → all_fine o d (upto q) ≡ true
      → (st : Progress) × (is_pass st.rv ≡ true)
        × (status_from o d core_phases start ≡ status_from o d (q ∷ beyond q) st)
  core_then q c fine =
      rw (core_phases-split q c) (status_from-append_fine (upto q) (q ∷ beyond q) start refl fine)

module _ (o : Flags) (all : o.no_run ≡ false) {d : Phases} (h : IsInProgress d) where
  fine_before : (p q : Phase) → Earlier p q → member q d ≡ true → fine_entry o p (lookup p d) ≡ true
  unfolding is_fine is_pend is_fail
  fine_before p q earlier m =
      fine_entry_of_status o d p (λ s e. ground (arith, IsInProgress-Earlier h earlier m))

  all_fine_before :
      (ps : List Phase) (q : Phase)
      → All (λ p. Earlier p q) ps
      → member q d ≡ true
      → all_fine o d ps ≡ true
  unfolding all_fine
  all_fine_before [] q earlier m = refl
  all_fine_before (p ∷ ps) q earlier m =
      ground (arith, fine_before p q earlier.0 m, all_fine_before ps q earlier.1 m)

  upto_fine : (q : Phase) → member q d ≡ true → all_fine o d (upto q) ≡ true
  upto_fine q m = all_fine_before (upto q) q (upto-Earlier q) m

  core_decides :
      (q : Phase) (s : Status)
      → is_core q ≡ true
      → get_status d q ≡ some s
      → (s ≡ Status.fail → overall_status o d ≡ (Overall.fail, some q))
        × (s ≡ Status.pend → overall_status o d ≡ (Overall.pend, some q))
  unfolding overall_status
  core_decides q s c e =
      let m = member_of_status d q s e in
      let (st, open_still, from_q) = core_then o all d q c (upto_fine q m) in
      (
        λ f. ground (arith, from_q, status_from-fail o all d q (beyond q) st c (rw f at e)),
        λ f.
            ground
              (arith, from_q, status_from-pend o all d q (beyond q) st c open_still (rw f at e)),
      )

-- With `no_run` off, for an object that started without phases and took calls of `set_status` none of
-- which skipped a core phase: if a core phase has failed, the overall status is FAIL, if a core phase
-- is pending, it is PEND, and that phase is the one responsible, whatever the other phases say.
pub Run-core_decides :
    (o : Flags) (ts : TestStatus) (q : Phase) (s : Status)
    → o.no_run ≡ false
    → Run ts
    → is_core q ≡ true
    → get_status ts.phase_statuses q ≡ some s
    → (s ≡ Status.fail → overall_status o ts.phase_statuses ≡ (Overall.fail, some q))
      × (s ≡ Status.pend → overall_status o ts.phase_statuses ≡ (Overall.pend, some q))
Run-core_decides o ts q s all r c e = core_decides o all (Run-IsInProgress r) q s c e
