-- ===== src/Scheduler/Abort.antt =====
-- scripts/lib/CIME/test_scheduler.py: "By the end of this constructor, this program should never hard
-- abort".
use cime.Common.{ℕ, Text, ◌≡◌, true, false, some, List, contains, list_eq, nat_eq, IsOk}
use cime.Common.Dict.{lookup}
use cime.Scheduler.Threads.{Outcome, Thread, State, visit_test, consumer}
use cime.Scheduler.Steps.{Reach}
use cime.Scheduler.Setup.{
  Options, Machine, make_env, build_cost, make_env-IsBuilt, make_env-IsGrouped,
}
use cime.Scheduler.Producer.{Reach-visit_test}
use cime.Scheduler.Manned.{Reach-consumer}

-- For a model other than E3SM, whatever the options and the machine are: in every state that the
-- scheduler reaches, a visit of the producer to one of the tests does not raise, nor does the end of
-- a thread that is alive.
pub Reach-make_env :
    (options : Options) (machine : Machine) (tests : ℕ) (names : List Text) {σ : State}
    → machine.is_e3sm ≡ false
    → Reach (make_env options machine tests names) names (build_cost machine) σ
    → ((test : Text)
        → contains names test ≡ true
        → IsOk (visit_test (make_env options machine tests names) σ test))
      × ((test : Text) (t : Thread) (o ro : Outcome)
          → lookup test σ.flight ≡ some t
          → t.alive ≡ true
          → IsOk (consumer (make_env options machine tests names) σ.sched test t.phase o ro))
Reach-make_env options machine tests names alone reached =
    let built = make_env-IsBuilt options machine tests names in
    let grouped = make_env-IsGrouped options machine tests names alone in
    (Reach-visit_test built grouped reached, Reach-consumer built grouped reached)
