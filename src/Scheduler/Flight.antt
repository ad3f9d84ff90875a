-- ===== src/Scheduler/Flight.antt =====
-- Collecting the threads that ended leaves those that are alive.
use cime.Common.{
  ◌≡◌, refl, Text, true, false, Option, none, some, [], ◌∷◌, if◌then◌else◌, list_eq, nat_eq,
  list_beq_iff, arith,
}
use cime.Common.Dict.{lookup, member}
use cime.Common.Dict.Distinct.{distinct}
use cime.Scheduler.Threads.{Thread, Flight, still_flying}

abbrev pub alive_only : Option Thread → Option Thread
alive_only none = none
alive_only (some t) = if t.alive then some t else none

pub lookup-still_flying :
    (flight : Flight) (test : Text)
    → distinct flight ≡ true
    → lookup test (still_flying flight) ≡ alive_only (lookup test flight)
unfolding lookup still_flying distinct member
lookup-still_flying [] test h = refl
lookup-still_flying ((j, u) ∷ flight) test h =
    ground (arith, lookup-still_flying flight test, list_beq_iff j test)

distinct_parts :
    (flight : Flight) (j : Text) (u : Thread)
    → distinct ((j, u) ∷ flight) ≡ true
    → (member j flight ≡ false) × (distinct flight ≡ true)
unfolding distinct
distinct_parts flight j u h = ground arith

member-still_flying :
    (flight : Flight) (j : Text)
    → distinct flight ≡ true
    → member j flight ≡ false
    → member j (still_flying flight) ≡ false
unfolding member
member-still_flying flight j h absent = ground (arith, lookup-still_flying flight j h)

pub distinct-still_flying :
    (flight : Flight) → distinct flight ≡ true → distinct (still_flying flight) ≡ true
unfolding distinct still_flying
distinct-still_flying [] h = refl
distinct-still_flying ((j, u) ∷ flight) h =
    ground (arith, member-still_flying flight j, distinct-still_flying flight)
