-- ===== src/TestStatus/Phase.antt =====
-- scripts/lib/CIME/test_status.py: the statuses and phases, and the lists of them.
-- A phase of the source is a text. Here it is one constructor for each text of ALL_PHASES;
-- `compare s` stands for "COMPARE" followed by `s` (so `compare []` is COMPARE itself), and `other`
-- for a text that is no phase. `phase_name` and `phase_of_name` go between the two.
use cime.Common.{
  ℕ, zero, suc, Text, ◌≡◌, refl, ◌↔◌, Bool, true, false, ◌&&◌, Option, none, some, List, [], ◌∷◌,
  arith, Equality, ◌==◌, nat_eq, list_eq, list_beq_iff, drop, index, get_elem?, contains,
}

pub data Status : Type 0 where
  pend pass fail : Status
  -- a text that is not in ALL_PHASE_STATUSES
  unknown : Text → Status

pub data Phase : Type 0 where
  create_newcase xml setup namelist sharedlib_build model_build submit run : Phase
  throughput memcomp memleak starchive baseline generate : Phase
  compare : Text → Phase
  other : Text → Phase

abbrev pub all_phases : List Phase
all_phases =
    create_newcase
    ∷ xml
    ∷ setup
    ∷ namelist
    ∷ sharedlib_build
    ∷ model_build
    ∷ submit
    ∷ run
    ∷ compare []
    ∷ baseline
    ∷ throughput
    ∷ memcomp
    ∷ memleak
    ∷ starchive
    ∷ generate
    ∷ []

abbrev pub core_phases : List Phase
core_phases = create_newcase ∷ xml ∷ setup ∷ sharedlib_build ∷ model_build ∷ submit ∷ run ∷ []

-- The place of a constructor and the text that it carries, to compare phases by.
phase_tag : Phase → ℕ
phase_tag create_newcase = 0
phase_tag xml = 1
phase_tag setup = 2
phase_tag namelist = 3
phase_tag sharedlib_build = 4
phase_tag model_build = 5
phase_tag submit = 6
phase_tag run = 7
phase_tag throughput = 8
phase_tag memcomp = 9
phase_tag memleak = 10
phase_tag starchive = 11
phase_tag baseline = 12
phase_tag generate = 13
phase_tag (compare s) = 14
phase_tag (other s) = 15

phase_text : Phase → Text
phase_text (compare s) = s
phase_text (other s) = s
phase_text _ = []

unfoldable pub phase_beq : Phase → Phase → Bool
unfolding phase_tag phase_text
phase_beq p q = phase_tag p == phase_tag q && phase_text p == phase_text q

pub phase_beq_iff : (p q : Phase) → (phase_beq p q ≡ true) ↔ (p ≡ q)
unfolding phase_beq
phase_beq_iff p q = ground (arith, list_beq_iff (phase_text p) (phase_text q))

instance abbrev pub phase_eq : Equality Phase
phase_eq = record { same = phase_beq; same_iff = phase_beq_iff }

-- phase in ALL_PHASES or phase.startswith(COMPARE_PHASE)
unfoldable pub is_phase : Phase → Bool
is_phase (other s) = false
is_phase _ = true

-- phase.startswith(COMPARE_PHASE)
unfoldable pub is_compare : Phase → Bool
is_compare (compare s) = true
is_compare _ = false

-- status in ALL_PHASE_STATUSES
unfoldable pub is_status : Status → Bool
is_status (unknown s) = false
is_status _ = true

unfoldable pub is_pass : Status → Bool
is_pass pass = true
is_pass _ = false

unfoldable pub is_pend : Status → Bool
is_pend pend = true
is_pend _ = false

unfoldable pub is_fail : Status → Bool
is_fail fail = true
is_fail _ = false

-- phase in CORE_PHASES
unfoldable pub is_core : Phase → Bool
unfolding phase_beq
is_core = contains core_phases

-- CORE_PHASES[CORE_PHASES.index(phase) - 1], where phase is in CORE_PHASES and is not the first.
unfoldable pub previous_core : Phase → Option Phase
unfolding phase_beq
previous_core phase = elim (index core_phases phase) [
  | none ↦ none
  | some i ↦ elim i [ zero ↦ none | suc j ↦ get_elem? core_phases j ]
]

-- CORE_PHASES[CORE_PHASES.index(phase) + 1], where phase is in CORE_PHASES and is not the last.
unfoldable pub next_core : Phase → Option Phase
unfolding phase_beq
next_core phase = elim (index core_phases phase) [
  | none ↦ none
  | some i ↦ get_elem? core_phases (suc i)
]

-- ALL_PHASES[phase_idx+1:]
unfoldable pub phases_after : Phase → List Phase
unfolding phase_beq
phases_after phase = elim (index all_phases phase) [ none ↦ [] | some i ↦ drop (suc i) all_phases ]

pub is_core_lem : (phase : Phase) → is_core phase ≡ contains core_phases phase
unfolding is_core
is_core_lem phase = refl
