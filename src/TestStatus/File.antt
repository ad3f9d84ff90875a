-- ===== src/TestStatus/File.antt =====
-- The TestStatus file: `phase_statuses_dump`, `flush` and `_parse_test_status` of
-- scripts/lib/CIME/test_status.py, and the expected failures of scripts/lib/CIME/expected_fails.py
-- that a dump is annotated with.
use cime.Common.{
  Text, text, Bool, true, false, ◌&&◌, ◌||◌, not, Option, none, some, List, [], ◌∷◌, ◌++◌, Result,
  ok, err, expect, ◌>>=◌, ◌>>◌, if◌then◌else◌, ◌==◌, contains, is_nil, nat_eq, list_eq,
}
use cime.Common.Dict.{Dict, lookup, insert, member}
use cime.Common.Words.{split, strip, join, splitlines}
use cime.TestStatus.Phase.{
  Status, Phase, pend, pass, fail, unknown, create_newcase, xml, setup, namelist, sharedlib_build,
  model_build, submit, run, throughput, memcomp, memleak, starchive, baseline, generate, compare,
  other, is_phase, is_status, is_pass, phase_eq,
}
use cime.TestStatus.State.{
  Phases, Entry, TestStatus, Error, no_test_name, invalid_phase, invalid_status, inconsistent_name,
  repeated_phase,
}

unfoldable pub status_name : Status → Text
status_name pend = text "PEND"
status_name pass = text "PASS"
status_name fail = text "FAIL"
status_name (unknown s) = s

unfoldable pub status_of_name : Text → Status
status_of_name s =
    if s == text "PEND"
    then pend
    else if s == text "PASS"
    then pass
    else if s == text "FAIL"
    then fail
    else unknown s

unfoldable pub phase_name : Phase → Text
phase_name create_newcase = text "CREATE_NEWCASE"
phase_name xml = text "XML"
phase_name setup = text "SETUP"
phase_name namelist = text "NLCOMP"
phase_name sharedlib_build = text "SHAREDLIB_BUILD"
phase_name model_build = text "MODEL_BUILD"
phase_name submit = text "SUBMIT"
phase_name run = text "RUN"
phase_name throughput = text "TPUTCOMP"
phase_name memcomp = text "MEMCOMP"
phase_name memleak = text "MEMLEAK"
phase_name starchive = text "SHORT_TERM_ARCHIVER"
phase_name baseline = text "BASELINE"
phase_name generate = text "GENERATE"
phase_name (compare s) = text "COMPARE" ++ s
phase_name (other s) = s

-- The phases whose name is one text.
abbrev named_phases : List Phase
named_phases =
    create_newcase ∷ xml ∷ setup ∷ namelist ∷ sharedlib_build ∷ model_build ∷ submit ∷ run
    ∷ throughput ∷ memcomp ∷ memleak ∷ starchive ∷ baseline ∷ generate ∷ []

-- What follows a prefix, if the text starts with it.
unfoldable pub strip_prefix : Text → Text → Option Text
strip_prefix [] s = some s
strip_prefix (c ∷ p) [] = none
strip_prefix (c ∷ p) (d ∷ s) = let rest = strip_prefix p s in if c == d then rest else none

unfoldable pub find_phase : List Phase → Text → Option Phase
unfolding phase_name
find_phase [] s = none
find_phase (p ∷ ps) s = let rest = find_phase ps s in if phase_name p == s then some p else rest

unfoldable pub phase_of_name : Text → Phase
unfolding find_phase strip_prefix
phase_of_name s = elim (find_phase named_phases s) [
  | some p ↦ p
  | none ↦ elim (strip_prefix (text "COMPARE") s) [ none ↦ other s | some rest ↦ compare rest ]
]

-- ExpectedFails._fails
abbrev pub Fails : Type 0
Fails = Dict Phase Status

-- add_failure
unfoldable pub add_failure : Fails → Phase → Status → Result Error Fails
unfolding member insert
add_failure fails phase expected = do
  expect (not (member phase fails)) (repeated_phase phase)
  ok (insert phase expected fails)

-- expected_fails_comment
unfoldable pub expected_fails_comment : Fails → Phase → Status → Text
unfolding status_name lookup
expected_fails_comment fails phase status = elim (lookup phase fails) [
  | none ↦ []
  | some expected ↦
      if status_name expected == status_name status
      then text "(EXPECTED FAILURE)"
      else text "(UNEXPECTED" ++ (text ": expected " ++ (status_name expected ++ text ")"))
]

-- The arguments of `phase_statuses_dump`.
pub record Dump : Type 0 where
  pub prefix : Text
  pub skip_passes : Bool
  pub skip_phase_list : List Phase
  pub xfails : Fails

abbrev pub plain : Dump
plain = record { prefix = []; skip_passes = false; skip_phase_list = []; xfails = [] }

-- " {}".format(comment), for a comment that is there
unfoldable pub spaced : Text → Text
spaced [] = []
spaced (c ∷ s) = 32 ∷ c ∷ s

-- One round of the loop: the text that it adds to `result`.
unfoldable pub dump_line : Dump → Text → Phase → Entry → Text
unfolding spaced
dump_line o name phase e =
    let comment = expected_fails_comment o.xfails phase e.0 in
    if contains o.skip_phase_list phase || (o.skip_passes && is_pass e.0 && is_nil comment)
    then []
    else o.prefix
      ++ (status_name e.0
          ++ 32 ∷ (name ++ 32 ∷ (phase_name phase ++ (spaced e.1 ++ (spaced comment ++ 10 ∷ [])))))

unfoldable pub dump_lines : Dump → Text → Phases → Text
unfolding dump_line
dump_lines o name [] = []
dump_lines o name ((phase, e) ∷ d) = dump_line o name phase e ++ dump_lines o name d

-- str(self._test_name)
unfoldable pub shown_name : Option Text → Text
shown_name none = text "None"
shown_name (some name) = name

unfoldable pub phase_statuses_dump : Dump → TestStatus → Text
unfolding dump_lines shown_name
phase_statuses_dump o ts = dump_lines o (shown_name ts.test_name) ts.phase_statuses

-- flush: the file's text, if there is a file, after it.
unfoldable pub flush : TestStatus → Option Text → Option Text
flush ts file =
    if not (is_nil ts.phase_statuses) && not ts.no_io
    then some (phase_statuses_dump plain ts)
    else file

-- The name that the line's second word must be.
unfoldable pub same_name : Option Text → Text → Bool
same_name none name = true
same_name (some expected) name = expected == name

-- A line of at least three words.
unfoldable pub parse_entry : TestStatus → Text → Text → Text → List Text → Result Error TestStatus
parse_entry ts status_word name phase_word comments =
    let status = status_of_name status_word in
    let phase = phase_of_name phase_word in
    do
      expect (same_name ts.test_name name) (inconsistent_name (shown_name ts.test_name) name)
      expect (is_status status) (invalid_status status)
      expect (is_phase phase) (invalid_phase phase)
      expect (not (member phase ts.phase_statuses)) (repeated_phase phase)
      ok (record ts {
        test_name = some name;
        phase_statuses = insert phase (status, join (32 ∷ []) comments) ts.phase_statuses;
      })

-- One line: a line that has other than no word or at least three is passed over with a warning.
unfoldable pub parse_words : TestStatus → List Text → Result Error TestStatus
parse_words ts (status ∷ name ∷ phase ∷ comments) = parse_entry ts status name phase comments
parse_words ts _ = ok ts

unfoldable pub parse_line : TestStatus → Text → Result Error TestStatus
parse_line ts line =
    let stripped = strip line in if is_nil stripped then ok ts else parse_words ts (split stripped)

unfoldable pub parse_lines : TestStatus → List Text → Result Error TestStatus
parse_lines ts [] = ok ts
parse_lines ts (line ∷ lines) = do next ← parse_line ts line; parse_lines next lines

-- _parse_test_status
unfoldable pub parse_test_status : TestStatus → Text → Result Error TestStatus
parse_test_status ts contents = parse_lines ts (splitlines contents)

-- What __init__ sets up before it reads the file.
abbrev pub blank : Bool → Option Text → TestStatus
blank no_io test_name = record {
  phase_statuses = [];
  test_name = test_name;
  ok_to_modify = false;
  no_io = no_io;
}

-- __init__: `file` is the text of the TestStatus file, if it exists, and `writable` what
-- os.access says of it.
unfoldable pub init : Option Text → Bool → Bool → Option Text → Result Error TestStatus
init none writable no_io none = err no_test_name
init none writable no_io (some name) = ok (blank no_io (some name))
init (some contents) writable no_io test_name = do
  ts ← parse_test_status (blank no_io test_name) contents
  ok (if writable then ts else record ts { no_io = true })
