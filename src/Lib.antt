-- ===== src/Lib.antt =====
-- CIME is the infrastructure that configures, builds, runs and tests an Earth system model. This library is
-- about parts of scripts/lib/CIME: its test system, its Fortran namelists, its comparison of files, the
-- layout of the tasks of a run, and dates.
--
-- How the parts interact. create_test makes a TestScheduler (test_scheduler.py), whose producer starts a
-- thread for each phase of each test; the thread calls a phase method, which works on the case with shell
-- commands and files, and writes the phase's status to the file TestStatus of the test through the class
-- TestStatus (test_status.py). The test itself, its batch job, wait_for_tests and cs_status read and write the
-- same file. A file of expected failures (expected_fails.py) is consulted when statuses are printed.
--
-- Files:
-- - Common: Python's operations on lists, strings and dictionaries, and `expect` of utils.py.
--   - Common.Dict is a dict or OrderedDict, as an association list in insertion order.
--   - Common.Words has str.split, str.strip, str.join and str.splitlines, over character codes.
--   - Common.Except: a function that may raise returns a Result, and `expect` is a step of it.
-- - TestStatus: scripts/lib/CIME/test_status.py and scripts/lib/CIME/expected_fails.py.
--   - Phase: the phases and statuses. A comparison phase carries its suffix, and a name that is no
--     phase is `other`, so that every string is the name of a phase value.
--   - State: the object. __enter__, __exit__, get_status, get_comment and set_status with its parts:
--     the check against core phases that have not passed, the invalidation of later phases when a core
--     phase is run again, and the PEND of the next core phase.
--   - Overall: get_overall_test_status, loop round by loop round.
--   - File: phase_statuses_dump, flush and _parse_test_status. The file system is an optional text.
--   - Entries, Effect, Progress, Verdict, Frontier, RoundTrip and Kept have the theorems.
-- - Scheduler: scripts/lib/CIME/test_scheduler.py.
--   - Setup: what the constructor derives from its arguments and from the machine.
--   - State: self._tests and the counters, _update_test_status and _get_test_status.
--   - Threads: _get_procs_needed, _consumer, one visit of the loop of _producer, and the collection
--     of ended threads in _wait_for_something_to_finish.
--   - Steps: the interleavings, as a step relation. A visit of the producer that starts or rejects a
--     test, the end of a thread, and a collection are steps that may come in any order, which includes
--     the orders that the loops of the program take.
--   - Rounds: the loops of _producer over these steps, threads ending at any moment of them.
--   - Entries, Procs, Flight, Launch, Pending, Order, Reached, NoRaise, Producer, Consumer, Manned,
--     Groups, Balance, Advance, Transition, Potential, Bound, Exit, Leave and Abort have the theorems.
-- - Aprun: scripts/lib/CIME/aprun.py, which lays the tasks of a model's components out on nodes. A case
--   calls it for its run command. Sections, Threads and Command have the theorems.
-- - Date: scripts/lib/CIME/date.py, the class date, with which the archiver compares files. Order has the
--   theorems.
-- - Macros: scripts/lib/CIME/BuildTools, the settings of the variables of a macros file. Setting is the class
--   ValueSetting, Values the class PossibleValues, Tree and Merge the class MacroConditionTree, and Writer the
--   calls that its write_out makes, with a reference definition of what a build does with the file. The other
--   modules have the theorems. Dictionaries keep their order, and the values of the variables that conditions
--   name do not change while the file is read. The writers for make and cmake are left out.
-- - Namelist: scripts/lib/CIME/namelist.py.
--   - Regex: the regular expressions that the module uses. The matcher by derivatives stands for `search`
--     of Python's re, and Regex.Complete and Regex.Sound let the proofs pass from it to the texts that a
--     pattern describes.
--   - Literals and Names: the functions of the module on literals, lists of literals and names of
--     variables. A name's index expression gives signed integers (Common.Int).
--   - Parser: the class _NamelistParser. A method is a function of the position; Parser.Cursor has the
--     position and the exceptions, Lexemes the names and literals, Values the values of a variable, Groups
--     the groups, files and `parse`. The dictionary that is built is passed from call to call. Leads,
--     Skips, Reads, Bounded, Total, Scan and Position have the theorems.
--   - Object: the class Namelist, with `self._groups` as an argument and a result. Object.Values has
--     set_variable_value and merge_nl, Object.Write the text that is written; Lookup, Get, Assign, Merge
--     and Lines have the theorems. `parse` gives the groups that the class holds.
-- - SimpleCompare: scripts/lib/CIME/simple_compare.py, with which a test compares its files with those of a
--   baseline. SimpleCompare.Normal has the normalization of a line, Match the theorem.
-- - NamelistCompare: scripts/lib/CIME/compare_namelists.py, the comparison of two files of namelists that have
--   been read. How Python prints a value and a type is a parameter. Agreement and Namelists have the theorem.
--
-- Bounds. Numbers are natural numbers without a limit, as Python's; the producer subtracts processors only
-- after it has compared them. The loops of _NamelistParser run on fuel, one more than the characters that are
-- left where the loop starts, since each round but the last reads a character. The constructor of
-- MacroConditionTree runs on fuel, one more than the conditions of its settings, of which each call takes one;
-- merge runs on the number of nodes of both trees. All other functions are structurally recursive. The
-- floating point divisions of aprun.py, rounded up or down, are divisions of natural numbers. The scheduler's
-- loop is a step relation, since it depends on threads.
--
-- Not modelled: what the phase methods do (their result is an outcome chosen freely), the clock, logs, the
-- race of two threads inside `+=`, the use of existing test directories, and single_exe. Of the rest of CIME
-- (case control, XML, the generation of namelists, the build, the system tests) nothing is modelled. Texts of
-- namelists are ASCII where the case of letters counts; opening files, and the conversion of literals to
-- Python values, which has floating point numbers, are left out. So are compare_runconfigfiles of
-- simple_compare.py and _parse_namelists of compare_namelists.py, which reads the lines of a file.
pub mod Aprun
pub mod Common
pub mod Date
pub mod Macros
pub mod Namelist
pub mod NamelistCompare
pub mod Scheduler
pub mod SimpleCompare
pub mod TestStatus
