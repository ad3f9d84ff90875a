-- ===== src/TestStatus/RoundTrip.antt =====
-- The TestStatus file: what `flush` writes of an object whose phases, name and comments the format of
-- the file can hold, and what a new object reads of it.
use cime.Common.{
  Text, ◌≡◌, refl, sym, ap, subst, ◌∙◌, true, false, Option, some, List, [], ◌∷◌, ◌++◌, ok, All,
  is_nil, nat_eq, list_beq_iff, arith,
}
use mathlib.Core.List.{append_assoc}
use cime.Common.Dict.{lookup, member}
use cime.Common.Dict.Distinct.{distinct, insert_new, member-snoc}
use cime.Common.Words.{is_space, split, strip, join, splitlines}
use cime.Common.Words.Laws.{
  IsWord, split-join, split-IsWord, split-strip, join-NoLineEnd, splitlines-line,
}
use cime.TestStatus.Phase.{
  Status, Phase, unknown, compare, other, is_phase, is_status, phase_eq, phase_beq_iff,
}
use cime.TestStatus.State.{Phases, Entry, TestStatus}
use cime.TestStatus.File.{
  status_name, status_of_name, phase_name, phase_of_name, plain, dump_line, dump_lines, spaced,
  expected_fails_comment, phase_statuses_dump, flush, parse_entry, parse_words, parse_line,
  parse_lines, parse_test_status, same_name, blank, init, shown_name,
}

-- A comment that is words joined by single blanks, as `" ".join(tokens[3:])` is.
abbrev pub IsComment : Text → Type 0
IsComment c = join (32 ∷ []) (split c) ≡ c

-- The phase and the status are known ones, a COMPARE phase has a name of one word, and the comment
-- is regular.
pub record IsStorable (p : Phase × Entry) : Type 0 where
  pub phase_known : is_phase p.0 ≡ true
  pub status_known : is_status p.1.0 ≡ true
  pub one_word : IsWord (phase_name p.0)
  pub comment : IsComment p.1.1

-- Phases that a file can hold: storable ones, each once.
pub record IsDurable (d : Phases) : Type 0 where
  pub storable : All IsStorable d
  pub once : distinct d ≡ true

pub phase_of_name-phase_name : (p : Phase) → is_phase p ≡ true → phase_of_name (phase_name p) ≡ p
unfolding phase_of_name is_phase
phase_of_name-phase_name (compare s) h = refl
phase_of_name-phase_name (other s) h = cc
phase_of_name-phase_name p h = refl

status_of_name-status_name : (s : Status) → is_status s ≡ true → status_of_name (status_name s) ≡ s
unfolding status_of_name status_name is_status
status_of_name-status_name (unknown s) h = cc
status_of_name-status_name s h = refl

status-IsWord : (s : Status) → is_status s ≡ true → IsWord (status_name s)
unfolding status_name is_status is_space
status-IsWord (unknown s) h = cc
status-IsWord s h = (refl, (refl, (refl, (refl, (refl, tt)))))

-- The words of a line, and the line feed.
abbrev line_of : List Text → Text
line_of ws = join (32 ∷ []) ws ++ 10 ∷ []

spaced_words :
    (w : Text) (ws : List Text)
    → All IsWord ws
    → w ++ (spaced (join (32 ∷ []) ws) ++ 10 ∷ []) ≡ line_of (w ∷ ws)
unfolding spaced join
spaced_words w [] h = refl
spaced_words w ([] ∷ ws) h = cc (h.0.0)
spaced_words w ((c ∷ v) ∷ []) h = sym (append_assoc w (32 ∷ c ∷ v) (10 ∷ []))
spaced_words w ((c ∷ v) ∷ u ∷ us) h =
    sym (append_assoc w (32 ∷ join (32 ∷ []) ((c ∷ v) ∷ u ∷ us)) (10 ∷ []))

spaced_comment : (w c : Text) → IsComment c → w ++ (spaced c ++ 10 ∷ []) ≡ line_of (w ∷ split c)
spaced_comment w c h =
    subst (λ x. w ++ (spaced x ++ 10 ∷ []) ≡ line_of (w ∷ split c)) h
      (spaced_words w (split c) (split-IsWord c))

line_of-cons : (w v : Text) (ws : List Text) → w ++ 32 ∷ line_of (v ∷ ws) ≡ line_of (w ∷ v ∷ ws)
unfolding join
line_of-cons w v ws = sym (append_assoc w (32 ∷ join (32 ∷ []) (v ∷ ws)) (10 ∷ []))

abbrev words_of : Text → Phase × Entry → List Text
words_of name p = status_name p.1.0 ∷ name ∷ phase_name p.0 ∷ split p.1.1

words_of-IsWord :
    (name : Text) (p : Phase × Entry) → IsWord name → IsStorable p → All IsWord (words_of name p)
words_of-IsWord name p n h =
    (status-IsWord p.1.0 h.status_known, (n, (h.one_word, split-IsWord p.1.1)))

dump_line_lem :
    (name : Text) (p : Phase × Entry)
    → IsStorable p
    → dump_line plain name p.0 p.1 ≡ line_of (words_of name p)
unfolding dump_line expected_fails_comment lookup
dump_line_lem name p h =
    rw (spaced_comment (phase_name p.0) p.1.1 h.comment)
      (rw line_of-cons (line_of-cons (status_name p.1.0) name _))

split_nil : (t : Text) → is_nil t ≡ true → split t ≡ []
unfolding split
split_nil [] h = refl
split_nil (c ∷ t) h = cc

parse_line-words :
    (ts : TestStatus) (line w : Text) (ws : List Text)
    → split line ≡ w ∷ ws
    → parse_line ts line ≡ parse_words ts (w ∷ ws)
unfolding parse_line
parse_line-words ts line w ws e = ground (arith, split-strip line, split_nil (strip line))

parse_entry_lem :
    (ts : TestStatus) (name : Text) (p : Phase × Entry)
    → IsStorable p
    → same_name ts.test_name name ≡ true
    → member p.0 ts.phase_statuses ≡ false
    → parse_entry ts (status_name p.1.0) name (phase_name p.0) (split p.1.1)
      ≡ ok (record ts {
        test_name = some name;
        phase_statuses = ts.phase_statuses ++ (p.0, p.1) ∷ [];
      })
unfolding parse_entry
parse_entry_lem ts name p h named fresh = ground (
  arith,
  h.comment,
  phase_of_name-phase_name p.0 h.phase_known,
  status_of_name-status_name p.1.0 h.status_known,
  insert_new p.0 p.1 ts.phase_statuses fresh,
)

-- A line that was written is read back as its entry.
parse_line_lem :
    (ts : TestStatus) (name : Text) (p : Phase × Entry)
    → IsWord name
    → IsStorable p
    → same_name ts.test_name name ≡ true
    → member p.0 ts.phase_statuses ≡ false
    → parse_line ts (join (32 ∷ []) (words_of name p))
      ≡ ok (record ts {
        test_name = some name;
        phase_statuses = ts.phase_statuses ++ (p.0, p.1) ∷ [];
      })
unfolding parse_words
parse_line_lem ts name p n h named fresh =
    parse_line-words ts (join (32 ∷ []) (words_of name p)) (status_name p.1.0)
      (name ∷ phase_name p.0 ∷ split p.1.1)
      (split-join (words_of name p) (words_of-IsWord name p n h))
    ∙ parse_entry_lem ts name p h named fresh

-- No phase of the rest has an entry yet.
abbrev AllNew : Phases → Phases → Type 0
AllNew d = All (λ p. member p.0 d ≡ false)

AllNew-snoc :
    (d rest : Phases) (p : Phase) (e : Entry)
    → member p rest ≡ false
    → AllNew d rest
    → AllNew (d ++ (p, e) ∷ []) rest
unfolding member lookup
AllNew-snoc d [] p e absent h = tt
AllNew-snoc d ((q, x) ∷ rest) p e absent h = (
  ground (arith, member-snoc p q e d, phase_beq_iff p q, phase_beq_iff q p, h.0),
  AllNew-snoc d rest p e (ground arith) h.1,
)

abbrev with_phases : TestStatus → Text → Phases → TestStatus
with_phases ts name d = record ts { test_name = some name; phase_statuses = d }

same_name_self : (name : Text) → same_name (some name) name ≡ true
unfolding same_name
same_name_self name = (list_beq_iff name name).1 refl

lines-dump :
    (name : Text) (p : Phase × Entry) (rest : Phases)
    → IsWord name
    → IsStorable p
    → splitlines (dump_lines plain name (p ∷ rest))
      ≡ join (32 ∷ []) (words_of name p) ∷ splitlines (dump_lines plain name rest)
unfolding dump_lines
lines-dump name p rest n h =
    let line = join (32 ∷ []) (words_of name p) in
    ap (λ t. splitlines (t ++ dump_lines plain name rest)) (dump_line_lem name p h)
    ∙ ap splitlines (append_assoc line (10 ∷ []) (dump_lines plain name rest))
    ∙ splitlines-line line (dump_lines plain name rest)
        (join-NoLineEnd (words_of name p) (words_of-IsWord name p n h))

-- Reading the lines of a dump adds the entries in order.
parse_dump :
    (name : Text) (p : Phase × Entry) (rest : Phases) (ts : TestStatus)
    → IsWord name
    → All IsStorable (p ∷ rest)
    → distinct (p ∷ rest) ≡ true
    → AllNew ts.phase_statuses (p ∷ rest)
    → same_name ts.test_name name ≡ true
    → parse_lines ts (splitlines (dump_lines plain name (p ∷ rest)))
      ≡ ok (with_phases ts name (ts.phase_statuses ++ p ∷ rest))
unfolding parse_lines distinct
parse_dump name p [] ts n h dist new named =
    rw (lines-dump name p [] n h.0)
      (rw (parse_line_lem ts name p n h.0 named new.0) (unfold dump_lines splitlines in refl))
parse_dump name p (q ∷ rest) ts n h dist new named = rw (lines-dump name p (q ∷ rest) n h.0) (
    rw (parse_line_lem ts name p n h.0 named new.0) (
      parse_dump name q rest (with_phases ts name (ts.phase_statuses ++ p ∷ [])) n h.1
        (ground arith) (AllNew-snoc ts.phase_statuses (q ∷ rest) p.0 p.1 (ground arith) new.1)
        (same_name_self name)
      ∙ ap (λ d. ok (with_phases ts name d)) (append_assoc ts.phase_statuses (p ∷ []) (q ∷ rest))))

AllNew-nil : (rest : Phases) → AllNew [] rest
AllNew-nil [] = tt
AllNew-nil (p ∷ rest) = (unfold member lookup in refl, AllNew-nil rest)

-- What a TestStatus object must be for its file to hold it: it has phases, a file can hold them, and
-- its test has a name of one word.
pub record IsKept (ts : TestStatus) (name : Text) : Type 0 where
  pub named : ts.test_name ≡ some name
  pub name_word : IsWord name
  pub some_phase : is_nil ts.phase_statuses ≡ false
  pub durable : IsDurable ts.phase_statuses

parse_kept :
    (d : Phases) (blank : TestStatus) (name : Text)
    → IsWord name
    → is_nil d ≡ false
    → All IsStorable d
    → distinct d ≡ true
    → blank.phase_statuses ≡ []
    → same_name blank.test_name name ≡ true
    → parse_test_status blank (dump_lines plain name d) ≡ ok (with_phases blank name d)
unfolding parse_test_status
parse_kept [] blank name n full h once empty named = cc
parse_kept (p ∷ d) blank name n full h once empty named =
    parse_dump name p d blank n h once
      (subst (λ x. AllNew x (p ∷ d)) (sym empty) (AllNew-nil (p ∷ d))) named
    ∙ rw empty

-- An object is written with `flush` and its file read by a new object, where the writer has `no_io`
-- off, a test name of one word and at least one phase; its phases are known ones, each there once,
-- with known statuses, and a COMPARE phase has a name of one word; each comment is words joined by
-- single blanks, so it has no newline and no two blanks in a row; and the file can be written when
-- the new object is made, with `no_io` off and with the writer's test name or none given. Then the
-- new object has the name and the phases in their order, with their statuses and comments; it has
-- `no_io` off and cannot be modified yet.
pub init-flush :
    (ts : TestStatus) (name : Text) (file : Option Text) (given : Option Text)
    → IsKept ts name
    → ts.no_io ≡ false
    → same_name given name ≡ true
    → init (flush ts file) true false given ≡ ok (record ts { ok_to_modify = false })
unfolding init flush phase_statuses_dump shown_name
init-flush ts name file given kept io same =
    rw (kept.some_phase, io, kept.named)
      (rw (
        parse_kept ts.phase_statuses (blank false given) name kept.name_word kept.some_phase
          kept.durable.storable kept.durable.once refl same))
