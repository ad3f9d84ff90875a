-- ===== src/SimpleCompare.antt =====
-- scripts/lib/CIME/simple_compare.py: the comparison of two text files, line by line.
pub mod Normal
pub mod Match
pub mod Tests
use cime.Common.{
  ℕ, zero, suc, ◌+◌, ◌-◌, Text, text, Bool, true, false, ◌&&◌, ◌||◌, not, Option, none, some, List,
  [], ◌∷◌, ◌++◌, if◌then◌else◌, Result, ok, err, ltb, leb, ◌==◌, nat_eq, list_eq, is_nil, contains,
  length,
}
use cime.Common.Lists.{take, drop}
use cime.Common.Words.{strip, join}
use cime.SimpleCompare.Normal.{normalize_string_value}

-- The line is a comment or blank.
unfoldable pub is_idle : Text → Bool
unfolding strip
is_idle line = elim (strip line) [ [] ↦ true | c ∷ _ ↦ c == b'#' || c == b'!' ]

-- The index of the next line with data, and the lines from it on.
unfoldable pub skip_comments_and_whitespace : ℕ → List Text → ℕ × List Text
unfolding is_idle
skip_comments_and_whitespace idx [] = (idx, [])
skip_comments_and_whitespace idx (line ∷ lines) =
    let next = skip_comments_and_whitespace (suc idx) lines in
    if is_idle line then next else (idx, line ∷ lines)

-- line.strip().replace('"', "'")
unfoldable pub single_quotes : Text → Text
single_quotes [] = []
single_quotes (c ∷ s) = (if c == b'"' then b'\'' else c) ∷ single_quotes s

unfoldable pub value_of : Text → Text
unfolding strip single_quotes
value_of line = single_quotes (strip line)

-- The two lines of the comment on a difference.
unfoldable pub difference : Text → Text → Text → Text → Text
difference gold comp norm_gold norm_comp =
    text "Inequivalent lines "
    ++ (gold
        ++ (text " != "
            ++ (comp
                ++ (text "\n  NORMALIZED: "
                    ++ (norm_gold ++ (text " != " ++ (norm_comp ++ text "\n")))))))

-- The comments with the count of the differences.
pub record Report : Type 0 where
  pub comments : Text
  pub cnt : ℕ

-- Whether the gold lines and the lines to compare go on after two values: after a difference, the
-- offset method goes on in the longer file only.
unfoldable pub moves : Bool → Bool → Bool → Bool × Bool
moves offset_method longer_gold differs =
    if offset_method && differs then (longer_gold, not longer_gold) else (true, true)

unfoldable pub ahead : Bool → List Text → List Text
ahead true lines = drop 1 lines
ahead false lines = lines

-- What is reported on two lines with data.
unfoldable pub report_on : Option Text → Text → Text → Report
unfolding value_of normalize_string_value difference
report_on case gold comp =
    let norm_gold = normalize_string_value case (value_of gold) in
    let norm_comp = normalize_string_value case (value_of comp) in
    if norm_gold == norm_comp then record { comments = []; cnt = 0 } else record {
      comments = difference (value_of gold) (value_of comp) norm_gold norm_comp;
      cnt = 1;
    }

unfoldable pub extra_lines : List Text → Report
unfolding join
extra_lines lines = record {
  comments = text "Found extra lines\n" ++ (join (text "\n") lines ++ text "\n");
  cnt = 0;
}

-- gold_lines[gidx:1]
unfoldable pub missing_lines : ℕ → List Text → Report
unfolding join
missing_lines gidx lines = record {
  comments = text "Missing lines\n" ++ (join (text "\n") (take (1 - gidx) lines) ++ text "\n");
  cnt = 0;
}

unfoldable pub add : Report → Report → Report
add first later = record {
  comments = first.comments ++ later.comments;
  cnt = first.cnt + later.cnt;
}

-- A round of the loop, from lines that do not start with a comment: `go` is the loop.
unfoldable pub compare_at :
    Option Text
    → Bool
    → Bool
    → (ℕ → List Text → List Text → Report)
    → ℕ
    → List Text
    → List Text
    → Report
unfolding extra_lines missing_lines report_on add moves ahead
compare_at case offset_method longer_gold go i [] [] = record { comments = []; cnt = 0 }
compare_at case offset_method longer_gold go i [] (c ∷ cs) = extra_lines (c ∷ cs)
compare_at case offset_method longer_gold go i (g ∷ gs) [] = missing_lines i (g ∷ gs)
compare_at case offset_method longer_gold go i (g ∷ gs) (c ∷ cs) =
    let here = report_on case g c in
    let on = moves offset_method longer_gold (not (here.cnt == 0)) in
    add here (go (if on.0 then suc i else i) (ahead on.0 (g ∷ gs)) (ahead on.1 (c ∷ cs)))

-- The loop, from the lines that are left.
unfoldable pub compare_lines : Option Text → Bool → Bool → ℕ → ℕ → List Text → List Text → Report
unfolding skip_comments_and_whitespace compare_at
compare_lines case offset_method longer_gold zero gidx gold comp = record { comments = []; cnt = 0 }
compare_lines case offset_method longer_gold (suc fuel) gidx gold comp =
    let (i, gs) = skip_comments_and_whitespace gidx gold in
    compare_at case offset_method longer_gold (compare_lines case offset_method longer_gold fuel) i
      gs (skip_comments_and_whitespace 0 comp).1

unfoldable pub compare_data : List Text → List Text → Option Text → Bool → Report
unfolding compare_lines
compare_data gold_lines comp_lines case offset_method =
    compare_lines case offset_method (ltb (length comp_lines) (length gold_lines))
      (suc (length gold_lines + length comp_lines)) 0 gold_lines comp_lines

-- The lines of the files, none for a file that is not there: err is the CIMEError.
unfoldable pub compare_files :
    Option (List Text) → Option (List Text) → Option Text → Result Text (Bool × Text)
unfolding compare_data
compare_files none compare_file case = err (text "File not found")
compare_files (some gold) none case = err (text "File not found")
compare_files (some gold) (some comp) case =
    let first = compare_data gold comp case false in
    let second = compare_data gold comp case true in
    let comments =
      if ltb 0 first.cnt && ltb second.cnt first.cnt then second.comments else first.comments in
    ok (is_nil comments, comments)
