-- ===== src/SimpleCompare/Match.antt =====
-- scripts/lib/CIME/simple_compare.py: which files match.
use cime.Common.{
  ℕ, zero, suc, ◌+◌, ◌≤◌, ◌<◌, Text, Bool, true, false, ◌&&◌, Option, some, List, [], ◌∷◌, ◌++◌,
  if◌then◌else◌, ok, ◌==◌, nat_eq, list_eq, is_nil, length, ltb, ◌≡◌, refl, sym, ap, ◌∙◌, arith,
  Bool-cases, inl, inr,
}
use cime.SimpleCompare.{
  is_idle, skip_comments_and_whitespace, value_of, Report, moves, report_on, compare_at,
  compare_lines, compare_data, compare_files,
}
use cime.SimpleCompare.Normal.{normalize_string_value}

-- The values that count of a file: its lines that are no comments, normalized.
unfoldable pub values : Option Text → List Text → List Text
values case [] = []
values case (line ∷ lines) =
    let later = values case lines in
    if is_idle line then later else normalize_string_value case (value_of line) ∷ later

-- The first line, if any, is no comment.
abbrev HasData : List Text → Type 0
HasData [] = Unit
HasData (line ∷ lines) = is_idle line ≡ false

skip-values :
    (case : Option Text) (i : ℕ) (lines : List Text)
    → values case (skip_comments_and_whitespace i lines).1 ≡ values case lines
unfolding skip_comments_and_whitespace values
skip-values case i [] = refl
skip-values case i (line ∷ lines) = elim (Bool-cases (is_idle line)) [
  | inl idle ↦ rw idle (skip-values case (suc i) lines)
  | inr data_line ↦ rw data_line (rw data_line refl)
]

skip-HasData : (i : ℕ) (lines : List Text) → HasData (skip_comments_and_whitespace i lines).1
unfolding skip_comments_and_whitespace
skip-HasData i [] = tt
skip-HasData i (line ∷ lines) = elim (Bool-cases (is_idle line)) [
  | inl idle ↦ rw idle (skip-HasData (suc i) lines)
  | inr data_line ↦ rw data_line data_line
]

skip-length :
    (i : ℕ) (lines : List Text) → length (skip_comments_and_whitespace i lines).1 ≤ length lines
unfolding skip_comments_and_whitespace
skip-length i [] = omega arith
skip-length i (line ∷ lines) = elim (Bool-cases (is_idle line)) [
  | inl idle ↦ rw idle (omega (arith, skip-length (suc i) lines))
  | inr data_line ↦ rw data_line (omega arith)
]

report_same :
    (case : Option Text) (g c : Text)
    → (normalize_string_value case (value_of g) == normalize_string_value case (value_of c)) ≡ true
    → report_on case g c ≡ record { comments = []; cnt = 0 }
unfolding report_on
report_same case g c same = rw same refl

report_other :
    (case : Option Text) (g c : Text)
    → (normalize_string_value case (value_of g) == normalize_string_value case (value_of c)) ≡ false
    → is_nil (report_on case g c).comments ≡ false
unfolding report_on
report_other case g c other = rw other refl

moves_both :
    (offset_method longer_gold : Bool) → moves offset_method longer_gold false ≡ (true, true)
unfolding moves
moves_both true longer_gold = refl
moves_both false longer_gold = refl

is_nil-append : (xs ys : Text) → is_nil xs ≡ false → is_nil (xs ++ ys) ≡ false
is_nil-append [] ys full = cc
is_nil-append (x ∷ xs) ys full = refl

compare_at-values :
    (case : Option Text) (offset_method longer_gold : Bool)
    (go : ℕ → List Text → List Text → Report) (n : ℕ) (i : ℕ) (gold comp : List Text)
    → HasData gold
    → HasData comp
    → length gold + length comp ≤ n
    → ((j : ℕ) (gs cs : List Text)
        → length gs + length cs < n
        → is_nil (go j gs cs).comments ≡ (values case gs == values case cs))
    → is_nil (compare_at case offset_method longer_gold go i gold comp).comments
      ≡ (values case gold == values case comp)
unfolding compare_at values
compare_at-values case offset longer go n i [] [] gold_data comp_data enough after = refl
compare_at-values case offset longer go n i [] (c ∷ cs) gold_data comp_data enough after =
    rw comp_data refl
compare_at-values case offset longer go n i (g ∷ gs) [] gold_data comp_data enough after =
    rw gold_data refl
compare_at-values case offset longer go n i (g ∷ gs) (c ∷ cs) gold_data comp_data enough after =
    elim (Bool-cases
      (normalize_string_value case (value_of g) == normalize_string_value case (value_of c))) [
        | inl same ↦
            rw (report_same case g c same, moves_both offset longer, gold_data, comp_data, same)
              (after (suc i) gs cs (omega (arith, enough)))
        | inr other ↦
            is_nil-append (report_on case g c).comments _ (report_other case g c other)
            ∙ sym (rw (gold_data, comp_data, other) refl)
      ]

compare_lines-values :
    (case : Option Text) (offset_method longer_gold : Bool) (fuel i : ℕ) (gold comp : List Text)
    → length gold + length comp < fuel
    → is_nil (compare_lines case offset_method longer_gold fuel i gold comp).comments
      ≡ (values case gold == values case comp)
unfolding compare_lines
compare_lines-values case offset longer zero i gold comp enough = absurd (omega arith)
compare_lines-values case offset longer (suc fuel) i gold comp enough =
    let (j, gs) = skip_comments_and_whitespace i gold in
    let cs = (skip_comments_and_whitespace 0 comp).1 in
    compare_at-values case offset longer (compare_lines case offset longer fuel) fuel j gs cs
      (skip-HasData i gold) (skip-HasData 0 comp)
      (omega (arith, enough, skip-length i gold, skip-length 0 comp))
      (compare_lines-values case offset longer fuel)
    ∙ rw (skip-values case i gold, skip-values case 0 comp) refl

compare_data-values :
    (gold comp : List Text) (case : Option Text) (offset_method : Bool)
    → is_nil (compare_data gold comp case offset_method).comments
      ≡ (values case gold == values case comp)
unfolding compare_data
compare_data-values gold comp case offset_method =
    compare_lines-values case offset_method (ltb (length comp) (length gold))
      (suc (length gold + length comp)) 0 gold comp (omega arith)

is_nil-if :
    (test : Bool) (xs ys : Text) {answer : Bool}
    → is_nil xs ≡ answer
    → is_nil ys ≡ answer
    → is_nil (if test then xs else ys) ≡ answer
is_nil-if true xs ys first second = first
is_nil-if false xs ys first second = second

-- With both files there, compare_files says that they match just when they have the same values, line
-- by line and normalized for the case, when comments and blank lines are left out. This holds whichever
-- of the two methods gives the comments.
pub compare_files-values :
    (gold comp : List Text) (case : Option Text)
    → (comments : Text) × (compare_files (some gold) (some comp) case
        ≡ ok (values case gold == values case comp, comments))
unfolding compare_files
compare_files-values gold comp case =
    let first = compare_data gold comp case false in
    let second = compare_data gold comp case true in
    let test = ltb 0 first.cnt && ltb second.cnt first.cnt in
    let comments = if test then second.comments else first.comments in
    (
      comments,
      ap (λ b. ok (b, comments))
          (is_nil-if test second.comments first.comments (compare_data-values gold comp case true)
            (compare_data-values gold comp case false)),
    )
