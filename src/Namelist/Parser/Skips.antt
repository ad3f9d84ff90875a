-- ===== src/Namelist/Parser/Skips.antt =====
-- scripts/lib/CIME/namelist.py: how far the methods of _NamelistParser move that skip blanks and comments.
use cime.Common.{
  ℕ, zero, suc, ◌≤◌, ◌<◌, Text, Bool, true, false, length, ◌≡◌, refl, sym, ap, ◌∙◌, arith, ◌⊎◌, inl,
  inr, nat_eq, contains,
}
use cime.Common.Lists.{drop}
use cime.Namelist.Literals.{is_blank}
use cime.Namelist.Parser.Cursor.{
  Cursor, next, line_length, eat_comment, eat_blanks, eat_lines, eat_whitespace, expect_char,
}
use cime.Namelist.Parser.Leads.{
  left, first, Leads, leads, Leads-then_run, Leads-weaken, Leads-when, curr-Leads, char_at-Leads,
  length-drop, advance-Leads,
}

pub next-Leads : (c : Cursor) → 1 ≤ left c → Leads (next c) (λ a d. (d ≡ c) × (2 ≤ left c))
unfolding next
next-Leads c more =
    Leads-then_run {Mid = λ _ d. (d ≡ c) × (2 ≤ left c)}
      (Leads-when _ _ _
        (λ one.
          Leads-then_run (advance-Leads 1 false c)
            (λ ended d w. absurd (ground (arith, one, w.0, w.1))))
        (λ many. leads (refl, ground (arith, many, more))))
      (λ _ d w.
        Leads-weaken
          (char_at-Leads (drop 1 d.rest) d (omega (arith, ap left w.0, w.1, length-drop 1 d.rest)))
          (λ a e v. (v.0 ∙ w.0, w.1)))

pub eat_comment-Leads :
    (c : Cursor)
    → 1 ≤ left c
    → Leads
        (eat_comment c)
        (λ eaten d. (1 ≤ left d) × (((eaten ≡ false) × (d ≡ c)) ⊎ (left d < left c)))
unfolding eat_comment
eat_comment-Leads c more = Leads-then_run (curr-Leads c more) (λ a d same.
    Leads-when _ _ _
      (λ _.
        Leads-when _ _ _
          (λ _. Leads-then_run (advance-Leads (line_length d.rest) false d) (λ _ e w.
            Leads-then_run (advance-Leads 1 false e)
              (λ _ f v. leads (v.1, inr (omega (arith, ap left same.0, w.0, w.1, v.0))))))
          (λ _.
            Leads-then_run (advance-Leads (length d.rest) false d)
              (λ _ e w. absurd (omega (arith, w.0, w.1)))))
      (λ _. leads (omega (arith, ap left same.0), inl (refl, same.0))))

-- Some characters are gone, or none, and then the first one is no blank.
abbrev pub Skipped : Cursor → Cursor → Type 0
Skipped c d = (1 ≤ left d) × ((left d < left c) ⊎ ((d ≡ c) × (is_blank (first c.rest) ≡ false)))

pub Skipped-le : {c d : Cursor} → Skipped c d → left d ≤ left c
Skipped-le (more, inl less) = omega (arith, less)
Skipped-le (more, inr same) = omega (arith, ap left same.0)

pub Skipped-less : {c d e : Cursor} → left d < left c → Skipped d e → Skipped c e
Skipped-less less skipped = (skipped.0, inl (omega (arith, less, Skipped-le skipped)))

eat_blanks-Leads :
    (fuel : ℕ) (eaten comment_allowed : Bool) (c : Cursor)
    → 1 ≤ left c
    → left c ≤ fuel
    → Leads (eat_blanks fuel eaten comment_allowed c) (λ _ d. Skipped c d)
unfolding eat_blanks
eat_blanks-Leads zero eaten comment_allowed c more enough = absurd (omega arith)
eat_blanks-Leads (suc fuel) eaten comment_allowed c more enough =
    Leads-then_run (curr-Leads c more) (λ a d same.
      Leads-when _ _ _
        (λ _. Leads-then_run (advance-Leads 1 false d) (λ _ e w.
          Leads-weaken (eat_blanks-Leads fuel _ _ e w.1 (omega (arith, ap left same.0, w.0)))
            (λ _ f v. Skipped-less (omega (arith, ap left same.0, w.0, more)) v)))
        (λ blank.
          leads (omega (arith, ap left same.0), inr (same.0, sym (ap is_blank same.1) ∙ blank))))

eat_lines-Leads :
    (fuel : ℕ) (eaten comment_allowed : Bool) (c : Cursor)
    → 1 ≤ left c
    → left c ≤ fuel
    → Leads (eat_lines fuel eaten comment_allowed c) (λ _ d. Skipped c d)
unfolding eat_lines
eat_lines-Leads zero eaten comment_allowed c more enough = absurd (omega arith)
eat_lines-Leads (suc fuel) eaten comment_allowed c more enough =
    Leads-then_run (eat_blanks-Leads (suc (left c)) eaten comment_allowed c more (omega arith))
      (λ state d w.
        Leads-then_run
          {Mid = λ again e. (1 ≤ left e) × (((again ≡ false) × (e ≡ d)) ⊎ (left e < left d))}
          (Leads-when _ _ _ (λ _. eat_comment-Leads d w.0) (λ _. leads (w.0, inl (refl, refl))))
          (λ again e v.
            Leads-when _ _ _
              (λ again_true. elim v.1 [
                | inl same ↦ cc
                | inr less ↦
                    Leads-weaken
                      (eat_lines-Leads fuel _ _ e v.0 (omega (arith, less, Skipped-le w)))
                      (λ _ f u. Skipped-less (omega (arith, less, Skipped-le w)) u)
              ])
              (λ _. leads (elim v.1 [
                | inl same ↦ rw same.1 w
                | inr less ↦ (v.0, inl (omega (arith, less, Skipped-le w)))
              ]))))

pub eat_whitespace-Leads :
    (allow_initial_comment : Bool) (c : Cursor)
    → 1 ≤ left c
    → Leads (eat_whitespace allow_initial_comment c) (λ _ d. Skipped c d)
unfolding eat_whitespace
eat_whitespace-Leads allow_initial_comment c more =
    eat_lines-Leads (suc (left c)) false allow_initial_comment c more (omega arith)

pub expect_char-Leads :
    (chars : Text) (c : Cursor)
    → 1 ≤ left c
    → Leads (expect_char chars c) (λ _ d. (d ≡ c) × (contains chars (first c.rest) ≡ true))
unfolding expect_char
expect_char-Leads chars c more = Leads-then_run (curr-Leads c more) (λ a d same.
    Leads-when _ _ _ (λ found. leads (same.0, sym (ap (contains chars) same.1) ∙ found))
      (λ _. leads tt))
