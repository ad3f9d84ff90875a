-- ===== src/Namelist/Parser/Bounded.antt =====
-- scripts/lib/CIME/namelist.py: where the methods of _NamelistParser that read values, groups and files stop.
use cime.Common.{
  ℕ, zero, suc, ◌≤◌, ◌<◌, ◌∷◌, [], Text, text, Bool, true, false, List, ◌≡◌, refl, sym, ap, ◌∙◌,
  subst, arith, ◌⊎◌, inl, inr, ◌==◌, nat_eq, contains, Result, ok, err,
}
use cime.Common.Int.{pos}
use cime.Namelist.Literals.{is_blank}
use cime.Namelist.Names.{get_fortran_variable_indices}
use cime.Namelist.Parser.Cursor.{Exception, name_error, Cursor, lift}
use cime.Namelist.Parser.Values.{
  before_comma, after_comma, expect_separator, parse_values, check_count, skip_equals, first_value,
  values_behind, parse_name_and_values,
}
use cime.Namelist.Parser.Leads.{
  left, first, IsReported, Leads, leads, Leads-then_run, Leads-weaken, Leads-or_at_eof, Leads-when,
  Leads-on_option, Within, least, curr-Leads, advance-Leads,
}
use cime.Namelist.Parser.Skips.{expect_char-Leads, eat_whitespace-Leads, Skipped-le}
use cime.Namelist.Parser.Reads.{parse_variable_name-Leads, parse_literal-Leads, filled}

-- The position goes on behind the blanks, or stays at a character that is neither a blank nor a slash.
abbrev AtComma : Bool → Cursor → Bool → Cursor → Type 0
AtComma allow_eof c more d =
    Within allow_eof (left c) d
    × (more ≡ true
        → (1 ≤ left d)
          × ((left d < left c)
              ⊎ ((d ≡ c) × (is_blank (first c.rest) ≡ false) × ((first c.rest == b'/') ≡ false))))

least_le : (allow_eof : Bool) {n : ℕ} → 1 ≤ n → least allow_eof ≤ n
least_le false more = more
least_le true more = omega arith

before_comma-Leads :
    (allow_eof : Bool) (c : Cursor)
    → 1 ≤ left c
    → Leads (before_comma allow_eof c) (AtComma allow_eof c)
unfolding before_comma
before_comma-Leads allow_eof c more =
    Leads-or_at_eof
      (Leads-then_run (eat_whitespace-Leads false c more) (λ _ d w.
        Leads-then_run (curr-Leads d w.0) (λ a e same.
          let within : Within allow_eof (left c) e = (
            least_le allow_eof (omega (arith, ap left same.0, w.0)),
            omega (arith, ap left same.0, Skipped-le w),
          ) in
          Leads-when _ _ _
            (λ _. Leads-when _ _ _ (λ _. leads tt) (λ on. leads (within, λ ended. cc)))
            (λ off. leads (
              within,
              λ _. (
                omega (arith, ap left same.0, w.0),
                elim w.1 [
                  | inl less ↦ inl (omega (arith, ap left same.0, less))
                  | inr stay ↦ inr (
                    same.0 ∙ stay.0,
                    stay.1,
                    subst (λ n. (n == b'/') ≡ false) (same.1 ∙ ap (λ z. first z.rest) stay.0) off,
                  )
                ],
              ),
            )))))
      (λ d at_end.
        Leads-when _ _ _ (λ on. leads ((rw on (omega arith), omega (arith, at_end)), λ ended. cc))
          (λ _. leads at_end))

after_comma-Leads :
    (allow_eof : Bool) (c : Cursor)
    → 1 ≤ left c
    → Leads
        (after_comma allow_eof c)
        (λ _ d. Within allow_eof (left c) d × ((first c.rest == b',') ≡ true → left d < left c))
unfolding after_comma
after_comma-Leads allow_eof c more =
    Leads-or_at_eof
      (Leads-then_run (curr-Leads c more) (λ a d same.
        Leads-when _ _ _
          (λ _. Leads-then_run (advance-Leads 1 false d) (λ _ e w.
            Leads-then_run (eat_whitespace-Leads true e w.1) (λ _ f v. leads (
              (least_le allow_eof v.0, omega (arith, ap left same.0, w.0, Skipped-le v)),
              λ _. omega (arith, ap left same.0, w.0, Skipped-le v, more),
            ))))
          (λ off. leads (
            (
              least_le allow_eof (omega (arith, ap left same.0, more)),
              omega (arith, ap left same.0),
            ),
            λ on. absurd (ground (arith, on, off, same.1)),
          ))))
      (λ d at_end.
        Leads-when _ _ _
          (λ on.
            leads ((rw on (omega arith), omega (arith, at_end)), λ _. omega (arith, at_end, more)))
          (λ _. leads at_end))

comma_lem :
    (a : ℕ)
    → contains (text " \n,/") a ≡ true
    → is_blank a ≡ false
    → (a == b'/') ≡ false
    → (a == b',') ≡ true
comma_lem a separator blank slash = ground arith

-- A separator has at least one character.
expect_separator-Leads :
    (allow_eof : Bool) (c : Cursor)
    → least allow_eof ≤ left c
    → Leads
        (expect_separator allow_eof c)
        (λ more d. Within allow_eof (left c) d × (more ≡ true → left d < left c))
unfolding expect_separator
expect_separator-Leads allow_eof c more =
    Leads-when _ _ _ (λ _. leads ((more, omega arith), λ ended. cc))
      (λ at_text.
        let some_left : 1 ≤ left c = filled allow_eof c.rest at_text more in
        Leads-then_run (expect_char-Leads (text " \n,/") c some_left) (λ _ d same. rw same.0 (
          Leads-then_run (before_comma-Leads allow_eof c some_left) (λ on e w.
            Leads-when _ _ _
              (λ is_on. Leads-then_run (after_comma-Leads allow_eof e (w.1 is_on).0) (λ _ f v.
                leads (
                  (v.0.0, omega (arith, v.0.1, w.0.1)),
                  λ _. elim (w.1 is_on).1 [
                    | inl less ↦ omega (arith, v.0.1, less)
                    | inr stay ↦
                        subst (λ z. left f < left z) stay.0
                          (v.1 (
                            subst (λ z. (first z.rest == b',') ≡ true) (sym stay.0)
                              (comma_lem (first c.rest) same.1 stay.1 stay.2)))
                  ],
                )))
              (λ _. leads (w.0, λ ended. cc))))))

parse_values-Leads :
    (allow_eof_end : Bool) (fuel : ℕ) (c : Cursor)
    → least allow_eof_end ≤ left c
    → left c < fuel
    → Leads (parse_values allow_eof_end fuel c) (λ _ d. Within allow_eof_end (left c) d)
unfolding parse_values
parse_values-Leads allow_eof_end zero c more enough = absurd (omega arith)
parse_values-Leads allow_eof_end (suc fuel) c more enough =
    Leads-then_run (expect_separator-Leads allow_eof_end c more) (λ on d w.
      Leads-when _ _ _
        (λ is_on. Leads-then_run (parse_literal-Leads true allow_eof_end d w.0.0) (λ literal e v.
          Leads-on_option _ _ _ (leads (v.0, omega (arith, v.1, w.0.1))) (λ value _.
            Leads-then_run
              (parse_values-Leads allow_eof_end fuel e v.0 (omega (arith, v.1, w.1 is_on, enough)))
              (λ values f u. leads (u.0, omega (arith, u.1, v.1, w.0.1))))))
        (λ _. leads w.0))

Leads-lift :
    {E A : Type 0} (name : E → Exception) (result : Result E A) (c : Cursor)
    → ((e : E) → IsReported (name e))
    → Leads (lift name result c) (λ _ d. d ≡ c)
Leads-lift name (ok a) c reported = leads refl
Leads-lift name (err e) c reported = leads (reported e)

check_count-Leads :
    (name : Text) (values : List Text) (c : Cursor)
    → Leads (check_count name values c) (λ _ d. d ≡ c)
unfolding check_count
check_count-Leads name values c =
    Leads-then_run
      (Leads-lift name_error (get_fortran_variable_indices name (pos 1) true) c (λ e. tt))
      (λ i d same.
        Leads-when _ _ _ (λ _. Leads-when _ _ _ (λ _. leads same) (λ _. leads tt))
          (λ _. leads same))

-- Something is read, and one character at least is left where the end is not allowed.
abbrev pub Fewer : Bool → ℕ → Cursor → Type 0
Fewer allow_eof n d = (least allow_eof ≤ left d) × (left d < n)

skip_equals-Leads :
    (allow_eof_end : Bool) (c : Cursor)
    → 1 ≤ left c
    → Leads (skip_equals allow_eof_end c) (λ _ d. Fewer allow_eof_end (left c) d)
unfolding skip_equals
skip_equals-Leads allow_eof_end c more =
    Leads-or_at_eof
      (Leads-then_run (advance-Leads 1 false c) (λ _ d w.
        Leads-then_run (eat_whitespace-Leads false d w.1)
          (λ _ e v. leads (least_le allow_eof_end v.0, omega (arith, w.0, Skipped-le v, more)))))
      (λ d at_end.
        Leads-when _ _ _ (λ on. leads (rw on (omega arith), omega (arith, at_end, more)))
          (λ _. leads at_end))

first_value-Leads :
    (allow_eof_end : Bool) (c : Cursor)
    → least allow_eof_end ≤ left c
    → Leads (first_value allow_eof_end c) (λ _ d. Within allow_eof_end (left c) d)
unfolding first_value
first_value-Leads allow_eof_end c more =
    Leads-then_run (parse_literal-Leads false allow_eof_end c more)
      (λ literal d w. Leads-on_option _ _ _ (leads w) (λ value _. leads w))

values_behind-Leads :
    (name : Text) (allow_eof_end : Bool) (c : Cursor)
    → 1 ≤ left c
    → Leads (values_behind name allow_eof_end c) (λ _ d. Fewer allow_eof_end (left c) d)
unfolding values_behind
values_behind-Leads name allow_eof_end c more =
    Leads-then_run (skip_equals-Leads allow_eof_end c more) (λ on d w.
      Leads-when _ _ _
        (λ _. Leads-then_run (first_value-Leads allow_eof_end d w.0) (λ value e v.
          Leads-then_run (parse_values-Leads allow_eof_end (suc (left e)) e v.0 (omega arith))
            (λ values f u.
              Leads-then_run (check_count-Leads name (value ∷ values) f)
                (λ _ g same. leads (rw same u.0, omega (arith, ap left same, u.1, v.1, w.1))))))
        (λ _. leads w))

pub parse_name_and_values-Leads :
    (allow_eof_end : Bool) (c : Cursor)
    → 1 ≤ left c
    → Leads (parse_name_and_values allow_eof_end c) (λ _ d. Fewer allow_eof_end (left c) d)
unfolding parse_name_and_values
parse_name_and_values-Leads allow_eof_end c more =
    Leads-then_run (parse_variable_name-Leads true c more) (λ name d w.
      Leads-then_run (eat_whitespace-Leads false d w.0) (λ _ e v.
        Leads-then_run (curr-Leads e v.0) (λ a f same.
          Leads-then_run {Mid = λ _ g. Within false (left f) g}
            (Leads-when _ _ _
              (λ _. Leads-weaken (advance-Leads 1 false f) (λ _ g u. (u.1, omega (arith, u.0))))
              (λ _. leads (omega (arith, ap left same.0, v.0), omega arith)))
            (λ _ g u. Leads-then_run (expect_char-Leads (b'=' ∷ []) g u.0) (λ _ h here.
              Leads-then_run
                (values_behind-Leads name allow_eof_end h (omega (arith, ap left here.0, u.0)))
                (λ values i t. leads (
                  t.0,
                  omega (arith, t.1, ap left here.0, u.1, ap left same.0, Skipped-le v, w.1),
                )))))))
