-- ===== src/Namelist/Parser/Reads.antt =====
-- scripts/lib/CIME/namelist.py: where the methods of _NamelistParser that read names and literals stop.
use cime.Common.{
  ℕ, zero, suc, ◌≤◌, ◌<◌, ◌∷◌, [], Text, Bool, true, false, is_nil, length, ◌≡◌, refl, ap, subst,
  arith, nat_eq, ◌&&◌,
}
use cime.Namelist.Parser.Cursor.{Cursor, Parser, slice}
use cime.Namelist.Parser.Lexemes.{
  check_name, parse_variable_name, parse_namelist_group_name, quoted_parts, parse_character_literal,
  parse_complex_literal,
}
use cime.Namelist.Parser.Values.{
  parse_prefix, delimited, end_literal, parse_undelimited, parse_unprefixed, parse_literal,
}
use cime.Namelist.Parser.Leads.{
  left, Leads, leads, Leads-then_run, Leads-weaken, Leads-when, Leads-on_option, Within, least,
  curr-Leads, advance-Leads, advance_until-Leads,
}
use cime.Namelist.Parser.Skips.{next-Leads, expect_char-Leads}

check_name-Leads : (name : Text) (c : Cursor) → Leads (check_name name c) (λ _ d. d ≡ c)
unfolding check_name
check_name-Leads name c =
    Leads-then_run {Mid = λ _ d. d ≡ c}
      (Leads-when _ _ _ (λ _. Leads-when _ _ _ (λ _. leads refl) (λ _. leads tt))
        (λ _. Leads-when _ _ _ (λ _. leads tt) (λ _. leads refl)))
      (λ _ d same. Leads-when _ _ _ (λ _. leads same) (λ _. leads tt))

pub parse_variable_name-Leads :
    (allow_equals : Bool) (c : Cursor)
    → 1 ≤ left c
    → Leads (parse_variable_name allow_equals c) (λ _ d. Within false (left c) d)
unfolding parse_variable_name
parse_variable_name-Leads allow_equals c more =
    Leads-then_run (advance_until-Leads _ (suc (left c)) c more (omega arith))
      (λ _ d w. Leads-weaken (check_name-Leads (slice c d) d) (λ _ e same. rw same w))

pub parse_namelist_group_name-Leads :
    (c : Cursor)
    → 1 ≤ left c
    → Leads (parse_namelist_group_name c) (λ _ d. (1 ≤ left d) × (left d < left c))
unfolding parse_namelist_group_name
parse_namelist_group_name-Leads c more =
    Leads-then_run (expect_char-Leads (b'&' ∷ []) c more) (λ _ d same.
      Leads-then_run (advance-Leads 1 false d) (λ _ e w.
        Leads-weaken (parse_variable_name-Leads false e w.1)
          (λ _ f v. (v.0, omega (arith, ap left same.0, w.0, w.1, v.1)))))

quoted_parts-Leads :
    (delimiter fuel : ℕ) (c : Cursor)
    → 1 ≤ left c
    → left c ≤ fuel
    → Leads (quoted_parts delimiter fuel c) (λ _ d. Within false (left c) d)
unfolding quoted_parts
quoted_parts-Leads delimiter zero c more enough = absurd (omega arith)
quoted_parts-Leads delimiter (suc fuel) c more enough =
    Leads-then_run (advance_until-Leads _ (suc (left c)) c more (omega arith)) (λ _ d w.
      Leads-when _ _ _ (λ _. leads w)
        (λ _. Leads-then_run (next-Leads d w.0) (λ a e v.
          Leads-when _ _ _
            (λ _. Leads-then_run (advance-Leads 2 false e) (λ _ f u.
              Leads-weaken
                (quoted_parts-Leads delimiter fuel f u.1
                  (omega (arith, u.0, ap left v.0, w.1, v.1)))
                (λ _ g t. (t.0, omega (arith, t.1, u.0, ap left v.0, w.1)))))
            (λ _. leads (rw v.0 w)))))

pub parse_character_literal-Leads :
    (c : Cursor) → 1 ≤ left c → Leads (parse_character_literal c) (λ _ d. Within false (left c) d)
unfolding parse_character_literal
parse_character_literal-Leads c more = Leads-then_run (curr-Leads c more) (λ delimiter d same.
    Leads-then_run (advance-Leads 1 false d) (λ _ e w.
      Leads-then_run (quoted_parts-Leads delimiter (suc (left e)) e w.1 (omega arith)) (λ _ f v.
        Leads-when _ _ _ (λ _. leads (v.0, omega (arith, ap left same.0, w.0, v.1)))
          (λ _. leads tt))))

pub parse_complex_literal-Leads :
    (c : Cursor) → 1 ≤ left c → Leads (parse_complex_literal c) (λ _ d. Within false (left c) d)
unfolding parse_complex_literal
parse_complex_literal-Leads c more =
    Leads-then_run (advance_until-Leads _ (suc (left c)) c more (omega arith))
      (λ _ d w. Leads-when _ _ _ (λ _. leads w) (λ _. leads tt))

parse_prefix-Leads :
    (allow_eof_end : Bool) (c : Cursor)
    → 1 ≤ left c
    → Leads
        (parse_prefix allow_eof_end c)
        (λ ended d. Within allow_eof_end (left c) d × (least ended ≤ left d))
unfolding parse_prefix
parse_prefix-Leads allow_eof_end c more =
    Leads-when _ _ _
      (λ _. Leads-then_run (advance_until-Leads _ (suc (left c)) c more (omega arith)) (λ _ d w.
        Leads-weaken (advance-Leads 1 allow_eof_end d)
          (λ ended e v. ((v.1, omega (arith, w.1, v.0)), v.2))))
      (λ _. leads ((ground (arith, more), omega arith), more))

delimited-Leads :
    (prefix : Text) (allow_eof_end : Bool) (parse : Parser Text) (c : Cursor)
    → Leads (parse c) (λ _ d. Within false (left c) d)
    → Leads (delimited prefix allow_eof_end parse c) (λ _ d. Within allow_eof_end (left c) d)
delimited-Leads prefix allow_eof_end parse c parsed = Leads-then_run parsed (λ literal d w.
    Leads-then_run (advance-Leads 1 allow_eof_end d)
      (λ _ e v. leads (v.1, omega (arith, w.1, v.0))))

end_literal-Leads :
    (old : Cursor) (allow_name allow_eof_end : Bool) (size : ℕ) (c : Cursor)
    → 1 ≤ left c
    → Leads
        (end_literal old allow_name allow_eof_end size c)
        (λ _ d. Within allow_eof_end (left c) d)
unfolding end_literal
end_literal-Leads old allow_name allow_eof_end size c more =
    Leads-then_run {Mid = λ _ d. d ≡ c}
      (Leads-when _ _ _
        (λ _.
          Leads-then_run (advance-Leads (left c) false c)
            (λ _ d w. absurd (omega (arith, w.0, w.1))))
        (λ _. leads refl))
      (λ _ d same.
        Leads-when _ _ _ (λ _. leads (rw same (ground (arith, more)), omega (arith, ap left same)))
          (λ _. Leads-then_run (advance-Leads size allow_eof_end d) (λ _ e w.
            Leads-when _ _ _ (λ _. leads (w.1, omega (arith, ap left same, w.0))) (λ _. leads tt))))

parse_undelimited-Leads :
    (old : Cursor) (allow_name allow_eof_end : Bool) (c : Cursor)
    → 1 ≤ left c
    → Leads
        (parse_undelimited old allow_name allow_eof_end c)
        (λ _ d. Within allow_eof_end (left c) d)
unfolding parse_undelimited
parse_undelimited-Leads old allow_name allow_eof_end c more =
    Leads-on_option _ _ _ (leads tt)
      (λ size _. end_literal-Leads old allow_name allow_eof_end size c more)

parse_unprefixed-Leads :
    (old : Cursor) (allow_name allow_eof_end : Bool) (c : Cursor)
    → 1 ≤ left c
    → Leads
        (parse_unprefixed old allow_name allow_eof_end c)
        (λ _ d. Within allow_eof_end (left c) d)
unfolding parse_unprefixed
parse_unprefixed-Leads old allow_name allow_eof_end c more =
    Leads-then_run (curr-Leads c more) (λ a d same. rw same.0 (
      Leads-when _ _ _
        (λ _.
          delimited-Leads (slice old c) allow_eof_end parse_character_literal c
            (parse_character_literal-Leads c more))
        (λ _.
          Leads-when _ _ _
            (λ _.
              delimited-Leads (slice old c) allow_eof_end parse_complex_literal c
                (parse_complex_literal-Leads c more))
            (λ _. parse_undelimited-Leads old _ _ c more))))

-- A text where the end is not allowed, or that is not at it.
pub filled :
    (allow_eof : Bool) (s : Text)
    → (allow_eof && is_nil s) ≡ false
    → least allow_eof ≤ length s
    → 1 ≤ length s
filled false s test more = more
filled true [] test more = cc
filled true (a ∷ s) test more = omega arith

pub parse_literal-Leads :
    (allow_name allow_eof_end : Bool) (c : Cursor)
    → least allow_eof_end ≤ left c
    → Leads (parse_literal allow_name allow_eof_end c) (λ _ d. Within allow_eof_end (left c) d)
unfolding parse_literal
parse_literal-Leads allow_name allow_eof_end c more =
    Leads-when _ _ _ (λ _. leads (more, omega arith))
      (λ at_text.
        Leads-then_run
          (parse_prefix-Leads allow_eof_end c (filled allow_eof_end c.rest at_text more))
          (λ ended d w.
            Leads-when _ _ _ (λ _. leads w.0)
              (λ on.
                Leads-weaken
                  (parse_unprefixed-Leads c allow_name allow_eof_end d
                    (subst (λ b. least b ≤ left d) on w.1))
                  (λ _ e v. (v.0, omega (arith, v.1, w.0.1))))))
