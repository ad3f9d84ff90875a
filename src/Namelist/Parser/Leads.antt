-- ===== src/Namelist/Parser/Leads.antt =====
-- scripts/lib/CIME/namelist.py: what a method of _NamelistParser leads to, whichever way it ends.
use cime.Common.{
  ℕ, zero, suc, ◌-◌, ◌≤◌, ◌∷◌, [], Text, Bool, true, false, List, if◌then◌else◌, is_nil, length,
  ◌≡◌, refl, ap, ◌∙◌, arith, Option, none, some,
}
use cime.Common.Lists.{drop}
use cime.Namelist.Parser.Cursor.{
  Exception, index_error, Outcome, returned, eof, raised, stuck, Cursor, Parser, then_run,
  or_at_eof, on_option, curr, when◌then◌else◌, char_at, advance, advance_until, consume,
}

-- The number of characters that are left.
abbrev pub left : Cursor → ℕ
left c = length c.rest

abbrev pub IsReported : Exception → Type 0
IsReported index_error = ⊥
IsReported _ = Unit

-- A result, with what holds of it, the end of the file, or an exception but the IndexError.
abbrev pub EndsIn : {A : Type 0} → Outcome A × Cursor → (A → Cursor → Type 0) → Type 0
EndsIn (returned a, c) Post = Post a c
EndsIn (eof, c) Post = left c ≡ 0
EndsIn (raised e, c) Post = IsReported e
EndsIn (stuck, c) Post = ⊥

pub data Leads {A : Type 0} (run : Outcome A × Cursor) (Post : A → Cursor → Type 0) : Type 0 where
  leads : EndsIn run Post → Leads run Post

pub EndsIn-Leads :
    {A : Type 0} {run : Outcome A × Cursor} {Post : A → Cursor → Type 0}
    → Leads run Post
    → EndsIn run Post
EndsIn-Leads (leads done) = done

module _ {A : Type 0} {Mid : A → Cursor → Type 0} where
  pub Leads-then_run :
      {B : Type 0} {Post : B → Cursor → Type 0} {run : Outcome A × Cursor} {next : A → Parser B}
      → Leads run Mid
      → ((a : A) (c : Cursor) → Mid a c → Leads (next a c) Post)
      → Leads (then_run run next) Post
  Leads-then_run {run = (returned a, c)} (leads done) after = after a c done
  Leads-then_run {run = (eof, c)} (leads done) after = leads done
  Leads-then_run {run = (raised e, c)} (leads done) after = leads done
  Leads-then_run {run = (stuck, c)} (leads done) after = leads done

  pub Leads-weaken :
      {Post : A → Cursor → Type 0} {run : Outcome A × Cursor}
      → Leads run Mid
      → ((a : A) (c : Cursor) → Mid a c → Post a c)
      → Leads run Post
  Leads-weaken {run = (returned a, c)} (leads done) after = leads (after a c done)
  Leads-weaken {run = (eof, c)} (leads done) after = leads done
  Leads-weaken {run = (raised e, c)} (leads done) after = leads done
  Leads-weaken {run = (stuck, c)} (leads done) after = leads done

  pub Leads-or_at_eof :
      {run : Outcome A × Cursor} {handler : Parser A}
      → Leads run Mid
      → ((c : Cursor) → left c ≡ 0 → Leads (handler c) Mid)
      → Leads (or_at_eof run handler) Mid
  Leads-or_at_eof {run = (returned a, c)} (leads done) after = leads done
  Leads-or_at_eof {run = (eof, c)} (leads done) after = after c done
  Leads-or_at_eof {run = (raised e, c)} (leads done) after = leads done
  Leads-or_at_eof {run = (stuck, c)} (leads done) after = leads done

  pub Leads-when :
      (test : Bool) (p q : Parser A) {c : Cursor}
      → (test ≡ true → Leads (p c) Mid)
      → (test ≡ false → Leads (q c) Mid)
      → Leads ((when test then p else q) c) Mid
  unfolding when◌then◌else◌
  Leads-when true p q on_true on_false = on_true refl
  Leads-when false p q on_true on_false = on_false refl

  pub Leads-on_option :
      {B : Type 0} (o : Option B) (p : Parser A) (q : B → Parser A) {c : Cursor}
      → Leads (p c) Mid
      → ((b : B) → o ≡ some b → Leads (q b c) Mid)
      → Leads (on_option o p q c) Mid
  unfolding on_option
  Leads-on_option none p q on_none on_some = on_none
  Leads-on_option (some b) p q on_none on_some = on_some b refl

-- The least number of characters left behind a step that may, or may not, reach the end.
abbrev pub least : Bool → ℕ
least true = 0
least false = 1

-- At most `n` characters are left, and one at least where the end is not allowed.
abbrev pub Within : Bool → ℕ → Cursor → Type 0
Within allow_eof n c = (least allow_eof ≤ left c) × (left c ≤ n)

-- The character at the position, if any.
abbrev pub first : Text → ℕ
first [] = 0
first (a ∷ s) = a

pub char_at-Leads :
    (s : Text) (c : Cursor) → 1 ≤ length s → Leads (char_at s, c) (λ a d. (d ≡ c) × (a ≡ first s))
char_at-Leads [] c more = absurd (omega arith)
char_at-Leads (a ∷ s) c more = leads (refl, refl)

pub curr-Leads : (c : Cursor) → 1 ≤ left c → Leads (curr c) (λ a d. (d ≡ c) × (a ≡ first c.rest))
unfolding curr
curr-Leads c = char_at-Leads c.rest c

pub length-drop : {A : Type 0} (n : ℕ) (xs : List A) → length (drop n xs) ≡ length xs - n
length-drop zero xs = omega arith
length-drop (suc n) [] = omega arith
length-drop (suc n) (x ∷ xs) = omega (arith, length-drop n xs)

advanced-Leads :
    (s : Text) (check : Bool) (c : Cursor)
    → c.rest ≡ s
    → Leads
        ((if is_nil s then (if check then returned true else eof) else returned false), c)
        (λ ended d. (d ≡ c) × (least check ≤ length s) × (least ended ≤ length s))
advanced-Leads [] true c same = leads (refl, omega arith, omega arith)
advanced-Leads [] false c same = leads (ap length same)
advanced-Leads (a ∷ s) true c same = leads (refl, omega arith, omega arith)
advanced-Leads (a ∷ s) false c same = leads (refl, omega arith, omega arith)

-- `n` characters are gone, and one at least is left where the end is not allowed or not reached.
pub advance-Leads :
    (n : ℕ) (check : Bool) (c : Cursor)
    → Leads
        (advance n check c)
        (λ ended d. (left d ≡ left c - n) × (least check ≤ left d) × (least ended ≤ left d))
unfolding advance consume
advance-Leads n check c =
    Leads-weaken (advanced-Leads (drop n c.rest) check (consume n c) refl) (λ ended d w.
      let same = ap left w.0 in
      (same ∙ length-drop n c.rest, omega (arith, same, w.1), omega (arith, same, w.2)))

-- A loop that goes to a character.
pub advance_until-Leads :
    (test : ℕ → Bool) (fuel : ℕ) (c : Cursor)
    → 1 ≤ left c
    → left c ≤ fuel
    → Leads (advance_until test fuel c) (λ _ d. Within false (left c) d)
unfolding advance_until
advance_until-Leads test zero c more enough = absurd (omega arith)
advance_until-Leads test (suc fuel) c more enough = Leads-then_run (curr-Leads c more) (λ a d same.
    Leads-when _ _ _ (λ _. leads (omega (arith, ap left same.0), omega (arith, ap left same.0)))
      (λ _. Leads-then_run (advance-Leads 1 false d) (λ ended e w.
        Leads-weaken (advance_until-Leads test fuel e w.1 (omega (arith, ap left same.0, w.0)))
          (λ _ f v. (v.0, omega (arith, ap left same.0, w.0, v.1))))))
