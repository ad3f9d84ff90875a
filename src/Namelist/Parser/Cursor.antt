-- ===== src/Namelist/Parser/Cursor.antt =====
-- scripts/lib/CIME/namelist.py: the position of a _NamelistParser, its exceptions, and the operations
-- that move it. A method is a function of the position; an exception keeps the position it left.
use cime.Common.{
  ℕ, zero, suc, ◌+◌, ◌-◌, Text, Bool, true, false, ◌||◌, Option, none, some, [], ◌∷◌, if◌then◌else◌,
  Result, ok, err, ltb, ◌==◌, nat_eq, is_nil, contains, length,
}
use cime.Common.Lists.{take, drop}
use cime.Namelist.Names.{NameError}
use cime.Namelist.Literals.{is_blank}

pub data Exception : Type 0 where
  -- _NamelistParseError
  parse_error : Exception
  -- the CIMEError of an `expect`
  failed_expect : Exception
  -- the exceptions of get_fortran_variable_indices
  name_error : NameError → Exception
  -- ValueError: list.remove(x): x not in list
  value_error : Exception
  -- IndexError: string index out of range
  index_error : Exception

-- `eof` is the exception _NamelistEOF; `stuck` is a loop of the model without fuel.
pub data Outcome (A : Type 0) : Type 0 where
  returned : A → Outcome A
  eof : Outcome A
  raised : Exception → Outcome A
  stuck : Outcome A

-- self._line and self._col; self._text[self._pos:] for self._pos.
pub record Cursor : Type 0 where
  pub line : ℕ
  pub col : ℕ
  pub rest : Text

abbrev pub Parser : Type 0 → Type 0
Parser A = Cursor → Outcome A × Cursor

abbrev pub then_run : {A B : Type 0} → Outcome A × Cursor → (A → Parser B) → Outcome B × Cursor
then_run (returned a, c) next = next a c
then_run (eof, c) next = (eof, c)
then_run (raised e, c) next = (raised e, c)
then_run (stuck, c) next = (stuck, c)

infixl 5 ◌>>=◌
abbrev pub ◌>>=◌ : {A B : Type 0} → Parser A → (A → Parser B) → Parser B
(p >>= next) c = then_run (p c) next

infixl 5 ◌>>◌
abbrev pub ◌>>◌ : {A B : Type 0} → Parser A → Parser B → Parser B
p >> q = p >>= (λ _. q)

abbrev pub return : {A : Type 0} → A → Parser A
return a c = (returned a, c)

abbrev pub raise : {A : Type 0} → Exception → Parser A
raise e c = (raised e, c)

-- try: p, except _NamelistEOF: handler
abbrev pub or_at_eof : {A : Type 0} → Outcome A × Cursor → Parser A → Outcome A × Cursor
or_at_eof (returned a, c) handler = (returned a, c)
or_at_eof (eof, c) handler = handler c
or_at_eof (raised e, c) handler = (raised e, c)
or_at_eof (stuck, c) handler = (stuck, c)

abbrev pub except_eof : {A : Type 0} → Parser A → Parser A → Parser A
except_eof p handler c = or_at_eof (p c) handler

abbrev pub raise_eof : {A : Type 0} → Parser A
raise_eof c = (eof, c)

abbrev pub out_of_fuel : {A : Type 0} → Parser A
out_of_fuel c = (stuck, c)

-- The conditional of steps.
infix 1 when◌then◌else◌
unfoldable pub when◌then◌else◌ : {A : Type 0} → Bool → Parser A → Parser A → Parser A
when true then p else q = p
when false then p else q = q

-- What a step does on None, and with a value.
unfoldable pub on_option : {A B : Type 0} → Option A → Parser B → (A → Parser B) → Parser B
on_option none p q = p
on_option (some a) p q = q a

-- A result of another module: its error is `raised` under a name of this one.
abbrev pub lift : {E A : Type 0} → (E → Exception) → Result E A → Parser A
lift name (ok a) = return a
lift name (err e) = raise (name e)

-- The position, for a later slice of the text.
abbrev pub here : Parser Cursor
here c = (returned c, c)

-- self._text[old_pos:self._pos], and with the character at self._pos
abbrev pub slice : Cursor → Cursor → Text
slice old new = take (length old.rest - length new.rest) old.rest

abbrev pub slice_with : Cursor → Cursor → Text
slice_with old new = take (length old.rest - length new.rest + 1) old.rest

-- A loop that runs at most once for each character that is left, and once more.
abbrev pub fuelled : {A : Type 0} → (ℕ → Parser A) → Parser A
fuelled p c = p (suc (length c.rest)) c

-- self._curr()
abbrev pub char_at : Text → Outcome ℕ
char_at [] = raised index_error
char_at (a ∷ s) = returned a

unfoldable pub curr : Parser ℕ
curr c = (char_at c.rest, c)

-- consumed_text.count('\n')
unfoldable pub count_lines : Text → ℕ
count_lines [] = 0
count_lines (a ∷ s) = let later = count_lines s in if a == b'\n' then suc later else later

-- len(consumed_text) - (consumed_text.rfind('\n') + 1), with a newline in the text
unfoldable pub last_col : Text → ℕ
last_col [] = 0
last_col (a ∷ s) = let later = last_col s in if contains s b'\n' then later else length s

unfoldable pub consume : ℕ → Cursor → Cursor
unfolding count_lines last_col
consume nchars c =
    let consumed = take nchars c.rest in
    let lines = count_lines consumed in
    record {
      line = c.line + lines;
      col = if ltb 0 lines then last_col consumed else c.col + length consumed;
      rest = drop nchars c.rest;
    }

unfoldable pub advance : ℕ → Bool → Parser Bool
unfolding consume
advance nchars check_eof c =
    let moved = consume nchars c in
    (
      if is_nil moved.rest then (if check_eof then returned true else eof) else returned false,
      moved,
    )

-- while not test(self._curr()): self._advance()
unfoldable pub advance_until : (ℕ → Bool) → ℕ → Parser (Unit {0})
unfolding curr advance
advance_until test zero = out_of_fuel
advance_until test (suc fuel) = do
  a ← curr
  when test a then return tt else advance 1 false >> advance_until test fuel

-- self._next()
unfoldable pub next : Parser ℕ
unfolding advance
next = do
  c ← here
  when length c.rest == 1 then advance 1 false >> return tt else return tt
  d ← here
  (λ e. (char_at (drop 1 d.rest), e))

-- self._text[self._pos:].find('\n'), its length if there is none
unfoldable pub line_length : Text → ℕ
line_length [] = 0
line_length (a ∷ s) = let more = line_length s in if a == b'\n' then 0 else suc more

unfoldable pub eat_comment : Parser Bool
unfolding curr advance line_length
eat_comment = do
  a ← curr
  c ← here
  when a == b'!'
      then (when contains c.rest b'\n'
          then advance (line_length c.rest) false >> (advance 1 false >> return true)
          else advance (length c.rest) false >> return true)
      else return false

-- The inner loop: whether anything was eaten, and whether a comment may follow.
unfoldable pub eat_blanks : ℕ → Bool → Bool → Parser (Bool × Bool)
unfolding curr advance
eat_blanks zero eaten comment_allowed = out_of_fuel
eat_blanks (suc fuel) eaten comment_allowed = do
  a ← curr
  when is_blank a
      then advance 1 false >> eat_blanks fuel true (comment_allowed || a == b'\n')
      else return (eaten, comment_allowed)

unfoldable pub eat_lines : ℕ → Bool → Bool → Parser Bool
unfolding eat_blanks eat_comment
eat_lines zero eaten comment_allowed = out_of_fuel
eat_lines (suc fuel) eaten comment_allowed = do
  state ← fuelled (λ n. eat_blanks n eaten comment_allowed)
  more ← when state.1 then eat_comment else return false
  when more then eat_lines fuel state.0 state.1 else return state.0

unfoldable pub eat_whitespace : Bool → Parser Bool
unfolding eat_lines
eat_whitespace allow_initial_comment = fuelled (λ n. eat_lines n false allow_initial_comment)

unfoldable pub expect_char : Text → Parser (Unit {0})
unfolding curr
expect_char chars = do a ← curr; when contains chars a then return tt else raise parse_error
