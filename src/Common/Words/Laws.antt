-- ===== src/Common/Words/Laws.antt =====
-- Splitting and joining undo one another on words.
use cime.Common.Tests.{Text, Bool-cases}
use cime.Common.Lists.{is_nil, All}
use cime.Common.Words.{
  is_space, is_line_end, word, split_from, split, lstrip, rstrip, strip, join, lines_from,
  splitlines,
}
use Prim.Native.Nat.{ℕ}
use mathlib.Core.Path.{◌≡◌, refl, ap, sym, ◌∙◌}
use mathlib.Core.Logic.{inl, inr}
use mathlib.Core.Bool.{Bool, true, false, ◌&&◌, not}
use mathlib.Core.List.{List, [], ◌∷◌, ◌++◌, append_assoc, append-nil}
use native.Mathlib.Omega.{arith}

abbrev pub NoSpace : Text → Type 0
NoSpace = All (λ c. is_space c ≡ false)

abbrev pub NoLineEnd : Text → Type 0
NoLineEnd = All (λ c. is_line_end c ≡ false)

-- What str.split() returns.
abbrev pub IsWord : Text → Type 0
IsWord w = (is_nil w ≡ false) × NoSpace w

-- Two texts of which all characters, or two lists of which all words, have a property.
append-All {ℓ} :
    {A : Type 0} (P : A → Type ℓ) (front back : List A)
    → All P front
    → All P back
    → All P (front ++ back)
append-All P [] back first second = second
append-All P (a ∷ front) back first second = (first.0, append-All P front back first.1 second)

split_from-space : (w cs : Text) → split_from w (32 ∷ cs) ≡ word w ++ split_from [] cs
unfolding split_from is_space
split_from-space w cs = refl

split_from-append : (w v cs : Text) → NoSpace v → split_from w (v ++ cs) ≡ split_from (w ++ v) cs
unfolding split_from
split_from-append w [] cs h = rw append-nil
split_from-append w (c ∷ v) cs h =
    rw (h.0, split_from) (split_from-append (w ++ c ∷ []) v cs h.1 ∙ rw append_assoc)

word-IsWord : (w : Text) → is_nil w ≡ false → word w ≡ w ∷ []
word-IsWord [] h = cc
word-IsWord (c ∷ w) h = refl

split_from_word : (w : Text) → IsWord w → split_from [] w ≡ w ∷ []
split_from_word w h =
    ap (split_from []) (sym (append-nil w))
    ∙ split_from-append [] w [] h.1
    ∙ (unfold split_from in word-IsWord w h.0)

join-cons :
    (w v : Text) (ws : List Text) → join (32 ∷ []) (w ∷ v ∷ ws) ≡ w ++ 32 ∷ join (32 ∷ []) (v ∷ ws)
unfolding join
join-cons w v ws = refl

pub split-join : (ws : List Text) → All IsWord ws → split (join (32 ∷ []) ws) ≡ ws
unfolding split join
split-join [] h = unfold split_from in refl
split-join (w ∷ []) h = split_from_word w h.0
split-join (w ∷ v ∷ ws) h =
    split_from-append [] w (32 ∷ join (32 ∷ []) (v ∷ ws)) h.0.1
    ∙ split_from-space w (join (32 ∷ []) (v ∷ ws))
    ∙ rw (word-IsWord w h.0.0) (ap (λ r. w ∷ r) (split-join (v ∷ ws) h.1))

word-All : (w : Text) → NoSpace w → All IsWord (word w)
word-All [] h = tt
word-All (c ∷ w) h = ((refl, h), tt)

split_from-IsWord : (w cs : Text) → NoSpace w → All IsWord (split_from w cs)
unfolding split_from
split_from-IsWord w [] h = word-All w h
split_from-IsWord w (c ∷ cs) h = elim (Bool-cases (is_space c)) [
  | inl space ↦
      rw (space, split_from)
        (append-All IsWord (word w) _ (word-All w h) (split_from-IsWord [] cs tt))
  | inr other ↦
      rw (other, split_from)
        (split_from-IsWord (w ++ c ∷ []) cs (append-All _ w (c ∷ []) h (other, tt)))
]

pub split-IsWord : (cs : Text) → All IsWord (split cs)
unfolding split
split-IsWord cs = split_from-IsWord [] cs tt

split_from-lstrip : (cs : Text) → split_from [] (lstrip cs) ≡ split_from [] cs
unfolding split_from lstrip
split_from-lstrip [] = refl
split_from-lstrip (c ∷ cs) = ground (arith, split_from-lstrip cs)

split_from-rstrip : (w cs : Text) → split_from w (rstrip cs) ≡ split_from w cs
unfolding split_from rstrip
split_from-rstrip w [] = refl
split_from-rstrip w (c ∷ cs) =
    ground (arith, split_from-rstrip [] cs, split_from-rstrip (w ++ c ∷ []) cs, append-nil (word w))

-- Only the words count: blanks at the ends change nothing.
pub split-strip : (cs : Text) → split (strip cs) ≡ split cs
unfolding split strip
split-strip cs = split_from-rstrip [] (lstrip cs) ∙ split_from-lstrip cs

line_end-space : (c : ℕ) → is_space c ≡ false → is_line_end c ≡ false
unfolding is_space is_line_end
line_end-space c h = ground arith

blank : is_line_end 32 ≡ false
unfolding is_line_end
blank = refl

line_feed : is_line_end 10 ≡ true
unfolding is_line_end
line_feed = refl

pub NoSpace-NoLineEnd : (w : Text) → NoSpace w → NoLineEnd w
NoSpace-NoLineEnd [] h = tt
NoSpace-NoLineEnd (c ∷ w) h = (line_end-space c h.0, NoSpace-NoLineEnd w h.1)

pub join-NoLineEnd : (ws : List Text) → All IsWord ws → NoLineEnd (join (32 ∷ []) ws)
unfolding join
join-NoLineEnd [] h = tt
join-NoLineEnd (w ∷ []) h = NoSpace-NoLineEnd w h.0.1
join-NoLineEnd (w ∷ v ∷ ws) h =
    append-All _ w (32 ∷ join (32 ∷ []) (v ∷ ws)) (NoSpace-NoLineEnd w h.0.1)
      (blank, join-NoLineEnd (v ∷ ws) h.1)

-- A line without line ends in it, and the line feed after it, are read as one line.
lines_from-line :
    (line l rest : Text)
    → NoLineEnd l
    → lines_from false line (l ++ 10 ∷ rest) ≡ (line ++ l) ∷ lines_from false [] rest
unfolding lines_from
lines_from-line line [] rest h = rw (line_feed, lines_from, append-nil)
lines_from-line line (c ∷ l) rest h =
    rw (h.0, lines_from) (lines_from-line (line ++ c ∷ []) l rest h.1 ∙ rw append_assoc)

pub splitlines-line :
    (l rest : Text) → NoLineEnd l → splitlines (l ++ 10 ∷ rest) ≡ l ∷ splitlines rest
unfolding splitlines
splitlines-line l rest h = lines_from-line [] l rest h

-- The same as a test, for words that are written out.
unfoldable pub no_space : Text → Bool
no_space [] = true
no_space (c ∷ w) = not (is_space c) && no_space w

unfoldable pub is_word : Text → Bool
unfolding no_space
is_word w = not (is_nil w) && no_space w

no_space-NoSpace : (w : Text) → no_space w ≡ true → NoSpace w
unfolding no_space
no_space-NoSpace [] h = tt
no_space-NoSpace (c ∷ w) h = (ground arith, no_space-NoSpace w (ground arith))

pub is_word-IsWord : (w : Text) → is_word w ≡ true → IsWord w
unfolding is_word
is_word-IsWord w h = (ground arith, no_space-NoSpace w (ground arith))
