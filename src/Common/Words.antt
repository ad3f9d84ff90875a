-- ===== src/Common/Words.antt =====
-- Python's str.split(), str.strip(), str.splitlines() and " ".join() on texts as code points, and the
-- laws that relate them.
pub mod Laws
use cime.Common.Tests.{Text, nat_beq, leb, ltb, if◌then◌else◌, Bool-cases, list_beq, nat_eq}
use cime.Common.Lists.{is_nil, All}
use Prim.Native.Nat.{ℕ, ◌≤◌}
use mathlib.Core.Path.{◌≡◌, refl, ap, sym, ◌∙◌}
use mathlib.Core.Logic.{◌≢◌, inl, inr}
use mathlib.Core.Bool.{Bool, true, false, ◌&&◌, ◌||◌, not}
use mathlib.Core.List.{List, [], ◌∷◌, ◌++◌, append_assoc, append-nil}
use native.Mathlib.Omega.{arith}

abbrev within : ℕ → ℕ → ℕ → Bool
within lo hi c = leb lo c && leb c hi

-- str.isspace of one character
unfoldable pub is_space : ℕ → Bool
is_space c =
    within 9 13 c
    || within 28 32 c
    || nat_beq c 0x85
    || nat_beq c 0xa0
    || nat_beq c 0x1680
    || within 0x2000 0x200a c
    || within 0x2028 0x2029 c
    || nat_beq c 0x202f
    || nat_beq c 0x205f
    || nat_beq c 0x3000

-- The characters at which str.splitlines() ends a line.
unfoldable pub is_line_end : ℕ → Bool
is_line_end c = within 10 13 c || within 28 30 c || nat_beq c 0x85 || within 0x2028 0x2029 c

abbrev pub word : Text → List Text
word [] = []
word (c ∷ w) = (c ∷ w) ∷ []

-- `w` is the word read so far.
unfoldable pub split_from : Text → Text → List Text
split_from w [] = word w
split_from w (c ∷ cs) = elim (is_space c) [
  | true ↦ word w ++ split_from [] cs
  | false ↦ split_from (w ++ c ∷ []) cs
]

-- text.split()
unfoldable pub split : Text → List Text
unfolding split_from
split = split_from []

unfoldable pub lstrip : Text → Text
lstrip [] = []
lstrip (c ∷ cs) = let rest = lstrip cs in if is_space c then rest else c ∷ cs

unfoldable pub rstrip : Text → Text
rstrip [] = []
rstrip (c ∷ cs) = let rest = rstrip cs in if is_space c && is_nil rest then [] else c ∷ rest

-- text.strip()
unfoldable pub strip : Text → Text
unfolding lstrip rstrip
strip cs = rstrip (lstrip cs)

-- sep.join(words)
unfoldable pub join : Text → List Text → Text
join sep [] = []
join sep (w ∷ ws) = elim ws [ [] ↦ w | _ ∷ _ ↦ w ++ (sep ++ join sep ws) ]

-- `line` is the line read so far; `cr` says that the character before was a carriage return, so that
-- a line feed belongs to the line end before it.
unfoldable pub lines_from : Bool → Text → Text → List Text
lines_from cr line [] = word line
lines_from cr line (c ∷ cs) = elim (cr && nat_beq c 10) [
  | true ↦ lines_from false line cs
  | false ↦ elim (is_line_end c) [
    | true ↦ line ∷ lines_from (nat_beq c 13) [] cs
    | false ↦ lines_from false (line ++ c ∷ []) cs
  ]
]

-- text.splitlines()
unfoldable pub splitlines : Text → List Text
unfolding lines_from
splitlines = lines_from false []

split-tests :
    (split (9 ∷ 65 ∷ 66 ∷ 32 ∷ 32 ∷ 67 ∷ 10 ∷ []) ≡ (65 ∷ 66 ∷ []) ∷ (67 ∷ []) ∷ [])
    × (strip (9 ∷ 65 ∷ 32 ∷ 66 ∷ 32 ∷ []) ≡ 65 ∷ 32 ∷ 66 ∷ [])
    × (splitlines (65 ∷ 13 ∷ 10 ∷ 10 ∷ 66 ∷ []) ≡ (65 ∷ []) ∷ [] ∷ (66 ∷ []) ∷ [])
unfolding split strip splitlines is_space is_line_end
split-tests = (refl, refl, refl)
