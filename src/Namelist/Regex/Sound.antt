-- ===== src/Namelist/Regex/Sound.antt =====
-- The matcher accepts no text but those of the pattern.
use cime.Common.{
  ℕ, Text, ◌≡◌, refl, ap, Bool, true, [], ◌∷◌, ◌++◌, arith, inl, inr, ◌⊎◌, ◌↔◌, Bool-cases, subst,
}
use cime.Namelist.Regex.{
  Regex, never, blank, one, seq, alt, star, nullable, seq_lean, is_never, alt_lean, deriv, matches,
  Matches, m_blank, m_one, m_seq, m_left, m_right, m_stop, m_more,
}
use cime.Namelist.Regex.Complete.{matches_complete}

nullable_sound : (r : Regex) → nullable r ≡ true → Matches r []
unfolding nullable
nullable_sound never e = cc
nullable_sound blank e = m_blank
nullable_sound (one p) e = cc
nullable_sound (seq r s) e =
    m_seq (nullable_sound r (ground (arith, e))) (nullable_sound s (ground (arith, e))) refl
nullable_sound (alt r s) e = elim (Bool-cases (nullable r)) [
  | inl here ↦ m_left (nullable_sound r here)
  | inr gone ↦ m_right (nullable_sound s (ground (arith, e, gone)))
]
nullable_sound (star r) e = m_stop

seq_lean_sound : (r s : Regex) {w : Text} → Matches (seq_lean r s) w → Matches (seq r s) w
unfolding seq_lean
seq_lean_sound never s m = elim m [ ]
seq_lean_sound blank s m = m_seq m_blank m refl
seq_lean_sound (one p) s m = m
seq_lean_sound (seq p q) s m = m
seq_lean_sound (alt p q) s m = m
seq_lean_sound (star p) s m = m

alt_lean_sound : (r s : Regex) {w : Text} → Matches (alt_lean r s) w → Matches r w ⊎ Matches s w
unfolding alt_lean
alt_lean_sound r s {w} m = elim (Bool-cases (is_never r)) [
  | inl idle ↦ inr (subst (λ t. Matches t w) (rw idle refl) m)
  | inr keeps ↦ elim (Bool-cases (is_never s)) [
    | inl idle ↦ inl (subst (λ t. Matches t w) (rw (keeps, idle) refl) m)
    | inr both ↦ split (subst (λ t. Matches t w) (rw (keeps, both) refl) m)
  ]
]
  where
    split : {w : Text} → Matches (alt r s) w → Matches r w ⊎ Matches s w
    split (m_left m) = inl m
    split (m_right m) = inr m

-- A text of a pair, cut in two.
seq_parts :
    {r s : Regex} {w : Text}
    → Matches (seq r s) w
    → (u : Text) × (v : Text) × Matches r u × Matches s v × (u ++ v ≡ w)
seq_parts (m_seq {u} {v} m n j) = (u, v, m, n, j)

never_any : {r : Regex} {v w : Text} → Matches never v → Matches r w
never_any m = elim m [ ]

one_char :
    (p : ℕ → Bool) (c : ℕ) {w : Text} → p c ≡ true → Matches blank w → Matches (one p) (c ∷ w)
one_char p c here m_blank = m_one c here

deriv_sound : (c : ℕ) (r : Regex) {w : Text} → Matches (deriv c r) w → Matches r (c ∷ w)
unfolding deriv
deriv_sound c never m = elim m [ ]
deriv_sound c blank m = elim m [ ]
deriv_sound c (one p) {w} m = elim (Bool-cases (p c)) [
  | inl here ↦ one_char p c here (subst (λ t. Matches t w) (rw here refl) m)
  | inr gone ↦ never_any (subst (λ t. Matches t w) (rw gone refl) m)
]
deriv_sound c (seq r s) {w} m =
    let first : Matches (seq_lean (deriv c r) s) w → Matches (seq r s) (c ∷ w) = λ n.
      let parts = seq_parts (seq_lean_sound (deriv c r) s n) in
      m_seq (deriv_sound c r parts.2) parts.3 (ap (λ t. c ∷ t) parts.4) in
    elim (Bool-cases (nullable r)) [
      | inl may ↦
          elim (alt_lean_sound (seq_lean (deriv c r) s) (deriv c s)
            (subst (λ t. Matches t w) (rw may refl) m)) [
              | inl n ↦ first n
              | inr n ↦ m_seq (nullable_sound r may) (deriv_sound c s n) refl
            ]
      | inr may_not ↦ first (subst (λ t. Matches t w) (rw may_not refl) m)
    ]
deriv_sound c (alt r s) m = elim (alt_lean_sound (deriv c r) (deriv c s) m) [
  | inl n ↦ m_left (deriv_sound c r n)
  | inr n ↦ m_right (deriv_sound c s n)
]
deriv_sound c (star r) m =
    let parts = seq_parts (seq_lean_sound (deriv c r) (star r) m) in
    m_more (deriv_sound c r parts.2) parts.3 (ap (λ t. c ∷ t) parts.4)

matches_sound : (r : Regex) (w : Text) → matches r w ≡ true → Matches r w
unfolding matches
matches_sound r [] hit = nullable_sound r hit
matches_sound r (c ∷ w) hit = deriv_sound c r (matches_sound (deriv c r) w hit)

-- The matcher by derivatives accepts a text just when the pattern describes it.
pub matches-Matches : (r : Regex) (w : Text) → (matches r w ≡ true) ↔ Matches r w
matches-Matches r w = (matches_sound r w, matches_complete r w)
