-- ===== src/Namelist/Regex/Complete.antt =====
-- The matcher accepts every text of the pattern.
use cime.Common.{
  ℕ, Text, ◌≡◌, ◌≢◌, refl, sym, ap, ◌∙◌, Bool, true, [], ◌∷◌, ◌++◌, arith, inl, inr, Bool-cases,
  subst,
}
use cime.Namelist.Regex.{
  Regex, never, blank, one, seq, alt, star, nullable, seq_lean, is_never, alt_lean, deriv, matches,
  Matches, m_blank, m_one, m_seq, m_left, m_right, m_stop, m_more,
}

nullable_complete : {r : Regex} {w : Text} → Matches r w → w ≡ [] → nullable r ≡ true
unfolding nullable
nullable_complete m_blank e = refl
nullable_complete (m_one c h) e = cc
nullable_complete (m_seq {u = []} {v = []} m n j) e =
    ground (arith, nullable_complete m refl, nullable_complete n refl)
nullable_complete (m_seq {u = []} {v = c ∷ v} m n j) e = absurd (ground arith)
nullable_complete (m_seq {u = c ∷ u} m n j) e = absurd (ground arith)
nullable_complete (m_left m) e = ground (arith, nullable_complete m e)
nullable_complete (m_right m) e = ground (arith, nullable_complete m e)
nullable_complete m_stop e = refl
nullable_complete (m_more m n j) e = refl

blank_text : {r : Regex} {w : Text} → Matches r w → r ≡ blank → w ≡ []
blank_text m_blank e = refl
blank_text (m_one c h) e = cc
blank_text (m_seq m n j) e = cc
blank_text (m_left m) e = cc
blank_text (m_right m) e = cc
blank_text m_stop e = cc
blank_text (m_more m n j) e = cc

never_text : {r : Regex} {w : Text} → Matches r w → is_never r ≢ true
unfolding is_never
never_text m_blank e = cc
never_text (m_one c h) e = cc
never_text (m_seq m n j) e = cc
never_text (m_left m) e = cc
never_text (m_right m) e = cc
never_text m_stop e = cc
never_text (m_more m n j) e = cc

seq_lean_complete : (r s : Regex) {w : Text} → Matches (seq r s) w → Matches (seq_lean r s) w
unfolding seq_lean
seq_lean_complete never s (m_seq m n j) = elim m [ ]
seq_lean_complete blank s (m_seq {v} m n j) =
    subst (Matches s) (ap (λ u. u ++ v) (sym (blank_text m refl)) ∙ j) n
seq_lean_complete (one p) s m = m
seq_lean_complete (seq p q) s m = m
seq_lean_complete (alt p q) s m = m
seq_lean_complete (star p) s m = m

alt_lean-left : (r s : Regex) {w : Text} → Matches r w → Matches (alt_lean r s) w
unfolding alt_lean
alt_lean-left r s m = elim (Bool-cases (is_never r)) [
  | inl idle ↦ absurd (never_text m idle)
  | inr keeps ↦ elim (Bool-cases (is_never s)) [
    | inl idle ↦ rw (keeps, idle) m
    | inr both ↦ rw (keeps, both) (m_left m)
  ]
]

alt_lean-right : (r s : Regex) {w : Text} → Matches s w → Matches (alt_lean r s) w
unfolding alt_lean
alt_lean-right r s m = elim (Bool-cases (is_never r)) [
  | inl idle ↦ rw idle m
  | inr keeps ↦ elim (Bool-cases (is_never s)) [
    | inl idle ↦ absurd (never_text m idle)
    | inr both ↦ rw (keeps, both) (m_right m)
  ]
]

deriv-one :
    (p : ℕ → Bool) (c d : ℕ) (rest : Text)
    → p d ≡ true
    → d ∷ [] ≡ c ∷ rest
    → Matches (deriv c (one p)) rest
unfolding deriv
deriv-one p c d rest h e =
    let here : p c ≡ true = ap p (ground (arith, e)) ∙ h in
    let over : [] ≡ rest = ground (arith, e) in rw here (subst (Matches blank) over m_blank)

deriv_complete :
    {r : Regex} {w : Text} (c : ℕ) (rest : Text)
    → Matches r w
    → w ≡ c ∷ rest
    → Matches (deriv c r) rest
unfolding deriv
deriv_complete c rest m_blank e = cc
deriv_complete c rest (m_one {p} d h) e = deriv-one p c d rest h e
deriv_complete c rest (m_seq {r} {s} {u = []} {v} m n j) e =
    rw (nullable_complete m refl)
      (alt_lean-right (seq_lean (deriv c r) s) (deriv c s) (deriv_complete c rest n (j ∙ e)))
deriv_complete c rest (m_seq {r} {s} {u = d ∷ u} {v} m n j) e =
    let here : d ∷ u ≡ c ∷ u = ground (arith, j, e) in
    let first =
      seq_lean_complete (deriv c r) s
        (m_seq {w = rest} (deriv_complete c u m here) n (ground (arith, j, e))) in
    elim (Bool-cases (nullable r)) [
      | inl may ↦ rw may (alt_lean-left (seq_lean (deriv c r) s) (deriv c s) first)
      | inr may_not ↦ rw may_not first
    ]
deriv_complete c rest (m_left {r} {s} m) e =
    alt_lean-left (deriv c r) (deriv c s) (deriv_complete c rest m e)
deriv_complete c rest (m_right {r} {s} m) e =
    alt_lean-right (deriv c r) (deriv c s) (deriv_complete c rest m e)
deriv_complete c rest m_stop e = cc
deriv_complete c rest (m_more {r} {u = []} {v} m n j) e = deriv_complete c rest n (j ∙ e)
deriv_complete c rest (m_more {r} {u = d ∷ u} {v} m n j) e =
    let here : d ∷ u ≡ c ∷ u = ground (arith, j, e) in
    seq_lean_complete (deriv c r) (star r)
      (m_seq {w = rest} (deriv_complete c u m here) n (ground (arith, j, e)))

pub matches_complete : (r : Regex) (w : Text) → Matches r w → matches r w ≡ true
unfolding matches
matches_complete r [] m = nullable_complete m refl
matches_complete r (c ∷ w) m = matches_complete (deriv c r) w (deriv_complete c w m refl)
