-- ===== src/Namelist/Object/Lookup.antt =====
-- scripts/lib/CIME/namelist.py: look-ups in the dictionaries of a Namelist, whatever the case of the name.
use cime.Common.{
  ℕ, Text, Bool, true, false, Option, none, some, List, [], ◌∷◌, if◌then◌else◌, ◌==◌, nat_eq,
  list_eq, list_beq_iff, ◌≡◌, refl, ap, ◌∙◌, arith, Bool-cases, inl, inr,
}
use cime.Common.Dict.{Dict, insert, keys}
use cime.Namelist.Object.{lower, string_in_list, found}

-- Two names that differ in the case of their letters at most.
abbrev pub same_name : Text → Text → Bool
same_name a b = lower a == lower b

-- The value of the first key with a name.
unfoldable pub entry {ℓ} : {V : Type ℓ} → Text → Dict Text V → Option V
entry name [] = none
entry name ((k, v) ∷ d) = let later = entry name d in if same_name name k then some v else later

pub found_lem :
    (c : ℕ) (name : Text) (names : List Text)
    → found (c ∷ name) names ≡ string_in_list (c ∷ name) names
unfolding found string_in_list lower
found_lem c name [] = refl
found_lem c name ([] ∷ names) = found_lem c name names
found_lem c name ((x ∷ xs) ∷ names) = ground (arith, found_lem c name names)

pub found-nil : (names : List Text) → found [] names ≡ none
unfolding found string_in_list lower
found-nil [] = refl
found-nil ([] ∷ names) = refl
found-nil ((x ∷ xs) ∷ names) = found-nil names

-- The key that is found has the name.
pub string_in_list-same :
    (name : Text) (names : List Text) (k : Text)
    → string_in_list name names ≡ some k
    → same_name name k ≡ true
unfolding string_in_list
string_in_list-same name [] k hit = cc
string_in_list-same name (x ∷ names) k hit = elim (Bool-cases (same_name name x)) [
  | inl on ↦ ground (arith, on, hit)
  | inr off ↦ string_in_list-same name names k (ground (arith, off, hit))
]

same_name-sym : (a b : Text) → same_name a b ≡ same_name b a
same_name-sym a b =
    ground (arith, list_beq_iff (lower a) (lower b), list_beq_iff (lower b) (lower a))

pub same_name_refl : (a : Text) → same_name a a ≡ true
same_name_refl a = (list_beq_iff (lower a) (lower a)).1 refl

-- A key with the name is no key without it.
pub same_name-other :
    (name k x : Text) → same_name name k ≡ true → same_name name x ≡ false → (x == k) ≡ false
same_name-other name k x hit miss = elim (Bool-cases (x == k)) [
  | inl on ↦ absurd (ground (arith, hit, miss, ap (same_name name) ((list_beq_iff x k).0 on)))
  | inr off ↦ off
]

pub same_name-same : (name a b : Text) → same_name a b ≡ true → same_name name a ≡ same_name name b
same_name-same name a b hit = ap (λ l. lower name == l) ((list_beq_iff (lower a) (lower b)).0 hit)

pub same_name-to : (name a b : Text) → same_name name a ≡ true → same_name name b ≡ same_name a b
same_name-to name a b hit = ap (λ l. l == lower b) ((list_beq_iff (lower name) (lower a)).0 hit)

-- The key of the name, the name itself if there is none.
unfoldable pub resolved : Text → List Text → Text
resolved name [] = name
resolved name (x ∷ xs) = let later = resolved name xs in if same_name name x then x else later

resolved-same : (name : Text) (names : List Text) → same_name name (resolved name names) ≡ true
unfolding resolved
resolved-same name [] = same_name_refl name
resolved-same name (x ∷ names) = elim (Bool-cases (same_name name x)) [
  | inl on ↦ rw on on
  | inr off ↦ rw off (resolved-same name names)
]

resolved-miss :
    (name x : Text) (names : List Text)
    → same_name name x ≡ false
    → resolved name (x ∷ names) ≡ resolved name names
unfolding resolved
resolved-miss name x names off = rw off refl

module _ {ℓ} {V : Type ℓ} where
  insert-miss :
      (k x : Text) (v u : V) (d : Dict Text V)
      → (x == k) ≡ false
      → insert k v ((x, u) ∷ d) ≡ (x, u) ∷ insert k v d
  unfolding insert
  insert-miss k x v u d off = rw off refl

  insert-other :
      (written x : Text) (v u : V) (d : Dict Text V)
      → same_name written x ≡ false
      → insert (resolved written (keys ((x, u) ∷ d))) v ((x, u) ∷ d)
        ≡ (x, u) ∷ insert (resolved written (keys d)) v d
  insert-other written x v u d off =
      ap (λ k. insert k v ((x, u) ∷ d)) (resolved-miss written x (keys d) off)
      ∙ insert-miss (resolved written (keys d)) x v u d (
          same_name-other written (resolved written (keys d)) x (resolved-same written (keys d))
            off)

  entry-other :
      (name written x : Text) (v u : V) (d rest : Dict Text V)
      → same_name written x ≡ false
      → entry name rest ≡ (if same_name name written then some v else entry name d)
      → entry name ((x, u) ∷ rest)
        ≡ (if same_name name written then some v else entry name ((x, u) ∷ d))
  unfolding entry
  entry-other name written x v u d rest off same = elim (Bool-cases (same_name name written)) [
    | inl hit ↦ rw (same, hit, same_name-to name written x hit, off) refl
    | inr miss ↦ rw (same, miss) refl
  ]

  -- An assignment under the key of a name, and the value under any other.
  pub entry-insert :
      (name written : Text) (v : V) (d : Dict Text V)
      → entry name (insert (resolved written (keys d)) v d)
        ≡ (if same_name name written then some v else entry name d)
  unfolding resolved entry insert
  entry-insert name written v [] = refl
  entry-insert name written v ((x, u) ∷ d) = elim (Bool-cases (same_name written x)) [
    | inl on ↦ rw (on, (list_beq_iff x x).1 refl, same_name-same name written x on) (ground arith)
    | inr off ↦
        ap (entry name) (insert-other written x v u d off)
        ∙ entry-other name written x v u d _ off (entry-insert name written v d)
  ]
