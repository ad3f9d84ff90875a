-- ===== src/Common/Dict/Distinct.antt =====
-- A dictionary has each key once, and its operations keep it so.
use mathlib.Core.Path.{◌≡◌, refl, sym, subst}
use mathlib.Core.Logic.{inl, inr}
use mathlib.Core.Bool.{Bool, true, false, ◌&&◌, ◌||◌, not}
use mathlib.Core.List.{[], ◌∷◌, ◌++◌}
use native.Mathlib.Omega.{arith}
use cime.Common.Tests.{Equality, ◌==◌, Bool-cases}
use cime.Common.Lists.{All}
use cime.Common.Dict.{
  Dict, lookup, insert, remove, remove_if, member, lookup-insert, lookup-remove, lookup-remove_if,
}

module _ {ℓ κ} {K : Type ℓ} {V : Type κ} ⦃e : Equality K⦄ where
  unfoldable pub distinct : Dict K V → Bool
  distinct [] = true
  distinct ((k, v) ∷ m) = not (member k m) && distinct m

  pub member-insert :
      (k j : K) (v : V) (m : Dict K V) → member j (insert k v m) ≡ (k == j || member j m)
  unfolding member
  member-insert k j v m = ground (arith, lookup-insert k j v m)

  pub member-remove :
      (k j : K) (m : Dict K V) → member j (remove k m) ≡ (not (k == j) && member j m)
  unfolding member
  member-remove k j m = ground (arith, lookup-remove k j m)

  pub member-remove_if :
      (test : K → Bool) (j : K) (m : Dict K V)
      → member j (remove_if test m) ≡ (not (test j) && member j m)
  unfolding member
  member-remove_if test j m = ground (arith, lookup-remove_if test j m)

  pub distinct-insert :
      (k : K) (v : V) (m : Dict K V) → distinct m ≡ true → distinct (insert k v m) ≡ true
  unfolding distinct insert
  distinct-insert k v [] h = unfold member lookup in refl
  distinct-insert k v ((j, w) ∷ m) h =
      ground (arith, e.same_iff j k, e.same_iff k j, member-insert k j v m, distinct-insert k v m)

  pub distinct-remove : (k : K) (m : Dict K V) → distinct m ≡ true → distinct (remove k m) ≡ true
  unfolding distinct remove
  distinct-remove k [] h = refl
  distinct-remove k ((j, w) ∷ m) h = ground (arith, member-remove k j m, distinct-remove k m)

  pub distinct-remove_if :
      (test : K → Bool) (m : Dict K V) → distinct m ≡ true → distinct (remove_if test m) ≡ true
  unfolding distinct remove_if
  distinct-remove_if test [] h = refl
  distinct-remove_if test ((j, w) ∷ m) h =
      ground (arith, member-remove_if test j m, distinct-remove_if test m)

  module _ {μ} (P : K × V → Type μ) where
    pub All-insert : (k : K) (v : V) (m : Dict K V) → P (k, v) → All P m → All P (insert k v m)
    unfolding insert
    All-insert k v [] new h = (new, tt)
    All-insert k v ((j, w) ∷ m) new h = elim (Bool-cases (j == k)) [
      | inl same ↦ rw same (subst (λ i. P (i, v)) (sym ((e.same_iff j k).0 same)) new, h.1)
      | inr other ↦ rw other (h.0, All-insert k v m new h.1)
    ]

    pub All-remove : (k : K) (m : Dict K V) → All P m → All P (remove k m)
    unfolding remove
    All-remove k [] h = tt
    All-remove k ((j, w) ∷ m) h = elim (Bool-cases (j == k)) [
      | inl same ↦ rw same (All-remove k m h.1)
      | inr other ↦ rw other (h.0, All-remove k m h.1)
    ]

    pub All-remove_if : (test : K → Bool) (m : Dict K V) → All P m → All P (remove_if test m)
    unfolding remove_if
    All-remove_if test [] h = tt
    All-remove_if test ((j, w) ∷ m) h = elim (Bool-cases (test j)) [
      | inl drop ↦ rw drop (All-remove_if test m h.1)
      | inr keep ↦ rw keep (h.0, All-remove_if test m h.1)
    ]

  -- A new key goes to the end.
  pub insert_new :
      (k : K) (v : V) (m : Dict K V) → member k m ≡ false → insert k v m ≡ m ++ (k, v) ∷ []
  unfolding insert member lookup
  insert_new k v [] h = refl
  insert_new k v ((j, w) ∷ m) h = ground (arith, insert_new k v m)

  pub member-snoc :
      (k j : K) (v : V) (m : Dict K V) → member j (m ++ (k, v) ∷ []) ≡ (member j m || k == j)
  unfolding member lookup
  member-snoc k j v [] = ground arith
  member-snoc k j v ((i, w) ∷ m) = ground (arith, member-snoc k j v m)
