-- ===== src/Common/Dict.antt =====
-- Python's `dict` and `OrderedDict`: an association list in insertion order. A new key goes to
-- the end, an assignment to a key that is there keeps its place.
pub mod Distinct
use mathlib.Core.Path.{◌≡◌, refl, ap}
use mathlib.Core.Bool.{Bool, true, false, ◌||◌}
use mathlib.Core.List.{List, [], ◌∷◌, ◌++◌, map}
use mathlib.Core.Option.{Option, none, some}
use native.Mathlib.Omega.{arith}
use cime.Common.Tests.{Equality, ◌==◌, if◌then◌else◌}
use cime.Common.Lists.{is_some, contains}

abbrev pub Dict {ℓ κ} : Type ℓ → Type κ → Type (ℓ ⊔ κ)
Dict K V = List (K × V)

module _ {ℓ κ} {K : Type ℓ} {V : Type κ} ⦃e : Equality K⦄ where
  -- d.get(k)
  unfoldable pub lookup : K → Dict K V → Option V
  lookup key [] = none
  lookup key ((k, value) ∷ rest) = if k == key then some value else lookup key rest

  -- d[k] = v
  unfoldable pub insert : K → V → Dict K V → Dict K V
  insert key new [] = (key, new) ∷ []
  insert key new ((k, value) ∷ rest) =
      if k == key then (k, new) ∷ rest else (k, value) ∷ insert key new rest

  -- del d[k], d.pop(k, None)
  unfoldable pub remove : K → Dict K V → Dict K V
  remove k [] = []
  remove k ((j, w) ∷ m) = let rest = remove k m in if j == k then rest else (j, w) ∷ rest

  -- for k in list(d): if test(k): del d[k]
  unfoldable pub remove_if : (K → Bool) → Dict K V → Dict K V
  remove_if test [] = []
  remove_if test ((j, w) ∷ m) =
      let rest = remove_if test m in if test j then rest else (j, w) ∷ rest

  -- k in d
  unfoldable pub member : K → Dict K V → Bool
  member k m = is_some (lookup k m)

  abbrev pub keys : Dict K V → List K
  keys = map (λ p. p.0)

  pub lookup-insert :
      (written key : K) (new : V) (d : Dict K V)
      → lookup key (insert written new d) ≡ (if written == key then some new else lookup key d)
  unfolding lookup insert
  lookup-insert written key new [] = refl
  lookup-insert written key new ((k, value) ∷ rest) = ground (
    arith,
    lookup-insert written key new rest,
    e.same_iff k written,
    e.same_iff k key,
    e.same_iff written key,
  )

  pub lookup-remove :
      (k j : K) (m : Dict K V) → lookup j (remove k m) ≡ (if k == j then none else lookup j m)
  unfolding lookup remove
  lookup-remove k j [] = ground arith
  lookup-remove k j ((i, w) ∷ m) =
      ground (arith, e.same_iff k j, e.same_iff i k, e.same_iff i j, lookup-remove k j m)

  pub lookup-remove_if :
      (test : K → Bool) (j : K) (m : Dict K V)
      → lookup j (remove_if test m) ≡ (if test j then none else lookup j m)
  unfolding lookup remove_if
  lookup-remove_if test j [] = ground arith
  lookup-remove_if test j ((i, w) ∷ m) =
      ground (arith, ap test {x = i} {y = j}, e.same_iff i j, lookup-remove_if test j m)

  pub contains-keys : (k : K) (m : Dict K V) → contains (keys m) k ≡ member k m
  unfolding lookup member
  contains-keys k [] = refl
  contains-keys k ((i, w) ∷ m) = ground (arith, contains-keys k m)
