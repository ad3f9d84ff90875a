-- ===== src/Common/Except.antt =====
-- `expect` of scripts/lib/CIME/utils.py raises a CIMEError; a function that may raise returns a
-- `Result`, with an error type for each component.
use mathlib.Core.Path.{◌≡◌, refl}
use mathlib.Core.Bool.{Bool, true, false}
use cime.Common.Tests.{if◌then◌else◌}

pub data Result (E A : Type 0) : Type 0 where
  ok : A → Result E A
  err : E → Result E A

-- expect(condition, message)
abbrev pub expect : {E : Type 0} → Bool → E → Result E (Unit {0})
expect true e = ok tt
expect false e = err e

-- What comes after a step that may raise.
infixl 5 ◌>>=◌
abbrev pub ◌>>=◌ : {E A B : Type 0} → Result E A → (A → Result E B) → Result E B
◌>>=◌ step rest = elim step [ ok a ↦ rest a | err e ↦ err e ]

infixl 5 ◌>>◌
abbrev pub ◌>>◌ : {E B : Type 0} → Result E (Unit {0}) → Result E B → Result E B
step >> rest = step >>= (λ _. rest)

-- What is behind a result that came after a step.
pub ok_of_bind :
    {E A B : Type 0} (step : Result E A) (rest : A → Result E B) {result : B}
    → (step >>= rest) ≡ ok result
    → (a : A) × (step ≡ ok a) × (rest a ≡ ok result)
ok_of_bind (ok a) rest done = (a, refl, done)
ok_of_bind (err e) rest done = cc

-- The function returns: it does not raise.
abbrev pub IsOk : {E A : Type 0} → Result E A → Type 0
IsOk {A = A} result = (a : A) × (result ≡ ok a)

pub IsOk-bind :
    {E A B : Type 0} (step : Result E A) (rest : A → Result E B)
    → IsOk step
    → ((a : A) → step ≡ ok a → IsOk (rest a))
    → IsOk (step >>= rest)
IsOk-bind step rest (a, done) after = rw done (after a done)

pub IsOk-if :
    {E A : Type 0} (test : Bool) (here there : Result E A)
    → (test ≡ true → IsOk here)
    → (test ≡ false → IsOk there)
    → IsOk (if test then here else there)
IsOk-if true here there on_true on_false = on_true refl
IsOk-if false here there on_true on_false = on_false refl

pub IsOk-expect : {E : Type 0} (test : Bool) (e : E) → test ≡ true → IsOk (expect test e)
IsOk-expect test e holds = (tt, rw holds refl)
