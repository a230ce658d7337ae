-- ===== src/Prelude/Fallible.antt =====
-- `(value, error)` results: either a value or an error of the function's own error type.
use mathlib.Core.Path.{◌≡◌, refl}
use mathlib.Core.Logic.{◌⊎◌, inl, inr}
use mathlib.Core.Bool.{Bool, true, false}
use openussd.Prelude.Tests.{if◌then◌else◌}
use native.Mathlib.Omega.{arith}

pub data Result {ℓ} (E : Type ℓ) (A : Type ℓ) : Type ℓ where
  err : E → Result E A
  ok : A → Result E A

-- `if err := m; err != nil { return …, wrap(err) }`
abbrev pub map_err {ℓ} : {E F A : Type ℓ} → (E → F) → Result E A → Result F A
map_err wrap (err e) = err (wrap e)
map_err wrap (ok a) = ok a

-- The step after a call that may return an error.
abbrev pub ◌>>=◌ {ℓ} : {E A B : Type ℓ} → Result E A → (A → Result E B) → Result E B
err e >>= next = err e
ok a >>= next = next a

abbrev pub ◌>>◌ {ℓ} : {E A B : Type ℓ} → Result E A → Result E B → Result E B
r >> next = r >>= (λ _. next)

infixl 5 ◌>>=◌ ◌>>◌
-- A chain that succeeded, taken apart at its first step.
pub >>=-eq-ok {ℓ} :
    {E A B : Type ℓ} (r : Result E A) (next : A → Result E B) {b : B}
    → (r >>= next) ≡ ok b
    → (a : A) × (r ≡ ok a) × (next a ≡ ok b)
>>=-eq-ok (err e) next h = ground arith
>>=-eq-ok (ok a) next h = (a, refl, h)

-- A check that returns an error passed, if the function succeeded.
pub if_err-eq-ok {ℓ} :
    {E A : Type ℓ} (b : Bool) (e : E) (r : Result E A) {a : A}
    → (if b then err e else r) ≡ ok a
    → (b ≡ false) × (r ≡ ok a)
if_err-eq-ok true e r h = ground arith
if_err-eq-ok false e r h = (refl, h)

pub if_err_pass {ℓ} :
    {E A : Type ℓ} (b : Bool) (e : E) (r : Result E A) → b ≡ false → (if b then err e else r) ≡ r
if_err_pass true e r h = ground arith
if_err_pass false e r h = refl

pub map_err-eq-ok {ℓ} :
    {E F A : Type ℓ} (f : E → F) (r : Result E A) {a : A} → map_err f r ≡ ok a → r ≡ ok a
map_err-eq-ok f (ok b) h = ground arith
map_err-eq-ok f (err e) h = absurd (ground arith)

pub Result-cases {ℓ} :
    {E A : Type ℓ} (r : Result E A) → ((a : A) × (r ≡ ok a)) ⊎ ((e : E) × (r ≡ err e))
Result-cases (ok a) = inl (a, refl)
Result-cases (err e) = inr (e, refl)
