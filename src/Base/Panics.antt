-- ===== src/Base/Panics.antt =====
-- Functions that only fail by a panic, `none`.
use mathlib.Core.Path.{◌≡◌, refl}
use mathlib.Core.Bool.{Bool, true, false}
use mathlib.Core.Option.{Option, none, some}
use nucypher_ferveo.Base.Outcome.{Outcome, ok, err, panic}

infixl 5 ◌>>=◌ ◌>>◌
abbrev pub ◌>>=◌ {ℓ μ} : {A : Type ℓ} {B : Type μ} → Option A → (A → Option B) → Option B
some a >>= f = f a
none >>= f = none

abbrev pub ◌>>◌ {ℓ} : {B : Type ℓ} → Option (Unit {0}) → Option B → Option B
m >> k = m >>= λ _. k

-- `assert!(b)`
abbrev pub assert : Bool → Option (Unit {0})
assert true = some tt
assert false = none

-- `.unwrap()` of a result: an error is a panic too.
abbrev pub unwrap_ok {ℓ κ} : {X : Type κ} {A : Type ℓ} → Outcome X A → Option A
unwrap_ok (ok a) = some a
unwrap_ok (err x) = none
unwrap_ok panic = none

-- Inversion of a chain that succeeds.
pub >>=-eq-some {ℓ μ} :
    {A : Type ℓ} {B : Type μ} (o : Option A) (next : A → Option B) {last : B}
    → (o >>= next) ≡ some last
    → (a : A) × (o ≡ some a) × (next a ≡ some last)
>>=-eq-some none next h = cc
>>=-eq-some (some a) next h = (a, refl, h)
