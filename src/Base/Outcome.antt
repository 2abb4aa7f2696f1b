-- ===== src/Base/Outcome.antt =====
-- The outcome of a fallible function: `Result<A, X>`, and a panic. A panic is what `unwrap` on `None`,
-- an index out of bounds or a failed assertion raises.
use mathlib.Core.Path.{◌≡◌, refl}
use nucypher_ferveo.Base.Tests.{if◌then◌else◌}
use mathlib.Core.Bool.{Bool, true, false}
use mathlib.Core.Option.{Option, none, some}

pub data Outcome {ℓ κ} (X : Type κ) (A : Type ℓ) : Type (ℓ ⊔ κ) where
  ok : A → Outcome X A
  err : X → Outcome X A
  panic : Outcome X A

infixl 5 ◌>>=◌ ◌>>◌
abbrev pub ◌>>=◌ {ℓ μ κ} :
    {X : Type κ} {A : Type ℓ} {B : Type μ} → Outcome X A → (A → Outcome X B) → Outcome X B
ok a >>= f = f a
err x >>= f = err x
panic >>= f = panic

abbrev pub ◌>>◌ {ℓ κ} : {X : Type κ} {B : Type ℓ} → Outcome X (Unit {0}) → Outcome X B → Outcome X B
m >> k = m >>= λ _. k

-- `if !b { return Err(x) }`
abbrev pub ensure {κ} : {X : Type κ} → Bool → X → Outcome X (Unit {0})
ensure true x = ok tt
ensure false x = err x

-- `assert!(b)`
abbrev pub assert {κ} : {X : Type κ} → Bool → Outcome X (Unit {0})
assert true = ok tt
assert false = panic

-- `.unwrap()`
abbrev pub unwrap {ℓ κ} : {X : Type κ} {A : Type ℓ} → Option A → Outcome X A
unwrap (some a) = ok a
unwrap none = panic

-- `.ok_or(x)`
abbrev pub ok_or {ℓ κ} : {X : Type κ} {A : Type ℓ} → Option A → X → Outcome X A
ok_or (some a) x = ok a
ok_or none x = err x

-- Inversion of a chain that succeeds.
pub >>=-eq-ok {ℓ μ κ} :
    {X : Type κ} {A : Type ℓ} {B : Type μ} (outcome : Outcome X A) (next : A → Outcome X B)
    {last : B}
    → (outcome >>= next) ≡ ok last
    → (first : A) × (outcome ≡ ok first) × (next first ≡ ok last)
>>=-eq-ok panic next h = cc
>>=-eq-ok (err x) next h = cc
>>=-eq-ok (ok first) next h = (first, refl, h)

-- A test that decides between success and an error.
pub if_ok {ℓ κ} :
    {X : Type κ} {A : Type ℓ} (b : Bool) (a : A) (x : X)
    → (if b then ok a else err x) ≡ ok a
    → b ≡ true
if_ok true a x h = refl
if_ok false a x h = cc

pub ok_injective {κ ℓ} :
    {X : Type κ} {A : Type ℓ} {a b : A} → ◌≡◌ {A = Outcome X A} (ok a) (ok b) → a ≡ b
ok_injective h = cc
