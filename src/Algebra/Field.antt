-- ===== src/Algebra/Field.antt =====
-- The prime field of a pairing engine, `PairingEngine::Fr`, which ark-ff implements: its operations
-- and the laws of a field. `inverse` is `Field::inverse`, which gives `None` exactly at zero.
pub mod Ring
pub mod Inverse
use mathlib.Core.Path.{◌≡◌, sym, ap, ◌∙◌}
use mathlib.Core.Logic.{◌≢◌}
use mathlib.Core.Option.{Option, none, some}

pub record Field {ℓ} (F : Type ℓ) : Type ℓ where
  pub zero : F
  pub one : F
  pub add : F → F → F
  pub neg : F → F
  pub mul : F → F → F
  pub inverse : F → Option F
  pub dec_eq : Discrete F
  pub add_assoc : (a b c : F) → add (add a b) c ≡ add a (add b c)
  pub add_comm : (a b : F) → add a b ≡ add b a
  pub zero-add : (a : F) → add zero a ≡ a
  pub add-neg : (a : F) → add a (neg a) ≡ zero
  pub mul_assoc : (a b c : F) → mul (mul a b) c ≡ mul a (mul b c)
  pub mul_comm : (a b : F) → mul a b ≡ mul b a
  pub one-mul : (a : F) → mul one a ≡ a
  pub mul-add : (a b c : F) → mul a (add b c) ≡ add (mul a b) (mul a c)
  pub one-ne-zero : one ≢ zero
  pub inverse-zero : inverse zero ≡ none
  pub inverse_total : (a : F) → a ≢ zero → (b : F) × (inverse a ≡ some b) × (mul a b ≡ one)

module _ {ℓ} {F : Type ℓ} ⦃f : Field F⦄ where
  infixl 65 ◌+◌ ◌-◌
  infixl 70 ◌*◌
  unfoldable pub ◌+◌ : F → F → F
  a + b = f.add a b

  unfoldable pub ◌*◌ : F → F → F
  a * b = f.mul a b

  unfoldable pub neg : F → F
  neg a = f.neg a

  abbrev pub ◌-◌ : F → F → F
  a - b = a + neg b

  pub add_assoc : (a b c : F) → a + b + c ≡ a + (b + c)
  unfolding ◌+◌
  add_assoc = f.add_assoc

  pub add_comm : (a b : F) → a + b ≡ b + a
  unfolding ◌+◌
  add_comm = f.add_comm

  pub add_left_comm : (a b c : F) → a + (b + c) ≡ b + (a + c)
  add_left_comm a b c = rw (← add_assoc a b c, add_comm a b) (add_assoc b a c)

  pub zero-add : (a : F) → f.zero + a ≡ a
  unfolding ◌+◌
  zero-add = f.zero-add

  pub add-zero : (a : F) → a + f.zero ≡ a
  add-zero a = add_comm a f.zero ∙ zero-add a

  pub add-neg : (a : F) → a + neg a ≡ f.zero
  unfolding ◌+◌ neg
  add-neg = f.add-neg

  pub neg-add_self : (a : F) → neg a + a ≡ f.zero
  neg-add_self a = add_comm (neg a) a ∙ add-neg a

  pub add-neg_cancel : (a b : F) → a + (neg a + b) ≡ b
  add-neg_cancel a b = rw (← add_assoc a (neg a) b, add-neg a) (zero-add b)

  pub neg-add_cancel : (a b : F) → neg a + (a + b) ≡ b
  neg-add_cancel a b = rw (← add_assoc (neg a) a b, neg-add_self a) (zero-add b)

  pub add_left_cancel : (a b c : F) → a + b ≡ a + c → b ≡ c
  add_left_cancel a b c h = sym (neg-add_cancel a b) ∙ ap (◌+◌ (neg a)) h ∙ neg-add_cancel a c

  pub mul_assoc : (a b c : F) → a * b * c ≡ a * (b * c)
  unfolding ◌*◌
  mul_assoc = f.mul_assoc

  pub mul_comm : (a b : F) → a * b ≡ b * a
  unfolding ◌*◌
  mul_comm = f.mul_comm

  pub mul_left_comm : (a b c : F) → a * (b * c) ≡ b * (a * c)
  mul_left_comm a b c = rw (← mul_assoc a b c, mul_comm a b) (mul_assoc b a c)

  pub one-mul : (a : F) → f.one * a ≡ a
  unfolding ◌*◌
  one-mul = f.one-mul

  pub mul-one : (a : F) → a * f.one ≡ a
  mul-one a = mul_comm a f.one ∙ one-mul a

  pub mul-add : (a b c : F) → a * (b + c) ≡ a * b + a * c
  unfolding ◌+◌ ◌*◌
  mul-add = f.mul-add

  pub add-mul : (a b c : F) → (a + b) * c ≡ a * c + b * c
  add-mul a b c = rw (mul_comm (a + b) c, mul_comm a c, mul_comm b c) (mul-add c a b)

  pub mul-zero : (a : F) → a * f.zero ≡ f.zero
  mul-zero a =
      add_left_cancel (a * f.zero) (a * f.zero) f.zero
        (sym (mul-add a f.zero f.zero) ∙ rw (add-zero f.zero, add-zero (a * f.zero)))

  pub zero-mul : (a : F) → f.zero * a ≡ f.zero
  zero-mul a = mul_comm f.zero a ∙ mul-zero a

  pub neg_unique : (a b : F) → a + b ≡ f.zero → b ≡ neg a
  neg_unique a b h = add_left_cancel a b (neg a) (h ∙ sym (add-neg a))

  pub neg-zero : neg f.zero ≡ f.zero
  neg-zero = sym (neg_unique f.zero f.zero (zero-add f.zero))

  pub neg-neg : (a : F) → neg (neg a) ≡ a
  neg-neg a = sym (neg_unique (neg a) a (neg-add_self a))

  pub mul-neg : (a b : F) → a * neg b ≡ neg (a * b)
  mul-neg a b =
      neg_unique (a * b) (a * neg b)
        (sym (mul-add a b (neg b)) ∙ ap (◌*◌ a) (add-neg b) ∙ mul-zero a)

  pub neg-mul : (a b : F) → neg a * b ≡ neg (a * b)
  neg-mul a b = mul_comm (neg a) b ∙ mul-neg b a ∙ ap neg (mul_comm b a)

  pub neg-add : (a b : F) → neg (a + b) ≡ neg a + neg b
  neg-add a b = sym (
      neg_unique (a + b) (neg a + neg b)
        (simp (add_assoc, add_left_comm b (neg a), add-neg_cancel) (add-neg b)))
