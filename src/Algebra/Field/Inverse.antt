-- ===== src/Algebra/Field/Inverse.antt =====
-- Division in a field: `Field::inverse().unwrap()` and the operator `/` of ark-ff, which panics at a
-- zero divisor. A panic is `none`.
use mathlib.Core.Path.{◌≡◌, refl, sym, ap, ◌∙◌}
use mathlib.Core.Logic.{◌≢◌}
use mathlib.Core.Option.{Option, none, some}
use mathlib.Core.Option
use nucypher_ferveo.Algebra.Field.{
  Field, ◌*◌, ◌-◌, neg, add-zero, zero-add, mul_assoc, mul_comm, one-mul, add_assoc, neg-add_self,
}

module _ {ℓ} {F : Type ℓ} ⦃f : Field F⦄ where
  -- `a / b`
  unfoldable pub div? : F → F → Option F
  div? a b = elim (f.inverse b) [ none ↦ none | some c ↦ some (a * c) ]

  -- The inverse where there is one, and zero elsewhere.
  unfoldable pub inv : F → F
  inv a = Option.get_or (f.inverse a) f.zero

  pub inverse-inv : (a : F) → a ≢ f.zero → f.inverse a ≡ some (inv a)
  unfolding inv
  inverse-inv a h = let (b, e, _) = f.inverse_total a h in rw e refl

  pub mul-inv : (a : F) → a ≢ f.zero → a * inv a ≡ f.one
  unfolding inv ◌*◌
  mul-inv a h = let (b, e, p) = f.inverse_total a h in rw e p

  pub div?-inv : (a b : F) → b ≢ f.zero → div? a b ≡ some (a * inv b)
  unfolding div?
  div?-inv a b h = rw (inverse-inv b h, div?) refl

  pub mul_cancel : (a b c : F) → a ≢ f.zero → a * b ≡ a * c → b ≡ c
  mul_cancel a b c h e = sym (back b) ∙ ap (◌*◌ (inv a)) e ∙ back c
    where
      back : (x : F) → inv a * (a * x) ≡ x
      back x = rw (← mul_assoc (inv a) a x, mul_comm (inv a) a, mul-inv a h) (one-mul x)

  -- An inverse is unique.
  pub inv_unique : (a b : F) → a ≢ f.zero → a * b ≡ f.one → b ≡ inv a
  inv_unique a b h e = mul_cancel a b (inv a) h (e ∙ sym (mul-inv a h))

  pub eq_of_sub : (a b : F) → a - b ≡ f.zero → a ≡ b
  eq_of_sub a b h =
      sym (add-zero a) ∙ rw (← neg-add_self b, ← add_assoc a (neg b) b, h) (zero-add b)

  pub sub-ne-zero : (a b : F) → a ≢ b → a - b ≢ f.zero
  sub-ne-zero a b h e = h (eq_of_sub a b e)
