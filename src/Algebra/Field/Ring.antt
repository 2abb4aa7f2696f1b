-- ===== src/Algebra/Field/Ring.antt =====
-- Equations between sums of products in a field, proved by sorting both sides.
use mathlib.Core.Path.{◌≡◌}
use nucypher_ferveo.Algebra.Field.{
  Field, ◌+◌, ◌*◌, ◌-◌, neg, add_assoc, add_comm, add_left_comm, zero-add, add-zero, add-neg,
  neg-add_self, add-neg_cancel, neg-add_cancel, mul_assoc, mul_comm, mul_left_comm, one-mul,
  mul-one, mul-add, add-mul, mul-zero, zero-mul, neg-zero, neg-neg, mul-neg, neg-mul, neg-add,
}

module _ {ℓ} {F : Type ℓ} ⦃f : Field F⦄ where
  -- A term and its negation cancel across the terms that a sorted sum puts between them.
  pub cancel_across : (a x : F) → a + (x + neg a) ≡ x
  cancel_across a x = rw (add_left_comm a x (neg a), add-neg a) (add-zero x)

  pub cancel_over : (a x b : F) → a + (x + (neg a + b)) ≡ x + b
  cancel_over a x b = rw (add_left_comm a x (neg a + b), add-neg_cancel a b)

  pub cancel_across_two : (a x y : F) → a + (x + (y + neg a)) ≡ x + y
  cancel_across_two a x y = rw (add_left_comm a x (y + neg a), cancel_across a y)

  pub cancel_over_two : (a x y b : F) → a + (x + (y + (neg a + b))) ≡ x + (y + b)
  cancel_over_two a x y b = rw (add_left_comm a x (y + (neg a + b)), cancel_over a y b)

  pub cancel_across_three : (a x y z : F) → a + (x + (y + (z + neg a))) ≡ x + (y + z)
  cancel_across_three a x y z = rw (add_left_comm a x (y + (z + neg a)), cancel_across_two a y z)

  pub cancel_over_three : (a x y z b : F) → a + (x + (y + (z + (neg a + b)))) ≡ x + (y + (z + b))
  cancel_over_three a x y z b =
      rw (add_left_comm a x (y + (z + (neg a + b))), cancel_over_two a y z b)

-- Both sides of an equation between sums of products, sorted alike.
pub ruleset ring = (
  add_assoc, add_comm, add_left_comm, zero-add, add-zero, mul_assoc, mul_comm, mul_left_comm,
  one-mul, mul-one, mul-zero, zero-mul, mul-add, add-mul, neg-zero, neg-neg, mul-neg, neg-mul,
  neg-add, add-neg, neg-add_self, add-neg_cancel, neg-add_cancel, cancel_across, cancel_over,
  cancel_across_two, cancel_over_two, cancel_across_three, cancel_over_three,
)
