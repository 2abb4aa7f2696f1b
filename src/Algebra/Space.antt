-- ===== src/Algebra/Space.antt =====
-- The groups of a pairing engine as vector spaces over its prime field: `G1` and `G2`, written
-- additively by `⊕` and `•`. The third group, the values of pairings in `Fqk`, is written the same
-- way: `⊕` is the product in `Fqk`, `•` is `pow`, and the zero of the group is `Fqk::one()`.
pub mod Sums
use nucypher_ferveo.Base.{◌≡◌, ◌≢◌, sym, ap, ◌∙◌}
use nucypher_ferveo.Algebra.Field.{
  Field, ◌+◌, ◌*◌, ◌-◌, neg, mul_comm, add-neg as add-neg_field, add-zero as add-zero_field,
}
use nucypher_ferveo.Algebra.Field.Inverse.{inv, mul-inv, sub-ne-zero}

pub record Group {ℓ} (G : Type ℓ) : Type ℓ where
  pub zero : G
  pub add : G → G → G
  pub neg : G → G
  pub dec_eq : Discrete G
  pub add_assoc : (a b c : G) → add (add a b) c ≡ add a (add b c)
  pub add_comm : (a b : G) → add a b ≡ add b a
  pub zero-add : (a : G) → add zero a ≡ a
  pub add-neg : (a : G) → add a (neg a) ≡ zero

infixl 65 ◌⊕◌
unfoldable pub ◌⊕◌ {ℓ} : {G : Type ℓ} ⦃g : Group G⦄ → G → G → G
◌⊕◌ ⦃g⦄ = g.add

unfoldable pub minus {ℓ} : {G : Type ℓ} ⦃g : Group G⦄ → G → G
minus ⦃g⦄ = g.neg

module _ {ℓ} {G : Type ℓ} ⦃g : Group G⦄ where
  pub add_assoc : (a b c : G) → a ⊕ b ⊕ c ≡ a ⊕ (b ⊕ c)
  unfolding ◌⊕◌
  add_assoc = g.add_assoc

  pub add_comm : (a b : G) → a ⊕ b ≡ b ⊕ a
  unfolding ◌⊕◌
  add_comm = g.add_comm

  pub add_left_comm : (a b c : G) → a ⊕ (b ⊕ c) ≡ b ⊕ (a ⊕ c)
  add_left_comm a b c = rw (← add_assoc a b c, add_comm a b) (add_assoc b a c)

  pub zero-add : (a : G) → g.zero ⊕ a ≡ a
  unfolding ◌⊕◌
  zero-add = g.zero-add

  pub add-zero : (a : G) → a ⊕ g.zero ≡ a
  add-zero a = add_comm a g.zero ∙ zero-add a

  pub add-minus : (a : G) → a ⊕ minus a ≡ g.zero
  unfolding ◌⊕◌ minus
  add-minus = g.add-neg

  pub add_left_cancel : (a b c : G) → a ⊕ b ≡ a ⊕ c → b ≡ c
  add_left_cancel a b c h = sym (back b) ∙ ap (◌⊕◌ (minus a)) h ∙ back c
    where
      back : (x : G) → minus a ⊕ (a ⊕ x) ≡ x
      back x = rw (← add_assoc (minus a) a x, add_comm (minus a) a, add-minus a) (zero-add x)

  pub minus_unique : (a b : G) → a ⊕ b ≡ g.zero → b ≡ minus a
  minus_unique a b h = add_left_cancel a b (minus a) (h ∙ sym (add-minus a))

pub record Space {ℓ} (F : Type ℓ) ⦃f : Field F⦄ (G : Type ℓ) ⦃g : Group G⦄ : Type ℓ where
  pub smul : F → G → G
  pub one-smul : (a : G) → smul f.one a ≡ a
  pub smul-add : (k : F) (a b : G) → smul k (a ⊕ b) ≡ smul k a ⊕ smul k b
  pub add-smul : (k l : F) (a : G) → smul (k + l) a ≡ smul k a ⊕ smul l a
  pub mul-smul : (k l : F) (a : G) → smul (k * l) a ≡ smul k (smul l a)

module _ {ℓ} {F G : Type ℓ} ⦃f : Field F⦄ ⦃g : Group G⦄ ⦃s : Space F G⦄ where
  infixr 72 ◌•◌
  unfoldable pub ◌•◌ : F → G → G
  ◌•◌ = s.smul

  pub smul-add : (k : F) (a b : G) → k • (a ⊕ b) ≡ k • a ⊕ k • b
  unfolding ◌•◌
  smul-add = s.smul-add

  pub add-smul : (k l : F) (a : G) → (k + l) • a ≡ k • a ⊕ l • a
  unfolding ◌•◌
  add-smul = s.add-smul

  pub mul-smul : (k l : F) (a : G) → (k * l) • a ≡ k • l • a
  unfolding ◌•◌
  mul-smul = s.mul-smul

  pub smul_comm : (k l : F) (a : G) → k • l • a ≡ l • k • a
  smul_comm k l a = sym (mul-smul k l a) ∙ ap (λ m. m • a) (mul_comm k l) ∙ mul-smul l k a

module _ {ℓ} (F : Type ℓ) {G : Type ℓ} ⦃f : Field F⦄ ⦃g : Group G⦄ ⦃s : Space F G⦄ where
  pub one-smul : (a : G) → f.one • a ≡ a
  unfolding ◌•◌
  one-smul = s.one-smul

  pub zero-smul : (a : G) → f.zero • a ≡ g.zero
  zero-smul a = add_left_cancel (f.zero • a) (f.zero • a) g.zero (
      sym (add-smul f.zero f.zero a)
      ∙ ap (λ k. k • a) (add-zero_field f.zero)
      ∙ sym (add-zero (f.zero • a)))

module _ {ℓ} {F G : Type ℓ} ⦃f : Field F⦄ ⦃g : Group G⦄ ⦃s : Space F G⦄ where
  pub smul-zero : (k : F) → k • g.zero ≡ g.zero
  smul-zero k =
      add_left_cancel (k • g.zero) (k • g.zero) g.zero (
        sym (smul-add k g.zero g.zero) ∙ ap (◌•◌ k) (zero-add g.zero) ∙ sym (add-zero (k • g.zero)))

  pub neg-smul : (k : F) (a : G) → neg k • a ≡ minus (k • a)
  neg-smul k a =
      minus_unique (k • a) (neg k • a)
        (sym (add-smul k (neg k) a) ∙ ap (λ m. m • a) (add-neg_field k) ∙ zero-smul F a)

  -- Scaling by an inverse undoes scaling.
  pub inv-smul : (k : F) (a : G) → k ≢ f.zero → inv k • k • a ≡ a
  inv-smul k a h =
      sym (mul-smul (inv k) k a) ∙ ap (λ m. m • a) (mul_comm (inv k) k ∙ mul-inv k h) ∙ one-smul F a

  pub smul_cancel : (k : F) (a b : G) → k ≢ f.zero → k • a ≡ k • b → a ≡ b
  smul_cancel k a b h e = sym (inv-smul k a h) ∙ ap (◌•◌ (inv k)) e ∙ inv-smul k b h

  -- A point that two scalars take to one value is zero, or the scalars agree.
  pub smul_injective : (k l : F) (a : G) → a ≢ g.zero → k • a ≡ l • a → k ≡ l
  smul_injective k l a h e = elim (f.dec_eq k l) [
    | yes p ↦ p
    | no n ↦ absurd (h (smul_cancel (k - l) a g.zero (sub-ne-zero k l n) vanishes))
  ]
    where
      vanishes : (k - l) • a ≡ (k - l) • g.zero
      vanishes =
          add-smul k (neg l) a ∙ rw (e, neg-smul l a, add-minus (l • a)) (sym (smul-zero (k - l)))

-- A sum of scaled points, sorted.
pub ruleset space = (
  add_assoc, add_comm, add_left_comm, zero-add, add-zero, one-smul, smul-add, add-smul, smul-zero,
  zero-smul,
)
