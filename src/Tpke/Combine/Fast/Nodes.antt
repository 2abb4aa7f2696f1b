-- ===== src/Tpke/Combine/Fast/Nodes.antt =====
-- The first elements of an evaluation domain, the nodes of the fast variant: they are powers of its
-- generator, and so regular (tpke/src/combine.rs, subproductdomain/src/lib.rs).
use Prim.Native.Nat.{◌+◌ as ◌+ℕ◌}
use nucypher_ferveo.Base.{
  ℕ, zero, suc, ◌<◌, ◌≤◌, ◌≡◌, ◌≢◌, sym, ap, ◌∙◌, some, List, [], ◌∷◌, arith,
}
use mathlib.Core.Path.{subst}
use mathlib.Core.Option.{some-injective}
use nucypher_ferveo.Base.Lists.{get_elem?, take, Distinct, All-get_elem?}
use nucypher_ferveo.Algebra.Field.{Field, ◌*◌, mul_comm, zero-mul}
use nucypher_ferveo.Algebra.Engine.{Engine}
use nucypher_ferveo.Algebra.Domain.{Domain}
use nucypher_ferveo.Subproduct.Tree.Regular.{AreRegular}
use nucypher_ferveo.Subproduct.Tree.Powers.{pow, powers-AreRegular, take-powers}

-- The first of distinct elements is none of the others.
first_differs {ℓ} :
    {A : Type ℓ} (xs : List A) (i : ℕ) {a b : A}
    → Distinct xs
    → get_elem? xs zero ≡ some a
    → get_elem? xs (suc i) ≡ some b
    → a ≢ b
first_differs [] i d h g e = cc
first_differs (x ∷ xs) i {a} {b} d h g e =
    All-get_elem? (λ v. x ≢ v) xs i d.0 g (some-injective _ _ h ∙ e)

module _ (E : Engine) (domain : Domain E) where
  open E use {Fr}

  instance abbrev fr : Field Fr
  fr = E.field

  element-pow : (i : ℕ) → domain.element i ≡ pow domain.group_gen i
  unfolding pow
  element-pow zero = domain.element-zero
  element-pow (suc i) =
      domain.element-suc i
      ∙ ap (λ x. x * domain.group_gen) (element-pow i)
      ∙ mul_comm (pow domain.group_gen i) domain.group_gen

  group_gen-ne-zero : domain.group_gen ≢ fr.zero
  group_gen-ne-zero z = fr.one-ne-zero (
      sym domain.group_gen_inv_lem
      ∙ ap (λ x. x * domain.group_gen_inv) z
      ∙ zero-mul domain.group_gen_inv)

  pub pow-ne-one : (i : ℕ) → 0 < i → i < domain.size → pow domain.group_gen i ≢ fr.one
  pow-ne-one zero pos lt e = absurd (omega (arith, pos))
  pow-ne-one (suc i) pos lt e =
      first_differs domain.elements i domain.elements-Distinct
        (domain.get_elem?-elements zero (omega (arith, lt))) (domain.get_elem?-elements (suc i) lt)
        (domain.element-zero ∙ sym e ∙ sym (element-pow (suc i)))

  pub take-AreRegular : (n : ℕ) → n ≤ domain.size → AreRegular (take n domain.elements)
  take-AreRegular n le =
      subst AreRegular
        (sym (
          take-powers domain.element domain.group_gen 0 n domain.elements domain.element-suc
            (omega (arith, le, domain.length-elements))
            (λ j lt.
              domain.get_elem?-elements j (omega (arith, lt, le))
              ∙ ap (λ k. some (domain.element k)) {y = 0 +ℕ j} (omega arith))))
        (powers-AreRegular (domain.element 0) domain.group_gen n domain.size
          (λ z. fr.one-ne-zero (sym domain.element-zero ∙ z)) group_gen-ne-zero pow-ne-one le)
