-- ===== src/Tpke/Combine/Sign.antt =====
-- The Lagrange coefficients at zero of the fast variant, which differ in sign from those of the simple
-- variant.
use nucypher_ferveo.Base.{ℕ, zero, suc, ◌≡◌, ◌≢◌, refl, sym, ap, ◌∙◌, List, [], ◌∷◌}
use mathlib.Core.Path.{ap₂}
use nucypher_ferveo.Base.Lists.{length, All, Distinct}
use nucypher_ferveo.Base.Predicates.{All-imp, All-both}
use nucypher_ferveo.Algebra.Field.{Field, ◌*◌, ◌-◌, neg, mul-one, mul-neg}
use nucypher_ferveo.Algebra.Field.Ring.{ring}
use nucypher_ferveo.Algebra.Field.Inverse.{inv, mul-inv, sub-ne-zero}
use nucypher_ferveo.Algebra.Space.Sums.{product}
use nucypher_ferveo.Algebra.Poly.Basis.{factor_ne, factor_self, basis}
use nucypher_ferveo.Subproduct.Tree.Lagrange.{
  difference_eq, difference_ne, cofactor, cofactor-ne-zero,
}

module _ {F : Type 0} ⦃f : Field F⦄ where
  -- (-1)^n
  abbrev pub sign : ℕ → F
  sign zero = f.one
  sign (suc n) = neg (sign n)

  regroup :
      (x u i s b k : F)
      → (u - x) * i ≡ f.one
      → u * (s * b * k) ≡ neg s * ((u - f.zero) * i * b) * ((x - u) * k)
  regroup x u i s b k e =
      sym (mul-one (u * (s * b * k))) ∙ ap (◌*◌ (u * (s * b * k))) (sym e) ∙ expand x u i s b k
    where
      expand :
          (x u i s b k : F)
          → u * (s * b * k) * ((u - x) * i) ≡ neg s * ((u - f.zero) * i * b) * ((x - u) * k)
      expand x u i s b k = simp ring

  one_more :
      (x u : F) (us : List F) (p s : F)
      → x ≢ u
      → p ≡ s * basis f.zero us x * cofactor us x
      → u * p ≡ neg s * basis f.zero (u ∷ us) x * cofactor (u ∷ us) x
  unfolding basis cofactor product
  one_more x u us p s ne h =
      ap (◌*◌ u) h
      ∙ regroup x u (inv (u - x)) s (basis f.zero us x) (cofactor us x)
          (mul-inv (u - x) (sub-ne-zero u x (λ e. ne (sym e))))
      ∙ ap₂ (λ a b. neg s * (a * basis f.zero us x) * (b * cofactor us x))
          (sym (factor_ne f.zero x u ne)) (sym (difference_ne x u ne))

  -- Away from the nodes.
  product-basis :
      (x : F) (us : List F)
      → All (λ u. x ≢ u) us
      → product us ≡ sign (length us) * basis f.zero us x * cofactor us x
  unfolding product basis cofactor
  product-basis x [] h = sym (mul-one (f.one * f.one) ∙ mul-one f.one)
  product-basis x (u ∷ us) h =
      one_more x u us (product us) (sign (length us)) h.0 (product-basis x us h.1)

  -- At the nodes: the product of the nodes is minus the node, times the sign, times the basis
  -- polynomial at zero, times the cofactor.
  pub product_at_nodes :
      (us : List F)
      → Distinct us
      → All (λ x. neg (product us) ≡ x * sign (length us) * basis f.zero us x * cofactor us x) us
  unfolding product basis cofactor
  product_at_nodes [] d = tt
  product_at_nodes (u ∷ us) d = (
    ap (λ p. neg (u * p)) (product-basis u us d.0)
        ∙ at_head u (sign (length us)) (basis f.zero us u) (cofactor us u)
        ∙ ap₂ (λ a b. u * neg (sign (length us)) * (a * basis f.zero us u) * (b * cofactor us u))
            (sym (factor_self f.zero u)) (sym (difference_eq u u refl)),
    All-imp _ _ us (λ x (e, ne). at_tail x (λ z. ne (sym z)) e)
        (All-both (λ x. neg (product us) ≡ x * sign (length us) * basis f.zero us x * cofactor us x)
          (λ x. u ≢ x) us (product_at_nodes us d.1) d.0),
  )
    where
      at_head : (u s b k : F) → neg (u * (s * b * k)) ≡ u * neg s * (f.one * b) * (f.one * k)
      at_head u s b k = simp ring

      at_tail :
          (x : F)
          → x ≢ u
          → neg (product us) ≡ x * sign (length us) * basis f.zero us x * cofactor us x
          → neg (u * product us)
            ≡ x * neg (sign (length us)) * basis f.zero (u ∷ us) x * cofactor (u ∷ us) x
      at_tail x ne e =
          sym (mul-neg u (product us))
          ∙ one_more x u us (neg (product us)) (x * sign (length us)) ne e
          ∙ ap (λ s. s * basis f.zero (u ∷ us) x * cofactor (u ∷ us) x)
              (sym (mul-neg x (sign (length us))))

  -- The coefficient that the fast variant computes, divided by the opposite of the node, is that of
  -- the simple variant times the sign.
  pub lagrange_fast :
      (us : List F)
      → Distinct us
      → All (λ x. x ≢ f.zero) us
      → All
          (λ x.
            product us * inv (cofactor us x) * neg (inv x) ≡ sign (length us) * basis f.zero us x)
          us
  lagrange_fast us d nonzero =
      All-imp _ _ us
        (λ x (e, h).
          divide x (product us) (sign (length us)) (basis f.zero us x) (cofactor us x)
            (inv (cofactor us x)) (inv x) e (mul-inv (cofactor us x) (cofactor-ne-zero us x))
            (mul-inv x h))
        (All-both (λ x. neg (product us) ≡ x * sign (length us) * basis f.zero us x * cofactor us x)
          (λ x. x ≢ f.zero) us (product_at_nodes us d) nonzero)
    where
      divide :
          (x p s b k i j : F)
          → neg p ≡ x * s * b * k
          → k * i ≡ f.one
          → x * j ≡ f.one
          → p * i * neg j ≡ s * b
      divide x p s b k i j e hk hx =
          gather p i j
          ∙ ap (λ t. t * i * j) e
          ∙ spread x s b k i j
          ∙ rw (hk, hx) (mul-one (s * b * f.one) ∙ mul-one (s * b))
        where
          gather : (p i j : F) → p * i * neg j ≡ neg p * i * j
          gather p i j = simp ring

          spread : (x s b k i j : F) → x * s * b * k * i * j ≡ s * b * (k * i) * (x * j)
          spread x s b k i j = simp ring
