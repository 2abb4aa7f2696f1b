-- ===== src/Subproduct/Division/Cut.antt =====
-- The panic of `inverse_mod_xl` at a list that is cut after a zero (subproductdomain/src/lib.rs).
use Prim.Native.Nat.{◌^◌, min}
use nucypher_ferveo.Base.{
  ℕ, zero, suc, ◌<◌, ◌≤◌, ◌≡◌, ◌≢◌, refl, sym, ap, ◌∙◌, none, List, [], ◌∷◌, arith,
}
use mathlib.Core.Path.{ap₂}
use nucypher_ferveo.Base.Lists.{length, resize}
use nucypher_ferveo.Algebra.Field.{
  Field, ◌+◌, ◌*◌, ◌-◌, neg, add-neg, mul-zero, mul-one, mul_comm, mul_assoc, add-zero, neg-neg,
  neg-zero,
}
use nucypher_ferveo.Algebra.Field.Ring.{ring}
use nucypher_ferveo.Algebra.Field.Inverse.{inv, inverse-inv, mul-inv, mul_cancel}
use nucypher_ferveo.Algebra.Series.{conv}
use nucypher_ferveo.Algebra.Series.Newton.{newton}
use nucypher_ferveo.Algebra.DensePolynomials.{DensePolynomials}
use nucypher_ferveo.Algebra.Poly.Coefficients.{coeff}
use nucypher_ferveo.Subproduct.Division.{newton_step, newton_loop, inverse_mod_xl}
use nucypher_ferveo.Subproduct.Division.Inverse.{coeff-newton_step, newton_step-IsTrimmed}

module _ {F : Type 0} ⦃f : Field F⦄ where
  cut_two :
      (cs : List F)
      → coeff cs 2 ≢ f.zero
      → resize (min (length cs) 2) f.zero cs ≡ coeff cs 0 ∷ coeff cs 1 ∷ []
  cut_two [] h = absurd (h refl)
  cut_two (x ∷ []) h = absurd (h refl)
  cut_two (x ∷ y ∷ []) h = absurd (h refl)
  cut_two (x ∷ y ∷ z ∷ cs) h = ap (λ n. resize n f.zero (x ∷ y ∷ z ∷ cs)) {y = 2} (omega arith)

  swap : (k d : F) → d * (k * k) ≡ k * (k * d)
  swap k d = mul_comm d (k * k) ∙ mul_assoc k k d

  newton_first :
      (c d k : F) (cs : List F)
      → newton (coeff (c ∷ f.zero ∷ d ∷ cs)) (coeff (k ∷ [])) 0 ≡ k + (k - c * (k * k))
  unfolding conv
  newton_first c d k cs = simp ring (ap (λ t. k + (k + neg t)) (sym (swap k c)))

  newton_second :
      (c d k : F) (cs : List F) → newton (coeff (c ∷ f.zero ∷ d ∷ cs)) (coeff (k ∷ [])) 1 ≡ f.zero
  unfolding conv
  newton_second c d k cs = simp ring

  newton_third :
      (c d k : F) (cs : List F)
      → newton (coeff (c ∷ f.zero ∷ d ∷ cs)) (coeff (k ∷ [])) 2 ≡ neg (d * (k * k))
  unfolding conv
  newton_third c d k cs = simp ring (ap neg (sym (swap k d)))

module _ {F : Type 0} ⦃f : Field F⦄ (D : DensePolynomials F) where
  -- The second iteration adds a list that ends with a zero.
  second_step : (func : List F) (x : F) → x ≢ f.zero → newton_step D func (x ∷ f.zero ∷ []) ≡ none
  unfolding newton_step
  second_step func x h = rw (D.add_panic (x ∷ f.zero ∷ []) 0 h (λ t. t refl)) refl

  -- The loop panics, where at least two iterations are left.
  newton_loop-none :
      (n : ℕ) (c d : F) (cs : List F)
      → c ≢ f.zero
      → d ≢ f.zero
      → newton_loop D (suc (suc n)) 2 (c ∷ f.zero ∷ d ∷ cs) (inv c ∷ []) ≡ none
  unfolding newton_loop
  newton_loop-none n c d cs hc hd =
      let (next, step, _) = newton_step-IsTrimmed D (c ∷ f.zero ∷ d ∷ cs) (inv c ∷ []) inverse-ne in
      let at = coeff-newton_step D (c ∷ f.zero ∷ d ∷ cs) (inv c ∷ []) step in
      let third : coeff next 2 ≢ f.zero =
        λ z. third-ne (sym (at 2 ∙ newton_third c d (inv c) cs) ∙ z) in
      let cut : resize (min (length next) 2) f.zero next ≡ inv c ∷ f.zero ∷ [] =
        cut_two next third
        ∙ ap₂ (λ a b. a ∷ b ∷ []) (at 0 ∙ newton_first c d (inv c) cs ∙ constant)
            (at 1 ∙ newton_second c d (inv c) cs) in
      rw (step, cut, second_step (c ∷ f.zero ∷ d ∷ cs) (inv c) inverse-ne) refl
    where
      inverse-ne : inv c ≢ f.zero
      inverse-ne z = f.one-ne-zero (sym (mul-inv c hc) ∙ ap (◌*◌ c) z ∙ mul-zero c)

      constant : inv c + (inv c - c * (inv c * inv c)) ≡ inv c
      constant =
          rw (swap (inv c) c, mul_comm (inv c) c, mul-inv c hc, mul-one (inv c), add-neg (inv c))
            (add-zero (inv c))

      third-ne : neg (d * (inv c * inv c)) ≢ f.zero
      third-ne z = hd (
          mul_cancel (inv c) d f.zero inverse-ne (
            mul_cancel (inv c) (inv c * d) (inv c * f.zero) inverse-ne (
              sym (swap (inv c) d)
              ∙ sym (neg-neg (d * (inv c * inv c)))
              ∙ ap neg z
              ∙ neg-zero
              ∙ sym (ap (◌*◌ (inv c)) (mul-zero (inv c)) ∙ mul-zero (inv c)))))

  -- For a polynomial whose constant and quadratic coefficients are not zero and whose linear
  -- coefficient is zero, the inverse modulo a power of x greater than two panics.
  pub inverse_mod_xl-panic :
      (c d : F) (cs : List F) (length : ℕ)
      → c ≢ f.zero
      → d ≢ f.zero
      → 2 < length
      → inverse_mod_xl D (c ∷ f.zero ∷ d ∷ cs) length ≡ none
  unfolding inverse_mod_xl
  inverse_mod_xl-panic c d cs length hc hd lt =
      rw (inverse-inv c hc, looped (D.log2 length) (D.log2_le length)) refl
    where
      looped :
          (n : ℕ) → length ≤ 2 ^ n → newton_loop D n 2 (c ∷ f.zero ∷ d ∷ cs) (inv c ∷ []) ≡ none
      looped zero le = absurd (omega (arith, lt, le))
      looped (suc zero) le = absurd (omega (arith, lt, le))
      looped (suc (suc n)) le = newton_loop-none n c d cs hc hd
