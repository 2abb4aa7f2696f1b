-- ===== src/Subproduct/Division/Inverse.antt =====
-- `inverse_mod_xl` computes the inverse of a power series (subproductdomain/src/lib.rs).
use Prim.Native.Nat.{◌+◌ as ◌+ℕ◌, ◌*◌ as ◌*ℕ◌, ◌^◌, min}
use nucypher_ferveo.Base.{
  ℕ, zero, suc, ◌<◌, ◌≡◌, ◌≢◌, refl, sym, ap, ◌∙◌, some, none, List, [], ◌∷◌, arith,
}
use native.Mathlib.Nat as Nat
use native.Mathlib.Nat.{pow-suc}
use mathlib.Core.Path.{ap₂, fun_ext}
use nucypher_ferveo.Base.Lists.{length, resize}
use nucypher_ferveo.Algebra.Field.{Field, ◌+◌, ◌*◌, ◌-◌, neg, mul-zero, zero-mul}
use nucypher_ferveo.Algebra.Field.Ring.{ring}
use nucypher_ferveo.Algebra.Field.Inverse.{inv, inverse-inv, mul-inv}
use nucypher_ferveo.Algebra.Series.{
  Series, unit, conv, conv-zero, conv-unit_left, conv_commute, conv_assoc, conv_comm,
}
use nucypher_ferveo.Algebra.Series.Agree.{Agree, Agree-conv_right}
use nucypher_ferveo.Algebra.Series.Newton.{newton, newton-Agree}
use nucypher_ferveo.Algebra.DensePolynomials.{DensePolynomials}
use nucypher_ferveo.Base.Panics.{>>=-eq-some}
use mathlib.Core.Option.{some-injective}
use nucypher_ferveo.Algebra.Poly.Coefficients.{coeff, IsTrimmed}
use nucypher_ferveo.Subproduct.Division.{newton_step, newton_loop, inverse_mod_xl}

module _ {F : Type 0} ⦃f : Field F⦄ where
  -- The coefficients that are kept.
  pub coeff-resize : (n i : ℕ) (cs : List F) → i < n → coeff (resize n f.zero cs) i ≡ coeff cs i
  coeff-resize zero i cs lt = absurd (omega arith)
  coeff-resize (suc n) zero [] lt = refl
  coeff-resize (suc n) (suc i) [] lt = coeff-resize n i [] (omega arith)
  coeff-resize (suc n) zero (c ∷ cs) lt = refl
  coeff-resize (suc n) (suc i) (c ∷ cs) lt = coeff-resize n i cs (omega arith)

  coeff-resize-min :
      (n acc i : ℕ) (cs : List F)
      → n ≡ min (length cs) acc
      → i < acc
      → coeff (resize n f.zero cs) i ≡ coeff cs i
  coeff-resize-min zero acc i [] e lt = refl
  coeff-resize-min (suc n) acc i [] e lt = absurd (omega arith)
  coeff-resize-min zero acc i (c ∷ cs) e lt = absurd (omega arith)
  coeff-resize-min (suc n) acc zero (c ∷ cs) e lt = refl
  coeff-resize-min (suc n) zero (suc i) (c ∷ cs) e lt = absurd (omega arith)
  coeff-resize-min (suc n) (suc acc) (suc i) (c ∷ cs) e lt =
      coeff-resize-min n acc i cs (omega arith) (omega arith)

  -- A cut list without a leading zero: the list was not cut, or the last coefficient kept is not zero.
  resize-IsTrimmed :
      (n acc : ℕ) (cs : List F)
      → n ≡ min (length cs) acc
      → IsTrimmed cs
      → ((j : ℕ) → suc j ≡ acc → coeff cs j ≢ f.zero)
      → IsTrimmed (resize n f.zero cs)
  resize-IsTrimmed zero acc cs e trimmed last = tt
  resize-IsTrimmed (suc n) acc [] e trimmed last = absurd (omega arith)
  resize-IsTrimmed (suc zero) acc (c ∷ []) e trimmed last = trimmed
  resize-IsTrimmed (suc (suc n)) acc (c ∷ []) e trimmed last = absurd (omega arith)
  resize-IsTrimmed (suc zero) acc (c ∷ d ∷ cs) e trimmed last = last zero (omega arith)
  resize-IsTrimmed (suc (suc n)) zero (c ∷ d ∷ cs) e trimmed last = absurd (omega arith)
  resize-IsTrimmed (suc (suc n)) (suc acc) (c ∷ d ∷ cs) e trimmed last =
      resize-IsTrimmed (suc n) acc (d ∷ cs) (omega arith) trimmed
        (λ j h. last (suc j) (omega (arith, h)))

  -- The inverse of a series is determined as far as the products agree.
  pub Agree-inverse :
      (s a h : Series F) (n : ℕ)
      → ((i : ℕ) → conv s h i ≡ unit i)
      → Agree n (conv s a) unit
      → Agree n a h
  Agree-inverse s a h n inverse agree i lt =
      sym (conv-unit_left a i)
      ∙ ap (λ t. conv t a i) (sym (fun_ext inverse) ∙ conv_commute s h)
      ∙ conv_assoc h s a i
      ∙ Agree-conv_right h (conv s a) unit n agree i lt
      ∙ conv_comm h unit i
      ∙ conv-unit_left h i

  -- The coefficients at which the iteration cuts are not zero in the inverse series, below a length.
  abbrev pub IsRegular : ℕ → Series F → Type 0
  IsRegular length inverse = (k j : ℕ) → suc j ≡ 2 ^ k → suc j < length → inverse j ≢ f.zero

module _ {F : Type 0} ⦃f : Field F⦄ (D : DensePolynomials F) where
  opposite : (u v : F) → u - v ≡ u + neg f.one * v
  opposite u v = simp ring

  pub coeff-newton_step :
      (func a : List F) {next : List F}
      → newton_step D func a ≡ some next
      → (i : ℕ) → coeff next i ≡ newton (coeff func) (coeff a) i
  unfolding newton_step
  coeff-newton_step func a h i =
      let (twice, added, subtracted) = >>=-eq-some (D.add a a) _ h in
      D.coeff-sub twice (D.mul func (D.mul a a)) subtracted i
      ∙ ap₂ (λ x y. x - y) (D.coeff-add a a added i)
          (D.coeff-mul func (D.mul a a) i
            ∙ ap (λ s. conv (coeff func) s i) (fun_ext (D.coeff-mul a a)))
      ∙ opposite (coeff a i + coeff a i) (conv (coeff func) (conv (coeff a) (coeff a)) i)

  pub newton_step-IsTrimmed :
      (func a : List F)
      → IsTrimmed a
      → (next : List F) × (newton_step D func a ≡ some next) × IsTrimmed next
  unfolding newton_step
  newton_step-IsTrimmed func a trimmed =
      let (twice, added) = D.add_total a a trimmed trimmed in
      let t = D.add-IsTrimmed a a trimmed trimmed added in
      let product = D.mul func (D.mul a a) in
      let p = D.mul-IsTrimmed func (D.mul a a) in
      let (next, subtracted) = D.sub_total twice product t p in
      (next, rw (added, subtracted) refl, D.sub-IsTrimmed twice product t p subtracted)

  -- A step doubles the number of correct coefficients, and so does its cut result.
  cut-Agree :
      (func a next : List F) (acc k : ℕ)
      → k +ℕ k ≡ acc
      → newton_step D func a ≡ some next
      → Agree k (conv (coeff func) (coeff a)) unit
      → Agree acc (conv (coeff func) (coeff (resize (min (length next) acc) f.zero next))) unit
  cut-Agree func a next acc k e step h i lt =
      Agree-conv_right (coeff func) _ (newton (coeff func) (coeff a)) acc
        (λ m l'. coeff-resize-min _ acc m next refl l' ∙ coeff-newton_step func a step m) i lt
      ∙ newton-Agree (coeff func) (coeff a) k h i (omega arith)

  doubled : (n k : ℕ) → 2 ^ suc n *ℕ k ≡ 2 ^ n *ℕ (2 *ℕ k)
  doubled n k = ap (λ t. t *ℕ k) (pow-suc 2 n) ∙ omega (arith, Nat.mul_assoc (2 ^ n) 2 k)

  -- What the loop returns.
  newton_loop-Agree :
      (n acc k : ℕ) (func a : List F) {b : List F}
      → k +ℕ k ≡ acc
      → Agree k (conv (coeff func) (coeff a)) unit
      → newton_loop D n acc func a ≡ some b
      → Agree (2 ^ n *ℕ k) (conv (coeff func) (coeff b)) unit
  unfolding newton_loop
  newton_loop-Agree zero acc k func a e h r i lt =
      ap (λ cs. conv (coeff func) (coeff cs) i) (sym (some-injective _ _ r)) ∙ h i (omega arith)
  newton_loop-Agree (suc n) acc k func a e h r i lt =
      let (next, step, rest) = >>=-eq-some (newton_step D func a) _ r in
      newton_loop-Agree n (2 *ℕ acc) acc func _ (omega arith) (cut-Agree func a next acc k e step h)
        rest i (omega (arith, doubled n k, ap (λ t. 2 ^ n *ℕ t) twice))
    where
      twice : 2 *ℕ k ≡ acc
      twice = omega (arith, e)

  -- The loop returns where the cut coefficients of the inverse series are not zero.
  newton_loop-total :
      (n t acc : ℕ) (func a : List F) (inverse : Series F)
      → 2 ^ suc t ≡ acc
      → (0 < n → IsTrimmed a)
      → Agree (2 ^ t) (conv (coeff func) (coeff a)) unit
      → ((i : ℕ) → conv (coeff func) inverse i ≡ unit i)
      → ((k j : ℕ) → k < t +ℕ n → suc j ≡ 2 ^ k → inverse j ≢ f.zero)
      → (b : List F) × (newton_loop D n acc func a ≡ some b)
  unfolding newton_loop
  newton_loop-total zero t acc func a inverse e trimmed h unit_lem regular = (a, refl)
  newton_loop-total (suc n) t acc func a inverse e trimmed h unit_lem regular =
      let (next, step, trim) = newton_step-IsTrimmed func a (trimmed (omega arith)) in
      let agree = cut-Agree func a next acc (2 ^ t) (omega (arith, pow-suc 2 t, e)) step h in
      let (b, rest) =
        newton_loop-total n (suc t) (2 *ℕ acc) func (resize (min (length next) acc) f.zero next)
          inverse (omega (arith, pow-suc 2 (suc t), e))
          (λ pos. resize-IsTrimmed (min (length next) acc) acc next refl trim (λ j last z.
            regular (suc t) j (omega (arith, pos)) (last ∙ sym e) (
              sym (Agree-inverse (coeff func) _ inverse acc unit_lem agree j (omega (arith, last)))
              ∙ coeff-resize-min _ acc j next refl (omega (arith, last))
              ∙ z)))
          (λ i lt. agree i (omega (arith, lt, e))) unit_lem
          (λ k j lt. regular k j (omega (arith, lt))) in
      (b, rw (step, rest) refl)

  first_agrees :
      (c : F) (cs : List F) → c ≢ f.zero → Agree 1 (conv (coeff (c ∷ cs)) (coeff (inv c ∷ []))) unit
  first_agrees c cs h zero lt = conv-zero (coeff (c ∷ cs)) (coeff (inv c ∷ [])) ∙ mul-inv c h
  first_agrees c cs h (suc i) lt = absurd (omega arith)

  -- Where the constant is zero, there is no inverse.
  pub inverse_mod_xl-zero :
      (cs : List F) (length : ℕ) → inverse_mod_xl D (f.zero ∷ cs) length ≡ some none
  unfolding inverse_mod_xl
  inverse_mod_xl-zero cs length = rw f.inverse-zero refl

  -- Whatever inverse is returned, its product with the polynomial agrees with one below the power.
  pub inverse_mod_xl-Agree :
      (c : F) (cs : List F) (length : ℕ) (inverse : List F)
      → c ≢ f.zero
      → inverse_mod_xl D (c ∷ cs) length ≡ some (some inverse)
      → Agree length (conv (coeff (c ∷ cs)) (coeff inverse)) unit
  unfolding inverse_mod_xl
  inverse_mod_xl-Agree c cs length inverse ne h i lt =
      let (b, looped, e) =
        >>=-eq-some (newton_loop D (D.log2 length) 2 (c ∷ cs) (inv c ∷ [])) (λ r. some (some r))
          (sym (rw (inverse-inv c ne) refl) ∙ h) in
      ap (λ r. conv (coeff (c ∷ cs)) (coeff r) i) (sym (some-injective _ _ (some-injective _ _ e)))
      ∙ newton_loop-Agree (D.log2 length) 2 1 (c ∷ cs) (inv c ∷ []) refl (first_agrees c cs ne)
          looped i (omega (arith, lt, D.log2_le length))

  -- The inverse of a polynomial modulo a power of x: where the polynomial times a series is one, and
  -- the coefficients 2^k - 1 of this series with 2^k less than the power are not zero, the iteration ends
  -- without a panic, and an inverse is returned, whose product with the polynomial has the constant one
  -- and no other coefficient below that power.
  pub inverse_mod_xl-unit :
      (c : F) (cs : List F) (length : ℕ) (series : Series F)
      → ((i : ℕ) → conv (coeff (c ∷ cs)) series i ≡ unit i)
      → IsRegular length series
      → (inverse : List F) × (inverse_mod_xl D (c ∷ cs) length ≡ some (some inverse))
        × Agree length (conv (coeff (c ∷ cs)) (coeff inverse)) unit
  unfolding inverse_mod_xl
  inverse_mod_xl-unit c cs length series unit_lem regular =
      let (b, looped) =
        newton_loop-total (D.log2 length) 0 2 (c ∷ cs) (inv c ∷ []) series refl
          (λ pos z. inv-ne-zero z) (first_agrees c cs nonzero) unit_lem
          (λ k j lt e. regular k j e (omega (arith, e, D.log2_lt length k (omega (arith, lt))))) in
      (
        b,
        rw (inverse-inv c nonzero, looped) refl,
        λ i lt.
            newton_loop-Agree (D.log2 length) 2 1 (c ∷ cs) (inv c ∷ []) refl
              (first_agrees c cs nonzero) looped i (omega (arith, lt, D.log2_le length)),
      )
    where
      nonzero : c ≢ f.zero
      nonzero z = f.one-ne-zero (
          sym (unit_lem zero)
          ∙ conv-zero (coeff (c ∷ cs)) series
          ∙ ap (λ t. t * series zero) z
          ∙ zero-mul (series zero))

      inv-ne-zero : inv c ≢ f.zero
      inv-ne-zero z = f.one-ne-zero (sym (mul-inv c nonzero) ∙ ap (◌*◌ c) z ∙ mul-zero c)
