-- ===== src/Subproduct/Division/Remainder.antt =====
-- `fast_divide_monic` divides with remainder (subproductdomain/src/lib.rs).
use Prim.Native.Nat.{◌+◌ as ◌+ℕ◌, ◌-◌ as ◌-ℕ◌}
use nucypher_ferveo.Base.{
  ℕ, zero, suc, ◌<◌, ◌≤◌, ◌≡◌, refl, sym, ap, ◌∙◌, inl, inr, some, List, [], ◌∷◌, arith,
}
use mathlib.Core.List.{reverse, reverse-reverse, append-nil}
use mathlib.Core.Path.{fun_ext, subst}
use mathlib.Core.Option.{some-injective}
use nucypher_ferveo.Base.Panics.{>>=-eq-some}
use nucypher_ferveo.Base.Tests.{
  ltb, leb, ltb→lt, lt→ltb, ltb→ge, leb→le, leb→gt, le→leb, Bool-cases,
}
use nucypher_ferveo.Base.Lists.{length, resize, length-resize, length-reverse}
use nucypher_ferveo.Algebra.Field.{Field, ◌+◌, ◌-◌, add-neg, zero-add}
use nucypher_ferveo.Algebra.Field.Ring.{ring}
use nucypher_ferveo.Algebra.Series.{
  Series, nought, unit, conv, conv_comm, conv_commute, conv_assoc, conv-unit_left, conv-nought_left,
}
use nucypher_ferveo.Algebra.Series.Agree.{
  Agree, IsBounded, Agree-conv_left, Agree-conv_right, conv-IsBounded,
}
use nucypher_ferveo.Algebra.Series.Reversal.{reversal, reversal_lem, reversal-conv}
use nucypher_ferveo.Algebra.DensePolynomials.{DensePolynomials}
use nucypher_ferveo.Algebra.Poly.Coefficients.{
  coeff, coeff-length, coeff-reverse, IsTrimmed, length-IsTrimmed,
}
use nucypher_ferveo.Subproduct.Division.{rev, inverse_mod_xl, divide_by_inverse, fast_divide_monic}
use nucypher_ferveo.Subproduct.Division.Inverse.{
  IsRegular, coeff-resize, inverse_mod_xl-unit, inverse_mod_xl-Agree,
}

module _ {F : Type 0} ⦃f : Field F⦄ where
  -- The reverse of a list with n + 1 elements.
  pub coeff-reverse-length :
      (cs : List F) (n i : ℕ) → length cs ≡ suc n → coeff (reverse cs) i ≡ reversal n (coeff cs) i
  coeff-reverse-length [] n i h = absurd (omega arith)
  coeff-reverse-length (c ∷ cs) n i h =
      coeff-reverse c cs i ∙ ap (λ k. reversal k (coeff (c ∷ cs)) i) (omega arith)

  coeff-IsBounded : (cs : List F) (n : ℕ) → length cs ≡ suc n → IsBounded n (coeff cs)
  coeff-IsBounded cs n h i lt = coeff-length cs i (omega arith)

  pub rev-reverse : (cs : List F) (n : ℕ) → length cs ≡ suc n → rev cs n ≡ some (reverse cs)
  unfolding rev
  rev-reverse cs n h =
      rw
        (
          lt→ltb 0 (length cs) (omega arith),
          le→leb (length cs -ℕ 1) n (omega arith),
          no_padding,
          append-nil cs,
        )
        refl
    where
      no_padding : n -ℕ (length cs -ℕ 1) ≡ 0
      no_padding = omega arith

  -- From n on, g·q has the coefficients of the dividend, where q reverses to the product of the
  -- reversed dividend with an inverse of the reversed divisor.
  quotient-Agree :
      (g q rf inverse : Series F) (n d m : ℕ)
      → IsBounded n g
      → IsBounded d q
      → n +ℕ d ≡ m
      → Agree (suc d) (conv (reversal n g) inverse) unit
      → Agree (suc d) (reversal d q) (conv rf inverse)
      → Agree (suc d) (reversal m (conv g q)) rf
  quotient-Agree g q rf inverse n d m hg hq e hi hr j l =
      reversal-conv n d m g q j hg hq e
      ∙ Agree-conv_right (reversal n g) (reversal d q) (conv rf inverse) (suc d) hr j l
      ∙ ap (λ s. conv (reversal n g) s j) (conv_commute rf inverse)
      ∙ sym (conv_assoc (reversal n g) inverse rf j)
      ∙ Agree-conv_left (conv (reversal n g) inverse) unit rf (suc d) hi j l
      ∙ conv-unit_left rf j

module _ {F : Type 0} ⦃f : Field F⦄ (D : DensePolynomials F) where
  inverse_mod_xl-one :
      (cs : List F) (length : ℕ) (series : Series F)
      → coeff cs zero ≡ f.one
      → ((i : ℕ) → conv (coeff cs) series i ≡ unit i)
      → IsRegular length series
      → (inverse : List F) × (inverse_mod_xl D cs length ≡ some (some inverse))
  inverse_mod_xl-one [] length series h unit_lem regular = absurd (f.one-ne-zero (sym h))
  inverse_mod_xl-one (c ∷ cs) length series h unit_lem regular =
      let (inverse, e, _) = inverse_mod_xl-unit D c cs length series unit_lem regular in
      (inverse, e)

  inverse_mod_xl-one_Agree :
      (cs : List F) (length : ℕ) (inverse : List F)
      → coeff cs zero ≡ f.one
      → inverse_mod_xl D cs length ≡ some (some inverse)
      → Agree length (conv (coeff cs) (coeff inverse)) unit
  inverse_mod_xl-one_Agree [] length inverse h e = absurd (f.one-ne-zero (sym h))
  inverse_mod_xl-one_Agree (c ∷ cs) length inverse h e =
      inverse_mod_xl-Agree D c cs length inverse (λ z. f.one-ne-zero (sym h ∙ z)) e

  -- The difference of the dividend and the product has no coefficient from n on.
  top_coefficients :
      (func divisor inverse short : List F) (n d : ℕ)
      → length func ≡ suc (n +ℕ d)
      → length divisor ≡ suc n
      → Agree (suc d) (conv (coeff (reverse divisor)) (coeff inverse)) unit
      → length short ≡ suc d
      → Agree (suc d) (coeff short) (conv (coeff (reverse func)) (coeff inverse))
      → (i : ℕ) → n ≤ i
      → coeff func i ≡ conv (coeff divisor) (coeff (reverse short)) i
  top_coefficients func divisor inverse short n d hf hg unit_below hs product i le =
      elim (Bool-cases (leb i (n +ℕ d))) [
        | inl e ↦ below (n +ℕ d -ℕ i) (omega (arith, leb→le i (n +ℕ d) e)) (omega arith)
        | inr e ↦
            coeff-length func i (omega (arith, leb→gt i (n +ℕ d) e))
            ∙ sym (
                conv-IsBounded (coeff divisor) (coeff (reverse short)) n d
                  (coeff-IsBounded divisor n hg) bounded i (leb→gt i (n +ℕ d) e))
      ]
    where
      length-quotient : length (reverse short) ≡ suc d
      length-quotient = length-reverse short ∙ hs

      bounded : IsBounded d (coeff (reverse short))
      bounded = coeff-IsBounded (reverse short) d length-quotient

      back :
          (j : ℕ)
          → j < suc d
          → reversal d (coeff (reverse short)) j ≡ conv (coeff (reverse func)) (coeff inverse) j
      back j lt =
          sym (coeff-reverse-length (reverse short) d j length-quotient)
          ∙ ap (λ cs. coeff cs j) (reverse-reverse short)
          ∙ product j lt

      below :
          (j : ℕ)
          → j +ℕ i ≡ n +ℕ d
          → j ≤ d
          → coeff func i ≡ conv (coeff divisor) (coeff (reverse short)) i
      below j e lt =
          sym (reversal_lem (n +ℕ d) j i (coeff func) e)
          ∙ sym (coeff-reverse-length func (n +ℕ d) j hf)
          ∙ sym (
              quotient-Agree (coeff divisor) (coeff (reverse short)) (coeff (reverse func))
                (coeff inverse) n d (n +ℕ d) (coeff-IsBounded divisor n hg) bounded refl
                (λ m l.
                  ap (λ s. conv s (coeff inverse) m)
                    (sym (fun_ext λ t. coeff-reverse-length divisor n t hg))
                  ∙ unit_below m l)
                back j (omega arith))
          ∙ reversal_lem (n +ℕ d) j i (conv (coeff divisor) (coeff (reverse short))) e

  -- What a division returns: f = g·q + r, coefficient by coefficient, and a remainder without a leading
  -- zero and with at most n coefficients.
  abbrev pub IsDivision : ℕ → List F → List F → List F → List F → Type 0
  IsDivision n func divisor quotient remainder =
      ((i : ℕ) → coeff func i ≡ conv (coeff divisor) (coeff quotient) i + coeff remainder i)
      × IsTrimmed remainder
      × (length remainder ≤ n)

  first_of_reverse :
      (divisor : List F) (n : ℕ)
      → length divisor ≡ suc n
      → coeff divisor n ≡ f.one
      → coeff (reverse divisor) zero ≡ f.one
  first_of_reverse divisor n hg monic =
      coeff-reverse-length divisor n zero hg
      ∙ reversal_lem n zero n (coeff divisor) (omega arith)
      ∙ monic

  subtracted-IsDivision :
      (func divisor inverse short remainder : List F) (n d : ℕ)
      → IsTrimmed func
      → length func ≡ suc (n +ℕ d)
      → length divisor ≡ suc n
      → Agree (suc d) (conv (coeff (reverse divisor)) (coeff inverse)) unit
      → short ≡ resize (suc d) f.zero (D.mul (reverse func) inverse)
      → D.sub func (D.mul divisor (reverse short)) ≡ some remainder
      → IsDivision n func divisor (reverse short) remainder
  subtracted-IsDivision func divisor inverse short remainder n d trimmed hf hg unit_below e sub = (
    (λ i.
        split (coeff func i) (conv (coeff divisor) (coeff (reverse short)) i)
        ∙ ap (◌+◌ (conv (coeff divisor) (coeff (reverse short)) i)) (sym (coeffs i))),
    trim,
    length-IsTrimmed n remainder trim vanish,
  )
    where
      trim : IsTrimmed remainder
      trim =
          D.sub-IsTrimmed func (D.mul divisor (reverse short)) trimmed
            (D.mul-IsTrimmed divisor (reverse short)) sub

      split : (a b : F) → a ≡ b + (a - b)
      split a b = simp ring

      coeffs :
          (i : ℕ)
          → coeff remainder i ≡ coeff func i - conv (coeff divisor) (coeff (reverse short)) i
      coeffs i =
          D.coeff-sub func (D.mul divisor (reverse short)) sub i
          ∙ ap (λ x. coeff func i - x) (D.coeff-mul divisor (reverse short) i)

      vanish : (i : ℕ) → n ≤ i → coeff remainder i ≡ f.zero
      vanish i le =
          coeffs i
          ∙ ap (λ x. x - conv (coeff divisor) (coeff (reverse short)) i)
              (top_coefficients func divisor inverse short n d hf hg unit_below
                (ap length e ∙ length-resize (suc d) f.zero (D.mul (reverse func) inverse))
                (λ j l.
                  ap (λ cs. coeff cs j) e
                  ∙ coeff-resize (suc d) j (D.mul (reverse func) inverse) l
                  ∙ D.coeff-mul (reverse func) inverse j)
                i le)
          ∙ add-neg (conv (coeff divisor) (coeff (reverse short)) i)

  divide_by_inverse-total :
      (func divisor : List F) (n d : ℕ) (series : Series F)
      → IsTrimmed func
      → length divisor ≡ suc n
      → coeff divisor n ≡ f.one
      → ((i : ℕ) → conv (coeff (reverse divisor)) series i ≡ unit i)
      → IsRegular (suc d) series
      → (divided : List F × List F) × (divide_by_inverse D func divisor d ≡ some divided)
  unfolding divide_by_inverse
  divide_by_inverse-total func divisor n d series trimmed hg monic unit_lem regular =
      let (inverse, found) =
        inverse_mod_xl-one (reverse divisor) (suc d) series (first_of_reverse divisor n hg monic)
          unit_lem regular in
      let short : List F = resize (suc d) f.zero (D.mul (reverse func) inverse) in
      let (remainder, sub) =
        D.sub_total func (D.mul divisor (reverse short)) trimmed
          (D.mul-IsTrimmed divisor (reverse short)) in
      (
        (reverse short, remainder),
        rw (found, rev-reverse short d (length-resize (suc d) f.zero _), sub) refl,
      )

  divide_by_inverse-IsDivision :
      (func divisor quotient remainder : List F) (n d : ℕ)
      → IsTrimmed func
      → length func ≡ suc (n +ℕ d)
      → length divisor ≡ suc n
      → coeff divisor n ≡ f.one
      → divide_by_inverse D func divisor d ≡ some (quotient, remainder)
      → IsDivision n func divisor quotient remainder
  unfolding divide_by_inverse
  divide_by_inverse-IsDivision func divisor quotient remainder n d trimmed hf hg monic h =
      let (found, e, h1) = >>=-eq-some (inverse_mod_xl D (reverse divisor) (suc d)) _ h in
      let (inverse, e1, h2) = >>=-eq-some found _ h1 in
      let short : List F = resize (suc d) f.zero (D.mul (reverse func) inverse) in
      let (q, reversed, h3) = >>=-eq-some (rev short d) _ h2 in
      let (r, sub, h4) = >>=-eq-some (D.sub func (D.mul divisor q)) _ h3 in
      let q_lem : reverse short ≡ q =
        some-injective _ _
          (sym (rev-reverse short d (length-resize (suc d) f.zero _)) ∙ reversed) in
      let pair : (q, r) ≡ (quotient, remainder) = some-injective _ _ h4 in
      subst (λ p. IsDivision n func divisor p.0 p.1) pair
        (subst (λ a. IsDivision n func divisor a r) q_lem
          (subtracted-IsDivision func divisor inverse short r n d trimmed hf hg
            (inverse_mod_xl-one_Agree (reverse divisor) (suc d) inverse
              (first_of_reverse divisor n hg monic) (e ∙ ap some e1))
            refl (ap (λ a. D.sub func (D.mul divisor a)) q_lem ∙ sub)))

  -- What is returned is a division with remainder.
  pub fast_divide_monic-IsDivision :
      (func divisor quotient remainder : List F) (n : ℕ)
      → IsTrimmed func
      → length divisor ≡ suc n
      → coeff divisor n ≡ f.one
      → fast_divide_monic D func divisor ≡ some (quotient, remainder)
      → IsDivision n func divisor quotient remainder
  unfolding fast_divide_monic
  fast_divide_monic-IsDivision func divisor quotient remainder n trimmed hg monic h =
      elim (Bool-cases (ltb (length func) (length divisor))) [
        | inl e ↦
            let pair : (f.zero ∷ [], func) ≡ (quotient, remainder) =
              some-injective _ _ (sym (rw e refl) ∙ h) in
            subst (λ p. IsDivision n func divisor p.0 p.1) pair
              (
                (λ i. sym (ap (λ x. x + coeff func i) (no_product i) ∙ zero-add (coeff func i))),
                trimmed,
                omega (arith, ltb→lt (length func) (length divisor) e),
              )
        | inr e ↦
            divide_by_inverse-IsDivision func divisor quotient remainder n
              (length func -ℕ length divisor) trimmed
              (omega (arith, ltb→ge (length func) (length divisor) e)) hg monic
              (sym (rw e refl) ∙ h)
      ]
    where
      no_product : (i : ℕ) → conv (coeff divisor) (coeff (f.zero ∷ [])) i ≡ f.zero
      no_product i =
          Agree-conv_right (coeff divisor) (coeff (f.zero ∷ [])) nought (suc i) (λ j l. zeros j) i
            (omega arith)
          ∙ conv_comm (coeff divisor) nought i
          ∙ conv-nought_left (coeff divisor) i
        where
          zeros : (j : ℕ) → coeff (f.zero ∷ []) j ≡ f.zero
          zeros zero = refl
          zeros (suc j) = refl

  -- Division with remainder, for a dividend f without a leading zero and a monic divisor g of degree n:
  -- where the reverse of g times a series is one, and the coefficients 2^k - 1 of this series, with 2^k
  -- less than the number of coefficients of f without n, are not zero, the division succeeds, and its
  -- quotient and remainder satisfy f = g·q + r, coefficient by coefficient; the remainder has no
  -- leading zero and at most n coefficients.
  pub fast_divide_monic-remainder :
      (func divisor : List F) (n : ℕ) (series : Series F)
      → IsTrimmed func
      → length divisor ≡ suc n
      → coeff divisor n ≡ f.one
      → ((i : ℕ) → conv (coeff (reverse divisor)) series i ≡ unit i)
      → IsRegular (length func -ℕ n) series
      → (quotient remainder : List F) × (fast_divide_monic D func divisor
          ≡ some (quotient, remainder))
        × ((i : ℕ) → coeff func i ≡ conv (coeff divisor) (coeff quotient) i + coeff remainder i)
        × IsTrimmed remainder
        × (length remainder ≤ n)
  fast_divide_monic-remainder func divisor n series trimmed hg monic unit_lem regular =
      let (divided, e) = total in
      let (split, trim, short) =
        fast_divide_monic-IsDivision func divisor divided.0 divided.1 n trimmed hg monic e in
      (divided.0, divided.1, e, split, trim, short)
    where
      total : (divided : List F × List F) × (fast_divide_monic D func divisor ≡ some divided)
      total = elim (Bool-cases (ltb (length func) (length divisor))) [
        | inl e ↦ ((f.zero ∷ [], func), unfold fast_divide_monic in rw e refl)
        | inr e ↦
            let (divided, h) =
              divide_by_inverse-total func divisor n (length func -ℕ length divisor) series trimmed
                hg monic unit_lem
                (λ k j p lt.
                  regular k j p (omega (arith, lt, hg, ltb→ge (length func) (length divisor) e))) in
            (divided, unfold fast_divide_monic in rw e h)
      ]
