-- ===== src/Algebra/Poly/Coefficients.antt =====
-- Polynomials as lists of coefficients and as series: what a list's series says of its values, of its
-- slope, of its reverse and of its length.
use nucypher_ferveo.Base.{
  ℕ, zero, suc, ◌≤◌, ◌≡◌, ◌≢◌, refl, sym, ap, ◌∙◌, List, [], ◌∷◌, ◌++◌, map, arith,
}
use mathlib.Core.List.{reverse, reverse-cons}
use mathlib.Core.Path.{ap₂, fun_ext}
use nucypher_ferveo.Base.Lists.{length, length-reverse}
use nucypher_ferveo.Algebra.Field.{Field, ◌+◌, ◌*◌, mul-zero, zero-add, add-zero}
use nucypher_ferveo.Algebra.Field.Ring.{ring}
use nucypher_ferveo.Algebra.Series.{Series, cons, nought, plus, conv, conv-cons, conv-nought_left}
use nucypher_ferveo.Algebra.Series.Reversal.{reversal, reversal-cons, monomial}
use nucypher_ferveo.Algebra.Poly.{eval, add_coeffs, eval-add_coeffs}

module _ {ℓ} {F : Type ℓ} ⦃f : Field F⦄ where
  abbrev pub coeff : List F → Series F
  coeff [] = nought
  coeff (c ∷ cs) = cons c (coeff cs)

  pub coeff-length : (cs : List F) (i : ℕ) → length cs ≤ i → coeff cs i ≡ f.zero
  coeff-length [] i h = refl
  coeff-length (c ∷ cs) zero h = absurd (omega arith)
  coeff-length (c ∷ cs) (suc i) h = coeff-length cs i (omega arith)

  coeff-append :
      (cs : List F) (a : F) (i : ℕ)
      → coeff (cs ++ (a ∷ [])) i ≡ plus (coeff cs) (monomial a (length cs)) i
  coeff-append [] a i = sym (zero-add (cons a nought i))
  coeff-append (c ∷ cs) a zero = sym (add-zero c)
  coeff-append (c ∷ cs) a (suc i) = coeff-append cs a i

  -- The derivative's value.
  unfoldable pub slope : List F → F → F
  slope [] x = f.zero
  slope (c ∷ cs) x = eval cs x + x * slope cs x

  -- The value and the slope of a list depend only on its series.
  pub eval-coeff :
      (cs ds : List F) (x : F) → ((i : ℕ) → coeff cs i ≡ coeff ds i) → eval cs x ≡ eval ds x
  unfolding eval
  eval-coeff [] [] x h = refl
  eval-coeff [] (d ∷ ds) x h = rw (← h zero, ← eval-coeff [] ds x (λ i. h (suc i))) (simp ring)
  eval-coeff (c ∷ cs) [] x h = rw (h zero, eval-coeff cs [] x (λ i. h (suc i))) (simp ring)
  eval-coeff (c ∷ cs) (d ∷ ds) x h = rw (h zero, eval-coeff cs ds x (λ i. h (suc i))) refl

  pub slope-coeff :
      (cs ds : List F) (x : F) → ((i : ℕ) → coeff cs i ≡ coeff ds i) → slope cs x ≡ slope ds x
  unfolding slope
  slope-coeff [] [] x h = refl
  slope-coeff [] (d ∷ ds) x h =
      rw (← slope-coeff [] ds x (λ i. h (suc i)), ← eval-coeff [] ds x (λ i. h (suc i)))
        (unfold eval in simp ring)
  slope-coeff (c ∷ cs) [] x h =
      rw (slope-coeff cs [] x (λ i. h (suc i)), eval-coeff cs [] x (λ i. h (suc i)))
        (unfold eval in simp ring)
  slope-coeff (c ∷ cs) (d ∷ ds) x h =
      rw (slope-coeff cs ds x (λ i. h (suc i)), eval-coeff cs ds x (λ i. h (suc i))) refl

  pub coeff-add_coeffs :
      (cs ds : List F) (i : ℕ) → coeff (add_coeffs cs ds) i ≡ coeff cs i + coeff ds i
  unfolding add_coeffs
  coeff-add_coeffs [] ds i = sym (zero-add (coeff ds i))
  coeff-add_coeffs (c ∷ cs) [] i = sym (add-zero (coeff (c ∷ cs) i))
  coeff-add_coeffs (c ∷ cs) (d ∷ ds) zero = refl
  coeff-add_coeffs (c ∷ cs) (d ∷ ds) (suc i) = coeff-add_coeffs cs ds i

  pub slope-add_coeffs :
      (cs ds : List F) (x : F) → slope (add_coeffs cs ds) x ≡ slope cs x + slope ds x
  unfolding add_coeffs slope
  slope-add_coeffs [] ds x = simp ring
  slope-add_coeffs (c ∷ cs) [] x = simp ring
  slope-add_coeffs (c ∷ cs) (d ∷ ds) x =
      rw (slope-add_coeffs cs ds x, eval-add_coeffs cs ds x) (simp ring)

  abbrev scaled : F → List F → List F
  scaled a = map (◌*◌ a)

  coeff-scaled : (a : F) (cs : List F) (i : ℕ) → coeff (scaled a cs) i ≡ a * coeff cs i
  coeff-scaled a [] i = sym (mul-zero a)
  coeff-scaled a (c ∷ cs) zero = refl
  coeff-scaled a (c ∷ cs) (suc i) = coeff-scaled a cs i

  eval-scaled : (a : F) (cs : List F) (x : F) → eval (scaled a cs) x ≡ a * eval cs x
  unfolding eval
  eval-scaled a [] x = simp ring
  eval-scaled a (c ∷ cs) x = rw (eval-scaled a cs x) (simp ring)

  slope-scaled : (a : F) (cs : List F) (x : F) → slope (scaled a cs) x ≡ a * slope cs x
  unfolding slope
  slope-scaled a [] x = simp ring
  slope-scaled a (c ∷ cs) x = rw (slope-scaled a cs x, eval-scaled a cs x) (simp ring)

  -- The product of two polynomials, coefficient by coefficient.
  unfoldable pub mul_coeffs : List F → List F → List F
  mul_coeffs [] ds = []
  mul_coeffs (c ∷ cs) ds = add_coeffs (scaled c ds) (f.zero ∷ mul_coeffs cs ds)

  pub coeff-mul_coeffs :
      (cs ds : List F) (i : ℕ) → coeff (mul_coeffs cs ds) i ≡ conv (coeff cs) (coeff ds) i
  unfolding mul_coeffs
  coeff-mul_coeffs [] ds i = sym (conv-nought_left (coeff ds) i)
  coeff-mul_coeffs (c ∷ cs) ds i =
      coeff-add_coeffs (scaled c ds) (f.zero ∷ mul_coeffs cs ds) i
      ∙ ap₂ ◌+◌ (coeff-scaled c ds i) (ap (λ s. cons f.zero s i) (fun_ext (coeff-mul_coeffs cs ds)))
      ∙ sym (conv-cons c (coeff cs) (coeff ds) i)

  pub eval-mul_coeffs : (cs ds : List F) (x : F) → eval (mul_coeffs cs ds) x ≡ eval cs x * eval ds x
  unfolding mul_coeffs eval
  eval-mul_coeffs [] ds x = simp ring
  eval-mul_coeffs (c ∷ cs) ds x =
      eval-add_coeffs (scaled c ds) (f.zero ∷ mul_coeffs cs ds) x
      ∙ rw (eval-scaled c ds x, eval-mul_coeffs cs ds x) (gather c x (eval cs x) (eval ds x))
    where
      gather : (c x u v : F) → c * v + (f.zero + x * (u * v)) ≡ (c + x * u) * v
      gather c x u v = simp ring

  -- The rule of the product.
  pub slope-mul_coeffs :
      (cs ds : List F) (x : F)
      → slope (mul_coeffs cs ds) x ≡ slope cs x * eval ds x + eval cs x * slope ds x
  unfolding mul_coeffs eval slope
  slope-mul_coeffs [] ds x = simp ring
  slope-mul_coeffs (c ∷ cs) ds x =
      slope-add_coeffs (scaled c ds) (f.zero ∷ mul_coeffs cs ds) x
      ∙ rw (slope-scaled c ds x, slope-mul_coeffs cs ds x, eval-mul_coeffs cs ds x)
          (gather c x (eval cs x) (eval ds x) (slope cs x) (slope ds x))
    where
      gather :
          (c x u v p q : F)
          → c * q + (u * v + x * (p * v + u * q)) ≡ (u + x * p) * v + (c + x * u) * q
      gather c x u v p q = simp ring

  -- The last coefficient, where there is one, is not zero.
  abbrev pub IsTrimmed : List F → Type ℓ
  IsTrimmed [] = Unit
  IsTrimmed (c ∷ []) = c ≢ f.zero
  IsTrimmed (c ∷ d ∷ cs) = IsTrimmed (d ∷ cs)

  pub length-IsTrimmed :
      (n : ℕ) (cs : List F) → IsTrimmed cs → ((i : ℕ) → n ≤ i → coeff cs i ≡ f.zero) → length cs ≤ n
  length-IsTrimmed n [] t h = omega arith
  length-IsTrimmed zero (c ∷ []) t h = absurd (t (h zero (omega arith)))
  length-IsTrimmed (suc n) (c ∷ []) t h = omega arith
  length-IsTrimmed zero (c ∷ d ∷ cs) t h =
      absurd (omega (arith, length-IsTrimmed zero (d ∷ cs) t (λ i l. h (suc i) (omega arith))))
  length-IsTrimmed (suc n) (c ∷ d ∷ cs) t h =
      omega (arith, length-IsTrimmed n (d ∷ cs) t (λ i l. h (suc i) (omega arith)))

  -- The reverse of a list is the reversal of its series.
  pub coeff-reverse :
      (c : F) (cs : List F) (i : ℕ)
      → coeff (reverse (c ∷ cs)) i ≡ reversal (length cs) (coeff (c ∷ cs)) i
  coeff-reverse c [] i = refl
  coeff-reverse c (d ∷ cs) i =
      ap (λ ds. coeff ds i) (reverse-cons c (d ∷ cs))
      ∙ coeff-append (reverse (d ∷ cs)) c i
      ∙ ap₂ ◌+◌ (coeff-reverse d cs i) (ap (λ n. monomial c n i) (length-reverse (d ∷ cs)))
      ∙ sym (reversal-cons (length cs) c (coeff (d ∷ cs)) i)
