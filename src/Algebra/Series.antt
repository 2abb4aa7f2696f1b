-- ===== src/Algebra/Series.antt =====
-- Formal power series, to which polynomials are compared coefficient by coefficient, and their product.
pub mod Agree
pub mod Reversal
pub mod Newton
use nucypher_ferveo.Base.{ℕ, zero, suc, ◌≡◌, refl, sym, ap, ◌∙◌}
use mathlib.Core.Path.{ap₂, fun_ext}
use nucypher_ferveo.Algebra.Field.{
  Field, ◌+◌, ◌*◌, neg, add_comm, add_assoc, mul-zero, zero-mul, zero-add, add-zero, one-mul,
}
use nucypher_ferveo.Algebra.Field.Ring.{ring}

-- The coefficient of each power.
abbrev pub Series {ℓ} : Type ℓ → Type ℓ
Series F = ℕ → F

module _ {ℓ} {F : Type ℓ} ⦃f : Field F⦄ where
  -- The series with a constant and the other coefficients.
  abbrev pub cons : F → Series F → Series F
  cons a s zero = a
  cons a s (suc i) = s i

  abbrev pub tail : Series F → Series F
  tail s i = s (suc i)

  abbrev pub nought : Series F
  nought i = f.zero

  abbrev pub unit : Series F
  unit = cons f.one nought

  abbrev pub plus : Series F → Series F → Series F
  plus s t i = s i + t i

  abbrev pub scale : F → Series F → Series F
  scale a s i = a * s i

  -- The Cauchy product.
  unfoldable pub conv : Series F → Series F → Series F
  conv s t zero = s zero * t zero
  conv s t (suc n) = s zero * t (suc n) + conv (tail s) t n

  pub conv-zero : (s t : Series F) → conv s t zero ≡ s zero * t zero
  unfolding conv
  conv-zero s t = refl

  pub conv-suc :
      (s t : Series F) (n : ℕ) → conv s t (suc n) ≡ s zero * t (suc n) + conv (tail s) t n
  unfolding conv
  conv-suc s t n = refl

  pub cons_eta : (s : Series F) → cons (s zero) (tail s) ≡ s
  cons_eta s = fun_ext pointwise
    where
      pointwise : (i : ℕ) → cons (s zero) (tail s) i ≡ s i
      pointwise zero = refl
      pointwise (suc i) = refl

  pub conv-plus_left : (s t r : Series F) (n : ℕ) → conv (plus s t) r n ≡ conv s r n + conv t r n
  unfolding conv
  conv-plus_left s t r zero = simp ring
  conv-plus_left s t r (suc n) = rw (conv-plus_left (tail s) (tail t) r n) (simp ring)

  pub conv-scale_left : (a : F) (s r : Series F) (n : ℕ) → conv (scale a s) r n ≡ a * conv s r n
  unfolding conv
  conv-scale_left a s r zero = simp ring
  conv-scale_left a s r (suc n) = rw (conv-scale_left a (tail s) r n) (simp ring)

  pub conv-nought_left : (r : Series F) (n : ℕ) → conv nought r n ≡ f.zero
  unfolding conv
  conv-nought_left r zero = zero-mul (r zero)
  conv-nought_left r (suc n) = rw (conv-nought_left r n) (simp ring)

  -- The recursion on the second factor.
  pub conv-suc_right :
      (s t : Series F) (n : ℕ) → conv s t (suc n) ≡ conv s (tail t) n + s (suc n) * t zero
  unfolding conv
  conv-suc_right s t zero = refl
  conv-suc_right s t (suc n) = rw (conv-suc_right (tail s) t n) (sym (add_assoc _ _ _))

  pub conv_comm : (s t : Series F) (n : ℕ) → conv s t n ≡ conv t s n
  conv_comm s t zero = unfold conv in simp ring
  conv_comm s t (suc n) =
      rw (conv-suc s t n, conv-suc_right t s n, conv_comm (tail s) t n) (simp ring)

  pub conv_commute : (s t : Series F) → conv s t ≡ conv t s
  conv_commute s t = fun_ext (conv_comm s t)

  tail-conv : (s t : Series F) → tail (conv s t) ≡ plus (scale (s zero) (tail t)) (conv (tail s) t)
  tail-conv s t = fun_ext (conv-suc s t)

  pub conv_assoc : (s t r : Series F) (n : ℕ) → conv (conv s t) r n ≡ conv s (conv t r) n
  conv_assoc s t r zero = unfold conv in simp ring
  conv_assoc s t r (suc n) =
      rw
        (
          conv-suc (conv s t) r n,
          conv-suc s (conv t r) n,
          conv-suc t r n,
          conv-zero s t,
          tail-conv s t,
          conv-plus_left (scale (s zero) (tail t)) (conv (tail s) t) r n,
          conv-scale_left (s zero) (tail t) r n,
          conv_assoc (tail s) t r n,
        )
        (simp ring)

  pub conv-cons :
      (a : F) (s t : Series F) (n : ℕ) → conv (cons a s) t n ≡ a * t n + cons f.zero (conv s t) n
  unfolding conv
  conv-cons a s t zero = sym (add-zero (a * t zero))
  conv-cons a s t (suc n) = refl

  pub conv-unit_left : (t : Series F) (n : ℕ) → conv unit t n ≡ t n
  unfolding conv
  conv-unit_left t zero = one-mul (t zero)
  conv-unit_left t (suc n) = rw (conv-nought_left t n, one-mul (t (suc n))) (add-zero (t (suc n)))
