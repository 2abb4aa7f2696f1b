-- ===== src/Algebra/Series/Newton.antt =====
-- A step of Newton's iteration doubles the number of coefficients at which a series is an inverse.
use Prim.Native.Nat.{◌+◌ as ◌+ℕ◌}
use nucypher_ferveo.Base.{ℕ, ◌≡◌, sym, ap, ◌∙◌}
use mathlib.Core.Path.{ap₂, fun_ext}
use nucypher_ferveo.Algebra.Field.{Field, ◌+◌, ◌*◌, ◌-◌, neg}
use nucypher_ferveo.Algebra.Field.Ring.{ring}
use nucypher_ferveo.Algebra.Series.{
  Series, plus, scale, unit, nought, conv, conv_comm, conv_commute, conv_assoc, conv-plus_left,
  conv-scale_left, conv-unit_left,
}
use nucypher_ferveo.Algebra.Series.Agree.{Agree, conv-Agree-nought}

module _ {ℓ} {F : Type ℓ} ⦃f : Field F⦄ where
  -- 2a - s a²
  abbrev pub newton : Series F → Series F → Series F
  newton s a = plus (plus a a) (scale (neg f.one) (conv s (conv a a)))

  minus_one : (x : F) → neg f.one * x ≡ neg x
  minus_one x = simp ring

  -- 1 - s a
  abbrev error : Series F → Series F
  error p = plus unit (scale (neg f.one) p)

  conv-error : (p t : Series F) (i : ℕ) → conv (error p) t i ≡ t i - conv p t i
  conv-error p t i =
      conv-plus_left unit (scale (neg f.one) p) t i
      ∙ ap₂ ◌+◌ (conv-unit_left t i) (conv-scale_left (neg f.one) p t i ∙ minus_one (conv p t i))

  square : (s a : Series F) (i : ℕ) → conv (conv s (conv a a)) s i ≡ conv (conv s a) (conv s a) i
  square s a i =
      conv_assoc s (conv a a) s i
      ∙ ap (λ t. conv s t i) (fun_ext (conv_assoc a a s) ∙ ap (conv a) (conv_commute a s))
      ∙ sym (conv_assoc s a (conv s a) i)

  conv-newton :
      (s a : Series F) (i : ℕ)
      → conv s (newton s a) i ≡ conv s a i + conv s a i - conv (conv s a) (conv s a) i
  conv-newton s a i =
      conv_comm s (newton s a) i
      ∙ conv-plus_left (plus a a) (scale (neg f.one) (conv s (conv a a))) s i
      ∙ ap₂ ◌+◌ (conv-plus_left a a s i ∙ ap₂ ◌+◌ (conv_comm a s i) (conv_comm a s i)) (
          conv-scale_left (neg f.one) (conv s (conv a a)) s i
          ∙ minus_one (conv (conv s (conv a a)) s i)
          ∙ ap neg (square s a i))

  -- 1 - s (2a - s a²) = (1 - s a)²
  error-newton :
      (s a : Series F) (i : ℕ)
      → conv s (newton s a) i ≡ unit i - conv (error (conv s a)) (error (conv s a)) i
  error-newton s a i =
      conv-newton s a i
      ∙ gather (unit i) (conv s a i) (conv (conv s a) (conv s a) i)
      ∙ ap (λ x. unit i - x) (sym expand)
    where
      gather : (u p q : F) → p + p - q ≡ u - (u + neg f.one * p - (p - q))
      gather u p q = simp ring

      expand :
          conv (error (conv s a)) (error (conv s a)) i
          ≡ unit i + neg f.one * conv s a i - (conv s a i - conv (conv s a) (conv s a) i)
      expand =
          conv-error (conv s a) (error (conv s a)) i
          ∙ ap (λ x. error (conv s a) i - x)
              (conv_comm (conv s a) (error (conv s a)) i ∙ conv-error (conv s a) (conv s a) i)

  pub newton-Agree :
      (s a : Series F) (k : ℕ) → Agree k (conv s a) unit → Agree (k +ℕ k) (conv s (newton s a)) unit
  newton-Agree s a k h i lt =
      error-newton s a i
      ∙ ap (λ x. unit i - x)
          (conv-Agree-nought (error (conv s a)) (error (conv s a)) k k small small i lt)
      ∙ drop_zero (unit i)
    where
      small : Agree k (error (conv s a)) nought
      small j l = ap (λ x. unit j + neg f.one * x) (h j l) ∙ cancel (unit j)
        where
          cancel : (u : F) → u + neg f.one * u ≡ f.zero
          cancel u = simp ring

      drop_zero : (u : F) → u - f.zero ≡ u
      drop_zero u = simp ring
