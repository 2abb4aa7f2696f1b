-- ===== src/Algebra/Series/Agree.antt =====
-- Series up to a power: agreement below it, and what a product keeps of it.
use Prim.Native.Nat.{◌+◌}
use nucypher_ferveo.Base.{ℕ, zero, suc, ◌<◌, ◌≡◌, refl, ap, ◌∙◌, arith}
use nucypher_ferveo.Algebra.Field.{Field, ◌*◌, zero-mul, zero-add, add-zero, mul-zero}
use nucypher_ferveo.Algebra.Series.{
  Series, tail, nought, conv, conv-zero, conv-suc, conv_comm, conv-nought_left,
}

module _ {ℓ} {F : Type ℓ} ⦃f : Field F⦄ where
  -- The coefficients below a power are the same.
  abbrev pub Agree : ℕ → Series F → Series F → Type ℓ
  Agree n s t = (i : ℕ) → i < n → s i ≡ t i

  -- The coefficients above a power vanish.
  abbrev pub IsBounded : ℕ → Series F → Type ℓ
  IsBounded n s = (i : ℕ) → n < i → s i ≡ f.zero

  pub Agree-conv_left : (s s' t : Series F) (n : ℕ) → Agree n s s' → Agree n (conv s t) (conv s' t)
  Agree-conv_left s s' t n h zero lt = rw (conv-zero s t, conv-zero s' t, h zero lt) refl
  Agree-conv_left s s' t n h (suc i) lt =
      rw
        (
          conv-suc s t i,
          conv-suc s' t i,
          h zero (omega arith),
          Agree-conv_left (tail s) (tail s') t (suc i) (λ j l. h (suc j) (omega arith)) i
              (omega arith),
        )
        refl

  pub Agree-conv_right : (s t t' : Series F) (n : ℕ) → Agree n t t' → Agree n (conv s t) (conv s t')
  Agree-conv_right s t t' n h i lt =
      conv_comm s t i ∙ Agree-conv_left t t' s n h i lt ∙ conv_comm t' s i

  -- Factors that vanish below k and below m have a product that vanishes below k + m.
  pub conv-Agree-nought :
      (s t : Series F) (k m : ℕ)
      → Agree k s nought
      → Agree m t nought
      → Agree (k + m) (conv s t) nought
  conv-Agree-nought s t zero m hs ht i lt =
      Agree-conv_right s t nought m ht i (omega arith) ∙ conv_comm s nought i ∙ conv-nought_left s i
  conv-Agree-nought s t (suc k) m hs ht zero lt =
      conv-zero s t ∙ rw (hs zero (omega arith)) (zero-mul (t zero))
  conv-Agree-nought s t (suc k) m hs ht (suc i) lt =
      conv-suc s t i
      ∙ rw
          (
            hs zero (omega arith),
            zero-mul (t (suc i)),
            conv-Agree-nought (tail s) t k m (λ j l. hs (suc j) (omega arith)) ht i (omega arith),
          )
          (zero-add f.zero)

  -- The product of two series without coefficients above m and n has none above m + n, and there the
  -- product of the two.
  pub conv-IsBounded :
      (s t : Series F) (m n : ℕ) → IsBounded m s → IsBounded n t → IsBounded (m + n) (conv s t)
  conv-IsBounded s t m n hs ht zero lt = absurd (omega arith)
  conv-IsBounded s t zero n hs ht (suc i) lt =
      conv-suc s t i
      ∙ rw
          (
            ht (suc i) (omega arith),
            mul-zero (s zero),
            Agree-conv_left (tail s) nought t (suc i) (λ j l. hs (suc j) (omega arith)) i
                (omega arith),
            conv-nought_left t i,
          )
          (zero-add f.zero)
  conv-IsBounded s t (suc m) n hs ht (suc i) lt =
      conv-suc s t i
      ∙ rw
          (
            ht (suc i) (omega arith),
            mul-zero (s zero),
            conv-IsBounded (tail s) t m n (λ j l. hs (suc j) (omega arith)) ht i (omega arith),
          )
          (zero-add f.zero)

  pub conv-top :
      (s t : Series F) (m n : ℕ) → IsBounded m s → IsBounded n t → conv s t (m + n) ≡ s m * t n
  conv-top s t zero zero hs ht = conv-zero s t
  conv-top s t zero (suc n) hs ht =
      ap (conv s t) {x = 0 + suc n} {y = suc n} (omega arith)
      ∙ conv-suc s t n
      ∙ rw
          (
            Agree-conv_left (tail s) nought t (suc n) (λ j l. hs (suc j) (omega arith)) n
                (omega arith),
            conv-nought_left t n,
          )
          (add-zero (s zero * t (suc n)))
  conv-top s t (suc m) n hs ht =
      ap (conv s t) {x = suc m + n} {y = suc (m + n)} (omega arith)
      ∙ conv-suc s t (m + n)
      ∙ rw
          (
            ht (suc (m + n)) (omega arith),
            mul-zero (s zero),
            conv-top (tail s) t m n (λ j l. hs (suc j) (omega arith)) ht,
          )
          (zero-add (s (suc m) * t n))
