-- ===== src/Algebra/Series/Reversal.antt =====
-- The reversal of a series up to a power, x^n f(1/x), and that it is multiplicative.
use Prim.Native.Nat.{◌+◌ as ◌+ℕ◌}
use nucypher_ferveo.Base.{ℕ, zero, suc, ◌≡◌, refl, sym, ap, ◌∙◌, arith}
use mathlib.Core.Path.{ap₂, fun_ext}
use nucypher_ferveo.Algebra.Field.{
  Field, ◌+◌, ◌*◌, zero-add, add-zero, mul-zero, zero-mul, add_comm,
}
use nucypher_ferveo.Algebra.Series.{
  Series, cons, cons_eta, tail, nought, plus, scale, conv, conv-cons, conv-plus_left,
  conv-nought_left,
}
use nucypher_ferveo.Algebra.Series.Agree.{IsBounded}

module _ {ℓ} {F : Type ℓ} ⦃f : Field F⦄ where
  -- The coefficients up to the power n, the last one first.
  abbrev pub reversal : ℕ → Series F → Series F
  reversal zero s = cons (s zero) nought
  reversal (suc n) s = cons (s (suc n)) (reversal n s)

  -- Multiplication with x^n.
  abbrev pub shift : ℕ → Series F → Series F
  shift zero s = s
  shift (suc n) s = cons f.zero (shift n s)

  -- a x^n
  abbrev pub monomial : F → ℕ → Series F
  monomial a n = shift n (cons a nought)

  pub reversal_lem : (n i k : ℕ) (s : Series F) → i +ℕ k ≡ n → reversal n s i ≡ s k
  reversal_lem zero zero k s e = ap s (omega arith)
  reversal_lem zero (suc i) k s e = absurd (omega arith)
  reversal_lem (suc n) zero k s e = ap s (omega arith)
  reversal_lem (suc n) (suc i) k s e = reversal_lem n i k s (omega arith)

  pub reversal-cons :
      (n : ℕ) (a : F) (s : Series F) (i : ℕ)
      → reversal (suc n) (cons a s) i ≡ plus (reversal n s) (monomial a (suc n)) i
  reversal-cons zero a s zero = sym (add-zero (s zero))
  reversal-cons zero a s (suc zero) = sym (zero-add a)
  reversal-cons zero a s (suc (suc i)) = sym (add-zero f.zero)
  reversal-cons (suc n) a s zero = sym (add-zero (s (suc n)))
  reversal-cons (suc n) a s (suc i) = reversal-cons n a s i

  -- Above its last coefficient a reversal starts with zeros.
  pub reversal-bounded :
      (q n m : ℕ) (s : Series F)
      → IsBounded q s
      → n +ℕ q ≡ m
      → reversal m s ≡ shift n (reversal q s)
  reversal-bounded q zero m s h e = ap (λ k. reversal k s) (omega arith)
  reversal-bounded q (suc n) zero s h e = absurd (omega arith)
  reversal-bounded q (suc n) (suc m) s h e =
      ap (λ a. cons a (reversal m s)) (h (suc m) (omega arith))
      ∙ ap (cons f.zero) (reversal-bounded q n m s h (omega arith))

  conv-shift : (n : ℕ) (s t : Series F) → conv (shift n s) t ≡ shift n (conv s t)
  conv-shift zero s t = refl
  conv-shift (suc n) s t = fun_ext (λ i.
      conv-cons f.zero (shift n s) t i
      ∙ rw (zero-mul (t i), conv-shift n s t) (zero-add (cons f.zero (shift n (conv s t)) i)))

  conv-constant : (a : F) (t : Series F) (i : ℕ) → conv (cons a nought) t i ≡ a * t i
  conv-constant a t i = conv-cons a nought t i ∙ ap (◌+◌ (a * t i)) (vanish i) ∙ add-zero (a * t i)
    where
      vanish : (i : ℕ) → cons f.zero (conv nought t) i ≡ f.zero
      vanish zero = refl
      vanish (suc i) = conv-nought_left t i

  cons-scale : (a : F) (s : Series F) (i : ℕ) → cons f.zero (scale a s) i ≡ a * cons f.zero s i
  cons-scale a s zero = sym (mul-zero a)
  cons-scale a s (suc i) = refl

  shift-scale : (n : ℕ) (a : F) (s : Series F) → shift n (scale a s) ≡ scale a (shift n s)
  shift-scale zero a s = refl
  shift-scale (suc n) a s =
      ap (cons f.zero) (shift-scale n a s) ∙ fun_ext (cons-scale a (shift n s))

  conv-monomial : (n : ℕ) (a : F) (t : Series F) → conv (monomial a n) t ≡ scale a (shift n t)
  conv-monomial n a t =
      conv-shift n (cons a nought) t
      ∙ ap (shift n) (fun_ext (conv-constant a t))
      ∙ shift-scale n a t

  reversal-plus :
      (n : ℕ) (s t : Series F) (i : ℕ)
      → reversal n (plus s t) i ≡ plus (reversal n s) (reversal n t) i
  reversal-plus zero s t zero = refl
  reversal-plus zero s t (suc i) = sym (add-zero f.zero)
  reversal-plus (suc n) s t zero = refl
  reversal-plus (suc n) s t (suc i) = reversal-plus n s t i

  reversal-scale :
      (n : ℕ) (a : F) (s : Series F) (i : ℕ) → reversal n (scale a s) i ≡ a * reversal n s i
  reversal-scale zero a s zero = refl
  reversal-scale zero a s (suc i) = sym (mul-zero a)
  reversal-scale (suc n) a s zero = refl
  reversal-scale (suc n) a s (suc i) = reversal-scale n a s i

  reversal-shift_one :
      (n : ℕ) (s : Series F) (i : ℕ) → reversal (suc n) (cons f.zero s) i ≡ reversal n s i
  reversal-shift_one n s i =
      reversal-cons n f.zero s i
      ∙ ap (◌+◌ (reversal n s i)) (vanish (suc n) i)
      ∙ add-zero (reversal n s i)
    where
      vanish : (n i : ℕ) → monomial f.zero n i ≡ f.zero
      vanish zero zero = refl
      vanish zero (suc i) = refl
      vanish (suc n) zero = refl
      vanish (suc n) (suc i) = vanish n i

  conv-eta : (s t : Series F) → conv s t ≡ plus (scale (s zero) t) (cons f.zero (conv (tail s) t))
  conv-eta s t = ap (λ r. conv r t) (sym (cons_eta s)) ∙ fun_ext (conv-cons (s zero) (tail s) t)

  -- The reversal of a product is the product of the reversals.
  pub reversal-conv :
      (p q m : ℕ) (s t : Series F) (i : ℕ)
      → IsBounded p s
      → IsBounded q t
      → p +ℕ q ≡ m
      → reversal m (conv s t) i ≡ conv (reversal p s) (reversal q t) i
  reversal-conv zero q m s t i hs ht e =
      ap (λ r. reversal m (conv r t) i) constant
      ∙ ap (λ r. reversal m r i) (fun_ext (conv-constant (s zero) t))
      ∙ reversal-scale m (s zero) t i
      ∙ ap (λ k. s zero * reversal k t i) {x = m} {y = q} (omega arith)
      ∙ sym (conv-constant (s zero) (reversal q t) i)
    where
      constant : s ≡ cons (s zero) nought
      constant = sym (cons_eta s) ∙ ap (cons (s zero)) (fun_ext λ j. hs (suc j) (omega arith))
  reversal-conv (suc p) q zero s t i hs ht e = absurd (omega arith)
  reversal-conv (suc p) q (suc m) s t i hs ht e =
      ap (λ r. reversal (suc m) r i) (conv-eta s t)
      ∙ reversal-plus (suc m) (scale (s zero) t) (cons f.zero (conv (tail s) t)) i
      ∙ ap₂ ◌+◌
          (reversal-scale (suc m) (s zero) t i
            ∙ ap (λ r. s zero * r i) (reversal-bounded q (suc p) (suc m) t ht e))
          (reversal-shift_one m (conv (tail s) t) i
            ∙ reversal-conv p q m (tail s) t i (λ j l. hs (suc j) (omega arith)) ht (omega arith))
      ∙ add_comm _ _
      ∙ sym (
          ap (λ r. conv (reversal (suc p) r) (reversal q t) i) (sym (cons_eta s))
          ∙ ap (λ r. conv r (reversal q t) i) (fun_ext (reversal-cons p (s zero) (tail s)))
          ∙ conv-plus_left (reversal p (tail s)) (monomial (s zero) (suc p)) (reversal q t) i
          ∙ ap (λ r. conv (reversal p (tail s)) (reversal q t) i + r i)
              (conv-monomial (suc p) (s zero) (reversal q t)))
