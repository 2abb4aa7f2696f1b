-- ===== src/Algebra/Poly/Basis.antt =====
-- The Lagrange basis at a point: the basis polynomials of distinct nodes sum to one.
use nucypher_ferveo.Base.{◌≡◌, ◌≢◌, refl, sym, ap, ◌∙◌, List, [], ◌∷◌, map}
use nucypher_ferveo.Base.Lists.{All, Distinct}
use mathlib.Core.Path.{ap₂}
use mathlib.Core.Logic.{ite, if_pos, if_neg}
use nucypher_ferveo.Algebra.Field.{Field, ◌+◌, ◌*◌, ◌-◌, neg, one-mul, mul-one, mul_assoc}
use nucypher_ferveo.Algebra.Field.Ring.{ring}
use nucypher_ferveo.Algebra.Field.Inverse.{inv, mul-inv, inv_unique, sub-ne-zero}
use nucypher_ferveo.Algebra.Space.Sums.{sum, product, sum-add, sum-mul_left, sum_congr}

module _ {ℓ} {F : Type ℓ} ⦃f : Field F⦄ where
  -- The factor of `b` in the basis polynomial of `a`, at `x`: (b - x) / (b - a).
  unfoldable pub factor : F → F → F → F
  factor x a b = ite (f.dec_eq a b) f.one ((b - x) * inv (b - a))

  -- The product of the factors of `ys` in the basis polynomial of `a`, at `x`.
  unfoldable pub basis : F → List F → F → F
  basis x ys a = product (map (factor x a) ys)

  pub factor_eq : (x a b : F) → a ≡ b → factor x a b ≡ f.one
  unfolding factor
  factor_eq x a b h = if_pos (f.dec_eq a b) h _ _

  pub factor_self : (x a : F) → factor x a a ≡ f.one
  factor_self x a = factor_eq x a a refl

  pub factor_ne : (x a b : F) → a ≢ b → factor x a b ≡ (b - x) * inv (b - a)
  unfolding factor
  factor_ne x a b h = if_neg (f.dec_eq a b) h _ _

  -- 1/p · 1/q = 1/r · (1/p - 1/q) where q = p + r
  inverses :
      (p r i j k : F) → p * i ≡ f.one → (p + r) * j ≡ f.one → r * k ≡ f.one → i * j ≡ k * (i - j)
  inverses p r i j k hp hq hr =
      sym (mul-one (i * j))
      ∙ ap (◌*◌ (i * j)) (sym hr)
      ∙ expand
      ∙ ap (λ t. k * (i * t - j * (p * i))) hq
      ∙ ap (λ t. k * (i * f.one - j * t)) hp
      ∙ rw (mul-one i, mul-one j) refl
    where
      expand : i * j * (r * k) ≡ k * (i * ((p + r) * j) - j * (p * i))
      expand = simp ring

  -- Neville's identity for the factors of two nodes other than `a`.
  factor_two :
      (x a c d : F)
      → a ≢ c
      → a ≢ d
      → c ≢ d
      → factor x a c * factor x a d ≡ factor x c d * factor x a c + factor x d c * factor x a d
  factor_two x a c d hc hd h =
      rw
        (
          factor_ne x a c hc,
          factor_ne x a d hd,
          factor_ne x c d h,
          factor_ne x d c (λ e. h (sym e)),
        )
        (rw (← inv_unique (c - d) (neg (inv (d - c))) (sub-ne-zero c d h) opposite) (
          regroup (c - x) (d - x) (inv (c - a)) (inv (d - a)) (inv (d - c)) (
            inverses (c - a) (d - c) (inv (c - a)) (inv (d - a)) (inv (d - c))
              (mul-inv (c - a) (sub-ne-zero c a (λ e. hc (sym e))))
              (ap (λ t. t * inv (d - a)) path ∙ mul-inv (d - a) (sub-ne-zero d a (λ e. hd (sym e))))
              (mul-inv (d - c) (sub-ne-zero d c (λ e. h (sym e)))))))
    where
      path : c - a + (d - c) ≡ d - a
      path = simp ring

      opposite : (c - d) * neg (inv (d - c)) ≡ f.one
      opposite = flip c d (inv (d - c)) ∙ mul-inv (d - c) (sub-ne-zero d c (λ e. h (sym e)))
        where
          flip : (c d k : F) → (c - d) * neg k ≡ (d - c) * k
          flip c d k = simp ring

      regroup :
          (s t i j k : F)
          → i * j ≡ k * (i - j)
          → s * i * (t * j) ≡ t * k * (s * i) + s * neg k * (t * j)
      regroup s t i j k e = gather s t i j ∙ ap (◌*◌ (s * t)) e ∙ spread s t i j k
        where
          gather : (s t i j : F) → s * i * (t * j) ≡ s * t * (i * j)
          gather s t i j = simp ring

          spread : (s t i j k : F) → s * t * (k * (i - j)) ≡ t * k * (s * i) + s * neg k * (t * j)
          spread s t i j k = simp ring

module _ {ℓ} {F : Type ℓ} ⦃f : Field F⦄ (x : F) where
  others :
      (c d : F) (zs : List F)
      → All (λ a. c ≢ a) zs
      → All (λ a. d ≢ a) zs
      → All (λ a. (c ≢ a) × (d ≢ a)) zs
  others c d [] hc hd = tt
  others c d (z ∷ zs) hc hd = ((hc.0, hd.0), others c d zs hc.1 hd.1)

  -- The sum of the basis polynomials of two nodes and `ys`, from those of one of the two and `ys`.
  tail_two :
      (c d : F) (ys zs : List F)
      → c ≢ d
      → All (λ a. c ≢ a) zs
      → All (λ a. d ≢ a) zs
      → sum (map (basis x (c ∷ d ∷ ys)) zs)
        ≡ factor x c d * sum (map (basis x (c ∷ ys)) zs)
          + factor x d c * sum (map (basis x (d ∷ ys)) zs)
  unfolding basis product
  tail_two c d ys zs h hc hd =
      sum_congr (λ a. (c ≢ a) × (d ≢ a)) _
        (λ a. factor x c d * basis x (c ∷ ys) a + factor x d c * basis x (d ∷ ys) a) zs
        (others c d zs hc hd) pointwise
      ∙ sum-add (λ a. factor x c d * basis x (c ∷ ys) a) (λ a. factor x d c * basis x (d ∷ ys) a) zs
      ∙ ap₂ ◌+◌ (sum-mul_left (factor x c d) (basis x (c ∷ ys)) zs)
          (sum-mul_left (factor x d c) (basis x (d ∷ ys)) zs)
    where
      spread : (p q u v b : F) → p * q ≡ u * p + v * q → p * (q * b) ≡ u * (p * b) + v * (q * b)
      spread p q u v b e = sym (mul_assoc p q b) ∙ ap (λ t. t * b) e ∙ simp ring

      pointwise :
          (a : F)
          → (c ≢ a) × (d ≢ a)
          → basis x (c ∷ d ∷ ys) a
            ≡ factor x c d * basis x (c ∷ ys) a + factor x d c * basis x (d ∷ ys) a
      pointwise a (ca, da) =
          spread (factor x a c) (factor x a d) (factor x c d) (factor x d c) (basis x ys a)
            (factor_two x a c d (λ e. ca (sym e)) (λ e. da (sym e)) h)

  factors_sum : (c d : F) → c ≢ d → factor x c d + factor x d c ≡ f.one
  factors_sum c d h =
      rw (factor_ne x c d h, factor_ne x d c (λ e. h (sym e)))
        (rw
          (← inv_unique (c - d) (neg (inv (d - c))) (sub-ne-zero c d h)
            (flip c d (inv (d - c)) ∙ unit))
          (gather x c d (inv (d - c)) ∙ unit))
    where
      unit : (d - c) * inv (d - c) ≡ f.one
      unit = mul-inv (d - c) (sub-ne-zero d c (λ e. h (sym e)))

      flip : (c d k : F) → (c - d) * neg k ≡ (d - c) * k
      flip c d k = simp ring

      gather : (x c d k : F) → (d - x) * k + (c - x) * neg k ≡ (d - c) * k
      gather x c d k = simp ring

  -- The basis polynomials of distinct nodes sum to one, at every point.
  pub basis-sum :
      (c : F) (ys : List F) → Distinct (c ∷ ys) → sum (map (basis x (c ∷ ys)) (c ∷ ys)) ≡ f.one
  unfolding basis product sum
  basis-sum c [] h = rw (factor_self x c) (simp ring)
  basis-sum c (d ∷ ys) h =
      rw (tail_two c d ys ys h.0.0 h.0.1 h.1.0, factor_self x c, factor_self x d)
        (gather (factor x c d) (factor x d c) (basis x ys c) (basis x ys d)
          (sum (map (basis x (c ∷ ys)) ys)) (sum (map (basis x (d ∷ ys)) ys))
          (factors_sum c d h.0.0) (head c ∙ basis-sum c ys (h.0.1, h.1.1))
          (head d ∙ basis-sum d ys h.1))
    where
      head :
          (e : F)
          → basis x ys e + sum (map (basis x (e ∷ ys)) ys) ≡ sum (map (basis x (e ∷ ys)) (e ∷ ys))
      head e = rw (factor_self x e, one-mul) refl

      gather :
          (u v b c s t : F)
          → u + v ≡ f.one
          → b + s ≡ f.one
          → c + t ≡ f.one
          → f.one * (u * b) + (v * (f.one * c) + (u * s + v * t)) ≡ f.one
      gather u v b c s t huv hbs hct = collect u v b c s t ∙ rw (hbs, hct) ((simp ring) ∙ huv)
        where
          collect :
              (u v b c s t : F)
              → f.one * (u * b) + (v * (f.one * c) + (u * s + v * t)) ≡ u * (b + s) + v * (c + t)
          collect u v b c s t = simp ring
