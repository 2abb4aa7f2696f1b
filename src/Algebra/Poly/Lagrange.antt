-- ===== src/Algebra/Poly/Lagrange.antt =====
-- The theorem of interpolation.
use nucypher_ferveo.Base.{suc, ◌≤◌, ◌≡◌, ◌≢◌, refl, sym, ap, ◌∙◌, List, [], ◌∷◌, map, arith}
use nucypher_ferveo.Base.Lists.{length, All, Distinct}
use mathlib.Core.Path.{ap₂, fun_ext}
use nucypher_ferveo.Algebra.Field.{Field, ◌+◌, ◌*◌, ◌-◌, mul-one, zero-add}
use nucypher_ferveo.Algebra.Field.Ring.{ring}
use nucypher_ferveo.Algebra.Field.Inverse.{inv, mul-inv, sub-ne-zero}
use nucypher_ferveo.Algebra.Space.Sums.{sum, product, sum-add, sum-mul_left, sum_congr}
use nucypher_ferveo.Algebra.Poly.{eval, divide_linear, eval-divide_linear, length-divide_linear}
use nucypher_ferveo.Algebra.Poly.Basis.{factor, factor_ne, basis, basis-sum}

module _ {ℓ} {F : Type ℓ} ⦃f : Field F⦄ (x : F) where
  -- The values of a polynomial at the nodes, weighted by the basis.
  unfoldable pub interpolate : List F → (F → F) → F
  interpolate xs h = sum (map (λ a. basis x xs a * h a) xs)

  interpolate_tail :
      (c : F) (xs : List F) (q : F → F)
      → All (λ a. c ≢ a) xs
      → sum (map (λ a. basis x (c ∷ xs) a * ((a - c) * q a)) (c ∷ xs)) ≡ (x - c) * interpolate xs q
  unfolding interpolate sum basis product
  interpolate_tail c xs q h =
      ap₂ ◌+◌ (vanish c (factor x c c * basis x xs c) (q c)) (
        sum_congr (λ a. c ≢ a) _ (λ a. (x - c) * (basis x xs a * q a)) xs h pointwise
        ∙ sum-mul_left (x - c) (λ a. basis x xs a * q a) xs)
      ∙ zero-add ((x - c) * sum (map (λ a. basis x xs a * q a) xs))
    where
      vanish : (c b q : F) → b * ((c - c) * q) ≡ f.zero
      vanish c b q = simp ring

      regroup :
          (a c i b q : F)
          → (c - a) * i ≡ f.one
          → (c - x) * i * b * ((a - c) * q) ≡ (x - c) * (b * q)
      regroup a c i b q e =
          gather a c i b q ∙ ap (λ t. (x - c) * (b * q) * t) e ∙ mul-one ((x - c) * (b * q))
        where
          gather :
              (a c i b q : F) → (c - x) * i * b * ((a - c) * q) ≡ (x - c) * (b * q) * ((c - a) * i)
          gather a c i b q = simp ring

      pointwise :
          (a : F) → c ≢ a → basis x (c ∷ xs) a * ((a - c) * q a) ≡ (x - c) * (basis x xs a * q a)
      pointwise a ca =
          rw (factor_ne x a c (λ e. ca (sym e)))
            (regroup a c (inv (c - a)) (basis x xs a) (q a) (mul-inv (c - a) (sub-ne-zero c a ca)))

  -- A polynomial with no more coefficients than there are distinct nodes is determined by its values
  -- at them: interpolation gives its value at every point.
  pub interpolate-eval :
      (xs cs : List F) → Distinct xs → length cs ≤ length xs → interpolate xs (eval cs) ≡ eval cs x
  unfolding interpolate
  interpolate-eval [] [] h le = unfold sum eval in refl
  interpolate-eval [] (c ∷ cs) h le = elim le [ ]
  interpolate-eval (c ∷ xs) cs h le =
      ap (λ v. sum (map v (c ∷ xs))) (fun_ext λ a. split a (basis x (c ∷ xs) a))
      ∙ sum-add (λ a. eval cs c * basis x (c ∷ xs) a)
          (λ a. basis x (c ∷ xs) a * ((a - c) * eval (divide_linear cs c) a)) (c ∷ xs)
      ∙ ap₂ ◌+◌
          (sum-mul_left (eval cs c) (basis x (c ∷ xs)) (c ∷ xs)
            ∙ ap (◌*◌ (eval cs c)) (basis-sum x c xs h)
            ∙ mul-one (eval cs c))
          (interpolate_tail c xs (eval (divide_linear cs c)) h.0
            ∙ ap (◌*◌ (x - c)) (interpolate-eval xs (divide_linear cs c) h.1 (shorter cs le)))
      ∙ sym (eval-divide_linear cs c x)
    where
      spread : (b u t q : F) → b * (u + t * q) ≡ u * b + b * (t * q)
      spread b u t q = simp ring

      split :
          (a b : F) → b * eval cs a ≡ eval cs c * b + b * ((a - c) * eval (divide_linear cs c) a)
      split a b =
          ap (◌*◌ b) (eval-divide_linear cs c a)
          ∙ spread b (eval cs c) (a - c) (eval (divide_linear cs c) a)

      shorter :
          (ds : List F) → length ds ≤ suc (length xs) → length (divide_linear ds c) ≤ length xs
      shorter [] l = unfold divide_linear in omega arith
      shorter (d ∷ ds) l = omega (arith, length-divide_linear d ds c)
