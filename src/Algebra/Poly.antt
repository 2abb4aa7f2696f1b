-- ===== src/Algebra/Poly.antt =====
-- Evaluation of a list of coefficients, the constant first: of scalars, and of points, as a
-- commitment to a polynomial is.
pub mod Basis
pub mod Lagrange
pub mod Coefficients
use nucypher_ferveo.Base.{ℕ, zero, suc, ◌≤◌, ◌≡◌, refl, sym, ap, ◌∙◌, List, [], ◌∷◌, map, arith}
use nucypher_ferveo.Base.Lists.{length}
use nucypher_ferveo.Algebra.Field.{Field, ◌+◌, ◌*◌, ◌-◌}
use nucypher_ferveo.Algebra.Field.Ring.{ring}
use nucypher_ferveo.Algebra.Space.{
  Group, Space, ◌⊕◌, ◌•◌, zero-smul, add-smul, mul-smul, smul-add, smul-zero, zero-add, add_assoc,
  add_left_comm, space,
}

module _ {ℓ} {F : Type ℓ} ⦃f : Field F⦄ where
  unfoldable pub eval : List F → F → F
  eval [] x = f.zero
  eval (c ∷ cs) x = c + x * eval cs x

  -- The quotient of a polynomial by `X - a`, which Horner's rule computes on its way.
  unfoldable pub divide_linear : List F → F → List F
  divide_linear [] a = []
  divide_linear (c ∷ []) a = []
  divide_linear (c ∷ d ∷ cs) a = eval (d ∷ cs) a ∷ divide_linear (d ∷ cs) a

  -- f(x) = f(a) + (x - a) q(x)
  pub eval-divide_linear :
      (cs : List F) (a x : F) → eval cs x ≡ eval cs a + (x - a) * eval (divide_linear cs a) x
  unfolding eval divide_linear
  eval-divide_linear [] a x = simp ring
  eval-divide_linear (c ∷ []) a x = simp ring
  eval-divide_linear (c ∷ d ∷ cs) a x =
      rw (eval-divide_linear (d ∷ cs) a x)
        (shift c x a (eval (d ∷ cs) a) (eval (divide_linear (d ∷ cs) a) x))
    where
      shift : (c x a u q : F) → c + x * (u + (x - a) * q) ≡ c + a * u + (x - a) * (u + x * q)
      shift c x a u q = simp ring

  pub length-divide_linear :
      (c : F) (cs : List F) (a : F) → length (divide_linear (c ∷ cs) a) ≡ length cs
  unfolding divide_linear
  length-divide_linear c [] a = refl
  length-divide_linear c (d ∷ cs) a = ap suc (length-divide_linear d cs a)

  pub eval-zero : (c : F) (cs : List F) → eval (c ∷ cs) f.zero ≡ c
  unfolding eval
  eval-zero c cs = simp ring

module _ {ℓ} {F : Type ℓ} ⦃f : Field F⦄ where
  -- The sum of two polynomials, coefficient by coefficient.
  unfoldable pub add_coeffs : List F → List F → List F
  add_coeffs [] ds = ds
  add_coeffs (c ∷ cs) [] = c ∷ cs
  add_coeffs (c ∷ cs) (d ∷ ds) = (c + d) ∷ add_coeffs cs ds

  pub eval-add_coeffs : (cs ds : List F) (x : F) → eval (add_coeffs cs ds) x ≡ eval cs x + eval ds x
  unfolding eval add_coeffs
  eval-add_coeffs [] ds x = simp ring
  eval-add_coeffs (c ∷ cs) [] x = simp ring
  eval-add_coeffs (c ∷ cs) (d ∷ ds) x = rw (eval-add_coeffs cs ds x) (simp ring)

  pub length-add_coeffs :
      (n : ℕ) (cs ds : List F) → length cs ≤ n → length ds ≤ n → length (add_coeffs cs ds) ≤ n
  unfolding add_coeffs
  length-add_coeffs n [] ds hc hd = hd
  length-add_coeffs n (c ∷ cs) [] hc hd = hc
  length-add_coeffs zero (c ∷ cs) (d ∷ ds) hc hd = absurd (omega arith)
  length-add_coeffs (suc n) (c ∷ cs) (d ∷ ds) hc hd =
      omega (arith, length-add_coeffs n cs ds (omega arith) (omega arith))

module _ {ℓ} {F G : Type ℓ} ⦃f : Field F⦄ ⦃g : Group G⦄ ⦃s : Space F G⦄ where
  unfoldable pub eval_points : List G → F → G
  eval_points [] x = g.zero
  eval_points (c ∷ cs) x = c ⊕ x • eval_points cs x

  -- Commitments to the coefficients evaluate to a commitment to the value.
  pub eval_points-smul :
      (cs : List F) (p : G) (x : F) → eval_points (map (λ c. c • p) cs) x ≡ eval cs x • p
  unfolding eval eval_points
  eval_points-smul [] p x = sym (zero-smul F p)
  eval_points-smul (c ∷ cs) p x =
      rw (eval_points-smul cs p x, ← mul-smul x (eval cs x) p) (sym (add-smul c (x * eval cs x) p))
