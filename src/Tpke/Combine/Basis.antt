-- ===== src/Tpke/Combine/Basis.antt =====
-- `lagrange_basis_at` of tpke/src/combine.rs against the Lagrange basis.
use nucypher_ferveo.Base.{◌≡◌, refl, sym, ap, ◌∙◌, some, List, [], ◌∷◌, map}
use nucypher_ferveo.Base.Tests.{→is_yes, is_yes_no}
use nucypher_ferveo.Algebra.Field.{Field, ◌*◌, ◌-◌, mul-one, one-mul, mul_assoc}
use nucypher_ferveo.Algebra.Field.Inverse.{div?-inv, inv, sub-ne-zero}
use nucypher_ferveo.Algebra.Space.Sums.{product}
use nucypher_ferveo.Algebra.Poly.Basis.{factor_eq, factor_ne, basis}
use nucypher_ferveo.Tpke.Combine.{lagrange_product, lagrange_coeffs, lagrange_basis_at}

module _ {ℓ} {F : Type ℓ} ⦃f : Field F⦄ where
  lagrange_product-basis :
      (x_i x_j : F) (ys : List F) (prod : F)
      → lagrange_product x_i x_j ys prod ≡ some (prod * basis x_i ys x_j)
  unfolding lagrange_product basis product
  lagrange_product-basis x_i x_j [] prod = ap some (sym (mul-one prod))
  lagrange_product-basis x_i x_j (x_m ∷ ys) prod = elim (f.dec_eq x_j x_m) [
    | yes p ↦
        rw (→is_yes (f.dec_eq x_j x_m) p, factor_eq x_i x_j x_m p)
          (lagrange_product-basis x_i x_j ys prod
            ∙ ap (λ t. some (prod * t)) (sym (one-mul (basis x_i ys x_j))))
    | no n ↦
        rw
          (
            is_yes_no (f.dec_eq x_j x_m) n,
            div?-inv (x_m - x_i) (x_m - x_j) (sub-ne-zero x_m x_j (λ e. n (sym e))),
            factor_ne x_i x_j x_m n,
          )
          (lagrange_product-basis x_i x_j ys (prod * ((x_m - x_i) * inv (x_m - x_j)))
            ∙ ap some (mul_assoc prod ((x_m - x_i) * inv (x_m - x_j)) (basis x_i ys x_j)))
  ]

  lagrange_coeffs-basis :
      (x_i : F) (shares_x rest : List F)
      → lagrange_coeffs x_i shares_x rest ≡ some (map (basis x_i shares_x) rest)
  unfolding lagrange_coeffs
  lagrange_coeffs-basis x_i shares_x [] = refl
  lagrange_coeffs-basis x_i shares_x (x_j ∷ rest) =
      rw
        (
          lagrange_product-basis x_i x_j shares_x f.one,
          lagrange_coeffs-basis x_i shares_x rest,
          one-mul,
          lagrange_coeffs,
        )
        refl

  -- `lagrange_basis_at` never divides by zero, and returns the values at `x_i` of the Lagrange basis
  -- polynomials of the nodes.
  pub lagrange_basis_at-basis :
      (shares_x : List F) (x_i : F)
      → lagrange_basis_at shares_x x_i ≡ some (map (basis x_i shares_x) shares_x)
  unfolding lagrange_basis_at
  lagrange_basis_at-basis shares_x x_i = lagrange_coeffs-basis x_i shares_x shares_x
