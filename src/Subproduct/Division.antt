-- ===== src/Subproduct/Division.antt =====
-- The inverse of a power series and the division by a monic polynomial, subproductdomain/src/lib.rs.
-- A panic is `none`.
pub mod Inverse
pub mod Remainder
pub mod Cut
use Prim.Native.Nat.{◌*◌ as ◌*ℕ◌, ◌-◌ as ◌-ℕ◌, min}
use nucypher_ferveo.Base.{ℕ, zero, suc, Bool, Option, none, some, List, [], ◌∷◌, ◌++◌}
use mathlib.Core.List.{reverse}
use nucypher_ferveo.Base.Tests.{ltb, leb, if◌then◌else◌}
use nucypher_ferveo.Base.Lists.{length, get_elem?, replicate, resize}
use nucypher_ferveo.Base.Panics.{◌>>=◌, ◌>>◌, assert}
use nucypher_ferveo.Algebra.Field.{Field, neg}
use nucypher_ferveo.Algebra.DensePolynomials.{DensePolynomials}

module _ {F : Type 0} ⦃f : Field F⦄ where
  unfoldable pub poly_from_scalar : F → List F
  poly_from_scalar s = s ∷ []

  unfoldable pub moduli_from_scalar : F → List F
  moduli_from_scalar s = neg s ∷ f.one ∷ []

  -- It panics where the polynomial has more than m + 1 coefficients, and where it has none: there the
  -- subtraction of one from the number of coefficients fails.
  unfoldable pub rev : List F → ℕ → Option (List F)
  rev poly m = do
    assert (ltb 0 (length poly))
    assert (leb (length poly -ℕ 1) m)
    some (reverse (poly ++ replicate (m -ℕ (length poly -ℕ 1)) f.zero))

module _ {F : Type 0} ⦃f : Field F⦄ (D : DensePolynomials F) where
  -- A step of the Newton iteration, before the result is cut.
  unfoldable pub newton_step : List F → List F → Option (List F)
  newton_step func func_inv = do
    twice ← D.add func_inv func_inv
    D.sub twice (D.mul func (D.mul func_inv func_inv))

  -- The loop of `inverse_mod_xl`, with the iterations left and `acc`.
  unfoldable pub newton_loop : ℕ → ℕ → List F → List F → Option (List F)
  newton_loop zero acc func func_inv = some func_inv
  newton_loop (suc n) acc func func_inv = do
    next ← newton_step func func_inv
    newton_loop n (2 *ℕ acc) func (resize (min (length next) acc) f.zero next)

  -- The inner option is the one that the function returns.
  unfoldable pub inverse_mod_xl : List F → ℕ → Option (Option (List F))
  inverse_mod_xl func length = do
    f_0 ← get_elem? func 0
    elim (f.inverse f_0) [
      | none ↦ some none
      | some f_0_inv ↦ do
        func_inv ← newton_loop (D.log2 length) 2 func (f_0_inv ∷ [])
        some (some func_inv)
    ]

  -- The division of a dividend that is no shorter than the divisor.
  unfoldable pub divide_by_inverse : List F → List F → ℕ → Option (List F × List F)
  divide_by_inverse func divisor deg_diff = do
    inverse ← inverse_mod_xl (reverse divisor) (suc deg_diff)
    unwrapped ← inverse
    quotient ← rev (resize (suc deg_diff) f.zero (D.mul (reverse func) unwrapped)) deg_diff
    remainder ← D.sub func (D.mul divisor quotient)
    some (quotient, remainder)

  unfoldable pub fast_divide_monic : List F → List F → Option (List F × List F)
  fast_divide_monic func divisor =
      let divided = divide_by_inverse func divisor (length func -ℕ length divisor) in
      if ltb (length func) (length divisor) then some (f.zero ∷ [], func) else divided
