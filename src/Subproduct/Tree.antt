-- ===== src/Subproduct/Tree.antt =====
-- The subproduct tree and the operations over it, subproductdomain/src/lib.rs. A panic is `none`.
pub mod Product
pub mod Evaluate
pub mod Lagrange
pub mod Interpolate
pub mod Termination
pub mod Roots
pub mod Regular
pub mod Powers
use Prim.Native.Nat.{◌/◌}
use nucypher_ferveo.Base.{ℕ, zero, suc, Bool, Option, none, some, List, [], ◌∷◌, ◌++◌}
use nucypher_ferveo.Base.Tests.{ltb, leb, ◌==◌, if◌then◌else◌}
use nucypher_ferveo.Base.Lists.{length, get_elem?, take, drop}
use nucypher_ferveo.Base.Panics.{◌>>=◌, ◌>>◌, assert}
use nucypher_ferveo.Algebra.Field.{Field, neg, ◌*◌}
use nucypher_ferveo.Algebra.DensePolynomials.{DensePolynomials}
use nucypher_ferveo.Subproduct.Division.{fast_divide_monic}

-- A tree has both children or none, as `new` builds it; each holds the polynomial `m`.
pub data SubproductTree (F : Type 0) : Type 0 where
  leaf : List F → SubproductTree F
  node : SubproductTree F → SubproductTree F → List F → SubproductTree F

module _ {F : Type 0} where
  unfoldable pub m : SubproductTree F → List F
  m (leaf poly) = poly
  m (node left right poly) = poly

  -- A constant as a list with one element; an empty list is an index out of bounds.
  unfoldable pub first : List F → Option (List F)
  first cs = do c ← get_elem? cs 0; some (c ∷ [])

module _ {F : Type 0} ⦃f : Field F⦄ where
  -- The loop of `interpolate`, which ends with the shorter of the two lists.
  unfoldable pub divide_values : List F → List F → Option (List F)
  divide_values (s_i ∷ coeffs) (v_i ∷ v) = do
    s_inv ← f.inverse s_i
    rest ← divide_values coeffs v
    some (s_inv * v_i ∷ rest)
  divide_values coeffs _ = some coeffs

module _ {F : Type 0} ⦃f : Field F⦄ (D : DensePolynomials F) where
  -- `SubproductTree::new`, with fuel for the depth; the recursion on an empty slice does not end.
  unfoldable pub new : ℕ → List F → Option (SubproductTree F)
  unfolding m
  new zero u = none
  new (suc fuel) (u_0 ∷ []) = some (leaf (neg u_0 ∷ f.one ∷ []))
  new (suc fuel) u = do
    left ← new fuel (take (length u / 2) u)
    right ← new fuel (drop (length u / 2) u)
    some (node left right (D.mul (m left) (m right)))

  -- The slice that is written is the result.
  unfoldable pub evaluate : SubproductTree F → List F → List F → Option (List F)
  unfolding m first
  evaluate (leaf poly) func u = do
    assert (ltb (D.degree func) (length u))
    if length u == 1 then first func else none
  evaluate (node left right poly) func u =
      let halves : Option (List F) = (do
        (q_0, r_0) ← fast_divide_monic D func (m left)
        (q_1, r_1) ← fast_divide_monic D func (m right)
        t_0 ← evaluate left r_0 (take (length u / 2) u)
        t_1 ← evaluate right r_1 (drop (length u / 2) u)
        some (t_0 ++ t_1)) in
      assert (ltb (D.degree func) (length u)) >> (if length u == 1 then first func else halves)

  -- The coefficients of the derivative, from the index of the first.
  unfoldable pub derivative_from : ℕ → List F → List F
  derivative_from i [] = []
  derivative_from i (c ∷ cs) = D.from i * c ∷ derivative_from (suc i) cs

  -- Without a coefficient, the capacity is the difference of zero and one, and the function panics.
  unfoldable pub derivative : List F → Option (List F)
  unfolding derivative_from
  derivative [] = none
  derivative (c ∷ cs) = some (derivative_from 1 cs)

  unfoldable pub inverse_lagrange_coefficients : SubproductTree F → List F → Option (List F)
  inverse_lagrange_coefficients tree u =
      let evals : Option (List F) = (do m_prime ← derivative (m tree); evaluate tree m_prime u) in
      if length u == 1 then some (f.one ∷ []) else evals

  unfoldable pub linear_combine : SubproductTree F → List F → List F → Option (List F)
  unfolding m first
  linear_combine (leaf poly) u c = if length u == 1 then first c else none
  linear_combine (node left right poly) u c =
      let halves : Option (List F) = (do
        assert (leb (length u / 2) (length c))
        r_0 ← linear_combine left (take (length u / 2) u) (take (length u / 2) c)
        r_1 ← linear_combine right (drop (length u / 2) u) (drop (length u / 2) c)
        D.add (D.mul (m right) r_0) (D.mul (m left) r_1)) in
      if length u == 1 then first c else halves

  unfoldable pub interpolate : SubproductTree F → List F → List F → Option (List F)
  interpolate tree u v = do
    lagrange_coeff ← inverse_lagrange_coefficients tree u
    quotients ← divide_values lagrange_coeff v
    linear_combine tree u quotients
