-- ===== src/Subproduct/Domain.antt =====
-- `SubproductDomain` of subproductdomain/src/lib.rs: nodes with their subproduct tree. A panic is
-- `none`, and `evaluate` and the other methods are those of the tree.
use nucypher_ferveo.Base.{
  ◌≤◌, ◌≡◌, ◌≢◌, refl, ap, ◌∙◌, Option, none, some, List, [], ◌∷◌, map, arith,
}
use nucypher_ferveo.Base.Lists.{length, All, Distinct}
use nucypher_ferveo.Base.Panics.{◌>>=◌}
use nucypher_ferveo.Algebra.Field.{Field}
use nucypher_ferveo.Algebra.DensePolynomials.{DensePolynomials}
use nucypher_ferveo.Algebra.Poly.{eval}
use nucypher_ferveo.Algebra.Poly.Coefficients.{IsTrimmed}
use nucypher_ferveo.Subproduct.Tree as Tree
use nucypher_ferveo.Subproduct.Tree.{SubproductTree, m, derivative, derivative_from}
use nucypher_ferveo.Subproduct.Tree.Product.{
  combination, IsTreeOf, new-IsTreeOf as new-Tree, m-monic,
}
use nucypher_ferveo.Subproduct.Tree.Regular.{AreRegular}
use nucypher_ferveo.Subproduct.Tree.Evaluate.{evaluate-eval}
use nucypher_ferveo.Base.Predicates.{Any}
use nucypher_ferveo.Subproduct.Tree.Roots.{evaluate-root}
use nucypher_ferveo.Subproduct.Tree.Lagrange.{cofactor}
use nucypher_ferveo.Subproduct.Tree.Interpolate.{
  inverse_lagrange_coefficients-cofactor, linear_combine-combination, interpolate-values,
}

pub record SubproductDomain (F : Type 0) : Type 0 where
  pub u : List F
  pub t : SubproductTree F
  pub prime : List F

module _ {F : Type 0} ⦃f : Field F⦄ (D : DensePolynomials F) where
  -- The depth of the tree is at most the number of nodes, which is the fuel.
  unfoldable pub new : List F → Option (SubproductDomain F)
  new u = do
    t ← Tree.new D (length u) u
    prime ← derivative D (m t)
    some (record { u = u; t = t; prime = prime })

  unfoldable pub evaluate : SubproductDomain F → List F → Option (List F)
  evaluate domain func = Tree.evaluate D domain.t func domain.u

  unfoldable pub interpolate : SubproductDomain F → List F → Option (List F)
  interpolate domain v = Tree.interpolate D domain.t domain.u v

  unfoldable pub inverse_lagrange_coefficients : SubproductDomain F → Option (List F)
  inverse_lagrange_coefficients domain = Tree.inverse_lagrange_coefficients D domain.t domain.u

  unfoldable pub linear_combine : SubproductDomain F → List F → Option (List F)
  linear_combine domain c = Tree.linear_combine D domain.t domain.u c

  -- A domain of at least one node is built, with the tree over its nodes.
  pub new-IsTreeOf :
      (us : List F)
      → 1 ≤ length us
      → (domain : SubproductDomain F) × (new us ≡ some domain)
        × (domain.u ≡ us)
        × IsTreeOf D us domain.t
  unfolding new derivative
  new-IsTreeOf us pos =
      let (tree, made, p) = new-Tree D (length us) us pos (omega arith) in
      let (prime, derived) = has_derivative (m tree) (omega (arith, (m-monic D p).0)) in
      (record { u = us; t = tree; prime = prime }, rw (made, derived) refl, refl, p)
    where
      has_derivative : (cs : List F) → 1 ≤ length cs → (ds : List F) × (derivative D cs ≡ some ds)
      has_derivative [] le = absurd (omega arith)
      has_derivative (c ∷ cs) le = (derivative_from D 1 cs, refl)

  -- Over a domain of n nodes, at least one, such that the complete symmetric polynomial of degree
  -- 2^k - 1 of m nodes in a row, for m at least one and 2^k + m less than n, is never zero, a polynomial
  -- without a leading zero, with at most n coefficients and no root among the nodes, is evaluated without
  -- a panic to its values at the nodes.
  pub new-evaluate :
      (us func : List F)
      → 1 ≤ length us
      → AreRegular us
      → IsTrimmed func
      → length func ≤ length us
      → All (λ u. eval func u ≢ f.zero) us
      → (domain : SubproductDomain F) × (new us ≡ some domain)
        × (evaluate domain func ≡ some (map (eval func) us))
  unfolding evaluate
  new-evaluate us func pos regular trimmed le nonzero =
      let (domain, made, same, p) = new-IsTreeOf us pos in
      (
        domain,
        made,
        ap (Tree.evaluate D domain.t func) same ∙ evaluate-eval D p regular func trimmed le nonzero,
      )

  -- Over a domain of at least one node, the evaluation of a polynomial without a leading zero, with at
  -- most as many coefficients as there are nodes, panics where one of the nodes is its root.
  pub new-evaluate-none :
      (us func : List F)
      → 1 ≤ length us
      → IsTrimmed func
      → length func ≤ length us
      → Any (λ u. eval func u ≡ f.zero) us
      → (domain : SubproductDomain F) × (new us ≡ some domain) × (evaluate domain func ≡ none)
  unfolding evaluate
  new-evaluate-none us func pos trimmed le root =
      let (domain, made, same, p) = new-IsTreeOf us pos in
      (
        domain,
        made,
        ap (Tree.evaluate D domain.t func) same ∙ evaluate-root D p func trimmed le root,
      )

  -- Over a domain of n distinct nodes, at least one, such that the complete symmetric polynomial of
  -- degree 2^k - 1 of m nodes in a row, for m at least one and 2^k + m less than n, is never zero, and
  -- where n is not a multiple of the characteristic, the inverses of the Lagrange coefficients are
  -- computed without a panic, and are, for the node a, the product of a - b over the other nodes b.
  pub new-inverse_lagrange_coefficients :
      (us : List F)
      → 1 ≤ length us
      → Distinct us
      → AreRegular us
      → D.from (length us) ≢ f.zero
      → (domain : SubproductDomain F) × (new us ≡ some domain)
        × (inverse_lagrange_coefficients domain ≡ some (map (cofactor us) us))
  unfolding inverse_lagrange_coefficients
  new-inverse_lagrange_coefficients us pos distinct regular char =
      let (domain, made, same, p) = new-IsTreeOf us pos in
      (
        domain,
        made,
        ap (Tree.inverse_lagrange_coefficients D domain.t) same
            ∙ inverse_lagrange_coefficients-cofactor D us domain.t p distinct regular char,
      )

  -- Over a domain of at least one node, with as many coefficients c_i as nodes, the linear combination
  -- is a polynomial with the values of the sum of c_i times the product of the x - u_j other than the
  -- i-th.
  pub new-linear_combine :
      (us cs : List F)
      → 1 ≤ length us
      → length cs ≡ length us
      → (domain : SubproductDomain F) × (poly : List F) × (new us ≡ some domain)
        × (linear_combine domain cs ≡ some poly)
        × ((x : F) → eval poly x ≡ combination us cs x)
  unfolding linear_combine
  new-linear_combine us cs pos h =
      let (domain, made, same, p) = new-IsTreeOf us pos in
      let (poly, combined, values) = linear_combine-combination D p cs h in
      (domain, poly, made, ap (λ u. Tree.linear_combine D domain.t u cs) same ∙ combined, values)

  -- Over a domain of n distinct nodes, at least one, such that the complete symmetric polynomial of
  -- degree 2^k - 1 of m nodes in a row, for m at least one and 2^k + m less than n, is never zero, where n
  -- is not a multiple of the characteristic, and with a value for each node, interpolation gives,
  -- without a panic, a polynomial with these values at the nodes.
  pub new-interpolate :
      (us vs : List F)
      → 1 ≤ length us
      → Distinct us
      → AreRegular us
      → D.from (length us) ≢ f.zero
      → length vs ≡ length us
      → (domain : SubproductDomain F) × (poly : List F) × (new us ≡ some domain)
        × (interpolate domain vs ≡ some poly)
        × (map (eval poly) us ≡ vs)
  unfolding interpolate
  new-interpolate us vs pos distinct regular char h =
      let (domain, made, same, p) = new-IsTreeOf us pos in
      let (poly, interpolated, values) =
        interpolate-values D us vs domain.t p distinct regular char h in
      (domain, poly, made, ap (λ u. Tree.interpolate D domain.t u vs) same ∙ interpolated, values)
