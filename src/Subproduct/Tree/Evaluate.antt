-- ===== src/Subproduct/Tree/Evaluate.antt =====
-- Evaluation over a subproduct tree is evaluation at its nodes (subproductdomain/src/lib.rs).
use Prim.Native.Nat.{◌/◌, ◌^◌, ◌+◌ as ◌+ℕ◌}
use nucypher_ferveo.Base.{
  ℕ, zero, suc, ◌<◌, ◌≤◌, ◌≡◌, ◌≢◌, refl, sym, ap, ◌∙◌, some, List, [], ◌∷◌, ◌++◌, map, arith,
}
use nucypher_ferveo.Base.Tests.{lt→ltb, ne→==}
use nucypher_ferveo.Base.Lists.{length, take, drop, take-drop, All}
use nucypher_ferveo.Base.Predicates.{All-take, All-drop, All-imp, All-both, map-All, map-take-drop}
use nucypher_ferveo.Algebra.Field.{Field, ◌+◌, ◌*◌, ◌-◌, zero-mul, mul-zero, zero-add, add-neg}
use nucypher_ferveo.Algebra.Field.Ring.{ring}
use nucypher_ferveo.Algebra.Series.{conv}
use nucypher_ferveo.Algebra.DensePolynomials.{DensePolynomials}
use nucypher_ferveo.Algebra.Poly.{eval, add_coeffs, eval-add_coeffs}
use nucypher_ferveo.Algebra.Poly.Coefficients.{
  coeff, eval-coeff, mul_coeffs, coeff-mul_coeffs, eval-mul_coeffs, coeff-add_coeffs, IsTrimmed,
}
use nucypher_ferveo.Subproduct.Division.{fast_divide_monic}
use nucypher_ferveo.Subproduct.Division.Remainder.{
  fast_divide_monic-remainder, fast_divide_monic-IsDivision,
}
use nucypher_ferveo.Subproduct.Tree.Regular.{
  complete, factors-complete, reverse-m, AreRegular, AreRegular-left, AreRegular-right,
}
use mathlib.Core.Path.{subst, fun_ext}
use mathlib.Core.List.{append-nil}
use nucypher_ferveo.Subproduct.Tree.{SubproductTree, m, first, evaluate}
use nucypher_ferveo.Subproduct.Tree.Product.{
  vanishing, IsTreeOf, is_leaf, is_node, length-halves, eval-m, m-monic,
}

module _ {F : Type 0} ⦃f : Field F⦄ where
  -- Every node is a root of the product.
  pub vanishing-All : (us : List F) → All (λ u. vanishing us u ≡ f.zero) us
  unfolding vanishing
  vanishing-All [] = tt
  vanishing-All (u ∷ us) = (
    rw (add-neg u) (zero-mul (vanishing us u)),
    All-imp (λ v. vanishing us v ≡ f.zero) _ us (λ v h. rw h (mul-zero (v - u))) (vanishing-All us),
  )

  -- Coefficients of a quotient with remainder, at a point.
  eval-split :
      (func g q r : List F) (x : F)
      → ((i : ℕ) → coeff func i ≡ conv (coeff g) (coeff q) i + coeff r i)
      → eval func x ≡ eval g x * eval q x + eval r x
  eval-split func g q r x h =
      eval-coeff func (add_coeffs (mul_coeffs g q) r) x (λ i.
        h i
        ∙ ap (λ t. t + coeff r i) (sym (coeff-mul_coeffs g q i))
        ∙ sym (coeff-add_coeffs (mul_coeffs g q) r i))
      ∙ eval-add_coeffs (mul_coeffs g q) r x
      ∙ ap (λ t. t + eval r x) (eval-mul_coeffs g q x)

  first_constant :
      (func : List F) (u : F)
      → length func ≤ 1
      → eval func u ≢ f.zero
      → first func ≡ some (eval func u ∷ [])
  unfolding first eval
  first_constant [] u le h = absurd (h refl)
  first_constant (c ∷ []) u le h = ap (λ x. some (x ∷ [])) (simp ring)
  first_constant (c ∷ d ∷ cs) u le h = absurd (omega arith)

module _ {F : Type 0} ⦃f : Field F⦄ (D : DensePolynomials F) where
  pub degree_lt :
      (func : List F) (k : ℕ) → IsTrimmed func → 1 ≤ k → length func ≤ k → D.degree func < k
  degree_lt func zero trimmed pos le = absurd (omega arith)
  degree_lt func (suc k) trimmed pos le = omega (arith, D.degree_le func k trimmed le)

  -- The remainder that is returned by the polynomial of a tree: it has the values of the dividend at
  -- the nodes.
  pub remainder_of :
      {us : List F} {tree : SubproductTree F}
      → IsTreeOf D us tree
      → (func q r : List F) → IsTrimmed func
      → fast_divide_monic D func (m tree) ≡ some (q, r)
      → All (λ u. eval func u ≡ eval r u) us × IsTrimmed r × (length r ≤ length us)
  remainder_of {us} {tree} p func q r trimmed divided =
      let (hl, hc) = m-monic D p in
      let (split, trim, short) =
        fast_divide_monic-IsDivision D func (m tree) q r (length us) trimmed hl hc divided in
      (
        All-imp (λ u. vanishing us u ≡ f.zero) (λ u. eval func u ≡ eval r u) us
            (λ u h.
              eval-split func (m tree) q r u split
              ∙ ap (λ t. t * eval q u + eval r u) (eval-m D p u ∙ h)
              ∙ ap (λ t. t + eval r u) (zero-mul (eval q u))
              ∙ zero-add (eval r u))
            (vanishing-All us),
        trim,
        short,
      )

  -- The division succeeds where the nodes allow it.
  remainder_at :
      {us : List F} {tree : SubproductTree F}
      → IsTreeOf D us tree
      → (func : List F) → IsTrimmed func
      → ((k j : ℕ) → suc j ≡ 2 ^ k → suc (j +ℕ length us) < length func → complete us j ≢ f.zero)
      → (q r : List F) × (fast_divide_monic D func (m tree) ≡ some (q, r))
        × All (λ u. eval func u ≡ eval r u) us
        × IsTrimmed r
        × (length r ≤ length us)
  remainder_at {us} {tree} p func trimmed regular =
      let (hl, hc) = m-monic D p in
      let (q, r, divided, _, _, _) =
        fast_divide_monic-remainder D func (m tree) (length us) (complete us) trimmed hl hc
          (λ i. ap (λ s. conv s (complete us) i) (fun_ext (reverse-m D p)) ∙ factors-complete us i)
          (λ k j e lt. regular k j e (omega (arith, lt))) in
      let (same, trim, short) = remainder_of p func q r trimmed divided in
      (q, r, divided, same, trim, short)

  -- The remainder keeps values that are not zero.
  nonzero_at :
      (func r us : List F)
      → All (λ u. eval func u ≡ eval r u) us
      → All (λ u. eval func u ≢ f.zero) us
      → All (λ u. eval r u ≢ f.zero) us
  nonzero_at func r us e h =
      All-imp (λ u. (eval func u ≡ eval r u) × (eval func u ≢ f.zero)) _ us
        (λ u (e, n) z. n (e ∙ z))
        (All-both (λ u. eval func u ≡ eval r u) (λ u. eval func u ≢ f.zero) us e h)

  -- Over the tree of its nodes, where they are regular, a polynomial without a leading zero, with at most
  -- as many coefficients as there are nodes and no root among them, evaluates to its values at the nodes.
  pub evaluate-eval :
      {us : List F} {tree : SubproductTree F}
      → IsTreeOf D us tree
      → AreRegular us
      → (func : List F) → IsTrimmed func
      → length func ≤ length us
      → All (λ u. eval func u ≢ f.zero) us
      → evaluate D tree func us ≡ some (map (eval func) us)
  unfolding evaluate
  evaluate-eval (is_leaf {u = u}) regular func trimmed le h =
      rw
        (
          lt→ltb (D.degree func) 1 (degree_lt func 1 trimmed (omega arith) le),
          first_constant func u le h.0,
        )
        refl
  evaluate-eval (is_node {us = us} {left = left} {right = right} two p q) regular func trimmed le
        h =
      let (taken, dropped) = length-halves D us in
      let (q_0, r_0, divided_0, same_0, trim_0, short_0) = remainder_at p func trimmed (λ k j e lt.
        regular [] (take (length us / 2) us) (drop (length us / 2) us)
          (sym (take-drop (length us / 2) us)) (omega (arith, taken, two)) k j e
          (omega (arith, lt, le))) in
      let (q_1, r_1, divided_1, same_1, trim_1, short_1) = remainder_at q func trimmed (λ k j e lt.
        regular (take (length us / 2) us) (drop (length us / 2) us) []
          (sym (take-drop (length us / 2) us)
            ∙ ap (λ l. take (length us / 2) us ++ l) (sym (append-nil (drop (length us / 2) us))))
          (omega (arith, dropped, two)) k j e (omega (arith, lt, le))) in
      let joined : AreRegular (take (length us / 2) us ++ drop (length us / 2) us) =
        subst AreRegular (sym (take-drop (length us / 2) us)) regular in
      rw
        (
          lt→ltb (D.degree func) (length us) (degree_lt func (length us) trimmed (omega arith) le),
          ne→== (length us) 1 (λ e. omega arith),
          divided_0,
          divided_1,
          evaluate-eval p (AreRegular-left _ (drop (length us / 2) us) joined) r_0 trim_0 short_0 (
              nonzero_at func r_0 (take (length us / 2) us) same_0
                (All-take _ (length us / 2) us h)),
          evaluate-eval q (AreRegular-right (take (length us / 2) us) _ joined) r_1 trim_1 short_1 (
              nonzero_at func r_1 (drop (length us / 2) us) same_1
                (All-drop _ (length us / 2) us h)),
          ← map-All (eval func) (eval r_0) (take (length us / 2) us) same_0,
          ← map-All (eval func) (eval r_1) (drop (length us / 2) us) same_1,
        )
        (ap some (map-take-drop (eval func) (length us / 2) us))
