-- ===== src/Subproduct/Tree/Interpolate.antt =====
-- The Lagrange coefficients, linear combination and interpolation over a subproduct tree
-- (subproductdomain/src/lib.rs).
use Prim.Native.Nat.{◌+◌ as ◌+ℕ◌, ◌/◌}
use nucypher_ferveo.Base.{
  ℕ, zero, suc, ◌<◌, ◌≡◌, ◌≢◌, refl, sym, ap, ◌∙◌, some, List, [], ◌∷◌, ◌++◌, map, arith,
}
use mathlib.Core.Path.{ap₂, fun_ext}
use nucypher_ferveo.Base.Tests.{le→leb, ne→==}
use nucypher_ferveo.Base.Lists.{
  length, take, drop, take-drop, length-take, length-drop, All, Distinct,
}
use nucypher_ferveo.Base.Predicates.{All-imp, map-All}
use nucypher_ferveo.Algebra.Field.{Field, ◌+◌, ◌*◌, mul-one, one-mul, zero-add}
use nucypher_ferveo.Algebra.Field.Ring.{ring}
use nucypher_ferveo.Algebra.DensePolynomials.{DensePolynomials}
use nucypher_ferveo.Algebra.Poly.{eval, add_coeffs, eval-add_coeffs}
use nucypher_ferveo.Algebra.Poly.Coefficients.{
  coeff, eval-coeff, slope, coeff-add_coeffs, IsTrimmed,
}
use nucypher_ferveo.Subproduct.Tree.{
  SubproductTree, m, first, derivative, derivative_from, inverse_lagrange_coefficients,
  linear_combine, interpolate,
}
use nucypher_ferveo.Subproduct.Tree.Product.{
  vanishing, vanishing_slope, combination, combination-append, IsTreeOf, is_leaf, is_node,
  length-halves, eval-m, slope-m, m-monic, eval-mul,
}
use nucypher_ferveo.Subproduct.Tree.Regular.{AreRegular}
use nucypher_ferveo.Subproduct.Tree.Evaluate.{evaluate-eval}
use nucypher_ferveo.Subproduct.Tree.Lagrange.{
  cofactor, cofactor_self, cofactor-ne-zero, vanishing_slope-cofactor, combination-cofactor,
  divide_values-Pointwise,
}

module _ {F : Type 0} ⦃f : Field F⦄ where
  -- A list whose last coefficient is not zero has no leading zero.
  IsTrimmed-of : (cs : List F) (k : ℕ) → length cs ≡ suc k → coeff cs k ≢ f.zero → IsTrimmed cs
  IsTrimmed-of [] k h n = tt
  IsTrimmed-of (c ∷ []) zero h n = n
  IsTrimmed-of (c ∷ []) (suc k) h n = absurd (omega arith)
  IsTrimmed-of (c ∷ d ∷ cs) zero h n = absurd (omega arith)
  IsTrimmed-of (c ∷ d ∷ cs) (suc k) h n = IsTrimmed-of (d ∷ cs) k (omega arith) n

module _ {F : Type 0} ⦃f : Field F⦄ (D : DensePolynomials F) where
  eval-derivative_from :
      (i : ℕ) (cs : List F) (x : F)
      → eval (derivative_from D i cs) x ≡ D.from i * eval cs x + x * slope cs x
  unfolding derivative_from eval slope
  eval-derivative_from i [] x = simp ring
  eval-derivative_from i (c ∷ cs) x =
      rw (eval-derivative_from (suc i) cs x, D.from-suc i)
        (gather (D.from i) c x (eval cs x) (slope cs x))
    where
      gather :
          (i c x e s : F)
          → i * c + x * ((i + f.one) * e + x * s) ≡ i * (c + x * e) + x * (e + x * s)
      gather i c x e s = simp ring

  -- The derivative has the slope as its value.
  pub eval-derivative :
      (c : F) (cs : List F) (x : F) → eval (derivative_from D 1 cs) x ≡ slope (c ∷ cs) x
  unfolding slope
  eval-derivative c cs x =
      eval-derivative_from 1 cs x
      ∙ ap (λ t. t * eval cs x + x * slope cs x) (D.from-suc 0 ∙ rw D.from-zero (zero-add f.one))
      ∙ ap (λ t. t + x * slope cs x) (one-mul (eval cs x))

  length-derivative_from : (i : ℕ) (cs : List F) → length (derivative_from D i cs) ≡ length cs
  unfolding derivative_from
  length-derivative_from i [] = refl
  length-derivative_from i (c ∷ cs) = ap suc (length-derivative_from (suc i) cs)

  coeff-derivative_from :
      (i j : ℕ) (cs : List F)
      → j < length cs
      → coeff (derivative_from D i cs) j ≡ D.from (i +ℕ j) * coeff cs j
  unfolding derivative_from
  coeff-derivative_from i j [] h = absurd (omega arith)
  coeff-derivative_from i zero (c ∷ cs) h =
      ap (λ k. D.from k * c) {x = i} {y = i +ℕ 0} (omega arith)
  coeff-derivative_from i (suc j) (c ∷ cs) h =
      coeff-derivative_from (suc i) j cs (omega arith)
      ∙ ap (λ k. D.from k * coeff cs j) {x = suc i +ℕ j} {y = i +ℕ suc j} (omega arith)

  -- The derivative of a monic polynomial of positive degree, where the degree is not a multiple of
  -- the characteristic.
  derivative-monic :
      (cs : List F) (n : ℕ)
      → length cs ≡ suc (suc n)
      → coeff cs (suc n) ≡ f.one
      → D.from (suc n) ≢ f.zero
      → (ds : List F) × (derivative D cs ≡ some ds)
        × IsTrimmed ds
        × (length ds ≡ suc n)
        × ((x : F) → eval ds x ≡ slope cs x)
  unfolding derivative
  derivative-monic [] n h top char = absurd (omega arith)
  derivative-monic (c ∷ cs) n h top char = (
    derivative_from D 1 cs,
    refl,
    IsTrimmed-of (derivative_from D 1 cs) n length-ds (λ z. char (sym last ∙ z)),
    length-ds,
    eval-derivative c cs,
  )
    where
      length-ds : length (derivative_from D 1 cs) ≡ suc n
      length-ds = length-derivative_from 1 cs ∙ omega arith

      last : coeff (derivative_from D 1 cs) n ≡ D.from (suc n)
      last =
          coeff-derivative_from 1 n cs (omega arith)
          ∙ rw top (mul-one (D.from (1 +ℕ n)))
          ∙ ap D.from {x = 1 +ℕ n} {y = suc n} (omega arith)

  -- Over the tree of distinct nodes that are regular, where their number is not a multiple of the characteristic, the
  -- inverses of the Lagrange coefficients are computed: for the node a, the product of a - b over the
  -- other nodes b.
  pub inverse_lagrange_coefficients-cofactor :
      (us : List F) (tree : SubproductTree F)
      → IsTreeOf D us tree
      → Distinct us
      → AreRegular us
      → D.from (length us) ≢ f.zero
      → inverse_lagrange_coefficients D tree us ≡ some (map (cofactor us) us)
  unfolding inverse_lagrange_coefficients
  inverse_lagrange_coefficients-cofactor [] tree p d regular char = absurd (char D.from-zero)
  inverse_lagrange_coefficients-cofactor (u ∷ []) tree p d regular char =
      ap (λ t. some (t ∷ [])) (sym (cofactor_self u))
  inverse_lagrange_coefficients-cofactor (u ∷ v ∷ us) tree p d regular char =
      let (hl, hc) = m-monic D p in
      let (ds, derived, trimmed, short, values) =
        derivative-monic (m tree) (suc (length us)) hl hc char in
      let at_nodes : All (λ a. eval ds a ≡ cofactor (u ∷ v ∷ us) a) (u ∷ v ∷ us) =
        All-imp (λ a. vanishing_slope (u ∷ v ∷ us) a ≡ cofactor (u ∷ v ∷ us) a) _ (u ∷ v ∷ us)
          (λ a e. values a ∙ slope-m D p a ∙ e) (vanishing_slope-cofactor (u ∷ v ∷ us) d) in
      rw
        (
          ne→== (length (u ∷ v ∷ us)) 1 (λ e. omega arith),
          derived,
          evaluate-eval D p regular ds trimmed (omega (arith, short)) (
              All-imp (λ a. eval ds a ≡ cofactor (u ∷ v ∷ us) a) _ (u ∷ v ∷ us)
                (λ a e z. cofactor-ne-zero (u ∷ v ∷ us) a (sym e ∙ z)) at_nodes),
        )
        (ap some (map-All (eval ds) (cofactor (u ∷ v ∷ us)) (u ∷ v ∷ us) at_nodes))

  eval-add :
      (p q : List F) {r : List F} → D.add p q ≡ some r → (x : F) → eval r x ≡ eval p x + eval q x
  eval-add p q {r} added x =
      eval-coeff r (add_coeffs p q) x (λ i. D.coeff-add p q added i ∙ sym (coeff-add_coeffs p q i))
      ∙ eval-add_coeffs p q x

  joined :
      {us vs : List F} {left right : SubproductTree F} (cs ds : List F)
      → IsTreeOf D us left
      → IsTreeOf D vs right
      → (r_0 r_1 poly : List F) (x : F)
      → D.add (D.mul (m right) r_0) (D.mul (m left) r_1) ≡ some poly
      → eval r_0 x ≡ combination us cs x
      → eval r_1 x ≡ combination vs ds x
      → length cs ≡ length us
      → eval poly x ≡ combination (us ++ vs) (cs ++ ds) x
  joined {us} {vs} {left} {right} cs ds p q r_0 r_1 poly x added e_0 e_1 h =
      eval-add (D.mul (m right) r_0) (D.mul (m left) r_1) added x
      ∙ ap₂ ◌+◌ (eval-mul D (m right) r_0 x ∙ ap₂ ◌*◌ (eval-m D q x) e_0)
          (eval-mul D (m left) r_1 x ∙ ap₂ ◌*◌ (eval-m D p x) e_1)
      ∙ sym (combination-append us vs cs ds x h)

  -- With as many coefficients as nodes, the linear combination over the tree is the sum over i of c_i
  -- times the product of the factors x - u_j other than the i-th.
  pub linear_combine-combination :
      {us : List F} {tree : SubproductTree F}
      → IsTreeOf D us tree
      → (cs : List F) → length cs ≡ length us
      → (poly : List F) × (linear_combine D tree us cs ≡ some poly)
        × ((x : F) → eval poly x ≡ combination us cs x)
  unfolding linear_combine first m
  linear_combine-combination is_leaf [] h = absurd (omega arith)
  linear_combine-combination (is_leaf {u = u}) (c ∷ []) h =
      (c ∷ [], refl, λ x. unfold eval combination vanishing in simp ring)
  linear_combine-combination is_leaf (c ∷ d ∷ cs) h = absurd (omega arith)
  linear_combine-combination (is_node {us = us} {left = left} {right = right} two p q) cs h =
      let (taken, dropped) = length-halves D us in
      let (r_0, made_0, values_0) =
        linear_combine-combination p (take (length us / 2) cs)
          (length-take (length us / 2) cs (omega (arith, h)) ∙ sym taken) in
      let (r_1, made_1, values_1) =
        linear_combine-combination q (drop (length us / 2) cs)
          (omega (arith, length-drop (length us / 2) cs (omega (arith, h)), dropped)) in
      let (poly, added) =
        D.add_total (D.mul (m right) r_0) (D.mul (m left) r_1) (D.mul-IsTrimmed (m right) r_0)
          (D.mul-IsTrimmed (m left) r_1) in
      (
        poly,
        rw
            (
              ne→== (length us) 1 (λ e. omega arith),
              le→leb (length us / 2) (length cs) (omega (arith, h)),
              made_0,
              made_1,
              added,
            )
            refl,
        λ x.
            joined (take (length us / 2) cs) (drop (length us / 2) cs) p q r_0 r_1 poly x added
              (values_0 x) (values_1 x)
              (length-take (length us / 2) cs (omega (arith, h)) ∙ sym taken)
            ∙ ap₂ (λ vs ds. combination vs ds x) (take-drop (length us / 2) us)
                (take-drop (length us / 2) cs),
      )

  -- Over the tree of distinct nodes that are regular, where their number is not a multiple of the characteristic, and
  -- with a value for each node, interpolation gives a polynomial with these values at the nodes.
  pub interpolate-values :
      (us vs : List F) (tree : SubproductTree F)
      → IsTreeOf D us tree
      → Distinct us
      → AreRegular us
      → D.from (length us) ≢ f.zero
      → length vs ≡ length us
      → (poly : List F) × (interpolate D tree us vs ≡ some poly) × (map (eval poly) us ≡ vs)
  unfolding interpolate
  interpolate-values us vs tree p d regular char h =
      let (cs, divided, same, values) =
        divide_values-Pointwise (cofactor us) us vs (cofactor-ne-zero us) h in
      let (poly, combined, at) = linear_combine-combination p cs same in
      (
        poly,
        rw (inverse_lagrange_coefficients-cofactor us tree p d regular char, divided, combined)
            refl,
        ap (λ g. map g us) (fun_ext at)
            ∙ values (combination us cs) (combination-cofactor us cs d same),
      )
