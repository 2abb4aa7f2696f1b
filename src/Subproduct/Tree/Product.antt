-- ===== src/Subproduct/Tree/Product.antt =====
-- `SubproductTree::new` builds a tree of products over the nodes (subproductdomain/src/lib.rs).
use Prim.Native.Nat.{◌+◌ as ◌+ℕ◌, ◌/◌}
use nucypher_ferveo.Base.{
  ℕ, zero, suc, ◌≤◌, ◌≡◌, refl, sym, ap, ◌∙◌, some, List, [], ◌∷◌, ◌++◌, inl, inr, arith,
}
use mathlib.Core.Path.{ap₂}
use nucypher_ferveo.Base.Tests.{Bool-cases, leb, leb→le, leb→gt}
use nucypher_ferveo.Base.Lists.{length, take, drop, take-drop, length-take, length-drop}
use nucypher_ferveo.Algebra.Field.{Field, ◌+◌, ◌*◌, ◌-◌, neg, mul-one, one-mul, mul_assoc}
use nucypher_ferveo.Algebra.Field.Ring.{ring}
use nucypher_ferveo.Algebra.Series.{conv}
use nucypher_ferveo.Algebra.Series.Agree.{conv-top, conv-IsBounded}
use nucypher_ferveo.Algebra.DensePolynomials.{DensePolynomials}
use nucypher_ferveo.Algebra.Poly.{eval}
use nucypher_ferveo.Algebra.Poly.Coefficients.{
  coeff, coeff-length, eval-coeff, slope-coeff, slope, mul_coeffs, coeff-mul_coeffs,
  eval-mul_coeffs, slope-mul_coeffs, length-IsTrimmed,
}
use nucypher_ferveo.Subproduct.Tree.{SubproductTree, leaf, node, m, new}

module _ {F : Type 0} ⦃f : Field F⦄ where
  -- (x - u_0)...(x - u_{n-1})
  unfoldable pub vanishing : List F → F → F
  vanishing [] x = f.one
  vanishing (u ∷ us) x = (x - u) * vanishing us x

  -- The sum over i of c_i times the product of the factors other than x - u_i; where the c_i end,
  -- they are one.
  unfoldable pub combination : List F → List F → F → F
  combination [] cs x = f.zero
  combination (u ∷ us) [] x = f.zero
  combination (u ∷ us) (c ∷ cs) x = c * vanishing us x + (x - u) * combination us cs x

  -- The derivative of the product.
  unfoldable pub vanishing_slope : List F → F → F
  vanishing_slope [] x = f.zero
  vanishing_slope (u ∷ us) x = vanishing us x + (x - u) * vanishing_slope us x

  pub vanishing-append :
      (us vs : List F) (x : F) → vanishing (us ++ vs) x ≡ vanishing us x * vanishing vs x
  unfolding vanishing
  vanishing-append [] vs x = sym (one-mul (vanishing vs x))
  vanishing-append (u ∷ us) vs x =
      rw (vanishing-append us vs x) (sym (mul_assoc (x - u) (vanishing us x) (vanishing vs x)))

  pub combination-append :
      (us vs cs ds : List F) (x : F)
      → length cs ≡ length us
      → combination (us ++ vs) (cs ++ ds) x
        ≡ vanishing vs x * combination us cs x + vanishing us x * combination vs ds x
  unfolding vanishing combination
  combination-append [] vs [] ds x h = simp ring
  combination-append [] vs (c ∷ cs) ds x h = absurd (omega arith)
  combination-append (u ∷ us) vs [] ds x h = absurd (omega arith)
  combination-append (u ∷ us) vs (c ∷ cs) ds x h =
      rw (combination-append us vs cs ds x (omega arith), vanishing-append us vs x)
        (gather c (x - u) (vanishing us x) (vanishing vs x) (combination us cs x)
          (combination vs ds x))
    where
      gather :
          (c t p q a b : F) → c * (p * q) + t * (q * a + p * b) ≡ q * (c * p + t * a) + t * p * b
      gather c t p q a b = simp ring

  pub vanishing_slope-append :
      (us vs : List F) (x : F)
      → vanishing_slope (us ++ vs) x
        ≡ vanishing_slope us x * vanishing vs x + vanishing us x * vanishing_slope vs x
  unfolding vanishing vanishing_slope
  vanishing_slope-append [] vs x = simp ring
  vanishing_slope-append (u ∷ us) vs x =
      rw (vanishing_slope-append us vs x, vanishing-append us vs x)
        (gather (x - u) (vanishing us x) (vanishing vs x) (vanishing_slope us x)
          (vanishing_slope vs x))
    where
      gather : (t p q a b : F) → p * q + t * (a * q + p * b) ≡ (p + t * a) * q + t * p * b
      gather t p q a b = simp ring

module _ {F : Type 0} ⦃f : Field F⦄ (D : DensePolynomials F) where
  -- A tree over a list of nodes, split where the code splits it.
  pub data IsTreeOf : List F → SubproductTree F → Type 0 where
    is_leaf : {u : F} → IsTreeOf (u ∷ []) (leaf (neg u ∷ f.one ∷ []))
    is_node :
        {us : List F} {left right : SubproductTree F}
        → 2 ≤ length us
        → IsTreeOf (take (length us / 2) us) left
        → IsTreeOf (drop (length us / 2) us) right
        → IsTreeOf us (node left right (D.mul (m left) (m right)))

  pub length-halves :
      (us : List F)
      → (length (take (length us / 2) us) ≡ length us / 2)
        × (length us / 2 +ℕ length (drop (length us / 2) us) ≡ length us)
  length-halves us =
      (length-take (length us / 2) us (omega arith), length-drop (length us / 2) us (omega arith))

  -- The depth is at most the number of nodes.
  pub new-IsTreeOf :
      (fuel : ℕ) (us : List F)
      → 1 ≤ length us
      → length us ≤ fuel
      → (tree : SubproductTree F) × (new D fuel us ≡ some tree) × IsTreeOf us tree
  unfolding new
  new-IsTreeOf zero us pos le = absurd (omega arith)
  new-IsTreeOf (suc fuel) [] pos le = absurd (omega arith)
  new-IsTreeOf (suc fuel) (u ∷ []) pos le = (leaf (neg u ∷ f.one ∷ []), refl, is_leaf)
  new-IsTreeOf (suc fuel) (u ∷ v ∷ us) pos le =
      let (taken, dropped) = length-halves (u ∷ v ∷ us) in
      let (left, made_left, p) =
        new-IsTreeOf fuel (take (length (u ∷ v ∷ us) / 2) (u ∷ v ∷ us)) (omega (arith, taken))
          (omega (arith, taken)) in
      let (right, made_right, q) =
        new-IsTreeOf fuel (drop (length (u ∷ v ∷ us) / 2) (u ∷ v ∷ us)) (omega (arith, dropped))
          (omega (arith, dropped)) in
      (
        node left right (D.mul (m left) (m right)),
        rw (made_left, made_right) refl,
        is_node (omega arith) p q,
      )

  pub eval-mul : (p q : List F) (x : F) → eval (D.mul p q) x ≡ eval p x * eval q x
  eval-mul p q x =
      eval-coeff (D.mul p q) (mul_coeffs p q) x
        (λ i. D.coeff-mul p q i ∙ sym (coeff-mul_coeffs p q i))
      ∙ eval-mul_coeffs p q x

  slope-mul :
      (p q : List F) (x : F) → slope (D.mul p q) x ≡ slope p x * eval q x + eval p x * slope q x
  slope-mul p q x =
      slope-coeff (D.mul p q) (mul_coeffs p q) x
        (λ i. D.coeff-mul p q i ∙ sym (coeff-mul_coeffs p q i))
      ∙ slope-mul_coeffs p q x

  pub eval-m :
      {us : List F} {tree : SubproductTree F}
      → IsTreeOf us tree
      → (x : F) → eval (m tree) x ≡ vanishing us x
  unfolding m
  eval-m (is_leaf {u = u}) x = unfold eval vanishing in simp ring
  eval-m (is_node {us = us} {left = left} {right = right} le p q) x =
      eval-mul (m left) (m right) x
      ∙ ap₂ ◌*◌ (eval-m p x) (eval-m q x)
      ∙ sym (vanishing-append (take (length us / 2) us) (drop (length us / 2) us) x)
      ∙ ap (λ vs. vanishing vs x) (take-drop (length us / 2) us)

  pub slope-m :
      {us : List F} {tree : SubproductTree F}
      → IsTreeOf us tree
      → (x : F) → slope (m tree) x ≡ vanishing_slope us x
  unfolding m
  slope-m (is_leaf {u = u}) x = unfold eval vanishing slope vanishing_slope in simp ring
  slope-m (is_node {us = us} {left = left} {right = right} le p q) x =
      slope-mul (m left) (m right) x
      ∙ ap₂ ◌+◌ (ap₂ ◌*◌ (slope-m p x) (eval-m q x)) (ap₂ ◌*◌ (eval-m p x) (slope-m q x))
      ∙ sym (vanishing_slope-append (take (length us / 2) us) (drop (length us / 2) us) x)
      ∙ ap (λ vs. vanishing_slope vs x) (take-drop (length us / 2) us)

  -- The polynomial of a tree is monic, of the number of its nodes as degree.
  pub m-monic :
      {us : List F} {tree : SubproductTree F}
      → IsTreeOf us tree
      → (length (m tree) ≡ suc (length us)) × (coeff (m tree) (length us) ≡ f.one)
  unfolding m
  m-monic is_leaf = (refl, refl)
  m-monic (is_node {us = us} {left = left} {right = right} le p q) =
      let (taken, dropped) = length-halves us in
      let (hl, cl) = m-monic p in
      let (hr, cr) = m-monic q in
      let top =
        top_of (m left) (m right) _ _ (length us) hl cl hr cr (omega (arith, taken, dropped)) in
      (top.0, top.1)
    where
      top_of :
          (a b : List F) (j k n : ℕ)
          → length a ≡ suc j
          → coeff a j ≡ f.one
          → length b ≡ suc k
          → coeff b k ≡ f.one
          → j +ℕ k ≡ n
          → (length (D.mul a b) ≡ suc n) × (coeff (D.mul a b) n ≡ f.one)
      top_of a b j k n ha ca hb cb e = (exactly, one_at)
        where
          one_at : coeff (D.mul a b) n ≡ f.one
          one_at =
              D.coeff-mul a b n
              ∙ ap (λ i. conv (coeff a) (coeff b) i) (sym e)
              ∙ conv-top (coeff a) (coeff b) j k (λ i l. coeff-length a i (omega arith))
                  (λ i l. coeff-length b i (omega arith))
              ∙ rw (ca, cb) (mul-one f.one)

          at_most : length (D.mul a b) ≤ suc n
          at_most = length-IsTrimmed (suc n) (D.mul a b) (D.mul-IsTrimmed a b) (λ i l.
              D.coeff-mul a b i
              ∙ conv-IsBounded (coeff a) (coeff b) j k (λ i l. coeff-length a i (omega arith))
                  (λ i l. coeff-length b i (omega arith)) i (omega arith))

          exactly : length (D.mul a b) ≡ suc n
          exactly = elim (Bool-cases (leb (length (D.mul a b)) n)) [
            | inl h ↦ absurd (
                f.one-ne-zero
                  (sym one_at ∙ coeff-length (D.mul a b) n (leb→le (length (D.mul a b)) n h)))
            | inr h ↦ omega (arith, at_most, leb→gt (length (D.mul a b)) n h)
          ]
