-- ===== src/Subproduct/Tree/Regular.antt =====
-- The series whose coefficients decide whether the divisions over a subproduct tree succeed: the inverse
-- of the reversed product over the nodes (subproductdomain/src/lib.rs).
use Prim.Native.Nat.{◌+◌ as ◌+ℕ◌, ◌^◌, ◌/◌}
use nucypher_ferveo.Base.{
  ℕ, zero, suc, ◌<◌, ◌≡◌, ◌≢◌, refl, sym, ap, ◌∙◌, List, [], ◌∷◌, ◌++◌, arith,
}
use mathlib.Core.List.{reverse, append_assoc}
use mathlib.Core.Path.{ap₂, fun_ext}
use nucypher_ferveo.Base.Lists.{length, take, drop, take-drop, length-append}
use nucypher_ferveo.Algebra.Field.{Field, ◌+◌, ◌*◌, neg}
use nucypher_ferveo.Algebra.Field.Ring.{ring}
use nucypher_ferveo.Algebra.Series.{
  Series, cons, nought, unit, conv, conv-cons, conv-nought_left, conv-unit_left, conv_comm,
  conv_commute, conv_assoc,
}
use nucypher_ferveo.Algebra.Series.Agree.{IsBounded}
use nucypher_ferveo.Algebra.Series.Reversal.{reversal, reversal-conv}
use nucypher_ferveo.Algebra.DensePolynomials.{DensePolynomials}
use nucypher_ferveo.Algebra.Poly.Coefficients.{coeff, coeff-length}
use nucypher_ferveo.Subproduct.Division.Remainder.{coeff-reverse-length}
use nucypher_ferveo.Subproduct.Tree.{SubproductTree, m}
use nucypher_ferveo.Subproduct.Tree.Product.{IsTreeOf, is_leaf, is_node, length-halves, m-monic}

module _ {F : Type 0} ⦃f : Field F⦄ where
  -- The complete symmetric polynomial of a degree at the nodes: the sum of all products of that many
  -- nodes, with repetition.
  unfoldable pub complete : List F → ℕ → F
  complete us zero = f.one
  complete [] (suc j) = f.zero
  complete (u ∷ us) (suc j) = complete us (suc j) + u * complete (u ∷ us) j

  abbrev factor : F → Series F
  factor u = cons f.one (cons (neg u) nought)

  -- (1 - u_0 x)...(1 - u_{n-1} x)
  abbrev pub factors : List F → Series F
  factors [] = unit
  factors (u ∷ us) = conv (factor u) (factors us)

  no_constant : (t : Series F) (n : ℕ) → cons f.zero (conv nought t) n ≡ f.zero
  no_constant t zero = refl
  no_constant t (suc n) = conv-nought_left t n

  complete_step :
      (u : F) (us : List F) (i : ℕ) → conv (factor u) (complete (u ∷ us)) i ≡ complete us i
  unfolding complete
  complete_step u us zero = conv-cons f.one _ (complete (u ∷ us)) zero ∙ simp ring
  complete_step u us (suc i) =
      conv-cons f.one _ (complete (u ∷ us)) (suc i)
      ∙ ap (λ t. f.one * complete (u ∷ us) (suc i) + t)
          (conv-cons (neg u) nought (complete (u ∷ us)) i
            ∙ ap (λ t. neg u * complete (u ∷ us) i + t) (no_constant (complete (u ∷ us)) i))
      ∙ cancel (complete us (suc i)) u (complete (u ∷ us) i)
    where
      cancel : (a u b : F) → f.one * (a + u * b) + (neg u * b + f.zero) ≡ a
      cancel a u b = simp ring

  pub factors-complete : (us : List F) (i : ℕ) → conv (factors us) (complete us) i ≡ unit i
  factors-complete [] i = conv-unit_left (complete []) i ∙ nothing i
    where
      nothing : (i : ℕ) → complete [] i ≡ unit i
      nothing zero = unfold complete in refl
      nothing (suc i) = unfold complete in refl
  factors-complete (u ∷ us) i =
      ap (λ s. conv s (complete (u ∷ us)) i) (conv_commute (factor u) (factors us))
      ∙ conv_assoc (factors us) (factor u) (complete (u ∷ us)) i
      ∙ ap (λ s. conv (factors us) s i) (fun_ext (complete_step u us))
      ∙ factors-complete us i

  factors-append :
      (us vs : List F) (i : ℕ) → factors (us ++ vs) i ≡ conv (factors us) (factors vs) i
  factors-append [] vs i = sym (conv-unit_left (factors vs) i)
  factors-append (u ∷ us) vs i =
      ap (λ s. conv (factor u) s i) (fun_ext (factors-append us vs))
      ∙ sym (conv_assoc (factor u) (factors us) (factors vs) i)

  -- No division over the tree of the nodes is cut after a zero: for any nodes in a row, at least one, the
  -- complete symmetric polynomials of degree 2^k - 1 are not zero, as far as a dividend with as many
  -- coefficients as there are nodes needs them.
  abbrev pub AreRegular : List F → Type 0
  AreRegular us =
      (xs vs ys : List F)
      → us ≡ xs ++ (vs ++ ys)
      → 0 < length vs
      → (k j : ℕ) → suc j ≡ 2 ^ k
      → suc (j +ℕ length vs) < length us
      → complete vs j ≢ f.zero

  pub AreRegular-left : (us vs : List F) → AreRegular (us ++ vs) → AreRegular us
  AreRegular-left us vs regular xs ws ys e pos k j p lt =
      regular xs ws (ys ++ vs)
        (ap (λ l. l ++ vs) e
          ∙ append_assoc xs (ws ++ ys) vs
          ∙ ap (λ l. xs ++ l) (append_assoc ws ys vs))
        pos k j p (omega (arith, lt, length-append us vs))

  pub AreRegular-right : (us vs : List F) → AreRegular (us ++ vs) → AreRegular vs
  AreRegular-right us vs regular xs ws ys e pos k j p lt =
      regular (us ++ xs) ws ys (ap (λ l. us ++ l) e ∙ sym (append_assoc us xs (ws ++ ys))) pos k j p
        (omega (arith, lt, length-append us vs))

module _ {F : Type 0} ⦃f : Field F⦄ (D : DensePolynomials F) where
  bounded :
      {us : List F} {tree : SubproductTree F}
      → IsTreeOf D us tree
      → IsBounded (length us) (coeff (m tree))
  bounded {tree = tree} p i lt = coeff-length (m tree) i (omega (arith, lt, (m-monic D p).0))

  reversed :
      {us : List F} {tree : SubproductTree F}
      → IsTreeOf D us tree
      → (j : ℕ) → reversal (length us) (coeff (m tree)) j ≡ coeff (reverse (m tree)) j
  reversed {us = us} {tree = tree} p j =
      sym (coeff-reverse-length (m tree) (length us) j (m-monic D p).0)

  -- The reversed polynomial of a tree.
  pub reverse-m :
      {us : List F} {tree : SubproductTree F}
      → IsTreeOf D us tree
      → (i : ℕ) → coeff (reverse (m tree)) i ≡ factors us i
  unfolding m
  reverse-m (is_leaf {u = u}) i = sym (conv_comm (factor u) unit i ∙ conv-unit_left (factor u) i)
  reverse-m (is_node {us = us} {left = left} {right = right} two p q) i =
      let (taken, dropped) = length-halves D us in
      coeff-reverse-length (D.mul (m left) (m right)) (length us) i (m-monic D (is_node two p q)).0
      ∙ ap (λ s. reversal (length us) s i) (fun_ext (D.coeff-mul (m left) (m right)))
      ∙ reversal-conv (length (take (length us / 2) us)) (length (drop (length us / 2) us))
          (length us) (coeff (m left)) (coeff (m right)) i (bounded p) (bounded q)
          (omega (arith, taken, dropped))
      ∙ ap₂ (λ s t. conv s t i) (fun_ext (λ j. reversed p j ∙ reverse-m p j))
          (fun_ext (λ j. reversed q j ∙ reverse-m q j))
      ∙ sym (factors-append (take (length us / 2) us) (drop (length us / 2) us) i)
      ∙ ap (λ l. factors l i) (take-drop (length us / 2) us)
