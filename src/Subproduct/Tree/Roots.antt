-- ===== src/Subproduct/Tree/Roots.antt =====
-- Evaluation over a subproduct tree panics at a root (subproductdomain/src/lib.rs).
use Prim.Native.Nat.{◌/◌}
use nucypher_ferveo.Base.{
  ◌≤◌, ◌≡◌, refl, sym, ◌∙◌, inl, inr, Option, none, some, List, [], ◌∷◌, ◌++◌, arith,
}
use nucypher_ferveo.Base.Tests.{lt→ltb, ne→==}
use nucypher_ferveo.Base.Lists.{length, take, drop}
use nucypher_ferveo.Base.Panics.{◌>>=◌}
use nucypher_ferveo.Base.Predicates.{Any, Any-take-drop, Any-imp}
use nucypher_ferveo.Algebra.Field.{Field}
use nucypher_ferveo.Algebra.Field.Ring.{ring}
use nucypher_ferveo.Algebra.DensePolynomials.{DensePolynomials}
use nucypher_ferveo.Algebra.Poly.{eval}
use nucypher_ferveo.Algebra.Poly.Coefficients.{IsTrimmed}
use nucypher_ferveo.Subproduct.Tree.{SubproductTree, m, first, evaluate}
use nucypher_ferveo.Subproduct.Division.{fast_divide_monic}
use nucypher_ferveo.Subproduct.Tree.Product.{IsTreeOf, is_leaf, is_node}
use nucypher_ferveo.Subproduct.Tree.Evaluate.{degree_lt, remainder_of}

module _ {F : Type 0} ⦃f : Field F⦄ (D : DensePolynomials F) where
  first_root :
      (func : List F) (u : F)
      → IsTrimmed func
      → length func ≤ 1
      → eval func u ≡ f.zero
      → first func ≡ none
  unfolding first eval
  first_root [] u trimmed le e = refl
  first_root (c ∷ []) u trimmed le e = absurd (trimmed ((simp ring (refl {a = c})) ∙ e))
  first_root (c ∷ d ∷ cs) u trimmed le e = absurd (omega arith)

  -- Over the tree of its nodes, a polynomial without a leading zero, with at most as many coefficients
  -- as there are nodes, has no evaluation where one of the nodes is a root: the remainder at that
  -- node has no coefficient, and its constant is an index out of bounds.
  pub evaluate-root :
      {us : List F} {tree : SubproductTree F}
      → IsTreeOf D us tree
      → (func : List F) → IsTrimmed func
      → length func ≤ length us
      → Any (λ u. eval func u ≡ f.zero) us
      → evaluate D tree func us ≡ none
  unfolding evaluate
  evaluate-root (is_leaf {u = u}) func trimmed le (inl e) =
      rw
        (
          lt→ltb (D.degree func) 1 (degree_lt D func 1 trimmed (omega arith) le),
          first_root func u trimmed le e,
        )
        refl
  evaluate-root (is_leaf {u = u}) func trimmed le (inr e) = absurd e
  evaluate-root (is_node {us = us} {left = left} {right = right} two p q) func trimmed le e =
      rw
        (
          lt→ltb (D.degree func) (length us)
              (degree_lt D func (length us) trimmed (omega arith) le),
          ne→== (length us) 1 (λ e. omega arith),
        )
        (halves (λ r. evaluate-root p r) (λ r. evaluate-root q r)
          (fast_divide_monic D func (m left)) (fast_divide_monic D func (m right)) refl refl)
    where
      after_left : {A B : Type 0} (o : Option A) → ◌>>=◌ {B = B} o (λ x. none) ≡ none
      after_left none = refl
      after_left (some a) = refl

      halves :
          ((r : List F)
            → IsTrimmed r
            → length r ≤ length (take (length us / 2) us)
            → Any (λ u. eval r u ≡ f.zero) (take (length us / 2) us)
            → evaluate D left r (take (length us / 2) us) ≡ none)
          → ((r : List F)
              → IsTrimmed r
              → length r ≤ length (drop (length us / 2) us)
              → Any (λ u. eval r u ≡ f.zero) (drop (length us / 2) us)
              → evaluate D right r (drop (length us / 2) us) ≡ none)
          → (o_0 o_1 : Option (List F × List F)) → fast_divide_monic D func (m left) ≡ o_0
          → fast_divide_monic D func (m right) ≡ o_1
          → (do
            (q_0, r_0) ← o_0
            (q_1, r_1) ← o_1
            t_0 ← evaluate D left r_0 (take (length us / 2) us)
            t_1 ← evaluate D right r_1 (drop (length us / 2) us)
            some (t_0 ++ t_1))
            ≡ none
      halves on_left on_right none o_1 d_0 d_1 = refl
      halves on_left on_right (some (q_0, r_0)) none d_0 d_1 = refl
      halves on_left on_right (some (q_0, r_0)) (some (q_1, r_1)) d_0 d_1 =
          let (same_0, trim_0, short_0) = remainder_of D p func q_0 r_0 trimmed d_0 in
          let (same_1, trim_1, short_1) = remainder_of D q func q_1 r_1 trimmed d_1 in
          elim (Any-take-drop (λ u. eval func u ≡ f.zero) (length us / 2) us e) [
            | inl root ↦
                rw
                  (on_left r_0 trim_0 short_0
                    (Any-imp _ _ _ (take (length us / 2) us) (λ u s z. sym s ∙ z) same_0 root))
                  refl
            | inr root ↦
                rw
                  (on_right r_1 trim_1 short_1
                    (Any-imp _ _ _ (drop (length us / 2) us) (λ u s z. sym s ∙ z) same_1 root))
                  (after_left (evaluate D left r_0 (take (length us / 2) us)))
          ]
