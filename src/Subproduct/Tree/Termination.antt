-- ===== src/Subproduct/Tree/Termination.antt =====
-- The recursion of `SubproductTree::new` ends (subproductdomain/src/lib.rs).
use Prim.Native.Nat.{◌/◌}
use nucypher_ferveo.Base.{ℕ, zero, suc, ◌≤◌, ◌≡◌, refl, ap, ◌∙◌, none, some, List, [], ◌∷◌, arith}
use nucypher_ferveo.Base.Lists.{length, take, drop}
use nucypher_ferveo.Algebra.Field.{Field}
use nucypher_ferveo.Algebra.DensePolynomials.{DensePolynomials}
use nucypher_ferveo.Algebra.Poly.{eval}
use nucypher_ferveo.Subproduct.Tree.{SubproductTree, m, new}
use nucypher_ferveo.Subproduct.Tree.Product.{
  vanishing, length-halves, new-IsTreeOf, eval-m, m-monic,
}

module _ {F : Type 0} ⦃f : Field F⦄ (D : DensePolynomials F) where
  -- Without a node the recursion does not end.
  new-nil : (fuel : ℕ) → new D fuel [] ≡ none
  unfolding new
  new-nil zero = refl
  new-nil (suc fuel) = rw (new-nil fuel) refl

  -- Fuel beyond the number of nodes does not matter.
  new_stable :
      (fuel more : ℕ) (us : List F)
      → 1 ≤ length us
      → length us ≤ fuel
      → length us ≤ more
      → new D fuel us ≡ new D more us
  unfolding new
  new_stable zero more us pos le le' = absurd (omega arith)
  new_stable (suc fuel) zero us pos le le' = absurd (omega arith)
  new_stable (suc fuel) (suc more) [] pos le le' = absurd (omega arith)
  new_stable (suc fuel) (suc more) (u ∷ []) pos le le' = refl
  new_stable (suc fuel) (suc more) (u ∷ v ∷ us) pos le le' =
      let (taken, dropped) = length-halves D (u ∷ v ∷ us) in
      rw
        (
          new_stable fuel more (take (length (u ∷ v ∷ us) / 2) (u ∷ v ∷ us)) (omega (arith, taken))
              (omega (arith, taken)) (omega (arith, taken)),
          new_stable fuel more (drop (length (u ∷ v ∷ us) / 2) (u ∷ v ∷ us))
              (omega (arith, dropped)) (omega (arith, dropped)) (omega (arith, dropped)),
        )
        refl

  -- The recursion that builds a subproduct tree: without a node no fuel is enough. With at least one
  -- node, fuel of their number is enough and more gives the same tree, whose polynomial is the product
  -- of the factors x - u_i, with one coefficient more than there are nodes.
  pub new_terminates :
      (us : List F)
      → (us ≡ [] → (fuel : ℕ) → new D fuel us ≡ none)
        × (1 ≤ length us
            → (tree : SubproductTree F) × ((fuel : ℕ)
                → length us ≤ fuel
                → new D fuel us ≡ some tree)
              × ((x : F) → eval (m tree) x ≡ vanishing us x)
              × (length (m tree) ≡ suc (length us)))
  new_terminates us = (
    (λ e fuel. ap (new D fuel) e ∙ new-nil fuel),
    (λ pos.
        let (tree, made, p) = new-IsTreeOf D (length us) us pos (omega arith) in
        (
          tree,
          (λ fuel le. new_stable fuel (length us) us pos le (omega arith) ∙ made),
          eval-m D p,
          (m-monic D p).0,
        )),
  )
