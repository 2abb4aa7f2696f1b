-- ===== src/Subproduct/Circulant.antt =====
-- `build_circulant` of subproductdomain/src/lib.rs. A panic is `none`.
pub mod Slices
pub mod Entries
use Prim.Native.Nat.{◌+◌ as ◌+ℕ◌, ◌*◌ as ◌*ℕ◌, ◌-◌ as ◌-ℕ◌}
use nucypher_ferveo.Base.{ℕ, zero, suc, Option, none, some, List, [], ◌∷◌}
use nucypher_ferveo.Base.Tests.{leb, ◌==◌, if◌then◌else◌}
use nucypher_ferveo.Base.Lists.{length, get_elem?, take, drop, replicate}
use nucypher_ferveo.Base.Panics.{◌>>=◌, ◌>>◌, assert}
use nucypher_ferveo.Algebra.Field.{Field}
use nucypher_ferveo.Algebra.DensePolynomials.{DensePolynomials}

module _ {F : Type 0} where
  -- An assignment to an index.
  unfoldable pub set? : ℕ → F → List F → Option (List F)
  set? i x [] = none
  set? zero x (y ∷ ys) = some (x ∷ ys)
  set? (suc i) x (y ∷ ys) = do rest ← set? i x ys; some (y ∷ rest)

  -- A copy of a slice to the places from an offset on.
  unfoldable pub copy_from_slice? : ℕ → List F → List F → Option (List F)
  copy_from_slice? zero [] ys = some ys
  copy_from_slice? zero (x ∷ xs) [] = none
  copy_from_slice? zero (x ∷ xs) (y ∷ ys) = do rest ← copy_from_slice? zero xs ys; some (x ∷ rest)
  copy_from_slice? (suc i) xs [] = none
  copy_from_slice? (suc i) xs (y ∷ ys) = do rest ← copy_from_slice? i xs ys; some (y ∷ rest)

module _ {F : Type 0} ⦃f : Field F⦄ (D : DensePolynomials F) where
  -- Of a polynomial without coefficients, and of any with n = 0, an index is out of bounds.
  unfoldable pub build_circulant : List F → ℕ → Option (List F)
  unfolding set? copy_from_slice?
  build_circulant [] n = none
  build_circulant (c ∷ cs) n =
      let coeffs : List F = c ∷ cs in
      let full : Option (List F) = (do
        last ← get_elem? coeffs (length coeffs -ℕ 1)
        circulant ← set? 0 last (replicate (2 *ℕ n) f.zero)
        circulant ← set? n last circulant
        copy_from_slice? (suc n) (take (length coeffs -ℕ 2) (drop 1 coeffs)) circulant) in
      let shorter : Option (List F) =
        copy_from_slice? (suc n) (drop 1 coeffs) (replicate (2 *ℕ n) f.zero) in
      assert (leb (D.degree coeffs) n) >> (if n == length coeffs -ℕ 1 then full else shorter)
