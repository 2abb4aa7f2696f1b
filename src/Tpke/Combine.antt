-- ===== src/Tpke/Combine.antt =====
-- tpke/src/combine.rs: the Lagrange coefficients, and the combination of decryption shares of the
-- simple and of the fast variant.
pub mod Basis
pub mod Simple
pub mod Sign
pub mod Append
pub mod Fast
use nucypher_ferveo.Base.{ℕ, Bool, true, false, Option, none, some, List, [], ◌∷◌}
use nucypher_ferveo.Base.Tests.{is_yes, if◌then◌else◌}
use nucypher_ferveo.Algebra.Field.{Field, ◌*◌, ◌-◌}
use nucypher_ferveo.Algebra.Field.Inverse.{div?}
use nucypher_ferveo.Algebra.Space.{Group, Space, ◌⊕◌, ◌•◌}
use nucypher_ferveo.Algebra.Engine.{Engine}
use nucypher_ferveo.Base.Outcome.{ok, err, ◌>>=◌, ◌>>◌}
use nucypher_ferveo.Tpke.Interface.{decryption_share_verification_failed}
use nucypher_ferveo.Tpke.Ciphertext.{Ciphertext, TpkeResult}
use nucypher_ferveo.Tpke.Context.{PublicDecryptionContextFast}
use nucypher_ferveo.Tpke.Decryption.{
  verify_decryption_shares_fast, DecryptionShareFast, DecryptionShareSimple,
  DecryptionShareSimplePrecomputed,
}

-- A division by zero is a panic, `none`.
module _ {ℓ} {F : Type ℓ} ⦃f : Field F⦄ where
  -- The inner loop of `lagrange_basis_at`, over `x_m`.
  unfoldable pub lagrange_product : F → F → List F → F → Option F
  lagrange_product x_i x_j [] prod = some prod
  lagrange_product x_i x_j (x_m ∷ shares_x) prod =
      let skip = lagrange_product x_i x_j shares_x prod in
      let multiply : Option F = elim (div? (x_m - x_i) (x_m - x_j)) [
        | none ↦ none
        | some quotient ↦ lagrange_product x_i x_j shares_x (prod * quotient)
      ] in
      if is_yes (f.dec_eq x_j x_m) then skip else multiply

  -- The outer loop, over `x_j`.
  unfoldable pub lagrange_coeffs : F → List F → List F → Option (List F)
  lagrange_coeffs x_i shares_x [] = some []
  lagrange_coeffs x_i shares_x (x_j ∷ rest) = elim (lagrange_product x_i x_j shares_x f.one) [
    | none ↦ none
    | some prod ↦ elim (lagrange_coeffs x_i shares_x rest) [
      | none ↦ none
      | some coeffs ↦ some (prod ∷ coeffs)
    ]
  ]

  unfoldable pub lagrange_basis_at : List F → F → Option (List F)
  unfolding lagrange_coeffs lagrange_product
  lagrange_basis_at shares_x x_i = lagrange_coeffs x_i shares_x shares_x

  unfoldable pub prepare_combine_simple : List F → Option (List F)
  unfolding lagrange_basis_at
  prepare_combine_simple domain = lagrange_basis_at domain f.zero

module _ (E : Engine) where
  open E use {Fr, G1, G2, Fqk, product_of_pairings}

  instance abbrev fr : Field Fr
  fr = E.field

  instance abbrev gt : Group Fqk
  gt = E.groupt

  instance abbrev st : Space Fr Fqk
  st = E.spacet

  -- The fold of `share_combine_simple`, which ends with the shorter of the two lists.
  unfoldable pub combine_simple_from : Fqk → List (DecryptionShareSimple E) → List Fr → Fqk
  combine_simple_from acc (c_i ∷ shares) (alpha_i ∷ coeffs) =
      combine_simple_from (acc ⊕ alpha_i • c_i.decryption_share) shares coeffs
  combine_simple_from acc _ _ = acc

  unfoldable pub share_combine_simple : List (DecryptionShareSimple E) → List Fr → Fqk
  unfolding combine_simple_from
  share_combine_simple decryption_shares lagrange_coeffs =
      combine_simple_from gt.zero decryption_shares lagrange_coeffs

  unfoldable pub combine_precomputed_from : Fqk → List (DecryptionShareSimplePrecomputed E) → Fqk
  combine_precomputed_from acc [] = acc
  combine_precomputed_from acc (c_i ∷ shares) =
      combine_precomputed_from (acc ⊕ c_i.decryption_share) shares

  unfoldable pub share_combine_simple_precomputed : List (DecryptionShareSimplePrecomputed E) → Fqk
  unfolding combine_precomputed_from
  share_combine_simple_precomputed shares = combine_precomputed_from gt.zero shares

  -- The slice that `share_combine_fast` pushes together.
  unfoldable pub pairing_product : List (DecryptionShareFast E) → List G2 → List (G1 × G2)
  pairing_product (d_i ∷ shares) (key_share ∷ key_shares) =
      (d_i.decryption_share, key_share) ∷ pairing_product shares key_shares
  pairing_product _ _ = []

  unfoldable pub share_combine_fast : List (DecryptionShareFast E) → List G2 → Fqk
  unfolding pairing_product
  share_combine_fast shares prepared_key_shares =
      product_of_pairings (pairing_product shares prepared_key_shares)

  unfoldable pub checked_share_combine_fast :
      List (PublicDecryptionContextFast E)
      → Ciphertext E
      → List (DecryptionShareFast E)
      → List G2
      → TpkeResult Fqk
  checked_share_combine_fast pub_contexts ciphertext decryption_shares prepared_key_shares = do
    is_valid_shares ← verify_decryption_shares_fast E pub_contexts ciphertext decryption_shares
    if is_valid_shares
        then ok (share_combine_fast decryption_shares prepared_key_shares)
        else err decryption_share_verification_failed
