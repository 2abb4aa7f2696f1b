-- ===== src/Ferveo/Threshold.antt =====
-- Threshold decryption with the key of a session, as ferveo/src/lib.rs composes it: the transcripts
-- are aggregated, every validator creates its decryption share, and the shares are combined.
pub mod Joint
pub mod Keys
pub mod Shares
pub mod EndToEnd
pub mod Refresh
pub mod Verify
use nucypher_ferveo.Base.{ℕ, suc, Bool, true, ◌&&◌, List, [], ◌∷◌}
use nucypher_ferveo.Base.Tests.{is_yes, ◌==◌}
use nucypher_ferveo.Base.Lists.{length, take}
use nucypher_ferveo.Base.Outcome.{ok, panic, ◌>>=◌, ◌>>◌, unwrap, assert}
use nucypher_ferveo.Algebra.Field.{Field}
use nucypher_ferveo.Algebra.Space.{Group, Space}
use nucypher_ferveo.Algebra.Engine.{Engine}
use nucypher_ferveo.Tpke.Interface.{Primitives}
use nucypher_ferveo.Tpke.Ciphertext.{Ciphertext}
use nucypher_ferveo.Tpke.Decryption.{DecryptionShareSimple, verify}
use nucypher_ferveo.Tpke.Refresh.{make_random_polynomial_at}
use nucypher_ferveo.Algebra.Domain.{Polynomials}
use nucypher_ferveo.Tpke.Combine.{prepare_combine_simple, share_combine_simple}
use nucypher_ferveo.Ferveo.Common.{Validator, Keypair, public}
use nucypher_ferveo.Ferveo.Session.{AggregatedPvss, PubliclyVerifiableDkg}
use nucypher_ferveo.Ferveo.Pvss
use nucypher_ferveo.Ferveo.Pvss.{DkgResult, g_inv}
use nucypher_ferveo.Ferveo.Pvss.Shares.{make_decryption_share_simple, refresh_decryption_share}

module _ (E : Engine) where
  open E use {G2}

  -- The assertion that the keypairs are those of the validators, in order; `zip_eq` panics where
  -- there are more of the ones than of the others.
  unfoldable pub check_keypairs : List (Validator E) → List (Keypair E) → DkgResult (Unit {0})
  check_keypairs [] [] = ok tt
  check_keypairs (v ∷ validators) (k ∷ keypairs) = do
    assert
        (is_yes (E.group2.dec_eq v.validator.public_key.encryption_key (public E k).encryption_key))
    check_keypairs validators keypairs
  check_keypairs _ _ = panic

  -- The share that is made for each validator, with the index that `enumerate` has reached; a panic is
  -- that of the first that panics.
  unfoldable pub collect_shares :
      (ℕ → Keypair E → DkgResult (DecryptionShareSimple E))
      → ℕ
      → List (Keypair E)
      → DkgResult (List (DecryptionShareSimple E))
  collect_shares create index [] = ok []
  collect_shares create index (k ∷ keypairs) = do
    share ← create index k
    shares ← collect_shares create (suc index) keypairs
    ok (share ∷ shares)

  -- The verification of the shares of the validators; it ends with the shortest list.
  unfoldable pub verify_shares :
      G2 → Ciphertext E → List G2 → List (Keypair E) → List (DecryptionShareSimple E) → Bool
  verify_shares h ciphertext (y ∷ aggregated_shares) (k ∷ keypairs) (share ∷ shares) =
      verify E share y (public E k).encryption_key h ciphertext
      && verify_shares h ciphertext aggregated_shares keypairs shares
  verify_shares h ciphertext _ _ _ = true

module _ (E : Engine) (P : Primitives E) where
  open E use {Fr, G1, G2, Fqk}

  instance abbrev fr : Field Fr
  fr = E.field

  unfoldable pub make_decryption_shares :
      AggregatedPvss E
      → Ciphertext E
      → List ℕ
      → G1
      → List (Keypair E)
      → DkgResult (List (DecryptionShareSimple E))
  unfolding collect_shares
  make_decryption_shares pvss ciphertext aad inverse validator_keypairs =
      collect_shares E
        (λ i k. make_decryption_share_simple E P pvss ciphertext aad k.decryption_key i inverse) 0
        validator_keypairs

  unfoldable pub make_shared_secret_simple_tdec :
      PubliclyVerifiableDkg E
      → List ℕ
      → Ciphertext E
      → List (Keypair E)
      → DkgResult (AggregatedPvss E × List (DecryptionShareSimple E) × Fqk)
  make_shared_secret_simple_tdec dkg aad ciphertext validator_keypairs = do
    check_keypairs E dkg.validators validator_keypairs
    pvss_aggregated ← Pvss.aggregate E dkg
    decryption_shares ←
        make_decryption_shares pvss_aggregated ciphertext aad (g_inv E dkg.pvss_params)
          validator_keypairs
    let domain : List Fr = take (length decryption_shares) dkg.domain.elements
    assert (length domain == length decryption_shares)
    lagrange_coeffs ← unwrap (prepare_combine_simple domain)
    ok (
      pvss_aggregated,
      decryption_shares,
      share_combine_simple E decryption_shares lagrange_coeffs,
    )

  module _ (D : Polynomials E) where
    unfoldable pub refresh_decryption_shares :
        AggregatedPvss E
        → Ciphertext E
        → List ℕ
        → List Fr
        → PubliclyVerifiableDkg E
        → List (Keypair E)
        → DkgResult (List (DecryptionShareSimple E))
    unfolding collect_shares
    refresh_decryption_shares pvss ciphertext aad polynomial dkg validator_keypairs =
        collect_shares E
          (λ i k.
            refresh_decryption_share E P D pvss ciphertext aad k.decryption_key i polynomial dkg)
          0 validator_keypairs

    -- The secret after the dealer has refreshed the shares; `random` is the polynomial that it draws.
    unfoldable pub refresh_shared_secret :
        PubliclyVerifiableDkg E
        → List ℕ
        → Ciphertext E
        → List (Keypair E)
        → AggregatedPvss E
        → List Fr
        → DkgResult Fqk
    refresh_shared_secret dkg aad ciphertext validator_keypairs pvss_aggregated random = do
      polynomial ← unwrap (make_random_polynomial_at E D random fr.zero)
      new_decryption_shares ←
          refresh_decryption_shares pvss_aggregated ciphertext aad polynomial dkg validator_keypairs
      lagrange_coeffs ← unwrap (prepare_combine_simple dkg.domain.elements)
      ok (share_combine_simple E new_decryption_shares lagrange_coeffs)
