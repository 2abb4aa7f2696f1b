-- ===== src/Ferveo/Threshold/Refresh.antt =====
-- The secret of a session after its shares are refreshed (ferveo/src/lib.rs, tpke/src/refresh.rs).
use nucypher_ferveo.Base.{ℕ, suc, ◌<◌, ◌≤◌, ◌≡◌, refl, ap, ◌∙◌, List, ◌∷◌, arith}
use mathlib.Core.Path.{subst}
use nucypher_ferveo.Base.Lists.{length, take_all}
use nucypher_ferveo.Base.Outcome.{ok}
use nucypher_ferveo.Algebra.Field.{Field, ◌+◌, add-zero}
use nucypher_ferveo.Algebra.Field.Inverse.{inv}
use nucypher_ferveo.Algebra.Space.{Group, Space, ◌•◌}
use nucypher_ferveo.Algebra.Engine.{Engine}
use nucypher_ferveo.Algebra.Domain.{Polynomials}
use nucypher_ferveo.Algebra.Poly.{eval, add_coeffs, eval-add_coeffs, length-add_coeffs}
use nucypher_ferveo.Tpke.Interface.{Primitives}
use nucypher_ferveo.Tpke.KeyShare.{PrivateKeyShare}
use nucypher_ferveo.Tpke.Ciphertext.{Ciphertext, check_ciphertext_validity}
use nucypher_ferveo.Tpke.Decryption.{DecryptionShareSimple}
use nucypher_ferveo.Tpke.Decryption.Simple.{create-ok}
use nucypher_ferveo.Tpke.Combine.Simple.{IsShareOf, share_combine_simple-prepare_combine_simple}
use nucypher_ferveo.Tpke.Refresh.{refresh_private_key_share}
use nucypher_ferveo.Tpke.Refresh.Recovery.{
  make_random_polynomial_at-root, refresh_private_key_share-add_coeffs,
}
use nucypher_ferveo.Ferveo.Common.{Keypair}
use nucypher_ferveo.Ferveo.Session.{AggregatedPvss, PubliclyVerifiableDkg}
use nucypher_ferveo.Ferveo.Pvss
use nucypher_ferveo.Ferveo.Pvss.{g_inv}
use nucypher_ferveo.Ferveo.Pvss.Dealing.{Msm}
use nucypher_ferveo.Ferveo.Pvss.Shares.{refresh_decryption_share}
use nucypher_ferveo.Ferveo.Dkg.Sums.{FitDomain}
use nucypher_ferveo.Ferveo.Threshold.{
  make_shared_secret_simple_tdec, refresh_decryption_shares, refresh_shared_secret,
}
use nucypher_ferveo.Ferveo.Threshold.Joint.{
  AreDealt, joint, length-joint, aggregate_transcripts-joint, shares_for,
}
use nucypher_ferveo.Ferveo.Threshold.Keys.{AreKeysOf, length-keys, keys_fit}
use nucypher_ferveo.Ferveo.Threshold.Shares.{
  IsCreated, collect_shares-ok, decrypt_private_key_share-eval,
}
use nucypher_ferveo.Ferveo.Threshold.EndToEnd.{combined_secret}

module _ (E : Engine) (M : Msm E) (P : Primitives E) (D : Polynomials E) where
  open E use {Fr, G1, G2, Fqk, gen1, gen2, pairing}

  instance abbrev fr : Field Fr
  fr = E.field

  instance abbrev g1 : Group G1
  g1 = E.group1

  instance abbrev g2 : Group G2
  g2 = E.group2

  instance abbrev s1 : Space Fr G1
  s1 = E.space1

  instance abbrev s2 : Space Fr G2
  s2 = E.space2

  module _ (dkg : PubliclyVerifiableDkg E) (phi : List Fr) (pvss : AggregatedPvss E)
      (c : Ciphertext E) (aad : List ℕ) (hold : pvss.shares ≡ shares_for E M dkg (eval phi))
      (valid : check_ciphertext_validity E P c aad (g_inv E dkg.pvss_params) ≡ ok tt)
      (generator : dkg.pvss_params.h ≡ gen2) where
    -- A refreshed share is that of the sum of the polynomials.
    refresh_decryption_share-IsCreated :
        (polynomial : List Fr)
        → IsCreated E dkg
            (add_coeffs phi polynomial)
            c.commitment
            (λ i k. refresh_decryption_share E P D pvss c aad k.decryption_key i polynomial dkg)
    unfolding refresh_decryption_share
    refresh_decryption_share-IsCreated polynomial i v k hv index key nonzero =
        let point : Fr = dkg.domain.element i in
        let old : PrivateKeyShare E = record { private_key_share = eval phi point • gen2 } in
        let new : PrivateKeyShare E =
          refresh_private_key_share E D dkg.pvss_params.h point polynomial old in
        (
          record {
            decrypter_index = i;
            decryption_share = pairing c.commitment new.private_key_share;
            validator_checksum = inv k.decryption_key • c.commitment;
          },
          rw
              (
                decrypt_private_key_share-eval E M dkg phi pvss hold i v k hv index key nonzero,
                create-ok E P i k.decryption_key new c aad (g_inv E dkg.pvss_params) valid nonzero,
              )
              refl,
          ap (pairing c.commitment) (
              ap (λ h. (refresh_private_key_share E D h point polynomial old).private_key_share)
                generator
              ∙ refresh_private_key_share-add_coeffs E D phi polynomial point old refl),
        )

    refreshed_secret :
        (r : Fr) (rest : List Fr) (keypairs : List (Keypair E))
        → length phi ≤ dkg.domain.size
        → length (r ∷ rest) ≤ dkg.domain.size
        → length dkg.validators ≡ dkg.domain.size
        → AreKeysOf E 0 dkg.validators keypairs
        → refresh_shared_secret E P D dkg aad c keypairs pvss (r ∷ rest)
          ≡ ok (pairing c.commitment (eval phi fr.zero • gen2))
    unfolding refresh_shared_secret refresh_decryption_shares
    refreshed_secret r rest keypairs le short all keys =
        let (d, drawn, vanishes) = make_random_polynomial_at-root E D r rest fr.zero in
        let psi : List Fr = add_coeffs phi (d ∷ rest) in
        let (shares, e, size, s) =
          collect_shares-ok E dkg psi c.commitment
            (λ i k. refresh_decryption_share E P D pvss c aad k.decryption_key i (d ∷ rest) dkg)
            keypairs (refresh_decryption_share-IsCreated (d ∷ rest)) (omega (arith, all)) keys in
        let (coeffs, prepared, combined) =
          share_combine_simple-prepare_combine_simple E psi dkg.domain.elements c.commitment shares
            dkg.domain.elements-Distinct
            (omega (
              arith,
              dkg.domain.length-elements,
              length-add_coeffs dkg.domain.size phi (d ∷ rest) le (omega (arith, short)),
            ))
            (subst (λ xs. IsShareOf E psi c.commitment xs shares)
              (take_all (length keypairs) dkg.domain.elements (
                omega (
                  arith,
                  dkg.domain.length-elements,
                  all,
                  length-keys E 0 dkg.validators keypairs keys,
                )))
              s) in
        rw (drawn, e, prepared, combined)
          (ap (λ a. ok (pairing c.commitment (a • gen2)))
            (eval-add_coeffs phi (d ∷ rest) fr.zero
              ∙ ap (◌+◌ (eval phi fr.zero)) vanishes
              ∙ add-zero (eval phi fr.zero)))

  -- Refreshing leaves the secret unchanged. Every transcript of the session, at least one, is dealt
  -- with a polynomial of n + 1 coefficients; there are at least n + 1 validators, as many as the
  -- domain has elements; the keypairs are those of the validators, with decryption keys that are not
  -- zero, and the indices of the validators count up from 0; the session's generators are those of
  -- the groups; the ciphertext passes its check; and the polynomial that is drawn has at least one
  -- coefficient and at most n + 1. Then `make_shared_secret_simple_tdec` returns an aggregate and a
  -- secret, and the validators' shares that are refreshed from this aggregate combine to the same
  -- secret.
  pub refresh_shared_secret-make_shared_secret_simple_tdec :
      (n : ℕ) (dkg : PubliclyVerifiableDkg E) (deals : List (Fr × Fr × List Fr))
      (keypairs : List (Keypair E)) (c : Ciphertext E) (aad : List ℕ) (r : Fr) (rest : List Fr)
      → suc n ≤ length dkg.validators
      → length dkg.validators ≡ dkg.domain.size
      → 0 < length dkg.vss
      → AreDealt E M n dkg deals dkg.vss
      → AreKeysOf E 0 dkg.validators keypairs
      → dkg.pvss_params.g ≡ gen1
      → dkg.pvss_params.h ≡ gen2
      → length rest ≤ n
      → check_ciphertext_validity E P c aad (g_inv E dkg.pvss_params) ≡ ok tt
      → (pvss : AggregatedPvss E) × (shares : List (DecryptionShareSimple E)) × (secret : Fqk)
        × (make_shared_secret_simple_tdec E P dkg aad c keypairs ≡ ok (pvss, shares, secret))
        × (refresh_shared_secret E P D dkg aad c keypairs pvss (r ∷ rest) ≡ ok secret)
  unfolding Pvss.aggregate
  refresh_shared_secret-make_shared_secret_simple_tdec n dkg deals keypairs c aad r rest few all
        some_vss dealt keys generator1 generator2 short valid =
      let phi : List Fr = joint E M deals in
      let le : length phi ≤ suc n = length-joint E M n dkg deals dkg.vss dealt in
      let (pvss, aggregated, hold) =
        aggregate_transcripts-joint E M n dkg fits (omega (arith, few, all)) generator1 deals
          dkg.vss some_vss dealt in
      let (shares, made) =
        combined_secret E M P phi dkg keypairs pvss c aad (omega (arith, le, few))
          (omega (arith, all)) keys aggregated hold valid in
      (
        pvss,
        shares,
        pairing c.commitment (eval phi fr.zero • gen2),
        made,
        refreshed_secret dkg phi pvss c aad hold valid generator2 r rest keypairs
            (omega (arith, le, few, all)) (omega (arith, short, few, all)) all keys,
      )
    where
      fits : FitDomain E dkg
      fits = keys_fit E 0 dkg.domain.size dkg.validators keypairs keys (omega (arith, all))
