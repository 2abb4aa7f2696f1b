-- ===== src/Ferveo/Threshold/EndToEnd.antt =====
-- Threshold decryption with the key of a session from end to end: dealing, encryption to the final
-- key, aggregation, the shares of the validators, their combination and decryption
-- (ferveo/src/lib.rs, ferveo/src/dkg/pv.rs, ferveo/src/vss/pvss.rs, tpke/src).
use nucypher_ferveo.Base.{ℕ, suc, ◌<◌, ◌≤◌, ◌≡◌, refl, ap, ◌∙◌, List, arith}
use nucypher_ferveo.Base.Tests.{eq→==}
use nucypher_ferveo.Base.Lists.{length, length-take, take}
use nucypher_ferveo.Base.Predicates.{Distinct-take}
use nucypher_ferveo.Base.Outcome.{ok, >>=-eq-ok}
use nucypher_ferveo.Algebra.Field.{Field}
use nucypher_ferveo.Algebra.Space.{Group, Space, ◌•◌, minus}
use nucypher_ferveo.Algebra.Engine.{Engine}
use nucypher_ferveo.Algebra.Poly.{eval}
use nucypher_ferveo.Tpke.Interface.{Primitives}
use nucypher_ferveo.Tpke.Ciphertext.{
  Ciphertext, encrypt, check_ciphertext_validity, checked_decrypt_with_shared_secret,
}
use nucypher_ferveo.Tpke.Ciphertext.Decrypt.{decrypt-encrypt}
use nucypher_ferveo.Tpke.Decryption.{DecryptionShareSimple}
use nucypher_ferveo.Tpke.Combine.Simple.{share_combine_simple-prepare_combine_simple}
use nucypher_ferveo.Ferveo.Common.{Keypair}
use nucypher_ferveo.Ferveo.Session.{AggregatedPvss, PubliclyVerifiableDkg}
use nucypher_ferveo.Ferveo.Pvss
use nucypher_ferveo.Ferveo.Pvss.{g_inv}
use nucypher_ferveo.Ferveo.Pvss.Dealing.{Msm}
use nucypher_ferveo.Ferveo.Pvss.Shares.{make_decryption_share_simple}
use nucypher_ferveo.Ferveo.Dkg.{final_key}
use nucypher_ferveo.Ferveo.Dkg.Sums.{FitDomain}
use nucypher_ferveo.Ferveo.Threshold.{make_shared_secret_simple_tdec, make_decryption_shares}
use nucypher_ferveo.Ferveo.Threshold.Joint.{
  AreDealt, joint, length-joint, sum_keys-joint, aggregate_transcripts-joint, shares_for,
}
use nucypher_ferveo.Ferveo.Threshold.Keys.{AreKeysOf, length-keys, keys_fit, check_keypairs-ok}
use nucypher_ferveo.Ferveo.Threshold.Shares.{
  collect_shares-ok, make_decryption_share_simple-IsCreated,
}

module _ (E : Engine) (M : Msm E) (P : Primitives E) where
  open E use {Fr, G1, G2, Fqk, gen1, gen2, pairing}

  instance abbrev fr : Field Fr
  fr = E.field

  instance abbrev g1 : Group G1
  g1 = E.group1

  instance abbrev g2 : Group G2
  g2 = E.group2

  instance abbrev s1 : Space Fr G1
  s1 = E.space1

  instance abbrev s2 : Space Fr G2
  s2 = E.space2

  -- The combination of the shares of all validators, where the aggregate holds the shares of one
  -- polynomial with at most as many coefficients as there are validators.
  pub combined_secret :
      (phi : List Fr) (dkg : PubliclyVerifiableDkg E) (keypairs : List (Keypair E))
      (pvss : AggregatedPvss E) (c : Ciphertext E) (aad : List ℕ)
      → length phi ≤ length dkg.validators
      → length dkg.validators ≤ dkg.domain.size
      → AreKeysOf E 0 dkg.validators keypairs
      → Pvss.aggregate E dkg ≡ ok pvss
      → pvss.shares ≡ shares_for E M dkg (eval phi)
      → check_ciphertext_validity E P c aad (g_inv E dkg.pvss_params) ≡ ok tt
      → (shares : List (DecryptionShareSimple E)) × (make_shared_secret_simple_tdec E P dkg aad c
            keypairs
          ≡ ok (pvss, shares, pairing c.commitment (eval phi fr.zero • gen2)))
  unfolding make_shared_secret_simple_tdec make_decryption_shares
  combined_secret phi dkg keypairs pvss c aad few fit keys aggregated hold valid =
      let size = length-keys E 0 dkg.validators keypairs keys in
      let (shares, e, same, s) =
        collect_shares-ok E dkg phi c.commitment
          (λ i k.
            make_decryption_share_simple E P pvss c aad k.decryption_key i
              (g_inv E dkg.pvss_params))
          keypairs
          (make_decryption_share_simple-IsCreated E M dkg phi pvss hold P c aad
            (g_inv E dkg.pvss_params) valid)
          fit keys in
      let taken =
        length-take (length keypairs) dkg.domain.elements
          (omega (arith, size, fit, dkg.domain.length-elements)) in
      let (coeffs, prepared, combined) =
        share_combine_simple-prepare_combine_simple E phi
          (take (length keypairs) dkg.domain.elements) c.commitment shares
          (Distinct-take (length keypairs) dkg.domain.elements dkg.domain.elements-Distinct)
          (omega (arith, taken, size, few)) s in
      (
        shares,
        rw
            (
              check_keypairs-ok E 0 dkg.validators keypairs keys,
              aggregated,
              e,
              same,
              eq→== _ _ taken,
              prepared,
              combined,
            )
            refl,
      )

  -- Threshold decryption with the key of a session: every transcript it holds, at least one, is
  -- dealt with a polynomial of n + 1 coefficients; there are at least n + 1 validators and at most as
  -- many as the domain has elements; the keypairs are those of the validators, with decryption keys
  -- that are not zero, and the indices of the validators count up from 0; the session's first
  -- generator is that of the group. Then the final key is computed, a message of at most max_len
  -- bytes is encrypted to it, `make_shared_secret_simple_tdec` ends without a panic, and with the
  -- secret that it returns the ciphertext passes its check and the message is decrypted.
  pub make_shared_secret_simple_tdec-encrypt :
      (n : ℕ) (dkg : PubliclyVerifiableDkg E) (deals : List (Fr × Fr × List Fr))
      (keypairs : List (Keypair E)) (message aad : List ℕ) (r : Fr)
      → suc n ≤ length dkg.validators
      → length dkg.validators ≤ dkg.domain.size
      → 0 < length dkg.vss
      → AreDealt E M n dkg deals dkg.vss
      → AreKeysOf E 0 dkg.validators keypairs
      → dkg.pvss_params.g ≡ gen1
      → length message ≤ P.max_len
      → (key : G1) × (c : Ciphertext E) × (pvss : AggregatedPvss E) × (shares : List
          (DecryptionShareSimple E))
        × (secret : Fqk) × (final_key E dkg ≡ ok key)
        × (encrypt E P message aad key r ≡ ok c)
        × (make_shared_secret_simple_tdec E P dkg aad c keypairs ≡ ok (pvss, shares, secret))
        × (checked_decrypt_with_shared_secret E P c aad (g_inv E dkg.pvss_params) secret
            ≡ ok message)
  unfolding final_key Pvss.aggregate g_inv checked_decrypt_with_shared_secret
  make_shared_secret_simple_tdec-encrypt n dkg deals keypairs message aad r few fit some_vss dealt
        keys generator small =
      let phi : List Fr = joint E M deals in
      let (c, encrypted, _, decrypted) =
        decrypt-encrypt E P message aad (eval phi fr.zero) r small in
      let le : suc n ≤ dkg.domain.size = omega arith in
      let (pvss, aggregated, hold) =
        aggregate_transcripts-joint E M n dkg fits le generator deals dkg.vss some_vss dealt in
      let opens =
        ap
          (λ p.
            checked_decrypt_with_shared_secret E P c aad (minus p)
              (pairing c.commitment (eval phi fr.zero • gen2)))
          generator
        ∙ decrypted in
      let (shares, made) =
        combined_secret phi dkg keypairs pvss c aad
          (omega (arith, length-joint E M n dkg deals dkg.vss dealt, few)) fit keys aggregated hold
          (>>=-eq-ok (check_ciphertext_validity E P c aad (minus dkg.pvss_params.g)) _ opens).1 in
      (
        eval phi fr.zero • gen1,
        c,
        pvss,
        shares,
        pairing c.commitment (eval phi fr.zero • gen2),
        sum_keys-joint E M n dkg fits le generator deals dkg.vss dealt,
        encrypted,
        made,
        opens,
      )
    where
      fits : FitDomain E dkg
      fits = keys_fit E 0 dkg.domain.size dkg.validators keypairs keys (omega (arith, fit))
