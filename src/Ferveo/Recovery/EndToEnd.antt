-- ===== src/Ferveo/Recovery/EndToEnd.antt =====
-- The recovery of a share from end to end: the recovered share is that of the point, and the secret is
-- unchanged (ferveo/src/lib.rs, tpke/src/refresh.rs).
use nucypher_ferveo.Base.{ℕ, suc, ◌<◌, ◌≤◌, ◌≡◌, ◌≢◌, List, ◌∷◌, arith}
use nucypher_ferveo.Base.Lists.{length}
use nucypher_ferveo.Base.Outcome.{ok}
use nucypher_ferveo.Algebra.Field.{Field}
use nucypher_ferveo.Algebra.Space.{Group, Space, ◌•◌}
use nucypher_ferveo.Algebra.Engine.{Engine}
use nucypher_ferveo.Algebra.Domain.{Polynomials}
use nucypher_ferveo.Algebra.Poly.{eval}
use nucypher_ferveo.Tpke.Interface.{Primitives}
use nucypher_ferveo.Tpke.Ciphertext.{Ciphertext, check_ciphertext_validity}
use nucypher_ferveo.Tpke.Decryption.{DecryptionShareSimple}
use nucypher_ferveo.Ferveo.Common.{Keypair}
use nucypher_ferveo.Ferveo.Session.{AggregatedPvss, PubliclyVerifiableDkg}
use nucypher_ferveo.Ferveo.Pvss
use nucypher_ferveo.Ferveo.Pvss.{DkgResult, g_inv}
use nucypher_ferveo.Ferveo.Pvss.Dealing.{Msm}
use nucypher_ferveo.Ferveo.Dkg.Sums.{FitDomain}
use nucypher_ferveo.Ferveo.Threshold.{make_shared_secret_simple_tdec}
use nucypher_ferveo.Ferveo.Threshold.Joint.{
  AreDealt, joint, length-joint, aggregate_transcripts-joint,
}
use nucypher_ferveo.Ferveo.Threshold.Keys.{AreKeysOf, keys_fit}
use nucypher_ferveo.Ferveo.Threshold.EndToEnd.{combined_secret}
use nucypher_ferveo.Ferveo.Recovery.Remaining.{recover_shared_secret-eval}
use nucypher_ferveo.Ferveo.Recovery.{recover_shared_secret}

module _ (E : Engine) (M : Msm E) (P : Primitives E) (D : Polynomials E) where
  open E use {Fr, G2, Fqk, gen1, gen2}

  instance abbrev scalars : Field Fr
  scalars = E.field

  instance abbrev second_group : Group G2
  second_group = E.group2

  instance abbrev second_space : Space Fr G2
  second_space = E.space2

  -- The recovery of a share. The session has m + 1 validators, as many as the domain has elements, and
  -- m is at least n + 1; every transcript, at least one, is dealt with a polynomial of n + 1
  -- coefficients; the keypairs are those of the validators, with decryption keys that are not zero, and
  -- the indices of the validators count up from 0; the polynomials that are drawn have at least one
  -- coefficient and at most m; the session's generators are those of the groups; the ciphertext passes
  -- its check, and the new decryption key is not zero. Then after the removal of the last validator the
  -- others recover, at any point x_r, the key share J(x_r)·H of the sum J of the dealt polynomials, and
  -- the secret is that of `make_shared_secret_simple_tdec` before.
  pub recover_shared_secret-make_shared_secret_simple_tdec :
      (n m : ℕ) (dkg : PubliclyVerifiableDkg E) (deals : List (Fr × Fr × List Fr))
      (keypairs : List (Keypair E)) (c : Ciphertext E) (aad : List ℕ) (x_r : Fr)
      (draw : ℕ → Fr × List Fr) (new_key : Fr)
      → length dkg.validators ≡ suc m
      → dkg.domain.size ≡ suc m
      → suc n ≤ m
      → 0 < length dkg.vss
      → AreDealt E M n dkg deals dkg.vss
      → AreKeysOf E 0 dkg.validators keypairs
      → dkg.pvss_params.g ≡ gen1
      → dkg.pvss_params.h ≡ gen2
      → ((j : ℕ) → length (draw j).1 < m)
      → check_ciphertext_validity E P c aad (g_inv E dkg.pvss_params) ≡ ok tt
      → new_key ≢ E.field.zero
      → (pvss : AggregatedPvss E) × (shares : List (DecryptionShareSimple E)) × (secret : Fqk)
        × (make_shared_secret_simple_tdec E P dkg aad c keypairs ≡ ok (pvss, shares, secret))
        × (recover_shared_secret E D P dkg aad c keypairs x_r (λ j. (draw j).0 ∷ (draw j).1) new_key
            ≡ ok (record { private_key_share = eval (joint E M deals) x_r • gen2 }, secret))
  unfolding Pvss.aggregate
  recover_shared_secret-make_shared_secret_simple_tdec n m dkg deals keypairs c aad x_r draw new_key
        validators_lem domain_lem few some_vss dealt keys generator1 generator2 short valid
        nonzero =
      let le = length-joint E M n dkg deals dkg.vss dealt in
      let fits : FitDomain E dkg =
        keys_fit E 0 dkg.domain.size dkg.validators keypairs keys
          (omega (arith, validators_lem, domain_lem)) in
      let (pvss, aggregated, hold) =
        aggregate_transcripts-joint E M n dkg fits (omega (arith, few, domain_lem)) generator1 deals
          dkg.vss some_vss dealt in
      let (shares, made) =
        combined_secret E M P (joint E M deals) dkg keypairs pvss c aad
          (omega (arith, le, few, validators_lem)) (omega (arith, validators_lem, domain_lem)) keys
          aggregated hold valid in
      (
        pvss,
        shares,
        _,
        made,
        recover_shared_secret-eval E M P D dkg m validators_lem domain_lem keypairs keys
            (joint E M deals) pvss hold (omega (arith, le, few)) c aad x_r draw new_key short
            generator2 nonzero aggregated valid,
      )
