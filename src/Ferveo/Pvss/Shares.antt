-- ===== src/Ferveo/Pvss/Shares.antt =====
-- The methods of aggregated transcripts in ferveo/src/vss/pvss.rs that derive a validator's shares.
use nucypher_ferveo.Base.{ℕ, List}
use nucypher_ferveo.Base.Lists.{get_elem?}
use nucypher_ferveo.Base.Outcome.{Outcome, ok, err, panic, ◌>>=◌, unwrap}
use nucypher_ferveo.Algebra.Field.{Field}
use nucypher_ferveo.Algebra.Space.{Group, Space, ◌•◌}
use nucypher_ferveo.Algebra.Engine.{Engine}
use nucypher_ferveo.Algebra.Domain.{Polynomials}
use nucypher_ferveo.Tpke.Interface.{Primitives}
use nucypher_ferveo.Tpke.KeyShare.{PrivateKeyShare}
use nucypher_ferveo.Tpke.Ciphertext.{Ciphertext}
use nucypher_ferveo.Tpke.Decryption.{DecryptionShareSimple, create}
use nucypher_ferveo.Tpke.Refresh.{refresh_private_key_share, update_share_for_recovery}
use nucypher_ferveo.Ferveo.Session.{AggregatedPvss, PubliclyVerifiableDkg}
use nucypher_ferveo.Ferveo.Pvss.{DkgResult, g_inv}

-- An error that the source unwraps is a panic.
abbrev pub unwrap_result {κ μ} : {X : Type κ} {Y : Type μ} {A : Type 0} → Outcome X A → Outcome Y A
unwrap_result (ok a) = ok a
unwrap_result (err x) = panic
unwrap_result panic = panic

module _ (E : Engine) where
  open E use {Fr, G1, G2}

  instance abbrev fr : Field Fr
  fr = E.field

  instance abbrev g1 : Group G1
  g1 = E.group1

  instance abbrev g2 : Group G2
  g2 = E.group2

  instance abbrev s1 : Space Fr G1
  s1 = E.space1

  instance abbrev s2 : Space Fr G2
  s2 = E.space2

  unfoldable pub decrypt_private_key_share :
      AggregatedPvss E → Fr → ℕ → DkgResult (PrivateKeyShare E)
  decrypt_private_key_share pvss validator_decryption_key validator_index = do
    share ← unwrap (get_elem? pvss.shares validator_index)
    key_inv ← unwrap (fr.inverse validator_decryption_key)
    ok (record { private_key_share = key_inv • share })

  unfoldable pub update_private_key_share_for_recovery :
      AggregatedPvss E → Fr → ℕ → List G2 → DkgResult (PrivateKeyShare E)
  update_private_key_share_for_recovery pvss validator_decryption_key validator_index
        share_updates =
      do
        private_key_share ← decrypt_private_key_share pvss validator_decryption_key validator_index
        ok (update_share_for_recovery E private_key_share share_updates)

  module _ (P : Primitives E) where
    unfoldable pub make_decryption_share_simple :
        AggregatedPvss E → Ciphertext E → List ℕ → Fr → ℕ → G1 → DkgResult (DecryptionShareSimple E)
    make_decryption_share_simple pvss ciphertext aad validator_decryption_key validator_index
          inverse =
        do
          private_key_share ←
              decrypt_private_key_share pvss validator_decryption_key validator_index
          unwrap_result (
              create E P validator_index validator_decryption_key private_key_share ciphertext aad
                inverse)

    unfoldable pub refresh_decryption_share :
        Polynomials E
        → AggregatedPvss E
        → Ciphertext E
        → List ℕ
        → Fr
        → ℕ
        → List Fr
        → PubliclyVerifiableDkg E
        → DkgResult (DecryptionShareSimple E)
    refresh_decryption_share D pvss ciphertext aad validator_decryption_key validator_index
          polynomial dkg =
        do
          share ← decrypt_private_key_share pvss validator_decryption_key validator_index
          let h : G2 = dkg.pvss_params.h
          let inverse : G1 = g_inv E dkg.pvss_params
          let domain_point : Fr = dkg.domain.element validator_index
          let refreshed : PrivateKeyShare E =
              refresh_private_key_share E D h domain_point polynomial share
          unwrap_result
              (create E P validator_index validator_decryption_key refreshed ciphertext aad inverse)
