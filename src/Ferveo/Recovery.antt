-- ===== src/Ferveo/Recovery.antt =====
-- The recovery of the share of a removed validator at another point, as ferveo/src/lib.rs composes it.
pub mod Updates
pub mod Remaining
pub mod EndToEnd
use nucypher_ferveo.Base.{ℕ, suc, Option, none, some, List, [], ◌∷◌, ◌++◌}
use nucypher_ferveo.Base.Lists.{get_elem?, pop}
use nucypher_ferveo.Base.Outcome.{ok, panic, ◌>>=◌, ◌>>◌, unwrap}
use nucypher_ferveo.Algebra.Field.{Field}
use nucypher_ferveo.Algebra.Space.{Group, Space}
use nucypher_ferveo.Algebra.Engine.{Engine}
use nucypher_ferveo.Algebra.Domain.{Polynomials}
use nucypher_ferveo.Tpke.Interface.{Primitives}
use nucypher_ferveo.Tpke.KeyShare.{PrivateKeyShare}
use nucypher_ferveo.Tpke.Ciphertext.{Ciphertext}
use nucypher_ferveo.Tpke.Decryption.{DecryptionShareSimple, create}
use nucypher_ferveo.Tpke.Combine.{prepare_combine_simple, share_combine_simple}
use nucypher_ferveo.Tpke.Refresh.{
  prepare_share_updates_for_recovery, recover_share_from_updated_private_shares,
}
use nucypher_ferveo.Ferveo.Common.{Validator, Keypair}
use nucypher_ferveo.Ferveo.Session.{AggregatedPvss, PubliclyVerifiableDkg}
use nucypher_ferveo.Ferveo.Pvss
use nucypher_ferveo.Ferveo.Pvss.{DkgResult, g_inv}
use nucypher_ferveo.Ferveo.Pvss.Shares.{update_private_key_share_for_recovery, unwrap_result}
use nucypher_ferveo.Ferveo.Threshold.{make_decryption_shares}

module _ (E : Engine) where
  open E use {Fr, G1, G2, Fqk}

  instance abbrev fr : Field Fr
  fr = E.field

  instance abbrev g2 : Group G2
  g2 = E.group2

  -- The updates for one participant: that with its index from each list.
  unfoldable pub updates_for : ℕ → List (List G2) → DkgResult (List G2)
  updates_for validator_index [] = ok []
  updates_for validator_index (updates ∷ share_updates) = do
    update ← unwrap (get_elem? updates validator_index)
    rest ← updates_for validator_index share_updates
    ok (update ∷ rest)

  -- Every participant updates its share, from the index that `enumerate` has reached.
  unfoldable pub update_shares :
      AggregatedPvss E
      → List (List G2)
      → ℕ
      → List (Keypair E)
      → DkgResult (List (PrivateKeyShare E))
  update_shares pvss share_updates index [] = ok []
  update_shares pvss share_updates index (k ∷ keypairs) = do
    updates_for_participant ← updates_for index share_updates
    share ←
        update_private_key_share_for_recovery E pvss k.decryption_key index updates_for_participant
    shares ← update_shares pvss share_updates (suc index) keypairs
    ok (share ∷ shares)

  module _ (D : Polynomials E) where
    -- The values of the map of updates, in the order of the validators; `draw i` is the polynomial that
    -- the validator at position i draws.
    unfoldable pub share_updates_of :
        List Fr → G2 → Fr → (ℕ → List Fr) → ℕ → List (Validator E) → DkgResult (List (List G2))
    share_updates_of domain_points h x_r draw index [] = ok []
    share_updates_of domain_points h x_r draw index (v ∷ validators) = do
      deltas_i ← unwrap (prepare_share_updates_for_recovery E D domain_points h x_r (draw index))
      rest ← share_updates_of domain_points h x_r draw (suc index) validators
      ok (deltas_i ∷ rest)

    -- The recovered share, and the secret that is combined with it. The last validator is removed,
    -- with its keypair and its point; `new_key` is the decryption key of the one that takes its place.
    unfoldable pub recover_shared_secret :
        Primitives E
        → PubliclyVerifiableDkg E
        → List ℕ
        → Ciphertext E
        → List (Keypair E)
        → Fr
        → (ℕ → List Fr)
        → Fr
        → DkgResult (PrivateKeyShare E × Fqk)
    recover_shared_secret P dkg aad ciphertext validator_keypairs x_r draw new_key = do
      let (validators, last_validator) = pop dkg.validators
      removed_validator ← unwrap last_validator
      let (keypairs, _) = pop validator_keypairs
      let (domain_points, last_point) = pop dkg.domain.elements
      _ ← unwrap last_point
      share_updates ← share_updates_of domain_points dkg.pvss_params.h x_r draw 0 validators
      pvss_aggregated ← Pvss.aggregate E dkg
      updated_shares ← update_shares pvss_aggregated share_updates 0 keypairs
      new_private_key_share ←
          unwrap (recover_share_from_updated_private_shares E x_r domain_points updated_shares)
      decryption_shares ←
          make_decryption_shares E P pvss_aggregated ciphertext aad (g_inv E dkg.pvss_params)
            keypairs
      new_share ← unwrap_result (
          create E P removed_validator.share_index new_key new_private_key_share ciphertext aad
            (g_inv E dkg.pvss_params))
      lagrange ← unwrap (prepare_combine_simple domain_points)
      ok (
        new_private_key_share,
        share_combine_simple E (decryption_shares ++ new_share ∷ []) lagrange,
      )
