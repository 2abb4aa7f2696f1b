-- ===== src/Tpke/Context.antt =====
-- tpke/src/context.rs: what a participant knows, in the fast and in the simple variant. The functions
-- that create decryption shares from a private context are in Decryption.antt.
use nucypher_ferveo.Base.{ℕ, List}
use nucypher_ferveo.Algebra.Engine.{Engine}
use nucypher_ferveo.Tpke.KeyShare.{PublicKeyShare, BlindedKeyShare, PrivateKeyShare}

pub record PublicDecryptionContextFast (E : Engine) : Type 0 where
  pub domain : E.Fr
  pub public_key_share : PublicKeyShare E
  pub blinded_key_share : BlindedKeyShare E
  pub lagrange_n_0 : E.Fr
  pub h_inv : E.G2

pub record PublicDecryptionContextSimple (E : Engine) : Type 0 where
  pub domain : E.Fr
  pub public_key_share : PublicKeyShare E
  pub blinded_key_share : BlindedKeyShare E
  pub h : E.G2
  pub validator_public_key : E.G2

pub record SetupParams (E : Engine) : Type 0 where
  pub b : E.Fr
  pub b_inv : E.Fr
  pub g : E.G1
  pub g_inv : E.G1
  pub h_inv : E.G2
  pub h : E.G2

pub record PrivateDecryptionContextFast (E : Engine) : Type 0 where
  pub index : ℕ
  pub setup_params : SetupParams E
  pub private_key_share : PrivateKeyShare E
  pub public_decryption_contexts : List (PublicDecryptionContextFast E)

pub record PrivateDecryptionContextSimple (E : Engine) : Type 0 where
  pub index : ℕ
  pub setup_params : SetupParams E
  pub private_key_share : PrivateKeyShare E
  pub public_decryption_contexts : List (PublicDecryptionContextSimple E)
  pub validator_private_key : E.Fr
