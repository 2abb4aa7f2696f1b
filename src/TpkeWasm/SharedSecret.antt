-- ===== src/TpkeWasm/SharedSecret.antt =====
-- `SharedSecretBuilder` of tpke-wasm/src/lib.rs: collects decryption shares and combines them.
use nucypher_ferveo.Base.{ℕ, Option, some, List, [], ◌∷◌, ◌++◌}
use nucypher_ferveo.Base.Tests.{◌==◌}
use nucypher_ferveo.Base.Lists.{length}
use nucypher_ferveo.Base.Panics.{◌>>=◌, ◌>>◌, assert, unwrap_ok}
use nucypher_ferveo.Algebra.Field.{Field}
use nucypher_ferveo.Algebra.Engine.{Engine}
use nucypher_ferveo.Algebra.DensePolynomials.{DensePolynomials}
use nucypher_ferveo.Tpke.Interface.{Primitives}
use nucypher_ferveo.Tpke.Ciphertext.{checked_decrypt_with_shared_secret}
use nucypher_ferveo.Tpke.Context.{PublicDecryptionContextFast}
use nucypher_ferveo.Tpke.Decryption.{DecryptionShareFast}
use nucypher_ferveo.Tpke.Combine.{checked_share_combine_fast}
use nucypher_ferveo.Tpke.Combine.Fast.{BatchInversion, prepare_combine_fast}
use nucypher_ferveo.Tpke.Api.Payload.{DecryptionShare}
use nucypher_ferveo.TpkeWasm.Ciphertext.{Ciphertext}
use nucypher_ferveo.TpkeWasm.Setup.{Setup}

pub record SharedSecret (E : Engine) : Type 0 where
  pub value : E.Fqk

pub record SharedSecretBuilder (E : Engine) : Type 0 where
  pub shares : List (DecryptionShareFast E)
  pub contexts : List (PublicDecryptionContextFast E)

module _ (E : Engine) where
  open E use {Fr}

  instance abbrev fr : Field Fr
  fr = E.field

  unfoldable pub new : Setup E → SharedSecretBuilder E
  new setup = record { shares = []; contexts = setup.public_contexts }

  unfoldable pub add_decryption_share :
      SharedSecretBuilder E → DecryptionShare E → SharedSecretBuilder E
  add_decryption_share builder share = record builder {
    shares = builder.shares ++ (share.share ∷ []);
  }

  unfoldable pub build :
      DensePolynomials Fr
      → BatchInversion Fr
      → SharedSecretBuilder E
      → Ciphertext E
      → Option (SharedSecret E)
  build D I builder ciphertext = do
    assert (length builder.shares == length builder.contexts)
    prepared_blinded_key_shares ←
        unwrap_ok (prepare_combine_fast E D I builder.contexts builder.shares)
    shared_secret ← unwrap_ok (
        checked_share_combine_fast E builder.contexts ciphertext.ciphertext builder.shares
          prepared_blinded_key_shares)
    some (record { value = shared_secret })

unfoldable pub decrypt_with_shared_secret :
    (E : Engine) (P : Primitives E) → Ciphertext E → SharedSecret E → Option (List ℕ)
decrypt_with_shared_secret E P ciphertext shared_secret = unwrap_ok (
    checked_decrypt_with_shared_secret E P ciphertext.ciphertext ciphertext.aad ciphertext.g_inv
      shared_secret.value)
