-- ===== src/Tpke/Ciphertext.antt =====
-- tpke/src/ciphertext.rs: encryption to the public key, the validity check of a ciphertext, decryption
-- and the byte form. `construct_tag_hash` is of tpke/src/lib.rs.
pub mod Validity
pub mod Decrypt
pub mod Bytes
use Prim.Native.Nat.{◌+◌}
use nucypher_ferveo.Base.{ℕ, Bool, true, false, Option, none, some, List, [], ◌∷◌, ◌++◌}
use nucypher_ferveo.Base.Tests.{is_yes, leb, if◌then◌else◌}
use nucypher_ferveo.Base.Lists.{length, take, drop}
use nucypher_ferveo.Base.Outcome.{Outcome, ok, err, panic, ◌>>=◌, ◌>>◌, unwrap, assert}
use nucypher_ferveo.Algebra.Field.{Field}
use nucypher_ferveo.Algebra.Space.{Group, Space, ◌•◌}
use nucypher_ferveo.Algebra.Engine.{Engine}
use nucypher_ferveo.Tpke.Interface.{
  ThresholdEncryptionError, ciphertext_verification_failed, Primitives,
}

abbrev pub TpkeResult : Type 0 → Type 0
TpkeResult A = Outcome ThresholdEncryptionError A

pub record Ciphertext (E : Engine) : Type 0 where
  pub commitment : E.G1
  pub auth_tag : E.G2
  pub ciphertext : List ℕ

module _ (E : Engine) (P : Primitives E) where
  open E use {Fr, G1, G2, Fqk, gen1, gen2, product_of_pairings}

  instance abbrev fr : Field Fr
  fr = E.field

  instance abbrev g1 : Group G1
  g1 = E.group1

  instance abbrev g2 : Group G2
  g2 = E.group2

  instance abbrev s1 : Space Fr G1
  s1 = E.space1

  instance abbrev s2 : Space Fr G2
  s2 = E.space2

  unfoldable pub construct_tag_hash : G1 → List ℕ → List ℕ → G2
  construct_tag_hash u stream_ciphertext aad =
      P.hash_to_g2 (P.write_g1 u ++ (stream_ciphertext ++ aad))

  -- `Ciphertext::check`, which hashes no additional data.
  unfoldable pub check : Ciphertext E → G1 → Bool
  check c g_inv =
      let hash_g2 : G2 = P.hash_to_g2 (P.write_g1 c.commitment ++ c.ciphertext) in
      is_yes (
        E.groupt.dec_eq (product_of_pairings ((c.commitment, hash_g2) ∷ (g_inv, c.auth_tag) ∷ []))
          E.groupt.zero)

  -- The key of the cipher, from the shared secret.
  unfoldable pub shared_secret_to_chacha : Fqk → List ℕ
  shared_secret_to_chacha s = P.sha256 (P.write_fqk s)

  unfoldable pub nonce_from_commitment : G1 → List ℕ
  nonce_from_commitment commitment = take 12 (P.sha256 (P.serialize_unchecked_g1 commitment))

  -- `rand_element` is the scalar that `encrypt` draws.
  unfoldable pub encrypt : List ℕ → List ℕ → G1 → Fr → TpkeResult (Ciphertext E)
  encrypt message aad pubkey rand_element = do
    let product : Fqk = product_of_pairings ((rand_element • pubkey, gen2) ∷ [])
    let commitment : G1 = rand_element • gen1
    ciphertext ← unwrap (
        P.seal_message (shared_secret_to_chacha product) (nonce_from_commitment commitment) message)
    ok (record {
      commitment = commitment;
      auth_tag = rand_element • construct_tag_hash commitment ciphertext aad;
      ciphertext = ciphertext;
    })

  unfoldable pub check_ciphertext_validity : Ciphertext E → List ℕ → G1 → TpkeResult (Unit {0})
  check_ciphertext_validity c aad g_inv =
      let hash_g2 : G2 = construct_tag_hash c.commitment c.ciphertext aad in
      let is_ciphertext_valid : Bool = is_yes (
        E.groupt.dec_eq (product_of_pairings ((c.commitment, hash_g2) ∷ (g_inv, c.auth_tag) ∷ []))
          E.groupt.zero) in
      if is_ciphertext_valid then ok tt else err ciphertext_verification_failed

  unfoldable pub decrypt_with_shared_secret : Ciphertext E → Fqk → TpkeResult (List ℕ)
  decrypt_with_shared_secret c s =
      unwrap (
        P.open_message (shared_secret_to_chacha s) (nonce_from_commitment c.commitment)
          c.ciphertext)

  unfoldable pub checked_decrypt : Ciphertext E → List ℕ → G1 → G2 → TpkeResult (List ℕ)
  checked_decrypt c aad g_inv privkey = do
    check_ciphertext_validity c aad g_inv
    decrypt_with_shared_secret c (product_of_pairings ((c.commitment, privkey) ∷ []))

  unfoldable pub checked_decrypt_with_shared_secret :
      Ciphertext E → List ℕ → G1 → Fqk → TpkeResult (List ℕ)
  checked_decrypt_with_shared_secret c aad g_inv shared_secret = do
    check_ciphertext_validity c aad g_inv
    decrypt_with_shared_secret c shared_secret

  unfoldable pub to_bytes : Ciphertext E → List ℕ
  to_bytes c = P.write_g1 c.commitment ++ P.write_g2 c.auth_tag

  -- A slice that ends past the input is a panic.
  unfoldable pub from_bytes : List ℕ → TpkeResult (Ciphertext E)
  from_bytes bytes = do
    assert (leb 97 (length bytes))
    commitment ← unwrap (P.read_g1 (take 97 bytes))
    assert (leb (97 + 193) (length bytes))
    auth_tag ← unwrap (P.read_g2 (take 193 (drop 97 bytes)))
    ok (record { commitment = commitment; auth_tag = auth_tag; ciphertext = drop (97 + 193) bytes })
