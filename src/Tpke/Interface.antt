-- ===== src/Tpke/Interface.antt =====
-- What tpke/src takes from other crates besides the pairing engine: byte forms of points, SHA-256,
-- the hash to the second group and the authenticated cipher; and its errors (tpke/src/lib.rs).
use Prim.Native.Nat.{◌^◌}
use nucypher_ferveo.Base.{ℕ, ◌<◌, ◌≤◌, ◌≡◌, Option, some, List}
use nucypher_ferveo.Base.Lists.{length}
use nucypher_ferveo.Algebra.Engine.{Engine}

-- `ThresholdEncryptionError`
pub data ThresholdEncryptionError : Type 0 where
  ciphertext_verification_failed : ThresholdEncryptionError
  decryption_share_verification_failed : ThresholdEncryptionError
  hash_to_curve_error : ThresholdEncryptionError
  plaintext_verification_failed : ThresholdEncryptionError

-- The functions of other crates. A byte is a number.
pub record Primitives (E : Engine) : Type 0 where
  -- `ToBytes::write` and `FromBytes::read` of points: 97 bytes in the first group, 193 in the second.
  pub write_g1 : E.G1 → List ℕ
  pub read_g1 : List ℕ → Option E.G1
  pub read-write_g1 : (a : E.G1) → read_g1 (write_g1 a) ≡ some a
  pub length-write_g1 : (a : E.G1) → length (write_g1 a) ≡ 97
  pub write_g2 : E.G2 → List ℕ
  pub read_g2 : List ℕ → Option E.G2
  pub read-write_g2 : (a : E.G2) → read_g2 (write_g2 a) ≡ some a
  pub length-write_g2 : (a : E.G2) → length (write_g2 a) ≡ 193
  pub write_fqk : E.Fqk → List ℕ
  -- `CanonicalSerialize::serialize`, its inverse and `serialize_unchecked`.
  pub serialize_g1 : E.G1 → List ℕ
  pub deserialize_g1 : List ℕ → Option E.G1
  pub deserialize-serialize_g1 : (a : E.G1) → deserialize_g1 (serialize_g1 a) ≡ some a
  pub serialize_unchecked_g1 : E.G1 → List ℕ
  -- `bincode::serialize` and `bincode::deserialize` of a `usize`, in 8 bytes.
  pub serialize_usize : ℕ → List ℕ
  pub deserialize_usize : List ℕ → Option ℕ
  pub deserialize-serialize_usize :
      (n : ℕ) → n < 2 ^ 64 → deserialize_usize (serialize_usize n) ≡ some n
  pub length-serialize_usize : (n : ℕ) → length (serialize_usize n) ≡ 8
  pub sha256 : List ℕ → List ℕ
  pub hash_to_g2 : List ℕ → E.G2
  -- `encrypt` and `decrypt` of `ChaCha20Poly1305` with a key and a nonce: a message of at most
  -- `max_len` bytes is sealed, and opening gives it back.
  pub seal_message : List ℕ → List ℕ → List ℕ → Option (List ℕ)
  pub open_message : List ℕ → List ℕ → List ℕ → Option (List ℕ)
  pub max_len : ℕ
  pub seal_total :
      (key nonce message : List ℕ)
      → length message ≤ max_len
      → (sealed : List ℕ) × (seal_message key nonce message ≡ some sealed)
  pub open-seal :
      (key nonce message sealed : List ℕ)
      → seal_message key nonce message ≡ some sealed
      → open_message key nonce sealed ≡ some message
