-- ===== src/TpkeWasm/Ciphertext.antt =====
-- The keys, encryption and decryption with the private key of tpke-wasm/src/lib.rs.
use nucypher_ferveo.Base.{ℕ, ◌≡◌, refl, Option, some, List}
use nucypher_ferveo.Base.Panics.{◌>>=◌, unwrap_ok}
use nucypher_ferveo.Algebra.Space.{Group, minus}
use nucypher_ferveo.Algebra.Engine.{Engine}
use nucypher_ferveo.Tpke.Interface.{Primitives}
use nucypher_ferveo.Tpke.Ciphertext as Tpke

-- `deserialize_uncompressed` reads what `serialize_uncompressed` writes.
pub record Uncompressed (A : Type 0) : Type 0 where
  pub serialize_uncompressed : A → List ℕ
  pub deserialize_uncompressed : List ℕ → Option A
  pub deserialize-serialize_uncompressed :
      (a : A) → deserialize_uncompressed (serialize_uncompressed a) ≡ some a

pub record PublicKey (E : Engine) : Type 0 where
  pub point : E.G1

pub record PrivateKey (E : Engine) : Type 0 where
  pub point : E.G2

pub record Ciphertext (E : Engine) : Type 0 where
  pub ciphertext : Tpke.Ciphertext E
  pub aad : List ℕ
  pub g_inv : E.G1

module _ (E : Engine) where
  unfoldable pub public_key_to_bytes : Uncompressed E.G1 → PublicKey E → List ℕ
  public_key_to_bytes U key = U.serialize_uncompressed key.point

  unfoldable pub public_key_from_bytes : Uncompressed E.G1 → List ℕ → Option (PublicKey E)
  public_key_from_bytes U bytes = do
    pk ← U.deserialize_uncompressed bytes
    some (record { point = pk })

  unfoldable pub private_key_to_bytes : Uncompressed E.G2 → PrivateKey E → List ℕ
  private_key_to_bytes U key = U.serialize_uncompressed key.point

  unfoldable pub private_key_from_bytes : Uncompressed E.G2 → List ℕ → Option (PrivateKey E)
  private_key_from_bytes U bytes = do
    pk ← U.deserialize_uncompressed bytes
    some (record { point = pk })

  -- The keys are read back from their bytes.
  pub from_bytes-to_bytes :
      (U1 : Uncompressed E.G1) (U2 : Uncompressed E.G2) (public : PublicKey E) (key : PrivateKey E)
      → (public_key_from_bytes U1 (public_key_to_bytes U1 public) ≡ some public)
        × (private_key_from_bytes U2 (private_key_to_bytes U2 key) ≡ some key)
  unfolding public_key_from_bytes public_key_to_bytes private_key_from_bytes private_key_to_bytes
  from_bytes-to_bytes U1 U2 public key = (
    rw (U1.deserialize-serialize_uncompressed public.point) refl,
    rw (U2.deserialize-serialize_uncompressed key.point) refl,
  )

module _ (E : Engine) (P : Primitives E) where
  open E use {Fr, G1, gen1}

  instance abbrev g1 : Group G1
  g1 = E.group1

  -- `rand_element` is the scalar that is drawn.
  unfoldable pub encrypt : List ℕ → List ℕ → PublicKey E → Fr → Option (Ciphertext E)
  encrypt message aad public_key rand_element = do
    let g_inv : G1 = minus gen1
    ciphertext ← unwrap_ok (Tpke.encrypt E P message aad public_key.point rand_element)
    some (record { ciphertext = ciphertext; aad = aad; g_inv = g_inv })

  unfoldable pub decrypt : Ciphertext E → PrivateKey E → Option (List ℕ)
  decrypt ciphertext private_key = unwrap_ok (
      Tpke.checked_decrypt E P ciphertext.ciphertext ciphertext.aad ciphertext.g_inv
        private_key.point)
