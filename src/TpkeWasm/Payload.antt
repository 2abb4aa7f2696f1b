-- ===== src/TpkeWasm/Payload.antt =====
-- The contexts, shares and payloads of tpke-wasm/src/lib.rs, which wrap those of tpke/src/api.rs.
use Prim.Native.Nat.{◌^◌}
use nucypher_ferveo.Base.{ℕ, ◌<◌, ◌≡◌, refl, Option, some, List, [], ◌++◌, arith}
use nucypher_ferveo.Base.Tests.{leb, le→leb}
use nucypher_ferveo.Base.Lists.{length, take, drop, length-append, take-append, drop-append}
use nucypher_ferveo.Base.Panics.{◌>>=◌, ◌>>◌, assert, unwrap_ok}
use nucypher_ferveo.Algebra.Engine.{Engine}
use nucypher_ferveo.Tpke.Interface.{Primitives}
use nucypher_ferveo.Tpke.Ciphertext as Tpke
use nucypher_ferveo.Tpke.Ciphertext.Bytes as Bytes
use nucypher_ferveo.Tpke.Decryption as Decryption
use nucypher_ferveo.Tpke.Api.Limbs.{Representation}
use nucypher_ferveo.Tpke.Api.Context as Context
use nucypher_ferveo.Tpke.Api.Context.{PrivateDecryptionContext}
use nucypher_ferveo.Tpke.Api.Payload as Payload
use nucypher_ferveo.Tpke.Api.Payload.{DecryptionShare, ParticipantPayload}
use nucypher_ferveo.TpkeWasm.Ciphertext.{Ciphertext}

-- `PrivateDecryptionContext::serialized_size`
unfoldable pub serialized_size : ℕ
serialized_size = Context.serialized_size

module _ (E : Engine) (P : Primitives E) (R : Representation E) where
  unfoldable pub context_to_bytes : PrivateDecryptionContext E → List ℕ
  context_to_bytes context = Context.to_bytes E P R context

  unfoldable pub context_from_bytes : List ℕ → Option (PrivateDecryptionContext E)
  context_from_bytes bytes = unwrap_ok (Context.from_bytes E P R bytes)

  unfoldable pub share_to_bytes : DecryptionShare E → List ℕ
  share_to_bytes share = Payload.share_to_bytes E P R share

  unfoldable pub share_from_bytes : List ℕ → Option (DecryptionShare E)
  share_from_bytes bytes = unwrap_ok (Payload.share_from_bytes E P R bytes)

  unfoldable pub new : PrivateDecryptionContext E → Ciphertext E → ParticipantPayload E
  new decryption_context ciphertext = Payload.new E P R decryption_context ciphertext.ciphertext

  unfoldable pub to_bytes : ParticipantPayload E → List ℕ
  to_bytes payload =
      Context.to_bytes E P R payload.decryption_context ++ Tpke.to_bytes E P payload.ciphertext

  -- A slice that ends past the input is a panic.
  unfoldable pub from_bytes : List ℕ → Option (ParticipantPayload E)
  unfolding context_from_bytes serialized_size
  from_bytes bytes = do
    assert (leb serialized_size (length bytes))
    decryption_context ← context_from_bytes (take serialized_size bytes)
    ciphertext ← unwrap_ok (Tpke.from_bytes E P (drop serialized_size bytes))
    some (record { decryption_context = decryption_context; ciphertext = ciphertext })

  unfoldable pub to_decryption_share : ParticipantPayload E → DecryptionShare E
  to_decryption_share payload = Payload.to_decryption_share E P R payload

  -- The bytes of a payload whose index is below 2^64 are read back but for the ciphertext's payload,
  -- which is empty.
  pub from_bytes-to_bytes :
      (payload : ParticipantPayload E)
      → payload.decryption_context.decrypter_index < 2 ^ 64
      → from_bytes (to_bytes payload)
        ≡ some (record {
          decryption_context = payload.decryption_context;
          ciphertext = record payload.ciphertext { ciphertext = [] };
        })
  unfolding from_bytes to_bytes
  from_bytes-to_bytes payload h =
      let (size, read) = Context.from_bytes_lem E P R payload.decryption_context h in
      rw
        (
          le→leb Context.serialized_size (length (to_bytes payload))
              (omega (arith, size, length-append context_bytes ciphertext_bytes)),
          take-append Context.serialized_size context_bytes ciphertext_bytes size,
          drop-append Context.serialized_size context_bytes ciphertext_bytes size,
          read,
          Bytes.from_bytes-to_bytes E P payload.ciphertext,
        )
        refl
    where
      context_bytes : List ℕ
      context_bytes = Context.to_bytes E P R payload.decryption_context

      ciphertext_bytes : List ℕ
      ciphertext_bytes = Tpke.to_bytes E P payload.ciphertext

  -- The bytes of a share whose index is below 2^64 are read back.
  pub share_from_bytes-share_to_bytes :
      (share : DecryptionShare E)
      → share.share.decrypter_index < 2 ^ 64
      → share_from_bytes (share_to_bytes share) ≡ some share
  unfolding share_from_bytes share_to_bytes Payload.share_from_bytes Payload.share_to_bytes
      Decryption.from_bytes Decryption.to_bytes
  share_from_bytes-share_to_bytes share h =
      rw
        (
          le→leb 8 (length (index_bytes ++ point_bytes))
              (omega (arith, size, length-append index_bytes point_bytes)),
          take-append 8 index_bytes point_bytes size,
          drop-append 8 index_bytes point_bytes size,
          P.deserialize-serialize_usize share.share.decrypter_index h,
          P.deserialize-serialize_g1 share.share.decryption_share,
        )
        refl
    where
      index_bytes : List ℕ
      index_bytes = P.serialize_usize share.share.decrypter_index

      point_bytes : List ℕ
      point_bytes = P.serialize_g1 share.share.decryption_share

      size : length index_bytes ≡ 8
      size = P.length-serialize_usize share.share.decrypter_index
