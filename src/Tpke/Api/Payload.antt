-- ===== src/Tpke/Api/Payload.antt =====
-- `DecryptionShare` and `ParticipantPayload` of tpke/src/api.rs: what a participant is sent, and the
-- share that it makes of it.
use Prim.Native.Nat.{◌^◌}
use nucypher_ferveo.Base.{ℕ, ◌<◌, ◌≡◌, refl, List, [], ◌++◌, arith}
use nucypher_ferveo.Base.Tests.{leb, le→leb}
use nucypher_ferveo.Base.Lists.{length, take, drop, length-append, take-append, drop-append}
use nucypher_ferveo.Base.Outcome.{ok, ◌>>=◌, ◌>>◌, assert}
use nucypher_ferveo.Algebra.Field.{Field}
use nucypher_ferveo.Algebra.Space.{Group, Space, ◌•◌}
use nucypher_ferveo.Algebra.Engine.{Engine}
use nucypher_ferveo.Tpke.Interface.{Primitives}
use nucypher_ferveo.Tpke.Ciphertext as Ciphertext
use nucypher_ferveo.Tpke.Ciphertext.{Ciphertext, TpkeResult, check_ciphertext_validity}
use nucypher_ferveo.Tpke.Ciphertext.Bytes as Bytes
use nucypher_ferveo.Tpke.Context.{PrivateDecryptionContextFast}
use nucypher_ferveo.Tpke.Decryption as Decryption
use nucypher_ferveo.Tpke.Decryption.{DecryptionShareFast, create_share_fast}
use nucypher_ferveo.Tpke.Api.Limbs.{Representation}
use nucypher_ferveo.Tpke.Api.Context as Context
use nucypher_ferveo.Tpke.Api.Context.{PrivateDecryptionContext, serialized_size}

pub record DecryptionShare (E : Engine) : Type 0 where
  pub share : DecryptionShareFast E

pub record ParticipantPayload (E : Engine) : Type 0 where
  pub decryption_context : PrivateDecryptionContext E
  pub ciphertext : Ciphertext E

module _ (E : Engine) (P : Primitives E) (R : Representation E) where
  open E use {Fr, G1}

  instance abbrev fr : Field Fr
  fr = E.field

  instance abbrev g1 : Group G1
  g1 = E.group1

  instance abbrev s1 : Space Fr G1
  s1 = E.space1

  -- `DecryptionShare::to_bytes` and `from_bytes`
  unfoldable pub share_to_bytes : DecryptionShare E → List ℕ
  share_to_bytes share = Decryption.to_bytes E P share.share

  unfoldable pub share_from_bytes : List ℕ → TpkeResult (DecryptionShare E)
  share_from_bytes bytes = do share ← Decryption.from_bytes E P bytes; ok (record { share = share })

  unfoldable pub new : PrivateDecryptionContext E → Ciphertext E → ParticipantPayload E
  new decryption_context ciphertext = record {
    decryption_context = decryption_context;
    ciphertext = ciphertext;
  }

  unfoldable pub to_bytes : ParticipantPayload E → List ℕ
  to_bytes payload =
      Context.to_bytes E P R payload.decryption_context
      ++ Ciphertext.to_bytes E P payload.ciphertext

  unfoldable pub from_bytes : List ℕ → TpkeResult (ParticipantPayload E)
  from_bytes bytes = do
    assert (leb serialized_size (length bytes))
    decryption_context ← Context.from_bytes E P R (take serialized_size bytes)
    ciphertext ← Ciphertext.from_bytes E P (drop serialized_size bytes)
    ok (record { decryption_context = decryption_context; ciphertext = ciphertext })

  unfoldable pub to_decryption_share : ParticipantPayload E → DecryptionShare E
  to_decryption_share payload = record {
    share = record {
      decrypter_index = payload.decryption_context.decrypter_index;
      decryption_share = payload.decryption_context.b_inv • payload.ciphertext.commitment;
    };
  }

  -- The bytes of a payload whose index is below 2^64 are read back but for the ciphertext's payload,
  -- which is empty.
  from_bytes-to_bytes :
      (payload : ParticipantPayload E)
      → payload.decryption_context.decrypter_index < 2 ^ 64
      → from_bytes (to_bytes payload)
        ≡ ok (new payload.decryption_context (record payload.ciphertext { ciphertext = [] }))
  unfolding from_bytes to_bytes new
  from_bytes-to_bytes payload h =
      let (size, read) = Context.from_bytes_lem E P R payload.decryption_context h in
      rw
        (
          le→leb serialized_size (length (to_bytes payload))
              (omega (arith, size, length-append context_bytes ciphertext_bytes)),
          take-append serialized_size context_bytes ciphertext_bytes size,
          drop-append serialized_size context_bytes ciphertext_bytes size,
          read,
          Bytes.from_bytes-to_bytes E P payload.ciphertext,
        )
        refl
    where
      context_bytes : List ℕ
      context_bytes = Context.to_bytes E P R payload.decryption_context

      ciphertext_bytes : List ℕ
      ciphertext_bytes = Ciphertext.to_bytes E P payload.ciphertext

  -- A participant in the fast variant, whose index is below 2^64, is sent the bytes of a payload with
  -- its index and the inverse of its scalar, and a ciphertext that passes its check. The payload that
  -- is read from these bytes makes the share that the participant's own context creates.
  pub to_decryption_share-from_bytes :
      (context : PrivateDecryptionContextFast E) (c : Ciphertext E) (aad : List ℕ) (g_inv : G1)
      → context.index < 2 ^ 64
      → check_ciphertext_validity E P c aad g_inv ≡ ok tt
      → (payload : ParticipantPayload E) × (from_bytes
            (to_bytes (new (Context.new E P R context.setup_params.b_inv context.index) c))
          ≡ ok payload)
        × (create_share_fast E P context c aad g_inv ≡ ok (to_decryption_share payload).share)
  unfolding create_share_fast to_decryption_share new Context.new
  to_decryption_share-from_bytes context c aad g_inv h valid = (
    new (Context.new E P R context.setup_params.b_inv context.index) (record c { ciphertext = [] }),
    from_bytes-to_bytes (new (Context.new E P R context.setup_params.b_inv context.index) c) h,
    rw valid refl,
  )
