-- ===== src/Examples/Api.antt =====
-- The byte interface (tpke/src/api.rs) and the fast variant from end to end (tpke/src) at concrete
-- inputs.
use nucypher_ferveo.Base.{◌≡◌, ◌≢◌, refl, List, [], ◌∷◌, arith}
use nucypher_ferveo.Base.Lists.{length, All}
use nucypher_ferveo.Base.Outcome.{ok}
use nucypher_ferveo.Algebra.Field.{◌+◌}
use nucypher_ferveo.Algebra.Space.{◌•◌, minus}
use nucypher_ferveo.Toy.F5.{F5, one, two, three, four, field, group, space}
use nucypher_ferveo.Toy.Instances.{engine, primitives, domains, domain, msm}
use nucypher_ferveo.Toy.Polynomials.{dense, batch}
use nucypher_ferveo.Tpke.Ciphertext.{
  Ciphertext, encrypt, construct_tag_hash, check_ciphertext_validity,
  checked_decrypt_with_shared_secret,
}
use nucypher_ferveo.Tpke.Context.{PrivateDecryptionContextFast, PublicDecryptionContextFast}
use nucypher_ferveo.Tpke.Decryption.{DecryptionShareFast, create_share_fast}
use nucypher_ferveo.Tpke.Combine.{share_combine_fast}
use nucypher_ferveo.Tpke.Combine.Fast.{prepare_combine_fast}
use nucypher_ferveo.Tpke.Setup.Fast.{setup_fast}
use nucypher_ferveo.Toy.Representation.{representation}
use nucypher_ferveo.Tpke.ThresholdFast.{create_shares_fast, decrypt-share_combine_fast}
use nucypher_ferveo.Tpke.Api.Context as Context
use nucypher_ferveo.Tpke.Api.Context.{PrivateDecryptionContext, serialized_size}
use nucypher_ferveo.Tpke.Api.Payload.{
  ParticipantPayload, new, to_bytes, from_bytes, to_decryption_share,
  to_decryption_share-from_bytes,
}

from_bytes_lem_example :
    (length (
        Context.to_bytes engine primitives representation
          (record { b_inv = three; decrypter_index = 7 }))
      ≡ serialized_size)
    × (Context.from_bytes engine primitives representation (
          Context.to_bytes engine primitives representation
            (record { b_inv = three; decrypter_index = 7 }))
        ≡ ok (record { b_inv = three; decrypter_index = 7 }))
from_bytes_lem_example =
    Context.from_bytes_lem engine primitives representation
      (record { b_inv = three; decrypter_index = 7 }) (omega arith)

two_ne_zero : dense.from 2 ≢ F5.zero
unfolding ◌+◌
two_ne_zero e = cc

decrypt-share_combine_fast_example :
    (contexts : List (PrivateDecryptionContextFast engine)) × (publics : List
      (PublicDecryptionContextFast engine))
    × (c : Ciphertext engine) × (shares : List (DecryptionShareFast engine)) × (keys : List F5)
    × (setup_fast engine msm.msm1 msm.msm2 domains (λ i. three) 2 2 (two ∷ four ∷ [])
        ≡ ok (two • one, two • one, contexts))
    × All (λ context. context.public_decryption_contexts ≡ publics) contexts
    × (encrypt engine primitives (7 ∷ 8 ∷ []) (1 ∷ []) (two • one) three ≡ ok c)
    × (create_shares_fast engine primitives contexts c (1 ∷ []) ≡ ok shares)
    × (prepare_combine_fast engine dense batch publics shares ≡ ok keys)
    × (checked_decrypt_with_shared_secret engine primitives c
          (1 ∷ [])
          (minus one)
          (share_combine_fast engine shares keys)
        ≡ ok (7 ∷ 8 ∷ []))
decrypt-share_combine_fast_example =
    decrypt-share_combine_fast engine primitives msm.msm1 msm.msm2 domains domain dense batch
      (λ i. three) 2 2 1 (7 ∷ 8 ∷ []) (1 ∷ []) three two (four ∷ []) (omega arith) refl
      (omega arith) two_ne_zero refl (omega arith) (λ i e. cc) (omega arith)

abbrev sealed : Ciphertext engine
sealed = record { commitment = three; auth_tag = two; ciphertext = 5 ∷ 6 ∷ [] }

accepted : check_ciphertext_validity engine primitives sealed [] (minus one) ≡ ok tt
unfolding check_ciphertext_validity construct_tag_hash minus
accepted = refl

abbrev participant : PrivateDecryptionContextFast engine
participant = record {
  index = 1;
  setup_params = record { b = two; b_inv = three; g = one; g_inv = four; h_inv = four; h = one };
  private_key_share = record { private_key_share = four };
  public_decryption_contexts = [];
}

to_decryption_share-from_bytes_example :
    (payload : ParticipantPayload engine) × (from_bytes engine primitives representation (
        to_bytes engine primitives representation (
          new engine primitives representation
            (Context.new engine primitives representation three 1)
            sealed))
      ≡ ok payload)
    × (create_share_fast engine primitives participant sealed [] (minus one)
        ≡ ok (to_decryption_share engine primitives representation payload).share)
to_decryption_share-from_bytes_example =
    to_decryption_share-from_bytes engine primitives representation participant sealed []
      (minus one) (omega arith) accepted
