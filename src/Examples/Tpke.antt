-- ===== src/Examples/Tpke.antt =====
-- Encryption, decryption shares and their combination (tpke/src) at concrete inputs.
use nucypher_ferveo.Base.{ℕ, ◌≡◌, ◌≢◌, ◌↔◌, refl, true, some, List, [], ◌∷◌, arith}
use nucypher_ferveo.Base.Lists.{Distinct}
use nucypher_ferveo.Base.Outcome.{ok, err}
use nucypher_ferveo.Algebra.Field.Inverse.{inv}
use nucypher_ferveo.Algebra.Space.{◌•◌, minus}
use nucypher_ferveo.Algebra.Poly.{eval}
use nucypher_ferveo.Toy.F5
use nucypher_ferveo.Toy.F5.{F5, one, two, three, four, field, group, space}
use nucypher_ferveo.Toy.Instances.{engine, primitives}
use nucypher_ferveo.Tpke.Interface.{ciphertext_verification_failed}
use nucypher_ferveo.Tpke.KeyShare.{PublicKeyShare, BlindedKeyShare, verify_blinding}
use nucypher_ferveo.Tpke.KeyShare.Blinding.{verify_blinding_iff}
use nucypher_ferveo.Tpke.Ciphertext.{
  Ciphertext, encrypt, check_ciphertext_validity, checked_decrypt,
  checked_decrypt_with_shared_secret, construct_tag_hash, to_bytes, from_bytes,
}
use nucypher_ferveo.Tpke.Ciphertext.Validity.{
  check_ciphertext_validity_iff, check_ciphertext_validity_error,
}
use nucypher_ferveo.Tpke.Ciphertext.Decrypt.{checked_decrypt-encrypt}
use nucypher_ferveo.Tpke.Ciphertext.Bytes.{from_bytes-to_bytes}
use nucypher_ferveo.Tpke.Context.{PrivateDecryptionContextSimple}
use nucypher_ferveo.Tpke.Decryption.{DecryptionShareSimple, verify}
use nucypher_ferveo.Tpke.Decryption.Simple.{verify_iff}
use nucypher_ferveo.Tpke.Combine.{
  prepare_combine_simple, share_combine_simple, share_combine_simple_precomputed,
}
use nucypher_ferveo.Tpke.Combine.Simple.{
  share_combine_simple-prepare_combine_simple, precomputed,
  share_combine_simple_precomputed-share_combine_simple,
}
use nucypher_ferveo.Tpke.Threshold.{create_shares, decrypt-share_combine_simple}

-- The polynomial 2 + 3x, shared at the nodes 1, 2 and 4.
abbrev shared : List F5
shared = two ∷ three ∷ []

abbrev nodes : List F5
nodes = one ∷ two ∷ four ∷ []

Distinct-nodes : Distinct nodes
Distinct-nodes = (((λ e. cc), ((λ e. cc), tt)), (((λ e. cc), tt), (tt, tt)))

abbrev context_at : ℕ → F5 → PrivateDecryptionContextSimple engine
context_at i x = record {
  index = i;
  setup_params = record {
    b = two;
    b_inv = three;
    g = one;
    g_inv = minus one;
    h_inv = minus one;
    h = one;
  };
  private_key_share = record { private_key_share = eval shared x • one };
  public_decryption_contexts = [];
  validator_private_key = two;
}

abbrev contexts : List (PrivateDecryptionContextSimple engine)
contexts = context_at 0 one ∷ context_at 1 two ∷ context_at 2 four ∷ []

decrypt-share_combine_simple_example :
    (c : Ciphertext engine) × (shares : List (DecryptionShareSimple engine)) × (coeffs : List F5)
    × (encrypt engine primitives (7 ∷ 8 ∷ []) (1 ∷ []) (two • one) three ≡ ok c)
    × (create_shares engine primitives contexts c (1 ∷ []) ≡ ok shares)
    × (prepare_combine_simple nodes ≡ some coeffs)
    × (checked_decrypt_with_shared_secret engine primitives c
          (1 ∷ [])
          (minus one)
          (share_combine_simple engine shares coeffs)
        ≡ ok (7 ∷ 8 ∷ []))
decrypt-share_combine_simple_example =
    decrypt-share_combine_simple engine primitives (7 ∷ 8 ∷ []) (1 ∷ []) three two (three ∷ [])
      nodes contexts (omega arith) Distinct-nodes (omega arith)
      ((refl, (λ e. cc), refl), ((refl, (λ e. cc), refl), ((refl, (λ e. cc), refl), tt)))

abbrev share_at : ℕ → F5 → DecryptionShareSimple engine
share_at i x = record {
  decrypter_index = i;
  decryption_share = F5.mul three (eval shared x • one);
  validator_checksum = four;
}

abbrev shares : List (DecryptionShareSimple engine)
shares = share_at 0 one ∷ share_at 1 two ∷ share_at 2 four ∷ []

share_combine_simple-prepare_combine_simple_example :
    (coeffs : List F5) × (prepare_combine_simple nodes ≡ some coeffs)
    × (share_combine_simple engine shares coeffs ≡ F5.mul three (eval shared F5.zero • one))
share_combine_simple-prepare_combine_simple_example =
    share_combine_simple-prepare_combine_simple engine shared nodes three shares Distinct-nodes
      (omega arith) (refl, (refl, (refl, tt)))

abbrev sealed : Ciphertext engine
sealed = record { commitment = three; auth_tag = two; ciphertext = 5 ∷ 6 ∷ [] }

share_combine_simple_precomputed-share_combine_simple_example :
    share_combine_simple_precomputed engine (precomputed engine contexts (two ∷ four ∷ []) sealed)
    ≡ share_combine_simple engine shares (two ∷ four ∷ [])
share_combine_simple_precomputed-share_combine_simple_example =
    share_combine_simple_precomputed-share_combine_simple engine contexts (two ∷ four ∷ []) sealed
      shares (refl, (refl, (refl, tt)))

checked_decrypt-encrypt_example :
    (c : Ciphertext engine) × (encrypt engine primitives (7 ∷ 8 ∷ []) (1 ∷ []) (two • one) three
      ≡ ok c)
    × (checked_decrypt engine primitives c (1 ∷ []) (minus one) (two • one) ≡ ok (7 ∷ 8 ∷ []))
checked_decrypt-encrypt_example =
    checked_decrypt-encrypt engine primitives (7 ∷ 8 ∷ []) (1 ∷ []) two three (omega arith)

three_generated : three ≡ three • one
unfolding ◌•◌
three_generated = refl

check_ciphertext_validity_iff_example :
    (check_ciphertext_validity engine primitives sealed (1 ∷ []) (minus one) ≡ ok tt)
    ↔ (two ≡ three • construct_tag_hash engine primitives three (5 ∷ 6 ∷ []) (1 ∷ []))
check_ciphertext_validity_iff_example =
    check_ciphertext_validity_iff engine primitives sealed (1 ∷ []) three three_generated

rejected :
    check_ciphertext_validity engine primitives (record sealed { auth_tag = three }) [] (minus one)
    ≢ ok tt
unfolding check_ciphertext_validity construct_tag_hash minus
rejected e = cc

check_ciphertext_validity_error_example :
    check_ciphertext_validity engine primitives (record sealed { auth_tag = three }) [] (minus one)
    ≡ err ciphertext_verification_failed
check_ciphertext_validity_error_example =
    check_ciphertext_validity_error engine primitives (record sealed { auth_tag = three }) []
      (minus one) rejected

from_bytes-to_bytes_example :
    from_bytes engine primitives (to_bytes engine primitives sealed)
    ≡ ok (record sealed { ciphertext = [] })
from_bytes-to_bytes_example = from_bytes-to_bytes engine primitives sealed

verify_iff_example : (verify engine (share_at 1 two) four (two • one) one sealed ≡ true) ↔ (
    (four ≡ inv two • three)
    × (F5.mul three (eval shared two • one) ≡ F5.mul three (inv two • four)))
verify_iff_example = verify_iff engine (share_at 1 two) four two sealed (λ e. cc)

accepted : check_ciphertext_validity engine primitives sealed [] (minus one) ≡ ok tt
unfolding check_ciphertext_validity construct_tag_hash minus
accepted = refl

abbrev public_share : PublicKeyShare engine
public_share = record { public_key_share = three }

abbrev blinded_share : BlindedKeyShare engine
blinded_share = record { blinding_key = two; blinded_key_share = one; blinding_key_prepared = two }

verify_blinding_iff_example :
    (verify_blinding engine blinded_share public_share four ≡ true) ↔ (one ≡ three • two)
verify_blinding_iff_example =
    verify_blinding_iff engine blinded_share public_share four three (λ e. cc) three_generated
