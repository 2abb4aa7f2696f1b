-- ===== src/Tpke/Decryption.antt =====
-- tpke/src/decryption.rs and the share creation of tpke/src/context.rs: decryption shares of the
-- three variants, and their verification.
pub mod Simple
use nucypher_ferveo.Base.{ℕ, Bool, true, false, Option, none, some, List, [], ◌∷◌, ◌++◌, ◌&&◌, map}
use nucypher_ferveo.Base.Tests.{is_yes, leb, if◌then◌else◌}
use nucypher_ferveo.Base.Lists.{length, get_elem?, take, drop, replicate}
use nucypher_ferveo.Base.Outcome.{Outcome, ok, err, panic, ◌>>=◌, ◌>>◌, unwrap, assert}
use nucypher_ferveo.Algebra.Field.{Field}
use nucypher_ferveo.Algebra.Space.{Group, Space, ◌⊕◌, ◌•◌}
use nucypher_ferveo.Algebra.Space.Sums.{sum, total}
use nucypher_ferveo.Algebra.Engine.{Engine}
use nucypher_ferveo.Tpke.Interface.{ThresholdEncryptionError, Primitives}
use nucypher_ferveo.Tpke.KeyShare.{PrivateKeyShare}
use nucypher_ferveo.Tpke.Ciphertext.{Ciphertext, TpkeResult, check_ciphertext_validity}
use nucypher_ferveo.Tpke.Context.{
  PublicDecryptionContextFast, PublicDecryptionContextSimple, PrivateDecryptionContextFast,
  PrivateDecryptionContextSimple,
}

pub record DecryptionShareFast (E : Engine) : Type 0 where
  pub decrypter_index : ℕ
  pub decryption_share : E.G1

pub record DecryptionShareSimple (E : Engine) : Type 0 where
  pub decrypter_index : ℕ
  pub decryption_share : E.Fqk
  pub validator_checksum : E.G1

pub record DecryptionShareSimplePrecomputed (E : Engine) : Type 0 where
  pub decrypter_index : ℕ
  pub decryption_share : E.Fqk

module _ (E : Engine) (P : Primitives E) where
  open E use {Fr, G1, G2, Fqk, pairing, product_of_pairings}

  instance abbrev fr : Field Fr
  fr = E.field

  instance abbrev g1 : Group G1
  g1 = E.group1

  instance abbrev g2 : Group G2
  g2 = E.group2

  instance abbrev gt : Group Fqk
  gt = E.groupt

  instance abbrev s1 : Space Fr G1
  s1 = E.space1

  -- `DecryptionShareSimple::create`
  unfoldable pub create :
      ℕ → Fr → PrivateKeyShare E → Ciphertext E → List ℕ → G1 → TpkeResult (DecryptionShareSimple E)
  create validator_index validator_decryption_key private_key_share ciphertext aad g_inv = do
    check_ciphertext_validity E P ciphertext aad g_inv
    let share : Fqk = pairing ciphertext.commitment private_key_share.private_key_share
    key_inv ← unwrap (fr.inverse validator_decryption_key)
    ok (record {
      decrypter_index = validator_index;
      decryption_share = share;
      validator_checksum = key_inv • ciphertext.commitment;
    })

  -- `PrivateDecryptionContextSimple::create_share`
  unfoldable pub create_share_simple :
      PrivateDecryptionContextSimple E
      → Ciphertext E
      → List ℕ
      → TpkeResult (DecryptionShareSimple E)
  create_share_simple context ciphertext aad =
      create context.index context.validator_private_key context.private_key_share ciphertext aad
        context.setup_params.g_inv

  -- `PrivateDecryptionContextFast::create_share`
  unfoldable pub create_share_fast :
      PrivateDecryptionContextFast E
      → Ciphertext E
      → List ℕ
      → G1
      → TpkeResult (DecryptionShareFast E)
  create_share_fast context ciphertext aad g_inv = do
    check_ciphertext_validity E P ciphertext aad g_inv
    ok (record {
      decrypter_index = context.index;
      decryption_share = context.setup_params.b_inv • ciphertext.commitment;
    })

  -- `DecryptionShareFast::to_bytes` and `from_bytes`
  unfoldable pub to_bytes : DecryptionShareFast E → List ℕ
  to_bytes share = P.serialize_usize share.decrypter_index ++ P.serialize_g1 share.decryption_share

  unfoldable pub from_bytes : List ℕ → TpkeResult (DecryptionShareFast E)
  from_bytes bytes = do
    assert (leb 8 (length bytes))
    decrypter_index ← unwrap (P.deserialize_usize (take 8 bytes))
    decryption_share ← unwrap (P.deserialize_g1 (drop 8 bytes))
    ok (record { decrypter_index = decrypter_index; decryption_share = decryption_share })

module _ (E : Engine) where
  open E use {Fr, G1, G2, Fqk, pairing, product_of_pairings}

  instance abbrev field_of : Field Fr
  field_of = E.field

  instance abbrev group1_of : Group G1
  group1_of = E.group1

  instance abbrev group2_of : Group G2
  group2_of = E.group2

  instance abbrev groupt_of : Group Fqk
  groupt_of = E.groupt

  instance abbrev space1_of : Space Fr G1
  space1_of = E.space1

  -- `PrivateDecryptionContextSimple::create_share_precomputed`
  unfoldable pub create_share_precomputed :
      PrivateDecryptionContextSimple E → Ciphertext E → Fr → DecryptionShareSimplePrecomputed E
  create_share_precomputed context ciphertext lagrange_coeff =
      let u_to_lagrange_coeff : G1 = lagrange_coeff • ciphertext.commitment in
      record {
        decrypter_index = context.index;
        decryption_share = pairing u_to_lagrange_coeff context.private_key_share.private_key_share;
      }

  -- `DecryptionShareSimple::verify`
  unfoldable pub verify : DecryptionShareSimple E → G2 → G2 → G2 → Ciphertext E → Bool
  verify share share_aggregate validator_public_key h ciphertext =
      if is_yes
        (E.groupt.dec_eq share.decryption_share (pairing share.validator_checksum share_aggregate))
      then is_yes (
          E.groupt.dec_eq (pairing share.validator_checksum validator_public_key)
            (pairing ciphertext.commitment h))
      else false

  -- The loop ends with the shorter of the two lists.
  unfoldable pub verify_decryption_shares_simple :
      List (PublicDecryptionContextSimple E) → Ciphertext E → List (DecryptionShareSimple E) → Bool
  verify_decryption_shares_simple (context ∷ contexts) ciphertext (share ∷ shares) =
      let rest = verify_decryption_shares_simple contexts ciphertext shares in
      if verify share context.blinded_key_share.blinded_key_share context.validator_public_key
        context.h ciphertext
      then rest
      else false
  verify_decryption_shares_simple _ _ _ = true

  -- The blinding keys of the decrypters; an index out of bounds is a panic.
  unfoldable pub blinding_keys :
      List (PublicDecryptionContextFast E) → List (DecryptionShareFast E) → TpkeResult (List G2)
  blinding_keys pub_contexts [] = ok []
  blinding_keys pub_contexts (d ∷ shares) = do
    context ← unwrap (get_elem? pub_contexts d.decrypter_index)
    rest ← blinding_keys pub_contexts shares
    ok (context.blinded_key_share.blinding_key_prepared ∷ rest)

  -- The loop of `verify_decryption_shares_fast` over the shares and their blinding keys.
  unfoldable pub check_shares_fast : G1 → G2 → List (DecryptionShareFast E) → List G2 → Bool
  check_shares_fast commitment h_inv (d ∷ shares) (b ∷ keys) =
      let rest = check_shares_fast commitment h_inv shares keys in
      if is_yes (
        E.groupt.dec_eq (product_of_pairings ((commitment, h_inv) ∷ (d.decryption_share, b) ∷ []))
          E.groupt.zero)
      then rest
      else false
  check_shares_fast _ _ _ _ = true

  unfoldable pub verify_decryption_shares_fast :
      List (PublicDecryptionContextFast E)
      → Ciphertext E
      → List (DecryptionShareFast E)
      → TpkeResult Bool
  verify_decryption_shares_fast pub_contexts ciphertext decryption_shares = do
    keys ← blinding_keys pub_contexts decryption_shares
    first ← unwrap (get_elem? pub_contexts 0)
    ok (check_shares_fast ciphertext.commitment first.h_inv decryption_shares keys)

  -- `sum_d_i`: to each running sum, the share of one ciphertext scaled by its random coefficient.
  unfoldable pub add_shares : List G1 → List (DecryptionShareFast E) → List Fr → List G1
  add_shares (sum_d ∷ sums) (d ∷ shares) (alpha ∷ alphas) =
      (sum_d ⊕ alpha • d.decryption_share) ∷ add_shares sums shares alphas
  add_shares sums _ _ = sums

  unfoldable pub add_all_shares :
      List G1 → List (List (DecryptionShareFast E)) → List (List Fr) → List G1
  add_all_shares sums (shares ∷ more) (alphas ∷ rest) =
      add_all_shares (add_shares sums shares alphas) more rest
  add_all_shares sums _ _ = sums

  -- `sum_u_i`: the commitments, each scaled by the sum of its random coefficients.
  unfoldable pub sum_commitments : List (Ciphertext E) → List (List Fr) → G1
  sum_commitments (c ∷ ciphertexts) (alphas ∷ rest) =
      sum alphas • c.commitment ⊕ sum_commitments ciphertexts rest
  sum_commitments _ _ = E.group1.zero

  unfoldable pub pair_with_keys : List G1 → List G2 → List (G1 × G2)
  pair_with_keys (d ∷ sums) (b ∷ keys) = (d, b) ∷ pair_with_keys sums keys
  pair_with_keys _ _ = []

  -- `alpha_ij` are the scalars that `batch_verify_decryption_shares` draws, a row for each ciphertext.
  unfoldable pub batch_verify_decryption_shares :
      List (PublicDecryptionContextFast E)
      → List (Ciphertext E)
      → List (List (DecryptionShareFast E))
      → List (List Fr)
      → TpkeResult Bool
  batch_verify_decryption_shares pub_contexts ciphertexts decryption_shares alpha_ij = do
    row ← unwrap (get_elem? decryption_shares 0)
    keys ← blinding_keys pub_contexts row
    first ← unwrap (get_elem? pub_contexts 0)
    let sum_d_i = add_all_shares (replicate (length row) E.group1.zero) decryption_shares alpha_ij
    ok (
        is_yes (
          E.groupt.dec_eq
            (product_of_pairings
              ((sum_commitments ciphertexts alpha_ij, first.h_inv) ∷ pair_with_keys sum_d_i keys))
            E.groupt.zero))
