-- ===== src/Tpke/Ciphertext/Validity.antt =====
-- The validity check of tpke/src/ciphertext.rs.
use nucypher_ferveo.Base.{ℕ, ◌≤◌, ◌≡◌, ◌≢◌, ◌↔◌, refl, sym, ap, ◌∙◌, some, List, [], ◌∷◌, arith}
use nucypher_ferveo.Base.Tests.{is_yes→, →is_yes}
use nucypher_ferveo.Base.Lists.{length}
use nucypher_ferveo.Base.Outcome.{ok, err, if_ok}
use nucypher_ferveo.Algebra.Field.{Field}
use nucypher_ferveo.Algebra.Space.{Group, Space, ◌•◌, minus}
use nucypher_ferveo.Algebra.Engine.{Engine, pairing_check, product_of_one, pairing-gen1_injective}
use nucypher_ferveo.Tpke.Interface.{ciphertext_verification_failed, Primitives}
use nucypher_ferveo.Tpke.Ciphertext.{
  Ciphertext, construct_tag_hash, shared_secret_to_chacha, nonce_from_commitment, encrypt,
  check_ciphertext_validity,
}

module _ (E : Engine) (P : Primitives E) where
  open E use {Fr, G1, G2, Fqk, gen1, gen2, pairing, product_of_pairings}

  instance abbrev fr : Field Fr
  fr = E.field

  instance abbrev g1 : Group G1
  g1 = E.group1

  instance abbrev g2 : Group G2
  g2 = E.group2

  instance abbrev gt : Group Fqk
  gt = E.groupt

  instance abbrev s1 : Space Fr G1
  s1 = E.space1

  instance abbrev s2 : Space Fr G2
  s2 = E.space2

  instance abbrev st : Space Fr Fqk
  st = E.spacet

  -- The pairings that the check compares, for a commitment r·G.
  pairings :
      (c : Ciphertext E) (aad : List ℕ) (r : Fr)
      → c.commitment ≡ r • gen1
      → pairing c.commitment (construct_tag_hash E P c.commitment c.ciphertext aad)
        ≡ pairing gen1 (r • construct_tag_hash E P c.commitment c.ciphertext aad)
  pairings c aad r h =
      let hash : G2 = construct_tag_hash E P c.commitment c.ciphertext aad in
      ap (λ u. pairing u hash) h
      ∙ E.pairing-smul_left r gen1 hash
      ∙ sym (E.pairing-smul_right r gen1 hash)

  -- With the inverse of the generator, the check of a ciphertext with the commitment r·G passes
  -- exactly when its tag is the hash of the commitment, the payload and the additional data,
  -- scaled by r.
  pub check_ciphertext_validity_iff :
      (c : Ciphertext E) (aad : List ℕ) (r : Fr)
      → c.commitment ≡ r • gen1
      → (check_ciphertext_validity E P c aad (minus gen1) ≡ ok tt)
        ↔ (c.auth_tag ≡ r • construct_tag_hash E P c.commitment c.ciphertext aad)
  unfolding check_ciphertext_validity
  check_ciphertext_validity_iff c aad r h = (
    λ e. pairing-gen1_injective E c.auth_tag (r • hash) (
        sym (check.0 (is_yes→ _ (if_ok _ tt ciphertext_verification_failed e)))
        ∙ pairings c aad r h),
    λ e.
        rw
          (→is_yes (E.groupt.dec_eq _ _) (check.1 (pairings c aad r h ∙ ap (pairing gen1) (sym e))))
          refl,
  )
    where
      hash : G2
      hash = construct_tag_hash E P c.commitment c.ciphertext aad

      check :
          (product_of_pairings ((c.commitment, hash) ∷ (minus gen1, c.auth_tag) ∷ []) ≡ gt.zero)
          ↔ (pairing c.commitment hash ≡ pairing gen1 c.auth_tag)
      check = pairing_check E c.commitment gen1 hash c.auth_tag

  -- Every outcome other than success is the one error.
  pub check_ciphertext_validity_error :
      (c : Ciphertext E) (aad : List ℕ) (g_inv : G1)
      → check_ciphertext_validity E P c aad g_inv ≢ ok tt
      → check_ciphertext_validity E P c aad g_inv ≡ err ciphertext_verification_failed
  unfolding check_ciphertext_validity
  check_ciphertext_validity_error c aad g_inv h = ground arith

  -- What `encrypt` returns.
  pub encrypt-ok :
      (message aad : List ℕ) (pubkey : G1) (r : Fr)
      → length message ≤ P.max_len
      → (sealed : List ℕ) × (P.seal_message
            (shared_secret_to_chacha E P (pairing (r • pubkey) gen2))
            (nonce_from_commitment E P (r • gen1))
            message
          ≡ some sealed)
        × (encrypt E P message aad pubkey r
            ≡ ok (record {
              commitment = r • gen1;
              auth_tag = r • construct_tag_hash E P (r • gen1) sealed aad;
              ciphertext = sealed;
            }))
  unfolding encrypt
  encrypt-ok message aad pubkey r h =
      let (sealed, e) =
        P.seal_total (shared_secret_to_chacha E P (pairing (r • pubkey) gen2))
          (nonce_from_commitment E P (r • gen1)) message h in
      (sealed, e, rw (product_of_one E (r • pubkey) gen2, e) refl)
