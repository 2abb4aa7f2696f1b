-- ===== src/Tpke/Decryption/Simple.antt =====
-- The simple decryption shares of tpke/src/decryption.rs: what `create` returns, and what `verify`
-- accepts.
use nucypher_ferveo.Base.{ℕ, ◌≡◌, ◌≢◌, ◌↔◌, refl, sym, ap, ◌∙◌, Bool, true, false, List, arith}
use nucypher_ferveo.Base.Tests.{is_yes→, →is_yes, if◌then◌else◌}
use nucypher_ferveo.Base.Outcome.{ok, >>=-eq-ok}
use nucypher_ferveo.Algebra.Field.{Field}
use nucypher_ferveo.Algebra.Field.Inverse.{inv, inverse-inv}
use nucypher_ferveo.Algebra.Space.{Group, Space, ◌•◌, inv-smul}
use nucypher_ferveo.Algebra.Engine.{Engine, pairing-gen2_injective}
use nucypher_ferveo.Tpke.Interface.{Primitives}
use nucypher_ferveo.Tpke.KeyShare.{PrivateKeyShare}
use nucypher_ferveo.Tpke.Ciphertext.{Ciphertext, check_ciphertext_validity}
use nucypher_ferveo.Tpke.Decryption.{DecryptionShareSimple, create, verify}

module _ (E : Engine) where
  open E use {Fr, G1, G2, Fqk, gen1, gen2, pairing}

  instance abbrev fr : Field Fr
  fr = E.field

  instance abbrev g1 : Group G1
  g1 = E.group1

  instance abbrev g2 : Group G2
  g2 = E.group2

  instance abbrev gt : Group Fqk
  gt = E.groupt

  instance abbrev s1 : Space Fr G1
  s1 = E.space1

  instance abbrev s2 : Space Fr G2
  s2 = E.space2

  instance abbrev st : Space Fr Fqk
  st = E.spacet

  -- With the generator H, for a validator with the key pair (dk, dk·H), dk nonzero, `verify`
  -- accepts a share exactly when its checksum is the commitment U scaled by the inverse of dk, and
  -- the share is the pairing of U with the validator's aggregated share scaled by that inverse, as
  -- in `create`.
  pub verify_iff :
      (share : DecryptionShareSimple E) (aggregate : G2) (dk : Fr) (ciphertext : Ciphertext E)
      → dk ≢ fr.zero
      → (verify E share aggregate (dk • gen2) gen2 ciphertext ≡ true) ↔ (
          (share.validator_checksum ≡ inv dk • ciphertext.commitment)
          × (share.decryption_share ≡ pairing ciphertext.commitment (inv dk • aggregate)))
  unfolding verify
  verify_iff share aggregate dk ciphertext h = (
    accepted,
    λ e.
        rw (→is_yes (E.groupt.dec_eq _ _) (first e), →is_yes (E.groupt.dec_eq _ _) (second e.0))
          refl,
  )
    where
      u : G1
      u = ciphertext.commitment

      c : G1
      c = share.validator_checksum

      move : pairing (inv dk • u) aggregate ≡ pairing u (inv dk • aggregate)
      move =
          E.pairing-smul_left (inv dk) u aggregate ∙ sym (E.pairing-smul_right (inv dk) u aggregate)

      second : c ≡ inv dk • u → pairing c (dk • gen2) ≡ pairing u gen2
      second e =
          ap (λ a. pairing a (dk • gen2)) e
          ∙ E.pairing-smul_left (inv dk) u (dk • gen2)
          ∙ ap (◌•◌ (inv dk)) (E.pairing-smul_right dk u gen2)
          ∙ inv-smul dk (pairing u gen2) h

      first :
          (c ≡ inv dk • u) × (share.decryption_share ≡ pairing u (inv dk • aggregate))
          → share.decryption_share ≡ pairing c aggregate
      first e = e.1 ∙ sym (ap (λ a. pairing a aggregate) e.0 ∙ move)

      checksum : pairing c (dk • gen2) ≡ pairing u gen2 → c ≡ inv dk • u
      checksum e =
          sym (inv-smul dk c h)
          ∙ ap (◌•◌ (inv dk)) (
              pairing-gen2_injective E (dk • c) u
                (E.pairing-smul_left dk c gen2 ∙ sym (E.pairing-smul_right dk c gen2) ∙ e))

      both : {p q : Bool} → (if p then q else false) ≡ true → (p ≡ true) × (q ≡ true)
      both e = ground arith

      accepted :
          verify E share aggregate (dk • gen2) gen2 ciphertext ≡ true
          → (c ≡ inv dk • u) × (share.decryption_share ≡ pairing u (inv dk • aggregate))
      accepted e =
          let (p, q) = both e in
          let k : c ≡ inv dk • u = checksum (is_yes→ _ q) in
          (k, is_yes→ _ p ∙ ap (λ a. pairing a aggregate) k ∙ move)

module _ (E : Engine) (P : Primitives E) where
  open E use {Fr, G1, G2, Fqk, gen1, gen2, pairing}

  instance abbrev field_of : Field Fr
  field_of = E.field

  instance abbrev group1_of : Group G1
  group1_of = E.group1

  instance abbrev group2_of : Group G2
  group2_of = E.group2

  instance abbrev groupt_of : Group Fqk
  groupt_of = E.groupt

  instance abbrev space1_of : Space Fr G1
  space1_of = E.space1

  instance abbrev space2_of : Space Fr G2
  space2_of = E.space2

  instance abbrev spacet_of : Space Fr Fqk
  spacet_of = E.spacet

  -- For a ciphertext that passes its check and a nonzero decryption key `create` succeeds: the
  -- share is the pairing of the commitment with the key share, and the checksum is the commitment
  -- scaled by the inverse of the key.
  pub create-ok :
      (index : ℕ) (dk : Fr) (share : PrivateKeyShare E) (ciphertext : Ciphertext E) (aad : List ℕ)
      (g_inv : G1)
      → check_ciphertext_validity E P ciphertext aad g_inv ≡ ok tt
      → dk ≢ E.field.zero
      → create E P index dk share ciphertext aad g_inv
        ≡ ok (record {
          decrypter_index = index;
          decryption_share = pairing ciphertext.commitment share.private_key_share;
          validator_checksum = inv dk • ciphertext.commitment;
        })
  unfolding create
  create-ok index dk share ciphertext aad g_inv valid h = rw (valid, inverse-inv dk h) refl

  -- A share is created only for a ciphertext that passes its check.
  pub create-check_ciphertext_validity :
      (index : ℕ) (dk : Fr) (share : PrivateKeyShare E) (ciphertext : Ciphertext E) (aad : List ℕ)
      (g_inv : G1) {created : DecryptionShareSimple E}
      → create E P index dk share ciphertext aad g_inv ≡ ok created
      → check_ciphertext_validity E P ciphertext aad g_inv ≡ ok tt
  unfolding create
  create-check_ciphertext_validity index dk share ciphertext aad g_inv h =
      let (unit, e, _) = >>=-eq-ok (check_ciphertext_validity E P ciphertext aad g_inv) _ h in e
