-- ===== src/Tpke/Ciphertext/Decrypt.antt =====
-- Decryption with the private key, tpke/src/ciphertext.rs.
use nucypher_ferveo.Base.{ℕ, ◌≤◌, ◌≡◌, refl, sym, ap, ◌∙◌, List}
use nucypher_ferveo.Base.Lists.{length}
use nucypher_ferveo.Base.Outcome.{ok}
use nucypher_ferveo.Algebra.Field.{Field}
use nucypher_ferveo.Algebra.Space.{Group, Space, ◌•◌, minus}
use nucypher_ferveo.Algebra.Engine.{Engine, product_of_one, pairing-generators}
use nucypher_ferveo.Tpke.Interface.{Primitives}
use nucypher_ferveo.Tpke.Ciphertext.{
  Ciphertext, construct_tag_hash, encrypt, decrypt_with_shared_secret, checked_decrypt,
  checked_decrypt_with_shared_secret,
}
use nucypher_ferveo.Tpke.Ciphertext.Validity.{check_ciphertext_validity_iff, encrypt-ok}

module _ (E : Engine) (P : Primitives E) where
  open E use {Fr, G1, G2, Fqk, gen1, gen2, pairing, product_of_pairings}

  instance abbrev fr : Field Fr
  fr = E.field

  instance abbrev g1 : Group G1
  g1 = E.group1

  instance abbrev g2 : Group G2
  g2 = E.group2

  instance abbrev gt : Group Fqk
  gt = E.groupt

  instance abbrev s1 : Space Fr G1
  s1 = E.space1

  instance abbrev s2 : Space Fr G2
  s2 = E.space2

  instance abbrev st : Space Fr Fqk
  st = E.spacet

  -- What is encrypted to x·G is decrypted by the shared secret r·x·e(G, H), where r is the scalar of
  -- the commitment: encryption succeeds, the ciphertext passes its check, and the message comes back.
  pub decrypt-encrypt :
      (message aad : List ℕ) (x r : Fr)
      → length message ≤ P.max_len
      → (c : Ciphertext E) × (encrypt E P message aad (x • gen1) r ≡ ok c)
        × (c.commitment ≡ r • gen1)
        × (checked_decrypt_with_shared_secret E P c aad
              (minus gen1)
              (pairing c.commitment (x • gen2))
            ≡ ok message)
  unfolding checked_decrypt_with_shared_secret decrypt_with_shared_secret
  decrypt-encrypt message aad x r h =
      let (sealed, e, q) = encrypt-ok E P message aad (x • gen1) r h in
      let c : Ciphertext E = record {
        commitment = r • gen1;
        auth_tag = r • construct_tag_hash E P (r • gen1) sealed aad;
        ciphertext = sealed;
      } in
      (
        c,
        q,
        refl,
        rw ((check_ciphertext_validity_iff E P c aad r refl).1 refl, secret)
            (rw (P.open-seal _ _ message sealed e) refl),
      )
    where
      secret : pairing (r • gen1) (x • gen2) ≡ pairing (r • x • gen1) gen2
      secret =
          pairing-generators E r x
          ∙ sym
              (E.pairing-smul_left r (x • gen1) gen2 ∙ ap (◌•◌ r) (E.pairing-smul_left x gen1 gen2))

  -- A message of at most max_len bytes is encrypted to x·G, and the private key x·H decrypts it:
  -- the ciphertext passes its check and the message comes back.
  pub checked_decrypt-encrypt :
      (message aad : List ℕ) (x r : Fr)
      → length message ≤ P.max_len
      → (c : Ciphertext E) × (encrypt E P message aad (x • gen1) r ≡ ok c)
        × (checked_decrypt E P c aad (minus gen1) (x • gen2) ≡ ok message)
  unfolding checked_decrypt checked_decrypt_with_shared_secret
  checked_decrypt-encrypt message aad x r h =
      let (c, e, _, d) = decrypt-encrypt message aad x r h in
      (c, e, rw (product_of_one E c.commitment (x • gen2)) d)
