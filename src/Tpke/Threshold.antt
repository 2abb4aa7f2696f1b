-- ===== src/Tpke/Threshold.antt =====
-- Threshold decryption from end to end in the simple variant: encryption, the shares of enough
-- participants, their combination, and decryption with the combined secret (tpke/src).
use nucypher_ferveo.Base.{ℕ, ◌≤◌, ◌≡◌, ◌≢◌, refl, ap, some, List, [], ◌∷◌}
use nucypher_ferveo.Base.Lists.{length, Distinct}
use nucypher_ferveo.Base.Outcome.{ok, ◌>>=◌, >>=-eq-ok}
use nucypher_ferveo.Algebra.Field.{Field}
use nucypher_ferveo.Algebra.Field.Inverse.{inv}
use nucypher_ferveo.Algebra.Space.{Group, Space, ◌•◌, minus}
use nucypher_ferveo.Algebra.Engine.{Engine}
use nucypher_ferveo.Algebra.Poly.{eval, eval-zero}
use nucypher_ferveo.Tpke.Interface.{Primitives}
use nucypher_ferveo.Tpke.Ciphertext.{
  Ciphertext, TpkeResult, encrypt, check_ciphertext_validity, checked_decrypt_with_shared_secret,
}
use nucypher_ferveo.Tpke.Ciphertext.Decrypt.{decrypt-encrypt}
use nucypher_ferveo.Tpke.Context.{PrivateDecryptionContextSimple}
use nucypher_ferveo.Tpke.Decryption.{DecryptionShareSimple, create_share_simple}
use nucypher_ferveo.Tpke.Decryption.Simple.{create-ok}
use nucypher_ferveo.Tpke.Combine.{prepare_combine_simple, share_combine_simple}
use nucypher_ferveo.Tpke.Combine.Simple.{IsShareOf, share_combine_simple-prepare_combine_simple}

module _ (E : Engine) where
  open E use {Fr, G1, G2, gen1, gen2}

  instance abbrev fr : Field Fr
  fr = E.field

  instance abbrev g1 : Group G1
  g1 = E.group1

  instance abbrev g2 : Group G2
  g2 = E.group2

  instance abbrev s1 : Space Fr G1
  s1 = E.space1

  instance abbrev s2 : Space Fr G2
  s2 = E.space2

  -- The contexts belong to participants at the nodes: the one at node x holds the key share f(x)·H for
  -- a polynomial f, a nonzero key of its own, and the inverse of the generator.
  abbrev pub AreParticipants : List Fr → List Fr → List (PrivateDecryptionContextSimple E) → Type 0
  AreParticipants cs [] [] = Unit
  AreParticipants cs [] (context ∷ contexts) = ⊥
  AreParticipants cs (x ∷ xs) [] = ⊥
  AreParticipants cs (x ∷ xs) (context ∷ contexts) =
      ((context.private_key_share.private_key_share ≡ eval cs x • gen2)
        × (context.validator_private_key ≢ fr.zero)
        × (context.setup_params.g_inv ≡ minus gen1))
      × AreParticipants cs xs contexts

module _ (E : Engine) (P : Primitives E) where
  open E use {Fr, G1, G2, Fqk, gen1, gen2, pairing}

  instance abbrev field_of : Field Fr
  field_of = E.field

  instance abbrev group1_of : Group G1
  group1_of = E.group1

  instance abbrev group2_of : Group G2
  group2_of = E.group2

  instance abbrev space1_of : Space Fr G1
  space1_of = E.space1

  instance abbrev space2_of : Space Fr G2
  space2_of = E.space2

  -- Every participant creates its share of the ciphertext.
  abbrev pub create_shares :
      List (PrivateDecryptionContextSimple E)
      → Ciphertext E
      → List ℕ
      → TpkeResult (List (DecryptionShareSimple E))
  create_shares [] c aad = ok []
  create_shares (context ∷ contexts) c aad = do
    share ← create_share_simple E P context c aad
    shares ← create_shares contexts c aad
    ok (share ∷ shares)

  create_shares-ok :
      (cs xs : List Fr) (contexts : List (PrivateDecryptionContextSimple E)) (c : Ciphertext E)
      (aad : List ℕ)
      → check_ciphertext_validity E P c aad (minus gen1) ≡ ok tt
      → AreParticipants E cs xs contexts
      → (shares : List (DecryptionShareSimple E)) × (create_shares contexts c aad ≡ ok shares)
        × IsShareOf E cs c.commitment xs shares
  unfolding create_share_simple
  create_shares-ok cs [] [] c aad valid p = ([], refl, tt)
  create_shares-ok cs [] (context ∷ contexts) c aad valid p = absurd p
  create_shares-ok cs (x ∷ xs) [] c aad valid p = absurd p
  create_shares-ok cs (x ∷ xs) (context ∷ contexts) c aad valid ((key, nonzero, inverse), p) =
      let (shares, e, s) = create_shares-ok cs xs contexts c aad valid p in
      let share : DecryptionShareSimple E = record {
        decrypter_index = context.index;
        decryption_share = pairing c.commitment context.private_key_share.private_key_share;
        validator_checksum = inv context.validator_private_key • c.commitment;
      } in
      (
        share ∷ shares,
        rw
            (
              inverse,
              create-ok E P context.index context.validator_private_key context.private_key_share c
                  aad (minus gen1) valid nonzero,
              e,
            )
            refl,
        (ap (pairing c.commitment) key, s),
      )

  -- Threshold decryption from end to end: for a message of at most max_len bytes, a polynomial f
  -- with at least one coefficient, and participants at distinct nodes, at least as many as f has
  -- coefficients, where the one at node x holds the key share f(x)·H, a nonzero key and the
  -- inverse of the generator: encryption to f(0)·G succeeds, each participant creates a share of
  -- the ciphertext, the Lagrange coefficients of the nodes are computed, and with the combined
  -- secret the ciphertext passes its check and the message is decrypted.
  pub decrypt-share_combine_simple :
      (message aad : List ℕ) (r a : Fr) (cs xs : List Fr)
      (contexts : List (PrivateDecryptionContextSimple E))
      → length message ≤ P.max_len
      → Distinct xs
      → length (a ∷ cs) ≤ length xs
      → AreParticipants E (a ∷ cs) xs contexts
      → (c : Ciphertext E) × (shares : List (DecryptionShareSimple E)) × (coeffs : List Fr)
        × (encrypt E P message aad (a • gen1) r ≡ ok c)
        × (create_shares contexts c aad ≡ ok shares)
        × (prepare_combine_simple xs ≡ some coeffs)
        × (checked_decrypt_with_shared_secret E P c aad
              (minus gen1)
              (share_combine_simple E shares coeffs)
            ≡ ok message)
  unfolding checked_decrypt_with_shared_secret
  decrypt-share_combine_simple message aad r a cs xs contexts h d le p =
      let (c, encrypted, _, decrypted) = decrypt-encrypt E P message aad a r h in
      let (shares, created, s) = create_shares-ok (a ∷ cs) xs contexts c aad valid p in
      let (coeffs, prepared, combined) =
        share_combine_simple-prepare_combine_simple E (a ∷ cs) xs c.commitment shares d le s in
      (c, shares, coeffs, encrypted, created, prepared, rw (combined, eval-zero a cs) decrypted)
    where
      valid :
          check_ciphertext_validity E P (decrypt-encrypt E P message aad a r h).0 aad (minus gen1)
          ≡ ok tt
      valid =
          (>>=-eq-ok (check_ciphertext_validity E P _ aad (minus gen1)) _
            (decrypt-encrypt E P message aad a r h).3).1
