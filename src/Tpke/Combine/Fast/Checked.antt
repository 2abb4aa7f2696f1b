-- ===== src/Tpke/Combine/Fast/Checked.antt =====
-- `checked_share_combine_fast` of tpke/src/combine.rs accepts the shares of honest decrypters.
use nucypher_ferveo.Base.{◌≡◌, ◌≢◌, refl, ◌∙◌, true, some, List, [], ◌∷◌}
use nucypher_ferveo.Base.Tests.{→is_yes}
use nucypher_ferveo.Base.Lists.{get_elem?}
use nucypher_ferveo.Base.Outcome.{ok}
use nucypher_ferveo.Algebra.Field.{Field}
use nucypher_ferveo.Algebra.Field.Inverse.{inv}
use nucypher_ferveo.Algebra.Space.{Group, Space, ◌•◌, minus, inv-smul, add-minus, add_comm}
use nucypher_ferveo.Algebra.Engine.{Engine, product_of_two, pairing-minus_right}
use nucypher_ferveo.Tpke.Ciphertext.{Ciphertext}
use nucypher_ferveo.Tpke.Context.{PublicDecryptionContextFast}
use nucypher_ferveo.Tpke.Decryption.{
  DecryptionShareFast, blinding_keys, check_shares_fast, verify_decryption_shares_fast,
}
use nucypher_ferveo.Tpke.Combine.{share_combine_fast, checked_share_combine_fast}

module _ (E : Engine) where
  open E use {Fr, G1, G2, Fqk, gen2, pairing, product_of_pairings}

  instance abbrev fr : Field Fr
  fr = E.field

  instance abbrev g1 : Group G1
  g1 = E.group1

  instance abbrev g2 : Group G2
  g2 = E.group2

  instance abbrev gt : Group Fqk
  gt = E.groupt

  instance abbrev s1 : Space Fr G1
  s1 = E.space1

  instance abbrev s2 : Space Fr G2
  s2 = E.space2

  instance abbrev st : Space Fr Fqk
  st = E.spacet

  -- Each share is 1/b·U, where the context of its decrypter has the blinding key b·H.
  abbrev pub AreUnblinded :
      G1 → List (PublicDecryptionContextFast E) → List (DecryptionShareFast E) → Type 0
  AreUnblinded u contexts [] = Unit
  AreUnblinded u contexts (d ∷ shares) =
      ((context : PublicDecryptionContextFast E) × (b : Fr) × (get_elem? contexts d.decrypter_index
          ≡ some context)
        × (b ≢ fr.zero)
        × (context.blinded_key_share.blinding_key_prepared ≡ b • gen2)
        × (d.decryption_share ≡ inv b • u))
      × AreUnblinded u contexts shares

  -- e(U, -H)·e(1/b·U, b·H) = 1
  one_check :
      (u : G1) (b : Fr)
      → b ≢ fr.zero
      → product_of_pairings ((u, minus gen2) ∷ (inv b • u, b • gen2) ∷ []) ≡ gt.zero
  one_check u b ne =
      product_of_two E u (inv b • u) (minus gen2) (b • gen2)
      ∙ rw
          (
            pairing-minus_right E u gen2,
            E.pairing-smul_left (inv b) u (b • gen2),
            E.pairing-smul_right b u gen2,
            inv-smul b (pairing u gen2) ne,
          )
          (add_comm (minus (pairing u gen2)) (pairing u gen2) ∙ add-minus (pairing u gen2))

  check_shares_fast-AreUnblinded :
      (u : G1) (contexts : List (PublicDecryptionContextFast E))
      (shares : List (DecryptionShareFast E))
      → AreUnblinded u contexts shares
      → (keys : List G2) × (blinding_keys E contexts shares ≡ ok keys)
        × (check_shares_fast E u (minus gen2) shares keys ≡ true)
  unfolding blinding_keys check_shares_fast
  check_shares_fast-AreUnblinded u contexts [] h = ([], refl, refl)
  check_shares_fast-AreUnblinded u contexts (d ∷ shares) ((context, b, found, ne, key, share), h) =
      let (keys, looked_up, checked) = check_shares_fast-AreUnblinded u contexts shares h in
      (
        context.blinded_key_share.blinding_key_prepared ∷ keys,
        rw (found, looked_up) refl,
        rw
            (
              →is_yes
                  (gt.dec_eq
                    (product_of_pairings (
                      (u, minus gen2)
                      ∷ (d.decryption_share, context.blinded_key_share.blinding_key_prepared)
                      ∷ []))
                    gt.zero)
                  (rw (share, key) (one_check u b ne)),
              checked,
            )
            refl,
      )

  -- Shares that are unblinded with the scalars of their decrypters' contexts pass the check, where the
  -- first context holds the inverse of the generator; the result is their combination.
  pub checked_share_combine_fast-ok :
      (contexts : List (PublicDecryptionContextFast E)) (first : PublicDecryptionContextFast E)
      (c : Ciphertext E) (shares : List (DecryptionShareFast E)) (keys : List G2)
      → get_elem? contexts 0 ≡ some first
      → first.h_inv ≡ minus gen2
      → AreUnblinded c.commitment contexts shares
      → checked_share_combine_fast E contexts c shares keys ≡ ok (share_combine_fast E shares keys)
  unfolding checked_share_combine_fast verify_decryption_shares_fast
  checked_share_combine_fast-ok contexts first c shares keys found inverse h =
      let (blinding, looked_up, checked) =
        check_shares_fast-AreUnblinded c.commitment contexts shares h in
      rw (looked_up, found, inverse, checked) refl
