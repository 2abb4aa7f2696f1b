-- ===== src/Ferveo/Threshold/Verify.antt =====
-- The verification of the decryption shares of the validators (ferveo/src/lib.rs).
use nucypher_ferveo.Base.{
  ℕ, zero, suc, ◌≤◌, ◌≡◌, ◌≢◌, refl, sym, ap, ◌∙◌, true, some, List, [], ◌∷◌, arith,
}
use Prim.Native.Nat.{◌+◌}
use nucypher_ferveo.Base.Lists.{length, get_elem?, All}
use nucypher_ferveo.Base.Outcome.{ok}
use nucypher_ferveo.Algebra.Field.{Field}
use nucypher_ferveo.Algebra.Field.Inverse.{inv, inverse-inv}
use nucypher_ferveo.Algebra.Space.{Group, Space, ◌•◌}
use nucypher_ferveo.Algebra.Engine.{Engine}
use nucypher_ferveo.Tpke.Interface.{Primitives}
use nucypher_ferveo.Tpke.Ciphertext.{Ciphertext, check_ciphertext_validity}
use nucypher_ferveo.Tpke.Decryption.{DecryptionShareSimple, verify}
use nucypher_ferveo.Tpke.Decryption.Simple.{create-ok, verify_iff}
use nucypher_ferveo.Ferveo.Common.{Keypair, public}
use nucypher_ferveo.Ferveo.Session.{AggregatedPvss}
use nucypher_ferveo.Ferveo.Pvss.Shares.{make_decryption_share_simple, decrypt_private_key_share}
use nucypher_ferveo.Ferveo.Threshold.{make_decryption_shares, collect_shares, verify_shares}

module _ (E : Engine) (P : Primitives E) (pvss : AggregatedPvss E) (c : Ciphertext E) (aad : List ℕ)
    (inverse : E.G1) (valid : check_ciphertext_validity E P c aad inverse ≡ ok tt) where
  open E use {Fr, G1, G2, gen2, pairing}

  instance abbrev fr : Field Fr
  fr = E.field

  instance abbrev g1 : Group G1
  g1 = E.group1

  instance abbrev g2 : Group G2
  g2 = E.group2

  instance abbrev s1 : Space Fr G1
  s1 = E.space1

  instance abbrev s2 : Space Fr G2
  s2 = E.space2

  make_decryption_share_simple-verify :
      (i : ℕ) (k : Keypair E) (y : G2)
      → get_elem? pvss.shares i ≡ some y
      → k.decryption_key ≢ fr.zero
      → (share : DecryptionShareSimple E) × (make_decryption_share_simple E P pvss c aad
            k.decryption_key i inverse
          ≡ ok share)
        × (verify E share y (public E k).encryption_key gen2 c ≡ true)
  unfolding make_decryption_share_simple decrypt_private_key_share public
  make_decryption_share_simple-verify i k y hy nonzero =
      let share : DecryptionShareSimple E = record {
        decrypter_index = i;
        decryption_share = pairing c.commitment (inv k.decryption_key • y);
        validator_checksum = inv k.decryption_key • c.commitment;
      } in
      (
        share,
        rw
            (
              hy,
              inverse-inv k.decryption_key nonzero,
              create-ok E P i k.decryption_key
                  (record { private_key_share = inv k.decryption_key • y }) c aad inverse valid
                  nonzero,
            )
            refl,
        (verify_iff E share y k.decryption_key c nonzero).1 (refl, refl),
      )

  collect_shares-verify :
      (i : ℕ) (keypairs : List (Keypair E)) (ys : List G2)
      → ((j : ℕ) → get_elem? ys j ≡ get_elem? pvss.shares (j + i))
      → length keypairs ≤ length ys
      → All (λ k. k.decryption_key ≢ fr.zero) keypairs
      → (shares : List (DecryptionShareSimple E)) × (collect_shares E
            (λ a k. make_decryption_share_simple E P pvss c aad k.decryption_key a inverse)
            i
            keypairs
          ≡ ok shares)
        × (length shares ≡ length keypairs)
        × (verify_shares E gen2 c ys keypairs shares ≡ true)
  unfolding collect_shares verify_shares
  collect_shares-verify i [] [] here le nonzero = ([], refl, refl, refl)
  collect_shares-verify i [] (y ∷ ys) here le nonzero = ([], refl, refl, refl)
  collect_shares-verify i (k ∷ keypairs) [] here le nonzero = absurd (omega arith)
  collect_shares-verify i (k ∷ keypairs) (y ∷ ys) here le nonzero =
      let (share, e, v) =
        make_decryption_share_simple-verify i k y
          (ap (get_elem? pvss.shares) (omega arith) ∙ sym (here zero)) nonzero.0 in
      let (shares, es, size, vs) =
        collect_shares-verify (suc i) keypairs ys
          (λ j. here (suc j) ∙ ap (get_elem? pvss.shares) (omega arith)) (omega arith) nonzero.1 in
      (share ∷ shares, rw (e, es) refl, ap suc size, rw (v, vs) refl)

  -- For a ciphertext that passes its check, an aggregated transcript, dealt or not, with a share for
  -- every keypair, and decryption keys that are not zero: every keypair makes a decryption share, and
  -- each passes its verification against the aggregated share and the public key, with the generator H.
  pub make_decryption_shares-verify_shares :
      (keypairs : List (Keypair E))
      → length keypairs ≤ length pvss.shares
      → All (λ k. k.decryption_key ≢ fr.zero) keypairs
      → (shares : List (DecryptionShareSimple E)) × (make_decryption_shares E P pvss c aad inverse
            keypairs
          ≡ ok shares)
        × (length shares ≡ length keypairs)
        × (verify_shares E gen2 c pvss.shares keypairs shares ≡ true)
  unfolding make_decryption_shares
  make_decryption_shares-verify_shares keypairs le nonzero =
      collect_shares-verify 0 keypairs pvss.shares (λ j. ap (get_elem? pvss.shares) (omega arith))
        le nonzero
