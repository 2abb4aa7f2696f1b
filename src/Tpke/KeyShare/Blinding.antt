-- ===== src/Tpke/KeyShare/Blinding.antt =====
-- The check of a blinded key share, tpke/src/key_share.rs.
use nucypher_ferveo.Base.{true, [], ◌∷◌, ◌≡◌, ◌≢◌, ◌↔◌, sym, ◌∙◌}
use nucypher_ferveo.Base.Tests.{is_yes→, →is_yes}
use nucypher_ferveo.Algebra.Field.{Field}
use nucypher_ferveo.Algebra.Space.{Group, Space, ◌⊕◌, ◌•◌, minus, add_left_cancel, smul_cancel}
use nucypher_ferveo.Algebra.Engine.{Engine, pairing_check_swap, pairing-gen1_injective}
use nucypher_ferveo.Tpke.KeyShare.{PublicKeyShare, BlindedKeyShare, verify_blinding}

module _ (E : Engine) where
  open E use {Fr, G1, G2, Fqk, gen1, gen2, pairing, product_of_pairings}

  instance abbrev fr : Field Fr
  fr = E.field

  instance abbrev g1 : Group G1
  g1 = E.group1

  instance abbrev g2 : Group G2
  g2 = E.group2

  instance abbrev gt : Group Fqk
  gt = E.groupt

  instance abbrev s1 : Space Fr G1
  s1 = E.space1

  instance abbrev s2 : Space Fr G2
  s2 = E.space2

  instance abbrev st : Space Fr Fqk
  st = E.spacet

  -- With a nonzero challenge, and the public share A = a·G, `verify_blinding` accepts exactly when the
  -- blinded share is a times the blinding key.
  pub verify_blinding_iff :
      (share : BlindedKeyShare E) (public : PublicKeyShare E) (alpha a : Fr)
      → alpha ≢ fr.zero
      → public.public_key_share ≡ a • gen1
      → (verify_blinding E share public alpha ≡ true)
        ↔ (share.blinded_key_share ≡ a • share.blinding_key)
  unfolding verify_blinding
  verify_blinding_iff share public alpha a ha hp =
      (λ e. cancel (check.0 (is_yes→ _ e)), λ e. →is_yes _ (check.1 (rw e both)))
    where
      open share use {blinding_key as key, blinded_key_share as blinded}

      check :
          (product_of_pairings (
              (minus gen1, key ⊕ alpha • blinded)
              ∷ (gen1 ⊕ alpha • public.public_key_share, key)
              ∷ [])
            ≡ gt.zero)
          ↔ (pairing (gen1 ⊕ alpha • public.public_key_share) key
              ≡ pairing gen1 (key ⊕ alpha • blinded))
      check = pairing_check_swap E _ _ _ _

      both :
          pairing (gen1 ⊕ alpha • public.public_key_share) key
          ≡ pairing gen1 (key ⊕ alpha • a • key)
      both = rw hp (
          simp (E.pairing-add_left, E.pairing-add_right, E.pairing-smul_left, E.pairing-smul_right))

      cancel :
          pairing (gen1 ⊕ alpha • public.public_key_share) key
            ≡ pairing gen1 (key ⊕ alpha • blinded)
          → blinded ≡ a • key
      cancel e = smul_cancel alpha blinded (a • key) ha (
          add_left_cancel key (alpha • blinded) (alpha • a • key)
            (pairing-gen1_injective E _ _ (sym e ∙ both)))
