-- ===== src/Tpke/KeyShare.antt =====
-- tpke/src/key_share.rs: the shares of the public and the private key, and blinding.
pub mod Blinding
use nucypher_ferveo.Base.{Bool, List, [], ◌∷◌}
use nucypher_ferveo.Base.Tests.{is_yes}
use nucypher_ferveo.Algebra.Field.{Field, neg}
use nucypher_ferveo.Algebra.Space.{Group, Space, ◌⊕◌, ◌•◌, minus}
use nucypher_ferveo.Algebra.Engine.{Engine}

pub record PublicKeyShare (E : Engine) : Type 0 where
  pub public_key_share : E.G1

pub record BlindedKeyShare (E : Engine) : Type 0 where
  pub blinding_key : E.G2
  pub blinded_key_share : E.G2
  pub blinding_key_prepared : E.G2

pub record PrivateKeyShare (E : Engine) : Type 0 where
  pub private_key_share : E.G2

module _ (E : Engine) where
  open E use {Fr, G1, G2, Fqk, gen1, gen2, product_of_pairings}

  instance abbrev fr : Field Fr
  fr = E.field

  instance abbrev g1 : Group G1
  g1 = E.group1

  instance abbrev g2 : Group G2
  g2 = E.group2

  instance abbrev s1 : Space Fr G1
  s1 = E.space1

  instance abbrev s2 : Space Fr G2
  s2 = E.space2

  -- `alpha` is the scalar that `verify_blinding` draws.
  unfoldable pub verify_blinding : BlindedKeyShare E → PublicKeyShare E → Fr → Bool
  verify_blinding share public alpha =
      let alpha_a : G1 = gen1 ⊕ alpha • public.public_key_share in
      let alpha_z : G2 = share.blinding_key ⊕ alpha • share.blinded_key_share in
      is_yes (
        E.groupt.dec_eq
          (product_of_pairings ((minus gen1, alpha_z) ∷ (alpha_a, share.blinding_key) ∷ []))
          E.groupt.zero)

  unfoldable pub multiply_by_omega_inv : BlindedKeyShare E → Fr → BlindedKeyShare E
  multiply_by_omega_inv share omega_inv = record share {
    blinded_key_share = neg omega_inv • share.blinded_key_share;
  }

  unfoldable pub blind : PrivateKeyShare E → Fr → BlindedKeyShare E
  blind share b = record {
    blinding_key = b • gen2;
    blinded_key_share = b • share.private_key_share;
    blinding_key_prepared = b • gen2;
  }
