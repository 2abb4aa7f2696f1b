-- ===== src/Ferveo/Common.antt =====
-- ferveo-common/src: validators and their session keys.
use Prim.Native.String.{String}
use text.Mathlib.Text.{◌==◌ as str_eq}
use nucypher_ferveo.Base.{ℕ, Bool, ◌&&◌}
use nucypher_ferveo.Base.Tests.{is_yes}
use nucypher_ferveo.Algebra.Field.{Field}
use nucypher_ferveo.Algebra.Space.{Group, Space, ◌•◌}
use nucypher_ferveo.Algebra.Engine.{Engine}

pub record PublicKey (E : Engine) : Type 0 where
  pub encryption_key : E.G2

pub record Keypair (E : Engine) : Type 0 where
  pub decryption_key : E.Fr

pub record ExternalValidator (E : Engine) : Type 0 where
  pub address : String
  pub public_key : PublicKey E

pub record Validator (E : Engine) : Type 0 where
  pub validator : ExternalValidator E
  pub share_index : ℕ

module _ (E : Engine) where
  open E use {Fr, G2, gen2}

  instance abbrev fr : Field Fr
  fr = E.field

  instance abbrev g2 : Group G2
  g2 = E.group2

  instance abbrev s2 : Space Fr G2
  s2 = E.space2

  -- `PublicKey::default`
  unfoldable pub default_public_key : PublicKey E
  default_public_key = record { encryption_key = gen2 }

  -- `Keypair::public`
  unfoldable pub public : Keypair E → PublicKey E
  public keypair = record { encryption_key = keypair.decryption_key • gen2 }

  -- The derived `PartialEq` of validators.
  unfoldable pub same_validator : ExternalValidator E → ExternalValidator E → Bool
  same_validator a b =
      str_eq a.address b.address
      && is_yes (E.group2.dec_eq a.public_key.encryption_key b.public_key.encryption_key)
