-- ===== src/TpkeWasm/Setup.antt =====
-- `Setup` of tpke-wasm/src/lib.rs: the keys and the contexts of a dealer's setup.
use nucypher_ferveo.Base.{ℕ, Option, some, List, map}
use nucypher_ferveo.Base.Tests.{◌==◌}
use nucypher_ferveo.Base.Lists.{get_elem?}
use nucypher_ferveo.Base.Panics.{◌>>=◌, ◌>>◌, assert, unwrap_ok}
use nucypher_ferveo.Algebra.Field.{Field}
use nucypher_ferveo.Algebra.Space.{Group, Space}
use nucypher_ferveo.Algebra.Engine.{Engine}
use nucypher_ferveo.Algebra.Domain.{Domains, FixedBaseMsm}
use nucypher_ferveo.Tpke.Interface.{Primitives}
use nucypher_ferveo.Tpke.Context.{PrivateDecryptionContextFast, PublicDecryptionContextFast}
use nucypher_ferveo.Tpke.Setup.Fast.{setup_fast}
use nucypher_ferveo.Tpke.Api.Limbs.{Representation}
use nucypher_ferveo.Tpke.Api.Context as Context
use nucypher_ferveo.Tpke.Api.Context.{PrivateDecryptionContext}
use nucypher_ferveo.TpkeWasm.Ciphertext.{PublicKey, PrivateKey}

pub record Setup (E : Engine) : Type 0 where
  pub public_key : PublicKey E
  pub private_key : PrivateKey E
  pub private_contexts : List (PrivateDecryptionContext E)
  pub public_contexts : List (PublicDecryptionContextFast E)

module _ (E : Engine) (P : Primitives E) (R : Representation E) where
  open E use {Fr, G1, G2}

  instance abbrev fr : Field Fr
  fr = E.field

  instance abbrev g1 : Group G1
  g1 = E.group1

  instance abbrev g2 : Group G2
  g2 = E.group2

  instance abbrev s1 : Space Fr G1
  s1 = E.space1

  instance abbrev s2 : Space Fr G2
  s2 = E.space2

  -- What a participant is given of its context.
  unfoldable pub api_context : PrivateDecryptionContextFast E → PrivateDecryptionContext E
  api_context x = Context.new E P R x.setup_params.b_inv x.index

  -- The scalars and the polynomial are those that `setup_fast` draws.
  unfoldable pub new :
      FixedBaseMsm Fr G1
      → FixedBaseMsm Fr G2
      → Domains E
      → (ℕ → Fr)
      → List Fr
      → ℕ
      → ℕ
      → Option (Setup E)
  new M1 M2 domains b threshold_poly threshold shares_num = do
    (public_key, private_key, contexts) ←
        unwrap_ok (setup_fast E M1 M2 domains b threshold shares_num threshold_poly)
    let private_contexts : List (PrivateDecryptionContext E) = map api_context contexts
    first ← get_elem? contexts 0
    some (record {
      public_key = record { point = public_key };
      private_key = record { point = private_key };
      private_contexts = private_contexts;
      public_contexts = first.public_decryption_contexts;
    })

  unfoldable pub private_context_at : Setup E → ℕ → Option (PrivateDecryptionContext E)
  private_context_at setup index = do
    context ← get_elem? setup.private_contexts index
    assert (context.decrypter_index == index)
    some context

  unfoldable pub decrypter_indexes : Setup E → List ℕ
  decrypter_indexes setup = map (λ x. x.decrypter_index) setup.private_contexts
