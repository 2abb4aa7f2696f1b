-- ===== src/Tpke/Setup.antt =====
-- `setup_simple` of tpke/src/lib.rs: a dealer's setup of the simple variant.
pub mod Participants
pub mod Fast
pub mod FastParticipants
use nucypher_ferveo.Base.{ℕ, suc, Option, none, some, List, [], ◌∷◌, map}
use nucypher_ferveo.Base.Tests.{leb}
use nucypher_ferveo.Base.Lists.{get_elem?}
use nucypher_ferveo.Base.Outcome.{Outcome, ok, err, panic, ◌>>=◌, ◌>>◌, unwrap, assert}
use nucypher_ferveo.Algebra.Field.{Field}
use nucypher_ferveo.Algebra.Space.{Group, Space, ◌•◌, minus}
use nucypher_ferveo.Algebra.Engine.{Engine}
use nucypher_ferveo.Algebra.Domain.{Domain, Domains, FixedBaseMsm}
use nucypher_ferveo.Subproduct.Multiexp.{fast_multiexp}
use nucypher_ferveo.Tpke.KeyShare.{PrivateKeyShare, blind}
use nucypher_ferveo.Tpke.Ciphertext.{TpkeResult}
use nucypher_ferveo.Tpke.Context.{PrivateDecryptionContextSimple, PublicDecryptionContextSimple}

module _ (E : Engine) where
  open E use {Fr, G1, G2, gen1, gen2}

  instance abbrev fr : Field Fr
  fr = E.field

  instance abbrev g1 : Group G1
  g1 = E.group1

  instance abbrev g2 : Group G2
  g2 = E.group2

  instance abbrev s1 : Space Fr G1
  s1 = E.space1

  instance abbrev s2 : Space Fr G2
  s2 = E.space2

  -- The two contexts of a participant, with the scalar `b` that is drawn for it and its inverse.
  unfoldable pub private_context : ℕ → G2 → Fr → Fr → PrivateDecryptionContextSimple E
  private_context index private b b_inv = record {
    index = index;
    setup_params = record {
      b = b;
      b_inv = b_inv;
      g = gen1;
      g_inv = minus gen1;
      h_inv = minus gen2;
      h = gen2;
    };
    private_key_share = record { private_key_share = private };
    public_decryption_contexts = [];
    validator_private_key = b;
  }

  unfoldable pub public_context : Fr → G1 → G2 → Fr → PublicDecryptionContextSimple E
  public_context domain public private b = record {
    domain = domain;
    public_key_share = record { public_key_share = public };
    blinded_key_share = blind E (record { private_key_share = private }) b;
    h = gen2;
    validator_public_key = b • gen2;
  }

  -- The loop over the participants from an index, which ends with the shortest of the lists; `b` gives
  -- the scalar that is drawn for an index.
  unfoldable pub make_contexts :
      (ℕ → Fr)
      → ℕ
      → List Fr
      → List G1
      → List G2
      → TpkeResult
          (List (PrivateDecryptionContextSimple E) × List (PublicDecryptionContextSimple E))
  make_contexts b index (domain ∷ shares_x) (public ∷ pubkey_shares) (private ∷ privkey_shares) = do
    b_inv ← unwrap (fr.inverse (b index))
    (privates, publics) ← make_contexts b (suc index) shares_x pubkey_shares privkey_shares
    ok (
      private_context index private (b index) b_inv ∷ privates,
      public_context domain public private (b index) ∷ publics,
    )
  make_contexts b index _ _ _ = ok ([], [])

  -- `private.public_decryption_contexts = public_contexts.clone()`
  unfoldable pub know_publics :
      List (PublicDecryptionContextSimple E)
      → PrivateDecryptionContextSimple E
      → PrivateDecryptionContextSimple E
  know_publics publics private = record private { public_decryption_contexts = publics }

  -- `threshold_poly` is the polynomial that is drawn.
  unfoldable pub setup_simple :
      FixedBaseMsm Fr G1
      → FixedBaseMsm Fr G2
      → Domains E
      → (ℕ → Fr)
      → ℕ
      → ℕ
      → List Fr
      → TpkeResult (G1 × G2 × List (PrivateDecryptionContextSimple E))
  setup_simple M1 M2 domains b threshold shares_num threshold_poly = do
    assert (leb threshold shares_num)
    fft_domain ← unwrap (domains.new shares_num)
    let evals : List Fr = fft_domain.evaluate_over_domain threshold_poly
    let pubkey_shares : List G1 = fast_multiexp M1 evals gen1
    _ ← unwrap (get_elem? evals 0)
    let privkey_shares : List G2 = fast_multiexp M2 evals gen2
    x ← unwrap (get_elem? threshold_poly 0)
    (privates, publics) ← make_contexts b 0 fft_domain.elements pubkey_shares privkey_shares
    ok (x • gen1, x • gen2, map (know_publics publics) privates)
