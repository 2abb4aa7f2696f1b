-- ===== src/Tpke/Setup/Fast.antt =====
-- `setup_fast` of tpke/src/lib.rs: a dealer's setup of the fast variant.
use nucypher_ferveo.Base.{ℕ, zero, suc, List, [], ◌∷◌, map}
use nucypher_ferveo.Base.Tests.{leb}
use nucypher_ferveo.Base.Lists.{get_elem?}
use nucypher_ferveo.Base.Outcome.{ok, ◌>>=◌, ◌>>◌, unwrap, assert}
use nucypher_ferveo.Algebra.Field.{Field, ◌*◌}
use nucypher_ferveo.Algebra.Space.{Group, Space, ◌•◌, minus}
use nucypher_ferveo.Algebra.Engine.{Engine}
use nucypher_ferveo.Algebra.Domain.{Domain, Domains, FixedBaseMsm}
use nucypher_ferveo.Subproduct.Multiexp.{fast_multiexp}
use nucypher_ferveo.Tpke.KeyShare.{blind, multiply_by_omega_inv}
use nucypher_ferveo.Tpke.Ciphertext.{TpkeResult}
use nucypher_ferveo.Tpke.Context.{PrivateDecryptionContextFast, PublicDecryptionContextFast}

module _ (E : Engine) where
  open E use {Fr, G1, G2, gen1, gen2}

  instance abbrev fr : Field Fr
  fr = E.field

  instance abbrev g1 : Group G1
  g1 = E.group1

  instance abbrev g2 : Group G2
  g2 = E.group2

  instance abbrev s1 : Space Fr G1
  s1 = E.space1

  instance abbrev s2 : Space Fr G2
  s2 = E.space2

  -- The loop that fills `domain_points` and `domain_points_inv`, from the points reached.
  unfoldable pub domain_points_from : Domain E → ℕ → Fr → Fr → List Fr × List Fr
  domain_points_from fft_domain zero point point_inv = ([], [])
  domain_points_from fft_domain (suc n) point point_inv =
      let (points, points_inv) =
        domain_points_from fft_domain n (point * fft_domain.group_gen)
          (point_inv * fft_domain.group_gen_inv) in
      (point ∷ points, point_inv ∷ points_inv)

  -- The two contexts of a participant, with the scalar `b` that is drawn for it and its inverse.
  unfoldable pub private_context_fast : ℕ → G2 → Fr → Fr → PrivateDecryptionContextFast E
  private_context_fast index private b b_inv = record {
    index = index;
    setup_params = record {
      b = b;
      b_inv = b_inv;
      g = gen1;
      h_inv = minus gen2;
      g_inv = minus gen1;
      h = gen2;
    };
    private_key_share = record { private_key_share = private };
    public_decryption_contexts = [];
  }

  unfoldable pub public_context_fast : Fr → Fr → G1 → G2 → Fr → PublicDecryptionContextFast E
  public_context_fast domain domain_inv public private b = record {
    domain = domain;
    public_key_share = record { public_key_share = public };
    blinded_key_share =
        multiply_by_omega_inv E (blind E (record { private_key_share = private }) b) domain_inv;
    lagrange_n_0 = domain;
    h_inv = minus gen2;
  }

  -- The loop over the participants from an index, which ends with the shortest of the lists; `b` gives
  -- the scalar that is drawn for an index.
  unfoldable pub make_contexts_fast :
      (ℕ → Fr)
      → ℕ
      → List Fr
      → List Fr
      → List G1
      → List G2
      → TpkeResult (List (PrivateDecryptionContextFast E) × List (PublicDecryptionContextFast E))
  make_contexts_fast b index (domain ∷ points) (domain_inv ∷ points_inv) (public ∷ pubkey_shares)
        (private ∷ privkey_shares) =
      do
        b_inv ← unwrap (fr.inverse (b index))
        (privates, publics) ←
            make_contexts_fast b (suc index) points points_inv pubkey_shares privkey_shares
        ok (
          private_context_fast index private (b index) b_inv ∷ privates,
          public_context_fast domain domain_inv public private (b index) ∷ publics,
        )
  make_contexts_fast b index _ _ _ _ = ok ([], [])

  -- `private.public_decryption_contexts = public_contexts.clone()`
  unfoldable pub know_publics_fast :
      List (PublicDecryptionContextFast E)
      → PrivateDecryptionContextFast E
      → PrivateDecryptionContextFast E
  know_publics_fast publics private = record private { public_decryption_contexts = publics }

  -- `threshold_poly` is the polynomial that is drawn.
  unfoldable pub setup_fast :
      FixedBaseMsm Fr G1
      → FixedBaseMsm Fr G2
      → Domains E
      → (ℕ → Fr)
      → ℕ
      → ℕ
      → List Fr
      → TpkeResult (G1 × G2 × List (PrivateDecryptionContextFast E))
  setup_fast M1 M2 domains b threshold shares_num threshold_poly = do
    assert (leb threshold shares_num)
    fft_domain ← unwrap (domains.new shares_num)
    let evals : List Fr = fft_domain.evaluate_over_domain threshold_poly
    let pubkey_shares : List G1 = fast_multiexp M1 evals gen1
    _ ← unwrap (get_elem? evals 0)
    let privkey_shares : List G2 = fast_multiexp M2 evals gen2
    x ← unwrap (get_elem? threshold_poly 0)
    let points : List Fr × List Fr = domain_points_from fft_domain shares_num fr.one fr.one
    (privates, publics) ← make_contexts_fast b 0 points.0 points.1 pubkey_shares privkey_shares
    ok (x • gen1, x • gen2, map (know_publics_fast publics) privates)
