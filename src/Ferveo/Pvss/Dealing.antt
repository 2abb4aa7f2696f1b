-- ===== src/Ferveo/Pvss/Dealing.antt =====
-- `PubliclyVerifiableSS::new` of ferveo/src/vss/pvss.rs.
use nucypher_ferveo.Base.{List, [], ◌∷◌}
use nucypher_ferveo.Base.Tests.{◌==◌}
use nucypher_ferveo.Base.Lists.{length, get_elem?}
use nucypher_ferveo.Base.Outcome.{ok, panic, ◌>>=◌, ◌>>◌, unwrap, ensure}
use nucypher_ferveo.Algebra.Field.{Field}
use nucypher_ferveo.Algebra.Space.{Group, Space, ◌•◌}
use nucypher_ferveo.Algebra.Engine.{Engine}
use nucypher_ferveo.Algebra.Domain.{FixedBaseMsm}
use nucypher_ferveo.Subproduct.Multiexp.{fast_multiexp}
use nucypher_ferveo.Ferveo.Common.{Validator}
use nucypher_ferveo.Ferveo.Session.{
  Marker, PubliclyVerifiableSs, PubliclyVerifiableDkg, keys_not_announced,
}
use nucypher_ferveo.Ferveo.Pvss.{DkgResult}

-- The multiplications of many scalars with one base, in the two groups.
pub record Msm (E : Engine) : Type 1 where
  pub msm1 : FixedBaseMsm E.Fr E.G1 ⦃f = E.field⦄ ⦃g = E.group1⦄ ⦃s = E.space1⦄
  pub msm2 : FixedBaseMsm E.Fr E.G2 ⦃f = E.field⦄ ⦃g = E.group2⦄ ⦃s = E.space2⦄

module _ (E : Engine) (M : Msm E) where
  open E use {Fr, G1, G2, gen2}

  instance abbrev fr : Field Fr
  fr = E.field

  instance abbrev g1 : Group G1
  g1 = E.group1

  instance abbrev g2 : Group G2
  g2 = E.group2

  instance abbrev s1 : Space Fr G1
  s1 = E.space1

  instance abbrev s2 : Space Fr G2
  s2 = E.space2

  -- `phi.coeffs[0] = *s`
  unfoldable pub set_secret : List Fr → Fr → DkgResult (List Fr)
  set_secret [] s = panic
  set_secret (_ ∷ coeffs) s = ok (s ∷ coeffs)

  -- `ek_i^{eval_i}` for every validator.
  unfoldable pub encrypt_shares : List Fr → List (Validator E) → DkgResult (List G2)
  encrypt_shares evals [] = ok []
  encrypt_shares evals (val ∷ validators) = do
    eval_i ← unwrap (get_elem? evals val.share_index)
    share ←
        unwrap
          (get_elem? (fast_multiexp M.msm2 (eval_i ∷ []) val.validator.public_key.encryption_key) 0)
    shares ← encrypt_shares evals validators
    ok (share ∷ shares)

  -- `random` is the polynomial that `DensePolynomial::rand` draws.
  unfoldable pub new :
      {T : Marker} → Fr → List Fr → PubliclyVerifiableDkg E → DkgResult (PubliclyVerifiableSs E T)
  unfolding set_secret
  new s random dkg = do
    phi ← set_secret random s
    let evals = dkg.domain.evaluate_over_domain phi
    let coeffs = fast_multiexp M.msm1 phi dkg.pvss_params.g
    shares ← encrypt_shares evals dkg.validators
    ensure (length shares == length dkg.validators) keys_not_announced
    ok (record { coeffs = coeffs; shares = shares; sigma = s • gen2 })
