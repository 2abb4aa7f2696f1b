-- ===== src/Ferveo/Pvss.antt =====
-- ferveo/src/vss/pvss.rs: dealing, verification and aggregation of transcripts.
pub mod Dealing
pub mod Verified
pub mod Shares
use nucypher_ferveo.Base.{ℕ, Bool, true, false, Option, none, some, List, [], ◌∷◌, map}
use nucypher_ferveo.Base.Tests.{is_yes, ◌==◌, if◌then◌else◌}
use nucypher_ferveo.Base.Lists.{length, get_elem?}
use nucypher_ferveo.Base.Outcome.{Outcome, ok, err, panic, ◌>>=◌, ◌>>◌, unwrap, ensure}
use nucypher_ferveo.Base.Words.{incr_u32}
use nucypher_ferveo.Base.BTreeMap.{BTreeMap}
use nucypher_ferveo.Algebra.Field.{Field}
use nucypher_ferveo.Algebra.Space.{Group, Space, ◌⊕◌, ◌•◌, minus}
use nucypher_ferveo.Algebra.Engine.{Engine}
use nucypher_ferveo.Algebra.Domain.{Domain, FixedBaseMsm}
use nucypher_ferveo.Subproduct.Multiexp.{fast_multiexp}
use nucypher_ferveo.Ferveo.Common.{Validator}
use nucypher_ferveo.Ferveo.Session.{
  Marker, unaggregated, aggregated, PubliclyVerifiableParams, PubliclyVerifiableSs, Pvss,
  AggregatedPvss, PubliclyVerifiableDkg, DkgError, keys_not_announced, aggregation_mismatch,
}

abbrev pub DkgResult : Type 0 → Type 0
DkgResult A = Outcome DkgError A

-- `*a += b` along two lists; `zip_eq` panics where their lengths differ.
unfoldable pub add_points {ℓ} : {G : Type ℓ} ⦃g : Group G⦄ → List G → List G → Option (List G)
add_points [] [] = some []
add_points [] (b ∷ bs) = none
add_points (a ∷ as_) [] = none
add_points (a ∷ as_) (b ∷ bs) = elim (add_points as_ bs) [
  | none ↦ none
  | some cs ↦ some ((a ⊕ b) ∷ cs)
]

module _ (E : Engine) where
  open E use {Fr, G1, G2, Fqk, gen1, gen2, pairing}

  instance abbrev fr : Field Fr
  fr = E.field

  instance abbrev g1 : Group G1
  g1 = E.group1

  instance abbrev g2 : Group G2
  g2 = E.group2

  instance abbrev s1 : Space Fr G1
  s1 = E.space1

  instance abbrev s2 : Space Fr G2
  s2 = E.space2

  -- `PubliclyVerifiableParams::g_inv`
  unfoldable pub g_inv : PubliclyVerifiableParams E → G1
  g_inv params = minus params.g

  unfoldable pub verify_optimistic : {T : Marker} → PubliclyVerifiableSs E T → DkgResult Bool
  verify_optimistic pvss = do
    f_0 ← unwrap (get_elem? pvss.coeffs 0)
    ok (is_yes (E.groupt.dec_eq (pairing f_0 gen2) (pairing gen1 pvss.sigma)))

  -- The test of `verify_full` on each validator and its share, which stops at the first that fails.
  unfoldable pub check_shares : G1 → List G1 → List (Validator E) → List G2 → DkgResult Bool
  check_shares g commitment (validator ∷ validators) (y_i ∷ shares) = do
    a_i ← unwrap (get_elem? commitment validator.share_index)
    let ek_i : G2 = validator.validator.public_key.encryption_key
    let rest = check_shares g commitment validators shares
    if is_yes (E.groupt.dec_eq (pairing g y_i) (pairing a_i ek_i)) then rest else ok false
  check_shares g commitment _ _ = ok true

  unfoldable pub verify_full :
      {T : Marker} → PubliclyVerifiableSs E T → PubliclyVerifiableDkg E → DkgResult Bool
  verify_full pvss dkg =
      let commitment = dkg.domain.fft_in_place pvss.coeffs in
      check_shares dkg.pvss_params.g commitment dkg.validators pvss.shares

  -- The loop of `verify_aggregation`: the sum of the first coefficients, and their number.
  unfoldable pub sum_first_coeffs : G1 → ℕ → BTreeMap (Pvss E) → DkgResult (G1 × ℕ)
  sum_first_coeffs y shares_total [] = ok (y, shares_total)
  sum_first_coeffs y shares_total ((_, pvss) ∷ vss) = do
    f_0 ← unwrap (get_elem? pvss.coeffs 0)
    sum_first_coeffs (y ⊕ f_0) (incr_u32 shares_total) vss

  -- The result of `verify_full` is not looked at, as in the source.
  unfoldable pub verify_aggregation : AggregatedPvss E → PubliclyVerifiableDkg E → DkgResult ℕ
  verify_aggregation pvss dkg = do
    _ ← verify_full pvss dkg
    (y, shares_total) ← sum_first_coeffs g1.zero 0 dkg.vss
    f_0 ← unwrap (get_elem? pvss.coeffs 0)
    if is_yes (E.group1.dec_eq y f_0) then ok shares_total else err aggregation_mismatch

  -- The loop of `aggregate` over the transcripts after the first.
  unfoldable pub aggregate_from :
      List G1 → List G2 → G2 → BTreeMap (Pvss E) → DkgResult (AggregatedPvss E)
  aggregate_from coeffs shares sigma [] =
      ok (record { coeffs = coeffs; shares = shares; sigma = sigma })
  aggregate_from coeffs shares sigma ((_, next) ∷ vss) = do
    coeffs' ← unwrap (add_points coeffs next.coeffs)
    shares' ← unwrap (add_points shares next.shares)
    aggregate_from coeffs' shares' (sigma ⊕ next.sigma) vss

  unfoldable pub aggregate_transcripts : BTreeMap (Pvss E) → DkgResult (AggregatedPvss E)
  aggregate_transcripts [] = panic
  aggregate_transcripts ((_, first_pvss) ∷ rest) =
      aggregate_from first_pvss.coeffs first_pvss.shares first_pvss.sigma rest

  unfoldable pub aggregate : PubliclyVerifiableDkg E → DkgResult (AggregatedPvss E)
  unfolding aggregate_transcripts
  aggregate dkg = aggregate_transcripts dkg.vss
