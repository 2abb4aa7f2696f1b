-- ===== src/Ferveo/Threshold/Joint.antt =====
-- The aggregate of dealt transcripts is a transcript of the sum of their polynomials
-- (ferveo/src/vss/pvss.rs, ferveo/src/dkg/pv.rs).
use nucypher_ferveo.Base.{
  ℕ, suc, ◌<◌, ◌≤◌, ◌≡◌, refl, sym, ap, ◌∙◌, some, List, [], ◌∷◌, map, arith,
}
use mathlib.Core.Path.{fun_ext}
use nucypher_ferveo.Base.Tests.{eq→==}
use nucypher_ferveo.Base.Outcome.{ok, ok_injective}
use nucypher_ferveo.Base.Lists.{length, get_elem?, get_elem?-map, All, length-map}
use nucypher_ferveo.Base.BTreeMap.{BTreeMap}
use nucypher_ferveo.Algebra.Field.{Field, ◌+◌, add_assoc, add-zero}
use nucypher_ferveo.Algebra.Space.{Group, Space, ◌⊕◌, ◌•◌, add-smul, zero-smul}
use nucypher_ferveo.Algebra.Engine.{Engine}
use nucypher_ferveo.Algebra.Poly.{eval, eval-zero, add_coeffs, eval-add_coeffs, length-add_coeffs}
use nucypher_ferveo.Subproduct.Multiexp.{fast_multiexp_lem}
use nucypher_ferveo.Ferveo.Common.{Validator}
use nucypher_ferveo.Ferveo.Session.{Marker, Pvss, AggregatedPvss, PubliclyVerifiableDkg}
use nucypher_ferveo.Ferveo.Pvss.{add_points, aggregate_from, aggregate_transcripts}
use nucypher_ferveo.Ferveo.Pvss.Dealing
use nucypher_ferveo.Ferveo.Pvss.Dealing.{Msm, encrypt_shares}
use nucypher_ferveo.Ferveo.Dkg.{sum_keys}
use nucypher_ferveo.Ferveo.Dkg.Sums.{FitDomain, add_points_total, length-add_points}

module _ {A G : Type 0} ⦃g : Group G⦄ where
  add_points-map :
      (h k : A → G) (xs : List A)
      → add_points (map h xs) (map k xs) ≡ some (map (λ x. h x ⊕ k x) xs)
  unfolding add_points
  add_points-map h k [] = refl
  add_points-map h k (x ∷ xs) = rw (add_points-map h k xs) refl

module _ (E : Engine) (M : Msm E) where
  open E use {Fr, G1, G2, gen1, gen2}

  instance abbrev fr : Field Fr
  fr = E.field

  instance abbrev g1 : Group G1
  g1 = E.group1

  instance abbrev g2 : Group G2
  g2 = E.group2

  instance abbrev s1 : Space Fr G1
  s1 = E.space1

  instance abbrev s2 : Space Fr G2
  s2 = E.space2

  -- The share of a validator for a function of the elements of the domain: its value at the element
  -- of the validator, encrypted to it.
  abbrev pub share_for : PubliclyVerifiableDkg E → (Fr → Fr) → Validator E → G2
  share_for dkg h v = h (dkg.domain.element v.share_index) • v.validator.public_key.encryption_key

  abbrev pub shares_for : PubliclyVerifiableDkg E → (Fr → Fr) → List G2
  shares_for dkg h = map (share_for dkg h) dkg.validators

  encrypt_shares-map :
      (dkg : PubliclyVerifiableDkg E) (phi : List Fr) (validators : List (Validator E))
      → All (λ v. v.share_index < dkg.domain.size) validators
      → encrypt_shares E M (map (eval phi) dkg.domain.elements) validators
        ≡ ok (map (share_for dkg (eval phi)) validators)
  unfolding encrypt_shares
  encrypt_shares-map dkg phi [] fit = refl
  encrypt_shares-map dkg phi (v ∷ validators) fit =
      rw
        (
          get_elem?-map dkg.domain.elements (eval phi) v.share_index
              (dkg.domain.get_elem?-elements v.share_index fit.0),
          fast_multiexp_lem M.msm2 (eval phi (dkg.domain.element v.share_index) ∷ [])
              v.validator.public_key.encryption_key,
          encrypt_shares-map dkg phi validators fit.1,
        )
        refl

  -- What is dealt for a polynomial.
  new-shares_for :
      (s c : Fr) (rest : List Fr) (dkg : PubliclyVerifiableDkg E)
      → FitDomain E dkg
      → length (c ∷ rest) ≤ dkg.domain.size
      → dkg.pvss_params.g ≡ gen1
      → Dealing.new E M {T = Marker.unaggregated} s (c ∷ rest) dkg
        ≡ ok (record {
          coeffs = map (λ a. a • gen1) (s ∷ rest);
          shares = shares_for dkg (eval (s ∷ rest));
          sigma = s • gen2;
        })
  unfolding Dealing.new
  new-shares_for s c rest dkg fit le generator =
      rw
        (
          dkg.domain.evaluate_over_domain_lem (s ∷ rest) le,
          encrypt_shares-map dkg (s ∷ rest) dkg.validators fit,
          eq→== (length (shares_for dkg (eval (s ∷ rest)))) (length dkg.validators)
              (length-map dkg.validators (share_for dkg (eval (s ∷ rest)))),
          fast_multiexp_lem M.msm1 (s ∷ rest) dkg.pvss_params.g,
        )
        (ap
          (λ p. ok (record {
            coeffs = map (λ a. a • p) (s ∷ rest);
            shares = shares_for dkg (eval (s ∷ rest));
            sigma = s • gen2;
          }))
          generator)

  -- The transcripts are dealt, each for a secret, and a random polynomial of n + 1 coefficients given
  -- by the first and the others.
  abbrev pub AreDealt :
      ℕ → PubliclyVerifiableDkg E → List (Fr × Fr × List Fr) → BTreeMap (Pvss E) → Type 0
  AreDealt n dkg [] [] = Unit
  AreDealt n dkg ((s, c, rest) ∷ deals) ((i, pvss) ∷ vss) =
      ((length rest ≡ n) × (Dealing.new E M s (c ∷ rest) dkg ≡ ok pvss)) × AreDealt n dkg deals vss
  AreDealt n dkg _ _ = ⊥

  -- The sum of the polynomials that are dealt.
  unfoldable pub joint : List (Fr × Fr × List Fr) → List Fr
  joint [] = []
  joint ((s, c, rest) ∷ deals) = add_coeffs (s ∷ rest) (joint deals)

  eval-joint_nil : (x : Fr) → eval (joint []) x ≡ fr.zero
  unfolding joint eval
  eval-joint_nil x = refl

  pub length-joint :
      (n : ℕ) (dkg : PubliclyVerifiableDkg E) (deals : List (Fr × Fr × List Fr))
      (vss : BTreeMap (Pvss E))
      → AreDealt n dkg deals vss
      → length (joint deals) ≤ suc n
  unfolding joint
  length-joint n dkg [] [] d = omega arith
  length-joint n dkg [] (e ∷ vss) d = absurd d
  length-joint n dkg (deal ∷ deals) [] d = absurd d
  length-joint n dkg ((s, c, rest) ∷ deals) ((i, pvss) ∷ vss) d =
      length-add_coeffs (suc n) (s ∷ rest) (joint deals) (omega (arith, d.0.0))
        (length-joint n dkg deals vss d.1)

  eval-joint :
      (s c : Fr) (rest : List Fr) (deals : List (Fr × Fr × List Fr)) (x : Fr)
      → eval (joint ((s, c, rest) ∷ deals)) x ≡ eval (s ∷ rest) x + eval (joint deals) x
  unfolding joint
  eval-joint s c rest deals x = eval-add_coeffs (s ∷ rest) (joint deals) x

  module _ (n : ℕ) (dkg : PubliclyVerifiableDkg E) (fit : FitDomain E dkg)
      (le : suc n ≤ dkg.domain.size) (generator : dkg.pvss_params.g ≡ gen1) where
    dealt_transcript :
        (s c : Fr) (rest : List Fr) (pvss : Pvss E)
        → length rest ≡ n
        → Dealing.new E M s (c ∷ rest) dkg ≡ ok pvss
        → pvss ≡ record {
          coeffs = map (λ a. a • gen1) (s ∷ rest);
          shares = shares_for dkg (eval (s ∷ rest));
          sigma = s • gen2;
        }
    dealt_transcript s c rest pvss size h =
        ok_injective (sym h ∙ new-shares_for s c rest dkg fit (omega (arith, size, le)) generator)

    -- The key of the session is the commitment to the constant of the sum.
    pub sum_keys-joint :
        (deals : List (Fr × Fr × List Fr)) (vss : BTreeMap (Pvss E))
        → AreDealt n dkg deals vss
        → sum_keys E vss ≡ ok (eval (joint deals) fr.zero • gen1)
    unfolding sum_keys
    sum_keys-joint [] [] d = ap ok (sym (unfold joint eval in zero-smul Fr gen1))
    sum_keys-joint [] (e ∷ vss) d = absurd d
    sum_keys-joint (deal ∷ deals) [] d = absurd d
    sum_keys-joint ((s, c, rest) ∷ deals) ((i, pvss) ∷ vss) d =
        rw
          (
            ap (λ p. get_elem? p.coeffs 0) (dealt_transcript s c rest pvss d.0.0 d.0.1),
            sum_keys-joint deals vss d.1,
          )
          (ap ok (
            sym (add-smul s (eval (joint deals) fr.zero) gen1)
            ∙ ap (λ k. k • gen1)
                (ap (λ k. k + eval (joint deals) fr.zero) (sym (eval-zero s rest))
                  ∙ sym (eval-joint s c rest deals fr.zero))))

    aggregate_from-shares_for :
        (coeffs : List G1) (h : Fr → Fr) (sigma : G2) (deals : List (Fr × Fr × List Fr))
        (vss : BTreeMap (Pvss E))
        → length coeffs ≡ suc n
        → AreDealt n dkg deals vss
        → (pvss : AggregatedPvss E) × (aggregate_from E coeffs (shares_for dkg h) sigma vss
            ≡ ok pvss)
          × (pvss.shares ≡ shares_for dkg (λ x. h x + eval (joint deals) x))
    unfolding aggregate_from
    aggregate_from-shares_for coeffs h sigma [] [] size d = (
      record { coeffs = coeffs; shares = shares_for dkg h; sigma = sigma },
      refl,
      ap (shares_for dkg)
          (fun_ext (λ x. sym (add-zero (h x)) ∙ ap (◌+◌ (h x)) (sym (eval-joint_nil x)))),
    )
    aggregate_from-shares_for coeffs h sigma [] (e ∷ vss) size d = absurd d
    aggregate_from-shares_for coeffs h sigma (deal ∷ deals) [] size d = absurd d
    aggregate_from-shares_for coeffs h sigma ((s, c, rest) ∷ deals) ((i, pvss) ∷ vss) size d =
        let made = dealt_transcript s c rest pvss d.0.0 d.0.1 in
        let (coeffs', added) = add_points_total coeffs pvss.coeffs (
          omega (
            arith,
            size,
            d.0.0,
            ap (λ p. length p.coeffs) made,
            length-map (s ∷ rest) (λ a. a • gen1),
          )) in
        let (total, aggregated, shares) =
          aggregate_from-shares_for coeffs' (λ x. h x + eval (s ∷ rest) x) (sigma ⊕ pvss.sigma)
            deals vss (omega (arith, size, length-add_points coeffs pvss.coeffs added)) d.1 in
        (
          total,
          rw
              (
                added,
                ap (λ p. add_points (shares_for dkg h) p.shares) made,
                add_points-map (share_for dkg h) (share_for dkg (eval (s ∷ rest))) dkg.validators,
                sums h (eval (s ∷ rest)),
              )
              aggregated,
          shares
              ∙ ap (shares_for dkg) (
                  fun_ext (λ x.
                    add_assoc (h x) (eval (s ∷ rest) x) (eval (joint deals) x)
                    ∙ ap (◌+◌ (h x)) (sym (eval-joint s c rest deals x)))),
        )
      where
        sums :
            (h k : Fr → Fr)
            → map (λ v. share_for dkg h v ⊕ share_for dkg k v) dkg.validators
              ≡ shares_for dkg (λ x. h x + k x)
        sums h k =
            ap (λ t. map t dkg.validators)
              (fun_ext (λ v. sym (
                add-smul (h (dkg.domain.element v.share_index))
                  (k (dkg.domain.element v.share_index)) v.validator.public_key.encryption_key)))

    -- The aggregate holds the shares of the sum.
    pub aggregate_transcripts-joint :
        (deals : List (Fr × Fr × List Fr)) (vss : BTreeMap (Pvss E))
        → 0 < length vss
        → AreDealt n dkg deals vss
        → (pvss : AggregatedPvss E) × (aggregate_transcripts E vss ≡ ok pvss)
          × (pvss.shares ≡ shares_for dkg (eval (joint deals)))
    unfolding aggregate_transcripts
    aggregate_transcripts-joint deals [] lt d = absurd (omega arith)
    aggregate_transcripts-joint [] (e ∷ vss) lt d = absurd d
    aggregate_transcripts-joint ((s, c, rest) ∷ deals) ((i, first) ∷ vss) lt d =
        let made = dealt_transcript s c rest first d.0.0 d.0.1 in
        let (pvss, aggregated, shares) =
          aggregate_from-shares_for first.coeffs (eval (s ∷ rest)) first.sigma deals vss
            (ap (λ p. length p.coeffs) made
              ∙ omega (arith, d.0.0, length-map (s ∷ rest) (λ a. a • gen1)))
            d.1 in
        (
          pvss,
          rw (ap (λ p. p.shares) made) aggregated,
          shares ∙ ap (shares_for dkg) (fun_ext (λ x. sym (eval-joint s c rest deals x))),
        )
