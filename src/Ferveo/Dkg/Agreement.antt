-- ===== src/Ferveo/Dkg/Agreement.antt =====
-- The verification of aggregates by a session (ferveo/src/dkg/pv.rs, ferveo/src/vss/pvss.rs).
use nucypher_ferveo.Base.{ℕ, suc, ◌<◌, ◌≤◌, ◌≡◌, refl, ap, true, some, List, [], ◌∷◌, arith}
use mathlib.Core.Path.{subst}
use nucypher_ferveo.Base.Tests.{→is_yes, ltb_of_ge}
use nucypher_ferveo.Base.Outcome.{ok}
use nucypher_ferveo.Base.Lists.{length, get_elem?, All}
use nucypher_ferveo.Base.Words.{u32_mod}
use nucypher_ferveo.Base.BTreeMap.{BTreeMap, length-le}
use nucypher_ferveo.Algebra.Space.{Group, ◌⊕◌, zero-add}
use nucypher_ferveo.Algebra.Engine.{Engine}
use nucypher_ferveo.Ferveo.Common.{ExternalValidator}
use nucypher_ferveo.Ferveo.Session.{
  dealt, Pvss, AggregatedPvss, PubliclyVerifiableDkg, Aggregation, Message,
}
use nucypher_ferveo.Ferveo.Pvss
use nucypher_ferveo.Ferveo.Pvss.{verify_full, verify_aggregation, sum_first_coeffs}
use nucypher_ferveo.Ferveo.Dkg
use nucypher_ferveo.Ferveo.Dkg.{
  minimum_shares, is_dealt, verify_aggregate, verify_message, final_key, sum_keys,
}
use nucypher_ferveo.Ferveo.Dkg.Sums.{
  FitDomain, verify_full_total, sum_first_coeffs-sum_keys, aggregate_transcripts-head,
  length-aggregate_transcripts, Uniform, sum_keys_total, aggregate_transcripts_total,
}
use nucypher_ferveo.Ferveo.Dkg.Invariant.{IsWellFormed, StateAgrees, enough}

module _ (E : Engine) where
  open E use {G1, G2}

  instance abbrev g1 : Group G1
  g1 = E.group1

  -- The verification of an aggregate of the transcripts of the session counts them.
  verify_aggregation-ok :
      (dkg : PubliclyVerifiableDkg E) (pvss : AggregatedPvss E) {key : G1}
      → FitDomain E dkg
      → length pvss.coeffs ≤ dkg.domain.size
      → length dkg.vss < u32_mod
      → sum_keys E dkg.vss ≡ ok key
      → get_elem? pvss.coeffs 0 ≡ some key
      → verify_aggregation E pvss dkg ≡ ok (length dkg.vss)
  unfolding verify_aggregation
  verify_aggregation-ok dkg pvss {key} fit short few k head =
      let (b, full) = verify_full_total E pvss dkg fit short in
      rw
        (
          full,
          sum_first_coeffs-sum_keys E g1.zero 0 dkg.vss k (omega (arith, few)),
          head,
          →is_yes (E.group1.dec_eq (g1.zero ⊕ key) key) (zero-add key),
        )
        (ap ok (omega arith))

  accepted :
      (dkg : PubliclyVerifiableDkg E) (sender : ExternalValidator E) (aggregation : Aggregation E)
      → is_dealt E dkg.state ≡ true
      → verify_aggregation E aggregation.vss dkg ≡ ok (length dkg.vss)
      → sum_keys E dkg.vss ≡ ok aggregation.final_key
      → minimum_shares dkg.params ≤ length dkg.vss
      → verify_message E dkg sender (Message.aggregate aggregation) ≡ ok tt
  unfolding verify_message verify_aggregate final_key
  accepted dkg sender aggregation allowed verified k le =
      rw
        (
          allowed,
          verified,
          ltb_of_ge (length dkg.vss) (minimum_shares dkg.params) le,
          k,
          →is_yes (E.group1.dec_eq aggregation.final_key aggregation.final_key) refl,
        )
        refl

  -- A well-formed session in `Dealt` aggregates its transcripts, and accepts the result from any
  -- sender. The transcripts have one and the same number of coefficients, at least one and at most the
  -- size of the domain, and one and the same number of shares; the indices of the validators are those
  -- of elements of the domain.
  pub verify_message-aggregate :
      (dkg : PubliclyVerifiableDkg E) (sender : ExternalValidator E) (n m : ℕ)
      → IsWellFormed E dkg
      → dkg.state ≡ dealt
      → FitDomain E dkg
      → suc n ≤ dkg.domain.size
      → Uniform E n m dkg.vss
      → (message : Message E) × (Dkg.aggregate E dkg ≡ ok message)
        × (verify_message E dkg sender message ≡ ok tt)
  unfolding Dkg.aggregate Pvss.aggregate final_key
  verify_message-aggregate dkg sender n m w state fit le uniform =
      let (key, k) = sum_keys_total E n m dkg.vss uniform in
      let (pvss, p) = aggregate_transcripts_total E n m dkg.vss some_transcript uniform in
      (
        Message.aggregate (record { vss = pvss; final_key = key }),
        rw (state, k, p) refl,
        accepted dkg sender (record { vss = pvss; final_key = key }) (ap (is_dealt E) state)
            (verify_aggregation-ok dkg pvss fit
              (length-aggregate_transcripts E dkg.domain.size dkg.vss
                (shorter n m dkg.vss le uniform) p k)
              few k (aggregate_transcripts-head E dkg.vss p k))
            k (enough E dkg.params dkg.vss dkg.state (ap (is_dealt E) state) w.state_agrees),
      )
    where
      agrees : StateAgrees E dkg.params dkg.vss dealt
      agrees = subst (StateAgrees E dkg.params dkg.vss) state w.state_agrees

      some_transcript : 0 < length dkg.vss
      some_transcript = agrees.1

      few : length dkg.vss < u32_mod
      few = omega (
        arith,
        length-le (length dkg.validators) dkg.vss w.vss-IsSorted w.keys_lt,
        w.few_validators,
      )

      shorter :
          (n m : ℕ) (vss : BTreeMap (Pvss E))
          → suc n ≤ dkg.domain.size
          → Uniform E n m vss
          → All (λ e. length e.1.coeffs ≤ dkg.domain.size) vss
      shorter n m [] le u = tt
      shorter n m (e ∷ vss) le u = (omega (arith, u.0.0), shorter n m vss le u.1)

  -- The verdict on an aggregate does not depend on its shares and on its proof of knowledge: with any
  -- others in their place the outcome is the same. The indices of the validators are those of elements
  -- of the domain, and the aggregate has no more coefficients than the domain has elements.
  pub verify_message-shares :
      (dkg : PubliclyVerifiableDkg E) (sender : ExternalValidator E) (aggregation : Aggregation E)
      (shares : List G2) (sigma : G2)
      → FitDomain E dkg
      → length aggregation.vss.coeffs ≤ dkg.domain.size
      → verify_message E dkg sender (
          Message.aggregate (record aggregation {
            vss = record aggregation.vss { shares = shares; sigma = sigma };
          }))
        ≡ verify_message E dkg sender (Message.aggregate aggregation)
  unfolding verify_message verify_aggregate verify_aggregation
  verify_message-shares dkg sender aggregation shares sigma fit short =
      let (b, e) =
        verify_full_total E (record aggregation.vss { shares = shares; sigma = sigma }) dkg fit
          short in
      let (c, f) = verify_full_total E aggregation.vss dkg fit short in rw (e, f) refl
