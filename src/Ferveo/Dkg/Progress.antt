-- ===== src/Ferveo/Dkg/Progress.antt =====
-- A session can finish (ferveo/src/dkg/pv.rs): the validators without a transcript deal one each, and
-- the transcripts are aggregated.
use Prim.Native.Nat.{◌+◌}
use mathlib.Core.Path.{subst}
use nucypher_ferveo.Base.{
  ℕ, zero, suc, ◌<◌, ◌≤◌, ◌≡◌, inl, inr, refl, sym, ap, ◌∙◌, Bool, true, false, some, [], ◌∷◌,
  arith,
}
use nucypher_ferveo.Base.Tests.{leb, leb→le, leb→gt, Bool-cases, if◌then◌else◌}
use nucypher_ferveo.Base.Lists.{length, get_elem?, get_elem?-lt, All}
use nucypher_ferveo.Base.Outcome.{ok, >>=-eq-ok, ok_injective}
use nucypher_ferveo.Base.Words.{as_u32, incr_u32}
use nucypher_ferveo.Base.BTreeMap.{
  BTreeMap, insert, contains_key, contains_key-insert, contains_key-insert_keep, length-ge,
  All-insert,
}
use nucypher_ferveo.Algebra.Engine.{Engine}
use nucypher_ferveo.Ferveo.Common.{ExternalValidator, Validator}
use nucypher_ferveo.Ferveo.Session.{
  Params, DkgState, sharing, dealt, success, invalid, Pvss, PubliclyVerifiableDkg, Aggregation,
  Message, not_enough_transcripts,
}
use nucypher_ferveo.Ferveo.Pvss
use nucypher_ferveo.Ferveo.Pvss.{verify_optimistic}
use nucypher_ferveo.Ferveo.Dkg
use nucypher_ferveo.Ferveo.Dkg.{
  position, minimum_shares, is_dealt, is_sharing_or_dealt, verify_message, verify_deal, count_share,
  apply_message, final_key, sum_keys,
}
use nucypher_ferveo.Ferveo.Dkg.Senders.{position-get_elem?, position-same_validator}
use nucypher_ferveo.Ferveo.Dkg.Sums.{Uniform, FitDomain}
use nucypher_ferveo.Ferveo.Dkg.Verified.{
  guarded, after_deal, apply_message-deal, apply_message-verify_message,
}
use nucypher_ferveo.Ferveo.Dkg.Agreement.{verify_message-aggregate}
use nucypher_ferveo.Ferveo.Dkg.Invariant.{
  IsWellFormed, StateAgrees, Step, message as message_step, Reachable, here, next,
  Step-IsWellFormed,
}

module _ (E : Engine) where
  -- A step before others.
  first_step :
      {dkg between after : PubliclyVerifiableDkg E}
      → Step E dkg between
      → Reachable E between after
      → Reachable E dkg after
  first_step step here = next here step
  first_step step (next run last) = next (first_step step run) last

  -- A validator without a transcript deals one that passes the optimistic verification.
  deal-Step :
      (dkg : PubliclyVerifiableDkg E) (index : ℕ) (v : Validator E) (pvss : Pvss E)
      → IsWellFormed E dkg
      → is_sharing_or_dealt E dkg.state ≡ true
      → get_elem? dkg.validators index ≡ some v
      → contains_key (as_u32 index) dkg.vss ≡ false
      → verify_optimistic E pvss ≡ ok true
      → Step E dkg (after_deal E dkg index pvss)
  unfolding verify_message verify_deal
  deal-Step dkg index v pvss w allowed at fresh valid =
      let found = position-get_elem? E dkg.validators index v w.addresses-Distinct at in
      message_step dkg (after_deal E dkg index pvss) v.validator (Message.deal pvss)
        (rw (allowed, found, fresh, valid) refl)
        (apply_message-deal E dkg v.validator pvss allowed
          (position-same_validator E v.validator dkg.validators w.addresses-Distinct found))

  still_allowed :
      (enough : ℕ) (state : DkgState E)
      → is_sharing_or_dealt E state ≡ true
      → is_sharing_or_dealt E (count_share E enough state) ≡ true
  unfolding count_share
  still_allowed enough (sharing accumulated_shares block) h =
      chosen (leb enough (incr_u32 accumulated_shares))
    where
      chosen :
          (b : Bool)
          → is_sharing_or_dealt E (if b then dealt else sharing (incr_u32 accumulated_shares) block)
            ≡ true
      chosen true = refl
      chosen false = refl
  still_allowed enough dealt h = refl
  still_allowed enough (success key) h = cc
  still_allowed enough invalid h = cc

  -- With a transcript of each validator the session is dealt.
  must_be_dealt :
      (params : Params) (vss : BTreeMap (Pvss E)) (state : DkgState E) (n : ℕ)
      → is_sharing_or_dealt E state ≡ true
      → StateAgrees E params vss state
      → n ≤ length vss
      → minimum_shares params ≤ n
      → 1 ≤ n
      → state ≡ dealt
  must_be_dealt params vss (sharing accumulated_shares block) n h (_, inl none_yet) all le pos =
      absurd (omega arith)
  must_be_dealt params vss (sharing accumulated_shares block) n h (_, inr few) all le pos =
      absurd (omega arith)
  must_be_dealt params vss dealt n h s all le pos = refl
  must_be_dealt params vss (success key) n h s all le pos = cc
  must_be_dealt params vss invalid n h s all le pos = cc

  abbrev AllDealt : ℕ → BTreeMap (Pvss E) → Type 0
  AllDealt i vss = (j : ℕ) → j < i → contains_key j vss ≡ true

  one_more_dealt :
      (i k : ℕ) (pvss : Pvss E) (vss : BTreeMap (Pvss E))
      → k ≡ i
      → AllDealt i vss
      → AllDealt (suc i) (insert k pvss vss)
  one_more_dealt i k pvss vss e all j lt = elim (Bool-cases (leb i j)) [
    | inl le ↦
        ap (λ l. contains_key l (insert k pvss vss)) {x = j} {y = k}
          (omega (arith, leb→le i j le, e, lt))
        ∙ contains_key-insert k pvss vss
    | inr gt ↦ contains_key-insert_keep j k pvss vss (all j (leb→gt i j gt))
  ]

  same_dealt :
      (i : ℕ) (vss : BTreeMap (Pvss E))
      → contains_key i vss ≡ true
      → AllDealt i vss
      → AllDealt (suc i) vss
  same_dealt i vss there all j lt = elim (Bool-cases (leb i j)) [
    | inl le ↦
        ap (λ l. contains_key l vss) {x = j} {y = i} (omega (arith, leb→le i j le, lt)) ∙ there
    | inr gt ↦ all j (leb→gt i j gt)
  ]

  -- What a session needs to be finished, apart from transcripts.
  record CanFinish (n m : ℕ) (dkg : PubliclyVerifiableDkg E) : Type 0 where
    well_formed : IsWellFormed E dkg
    allowed : is_sharing_or_dealt E dkg.state ≡ true
    fit : FitDomain E dkg
    small : suc n ≤ dkg.domain.size
    uniform : Uniform E n m dkg.vss
    reachable_threshold : minimum_shares dkg.params ≤ length dkg.validators
    some_validator : 1 ≤ length dkg.validators

  after_deal-CanFinish :
      (n m : ℕ) (dkg : PubliclyVerifiableDkg E) (index : ℕ) (pvss : Pvss E)
      → CanFinish n m dkg
      → Step E dkg (after_deal E dkg index pvss)
      → (length pvss.coeffs ≡ suc n) × (length pvss.shares ≡ m)
      → CanFinish n m (after_deal E dkg index pvss)
  after_deal-CanFinish n m dkg index pvss c step shape = record {
    well_formed = Step-IsWellFormed E dkg (after_deal E dkg index pvss) step c.well_formed;
    allowed = still_allowed (minimum_shares dkg.params) dkg.state c.allowed;
    fit = c.fit;
    small = c.small;
    uniform =
        All-insert (λ e. (length e.1.coeffs ≡ suc n) × (length e.1.shares ≡ m)) (as_u32 index) pvss
          dkg.vss shape c.uniform;
    reachable_threshold = c.reachable_threshold;
    some_validator = c.some_validator;
  }

  -- The validators from a position on deal, unless their transcripts are there.
  deal_all :
      (n m : ℕ) (deals : ℕ → Pvss E)
      → ((i : ℕ) → verify_optimistic E (deals i) ≡ ok true)
      → ((i : ℕ) → (length (deals i).coeffs ≡ suc n) × (length (deals i).shares ≡ m))
      → (left i : ℕ) (dkg : PubliclyVerifiableDkg E) → CanFinish n m dkg
      → i + left ≡ length dkg.validators
      → AllDealt i dkg.vss
      → (after : PubliclyVerifiableDkg E) × Reachable E dkg after
        × CanFinish n m after
        × (after.state ≡ dealt)
  deal_all n m deals valid shapes zero i dkg c count all = (
    dkg,
    here,
    c,
    must_be_dealt dkg.params dkg.vss dkg.state (length dkg.validators) c.allowed
        c.well_formed.state_agrees
        (length-ge (length dkg.validators) 0 dkg.vss c.well_formed.vss-IsSorted (from_zero dkg.vss)
          (λ j le lt. all j (omega arith)))
        c.reachable_threshold c.some_validator,
  )
    where
      from_zero : (vss : BTreeMap (Pvss E)) → All (λ e. 0 ≤ e.0) vss
      from_zero [] = tt
      from_zero (e ∷ vss) = (omega arith, from_zero vss)
  deal_all n m deals valid shapes (suc left) i dkg c count all =
      let (v, at) = get_elem?-lt dkg.validators i (omega (arith, count)) in
      let index : as_u32 i ≡ i = omega (arith, count, c.well_formed.few_validators) in
      elim (Bool-cases (contains_key i dkg.vss)) [
        | inl there ↦
            deal_all n m deals valid shapes left (suc i) dkg c (omega (arith, count))
              (same_dealt i dkg.vss there all)
        | inr fresh ↦
            let step =
              deal-Step dkg i v (deals i) c.well_formed c.allowed at
                (ap (λ k. contains_key k dkg.vss) index ∙ fresh) (valid i) in
            let (after, run, finished, state) =
              deal_all n m deals valid shapes left (suc i) (after_deal E dkg i (deals i))
                (after_deal-CanFinish n m dkg i (deals i) c step (shapes i)) (omega (arith, count))
                (one_more_dealt i (as_u32 i) (deals i) dkg.vss index all) in
            (after, first_step step run, finished, state)
      ]

  aggregate-Message :
      (dkg : PubliclyVerifiableDkg E) {made : Message E}
      → Dkg.aggregate E dkg ≡ ok made
      → (aggregation : Aggregation E) × (made ≡ Message.aggregate aggregation)
  unfolding Dkg.aggregate
  aggregate-Message dkg {made} h =
      let (_, rest) = guarded (is_dealt E dkg.state) _ not_enough_transcripts h in
      let (key, _, more) = >>=-eq-ok (final_key E dkg) _ rest in
      let (vss, _, last) = >>=-eq-ok (Pvss.aggregate E dkg) _ more in
      (record { vss = vss; final_key = key }, sym (ok_injective last))

  finish-Step :
      (n m : ℕ) (dkg : PubliclyVerifiableDkg E) (sender : ExternalValidator E)
      → CanFinish n m dkg
      → dkg.state ≡ dealt
      → (after : PubliclyVerifiableDkg E) × (key : E.G1) × Step E dkg after
        × (after.state ≡ success key)
        × (sum_keys E after.vss ≡ ok key)
  unfolding final_key
  finish-Step n m dkg sender c state =
      let (made, aggregated, verified) =
        verify_message-aggregate E dkg sender n m c.well_formed state c.fit c.small c.uniform in
      let (aggregation, e) = aggregate-Message dkg aggregated in
      let (after, applied, (summed, is)) =
        apply_message-verify_message E dkg sender (Message.aggregate aggregation)
          c.well_formed.addresses-Distinct
          (subst (λ x. verify_message E dkg sender x ≡ ok tt) e verified) in
      (
        after,
        aggregation.final_key,
        message_step dkg after sender (Message.aggregate aggregation)
            (subst (λ x. verify_message E dkg sender x ≡ ok tt) e verified) applied,
        ap (λ d. d.state) is,
        ap (λ d. sum_keys E d.vss) is ∙ summed,
      )

  -- A session that is in Sharing or Dealt can finish. It is well formed, there is a validator, the
  -- number of validators is at least shares_num - security_threshold, their indices are those of
  -- elements of the domain, and its transcripts have n + 1 coefficients, at most the size of the
  -- domain, and m shares. If for every index there is a transcript of this shape that passes the
  -- optimistic verification, then messages that are verified and applied lead to a session in Success,
  -- with the sum of the first coefficients of its transcripts as the key.
  pub Reachable-success :
      (n m : ℕ) (deals : ℕ → Pvss E) (sender : ExternalValidator E) (dkg : PubliclyVerifiableDkg E)
      → IsWellFormed E dkg
      → is_sharing_or_dealt E dkg.state ≡ true
      → FitDomain E dkg
      → suc n ≤ dkg.domain.size
      → Uniform E n m dkg.vss
      → minimum_shares dkg.params ≤ length dkg.validators
      → 1 ≤ length dkg.validators
      → ((i : ℕ) → verify_optimistic E (deals i) ≡ ok true)
      → ((i : ℕ) → (length (deals i).coeffs ≡ suc n) × (length (deals i).shares ≡ m))
      → (after : PubliclyVerifiableDkg E) × (key : E.G1) × Reachable E dkg after
        × (after.state ≡ success key)
        × (sum_keys E after.vss ≡ ok key)
  Reachable-success n m deals sender dkg w allowed fit small uniform le pos valid shapes =
      let (between, run, c, state) =
        deal_all n m deals valid shapes (length dkg.validators) 0 dkg
          (record {
            well_formed = w;
            allowed = allowed;
            fit = fit;
            small = small;
            uniform = uniform;
            reachable_threshold = le;
            some_validator = pos;
          })
          (omega arith) (λ j lt. absurd (omega arith)) in
      let (after, key, step, ended, summed) = finish-Step n m between sender c state in
      (after, key, next run step, ended, summed)
