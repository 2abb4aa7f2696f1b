-- ===== src/Ferveo/Dkg.antt =====
-- ferveo/src/dkg/pv.rs and ferveo/src/dkg/common.rs: the state machine of a session.
pub mod Senders
pub mod Sums
pub mod Verified
pub mod Invariant
pub mod Agreement
pub mod Protocol
pub mod Refinement
pub mod Progress
use text.Mathlib.Text.{◌==◌ as str_eq}
use nucypher_ferveo.Base.{ℕ, suc, Bool, true, false, Option, none, some, List, [], ◌∷◌}
use nucypher_ferveo.Base.Tests.{is_yes, leb, ltb, if◌then◌else◌}
use nucypher_ferveo.Base.Lists.{get_elem?}
use nucypher_ferveo.Base.Outcome.{ok, err, ◌>>=◌, unwrap, ok_or}
use nucypher_ferveo.Base.Words.{as_u32, sub_u32, incr_u32}
use nucypher_ferveo.Base.BTreeMap.{BTreeMap, insert, contains_key}
use nucypher_ferveo.Algebra.Space.{Group, ◌⊕◌}
use nucypher_ferveo.Algebra.Engine.{Engine}
use nucypher_ferveo.Algebra.Domain.{Domains}
use nucypher_ferveo.Ferveo.Common.{ExternalValidator, Validator, Keypair, same_validator}
use nucypher_ferveo.Ferveo.Session.{
  Params, PvssScheduler, wait, DkgState, sharing, dealt, success, Pvss, PubliclyVerifiableDkg,
  Aggregation, Message, no_domain, not_in_validator_set, invalid_state_to_deal,
  not_enough_transcripts, unknown_dealer, repeat_dealer, invalid_transcript, insufficient_shares,
  wrong_final_key, invalid_state_to_verify, invalid_state_to_apply,
}
use nucypher_ferveo.Ferveo.Pvss
use nucypher_ferveo.Ferveo.Pvss.{DkgResult, verify_optimistic, verify_aggregation}
use nucypher_ferveo.Ferveo.Pvss.Dealing
use nucypher_ferveo.Ferveo.Pvss.Dealing.{Msm}

-- `iter().position(test)`
unfoldable pub position {ℓ} : {A : Type ℓ} → (A → Bool) → List A → Option ℕ
position test [] = none
position test (x ∷ xs) =
    let later : Option ℕ = elim (position test xs) [ none ↦ none | some i ↦ some (suc i) ] in
    if test x then some 0 else later

-- The threshold of `apply_message` and `verify_message`.
abbrev pub minimum_shares : Params → ℕ
minimum_shares params = sub_u32 params.shares_num params.security_threshold

module _ (E : Engine) where
  open E use {Fr, G1, G2, gen1, gen2}

  instance abbrev g1 : Group G1
  g1 = E.group1

  -- The loop of `make_validators`, from the index that `enumerate` has reached.
  unfoldable pub number_validators : ℕ → List (ExternalValidator E) → List (Validator E)
  number_validators index [] = []
  number_validators index (validator ∷ validators) =
      record { validator = validator; share_index = index }
      ∷ number_validators (suc index) validators

  unfoldable pub make_validators : List (ExternalValidator E) → List (Validator E)
  unfolding number_validators
  make_validators validators = number_validators 0 validators

  unfoldable pub new :
      Domains E
      → List (ExternalValidator E)
      → Params
      → ExternalValidator E
      → Keypair E
      → DkgResult (PubliclyVerifiableDkg E)
  unfolding make_validators
  new domains validators params me session_keypair = do
    domain ← ok_or (domains.new params.shares_num) no_domain
    index ← ok_or (position (same_validator E me) validators) not_in_validator_set
    ok (record {
      params = params;
      pvss_params = record { g = gen1; h = gen2 };
      session_keypair = session_keypair;
      validators = make_validators validators;
      vss = [];
      domain = domain;
      state = sharing 0 0;
      me = index;
    })

  -- The state after `increase_block`, if the transcript of this validator is not there yet.
  unfoldable pub count_block : Bool → DkgState E → DkgState E
  count_block false (sharing accumulated_shares block) = sharing accumulated_shares (incr_u32 block)
  count_block _ state = state

  unfoldable pub increase_block : PubliclyVerifiableDkg E → PubliclyVerifiableDkg E × PvssScheduler
  unfolding count_block
  increase_block dkg =
      (record dkg { state = count_block (contains_key (as_u32 dkg.me) dkg.vss) dkg.state }, wait)

  abbrev pub is_sharing_or_dealt : DkgState E → Bool
  is_sharing_or_dealt (sharing _ _) = true
  is_sharing_or_dealt dealt = true
  is_sharing_or_dealt _ = false

  abbrev pub is_dealt : DkgState E → Bool
  is_dealt dealt = true
  is_dealt _ = false

  -- `secret` and `random` are what `share` and `Pvss::new` draw.
  unfoldable pub share : Msm E → Fr → List Fr → PubliclyVerifiableDkg E → DkgResult (Message E)
  share M secret random dkg = do
    vss ← Dealing.new E M secret random dkg
    if is_sharing_or_dealt dkg.state then ok (Message.deal vss) else err invalid_state_to_deal

  -- The sum of the first coefficients of the transcripts.
  unfoldable pub sum_keys : BTreeMap (Pvss E) → DkgResult G1
  sum_keys [] = ok g1.zero
  sum_keys ((_, vss) ∷ rest) = do
    f_0 ← unwrap (get_elem? vss.coeffs 0)
    sum ← sum_keys rest
    ok (f_0 ⊕ sum)

  unfoldable pub final_key : PubliclyVerifiableDkg E → DkgResult G1
  unfolding sum_keys
  final_key dkg = sum_keys dkg.vss

  unfoldable pub aggregate : PubliclyVerifiableDkg E → DkgResult (Message E)
  aggregate dkg =
      let made : DkgResult (Message E) = do
        key ← final_key dkg
        vss ← Pvss.aggregate E dkg
        ok (Message.aggregate (record { vss = vss; final_key = key }))
      in if is_dealt dkg.state then made else err not_enough_transcripts

  unfoldable pub verify_deal :
      PubliclyVerifiableDkg E → ExternalValidator E → Pvss E → DkgResult (Unit {0})
  verify_deal dkg sender pvss = do
    index ←
        ok_or (position (λ probe. same_validator E sender probe.validator) dkg.validators)
          unknown_dealer
    let checked : DkgResult (Unit {0}) = do
      valid ← verify_optimistic E pvss
      if valid then ok tt else err invalid_transcript
    if contains_key (as_u32 index) dkg.vss then err (repeat_dealer index) else checked

  unfoldable pub verify_aggregate : PubliclyVerifiableDkg E → Aggregation E → DkgResult (Unit {0})
  verify_aggregate dkg aggregation = do
    verified_shares ← verify_aggregation E aggregation.vss dkg
    let checked : DkgResult (Unit {0}) = do
      key ← final_key dkg
      if is_yes (E.group1.dec_eq key aggregation.final_key) then ok tt else err wrong_final_key
    if ltb verified_shares (minimum_shares dkg.params) then err insufficient_shares else checked

  unfoldable pub verify_message :
      PubliclyVerifiableDkg E → ExternalValidator E → Message E → DkgResult (Unit {0})
  verify_message dkg sender (Message.deal pvss) =
      if is_sharing_or_dealt dkg.state
      then verify_deal dkg sender pvss
      else err invalid_state_to_verify
  verify_message dkg sender (Message.aggregate aggregation) =
      if is_dealt dkg.state then verify_aggregate dkg aggregation else err invalid_state_to_verify

  -- The state after one more transcript, for the number of shares that is enough.
  unfoldable pub count_share : ℕ → DkgState E → DkgState E
  count_share enough (sharing accumulated_shares block) =
      let accumulated = incr_u32 accumulated_shares in
      if leb enough accumulated then dealt else sharing accumulated block
  count_share enough state = state

  unfoldable pub apply_message :
      PubliclyVerifiableDkg E
      → ExternalValidator E
      → Message E
      → DkgResult (PubliclyVerifiableDkg E)
  apply_message dkg sender (Message.deal pvss) =
      let applied : DkgResult (PubliclyVerifiableDkg E) = do
        index ←
            ok_or (position (λ probe. str_eq sender.address probe.validator.address) dkg.validators)
              unknown_dealer
        ok (record dkg {
          vss = insert (as_u32 index) pvss dkg.vss;
          state = count_share (minimum_shares dkg.params) dkg.state;
        })
      in if is_sharing_or_dealt dkg.state then applied else err invalid_state_to_apply
  apply_message dkg sender (Message.aggregate _) =
      let applied : DkgResult (PubliclyVerifiableDkg E) = do
        key ← final_key dkg
        ok (record dkg { state = success key })
      in if is_dealt dkg.state then applied else err invalid_state_to_apply
