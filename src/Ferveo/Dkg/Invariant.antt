-- ===== src/Ferveo/Dkg/Invariant.antt =====
-- The invariant of a session along the messages that are verified and then applied, and along blocks
-- (ferveo/src/dkg/pv.rs).
use mathlib.Core.Path.{subst}
use nucypher_ferveo.Base.{
  ℕ, suc, ◌<◌, ◌≤◌, ◌≡◌, ◌⊎◌, inl, inr, refl, sym, ap, ◌∙◌, Bool, true, false, List, [], ◌∷◌, arith,
}
use nucypher_ferveo.Base.Tests.{if◌then◌else◌, leb, leb→le, leb→gt}
use nucypher_ferveo.Base.Outcome.{ok, ok_or, >>=-eq-ok, ok_injective}
use nucypher_ferveo.Base.Lists.{length, All, Distinct}
use nucypher_ferveo.Base.Words.{u32_mod, as_u32, incr_u32}
use nucypher_ferveo.Base.BTreeMap.{
  BTreeMap, insert, contains_key, IsSorted, insert-IsSorted, length-insert_fresh, All-insert,
  length-le,
}
use nucypher_ferveo.Algebra.Engine.{Engine}
use nucypher_ferveo.Algebra.Domain.{Domains}
use nucypher_ferveo.Ferveo.Common.{ExternalValidator, Keypair, same_validator}
use nucypher_ferveo.Ferveo.Session.{
  Params, DkgState, sharing, dealt, success, invalid, Pvss, PubliclyVerifiableDkg, Message,
  no_domain, not_in_validator_set,
}
use nucypher_ferveo.Ferveo.Dkg.{
  position, minimum_shares, is_dealt, is_sharing_or_dealt, verify_message, count_share, count_block,
  increase_block, sum_keys, apply_message, final_key, new, make_validators, number_validators,
}
use nucypher_ferveo.Ferveo.Dkg.Senders.{addresses, position-lt}
use nucypher_ferveo.Ferveo.Dkg.Verified.{
  after_deal, IsAfter, apply_message-verify_message, verify_message-aggregate, verify_message-deal,
}

module _ (E : Engine) where
  -- The state agrees with the transcripts: in `Sharing` they are counted, and are fewer than are
  -- enough unless there is none; in `Dealt` and `Success` they are enough, in
  -- `Dealt` there is one, and the key of `Success` is
  -- the sum of their first coefficients; `Invalid` is not reached.
  abbrev pub StateAgrees : Params → BTreeMap (Pvss E) → DkgState E → Type 0
  StateAgrees params vss (sharing accumulated_shares block) =
      (accumulated_shares ≡ length vss) × ((length vss ≡ 0) ⊎ (length vss < minimum_shares params))
  StateAgrees params vss dealt = (minimum_shares params ≤ length vss) × (0 < length vss)
  StateAgrees params vss (success key) =
      (minimum_shares params ≤ length vss) × (sum_keys E vss ≡ ok key)
  StateAgrees params vss invalid = ⊥

  pub record IsWellFormed (dkg : PubliclyVerifiableDkg E) : Type 0 where
    pub addresses-Distinct : Distinct (addresses E dkg.validators)
    pub few_validators : length dkg.validators < u32_mod
    pub vss-IsSorted : IsSorted dkg.vss
    pub keys_lt : All (λ e. e.0 < length dkg.validators) dkg.vss
    pub state_agrees : StateAgrees dkg.params dkg.vss dkg.state

  enough_or_sharing :
      (b : Bool) (params : Params) (vss : BTreeMap (Pvss E)) (accumulated block : ℕ)
      → leb (minimum_shares params) accumulated ≡ b
      → accumulated ≡ length vss
      → 0 < length vss
      → StateAgrees params vss (if b then dealt else sharing accumulated block)
  enough_or_sharing true params vss accumulated block h e lt =
      (omega (arith, leb→le (minimum_shares params) accumulated h), lt)
  enough_or_sharing false params vss accumulated block h e lt =
      (e, inr (omega (arith, leb→gt (minimum_shares params) accumulated h)))

  -- A transcript more, counted or not.
  counted :
      (params : Params) (vss vss' : BTreeMap (Pvss E)) (state : DkgState E)
      → length vss' ≡ suc (length vss)
      → length vss' < u32_mod
      → (is_sharing_or_dealt E state ≡ true)
      → StateAgrees params vss state
      → StateAgrees params vss' (count_share E (minimum_shares params) state)
  unfolding count_share
  counted params vss vss' (sharing accumulated_shares block) one_more few allowed s =
      enough_or_sharing (leb (minimum_shares params) (incr_u32 accumulated_shares)) params vss'
        (incr_u32 accumulated_shares) block refl (omega (arith, s.0)) (omega arith)
  counted params vss vss' dealt one_more few allowed s = (omega (arith, s.0), omega arith)
  counted params vss vss' (success key) one_more few allowed s = cc
  counted params vss vss' invalid one_more few allowed s = cc

  pub enough :
      (params : Params) (vss : BTreeMap (Pvss E)) (state : DkgState E)
      → is_dealt E state ≡ true
      → StateAgrees params vss state
      → minimum_shares params ≤ length vss
  enough params vss dealt h s = s.0
  enough params vss (sharing accumulated_shares block) h s = cc
  enough params vss (success key) h s = cc
  enough params vss invalid h s = cc

  blocks :
      (present : Bool) (params : Params) (vss : BTreeMap (Pvss E)) (state : DkgState E)
      → StateAgrees params vss state
      → StateAgrees params vss (count_block E present state)
  unfolding count_block
  blocks false params vss (sharing accumulated_shares block) s = s
  blocks true params vss (sharing accumulated_shares block) s = s
  blocks false params vss dealt s = s
  blocks true params vss dealt s = s
  blocks false params vss (success key) s = s
  blocks true params vss (success key) s = s
  blocks false params vss invalid s = s
  blocks true params vss invalid s = s

  increase_block-IsWellFormed :
      (dkg : PubliclyVerifiableDkg E) → IsWellFormed dkg → IsWellFormed (increase_block E dkg).0
  unfolding increase_block
  increase_block-IsWellFormed dkg w = record {
    addresses-Distinct = w.addresses-Distinct;
    few_validators = w.few_validators;
    vss-IsSorted = w.vss-IsSorted;
    keys_lt = w.keys_lt;
    state_agrees =
        blocks (contains_key (as_u32 dkg.me) dkg.vss) dkg.params dkg.vss dkg.state w.state_agrees;
  }

  after_deal-IsWellFormed :
      (dkg : PubliclyVerifiableDkg E) (index : ℕ) (pvss : Pvss E)
      → IsWellFormed dkg
      → is_sharing_or_dealt E dkg.state ≡ true
      → index < length dkg.validators
      → contains_key (as_u32 index) dkg.vss ≡ false
      → IsWellFormed (after_deal E dkg index pvss)
  after_deal-IsWellFormed dkg index pvss w allowed lt fresh = record {
    addresses-Distinct = w.addresses-Distinct;
    few_validators = w.few_validators;
    vss-IsSorted = sorted;
    keys_lt = below;
    state_agrees =
        counted dkg.params dkg.vss (insert (as_u32 index) pvss dkg.vss) dkg.state
          (length-insert_fresh (as_u32 index) pvss dkg.vss fresh)
          (omega (
            arith,
            length-le (length dkg.validators) (insert (as_u32 index) pvss dkg.vss) sorted below,
            w.few_validators,
          ))
          allowed w.state_agrees;
  }
    where
      sorted : IsSorted (insert (as_u32 index) pvss dkg.vss)
      sorted = insert-IsSorted (as_u32 index) pvss dkg.vss w.vss-IsSorted

      below : All (λ e. e.0 < length dkg.validators) (insert (as_u32 index) pvss dkg.vss)
      below =
          All-insert (λ e. e.0 < length dkg.validators) (as_u32 index) pvss dkg.vss
            (omega (arith, w.few_validators)) w.keys_lt

  length-number_validators :
      (index : ℕ) (validators : List (ExternalValidator E))
      → length (number_validators E index validators) ≡ length validators
  unfolding number_validators
  length-number_validators index [] = refl
  length-number_validators index (validator ∷ validators) =
      ap suc (length-number_validators (suc index) validators)

  -- A step of a session: a block, or a message that is verified and then applied.
  pub data Step : PubliclyVerifiableDkg E → PubliclyVerifiableDkg E → Type 0 where
    block : (dkg : PubliclyVerifiableDkg E) → Step dkg (increase_block E dkg).0
    message :
        (dkg after : PubliclyVerifiableDkg E) (sender : ExternalValidator E) (payload : Message E)
        → verify_message E dkg sender payload ≡ ok tt
        → apply_message E dkg sender payload ≡ ok after
        → Step dkg after

  pub data Reachable (start : PubliclyVerifiableDkg E) : PubliclyVerifiableDkg E → Type 0 where
    here : Reachable start start
    next :
        {dkg after : PubliclyVerifiableDkg E}
        → Reachable start dkg
        → Step dkg after
        → Reachable start after

  new-IsWellFormed :
      (domains : Domains E) (validators : List (ExternalValidator E)) (params : Params)
      (me : ExternalValidator E) (session_keypair : Keypair E) {start : PubliclyVerifiableDkg E}
      → new E domains validators params me session_keypair ≡ ok start
      → Distinct (addresses E (make_validators E validators))
      → length validators < u32_mod
      → IsWellFormed start
  unfolding new
  new-IsWellFormed domains validators params me session_keypair {start} h d few =
      let (domain, _, rest) = >>=-eq-ok (ok_or (domains.new params.shares_num) no_domain) _ h in
      let (index, _, made) =
        >>=-eq-ok (ok_or (position (same_validator E me) validators) not_in_validator_set) _ rest in
      subst IsWellFormed (ok_injective made) (record {
        addresses-Distinct = d;
        few_validators = omega (arith, length-number_validators 0 validators);
        vss-IsSorted = tt;
        keys_lt = tt;
        state_agrees = (refl, inl refl);
      })

  message-IsWellFormed :
      (dkg after : PubliclyVerifiableDkg E) (sender : ExternalValidator E) (payload : Message E)
      → IsWellFormed dkg
      → verify_message E dkg sender payload ≡ ok tt
      → IsAfter E dkg sender payload after
      → IsWellFormed after
  unfolding final_key
  message-IsWellFormed dkg after sender (Message.deal pvss) w verified (index, known, fresh, e) =
      subst IsWellFormed (sym e) (
        after_deal-IsWellFormed dkg index pvss w (verify_message-deal E dkg sender pvss verified).0
          (position-lt _ dkg.validators known) fresh)
  message-IsWellFormed dkg after sender (Message.aggregate aggregation) w verified (summed, e) =
      subst IsWellFormed (sym e) (record {
        addresses-Distinct = w.addresses-Distinct;
        few_validators = w.few_validators;
        vss-IsSorted = w.vss-IsSorted;
        keys_lt = w.keys_lt;
        state_agrees = (
          enough dkg.params dkg.vss dkg.state
              (verify_message-aggregate E dkg sender aggregation verified).0 w.state_agrees,
          summed,
        );
      })

  pub Step-IsWellFormed :
      (dkg after : PubliclyVerifiableDkg E) → Step dkg after → IsWellFormed dkg → IsWellFormed after
  Step-IsWellFormed dkg after (block _) w = increase_block-IsWellFormed dkg w
  Step-IsWellFormed dkg after (message _ _ sender payload verified applied) w =
      let (end, e, is_after) =
        apply_message-verify_message E dkg sender payload w.addresses-Distinct verified in
      subst IsWellFormed (ok_injective (sym e ∙ applied))
        (message-IsWellFormed dkg end sender payload w verified is_after)

  -- Every session reached from `new` by blocks and by messages that are verified and then applied
  -- is well formed, if the addresses of the validators are distinct and there are fewer than 2^32
  -- validators: the transcripts are stored in order under indices of validators; in `Sharing`
  -- accumulated_shares is the number of transcripts, which is 0 or below shares_num -
  -- security_threshold; in `Dealt` and `Success` there are at least as many, and in `Dealt` there
  -- is one; the key of `Success` is the sum of their first coefficients; and `Invalid` is not
  -- reached.
  pub reachable-IsWellFormed :
      (domains : Domains E) (validators : List (ExternalValidator E)) (params : Params)
      (me : ExternalValidator E) (session_keypair : Keypair E) (start dkg : PubliclyVerifiableDkg E)
      → new E domains validators params me session_keypair ≡ ok start
      → Distinct (addresses E (make_validators E validators))
      → length validators < u32_mod
      → Reachable start dkg
      → IsWellFormed dkg
  reachable-IsWellFormed domains validators params me keypair start dkg h d few here =
      new-IsWellFormed domains validators params me keypair h d few
  reachable-IsWellFormed domains validators params me keypair start after h d few
        (next {dkg} before step) =
      Step-IsWellFormed dkg after step
        (reachable-IsWellFormed domains validators params me keypair start dkg h d few before)
