-- ===== src/Ferveo/Dkg/Refinement.antt =====
-- A session refines the protocol (ferveo/src/dkg/pv.rs).
use mathlib.Core.Path.{subst}
use nucypher_ferveo.Base.{
  ℕ, suc, ◌<◌, ◌≡◌, inl, inr, refl, sym, ap, ◌∙◌, Bool, true, false, some, List, [], ◌∷◌, arith,
}
use nucypher_ferveo.Base.Tests.{if◌then◌else◌, leb, ltb, ◌==◌, Bool-cases}
use nucypher_ferveo.Base.Outcome.{ok, unwrap, ok_or, >>=-eq-ok, ok_injective}
use nucypher_ferveo.Base.Lists.{length, get_elem?, Distinct}
use nucypher_ferveo.Base.Words.{u32_mod, as_u32, incr_u32}
use nucypher_ferveo.Base.BTreeMap.{BTreeMap, insert, contains_key, length-insert_fresh, length-le}
use nucypher_ferveo.Algebra.Space.{Group, ◌⊕◌, add_left_comm}
use nucypher_ferveo.Algebra.Engine.{Engine}
use nucypher_ferveo.Algebra.Domain.{Domains}
use nucypher_ferveo.Ferveo.Common.{ExternalValidator, Keypair, same_validator}
use nucypher_ferveo.Ferveo.Session.{
  Params, DkgState, sharing, dealt, success, invalid, Pvss, PubliclyVerifiableDkg, Message,
  no_domain, not_in_validator_set,
}
use nucypher_ferveo.Ferveo.Pvss.{verify_optimistic}
use nucypher_ferveo.Ferveo.Dkg.{
  position, minimum_shares, is_dealt, is_sharing_or_dealt, verify_message, count_share, count_block,
  increase_block, sum_keys, final_key, new, make_validators,
}
use nucypher_ferveo.Ferveo.Dkg.Senders.{addresses}
use nucypher_ferveo.Ferveo.Dkg.Sums.{sum_keys-cons, unwrap-some}
use nucypher_ferveo.Ferveo.Dkg.Verified.{
  after_deal, IsAfter, apply_message-verify_message, verify_message-aggregate, verify_message-deal,
}
use nucypher_ferveo.Ferveo.Dkg.Invariant.{
  IsWellFormed, StateAgrees, Step, block as block_step, message as message_step, Reachable, here,
  next, Step-IsWellFormed, reachable-IsWellFormed,
}
use nucypher_ferveo.Ferveo.Dkg.Protocol.{
  Protocol, collecting, ready, finished, contribute, ProtocolStep, idle, contribution_to,
  late_contribution, finish, ProtocolRun, begin, proceed,
}

module _ (E : Engine) where
  open E use {G1}

  instance abbrev g1 : Group G1
  g1 = E.group1

  -- What the state is in the protocol, for a number of transcripts and the sum of their keys.
  abbrev protocol_of : DkgState E → ℕ → G1 → Protocol E
  protocol_of (sharing accumulated_shares height) count key = collecting count key
  protocol_of dealt count key = ready key
  protocol_of (success final) count key = finished final
  protocol_of invalid count key = collecting count key

  -- The session's transcripts are the contributions: their number, and the sum of their first
  -- coefficients.
  abbrev pub Represents : Params → PubliclyVerifiableDkg E → Protocol E → Type 0
  Represents params dkg s =
      (dkg.params ≡ params)
      × ((key : G1) × (sum_keys E dkg.vss ≡ ok key)
          × (s ≡ protocol_of dkg.state (length dkg.vss) key))

  sum_keys_of :
      (k : ℕ) (v : Pvss E) (m : BTreeMap (Pvss E)) (a s : G1)
      → get_elem? v.coeffs 0 ≡ some a
      → sum_keys E m ≡ ok s
      → sum_keys E ((k, v) ∷ m) ≡ ok (a ⊕ s)
  unfolding sum_keys
  sum_keys_of k v m a s first sum = rw (first, sum) refl

  -- A transcript under a new key adds its first coefficient.
  sum_keys-insert :
      (k : ℕ) (v : Pvss E) (m : BTreeMap (Pvss E)) (a s : G1)
      → contains_key k m ≡ false
      → get_elem? v.coeffs 0 ≡ some a
      → sum_keys E m ≡ ok s
      → sum_keys E (insert k v m) ≡ ok (a ⊕ s)
  unfolding insert contains_key
  sum_keys-insert k v [] a s fresh first sum = sum_keys_of k v [] a s first sum
  sum_keys-insert k v ((j, w) ∷ m) a s fresh first sum = elim (Bool-cases (k == j)) [
    | inl e ↦ absurd (apart (sym (rw e refl) ∙ fresh))
    | inr e ↦ elim (Bool-cases (ltb k j)) [
      | inl l ↦ rw (e, l) (sum_keys_of k v ((j, w) ∷ m) a s first sum)
      | inr l ↦
          let (b, rest, first_w, sum_m, same) = sum_keys-cons E j w m sum in
          rw (e, l)
            (sum_keys_of j w (insert k v m) b (a ⊕ rest) first_w
                (sum_keys-insert k v m a rest (later (contains_key k m) e fresh) first sum_m)
              ∙ ap ok (add_left_comm b a rest ∙ ap (◌⊕◌ a) (sym same)))
    ]
  ]
    where
      apart : (if true then true else contains_key k m) ≡ false → ⊥
      apart z = cc

      later : (b : Bool) → (k == j) ≡ false → (if k == j then true else b) ≡ false → b ≡ false
      later b e h = sym (rw e refl) ∙ h

  blocks :
      (present : Bool) (state : DkgState E) (count : ℕ) (key : G1)
      → protocol_of state count key ≡ protocol_of (count_block E present state) count key
  unfolding count_block
  blocks false (sharing accumulated_shares height) count key = refl
  blocks true (sharing accumulated_shares height) count key = refl
  blocks false dealt count key = refl
  blocks true dealt count key = refl
  blocks false (success final) count key = refl
  blocks true (success final) count key = refl
  blocks false invalid count key = refl
  blocks true invalid count key = refl

  -- A transcript more is a contribution, or a late one.
  counted :
      (params : Params) (vss : BTreeMap (Pvss E)) (state : DkgState E) (key a : G1)
      → suc (length vss) < u32_mod
      → is_sharing_or_dealt E state ≡ true
      → StateAgrees E params vss state
      → ProtocolStep E
          (minimum_shares params)
          (protocol_of state (length vss) key)
          (protocol_of (count_share E (minimum_shares params) state) (suc (length vss)) (a ⊕ key))
  unfolding count_share contribute
  counted params vss (sharing accumulated_shares height) key a few allowed agrees =
      subst (ProtocolStep E (minimum_shares params) (collecting (length vss) key))
        (same (minimum_shares params) (length vss) (incr_u32 accumulated_shares)
          (omega (arith, agrees.0)))
        (contribution_to (length vss) key a)
    where
      same :
          (enough count accumulated : ℕ)
          → accumulated ≡ suc count
          → contribute E enough a (collecting count key)
            ≡ protocol_of
                (if leb enough accumulated then dealt else sharing accumulated height)
                (suc count)
                (a ⊕ key)
      same enough count accumulated e =
          ap (λ n. if leb enough n then ready (a ⊕ key) else collecting (suc count) (a ⊕ key))
            (sym e)
          ∙ chosen (leb enough accumulated)
        where
          chosen :
              (b : Bool)
              → (if b then ready (a ⊕ key) else collecting (suc count) (a ⊕ key))
                ≡ protocol_of
                    (if b then dealt else sharing accumulated height)
                    (suc count)
                    (a ⊕ key)
          chosen true = refl
          chosen false = refl
  counted params vss dealt key a few allowed agrees = late_contribution key a
  counted params vss (success final) key a few allowed agrees = cc
  counted params vss invalid key a few allowed agrees = cc

  finishes :
      (enough : ℕ) (state : DkgState E) (count : ℕ) (key : G1)
      → is_dealt E state ≡ true
      → ProtocolStep E enough (protocol_of state count key) (finished key)
  finishes enough dealt count key h = finish key
  finishes enough (sharing accumulated_shares height) count key h = cc
  finishes enough (success final) count key h = cc
  finishes enough invalid count key h = cc

  optimistic-first :
      (pvss : Pvss E)
      → verify_optimistic E pvss ≡ ok true
      → (a : G1) × (get_elem? pvss.coeffs 0 ≡ some a)
  unfolding verify_optimistic
  optimistic-first pvss h =
      let (a, e, _) = >>=-eq-ok (unwrap (get_elem? pvss.coeffs 0)) _ h in
      (a, unwrap-some (get_elem? pvss.coeffs 0) e)

  -- A session after which the protocol has made a step.
  abbrev Refined : Params → Protocol E → PubliclyVerifiableDkg E → Type 0
  Refined params s after =
      (s' : Protocol E) × ProtocolStep E (minimum_shares params) s s' × Represents params after s'

  after_deal-Refined :
      (params : Params) (dkg : PubliclyVerifiableDkg E) (index : ℕ) (pvss : Pvss E) (s : Protocol E)
      → IsWellFormed E dkg
      → IsWellFormed E (after_deal E dkg index pvss)
      → is_sharing_or_dealt E dkg.state ≡ true
      → contains_key (as_u32 index) dkg.vss ≡ false
      → verify_optimistic E pvss ≡ ok true
      → Represents params dkg s
      → Refined params s (after_deal E dkg index pvss)
  after_deal-Refined params dkg index pvss s w well allowed fresh valid (same, (key, sum, e)) =
      let (a, first) = optimistic-first pvss valid in
      let one_more = length-insert_fresh (as_u32 index) pvss dkg.vss fresh in
      let fits =
        length-le (length dkg.validators) (insert (as_u32 index) pvss dkg.vss) well.vss-IsSorted
          well.keys_lt in
      let after_state = count_share E (minimum_shares dkg.params) dkg.state in
      (
        protocol_of after_state (suc (length dkg.vss)) (a ⊕ key),
        subst
            (λ p.
              ProtocolStep E (minimum_shares p) s
                (protocol_of after_state (suc (length dkg.vss)) (a ⊕ key)))
            same
            (subst
              (λ t.
                ProtocolStep E (minimum_shares dkg.params) t
                  (protocol_of after_state (suc (length dkg.vss)) (a ⊕ key)))
              (sym e)
              (counted dkg.params dkg.vss dkg.state key a
                (omega (arith, one_more, fits, w.few_validators)) allowed w.state_agrees)),
        (
          same,
          (
            a ⊕ key,
            sum_keys-insert (as_u32 index) pvss dkg.vss a key fresh first sum,
            ap (λ n. protocol_of after_state n (a ⊕ key)) (sym one_more),
          ),
        ),
      )

  after_aggregate-Refined :
      (params : Params) (dkg : PubliclyVerifiableDkg E) (final : G1) (s : Protocol E)
      → is_dealt E dkg.state ≡ true
      → final_key E dkg ≡ ok final
      → Represents params dkg s
      → Refined params s (record dkg { state = success final })
  unfolding final_key
  after_aggregate-Refined params dkg final s allowed summed (same, (key, sum, e)) = (
    finished final,
    subst (λ t. ProtocolStep E (minimum_shares params) t (finished final)) (sym e)
        (subst
          (λ k.
            ProtocolStep E (minimum_shares params) (protocol_of dkg.state (length dkg.vss) key)
              (finished k))
          (ok_injective (sym sum ∙ summed))
          (finishes (minimum_shares params) dkg.state (length dkg.vss) key allowed)),
    (same, (key, sum, refl)),
  )

  message-Refined :
      (params : Params) (dkg after : PubliclyVerifiableDkg E) (s : Protocol E)
      (sender : ExternalValidator E) (payload : Message E)
      → IsWellFormed E dkg
      → verify_message E dkg sender payload ≡ ok tt
      → IsAfter E dkg sender payload after
      → IsWellFormed E after
      → Represents params dkg s
      → Refined params s after
  message-Refined params dkg after s sender (Message.deal pvss) w verified
        (index, known, fresh, made) well r =
      let (allowed, (_, _, _, valid)) = verify_message-deal E dkg sender pvss verified in
      subst (Refined params s) (sym made) (
        after_deal-Refined params dkg index pvss s w (subst (IsWellFormed E) made well) allowed
          fresh valid r)
  message-Refined params dkg after s sender (Message.aggregate aggregation) w verified
        (summed, made) well r =
      subst (Refined params s) (sym made) (
        after_aggregate-Refined params dkg aggregation.final_key s
          (verify_message-aggregate E dkg sender aggregation verified).0 summed r)

  -- Every step of a well-formed session is a step of the protocol.
  Step-Refined :
      (params : Params) (dkg after : PubliclyVerifiableDkg E) (s : Protocol E)
      → IsWellFormed E dkg
      → Step E dkg after
      → Represents params dkg s
      → Refined params s after
  unfolding increase_block
  Step-Refined params dkg after s w (block_step _) (same, (key, sum, e)) = (
    s,
    idle s,
    (
      same,
      (key, sum, e ∙ blocks (contains_key (as_u32 dkg.me) dkg.vss) dkg.state (length dkg.vss) key),
    ),
  )
  Step-Refined params dkg after s w (message_step _ _ sender payload verified applied) r =
      let (end, e, is_after) =
        apply_message-verify_message E dkg sender payload w.addresses-Distinct verified in
      message-Refined params dkg after s sender payload w verified
        (subst (IsAfter E dkg sender payload) (ok_injective (sym e ∙ applied)) is_after)
        (Step-IsWellFormed E dkg after (message_step dkg after sender payload verified applied) w) r

  new-Represents :
      (domains : Domains E) (validators : List (ExternalValidator E)) (params : Params)
      (me : ExternalValidator E) (session_keypair : Keypair E) {start : PubliclyVerifiableDkg E}
      → new E domains validators params me session_keypair ≡ ok start
      → Represents params start (collecting 0 g1.zero)
  unfolding new sum_keys
  new-Represents domains validators params me session_keypair {start} h =
      let (domain, _, rest) = >>=-eq-ok (ok_or (domains.new params.shares_num) no_domain) _ h in
      let (index, _, made) =
        >>=-eq-ok (ok_or (position (same_validator E me) validators) not_in_validator_set) _ rest in
      subst (λ d. Represents params d (collecting 0 g1.zero)) (ok_injective made)
        (refl, (g1.zero, refl, refl))

  -- A session refines the protocol: where the addresses of the validators are distinct and there are
  -- fewer than 2^32 of them, a session that is reached from `new` by blocks and by messages that are
  -- verified and then applied is in a state of a run of the protocol. The run starts without a
  -- contribution, collects the first coefficients of the transcripts, which are enough once they are
  -- shares_num - security_threshold, and finishes with their sum. In each state the number and the
  -- sum of the contributions are those of the stored transcripts.
  pub reachable-ProtocolRun :
      (domains : Domains E) (validators : List (ExternalValidator E)) (params : Params)
      (me : ExternalValidator E) (session_keypair : Keypair E) (start dkg : PubliclyVerifiableDkg E)
      → new E domains validators params me session_keypair ≡ ok start
      → Distinct (addresses E (make_validators E validators))
      → length validators < u32_mod
      → Reachable E start dkg
      → (s : Protocol E) × ProtocolRun E (minimum_shares params) (collecting 0 g1.zero) s
        × Represents params dkg s
  reachable-ProtocolRun domains validators params me keypair start dkg h d few here =
      (collecting 0 g1.zero, begin, new-Represents domains validators params me keypair h)
  reachable-ProtocolRun domains validators params me keypair start after h d few
        (next {dkg} before step) =
      let (s, run, r) =
        reachable-ProtocolRun domains validators params me keypair start dkg h d few before in
      let (s', moved, r') =
        Step-Refined params dkg after s
          (reachable-IsWellFormed E domains validators params me keypair start dkg h d few before)
          step r in
      (s', proceed run moved, r')
