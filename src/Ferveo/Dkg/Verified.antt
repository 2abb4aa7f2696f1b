-- ===== src/Ferveo/Dkg/Verified.antt =====
-- What a message that `verify_message` accepts satisfies, and what `apply_message` does with it
-- (ferveo/src/dkg/pv.rs).
use text.Mathlib.Text.{◌==◌ as str_eq}
use nucypher_ferveo.Base.{ℕ, ◌≡◌, refl, ap, ◌∙◌, Bool, true, false, Option, none, some}
use nucypher_ferveo.Base.Tests.{if◌then◌else◌, ltb, is_yes, is_yes→}
use nucypher_ferveo.Base.Outcome.{Outcome, ok, err, ok_or, >>=-eq-ok}
use nucypher_ferveo.Base.Lists.{Distinct}
use nucypher_ferveo.Base.Words.{as_u32}
use nucypher_ferveo.Base.BTreeMap.{insert, contains_key}
use nucypher_ferveo.Algebra.Engine.{Engine}
use nucypher_ferveo.Ferveo.Common.{ExternalValidator, same_validator}
use nucypher_ferveo.Ferveo.Session.{
  success, Pvss, PubliclyVerifiableDkg, Aggregation, Message, unknown_dealer, repeat_dealer,
  invalid_transcript, invalid_state_to_verify, insufficient_shares, wrong_final_key,
}
use nucypher_ferveo.Ferveo.Pvss.{verify_optimistic, verify_aggregation}
use nucypher_ferveo.Ferveo.Dkg.{
  position, minimum_shares, is_sharing_or_dealt, is_dealt, verify_deal, verify_aggregate,
  verify_message, count_share, apply_message, final_key,
}
use nucypher_ferveo.Ferveo.Dkg.Senders.{addresses, position-same_validator}

-- A test that guards an outcome.
pub guarded {κ ℓ} :
    {X : Type κ} {A : Type ℓ} (b : Bool) (m : Outcome X A) (x : X) {a : A}
    → (if b then m else err x) ≡ ok a
    → (b ≡ true) × (m ≡ ok a)
guarded true m x h = (refl, h)
guarded false m x h = cc

-- A test that refuses.
refused {κ ℓ} :
    {X : Type κ} {A : Type ℓ} (b : Bool) (m : Outcome X A) (x : X) {a : A}
    → (if b then err x else m) ≡ ok a
    → (b ≡ false) × (m ≡ ok a)
refused true m x h = cc
refused false m x h = (refl, h)

found_by {κ ℓ} :
    {X : Type κ} {A : Type ℓ} (o : Option A) (x : X) {a : A} → ok_or o x ≡ ok a → o ≡ some a
found_by none x h = cc
found_by (some a) x h = cc

module _ (E : Engine) where
  -- The session after the transcript of the validator at an index.
  abbrev pub after_deal : PubliclyVerifiableDkg E → ℕ → Pvss E → PubliclyVerifiableDkg E
  after_deal dkg index pvss = record dkg {
    vss = insert (as_u32 index) pvss dkg.vss;
    state = count_share E (minimum_shares dkg.params) dkg.state;
  }

  -- What `verify_message` accepts a transcript for.
  pub verify_message-deal :
      (dkg : PubliclyVerifiableDkg E) (sender : ExternalValidator E) (pvss : Pvss E)
      → verify_message E dkg sender (Message.deal pvss) ≡ ok tt
      → (is_sharing_or_dealt E dkg.state ≡ true)
        × ((index : ℕ) × (position (λ v. same_validator E sender v.validator) dkg.validators
              ≡ some index)
            × (contains_key (as_u32 index) dkg.vss ≡ false)
            × (verify_optimistic E pvss ≡ ok true))
  unfolding verify_message verify_deal
  verify_message-deal dkg sender pvss h =
      let (allowed, deal) =
        guarded (is_sharing_or_dealt E dkg.state) (verify_deal E dkg sender pvss)
          invalid_state_to_verify h in
      let (index, known, rest) =
        >>=-eq-ok
          (ok_or (position (λ v. same_validator E sender v.validator) dkg.validators)
            unknown_dealer)
          _ deal in
      let (fresh, checked) =
        refused (contains_key (as_u32 index) dkg.vss) _ (repeat_dealer index) rest in
      let (valid, e, last) = >>=-eq-ok (verify_optimistic E pvss) _ checked in
      let (holds, _) = guarded valid (ok tt) invalid_transcript last in
      (allowed, (index, found_by _ unknown_dealer known, fresh, e ∙ ap ok holds))

  pub apply_message-deal :
      (dkg : PubliclyVerifiableDkg E) (sender : ExternalValidator E) (pvss : Pvss E) {index : ℕ}
      → is_sharing_or_dealt E dkg.state ≡ true
      → position (λ v. str_eq sender.address v.validator.address) dkg.validators ≡ some index
      → apply_message E dkg sender (Message.deal pvss) ≡ ok (after_deal dkg index pvss)
  unfolding apply_message
  apply_message-deal dkg sender pvss allowed known = rw (allowed, known) refl

  pub verify_message-aggregate :
      (dkg : PubliclyVerifiableDkg E) (sender : ExternalValidator E) (aggregation : Aggregation E)
      → verify_message E dkg sender (Message.aggregate aggregation) ≡ ok tt
      → (is_dealt E dkg.state ≡ true) × (final_key E dkg ≡ ok aggregation.final_key)
  unfolding verify_message verify_aggregate
  verify_message-aggregate dkg sender aggregation h =
      let (allowed, verified) =
        guarded (is_dealt E dkg.state) (verify_aggregate E dkg aggregation) invalid_state_to_verify
          h in
      let (shares, _, rest) = >>=-eq-ok (verify_aggregation E aggregation.vss dkg) _ verified in
      let (_, checked) =
        refused (ltb shares (minimum_shares dkg.params)) _ insufficient_shares rest in
      let (key, e, last) = >>=-eq-ok (final_key E dkg) _ checked in
      let (same, _) =
        guarded (is_yes (E.group1.dec_eq key aggregation.final_key)) (ok tt) wrong_final_key last in
      (allowed, e ∙ ap ok (is_yes→ _ same))

  pub apply_message-aggregate :
      (dkg : PubliclyVerifiableDkg E) (sender : ExternalValidator E) (aggregation : Aggregation E)
      {key : E.G1}
      → is_dealt E dkg.state ≡ true
      → final_key E dkg ≡ ok key
      → apply_message E dkg sender (Message.aggregate aggregation)
        ≡ ok (record dkg { state = success key })
  unfolding apply_message
  apply_message-aggregate dkg sender aggregation allowed e = rw (allowed, e) refl

  -- The session that an accepted message leads to.
  abbrev pub IsAfter :
      PubliclyVerifiableDkg E → ExternalValidator E → Message E → PubliclyVerifiableDkg E → Type 0
  IsAfter dkg sender (Message.deal pvss) after =
      (index : ℕ) × (position (λ v. same_validator E sender v.validator) dkg.validators
        ≡ some index)
      × (contains_key (as_u32 index) dkg.vss ≡ false)
      × (after ≡ after_deal dkg index pvss)
  IsAfter dkg sender (Message.aggregate aggregation) after =
      (final_key E dkg ≡ ok aggregation.final_key)
      × (after ≡ record dkg { state = success aggregation.final_key })

  -- Where the addresses of the validators are distinct, a message that `verify_message` accepts is
  -- applied without an error. A transcript comes from a validator that had none, and is stored under
  -- that validator's index; with an aggregate the session succeeds with the key that it names, which is
  -- the sum of the first coefficients of the transcripts.
  pub apply_message-verify_message :
      (dkg : PubliclyVerifiableDkg E) (sender : ExternalValidator E) (message : Message E)
      → Distinct (addresses E dkg.validators)
      → verify_message E dkg sender message ≡ ok tt
      → (after : PubliclyVerifiableDkg E) × (apply_message E dkg sender message ≡ ok after)
        × IsAfter dkg sender message after
  apply_message-verify_message dkg sender (Message.deal pvss) d h =
      let (allowed, (index, known, fresh, _)) = verify_message-deal dkg sender pvss h in
      (
        after_deal dkg index pvss,
        apply_message-deal dkg sender pvss allowed
            (position-same_validator E sender dkg.validators d known),
        (index, known, fresh, refl),
      )
  apply_message-verify_message dkg sender (Message.aggregate aggregation) d h =
      let (allowed, e) = verify_message-aggregate dkg sender aggregation h in
      (
        record dkg { state = success aggregation.final_key },
        apply_message-aggregate dkg sender aggregation allowed e,
        (e, refl),
      )
