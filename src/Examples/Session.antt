-- ===== src/Examples/Session.antt =====
-- Sessions and transcripts (ferveo/src) at concrete inputs.
use nucypher_ferveo.Base.{◌≡◌, inl, refl, true, List, [], ◌∷◌, map, arith}
use nucypher_ferveo.Base.Lists.{Distinct}
use nucypher_ferveo.Base.BTreeMap.{insert, contains_key}
use nucypher_ferveo.Base.Outcome.{ok}
use nucypher_ferveo.Algebra.Space.{◌•◌}
use nucypher_ferveo.Toy.Codec.{codec}
use nucypher_ferveo.Ferveo.StateBytes.{
  serialize, deserialize, serialized_size, deserialize-serialize,
}
use nucypher_ferveo.Base.{◌++◌}
use nucypher_ferveo.Base.Lists.{length}
use nucypher_ferveo.Toy.F5.{F5, one, two, three, four, field, group, space}
use nucypher_ferveo.Toy.Instances.{engine, domain, domains, msm}
use nucypher_ferveo.Ferveo.Common.{ExternalValidator, Keypair, same_validator, public}
use nucypher_ferveo.Ferveo.Session.{
  Params, sharing, dealt, success, Pvss, PubliclyVerifiableDkg, Aggregation, Message,
}
use nucypher_ferveo.Ferveo.Pvss.{verify_optimistic, verify_full}
use nucypher_ferveo.Ferveo.Pvss.Dealing
use nucypher_ferveo.Ferveo.Pvss.Verified.{new-verify_full}
use nucypher_ferveo.Ferveo.Dkg
use nucypher_ferveo.Ferveo.Dkg.{
  position, make_validators, verify_deal, verify_message, apply_message, increase_block,
  count_block, count_share,
}
use nucypher_ferveo.Ferveo.Dkg.Senders.{addresses}
use nucypher_ferveo.Ferveo.Dkg.Verified.{IsAfter, apply_message-verify_message}
use nucypher_ferveo.Ferveo.Dkg.{minimum_shares, sum_keys}
use nucypher_ferveo.Ferveo.Dkg.Protocol.{Protocol, collecting, ProtocolRun}
use nucypher_ferveo.Ferveo.Dkg.Refinement.{Represents, reachable-ProtocolRun}
use nucypher_ferveo.Ferveo.Dkg.Progress.{Reachable-success}
use nucypher_ferveo.Ferveo.Dkg.Invariant.{
  IsWellFormed, Reachable, here, next, block, message, reachable-IsWellFormed,
}
use nucypher_ferveo.Ferveo.Dkg.Agreement.{verify_message-aggregate, verify_message-shares}

abbrev alice : ExternalValidator engine
alice = record { address = "alice"; public_key = record { encryption_key = two } }

abbrev bob : ExternalValidator engine
bob = record { address = "bob"; public_key = record { encryption_key = three } }

abbrev validators : List (ExternalValidator engine)
validators = alice ∷ bob ∷ []

abbrev params : Params
params = record { tau = 0; security_threshold = 1; shares_num = 2 }

abbrev keypair : Keypair engine
keypair = record { decryption_key = two }

abbrev start : PubliclyVerifiableDkg engine
start = record {
  params = params;
  pvss_params = record { g = one; h = one };
  session_keypair = keypair;
  validators =
      record { validator = alice; share_index = 0 }
      ∷ record { validator = bob; share_index = 1 }
      ∷ [];
  vss = [];
  domain = domain;
  state = sharing 0 0;
  me = 0;
}

starts : Dkg.new engine domains validators params alice keypair ≡ ok start
unfolding Dkg.new make_validators position same_validator
starts = refl

Distinct-addresses : Distinct (addresses engine start.validators)
Distinct-addresses = (((λ e. cc), tt), (tt, tt))

-- The polynomial 2, which alice deals.
abbrev transcript : Pvss engine
transcript = record { coeffs = two ∷ []; shares = four ∷ one ∷ []; sigma = two }

abbrev later : PubliclyVerifiableDkg engine
later = record start { state = sharing 0 1 }

verified : verify_message engine later alice (Message.deal transcript) ≡ ok tt
unfolding verify_message verify_deal verify_optimistic position same_validator contains_key
verified = refl

abbrev session : PubliclyVerifiableDkg engine
session = record start { vss = (0, transcript) ∷ []; state = dealt }

reaches : Reachable engine start session
unfolding increase_block count_block apply_message position count_share insert contains_key
reaches =
    next (next here (block start))
      (message later session alice (Message.deal transcript) verified refl)

reachable-IsWellFormed_example : IsWellFormed engine session
unfolding make_validators
reachable-IsWellFormed_example =
    reachable-IsWellFormed engine domains validators params alice keypair start session starts
      Distinct-addresses (omega arith) reaches

reachable-ProtocolRun_example :
    (s : Protocol engine) × ProtocolRun engine
      (minimum_shares params)
      (collecting 0 engine.group1.zero)
      s
    × Represents engine params session s
unfolding make_validators
reachable-ProtocolRun_example =
    reachable-ProtocolRun engine domains validators params alice keypair start session starts
      Distinct-addresses (omega arith) reaches

apply_message-verify_message_example :
    (after : PubliclyVerifiableDkg engine) × (apply_message engine later alice
        (Message.deal transcript)
      ≡ ok after)
    × IsAfter engine later alice (Message.deal transcript) after
apply_message-verify_message_example =
    apply_message-verify_message engine later alice (Message.deal transcript) Distinct-addresses
      verified

session-IsWellFormed : IsWellFormed engine session
session-IsWellFormed = record {
  addresses-Distinct = Distinct-addresses;
  few_validators = omega arith;
  vss-IsSorted = (tt, tt);
  keys_lt = (omega arith, tt);
  state_agrees = (omega arith, omega arith);
}

verify_message-aggregate_example :
    (made : Message engine) × (Dkg.aggregate engine session ≡ ok made)
    × (verify_message engine session bob made ≡ ok tt)
verify_message-aggregate_example =
    verify_message-aggregate engine session bob 0 2 session-IsWellFormed refl
      (omega arith, (omega arith, tt)) (omega arith) ((refl, refl), tt)

abbrev aggregation : Aggregation engine
aggregation = record {
  vss = record { coeffs = two ∷ []; shares = four ∷ one ∷ []; sigma = two };
  final_key = two;
}

verify_message-shares_example :
    verify_message engine session bob (
      Message.aggregate (record aggregation {
        vss = record aggregation.vss { shares = one ∷ one ∷ []; sigma = F5.zero };
      }))
    ≡ verify_message engine session bob (Message.aggregate aggregation)
verify_message-shares_example =
    verify_message-shares engine session bob aggregation (one ∷ one ∷ []) F5.zero
      (omega arith, (omega arith, tt)) (omega arith)

new-verify_full_example :
    (pvss : Pvss engine) × (Dealing.new engine msm two (F5.zero ∷ three ∷ []) start ≡ ok pvss)
    × (pvss.coeffs ≡ map (λ a. a • one) (two ∷ three ∷ []))
    × (verify_optimistic engine pvss ≡ ok true)
    × (verify_full engine pvss start ≡ ok true)
new-verify_full_example =
    new-verify_full engine msm two F5.zero (three ∷ []) start (omega arith, (omega arith, tt))
      (omega arith) refl

alice_key : alice.public_key ≡ public engine keypair
unfolding public ◌•◌
alice_key = refl

deserialize-serialize_example :
    (deserialize engine codec (serialize engine codec (sharing 2 7) ++ 9 ∷ [])
      ≡ ok (sharing 2 7, 9 ∷ []))
    × (length (serialize engine codec (sharing 2 7)) ≡ serialized_size engine codec (sharing 2 7))
deserialize-serialize_example =
    deserialize-serialize engine codec (sharing 2 7) (9 ∷ []) (omega arith, omega arith)

later-IsWellFormed : IsWellFormed engine later
later-IsWellFormed = record {
  addresses-Distinct = Distinct-addresses;
  few_validators = omega arith;
  vss-IsSorted = tt;
  keys_lt = tt;
  state_agrees = (refl, inl refl);
}

transcript-valid : verify_optimistic engine transcript ≡ ok true
unfolding verify_optimistic
transcript-valid = refl

-- From the session after one block, in which nobody has dealt.
Reachable-success_example :
    (after : PubliclyVerifiableDkg engine) × (key : F5) × Reachable engine later after
    × (after.state ≡ success key)
    × (sum_keys engine after.vss ≡ ok key)
Reachable-success_example =
    Reachable-success engine 0 2 (λ i. transcript) bob later later-IsWellFormed refl
      (omega arith, (omega arith, tt)) (omega arith) tt (omega arith) (omega arith)
      (λ i. transcript-valid) (λ i. (refl, refl))
