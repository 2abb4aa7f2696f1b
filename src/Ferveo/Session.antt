-- ===== src/Ferveo/Session.antt =====
-- The data of a session, ferveo/src/dkg.rs, ferveo/src/dkg/pv.rs and ferveo/src/vss/pvss.rs.
use Prim.Native.Nat.{ℕ}
use nucypher_ferveo.Base.{List}
use nucypher_ferveo.Base.BTreeMap.{BTreeMap}
use nucypher_ferveo.Algebra.Engine.{Engine}
use nucypher_ferveo.Algebra.Domain.{Domain}
use nucypher_ferveo.Ferveo.Common.{Validator, Keypair}

pub record Params : Type 0 where
  pub tau : ℕ
  pub security_threshold : ℕ
  pub shares_num : ℕ

pub data PvssScheduler : Type 0 where
  wait : PvssScheduler
  issue : PvssScheduler

-- The fields of `Sharing` are the shares accumulated and the number of blocks.
pub data DkgState (E : Engine) : Type 0 where
  sharing : ℕ → ℕ → DkgState E
  dealt : DkgState E
  success : E.G1 → DkgState E
  invalid : DkgState E

pub record PubliclyVerifiableParams (E : Engine) : Type 0 where
  pub g : E.G1
  pub h : E.G2

-- The marker structs of transcripts.
pub data Marker : Type 0 where
  unaggregated : Marker
  aggregated : Marker

pub record PubliclyVerifiableSs (E : Engine) (T : Marker) : Type 0 where
  pub coeffs : List E.G1
  pub shares : List E.G2
  pub sigma : E.G2

abbrev pub Pvss : Engine → Type 0
Pvss E = PubliclyVerifiableSs E unaggregated

abbrev pub AggregatedPvss : Engine → Type 0
AggregatedPvss E = PubliclyVerifiableSs E aggregated

pub record PubliclyVerifiableDkg (E : Engine) : Type 0 where
  pub params : Params
  pub pvss_params : PubliclyVerifiableParams E
  pub session_keypair : Keypair E
  pub validators : List (Validator E)
  pub vss : BTreeMap (Pvss E)
  pub domain : Domain E
  pub state : DkgState E
  pub me : ℕ

pub record Aggregation (E : Engine) : Type 0 where
  pub vss : AggregatedPvss E
  pub final_key : E.G1

pub data Message (E : Engine) : Type 0 where
  deal : Pvss E → Message E
  aggregate : Aggregation E → Message E

-- The errors, one for each message that `anyhow!` and `context` are given.
pub data DkgError : Type 0 where
  no_domain : DkgError
  not_in_validator_set : DkgError
  keys_not_announced : DkgError
  invalid_state_to_deal : DkgError
  not_enough_transcripts : DkgError
  unknown_dealer : DkgError
  repeat_dealer : ℕ → DkgError
  invalid_transcript : DkgError
  aggregation_mismatch : DkgError
  insufficient_shares : DkgError
  wrong_final_key : DkgError
  invalid_state_to_verify : DkgError
  invalid_state_to_apply : DkgError
