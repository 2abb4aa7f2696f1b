-- ===== src/Ferveo/Dkg/Protocol.antt =====
-- What a session promises: the protocol that the state machine of ferveo/src/dkg/pv.rs implements.
use nucypher_ferveo.Base.{ℕ, suc}
use nucypher_ferveo.Base.Tests.{leb, if◌then◌else◌}
use nucypher_ferveo.Algebra.Space.{Group, ◌⊕◌}
use nucypher_ferveo.Algebra.Engine.{Engine}

-- Contributions are collected, with their number and their sum, until they are enough; then the
-- protocol is ready to finish with the sum.
pub data Protocol (E : Engine) : Type 0 where
  collecting : ℕ → E.G1 → Protocol E
  ready : E.G1 → Protocol E
  finished : E.G1 → Protocol E

module _ (E : Engine) where
  open E use {G1}

  instance abbrev g1 : Group G1
  g1 = E.group1

  -- One contribution more; those that come late are added, too.
  unfoldable pub contribute : ℕ → G1 → Protocol E → Protocol E
  contribute enough a (collecting count key) =
      if leb enough (suc count) then ready (a ⊕ key) else collecting (suc count) (a ⊕ key)
  contribute enough a (ready key) = ready (a ⊕ key)
  contribute enough a (finished key) = finished key

  pub data ProtocolStep (enough : ℕ) : Protocol E → Protocol E → Type 0 where
    idle : (s : Protocol E) → ProtocolStep enough s s
    contribution_to :
        (count : ℕ) (key a : G1)
        → ProtocolStep enough (collecting count key) (contribute enough a (collecting count key))
    late_contribution :
        (key a : G1) → ProtocolStep enough (ready key) (contribute enough a (ready key))
    finish : (key : G1) → ProtocolStep enough (ready key) (finished key)

  pub data ProtocolRun (enough : ℕ) (start : Protocol E) : Protocol E → Type 0 where
    begin : ProtocolRun enough start start
    proceed :
        {s after : Protocol E}
        → ProtocolRun enough start s
        → ProtocolStep enough s after
        → ProtocolRun enough start after
