-- ===== src/Examples/Setup.antt =====
-- The setup of the simple and of the fast variant (tpke/src/lib.rs) at a concrete input.
use nucypher_ferveo.Base.{◌≡◌, refl, List, [], ◌∷◌, arith}
use nucypher_ferveo.Base.Outcome.{ok}
use nucypher_ferveo.Algebra.Space.{◌•◌}
use nucypher_ferveo.Toy.F5.{one, two, three, field, group, space}
use nucypher_ferveo.Toy.Instances.{engine, domain, domains, msm}
use nucypher_ferveo.Tpke.Context.{
  PrivateDecryptionContextSimple, PrivateDecryptionContextFast, PublicDecryptionContextFast,
}
use nucypher_ferveo.Base.Lists.{take, All}
use nucypher_ferveo.Tpke.Setup.Fast.{setup_fast}
use nucypher_ferveo.Tpke.Setup.FastParticipants.{AreFast, setup_fast-AreFast}
use nucypher_ferveo.Tpke.Threshold.{AreParticipants}
use nucypher_ferveo.Tpke.Setup.{setup_simple}
use nucypher_ferveo.Tpke.Setup.Participants.{setup_simple-AreParticipants}

setup_simple-AreParticipants_example :
    (contexts : List (PrivateDecryptionContextSimple engine)) × (setup_simple engine msm.msm1
        msm.msm2 domains
        (λ i. two)
        2
        3
        (two ∷ three ∷ [])
      ≡ ok (two • one, two • one, contexts))
    × AreParticipants engine (two ∷ three ∷ []) domain.elements contexts
setup_simple-AreParticipants_example =
    setup_simple-AreParticipants engine msm.msm1 msm.msm2 domains domain (λ i. two) 2 3 two
      (three ∷ []) (omega arith) refl (omega arith) (λ i e. cc)

setup_fast-AreFast_example :
    (contexts : List (PrivateDecryptionContextFast engine)) × (publics : List
      (PublicDecryptionContextFast engine))
    × (setup_fast engine msm.msm1 msm.msm2 domains (λ i. two) 2 3 (two ∷ three ∷ [])
        ≡ ok (two • one, two • one, contexts))
    × AreFast engine (two ∷ three ∷ []) (λ i. two) 0 (take 3 domain.elements) contexts publics
    × All (λ c. c.public_decryption_contexts ≡ publics) contexts
setup_fast-AreFast_example =
    setup_fast-AreFast engine msm.msm1 msm.msm2 domains domain (λ i. two) 2 3 two (three ∷ [])
      (omega arith) refl (omega arith) (λ i e. cc)
