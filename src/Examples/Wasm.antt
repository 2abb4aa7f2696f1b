-- ===== src/Examples/Wasm.antt =====
-- The bindings of tpke-wasm/src/lib.rs at a concrete input.
use nucypher_ferveo.Base.{◌≡◌, ◌≢◌, refl, some, List, [], ◌∷◌, arith}
use nucypher_ferveo.Algebra.Field.{◌+◌}
use nucypher_ferveo.Toy.F5.{F5, two, three, four}
use nucypher_ferveo.Toy.Instances.{engine, primitives, domains, domain, msm}
use nucypher_ferveo.Toy.Polynomials.{dense, batch}
use nucypher_ferveo.Toy.Representation.{representation}
use nucypher_ferveo.Tpke.Api.Payload.{DecryptionShare}
use nucypher_ferveo.TpkeWasm.Ciphertext.{Ciphertext, encrypt, decrypt}
use nucypher_ferveo.TpkeWasm.Setup as Setup
use nucypher_ferveo.TpkeWasm.Setup.{decrypter_indexes}
use nucypher_ferveo.TpkeWasm.SharedSecret as SharedSecret
use nucypher_ferveo.TpkeWasm.SharedSecret.{build, decrypt_with_shared_secret}
use nucypher_ferveo.TpkeWasm.Threshold.{exchange_all, add_all}
use nucypher_ferveo.TpkeWasm.Threshold.EndToEnd.{decrypt_with_shared_secret-build}

two_ne_zero : dense.from 2 ≢ F5.zero
unfolding ◌+◌
two_ne_zero e = cc

decrypt_with_shared_secret-build_example :
    (setup : Setup.Setup engine) × (c : Ciphertext engine) × (shares : List
      (DecryptionShare engine))
    × (secret : SharedSecret.SharedSecret engine) × (Setup.new engine primitives representation
          msm.msm1 msm.msm2 domains
          (λ i. three)
          (two ∷ four ∷ [])
          2
          2
        ≡ some setup)
    × (encrypt engine primitives (7 ∷ 8 ∷ []) (1 ∷ []) setup.public_key three ≡ some c)
    × (decrypt engine primitives c setup.private_key ≡ some (7 ∷ 8 ∷ []))
    × (exchange_all engine primitives representation setup c
          (decrypter_indexes engine primitives representation setup)
        ≡ some shares)
    × (build engine dense batch
          (add_all engine primitives representation (SharedSecret.new engine setup) shares)
          c
        ≡ some secret)
    × (decrypt_with_shared_secret engine primitives c secret ≡ some (7 ∷ 8 ∷ []))
decrypt_with_shared_secret-build_example =
    decrypt_with_shared_secret-build engine primitives representation msm.msm1 msm.msm2 domains
      domain dense batch (λ i. three) 2 2 1 (7 ∷ 8 ∷ []) (1 ∷ []) three two (four ∷ [])
      (omega arith) refl (omega arith) (omega arith) two_ne_zero refl (omega arith) (λ i e. cc)
      (omega arith)
