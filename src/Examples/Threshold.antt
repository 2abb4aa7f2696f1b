-- ===== src/Examples/Threshold.antt =====
-- Threshold decryption with the key of a session (ferveo/src/lib.rs) at a concrete input.
use nucypher_ferveo.Base.{◌≡◌, ◌≢◌, refl, true, List, [], ◌∷◌, arith}
use nucypher_ferveo.Base.Outcome.{ok}
use nucypher_ferveo.Algebra.Field.{◌+◌, ◌*◌}
use nucypher_ferveo.Algebra.Space.{◌•◌, minus}
use nucypher_ferveo.Base.Lists.{length}
use nucypher_ferveo.Algebra.Poly.{eval}
use nucypher_ferveo.Subproduct.Multiexp.{fast_multiexp}
use nucypher_ferveo.Toy.F5.{F5, field, group, space, one, two, three, four}
use nucypher_ferveo.Toy.Instances.{engine, primitives, polynomials, domain, msm}
use nucypher_ferveo.Tpke.Ciphertext.{
  Ciphertext, encrypt, checked_decrypt_with_shared_secret, check_ciphertext_validity,
  construct_tag_hash,
}
use nucypher_ferveo.Tpke.Decryption.{DecryptionShareSimple}
use nucypher_ferveo.Ferveo.Common.{ExternalValidator, Keypair, public}
use nucypher_ferveo.Ferveo.Session.{dealt, Pvss, AggregatedPvss, PubliclyVerifiableDkg}
use nucypher_ferveo.Ferveo.Pvss.{g_inv}
use nucypher_ferveo.Ferveo.Pvss.Dealing
use nucypher_ferveo.Ferveo.Pvss.Dealing.{encrypt_shares}
use nucypher_ferveo.Ferveo.Dkg.{final_key}
use nucypher_ferveo.Ferveo.Threshold.{
  make_shared_secret_simple_tdec, make_decryption_shares, verify_shares, refresh_shared_secret,
}
use nucypher_ferveo.Ferveo.Threshold.Refresh.{refresh_shared_secret-make_shared_secret_simple_tdec}
use nucypher_ferveo.Ferveo.Threshold.Verify.{make_decryption_shares-verify_shares}
use nucypher_ferveo.Ferveo.Threshold.Joint.{AreDealt, joint}
use nucypher_ferveo.Ferveo.Recovery.{recover_shared_secret}
use nucypher_ferveo.Ferveo.Recovery.EndToEnd.{recover_shared_secret-make_shared_secret_simple_tdec}
use nucypher_ferveo.Ferveo.Threshold.Keys.{AreKeysOf}
use nucypher_ferveo.Ferveo.Threshold.EndToEnd.{make_shared_secret_simple_tdec-encrypt}

abbrev alice : ExternalValidator engine
alice = record { address = "alice"; public_key = record { encryption_key = two } }

abbrev bob : ExternalValidator engine
bob = record { address = "bob"; public_key = record { encryption_key = three } }

abbrev keypairs : List (Keypair engine)
keypairs = record { decryption_key = two } ∷ record { decryption_key = three } ∷ []

-- The polynomials 2 + 3x and 1 + x.
abbrev deals : List (F5 × F5 × List F5)
deals = (two, F5.zero, three ∷ []) ∷ (one, four, one ∷ []) ∷ []

abbrev of_alice : Pvss engine
of_alice = record { coeffs = two ∷ three ∷ []; shares = F5.zero ∷ four ∷ []; sigma = two }

abbrev of_bob : Pvss engine
of_bob = record { coeffs = one ∷ one ∷ []; shares = four ∷ four ∷ []; sigma = one }

abbrev session : PubliclyVerifiableDkg engine
session = record {
  params = record { tau = 0; security_threshold = 2; shares_num = 2 };
  pvss_params = record { g = one; h = one };
  session_keypair = record { decryption_key = two };
  validators =
      record { validator = alice; share_index = 0 }
      ∷ record { validator = bob; share_index = 1 }
      ∷ [];
  vss = (0, of_alice) ∷ (1, of_bob) ∷ [];
  domain = domain;
  state = dealt;
  me = 0;
}

session-AreDealt : AreDealt engine msm 1 session deals session.vss
unfolding Dealing.new encrypt_shares fast_multiexp eval ◌•◌ ◌+◌ ◌*◌
session-AreDealt = ((refl, refl), ((refl, refl), tt))

keypairs-AreKeysOf : AreKeysOf engine 0 session.validators keypairs
unfolding public ◌•◌
keypairs-AreKeysOf = ((refl, refl, λ e. cc), ((refl, refl, λ e. cc), tt))

make_shared_secret_simple_tdec-encrypt_example :
    (key : F5) × (c : Ciphertext engine) × (pvss : AggregatedPvss engine) × (shares : List
      (DecryptionShareSimple engine))
    × (secret : F5) × (final_key engine session ≡ ok key)
    × (encrypt engine primitives (7 ∷ 8 ∷ []) (1 ∷ []) key three ≡ ok c)
    × (make_shared_secret_simple_tdec engine primitives session (1 ∷ []) c keypairs
        ≡ ok (pvss, shares, secret))
    × (checked_decrypt_with_shared_secret engine primitives c
          (1 ∷ [])
          (g_inv engine session.pvss_params)
          secret
        ≡ ok (7 ∷ 8 ∷ []))
make_shared_secret_simple_tdec-encrypt_example =
    make_shared_secret_simple_tdec-encrypt engine msm primitives 1 session deals keypairs
      (7 ∷ 8 ∷ []) (1 ∷ []) three (omega arith) (omega arith) (omega arith) session-AreDealt
      keypairs-AreKeysOf refl (omega arith)

-- With as many validators as the domain has elements.
abbrev carol : ExternalValidator engine
carol = record { address = "carol"; public_key = record { encryption_key = four } }

abbrev dave : ExternalValidator engine
dave = record { address = "dave"; public_key = record { encryption_key = one } }

abbrev full_keypairs : List (Keypair engine)
full_keypairs =
    record { decryption_key = two }
    ∷ record { decryption_key = three }
    ∷ record { decryption_key = four }
    ∷ record { decryption_key = one }
    ∷ []

abbrev full_session : PubliclyVerifiableDkg engine
full_session = record session {
  validators =
      record { validator = alice; share_index = 0 }
      ∷ record { validator = bob; share_index = 1 }
      ∷ record { validator = carol; share_index = 2 }
      ∷ record { validator = dave; share_index = 3 }
      ∷ [];
  vss =
      (0, record of_alice { shares = F5.zero ∷ four ∷ one ∷ one ∷ [] })
      ∷ (1, record of_bob { shares = four ∷ four ∷ F5.zero ∷ four ∷ [] })
      ∷ [];
}

full_session-AreDealt : AreDealt engine msm 1 full_session deals full_session.vss
unfolding Dealing.new encrypt_shares fast_multiexp eval ◌•◌ ◌+◌ ◌*◌
full_session-AreDealt = ((refl, refl), ((refl, refl), tt))

full_keypairs-AreKeysOf : AreKeysOf engine 0 full_session.validators full_keypairs
unfolding public ◌•◌
full_keypairs-AreKeysOf = (
  (refl, refl, λ e. cc),
  ((refl, refl, λ e. cc), ((refl, refl, λ e. cc), ((refl, refl, λ e. cc), tt))),
)

abbrev sealed : Ciphertext engine
sealed = record { commitment = three; auth_tag = two; ciphertext = 5 ∷ 6 ∷ [] }

accepted :
    check_ciphertext_validity engine primitives sealed [] (g_inv engine session.pvss_params) ≡ ok tt
unfolding check_ciphertext_validity construct_tag_hash g_inv minus
accepted = refl

refresh_shared_secret-make_shared_secret_simple_tdec_example :
    (pvss : AggregatedPvss engine) × (shares : List (DecryptionShareSimple engine)) × (secret : F5)
    × (make_shared_secret_simple_tdec engine primitives full_session [] sealed full_keypairs
        ≡ ok (pvss, shares, secret))
    × (refresh_shared_secret engine primitives polynomials full_session [] sealed full_keypairs pvss
          (three ∷ four ∷ [])
        ≡ ok secret)
refresh_shared_secret-make_shared_secret_simple_tdec_example =
    refresh_shared_secret-make_shared_secret_simple_tdec engine msm primitives polynomials 1
      full_session deals full_keypairs sealed [] three (four ∷ []) (omega arith) refl (omega arith)
      full_session-AreDealt full_keypairs-AreKeysOf refl refl (omega arith) accepted

-- A transcript that nobody has dealt.
abbrev any_pvss : AggregatedPvss engine
any_pvss = record { coeffs = []; shares = three ∷ one ∷ []; sigma = two }

make_decryption_shares-verify_shares_example :
    (shares : List (DecryptionShareSimple engine)) × (make_decryption_shares engine primitives
        any_pvss sealed []
        (g_inv engine session.pvss_params)
        keypairs
      ≡ ok shares)
    × (length shares ≡ 2)
    × (verify_shares engine one sealed (three ∷ one ∷ []) keypairs shares ≡ true)
make_decryption_shares-verify_shares_example =
    make_decryption_shares-verify_shares engine primitives any_pvss sealed []
      (g_inv engine session.pvss_params) accepted keypairs (omega arith)
      ((λ e. cc), ((λ e. cc), tt))

one_ne_zero : one ≢ F5.zero
one_ne_zero e = cc

recover_shared_secret-make_shared_secret_simple_tdec_example :
    (pvss : AggregatedPvss engine) × (shares : List (DecryptionShareSimple engine)) × (secret : F5)
    × (make_shared_secret_simple_tdec engine primitives full_session [] sealed full_keypairs
        ≡ ok (pvss, shares, secret))
    × (recover_shared_secret engine polynomials primitives full_session [] sealed full_keypairs two
          (λ i. three ∷ four ∷ [])
          one
        ≡ ok (record { private_key_share = eval (joint engine msm deals) two • one }, secret))
recover_shared_secret-make_shared_secret_simple_tdec_example =
    recover_shared_secret-make_shared_secret_simple_tdec engine msm primitives polynomials 1 3
      full_session deals full_keypairs sealed [] two (λ i. (three, four ∷ [])) one refl refl
      (omega arith) (omega arith) full_session-AreDealt full_keypairs-AreKeysOf refl refl
      (λ i. omega arith) accepted one_ne_zero
