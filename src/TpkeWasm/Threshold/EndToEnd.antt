-- ===== src/TpkeWasm/Threshold/EndToEnd.antt =====
-- The fast variant from end to end through tpke-wasm/src/lib.rs.
use Prim.Native.Nat.{◌+◌ as ◌+ℕ◌, ◌^◌}
use nucypher_ferveo.Base.{ℕ, ◌≤◌, ◌≡◌, ◌≢◌, refl, sym, ap, ◌∙◌, some, List, [], ◌∷◌, map, arith}
use nucypher_ferveo.Base.Tests.{eq→==}
use nucypher_ferveo.Base.Lists.{length, get_elem?, take, length-take, All}
use nucypher_ferveo.Base.Predicates.{All-take, Distinct-take}
use nucypher_ferveo.Algebra.Field.{Field}
use nucypher_ferveo.Algebra.Space.{Group, Space, ◌•◌, minus, one-smul}
use nucypher_ferveo.Algebra.Engine.{Engine, product_of_one}
use nucypher_ferveo.Algebra.Domain.{Domain, Domains, FixedBaseMsm}
use nucypher_ferveo.Algebra.DensePolynomials.{DensePolynomials}
use nucypher_ferveo.Algebra.Poly.{eval, eval-zero}
use nucypher_ferveo.Tpke.Interface.{Primitives}
use nucypher_ferveo.Tpke.Ciphertext.{checked_decrypt, checked_decrypt_with_shared_secret}
use nucypher_ferveo.Tpke.Ciphertext.Decrypt.{decrypt-encrypt}
use nucypher_ferveo.Tpke.Context.{PrivateDecryptionContextFast, PublicDecryptionContextFast}
use nucypher_ferveo.Tpke.Combine.Fast.{BatchInversion}
use nucypher_ferveo.Tpke.Combine.Fast.Nodes.{take-AreRegular}
use nucypher_ferveo.Tpke.Combine.Fast.Keys.{share_combine_fast-prepare_combine_fast}
use nucypher_ferveo.Tpke.Combine.Fast.Checked.{checked_share_combine_fast-ok}
use nucypher_ferveo.Tpke.Combine.{share_combine_fast}
use nucypher_ferveo.Tpke.Setup.FastParticipants.{AreFast, setup_fast-AreFast}
use nucypher_ferveo.Tpke.ThresholdFast.{elements-nonzero, sign-even}
use nucypher_ferveo.Tpke.Api.Limbs.{Representation}
use nucypher_ferveo.Tpke.Api.Payload.{DecryptionShare}
use nucypher_ferveo.TpkeWasm.Ciphertext as Wasm
use nucypher_ferveo.TpkeWasm.Ciphertext.{encrypt, decrypt}
use nucypher_ferveo.TpkeWasm.Setup as Setup
use nucypher_ferveo.TpkeWasm.Setup.{api_context, decrypter_indexes}
use nucypher_ferveo.TpkeWasm.SharedSecret as SharedSecret
use nucypher_ferveo.TpkeWasm.SharedSecret.{build, decrypt_with_shared_secret}
use nucypher_ferveo.TpkeWasm.Threshold.{
  exchange_all, exchange_all-AreFastShares, add_all, add_all-append,
}

module _ (E : Engine) (P : Primitives E) (R : Representation E) where
  open E use {Fr, G1, G2, Fqk, gen1, gen2, pairing}

  instance abbrev fr : Field Fr
  fr = E.field

  instance abbrev g1 : Group G1
  g1 = E.group1

  instance abbrev g2 : Group G2
  g2 = E.group2

  instance abbrev gt : Group Fqk
  gt = E.groupt

  instance abbrev s1 : Space Fr G1
  s1 = E.space1

  instance abbrev s2 : Space Fr G2
  s2 = E.space2

  instance abbrev st : Space Fr Fqk
  st = E.spacet

  first_contexts :
      (cs : List Fr) (b : ℕ → Fr) (i : ℕ) (xs : List Fr)
      (contexts : List (PrivateDecryptionContextFast E))
      (known publics : List (PublicDecryptionContextFast E))
      → 1 ≤ length xs
      → AreFast E cs b i xs contexts publics
      → All (λ c. c.public_decryption_contexts ≡ known) contexts
      → (context : PrivateDecryptionContextFast E) × (public : PublicDecryptionContextFast E)
        × (get_elem? contexts 0 ≡ some context)
        × (context.public_decryption_contexts ≡ known)
        × (get_elem? publics 0 ≡ some public)
        × (public.h_inv ≡ minus gen2)
  first_contexts cs b i [] contexts known publics pos p h = absurd (omega arith)
  first_contexts cs b i (x ∷ xs) [] known [] pos p h = absurd p
  first_contexts cs b i (x ∷ xs) [] known (q ∷ publics) pos p h = absurd p
  first_contexts cs b i (x ∷ xs) (c ∷ contexts) known [] pos p h = absurd p
  first_contexts cs b i (x ∷ xs) (c ∷ contexts) known (q ∷ publics) pos p h =
      let (_, (_, _, _, _, _, inverse)) = p.0 in (c, q, refl, h.0, refl, inverse)

  -- The fast variant through the bindings, from end to end: for an even number of shares other than
  -- zero, at most 2^64 and not a multiple of the characteristic, a threshold of at most that number, a
  -- polynomial with at least one and at most that number of coefficients, a domain for it, scalars
  -- other than zero for the participants, and a message of at most max_len bytes: the setup and the
  -- encryption to its public key succeed, and the private key decrypts the message. For each index of
  -- the setup the participant's payload is read back from its bytes, and so is the share that it makes.
  -- A builder to which these shares are added in order makes a secret with which the message is
  -- decrypted.
  pub decrypt_with_shared_secret-build :
      (M1 : FixedBaseMsm Fr G1) (M2 : FixedBaseMsm Fr G2) (domains : Domains E) (domain : Domain E)
      (D : DensePolynomials Fr) (I : BatchInversion Fr) (b : ℕ → Fr) (threshold shares_num half : ℕ)
      (message aad : List ℕ) (r a : Fr) (cs : List Fr)
      → threshold ≤ shares_num
      → shares_num ≡ half +ℕ half
      → 1 ≤ shares_num
      → shares_num ≤ 2 ^ 64
      → D.from shares_num ≢ fr.zero
      → domains.new shares_num ≡ some domain
      → length (a ∷ cs) ≤ shares_num
      → ((i : ℕ) → b i ≢ fr.zero)
      → length message ≤ P.max_len
      → (setup : Setup.Setup E) × (c : Wasm.Ciphertext E) × (shares : List (DecryptionShare E))
        × (secret : SharedSecret.SharedSecret E) × (Setup.new E P R M1 M2 domains b
              (a ∷ cs)
              threshold
              shares_num
            ≡ some setup)
        × (encrypt E P message aad setup.public_key r ≡ some c)
        × (decrypt E P c setup.private_key ≡ some message)
        × (exchange_all E P R setup c (decrypter_indexes E P R setup) ≡ some shares)
        × (build E D I (add_all E P R (SharedSecret.new E setup) shares) c ≡ some secret)
        × (decrypt_with_shared_secret E P c secret ≡ some message)
  unfolding Setup.new encrypt decrypt decrypter_indexes SharedSecret.new build
      decrypt_with_shared_secret checked_decrypt checked_decrypt_with_shared_secret
  decrypt_with_shared_secret-build M1 M2 domains domain D I b threshold shares_num half message aad
        r a cs le even pos small char found fits nonzero short =
      let bound = domains.new-size shares_num found in
      let nodes = take shares_num domain.elements in
      let count =
        length-take shares_num domain.elements (omega (arith, bound, domain.length-elements)) in
      let (contexts, publics, set_up, p, known) =
        setup_fast-AreFast E M1 M2 domains domain b threshold shares_num a cs le found
          (omega (arith, bound, fits)) nonzero in
      let (context, public, first, knows, first_public, inverse) =
        first_contexts (a ∷ cs) b 0 nodes contexts publics publics (omega (arith, count)) p known in
      let (sealed, encrypted, _, decrypted) = decrypt-encrypt E P message aad a r short in
      let setup : Setup.Setup E = record {
        public_key = record { point = a • gen1 };
        private_key = record { point = a • gen2 };
        private_contexts = map (api_context E P R) contexts;
        public_contexts = publics;
      } in
      let c : Wasm.Ciphertext E = record { ciphertext = sealed; aad = aad; g_inv = minus gen1 } in
      let (shares, exchanged, fast, unblinded, lengths) =
        exchange_all-AreFastShares E P R setup c (a ∷ cs) b 0 nodes contexts publics publics nonzero
          (λ j. ap (get_elem? setup.private_contexts) {x = 0 +ℕ j} {y = j} (omega arith))
          (λ j. ap (get_elem? publics) {x = 0 +ℕ j} {y = j} (omega arith)) (omega (arith, count))
          p in
      let collected = map (λ s. s.share) shares in
      let (keys, prepared, combined) =
        share_combine_fast-prepare_combine_fast E D I (a ∷ cs) nodes sealed.commitment publics
          collected (omega (arith, count))
          (Distinct-take shares_num domain.elements domain.elements-Distinct)
          (take-AreRegular E domain shares_num bound)
          (All-take _ shares_num domain.elements (elements-nonzero E P domain))
          (λ z. char (ap D.from (sym count) ∙ z)) (omega (arith, count, fits)) fast in
      (
        setup,
        c,
        shares,
        record { value = share_combine_fast E collected keys },
        rw (set_up, first, knows) refl,
        rw encrypted refl,
        rw (product_of_one E sealed.commitment (a • gen2), decrypted) refl,
        exchanged,
        rw
            (
              add_all-append E P R (SharedSecret.new E setup) shares,
              eq→== (length collected) (length publics) lengths,
              prepared,
              checked_share_combine_fast-ok E publics public sealed collected keys first_public
                  inverse unblinded,
            )
            refl,
        rw
            (
              combined,
              count,
              even,
              sign-even E P half,
              one-smul Fr (pairing sealed.commitment (eval (a ∷ cs) fr.zero • gen2)),
              eval-zero a cs,
              decrypted,
            )
            refl,
      )
