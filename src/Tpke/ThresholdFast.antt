-- ===== src/Tpke/ThresholdFast.antt =====
-- Threshold decryption from end to end in the fast variant: the dealer's setup, encryption, the shares
-- of all participants, their combination, and decryption with the combined secret (tpke/src).
use Prim.Native.Nat.{◌+◌ as ◌+ℕ◌}
use nucypher_ferveo.Base.{
  ℕ, zero, suc, ◌≤◌, ◌≡◌, ◌≢◌, refl, sym, ap, ◌∙◌, some, List, [], ◌∷◌, arith,
}
use nucypher_ferveo.Base.Lists.{length, get_elem?, take, length-take, All}
use nucypher_ferveo.Base.Predicates.{All-take, All-of-get_elem?, Distinct-take}
use nucypher_ferveo.Base.Outcome.{ok, ◌>>=◌, >>=-eq-ok}
use nucypher_ferveo.Algebra.Field.{Field, ◌*◌, neg-neg, zero-mul, mul-one}
use nucypher_ferveo.Algebra.Space.{Group, Space, ◌•◌, minus, one-smul}
use nucypher_ferveo.Algebra.Engine.{Engine}
use nucypher_ferveo.Algebra.Domain.{Domain, Domains, FixedBaseMsm}
use nucypher_ferveo.Algebra.DensePolynomials.{DensePolynomials}
use nucypher_ferveo.Algebra.Poly.{eval, eval-zero}
use nucypher_ferveo.Tpke.Interface.{Primitives}
use nucypher_ferveo.Tpke.Ciphertext.{
  Ciphertext, TpkeResult, encrypt, check_ciphertext_validity, checked_decrypt_with_shared_secret,
}
use nucypher_ferveo.Tpke.Ciphertext.Decrypt.{decrypt-encrypt}
use nucypher_ferveo.Tpke.Context.{PrivateDecryptionContextFast, PublicDecryptionContextFast}
use nucypher_ferveo.Tpke.Decryption.{DecryptionShareFast, create_share_fast}
use nucypher_ferveo.Tpke.Combine.{share_combine_fast}
use nucypher_ferveo.Tpke.Combine.Sign.{sign}
use nucypher_ferveo.Tpke.Combine.Fast.{BatchInversion, prepare_combine_fast}
use nucypher_ferveo.Tpke.Combine.Fast.Nodes.{take-AreRegular}
use nucypher_ferveo.Tpke.Combine.Fast.Keys.{AreFastShares, share_combine_fast-prepare_combine_fast}
use nucypher_ferveo.Tpke.Setup.Fast.{setup_fast}
use nucypher_ferveo.Tpke.Setup.FastParticipants.{next_inverse, AreFast, setup_fast-AreFast}

module _ (E : Engine) (P : Primitives E) where
  open E use {Fr, G1, G2, Fqk, gen1, gen2, pairing}

  instance abbrev fr : Field Fr
  fr = E.field

  instance abbrev g1 : Group G1
  g1 = E.group1

  instance abbrev g2 : Group G2
  g2 = E.group2

  instance abbrev gt : Group Fqk
  gt = E.groupt

  instance abbrev s1 : Space Fr G1
  s1 = E.space1

  instance abbrev s2 : Space Fr G2
  s2 = E.space2

  instance abbrev st : Space Fr Fqk
  st = E.spacet

  -- Every participant creates its share of the ciphertext.
  abbrev pub create_shares_fast :
      List (PrivateDecryptionContextFast E)
      → Ciphertext E
      → List ℕ
      → TpkeResult (List (DecryptionShareFast E))
  create_shares_fast [] c aad = ok []
  create_shares_fast (context ∷ contexts) c aad = do
    share ← create_share_fast E P context c aad (minus gen1)
    shares ← create_shares_fast contexts c aad
    ok (share ∷ shares)

  create_shares_fast-AreFastShares :
      (cs : List Fr) (b : ℕ → Fr) (i : ℕ) (xs : List Fr)
      (contexts : List (PrivateDecryptionContextFast E))
      (known publics : List (PublicDecryptionContextFast E)) (c : Ciphertext E) (aad : List ℕ)
      → check_ciphertext_validity E P c aad (minus gen1) ≡ ok tt
      → ((i : ℕ) → b i ≢ fr.zero)
      → ((j : ℕ) → get_elem? known (i +ℕ j) ≡ get_elem? publics j)
      → AreFast E cs b i xs contexts publics
      → (shares : List (DecryptionShareFast E)) × (create_shares_fast contexts c aad ≡ ok shares)
        × AreFastShares E cs c.commitment known xs shares
  unfolding create_share_fast
  create_shares_fast-AreFastShares cs b i [] [] known [] c aad valid nonzero at p = ([], refl, tt)
  create_shares_fast-AreFastShares cs b i [] [] known (q ∷ publics) c aad valid nonzero at p =
      absurd p
  create_shares_fast-AreFastShares cs b i [] (context ∷ contexts) known [] c aad valid nonzero at
        p =
      absurd p
  create_shares_fast-AreFastShares cs b i [] (context ∷ contexts) known (q ∷ publics) c aad valid
        nonzero at p =
      absurd p
  create_shares_fast-AreFastShares cs b i (x ∷ xs) [] known [] c aad valid nonzero at p = absurd p
  create_shares_fast-AreFastShares cs b i (x ∷ xs) [] known (q ∷ publics) c aad valid nonzero at p =
      absurd p
  create_shares_fast-AreFastShares cs b i (x ∷ xs) (context ∷ contexts) known [] c aad valid nonzero
        at p =
      absurd p
  create_shares_fast-AreFastShares cs b i (x ∷ xs) (context ∷ contexts) known (q ∷ publics) c aad
        valid nonzero at
        (((index, key, b_inv, g_inv), (domain, n_0, public, blinding, blinded, h_inv)), p) =
      let (shares, created, s) =
        create_shares_fast-AreFastShares cs b (suc i) xs contexts known publics c aad valid nonzero
          (λ j. ap (get_elem? known) {x = suc i +ℕ j} {y = i +ℕ suc j} (omega arith) ∙ at (suc j))
          p in
      (
        record {
          decrypter_index = context.index;
          decryption_share = context.setup_params.b_inv • c.commitment;
        }
            ∷ shares,
        rw (valid, created) refl,
        (
          (
            q,
            b i,
            ap (get_elem? known) (index ∙ omega arith) ∙ at zero,
            domain,
            n_0,
            nonzero i,
            blinded,
            ap (λ t. t • c.commitment) b_inv,
          ),
          s,
        ),
      )

  element-inverse : (d : Domain E) (i : ℕ) → (y : Fr) × (d.element i * y ≡ fr.one)
  element-inverse d zero = (fr.one, rw d.element-zero (mul-one fr.one))
  element-inverse d (suc i) =
      let (y, e) = element-inverse d i in
      (
        y * d.group_gen_inv,
        ap (λ t. t * (y * d.group_gen_inv)) (d.element-suc i) ∙ next_inverse E d (d.element i) y e,
      )

  -- No element of an evaluation domain is zero.
  pub elements-nonzero : (d : Domain E) → All (λ x. x ≢ fr.zero) d.elements
  elements-nonzero d = All-of-get_elem? _ d.elements (λ i lt.
      (d.element i, d.get_elem?-elements i (omega (arith, lt, d.length-elements)), nonzero i))
    where
      nonzero : (i : ℕ) → d.element i ≢ fr.zero
      nonzero i z =
          let (y, e) = element-inverse d i in
          fr.one-ne-zero (sym e ∙ ap (λ t. t * y) z ∙ zero-mul y)

  pub sign-even : (k : ℕ) → sign {F = Fr} (k +ℕ k) ≡ fr.one
  sign-even zero = refl
  sign-even (suc k) =
      ap sign {x = suc k +ℕ suc k} {y = suc (suc (k +ℕ k))} (omega arith)
      ∙ neg-neg (sign (k +ℕ k))
      ∙ sign-even k

  -- Threshold decryption in the fast variant, from end to end: for an even number of shares other than
  -- zero, not a multiple of the characteristic, a threshold of at most that number, a polynomial f
  -- with at least one and at most that number of coefficients, a domain for it, scalars other than
  -- zero for the participants, and a message of at most max_len bytes: the setup succeeds, encryption
  -- to f(0)·G succeeds, each participant creates a share of the ciphertext, the keys are prepared from
  -- the public contexts that every participant knows, and with the combined secret the ciphertext
  -- passes its check and the message is decrypted.
  pub decrypt-share_combine_fast :
      (M1 : FixedBaseMsm Fr G1) (M2 : FixedBaseMsm Fr G2) (domains : Domains E) (domain : Domain E)
      (D : DensePolynomials Fr) (I : BatchInversion Fr) (b : ℕ → Fr) (threshold shares_num half : ℕ)
      (message aad : List ℕ) (r a : Fr) (cs : List Fr)
      → threshold ≤ shares_num
      → shares_num ≡ half +ℕ half
      → 1 ≤ shares_num
      → D.from shares_num ≢ fr.zero
      → domains.new shares_num ≡ some domain
      → length (a ∷ cs) ≤ shares_num
      → ((i : ℕ) → b i ≢ fr.zero)
      → length message ≤ P.max_len
      → (contexts : List (PrivateDecryptionContextFast E)) × (publics : List
          (PublicDecryptionContextFast E))
        × (c : Ciphertext E) × (shares : List (DecryptionShareFast E)) × (keys : List G2)
        × (setup_fast E M1 M2 domains b threshold shares_num (a ∷ cs)
            ≡ ok (a • gen1, a • gen2, contexts))
        × All (λ context. context.public_decryption_contexts ≡ publics) contexts
        × (encrypt E P message aad (a • gen1) r ≡ ok c)
        × (create_shares_fast contexts c aad ≡ ok shares)
        × (prepare_combine_fast E D I publics shares ≡ ok keys)
        × (checked_decrypt_with_shared_secret E P c aad
              (minus gen1)
              (share_combine_fast E shares keys)
            ≡ ok message)
  unfolding checked_decrypt_with_shared_secret
  decrypt-share_combine_fast M1 M2 domains domain D I b threshold shares_num half message aad r a cs
        le even pos char found fits nonzero short =
      let bound = domains.new-size shares_num found in
      let nodes = take shares_num domain.elements in
      let count =
        length-take shares_num domain.elements (omega (arith, bound, domain.length-elements)) in
      let (contexts, publics, set_up, p, known) =
        setup_fast-AreFast E M1 M2 domains domain b threshold shares_num a cs le found
          (omega (arith, bound, fits)) nonzero in
      let (c, encrypted, _, decrypted) = decrypt-encrypt E P message aad a r short in
      let (shares, created, s) =
        create_shares_fast-AreFastShares (a ∷ cs) b 0 nodes contexts publics publics c aad valid
          nonzero (λ j. ap (get_elem? publics) {x = 0 +ℕ j} {y = j} (omega arith)) p in
      let (keys, prepared, combined) =
        share_combine_fast-prepare_combine_fast E D I (a ∷ cs) nodes c.commitment publics shares
          (omega (arith, count)) (Distinct-take shares_num domain.elements domain.elements-Distinct)
          (take-AreRegular E domain shares_num bound)
          (All-take _ shares_num domain.elements (elements-nonzero domain))
          (λ z. char (ap D.from (sym count) ∙ z)) (omega (arith, count, fits)) s in
      (
        contexts,
        publics,
        c,
        shares,
        keys,
        set_up,
        known,
        encrypted,
        created,
        prepared,
        rw
            (
              combined,
              count,
              even,
              sign-even half,
              one-smul Fr (pairing c.commitment (eval (a ∷ cs) fr.zero • gen2)),
              eval-zero a cs,
            )
            decrypted,
      )
    where
      valid :
          check_ciphertext_validity E P
            (decrypt-encrypt E P message aad a r short).0
            aad
            (minus gen1)
          ≡ ok tt
      valid =
          (>>=-eq-ok (check_ciphertext_validity E P _ aad (minus gen1)) _
            (decrypt-encrypt E P message aad a r short).3).1
