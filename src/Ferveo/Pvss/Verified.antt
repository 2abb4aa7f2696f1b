-- ===== src/Ferveo/Pvss/Verified.antt =====
-- A transcript that `PubliclyVerifiableSS::new` deals: its verifications, and the shares that are
-- decrypted from it (ferveo/src/vss/pvss.rs).
use nucypher_ferveo.Base.{
  ℕ, zero, suc, ◌≢◌, ◌<◌, ◌≤◌, ◌≡◌, refl, sym, ap, ◌∙◌, true, some, List, [], ◌∷◌, map, arith,
}
use mathlib.Core.Path.{subst, ap₂}
use nucypher_ferveo.Base.Tests.{→is_yes, eq→==}
use nucypher_ferveo.Base.Outcome.{ok}
use nucypher_ferveo.Base.Lists.{
  length, get_elem?, get_elem?-lt, get_elem?-map, All, length-map, All-get_elem?,
}
use nucypher_ferveo.Algebra.Field.{Field}
use nucypher_ferveo.Algebra.Field.Inverse.{inv, inverse-inv}
use nucypher_ferveo.Algebra.Space.{Group, Space, ◌•◌, inv-smul, smul_comm}
use nucypher_ferveo.Algebra.Engine.{Engine}
use nucypher_ferveo.Algebra.Domain.{Domain}
use nucypher_ferveo.Algebra.Poly.{eval, eval_points, eval_points-smul}
use nucypher_ferveo.Subproduct.Multiexp.{fast_multiexp_lem}
use nucypher_ferveo.Ferveo.Common.{Validator, Keypair, public}
use nucypher_ferveo.Ferveo.Session.{
  Marker, AggregatedPvss, PubliclyVerifiableSs, Pvss, PubliclyVerifiableDkg,
}
use nucypher_ferveo.Ferveo.Pvss.{verify_optimistic, verify_full, check_shares}
use nucypher_ferveo.Ferveo.Pvss.Shares.{decrypt_private_key_share}
use nucypher_ferveo.Ferveo.Pvss.Dealing
use nucypher_ferveo.Ferveo.Pvss.Dealing.{Msm, encrypt_shares}

some_injective {ℓ} : {A : Type ℓ} {a b : A} → some a ≡ some b → a ≡ b
some_injective h = cc

module _ (E : Engine) (M : Msm E) where
  open E use {Fr, G1, G2, gen1, gen2, pairing}

  instance abbrev fr : Field Fr
  fr = E.field

  instance abbrev g1 : Group G1
  g1 = E.group1

  instance abbrev g2 : Group G2
  g2 = E.group2

  instance abbrev s1 : Space Fr G1
  s1 = E.space1

  instance abbrev s2 : Space Fr G2
  s2 = E.space2

  pairs :
      (phi : List Fr) (x : Fr) (ek : G2)
      → pairing gen1 (eval phi x • ek) ≡ pairing (eval_points (map (λ c. c • gen1) phi) x) ek
  pairs phi x ek =
      E.pairing-smul_right (eval phi x) gen1 ek
      ∙ sym (E.pairing-smul_left (eval phi x) gen1 ek)
      ∙ ap (λ a. pairing a ek) (sym (eval_points-smul phi gen1 x))

  pub encrypt_shares-ok :
      (phi xs : List Fr) (validators : List (Validator E))
      → All (λ v. v.share_index < length xs) validators
      → (shares : List G2) × (encrypt_shares E M (map (eval phi) xs) validators ≡ ok shares)
        × (length shares ≡ length validators)
        × (check_shares E gen1 (map (eval_points (map (λ c. c • gen1) phi)) xs) validators shares
            ≡ ok true)
  unfolding encrypt_shares check_shares
  encrypt_shares-ok phi xs [] fit = ([], refl, refl, refl)
  encrypt_shares-ok phi xs (v ∷ validators) fit =
      let (x, e) = get_elem?-lt xs v.share_index fit.0 in
      let (shares, f, size, g) = encrypt_shares-ok phi xs validators fit.1 in
      let ek : G2 = v.validator.public_key.encryption_key in
      (
        eval phi x • ek ∷ shares,
        rw
            (
              get_elem?-map xs (eval phi) v.share_index e,
              fast_multiexp_lem M.msm2 (eval phi x ∷ []) ek,
              f,
            )
            refl,
        ap suc size,
        rw
            (
              get_elem?-map xs (eval_points (map (λ c. c • gen1) phi)) v.share_index e,
              →is_yes (E.groupt.dec_eq _ _) (pairs phi x ek),
            )
            g,
      )

  shares_of :
      (phi xs : List Fr) (validators : List (Validator E))
      (fit : All (λ v. v.share_index < length xs) validators) (i : ℕ) {v : Validator E} {x : Fr}
      → get_elem? validators i ≡ some v
      → get_elem? xs v.share_index ≡ some x
      → get_elem? (encrypt_shares-ok phi xs validators fit).0 i
        ≡ some (eval phi x • v.validator.public_key.encryption_key)
  unfolding encrypt_shares-ok
  shares_of phi xs [] fit i hv hx = cc
  shares_of phi xs (w ∷ validators) fit zero {v} {x} hv hx =
      let (y, e) = get_elem?-lt xs w.share_index fit.0 in
      ap₂ (λ a u. some (eval phi a • u.validator.public_key.encryption_key))
        (some_injective (sym e ∙ ap (λ u. get_elem? xs u.share_index) (some_injective hv) ∙ hx))
        (some_injective hv)
  shares_of phi xs (w ∷ validators) fit (suc i) hv hx = shares_of phi xs validators fit.1 i hv hx

  fit_elements :
      (domain : Domain E) (validators : List (Validator E))
      → All (λ v. v.share_index < domain.size) validators
      → All (λ v. v.share_index < length domain.elements) validators
  fit_elements domain validators fit =
      subst (λ n. All (λ v. v.share_index < n) validators) (sym domain.length-elements) fit

  -- The transcript that is dealt, of either kind.
  abbrev transcript :
      {T : Marker} (s : Fr) (random : List Fr) (dkg : PubliclyVerifiableDkg E)
      → All (λ v. v.share_index < dkg.domain.size) dkg.validators
      → PubliclyVerifiableSs E T
  transcript s random dkg fit = record {
    coeffs = map (λ a. a • gen1) (s ∷ random);
    shares =
        (encrypt_shares-ok (s ∷ random) dkg.domain.elements dkg.validators
          (fit_elements dkg.domain dkg.validators fit)).0;
    sigma = s • gen2;
  }

  new-ok :
      {T : Marker} (s c : Fr) (random : List Fr) (dkg : PubliclyVerifiableDkg E)
      (fit : All (λ v. v.share_index < dkg.domain.size) dkg.validators)
      → length (c ∷ random) ≤ dkg.domain.size
      → dkg.pvss_params.g ≡ gen1
      → Dealing.new E M {T = T} s (c ∷ random) dkg ≡ ok (transcript s random dkg fit)
  unfolding Dealing.new
  new-ok s c random dkg fit le generator =
      let phi : List Fr = s ∷ random in
      let (shares, e, size, _) =
        encrypt_shares-ok phi dkg.domain.elements dkg.validators
          (fit_elements dkg.domain dkg.validators fit) in
      rw
        (
          dkg.domain.evaluate_over_domain_lem phi le,
          e,
          eq→== (length shares) (length dkg.validators) size,
          fast_multiexp_lem M.msm1 phi dkg.pvss_params.g,
        )
        (ap (λ p. ok (record { coeffs = map (λ a. a • p) phi; shares = shares; sigma = s • gen2 }))
          generator)

  -- Dealing a secret s with a random polynomial that has at least one coefficient and at most as
  -- many as the domain has elements succeeds; the first coefficient is replaced by s, the
  -- transcript holds the commitments to the coefficients, and passes the optimistic and the full
  -- verification. The indices of the validators are those of elements of the domain, and the
  -- session's first generator is that of the group.
  pub new-verify_full :
      (s c : Fr) (random : List Fr) (dkg : PubliclyVerifiableDkg E)
      → All (λ v. v.share_index < dkg.domain.size) dkg.validators
      → length (c ∷ random) ≤ dkg.domain.size
      → dkg.pvss_params.g ≡ gen1
      → (pvss : Pvss E) × (Dealing.new E M s (c ∷ random) dkg ≡ ok pvss)
        × (pvss.coeffs ≡ map (λ a. a • gen1) (s ∷ random))
        × (verify_optimistic E pvss ≡ ok true)
        × (verify_full E pvss dkg ≡ ok true)
  unfolding Dealing.new verify_optimistic verify_full
  new-verify_full s c random dkg fit le generator =
      let phi : List Fr = s ∷ random in
      let (_, _, _, g) =
        encrypt_shares-ok phi dkg.domain.elements dkg.validators
          (fit_elements dkg.domain dkg.validators fit) in
      (
        transcript s random dkg fit,
        new-ok s c random dkg fit le generator,
        refl,
        ap (λ b. ok b)
            (→is_yes (E.groupt.dec_eq _ _)
              (E.pairing-smul_left s gen1 gen2 ∙ sym (E.pairing-smul_right s gen1 gen2))),
        rw
            (
              generator,
              dkg.domain.fft_in_place_lem (map (λ a. a • gen1) phi)
                  (omega (arith, length-map phi (λ a. a • gen1))),
            )
            g,
      )

  -- Dealing the secret s with the polynomial f = s + r_1·x + ... succeeds, and from the transcript
  -- a validator whose public key belongs to its nonzero decryption key decrypts the share f(w)·H,
  -- where w is the element of the domain with its index. The polynomial has at most as many
  -- coefficients as the domain has elements, the indices of the validators are those of elements,
  -- and the session's first generator is that of the group.
  pub decrypt_private_key_share-new :
      (s c : Fr) (random : List Fr) (dkg : PubliclyVerifiableDkg E) (i : ℕ) (v : Validator E)
      (key : Keypair E)
      → All (λ v. v.share_index < dkg.domain.size) dkg.validators
      → length (c ∷ random) ≤ dkg.domain.size
      → dkg.pvss_params.g ≡ gen1
      → get_elem? dkg.validators i ≡ some v
      → v.validator.public_key ≡ public E key
      → key.decryption_key ≢ fr.zero
      → (pvss : AggregatedPvss E) × (Dealing.new E M s (c ∷ random) dkg ≡ ok pvss)
        × (decrypt_private_key_share E pvss key.decryption_key i
            ≡ ok (record {
              private_key_share = eval (s ∷ random) (dkg.domain.element v.share_index) • gen2;
            }))
  unfolding decrypt_private_key_share public
  decrypt_private_key_share-new s c random dkg i v key fit le generator hv hk nonzero = (
    transcript s random dkg fit,
    new-ok s c random dkg fit le generator,
    rw
        (
          shares_of (s ∷ random) dkg.domain.elements dkg.validators
              (fit_elements dkg.domain dkg.validators fit) i hv
              (dkg.domain.get_elem?-elements v.share_index
                (All-get_elem? (λ w. w.share_index < dkg.domain.size) dkg.validators i fit hv)),
          inverse-inv key.decryption_key nonzero,
        )
        (ap (λ p. ok (record { private_key_share = p })) undo),
  )
    where
      y : Fr
      y = eval (s ∷ random) (dkg.domain.element v.share_index)

      undo : inv key.decryption_key • y • v.validator.public_key.encryption_key ≡ y • gen2
      undo =
          smul_comm (inv key.decryption_key) y v.validator.public_key.encryption_key
          ∙ ap (λ p. y • inv key.decryption_key • p) (ap (λ p. p.encryption_key) hk)
          ∙ ap (◌•◌ y) (inv-smul key.decryption_key gen2 nonzero)
