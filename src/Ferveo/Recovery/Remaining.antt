-- ===== src/Ferveo/Recovery/Remaining.antt =====
-- The validators that remain when the last is removed: the share they recover, and the secret their
-- decryption shares combine to (ferveo/src/lib.rs).
use nucypher_ferveo.Base.{
  ℕ, zero, suc, ◌<◌, ◌≤◌, ◌≡◌, ◌≢◌, sym, ap, ◌∙◌, some, List, [], ◌∷◌, ◌++◌, arith,
}
use Prim.Native.Nat.{◌+◌}
use mathlib.Core.Path.{subst}
use mathlib.Core.Option.{some-injective}
use nucypher_ferveo.Base.Lists.{
  length, Distinct, get_elem?, get_elem?-take, get_elem?-take-some, take, take_all, length-take,
  pop-take,
}
use nucypher_ferveo.Base.Predicates.{Distinct-take}
use nucypher_ferveo.Base.Outcome.{ok}
use nucypher_ferveo.Algebra.Field.{Field}
use nucypher_ferveo.Algebra.Space.{Group, Space, ◌•◌}
use nucypher_ferveo.Algebra.Engine.{Engine}
use nucypher_ferveo.Algebra.Domain.{Polynomials}
use nucypher_ferveo.Algebra.Poly.{eval}
use nucypher_ferveo.Tpke.Interface.{Primitives}
use nucypher_ferveo.Tpke.KeyShare.{PrivateKeyShare}
use nucypher_ferveo.Tpke.Ciphertext.{Ciphertext, check_ciphertext_validity}
use nucypher_ferveo.Tpke.Decryption.{DecryptionShareSimple}
use nucypher_ferveo.Tpke.Decryption.Simple.{create-ok}
use nucypher_ferveo.Tpke.Combine.{prepare_combine_simple, share_combine_simple}
use nucypher_ferveo.Tpke.Combine.Append.{share_combine_simple-append}
use nucypher_ferveo.Tpke.Combine.Simple.{IsShareOf, share_combine_simple-prepare_combine_simple}
use nucypher_ferveo.Tpke.Refresh.{recover_share_from_updated_private_shares}
use nucypher_ferveo.Tpke.Refresh.Recovery.{update_all, recover_share-update_share_for_recovery}
use nucypher_ferveo.Ferveo.Common.{Validator, Keypair}
use nucypher_ferveo.Ferveo.Session.{AggregatedPvss, PubliclyVerifiableDkg}
use nucypher_ferveo.Ferveo.Pvss
use nucypher_ferveo.Ferveo.Pvss.{DkgResult, g_inv}
use nucypher_ferveo.Ferveo.Pvss.Dealing.{Msm}
use nucypher_ferveo.Ferveo.Pvss.Shares.{make_decryption_share_simple}
use nucypher_ferveo.Ferveo.Threshold.{make_decryption_shares}
use nucypher_ferveo.Ferveo.Threshold.Joint.{shares_for}
use nucypher_ferveo.Ferveo.Threshold.Keys.{AreKeysOf, AreKeysOf-take, length-keys}
use nucypher_ferveo.Ferveo.Threshold.Shares.{
  collect_shares-IsShareOf, make_decryption_share_simple-IsCreated,
}
use nucypher_ferveo.Ferveo.Recovery.{update_shares, share_updates_of, recover_shared_secret}
use nucypher_ferveo.Ferveo.Recovery.Updates.{
  updates_of, shares_at, shares_at-AreSharesOf, share_updates_of-Vanish, update_shares-update_all,
}

get_elem?-bound {ℓ} :
    {A : Type ℓ} (xs : List A) (i : ℕ) {x : A} → get_elem? xs i ≡ some x → i < length xs
get_elem?-bound [] i h = cc
get_elem?-bound (y ∷ xs) zero h = omega arith
get_elem?-bound (y ∷ xs) (suc i) h = omega (arith, get_elem?-bound xs i h)

module _ (E : Engine) (M : Msm E) (P : Primitives E) (D : Polynomials E)
    (dkg : PubliclyVerifiableDkg E) (m : ℕ) (validators_lem : length dkg.validators ≡ suc m)
    (domain_lem : dkg.domain.size ≡ suc m) (keypairs : List (Keypair E))
    (keys : AreKeysOf E 0 dkg.validators keypairs) where
  open E use {Fr, G1, G2, Fqk, gen1, gen2, pairing}

  instance abbrev field_of : Field Fr
  field_of = E.field

  instance abbrev group1_of : Group G1
  group1_of = E.group1

  instance abbrev group2_of : Group G2
  group2_of = E.group2

  instance abbrev space1_of : Space Fr G1
  space1_of = E.space1

  instance abbrev space2_of : Space Fr G2
  space2_of = E.space2

  -- Without the last.
  abbrev points : List Fr
  points = take m dkg.domain.elements

  length-points : length points ≡ m
  length-points =
      length-take m dkg.domain.elements (omega (arith, dkg.domain.length-elements, domain_lem))

  length-keypairs : length (take m keypairs) ≡ m
  length-keypairs =
      length-take m keypairs
        (omega (arith, length-keys E 0 dkg.validators keypairs keys, validators_lem))

  remaining :
      (j : ℕ) (v : Validator E)
      → get_elem? (take m dkg.validators) j ≡ some v
      → get_elem? dkg.validators (j + 0) ≡ some v
  remaining j v h =
      ap (get_elem? dkg.validators) (omega arith) ∙ get_elem?-take-some m j dkg.validators h

  module _ (phi : List Fr) (pvss : AggregatedPvss E)
      (hold : pvss.shares ≡ shares_for E M dkg (eval phi)) (few : length phi ≤ m) where
    -- The updates are prepared, the shares updated, and the share at the point recovered.
    recovered :
        (x_r : Fr) (draw : ℕ → Fr × List Fr)
        → ((j : ℕ) → length (draw j).1 < m)
        → dkg.pvss_params.h ≡ gen2
        → (updates : List (List G2)) × (updated : List (PrivateKeyShare E)) × (share_updates_of E D
              points dkg.pvss_params.h x_r
              (λ j. (draw j).0 ∷ (draw j).1)
              0
              (take m dkg.validators)
            ≡ ok updates)
          × (update_shares E pvss updates 0 (take m keypairs) ≡ ok updated)
          × (recover_share_from_updated_private_shares E x_r points updated
              ≡ some (record { private_key_share = eval phi x_r • gen2 }))
    recovered x_r draw short generator =
        let (ds, vanish, e) =
          share_updates_of-Vanish E D points x_r draw (length points) 0 (take m dkg.validators)
            (λ j. omega (arith, short j, length-points)) in
        (
          updates_of E points ds,
          update_all E ds points (shares_at E phi points),
          ap
                (λ h.
                  share_updates_of E D points h x_r (λ j. (draw j).0 ∷ (draw j).1) 0
                    (take m dkg.validators))
                generator
              ∙ e,
          update_shares-update_all E M dkg phi pvss hold points ds 0 (take m dkg.validators)
              (take m keypairs) points (AreKeysOf-take E m 0 dkg.validators keypairs keys)
              (length-points ∙ sym length-keypairs) remaining
              (λ j x h. (ap (get_elem? points) (omega arith) ∙ h, node j x h)),
          recover_share-update_share_for_recovery E phi ds x_r points (shares_at E phi points)
              distinct (omega (arith, few, length-points)) vanish
              (shares_at-AreSharesOf E phi points),
        )
      where
        distinct : Distinct points
        distinct = Distinct-take m dkg.domain.elements dkg.domain.elements-Distinct

        node : (j : ℕ) (x : Fr) → get_elem? points j ≡ some x → dkg.domain.element (j + 0) ≡ x
        node j x h =
            let at = get_elem?-take-some m j dkg.domain.elements h in
            ap dkg.domain.element (omega arith)
            ∙ some-injective _ _ (
                sym (
                  dkg.domain.get_elem?-elements j (
                    omega (
                      arith,
                      get_elem?-bound dkg.domain.elements j at,
                      dkg.domain.length-elements,
                    )))
                ∙ at)

    -- The remaining validators' shares, and the secret they combine to whatever share is appended.
    combined :
        (c : Ciphertext E) (aad : List ℕ)
        → check_ciphertext_validity E P c aad (g_inv E dkg.pvss_params) ≡ ok tt
        → (shares : List (DecryptionShareSimple E)) × (coeffs : List Fr) × (make_decryption_shares E
              P pvss c aad
              (g_inv E dkg.pvss_params)
              (take m keypairs)
            ≡ ok shares)
          × (prepare_combine_simple points ≡ some coeffs)
          × ((extra : List (DecryptionShareSimple E))
              → share_combine_simple E (shares ++ extra) coeffs
                ≡ pairing c.commitment (eval phi E.field.zero • gen2))
    unfolding make_decryption_shares
    combined c aad valid =
        let (shares, e, size, s) =
          collect_shares-IsShareOf E dkg phi c.commitment
            (λ i k.
              make_decryption_share_simple E P pvss c aad k.decryption_key i
                (g_inv E dkg.pvss_params))
            (make_decryption_share_simple-IsCreated E M dkg phi pvss hold P c aad
              (g_inv E dkg.pvss_params) valid)
            0 (take m dkg.validators) (take m keypairs) points
            (AreKeysOf-take E m 0 dkg.validators keypairs keys) remaining
            (λ j lt.
              get_elem?-take m j dkg.domain.elements (omega (arith, lt, length-keypairs))
              ∙ dkg.domain.get_elem?-elements j (omega (arith, lt, length-keypairs, domain_lem))
              ∙ ap (λ a. some (dkg.domain.element a)) (omega arith)) in
        let (coeffs, prepared, secret) =
          share_combine_simple-prepare_combine_simple E phi points c.commitment shares
            (Distinct-take m dkg.domain.elements dkg.domain.elements-Distinct)
            (omega (arith, few, length-points))
            (subst (λ xs. IsShareOf E phi c.commitment xs shares)
              (take_all (length (take m keypairs)) points (length-points ∙ sym length-keypairs))
              s) in
        (
          shares,
          coeffs,
          e,
          prepared,
          λ extra.
              share_combine_simple-append E points shares extra
                (size ∙ length-keypairs ∙ sym length-points) prepared
              ∙ secret,
        )

    pub recover_shared_secret-eval :
        (c : Ciphertext E) (aad : List ℕ) (x_r : Fr) (draw : ℕ → Fr × List Fr) (new_key : Fr)
        → ((j : ℕ) → length (draw j).1 < m)
        → dkg.pvss_params.h ≡ gen2
        → new_key ≢ E.field.zero
        → Pvss.aggregate E dkg ≡ ok pvss
        → check_ciphertext_validity E P c aad (g_inv E dkg.pvss_params) ≡ ok tt
        → recover_shared_secret E D P dkg aad c keypairs x_r (λ j. (draw j).0 ∷ (draw j).1) new_key
          ≡ ok (
            record { private_key_share = eval phi x_r • gen2 },
            pairing c.commitment (eval phi E.field.zero • gen2),
          )
    unfolding recover_shared_secret
    recover_shared_secret-eval c aad x_r draw new_key short generator nonzero aggregated valid =
        let (updates, updated, e1, e2, e3) = recovered x_r draw short generator in
        let (shares, coeffs, made, prepared, secret) = combined c aad valid in
        let (v, pop1) = pop-take m dkg.validators validators_lem in
        let (k, pop2) =
          pop-take m keypairs (length-keys E 0 dkg.validators keypairs keys ∙ validators_lem) in
        let (x, pop3) = pop-take m dkg.domain.elements (dkg.domain.length-elements ∙ domain_lem) in
        rw
          (
            pop1,
            pop2,
            pop3,
            e1,
            aggregated,
            e2,
            e3,
            made,
            create-ok E P v.share_index new_key (record { private_key_share = eval phi x_r • gen2 })
                c aad (g_inv E dkg.pvss_params) valid nonzero,
            prepared,
          )
          (ap (λ a. ok (record { private_key_share = eval phi x_r • gen2 }, a)) (secret _))
