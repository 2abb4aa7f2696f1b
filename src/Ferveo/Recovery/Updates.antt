-- ===== src/Ferveo/Recovery/Updates.antt =====
-- The updates that the validators prepare, and the shares that are updated with them
-- (ferveo/src/lib.rs).
use nucypher_ferveo.Base.{ℕ, zero, suc, ◌<◌, ◌≡◌, refl, ap, ◌∙◌, some, List, [], ◌∷◌, map, arith}
use Prim.Native.Nat.{◌+◌}
use nucypher_ferveo.Base.Lists.{length, get_elem?, get_elem?-map}
use nucypher_ferveo.Base.Outcome.{ok}
use nucypher_ferveo.Algebra.Field.{Field}
use nucypher_ferveo.Algebra.Space.{Group, Space, ◌•◌}
use nucypher_ferveo.Algebra.Engine.{Engine}
use nucypher_ferveo.Algebra.Domain.{Polynomials}
use nucypher_ferveo.Algebra.Poly.{eval}
use nucypher_ferveo.Tpke.KeyShare.{PrivateKeyShare}
use nucypher_ferveo.Tpke.Refresh.Recovery.{
  AreSharesOf, Vanish, updates_at, update_all, prepare_share_updates_for_recovery-eval,
}
use nucypher_ferveo.Ferveo.Common.{Validator, Keypair}
use nucypher_ferveo.Ferveo.Session.{AggregatedPvss, PubliclyVerifiableDkg}
use nucypher_ferveo.Ferveo.Pvss.Dealing.{Msm}
use nucypher_ferveo.Ferveo.Pvss.Shares.{update_private_key_share_for_recovery}
use nucypher_ferveo.Ferveo.Threshold.Joint.{shares_for}
use nucypher_ferveo.Ferveo.Threshold.Keys.{AreKeysOf}
use nucypher_ferveo.Ferveo.Threshold.Shares.{decrypt_private_key_share-eval}
use nucypher_ferveo.Ferveo.Recovery.{updates_for, update_shares, share_updates_of}

module _ (E : Engine) where
  open E use {Fr, G2, gen2}

  instance abbrev fr : Field Fr
  fr = E.field

  instance abbrev g2 : Group G2
  g2 = E.group2

  instance abbrev s2 : Space Fr G2
  s2 = E.space2

  -- The updates of each polynomial at the points.
  abbrev pub updates_of : List Fr → List (List Fr) → List (List G2)
  updates_of points ds = map (λ d. map (λ x. eval d x • gen2) points) ds

  updates_for-updates_at :
      (points : List Fr) (i : ℕ) {x : Fr} (ds : List (List Fr))
      → get_elem? points i ≡ some x
      → updates_for E i (updates_of points ds) ≡ ok (updates_at E ds x)
  unfolding updates_for
  updates_for-updates_at points i [] h = refl
  updates_for-updates_at points i (d ∷ ds) h =
      rw (get_elem?-map points (λ x. eval d x • gen2) i h, updates_for-updates_at points i ds h)
        refl

  -- The key shares of a polynomial at the points.
  abbrev pub shares_at : List Fr → List Fr → List (PrivateKeyShare E)
  shares_at phi xs = map (λ x. record { private_key_share = eval phi x • gen2 }) xs

  pub shares_at-AreSharesOf : (phi xs : List Fr) → AreSharesOf E (eval phi) xs (shares_at phi xs)
  shares_at-AreSharesOf phi [] = tt
  shares_at-AreSharesOf phi (x ∷ xs) = (refl, shares_at-AreSharesOf phi xs)

  -- The polynomials that are drawn become polynomials that vanish at the point.
  pub share_updates_of-Vanish :
      (D : Polynomials E) (points : List Fr) (x_r : Fr) (draw : ℕ → Fr × List Fr) (n i : ℕ)
      (validators : List (Validator E))
      → ((j : ℕ) → length (draw j).1 < n)
      → (ds : List (List Fr)) × Vanish E n x_r ds
        × (share_updates_of E D points gen2 x_r (λ j. (draw j).0 ∷ (draw j).1) i validators
            ≡ ok (updates_of points ds))
  unfolding share_updates_of
  share_updates_of-Vanish D points x_r draw n i [] short = ([], tt, refl)
  share_updates_of-Vanish D points x_r draw n i (v ∷ validators) short =
      let (d, e, vanishes) =
        prepare_share_updates_for_recovery-eval E D points x_r (draw i).0 (draw i).1 in
      let (ds, all, es) = share_updates_of-Vanish D points x_r draw n (suc i) validators short in
      ((d ∷ (draw i).1) ∷ ds, ((omega (arith, short i), vanishes), all), rw (e, es) refl)

module _ (E : Engine) (M : Msm E) (dkg : PubliclyVerifiableDkg E) (phi : List E.Fr)
    (pvss : AggregatedPvss E)
    (hold : pvss.shares ≡ shares_for E M dkg (eval ⦃f = E.field⦄ phi)) where
  open E use {Fr, G2}

  -- Validators from an index on update their shares at their points.
  pub update_shares-update_all :
      (points : List Fr) (ds : List (List Fr)) (i : ℕ) (validators : List (Validator E))
      (keypairs : List (Keypair E)) (xs : List Fr)
      → AreKeysOf E i validators keypairs
      → length xs ≡ length keypairs
      → ((j : ℕ) (v : Validator E)
          → get_elem? validators j ≡ some v
          → get_elem? dkg.validators (j + i) ≡ some v)
      → ((j : ℕ) (x : Fr)
          → get_elem? xs j ≡ some x
          → (get_elem? points (j + i) ≡ some x) × (dkg.domain.element (j + i) ≡ x))
      → update_shares E pvss (updates_of E points ds) i keypairs
        ≡ ok (update_all E ds xs (shares_at E phi xs))
  unfolding update_shares update_private_key_share_for_recovery
  update_shares-update_all points ds i [] [] [] keys size here nodes = refl
  update_shares-update_all points ds i [] [] (x ∷ xs) keys size here nodes =
      absurd (omega (arith, size))
  update_shares-update_all points ds i [] (k ∷ keypairs) xs keys size here nodes = absurd keys
  update_shares-update_all points ds i (v ∷ validators) [] xs keys size here nodes = absurd keys
  update_shares-update_all points ds i (v ∷ validators) (k ∷ keypairs) [] keys size here nodes =
      absurd (omega (arith, size))
  update_shares-update_all points ds i (v ∷ validators) (k ∷ keypairs) (x ∷ xs)
        ((index, key, nonzero), keys) size here nodes =
      let (point, at) = nodes zero x refl in
      let node : dkg.domain.element i ≡ x = ap dkg.domain.element (omega arith) ∙ at in
      rw
        (
          updates_for-updates_at E points i ds (ap (get_elem? points) (omega arith) ∙ point),
          decrypt_private_key_share-eval E M dkg phi pvss hold i v k
              (ap (get_elem? dkg.validators) (omega arith) ∙ here zero v refl) index key nonzero,
          node,
          update_shares-update_all points ds (suc i) validators keypairs xs keys
              (omega (arith, size))
              (λ j w h. ap (get_elem? dkg.validators) (omega arith) ∙ here (suc j) w h)
              (λ j y h.
                let (p, q) = nodes (suc j) y h in
                (ap (get_elem? points) (omega arith) ∙ p, ap dkg.domain.element (omega arith) ∙ q)),
        )
        refl
