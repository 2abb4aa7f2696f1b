-- ===== src/Tpke/Refresh/Recovery.antt =====
-- Recovery and refreshing of shares, tpke/src/refresh.rs, against the polynomial that is shared.
use nucypher_ferveo.Base.{ℕ, ◌≤◌, ◌≡◌, refl, sym, ap, ◌∙◌, some, List, [], ◌∷◌, map}
use mathlib.Core.Path.{fun_ext}
use nucypher_ferveo.Base.Lists.{length, All, Distinct}
use nucypher_ferveo.Algebra.Field.{Field, ◌+◌, ◌*◌, ◌-◌, add-zero as add-zero_field}
use nucypher_ferveo.Algebra.Field.Ring.{ring}
use nucypher_ferveo.Algebra.Space.{
  Group, Space, ◌⊕◌, ◌•◌, zero-add, add-zero, add_assoc, mul-smul, add-smul, zero-smul,
}
use nucypher_ferveo.Algebra.Space.Sums.{sum}
use nucypher_ferveo.Algebra.Engine.{Engine}
use nucypher_ferveo.Algebra.Domain.{Polynomials}
use nucypher_ferveo.Algebra.Poly.{eval, add_coeffs, eval-add_coeffs, length-add_coeffs}
use nucypher_ferveo.Algebra.Poly.Basis.{basis}
use nucypher_ferveo.Algebra.Poly.Lagrange.{interpolate, interpolate-eval}
use nucypher_ferveo.Tpke.KeyShare.{PrivateKeyShare}
use nucypher_ferveo.Tpke.Combine.Basis.{lagrange_basis_at-basis}
use nucypher_ferveo.Tpke.Refresh.{
  add_updates, update_share_for_recovery, add_scaled, recover_share_from_updated_private_shares,
  make_random_polynomial_at, prepare_share_updates_for_recovery, refresh_private_key_share,
}

module _ (E : Engine) where
  open E use {Fr, G2, gen2}

  instance abbrev fr : Field Fr
  fr = E.field

  instance abbrev g2 : Group G2
  g2 = E.group2

  instance abbrev s2 : Space Fr G2
  s2 = E.space2

  -- The key share of node x is h(x)·H.
  abbrev pub AreSharesOf : (Fr → Fr) → List Fr → List (PrivateKeyShare E) → Type 0
  AreSharesOf h [] [] = Unit
  AreSharesOf h [] (share ∷ shares) = ⊥
  AreSharesOf h (x ∷ xs) [] = ⊥
  AreSharesOf h (x ∷ xs) (share ∷ shares) =
      (share.private_key_share ≡ h x • gen2) × AreSharesOf h xs shares

  AreSharesOf-congr :
      (h i : Fr → Fr) (xs : List Fr) (shares : List (PrivateKeyShare E))
      → ((x : Fr) → h x ≡ i x)
      → AreSharesOf h xs shares
      → AreSharesOf i xs shares
  AreSharesOf-congr h i [] [] e s = tt
  AreSharesOf-congr h i [] (share ∷ shares) e s = s
  AreSharesOf-congr h i (x ∷ xs) [] e s = s
  AreSharesOf-congr h i (x ∷ xs) (share ∷ shares) e s =
      (s.0 ∙ ap (λ k. k • gen2) (e x), AreSharesOf-congr h i xs shares e s.1)

  add_scaled-shares :
      (k h : Fr → Fr) (acc : G2) (xs : List Fr) (shares : List (PrivateKeyShare E))
      → AreSharesOf h xs shares
      → add_scaled E acc shares (map k xs) ≡ some (acc ⊕ sum (map (λ a. k a * h a) xs) • gen2)
  unfolding add_scaled sum
  add_scaled-shares k h acc [] [] s = rw (zero-smul Fr gen2, add-zero acc) refl
  add_scaled-shares k h acc [] (share ∷ shares) s = absurd s
  add_scaled-shares k h acc (x ∷ xs) [] s = absurd s
  add_scaled-shares k h acc (x ∷ xs) (share ∷ shares) s =
      add_scaled-shares k h (acc ⊕ k x • share.private_key_share) xs shares s.1
      ∙ rw
          (
            s.0,
            ← mul-smul (k x) (h x) gen2,
            add-smul (k x * h x) (sum (map (λ a. k a * h a) xs)) gen2,
          )
          (ap some (add_assoc acc _ _))

  -- Enough shares of a polynomial at distinct nodes recover its share at any other point.
  pub recover_share-eval :
      (cs : List Fr) (x_r : Fr) (domain_points : List Fr) (shares : List (PrivateKeyShare E))
      → Distinct domain_points
      → length cs ≤ length domain_points
      → AreSharesOf (eval cs) domain_points shares
      → recover_share_from_updated_private_shares E x_r domain_points shares
        ≡ some (record { private_key_share = eval cs x_r • gen2 })
  unfolding recover_share_from_updated_private_shares interpolate
  recover_share-eval cs x_r domain_points shares d le s =
      rw
        (
          lagrange_basis_at-basis domain_points x_r,
          add_scaled-shares (basis x_r domain_points) (eval cs) g2.zero domain_points shares s,
          zero-add (sum (map (λ a. basis x_r domain_points a * eval cs a) domain_points) • gen2),
          interpolate-eval x_r domain_points cs d le,
          recover_share_from_updated_private_shares,
        )
        refl

  -- The sum of polynomials.
  sum_coeffs : List Fr → List (List Fr) → List Fr
  sum_coeffs cs [] = cs
  sum_coeffs cs (d ∷ ds) = sum_coeffs (add_coeffs cs d) ds

  -- The updates that one participant receives, at its node, from polynomials that vanish at `x_r`.
  abbrev pub updates_at : List (List Fr) → Fr → List G2
  updates_at ds x = map (λ d. eval d x • gen2) ds

  abbrev pub update_all :
      List (List Fr) → List Fr → List (PrivateKeyShare E) → List (PrivateKeyShare E)
  update_all ds (x ∷ xs) (share ∷ shares) =
      update_share_for_recovery E share (updates_at ds x) ∷ update_all ds xs shares
  update_all ds _ _ = []

  -- Polynomials with at most `n` coefficients that vanish at `x_r`.
  abbrev pub Vanish : ℕ → Fr → List (List Fr) → Type 0
  Vanish n x_r ds = All (λ d. (length d ≤ n) × (eval d x_r ≡ fr.zero)) ds

  add_updates-sum_coeffs :
      (cs : List Fr) (ds : List (List Fr)) (x : Fr)
      → add_updates E (eval cs x • gen2) (updates_at ds x) ≡ eval (sum_coeffs cs ds) x • gen2
  unfolding add_updates sum_coeffs
  add_updates-sum_coeffs cs [] x = refl
  add_updates-sum_coeffs cs (d ∷ ds) x =
      ap (λ p. add_updates E p (updates_at ds x))
        (sym (add-smul (eval cs x) (eval d x) gen2)
          ∙ ap (λ k. k • gen2) (sym (eval-add_coeffs cs d x)))
      ∙ add_updates-sum_coeffs (add_coeffs cs d) ds x

  update_all-shares :
      (cs : List Fr) (ds : List (List Fr)) (xs : List Fr) (shares : List (PrivateKeyShare E))
      → AreSharesOf (eval cs) xs shares
      → AreSharesOf (eval (sum_coeffs cs ds)) xs (update_all ds xs shares)
  unfolding update_share_for_recovery
  update_all-shares cs ds [] [] s = tt
  update_all-shares cs ds [] (share ∷ shares) s = absurd s
  update_all-shares cs ds (x ∷ xs) [] s = absurd s
  update_all-shares cs ds (x ∷ xs) (share ∷ shares) s = (
    ap (λ p. add_updates E p (updates_at ds x)) s.0 ∙ add_updates-sum_coeffs cs ds x,
    update_all-shares cs ds xs shares s.1,
  )

  sum_coeffs-Vanish :
      (n : ℕ) (x_r : Fr) (cs : List Fr) (ds : List (List Fr))
      → length cs ≤ n
      → Vanish n x_r ds
      → (length (sum_coeffs cs ds) ≤ n) × (eval (sum_coeffs cs ds) x_r ≡ eval cs x_r)
  unfolding sum_coeffs
  sum_coeffs-Vanish n x_r cs [] le v = (le, refl)
  sum_coeffs-Vanish n x_r cs (d ∷ ds) le v =
      let (short, e) =
        sum_coeffs-Vanish n x_r (add_coeffs cs d) ds (length-add_coeffs n cs d le v.0.0) v.1 in
      (
        short,
        e ∙ eval-add_coeffs cs d x_r ∙ ap (◌+◌ (eval cs x_r)) v.0.1 ∙ add-zero_field (eval cs x_r),
      )

  -- For distinct nodes, at least as many as the polynomial f has coefficients, and shares f(x)·H
  -- at them: after the shares are updated by any number of polynomials that vanish at x_r and have
  -- at most as many coefficients as there are nodes, the share recovered at x_r is f(x_r)·H.
  pub recover_share-update_share_for_recovery :
      (cs : List Fr) (ds : List (List Fr)) (x_r : Fr) (domain_points : List Fr)
      (shares : List (PrivateKeyShare E))
      → Distinct domain_points
      → length cs ≤ length domain_points
      → Vanish (length domain_points) x_r ds
      → AreSharesOf (eval cs) domain_points shares
      → recover_share_from_updated_private_shares E x_r domain_points
          (update_all ds domain_points shares)
        ≡ some (record { private_key_share = eval cs x_r • gen2 })
  recover_share-update_share_for_recovery cs ds x_r domain_points shares d le v s =
      let (short, e) = sum_coeffs-Vanish (length domain_points) x_r cs ds le v in
      recover_share-eval (sum_coeffs cs ds) x_r domain_points (update_all ds domain_points shares) d
        short (update_all-shares cs ds domain_points shares s)
      ∙ rw e refl

module _ (E : Engine) (D : Polynomials E) where
  open E use {Fr, G2, gen2}

  instance abbrev field_of : Field Fr
  field_of = E.field

  instance abbrev group2_of : Group G2
  group2_of = E.group2

  instance abbrev space2_of : Space Fr G2
  space2_of = E.space2

  -- From a drawn polynomial comes one that vanishes at the root and differs in the constant only.
  pub make_random_polynomial_at-root :
      (c : Fr) (coeffs : List Fr) (root : Fr)
      → (d : Fr) × (make_random_polynomial_at E D (c ∷ coeffs) root ≡ some (d ∷ coeffs))
        × (eval (d ∷ coeffs) root ≡ E.field.zero)
  unfolding make_random_polynomial_at eval
  make_random_polynomial_at-root c coeffs root = (
    E.field.zero - D.evaluate (E.field.zero ∷ coeffs) root,
    refl,
    rw (D.evaluate_lem (E.field.zero ∷ coeffs) root) (simp ring),
  )

  -- The updates that are prepared from a random polynomial with at least one coefficient are the
  -- values at the nodes, times the generator H, of the polynomial with its constant changed such
  -- that it vanishes at x_r.
  pub prepare_share_updates_for_recovery-eval :
      (domain_points : List Fr) (x_r c : Fr) (coeffs : List Fr)
      → (d : Fr) × (prepare_share_updates_for_recovery E D domain_points gen2 x_r (c ∷ coeffs)
          ≡ some (map (λ x. eval (d ∷ coeffs) x • gen2) domain_points))
        × (eval (d ∷ coeffs) x_r ≡ E.field.zero)
  unfolding prepare_share_updates_for_recovery
  prepare_share_updates_for_recovery-eval domain_points x_r c coeffs =
      let (d, e, r) = make_random_polynomial_at-root c coeffs x_r in
      (
        d,
        rw (e, prepare_share_updates_for_recovery)
            (ap (λ h. some (map h domain_points))
              (fun_ext λ x. ap (λ k. k • gen2) (D.evaluate_lem (d ∷ coeffs) x))),
        r,
      )

  -- Refreshing the share f(x)·H at x by a polynomial g, with the generator H, gives the share at x
  -- of the sum of f and g.
  pub refresh_private_key_share-add_coeffs :
      (cs polynomial : List Fr) (x : Fr) (share : PrivateKeyShare E)
      → share.private_key_share ≡ eval cs x • gen2
      → (refresh_private_key_share E D gen2 x polynomial share).private_key_share
        ≡ eval (add_coeffs cs polynomial) x • gen2
  unfolding refresh_private_key_share
  refresh_private_key_share-add_coeffs cs polynomial x share h =
      rw (h, D.evaluate_lem polynomial x, eval-add_coeffs cs polynomial x)
        (sym (add-smul (eval cs x) (eval polynomial x) gen2))
