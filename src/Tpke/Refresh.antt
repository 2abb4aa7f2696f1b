-- ===== src/Tpke/Refresh.antt =====
-- tpke/src/refresh.rs: proactive refreshing of key shares, and recovery of a lost share.
pub mod Recovery
use nucypher_ferveo.Base.{ℕ, ◌≡◌, Option, none, some, List, [], ◌∷◌, map}
use nucypher_ferveo.Algebra.Field.{Field, ◌-◌}
use nucypher_ferveo.Algebra.Space.{Group, Space, ◌⊕◌, ◌•◌}
use nucypher_ferveo.Algebra.Engine.{Engine}
use nucypher_ferveo.Algebra.Domain.{Polynomials}
use nucypher_ferveo.Tpke.KeyShare.{PrivateKeyShare}
use nucypher_ferveo.Tpke.Combine.{lagrange_basis_at}

module _ (E : Engine) where
  open E use {Fr, G2}

  instance abbrev fr : Field Fr
  fr = E.field

  instance abbrev g2 : Group G2
  g2 = E.group2

  instance abbrev s2 : Space Fr G2
  s2 = E.space2

  -- The fold of `update_share_for_recovery`.
  unfoldable pub add_updates : G2 → List G2 → G2
  add_updates acc [] = acc
  add_updates acc (delta ∷ share_updates) = add_updates (acc ⊕ delta) share_updates

  unfoldable pub update_share_for_recovery : PrivateKeyShare E → List G2 → PrivateKeyShare E
  unfolding add_updates
  update_share_for_recovery private_key_share share_updates = record {
    private_key_share = add_updates private_key_share.private_key_share share_updates;
  }

  -- The sum of the shares, each scaled by its coefficient; `zip_eq` panics where the lengths differ.
  unfoldable pub add_scaled : G2 → List (PrivateKeyShare E) → List Fr → Option G2
  add_scaled acc [] [] = some acc
  add_scaled acc [] (l ∷ lagrange) = none
  add_scaled acc (y_j ∷ shares) [] = none
  add_scaled acc (y_j ∷ shares) (l ∷ lagrange) =
      add_scaled (acc ⊕ l • y_j.private_key_share) shares lagrange

  unfoldable pub recover_share_from_updated_private_shares :
      Fr → List Fr → List (PrivateKeyShare E) → Option (PrivateKeyShare E)
  unfolding add_scaled
  recover_share_from_updated_private_shares x_r domain_points updated_private_shares =
      elim (lagrange_basis_at domain_points x_r) [
        | none ↦ none
        | some lagrange ↦ elim (add_scaled g2.zero updated_private_shares lagrange) [
          | none ↦ none
          | some y_r ↦ some (record { private_key_share = y_r })
        ]
      ]

module _ (E : Engine) (D : Polynomials E) where
  open E use {Fr, G2}

  instance abbrev field_of : Field Fr
  field_of = E.field

  instance abbrev group2_of : Group G2
  group2_of = E.group2

  instance abbrev space2_of : Space Fr G2
  space2_of = E.space2

  -- `threshold_poly[0] = c`, a panic where there is no coefficient.
  unfoldable pub set_constant : List Fr → Fr → Option (List Fr)
  set_constant [] c = none
  set_constant (_ ∷ coeffs) c = some (c ∷ coeffs)

  -- `random` is the polynomial that `DensePolynomial::rand(threshold - 1, rng)` draws.
  unfoldable pub make_random_polynomial_at : List Fr → Fr → Option (List Fr)
  unfolding set_constant
  make_random_polynomial_at random root = elim (set_constant random E.field.zero) [
    | none ↦ none
    | some threshold_poly ↦
        let d_i_0 : Fr = E.field.zero - D.evaluate threshold_poly root in
        set_constant threshold_poly d_i_0
  ]

  unfoldable pub prepare_share_updates_for_recovery : List Fr → G2 → Fr → List Fr → Option (List G2)
  prepare_share_updates_for_recovery domain_points h x_r random =
      elim (make_random_polynomial_at random x_r) [
        | none ↦ none
        | some d_i ↦ some (map (λ x_i. D.evaluate d_i x_i • h) domain_points)
      ]

  unfoldable pub refresh_private_key_share :
      G2 → Fr → List Fr → PrivateKeyShare E → PrivateKeyShare E
  refresh_private_key_share h domain_point polynomial validator_private_key_share =
      let share_update : G2 = D.evaluate polynomial domain_point • h in
      record { private_key_share = validator_private_key_share.private_key_share ⊕ share_update }
