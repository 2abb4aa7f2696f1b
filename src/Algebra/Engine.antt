-- ===== src/Algebra/Engine.antt =====
-- `PairingEngine` of ark-ec: the prime field `Fr`, the two source groups, the values of pairings in
-- `Fqk`, and the pairing. Affine, projective and prepared points are forms of one point: a point is
-- modelled as an element of its group, and the conversions between the forms leave it as it is. Of
-- `Fqk` only the values of pairings and their products occur, a group of prime order.
use nucypher_ferveo.Base.{◌≡◌, ◌≢◌, ◌↔◌, sym, ap, ◌∙◌, List, [], ◌∷◌}
use nucypher_ferveo.Algebra.Field.{Field}
use nucypher_ferveo.Algebra.Space.{
  Group, Space, ◌⊕◌, ◌•◌, minus, smul_injective, add-minus, zero-smul, minus_unique, add-zero,
  add_left_cancel, add_comm,
}

pub record Engine : Type 1 where
  pub Fr : Type 0
  pub G1 : Type 0
  pub G2 : Type 0
  pub Fqk : Type 0
  pub field : Field Fr
  pub group1 : Group G1
  pub group2 : Group G2
  pub groupt : Group Fqk
  pub space1 : Space Fr ⦃f = field⦄ G1 ⦃g = group1⦄
  pub space2 : Space Fr ⦃f = field⦄ G2 ⦃g = group2⦄
  pub spacet : Space Fr ⦃f = field⦄ Fqk ⦃g = groupt⦄
  -- `prime_subgroup_generator()` of the two groups, which every point is a multiple of.
  pub gen1 : G1
  pub gen2 : G2
  pub gen1_generates : (a : G1) → (k : Fr) × (a ≡ ◌•◌ ⦃f = field⦄ ⦃g = group1⦄ ⦃s = space1⦄ k gen1)
  pub gen2_generates : (a : G2) → (k : Fr) × (a ≡ ◌•◌ ⦃f = field⦄ ⦃g = group2⦄ ⦃s = space2⦄ k gen2)
  pub pairing : G1 → G2 → Fqk
  pub pairing-add_left :
      (a b : G1) (h : G2)
      → pairing (◌⊕◌ ⦃g = group1⦄ a b) h ≡ ◌⊕◌ ⦃g = groupt⦄ (pairing a h) (pairing b h)
  pub pairing-add_right :
      (a : G1) (h i : G2)
      → pairing a (◌⊕◌ ⦃g = group2⦄ h i) ≡ ◌⊕◌ ⦃g = groupt⦄ (pairing a h) (pairing a i)
  pub pairing-smul_left :
      (k : Fr) (a : G1) (h : G2)
      → pairing (◌•◌ ⦃f = field⦄ ⦃g = group1⦄ ⦃s = space1⦄ k a) h
        ≡ ◌•◌ ⦃f = field⦄ ⦃g = groupt⦄ ⦃s = spacet⦄ k (pairing a h)
  pub pairing-smul_right :
      (k : Fr) (a : G1) (h : G2)
      → pairing a (◌•◌ ⦃f = field⦄ ⦃g = group2⦄ ⦃s = space2⦄ k h)
        ≡ ◌•◌ ⦃f = field⦄ ⦃g = groupt⦄ ⦃s = spacet⦄ k (pairing a h)
  pub pairing-ne-one : pairing gen1 gen2 ≢ groupt.zero
  -- `product_of_pairings` of a slice of pairs.
  pub product_of_pairings : List (G1 × G2) → Fqk
  pub product_of_pairings-nil : product_of_pairings [] ≡ groupt.zero
  pub product_of_pairings-cons :
      (a : G1) (h : G2) (rest : List (G1 × G2))
      → product_of_pairings ((a, h) ∷ rest)
        ≡ ◌⊕◌ ⦃g = groupt⦄ (pairing a h) (product_of_pairings rest)

module _ (E : Engine) where
  open E use {Fr, G1, G2, Fqk, field, group1, group2, groupt, space1, space2, spacet}
  open E use {gen1, gen2, pairing, product_of_pairings}

  instance abbrev fr : Field Fr
  fr = field

  instance abbrev g1 : Group G1
  g1 = group1

  instance abbrev g2 : Group G2
  g2 = group2

  instance abbrev gt : Group Fqk
  gt = groupt

  instance abbrev s1 : Space Fr G1
  s1 = space1

  instance abbrev s2 : Space Fr G2
  s2 = space2

  instance abbrev st : Space Fr Fqk
  st = spacet

  -- The pairing of two multiples of the generators.
  pub pairing-generators : (k l : Fr) → pairing (k • gen1) (l • gen2) ≡ k • l • pairing gen1 gen2
  pairing-generators k l =
      E.pairing-smul_left k gen1 (l • gen2) ∙ ap (◌•◌ k) (E.pairing-smul_right l gen1 gen2)

  -- The pairing with a generator tells points apart.
  pub pairing-gen1_injective : (h i : G2) → pairing gen1 h ≡ pairing gen1 i → h ≡ i
  pairing-gen1_injective h i e =
      let (k, p) = E.gen2_generates h in
      let (l, q) = E.gen2_generates i in p ∙ ap (λ m. m • gen2) (agree k l p q) ∙ sym q
    where
      agree : (k l : Fr) → h ≡ k • gen2 → i ≡ l • gen2 → k ≡ l
      agree k l p q = smul_injective k l (pairing gen1 gen2) E.pairing-ne-one (
          sym (E.pairing-smul_right k gen1 gen2)
          ∙ ap (pairing gen1) (sym p)
          ∙ e
          ∙ ap (pairing gen1) q
          ∙ E.pairing-smul_right l gen1 gen2)

  pub pairing-gen2_injective : (a b : G1) → pairing a gen2 ≡ pairing b gen2 → a ≡ b
  pairing-gen2_injective a b e =
      let (k, p) = E.gen1_generates a in
      let (l, q) = E.gen1_generates b in p ∙ ap (λ m. m • gen1) (agree k l p q) ∙ sym q
    where
      agree : (k l : Fr) → a ≡ k • gen1 → b ≡ l • gen1 → k ≡ l
      agree k l p q = smul_injective k l (pairing gen1 gen2) E.pairing-ne-one (
          sym (E.pairing-smul_left k gen1 gen2)
          ∙ ap (λ c. pairing c gen2) (sym p)
          ∙ e
          ∙ ap (λ c. pairing c gen2) q
          ∙ E.pairing-smul_left l gen1 gen2)

  -- A product of two pairings.
  pub product_of_two :
      (a b : G1) (h i : G2) → product_of_pairings ((a, h) ∷ (b, i) ∷ []) ≡ pairing a h ⊕ pairing b i
  product_of_two a b h i =
      E.product_of_pairings-cons a h ((b, i) ∷ [])
      ∙ ap (◌⊕◌ (pairing a h)) (
          E.product_of_pairings-cons b i []
          ∙ ap (◌⊕◌ (pairing b i)) E.product_of_pairings-nil
          ∙ add-zero (pairing b i))

  pub product_of_one : (a : G1) (h : G2) → product_of_pairings ((a, h) ∷ []) ≡ pairing a h
  product_of_one a h =
      E.product_of_pairings-cons a h []
      ∙ ap (◌⊕◌ (pairing a h)) E.product_of_pairings-nil
      ∙ add-zero (pairing a h)

  pub pairing-minus : (a : G1) (h : G2) → pairing (minus a) h ≡ minus (pairing a h)
  pairing-minus a h =
      minus_unique (pairing a h) (pairing (minus a) h)
        (sym (E.pairing-add_left a (minus a) h) ∙ ap (λ c. pairing c h) (add-minus a) ∙ vanish)
    where
      vanish : pairing g1.zero h ≡ gt.zero
      vanish =
          ap (λ c. pairing c h) (sym (zero-smul Fr a))
          ∙ E.pairing-smul_left fr.zero a h
          ∙ zero-smul Fr (pairing a h)

  pub pairing-minus_right : (a : G1) (h : G2) → pairing a (minus h) ≡ minus (pairing a h)
  pairing-minus_right a h =
      minus_unique (pairing a h) (pairing a (minus h))
        (sym (E.pairing-add_right a h (minus h)) ∙ ap (pairing a) (add-minus h) ∙ vanish)
    where
      vanish : pairing a g2.zero ≡ gt.zero
      vanish =
          ap (pairing a) (sym (zero-smul Fr h))
          ∙ E.pairing-smul_right fr.zero a h
          ∙ zero-smul Fr (pairing a h)

  -- `e(a, h) · e(-b, i) = 1` says that the two pairings agree.
  pub pairing_check :
      (a b : G1) (h i : G2)
      → (product_of_pairings ((a, h) ∷ (minus b, i) ∷ []) ≡ gt.zero) ↔ (pairing a h ≡ pairing b i)
  pairing_check a b h i = (λ e. agree (sym both ∙ e), λ e. both ∙ rw e (add-minus (pairing b i)))
    where
      both : product_of_pairings ((a, h) ∷ (minus b, i) ∷ []) ≡ pairing a h ⊕ minus (pairing b i)
      both = product_of_two a (minus b) h i ∙ ap (◌⊕◌ (pairing a h)) (pairing-minus b i)

      agree : pairing a h ⊕ minus (pairing b i) ≡ gt.zero → pairing a h ≡ pairing b i
      agree e = add_left_cancel (minus (pairing b i)) (pairing a h) (pairing b i) (
          add_comm (minus (pairing b i)) (pairing a h)
          ∙ e
          ∙ sym (add_comm (minus (pairing b i)) (pairing b i) ∙ add-minus (pairing b i)))

  -- The same with the factors in the other order.
  pub pairing_check_swap :
      (a b : G1) (h i : G2)
      → (product_of_pairings ((minus b, i) ∷ (a, h) ∷ []) ≡ gt.zero) ↔ (pairing a h ≡ pairing b i)
  pairing_check_swap a b h i = rw swap (pairing_check a b h i)
    where
      swap :
          product_of_pairings ((minus b, i) ∷ (a, h) ∷ [])
          ≡ product_of_pairings ((a, h) ∷ (minus b, i) ∷ [])
      swap =
          product_of_two (minus b) a i h
          ∙ add_comm (pairing (minus b) i) (pairing a h)
          ∙ sym (product_of_two a (minus b) h i)
