-- ===== src/Tpke/Setup/FastParticipants.antt =====
-- The contexts of `setup_fast` are those of participants in the fast variant (tpke/src/lib.rs).
use nucypher_ferveo.Base.{
  ℕ, zero, suc, ◌≤◌, ◌<◌, ◌≡◌, ◌≢◌, refl, sym, ap, ◌∙◌, some, List, [], ◌∷◌, map, arith,
}
use Prim.Native.Nat.{◌+◌}
use mathlib.Core.Option.{some-injective}
use nucypher_ferveo.Base.Tests.{le→leb}
use nucypher_ferveo.Base.Lists.{length, get_elem?, get_elem?-lt, get_elem?-map, take, All}
use nucypher_ferveo.Base.Outcome.{ok}
use nucypher_ferveo.Algebra.Field.{Field, ◌*◌, neg, zero-mul, mul-one}
use nucypher_ferveo.Algebra.Field.Ring.{ring}
use nucypher_ferveo.Algebra.Field.Inverse.{inv, inverse-inv, inv_unique}
use nucypher_ferveo.Algebra.Space.{Group, Space, ◌•◌, minus}
use nucypher_ferveo.Algebra.Engine.{Engine}
use nucypher_ferveo.Algebra.Domain.{Domain, Domains, FixedBaseMsm}
use nucypher_ferveo.Algebra.Poly.{eval}
use nucypher_ferveo.Subproduct.Multiexp.{fast_multiexp_lem}
use nucypher_ferveo.Tpke.KeyShare.{blind, multiply_by_omega_inv}
use nucypher_ferveo.Tpke.Context.{PrivateDecryptionContextFast, PublicDecryptionContextFast}
use nucypher_ferveo.Tpke.Setup.Fast.{
  domain_points_from, private_context_fast, public_context_fast, make_contexts_fast,
  know_publics_fast, setup_fast,
}

module _ (E : Engine) where
  open E use {Fr, G1, G2, gen1, gen2}

  instance abbrev fr : Field Fr
  fr = E.field

  instance abbrev g1 : Group G1
  g1 = E.group1

  instance abbrev g2 : Group G2
  g2 = E.group2

  instance abbrev s1 : Space Fr G1
  s1 = E.space1

  instance abbrev s2 : Space Fr G2
  s2 = E.space2

  -- What the private context of the participant at node x and position i holds.
  abbrev pub IsPrivateOf : List Fr → (ℕ → Fr) → ℕ → Fr → PrivateDecryptionContextFast E → Type 0
  IsPrivateOf cs b i x context =
      (context.index ≡ i)
      × (context.private_key_share.private_key_share ≡ eval cs x • gen2)
      × (context.setup_params.b_inv ≡ inv (b i))
      × (context.setup_params.g_inv ≡ minus gen1)

  -- What the others know of it: its node, its blinding key, and its key share blinded and divided by
  -- the opposite of the node.
  abbrev pub IsPublicOf : List Fr → (ℕ → Fr) → ℕ → Fr → PublicDecryptionContextFast E → Type 0
  IsPublicOf cs b i x context =
      (context.domain ≡ x)
      × (context.lagrange_n_0 ≡ x)
      × (context.public_key_share.public_key_share ≡ eval cs x • gen1)
      × (context.blinded_key_share.blinding_key_prepared ≡ b i • gen2)
      × (context.blinded_key_share.blinded_key_share ≡ neg (inv x) • (b i • (eval cs x • gen2)))
      × (context.h_inv ≡ minus gen2)

  -- The contexts, from position i on, are those of participants at the nodes.
  abbrev pub AreFast :
      List Fr
      → (ℕ → Fr)
      → ℕ
      → List Fr
      → List (PrivateDecryptionContextFast E)
      → List (PublicDecryptionContextFast E)
      → Type 0
  AreFast cs b i [] [] [] = Unit
  AreFast cs b i (x ∷ xs) (c ∷ privates) (p ∷ publics) =
      (IsPrivateOf cs b i x c × IsPublicOf cs b i x p) × AreFast cs b (suc i) xs privates publics
  AreFast cs b i _ _ _ = ⊥

  inverse_of : (x y : Fr) → x * y ≡ fr.one → y ≡ inv x
  inverse_of x y e = inv_unique x y (λ z. fr.one-ne-zero (sym e ∙ ap (λ t. t * y) z ∙ zero-mul y)) e

  pub next_inverse :
      (d : Domain E) (x y : Fr) → x * y ≡ fr.one → x * d.group_gen * (y * d.group_gen_inv) ≡ fr.one
  next_inverse d x y e =
      regroup x y d.group_gen d.group_gen_inv ∙ rw (e, d.group_gen_inv_lem) (mul-one fr.one)
    where
      regroup : (x y g h : Fr) → x * g * (y * h) ≡ x * y * (g * h)
      regroup x y g h = simp ring

  contexts_of :
      (cs : List Fr) (b : ℕ → Fr) (i : ℕ) (x point y : Fr)
      → x ≡ point
      → point * y ≡ fr.one
      → IsPrivateOf cs b i x (private_context_fast E i (eval cs x • gen2) (b i) (inv (b i)))
        × IsPublicOf cs b i x
            (public_context_fast E point y (eval cs x • gen1) (eval cs x • gen2) (b i))
  unfolding private_context_fast public_context_fast blind multiply_by_omega_inv
  contexts_of cs b i x point y node e = (
    (refl, refl, refl, refl),
    (
      sym node,
      sym node,
      refl,
      refl,
      ap (λ t. neg t • (b i • (eval cs x • gen2))) (inverse_of x y (ap (λ t. t * y) node ∙ e)),
      refl,
    ),
  )

  make_contexts_fast-AreFast :
      (d : Domain E) (cs : List Fr) (b : ℕ → Fr) (n i : ℕ) (xs : List Fr) (point y : Fr)
      → ((i : ℕ) → b i ≢ fr.zero)
      → ((j : ℕ) → j < length xs → get_elem? xs j ≡ some (d.element (i + j)))
      → n ≤ length xs
      → point ≡ d.element i
      → point * y ≡ fr.one
      → (privates : List (PrivateDecryptionContextFast E)) × (publics : List
          (PublicDecryptionContextFast E))
        × (make_contexts_fast E b i
              (domain_points_from E d n point y).0
              (domain_points_from E d n point y).1
              (map (λ k. k • gen1) (map (eval cs) xs))
              (map (λ k. k • gen2) (map (eval cs) xs))
            ≡ ok (privates, publics))
        × AreFast cs b i (take n xs) privates publics
  unfolding make_contexts_fast domain_points_from
  make_contexts_fast-AreFast d cs b zero i xs point y nonzero nodes le at e = ([], [], refl, tt)
  make_contexts_fast-AreFast d cs b (suc n) i [] point y nonzero nodes le at e =
      absurd (omega arith)
  make_contexts_fast-AreFast d cs b (suc n) i (x ∷ xs) point y nonzero nodes le at e =
      let (privates, publics, made, p) =
        make_contexts_fast-AreFast d cs b n (suc i) xs (point * d.group_gen) (y * d.group_gen_inv)
          nonzero
          (λ j h.
            nodes (suc j) (omega arith)
            ∙ ap (λ k. some (d.element k)) {x = i + suc j} {y = suc i + j} (omega arith))
          (omega arith) (ap (λ t. t * d.group_gen) at ∙ sym (d.element-suc i))
          (next_inverse d point y e) in
      (
        private_context_fast E i (eval cs x • gen2) (b i) (inv (b i)) ∷ privates,
        public_context_fast E point y (eval cs x • gen1) (eval cs x • gen2) (b i) ∷ publics,
        rw (inverse-inv (b i) (nonzero i), made) (refl),
        ((contexts_of cs b i x point y node e), p),
      )
    where
      node : x ≡ point
      node =
          some-injective x (d.element i) (
            nodes zero (omega arith)
            ∙ ap (λ k. some (d.element k)) {x = i + 0} {y = i} (omega arith))
          ∙ sym at

  with_publics :
      (known publics : List (PublicDecryptionContextFast E)) (cs : List Fr) (b : ℕ → Fr) (i : ℕ)
      (xs : List Fr) (privates : List (PrivateDecryptionContextFast E))
      → AreFast cs b i xs privates publics
      → AreFast cs b i xs (map (know_publics_fast E known) privates) publics
  unfolding know_publics_fast
  with_publics known [] cs b i [] [] p = p
  with_publics known (q ∷ publics) cs b i (x ∷ xs) (c ∷ privates) p =
      (p.0, with_publics known publics cs b (suc i) xs privates p.1)
  with_publics known [] cs b i [] (c ∷ privates) p = absurd p
  with_publics known (q ∷ publics) cs b i [] [] p = absurd p
  with_publics known (q ∷ publics) cs b i [] (c ∷ privates) p = absurd p
  with_publics known [] cs b i (x ∷ xs) [] p = absurd p
  with_publics known [] cs b i (x ∷ xs) (c ∷ privates) p = absurd p
  with_publics known (q ∷ publics) cs b i (x ∷ xs) [] p = absurd p

  -- Where the threshold is at most the number of shares, there is a domain for that many shares with
  -- at least the number of coefficients drawn, and no scalar drawn is zero, the setup succeeds. With
  -- the polynomial a + c_1·x + ... it returns the public key a·G, the private key a·H, and a private
  -- and a public context for each of the first shares_num elements of the domain. The private context
  -- at position i and node x holds the index i, the key share f(x)·H, the inverse of the scalar b_i
  -- that is drawn for it and the inverse of the generator; the public context holds the node twice,
  -- f(x)·G, the blinding key b_i·H, the blinded share -1/x·b_i·f(x)·H and -H. Every private context
  -- knows all the public ones.
  pub setup_fast-AreFast :
      (M1 : FixedBaseMsm Fr G1) (M2 : FixedBaseMsm Fr G2) (domains : Domains E) (domain : Domain E)
      (b : ℕ → Fr) (threshold shares_num : ℕ) (a : Fr) (cs : List Fr)
      → threshold ≤ shares_num
      → domains.new shares_num ≡ some domain
      → length (a ∷ cs) ≤ domain.size
      → ((i : ℕ) → b i ≢ fr.zero)
      → (contexts : List (PrivateDecryptionContextFast E)) × (publics : List
          (PublicDecryptionContextFast E))
        × (setup_fast E M1 M2 domains b threshold shares_num (a ∷ cs)
            ≡ ok (a • gen1, a • gen2, contexts))
        × AreFast (a ∷ cs) b 0 (take shares_num domain.elements) contexts publics
        × All (λ c. c.public_decryption_contexts ≡ publics) contexts
  unfolding setup_fast
  setup_fast-AreFast M1 M2 domains domain b threshold shares_num a cs le found size nonzero =
      let (x, first) =
        get_elem?-lt domain.elements 0 (omega (arith, domain.length-elements, size)) in
      let (privates, publics, e, p) =
        make_contexts_fast-AreFast domain (a ∷ cs) b shares_num 0 domain.elements fr.one fr.one
          nonzero
          (λ j h.
            domain.get_elem?-elements j (omega (arith, domain.length-elements))
            ∙ ap (λ k. some (domain.element k)) {x = j} {y = 0 + j} (omega arith))
          (omega (arith, domain.length-elements, domains.new-size shares_num found))
          (sym domain.element-zero) (mul-one fr.one) in
      (
        map (know_publics_fast E publics) privates,
        publics,
        rw
            (
              le→leb threshold shares_num le,
              found,
              domain.evaluate_over_domain_lem (a ∷ cs) size,
              get_elem?-map domain.elements (eval (a ∷ cs)) 0 first,
              fast_multiexp_lem M1 (map (eval (a ∷ cs)) domain.elements) gen1,
              fast_multiexp_lem M2 (map (eval (a ∷ cs)) domain.elements) gen2,
              e,
            )
            refl,
        with_publics publics publics (a ∷ cs) b 0 (take shares_num domain.elements) privates p,
        all_know publics privates,
      )
    where
      all_know :
          (publics : List (PublicDecryptionContextFast E))
          (privates : List (PrivateDecryptionContextFast E))
          → All
              (λ c. c.public_decryption_contexts ≡ publics)
              (map (know_publics_fast E publics) privates)
      all_know publics [] = tt
      all_know publics (c ∷ privates) =
          (unfold know_publics_fast in refl, all_know publics privates)
