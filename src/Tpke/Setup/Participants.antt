-- ===== src/Tpke/Setup/Participants.antt =====
-- The contexts of `setup_simple` are those of participants in threshold decryption (tpke/src/lib.rs).
use nucypher_ferveo.Base.{ℕ, suc, ◌≤◌, ◌≡◌, ◌≢◌, refl, some, List, [], ◌∷◌, map, arith}
use nucypher_ferveo.Base.Tests.{le→leb}
use nucypher_ferveo.Base.Lists.{length, get_elem?-lt, get_elem?-map}
use nucypher_ferveo.Base.Outcome.{ok}
use nucypher_ferveo.Algebra.Field.{Field}
use nucypher_ferveo.Algebra.Field.Inverse.{inv, inverse-inv}
use nucypher_ferveo.Algebra.Space.{Group, Space, ◌•◌}
use nucypher_ferveo.Algebra.Engine.{Engine}
use nucypher_ferveo.Algebra.Domain.{Domain, Domains, FixedBaseMsm}
use nucypher_ferveo.Algebra.Poly.{eval}
use nucypher_ferveo.Subproduct.Multiexp.{fast_multiexp_lem}
use nucypher_ferveo.Tpke.Context.{PrivateDecryptionContextSimple, PublicDecryptionContextSimple}
use nucypher_ferveo.Tpke.Threshold.{AreParticipants}
use nucypher_ferveo.Tpke.Setup.{
  private_context, public_context, make_contexts, know_publics, setup_simple,
}

module _ (E : Engine) where
  open E use {Fr, G1, G2, gen1, gen2}

  instance abbrev fr : Field Fr
  fr = E.field

  instance abbrev g1 : Group G1
  g1 = E.group1

  instance abbrev g2 : Group G2
  g2 = E.group2

  instance abbrev s1 : Space Fr G1
  s1 = E.space1

  instance abbrev s2 : Space Fr G2
  s2 = E.space2

  make_contexts-AreParticipants :
      (b : ℕ → Fr) (index : ℕ) (cs xs : List Fr)
      → ((i : ℕ) → b i ≢ fr.zero)
      → (privates : List (PrivateDecryptionContextSimple E)) × (publics : List
          (PublicDecryptionContextSimple E))
        × (make_contexts E b index xs
              (map (λ k. k • gen1) (map (eval cs) xs))
              (map (λ k. k • gen2) (map (eval cs) xs))
            ≡ ok (privates, publics))
        × AreParticipants E cs xs privates
  unfolding make_contexts private_context
  make_contexts-AreParticipants b index cs [] nonzero = ([], [], refl, tt)
  make_contexts-AreParticipants b index cs (x ∷ xs) nonzero =
      let (privates, publics, e, p) = make_contexts-AreParticipants b (suc index) cs xs nonzero in
      (
        private_context E index (eval cs x • gen2) (b index) (inv (b index)) ∷ privates,
        public_context E x (eval cs x • gen1) (eval cs x • gen2) (b index) ∷ publics,
        rw (inverse-inv (b index) (nonzero index), e) refl,
        ((refl, nonzero index, refl), p),
      )

  with_publics :
      (publics : List (PublicDecryptionContextSimple E)) (cs xs : List Fr)
      (contexts : List (PrivateDecryptionContextSimple E))
      → AreParticipants E cs xs contexts
      → AreParticipants E cs xs (map (know_publics E publics) contexts)
  unfolding know_publics
  with_publics publics cs [] [] p = p
  with_publics publics cs [] (c ∷ contexts) p = p
  with_publics publics cs (x ∷ xs) [] p = p
  with_publics publics cs (x ∷ xs) (c ∷ contexts) p = (p.0, with_publics publics cs xs contexts p.1)

  -- Where the threshold is at most the number of shares, there is a domain of that size and at least
  -- the number of coefficients drawn, and no scalar drawn is zero, the setup succeeds. With the
  -- polynomial a + c_1·x + ... it returns the public key a·G, the private key a·H, and for each element
  -- of the domain the context of a participant at that node.
  pub setup_simple-AreParticipants :
      (M1 : FixedBaseMsm Fr G1) (M2 : FixedBaseMsm Fr G2) (domains : Domains E) (domain : Domain E)
      (b : ℕ → Fr) (threshold shares_num : ℕ) (a : Fr) (cs : List Fr)
      → threshold ≤ shares_num
      → domains.new shares_num ≡ some domain
      → length (a ∷ cs) ≤ domain.size
      → ((i : ℕ) → b i ≢ fr.zero)
      → (contexts : List (PrivateDecryptionContextSimple E)) × (setup_simple E M1 M2 domains b
            threshold shares_num
            (a ∷ cs)
          ≡ ok (a • gen1, a • gen2, contexts))
        × AreParticipants E (a ∷ cs) domain.elements contexts
  unfolding setup_simple
  setup_simple-AreParticipants M1 M2 domains domain b threshold shares_num a cs le found size
        nonzero =
      let (x, first) =
        get_elem?-lt domain.elements 0 (omega (arith, domain.length-elements, size)) in
      let (privates, publics, e, p) =
        make_contexts-AreParticipants b 0 (a ∷ cs) domain.elements nonzero in
      (
        map (know_publics E publics) privates,
        rw
            (
              le→leb threshold shares_num le,
              found,
              domain.evaluate_over_domain_lem (a ∷ cs) size,
              get_elem?-map domain.elements (eval (a ∷ cs)) 0 first,
              fast_multiexp_lem M1 (map (eval (a ∷ cs)) domain.elements) gen1,
              fast_multiexp_lem M2 (map (eval (a ∷ cs)) domain.elements) gen2,
              e,
            )
            refl,
        with_publics publics (a ∷ cs) domain.elements privates p,
      )
