-- ===== src/Tpke/Combine/Fast/Keys.antt =====
-- What the keys of `prepare_combine_fast` combine to (tpke/src/combine.rs): the shared secret, or its
-- inverse, by the number of shares.
use nucypher_ferveo.Base.{◌≤◌, ◌≡◌, ◌≢◌, refl, sym, ap, ◌∙◌, some, List, [], ◌∷◌, map}
use mathlib.Core.Path.{ap₂}
use nucypher_ferveo.Base.Lists.{length, get_elem?, All, Distinct}
use nucypher_ferveo.Base.Predicates.{map-map}
use nucypher_ferveo.Base.Outcome.{ok}
use nucypher_ferveo.Algebra.Field.{Field, ◌*◌, neg, mul_assoc, one-mul, mul-one}
use nucypher_ferveo.Algebra.Field.Inverse.{inv, mul-inv}
use nucypher_ferveo.Algebra.Field.Ring.{ring}
use nucypher_ferveo.Algebra.Space.{Group, Space, ◌⊕◌, ◌•◌, mul-smul, add-smul, zero-smul}
use nucypher_ferveo.Algebra.Space.Sums.{sum, product, sum-mul_left, sum_congr}
use nucypher_ferveo.Algebra.Engine.{Engine}
use nucypher_ferveo.Algebra.DensePolynomials.{DensePolynomials}
use nucypher_ferveo.Algebra.Poly.{eval}
use nucypher_ferveo.Algebra.Poly.Basis.{basis}
use nucypher_ferveo.Algebra.Poly.Lagrange.{interpolate, interpolate-eval}
use nucypher_ferveo.Subproduct.Tree.Lagrange.{cofactor, cofactor-ne-zero}
use nucypher_ferveo.Subproduct.Tree.Regular.{AreRegular}
use nucypher_ferveo.Subproduct.Domain.{new-inverse_lagrange_coefficients}
use nucypher_ferveo.Tpke.Context.{PublicDecryptionContextFast}
use nucypher_ferveo.Tpke.Decryption.{DecryptionShareFast}
use nucypher_ferveo.Tpke.Combine.{pairing_product, share_combine_fast}
use nucypher_ferveo.Tpke.Combine.Sign.{sign, lagrange_fast}
use nucypher_ferveo.Tpke.Combine.Fast.{
  BatchInversion, domain_and_n_0, scale_key_shares, prepare_combine_fast,
}

module _ (E : Engine) where
  open E use {Fr, G1, G2, Fqk, gen2, pairing, product_of_pairings}

  instance abbrev fr : Field Fr
  fr = E.field

  instance abbrev g1 : Group G1
  g1 = E.group1

  instance abbrev g2 : Group G2
  g2 = E.group2

  instance abbrev gt : Group Fqk
  gt = E.groupt

  instance abbrev s1 : Space Fr G1
  s1 = E.space1

  instance abbrev s2 : Space Fr G2
  s2 = E.space2

  instance abbrev st : Space Fr Fqk
  st = E.spacet

  -- The shares belong to the nodes. The context of the share's decrypter holds the node x twice and
  -- the key share -1/x·b·f(x)·H for a nonzero scalar b and a polynomial f, and the share is 1/b·U.
  abbrev pub AreFastShares :
      List Fr
      → G1
      → List (PublicDecryptionContextFast E)
      → List Fr
      → List (DecryptionShareFast E)
      → Type 0
  AreFastShares cs u contexts [] [] = Unit
  AreFastShares cs u contexts [] (d ∷ shares) = ⊥
  AreFastShares cs u contexts (x ∷ xs) [] = ⊥
  AreFastShares cs u contexts (x ∷ xs) (d ∷ shares) =
      ((context : PublicDecryptionContextFast E) × (b : Fr) × (get_elem? contexts d.decrypter_index
          ≡ some context)
        × (context.domain ≡ x)
        × (context.lagrange_n_0 ≡ x)
        × (b ≢ fr.zero)
        × (context.blinded_key_share.blinded_key_share ≡ neg (inv x) • (b • (eval cs x • gen2)))
        × (d.decryption_share ≡ inv b • u))
      × AreFastShares cs u contexts xs shares

  domain_and_n_0-product :
      (cs : List Fr) (u : G1) (contexts : List (PublicDecryptionContextFast E)) (xs : List Fr)
      (shares : List (DecryptionShareFast E)) (n_0 : Fr)
      → AreFastShares cs u contexts xs shares
      → domain_and_n_0 E contexts shares n_0 ≡ ok (xs, n_0 * product xs)
  unfolding domain_and_n_0 product
  domain_and_n_0-product cs u contexts [] [] n_0 s = ap (λ p. ok ([], p)) (sym (mul-one n_0))
  domain_and_n_0-product cs u contexts [] (d ∷ shares) n_0 s = absurd s
  domain_and_n_0-product cs u contexts (x ∷ xs) [] n_0 s = absurd s
  domain_and_n_0-product cs u contexts (x ∷ xs) (d ∷ shares) n_0
        ((context, b, found, at, at_n, ne, key, share), s) =
      rw
        (
          found,
          domain_and_n_0-product cs u contexts xs shares (n_0 * context.lagrange_n_0) s,
          at,
          at_n,
          mul_assoc n_0 x (product xs),
        )
        refl

  -- e(1/b·U, λ·(-1/x·b·f(x)·H)) = e(U, H)^(λ·(-1/x)·f(x))
  one_pairing :
      (u : G1) (l j b v : Fr)
      → b ≢ fr.zero
      → pairing (inv b • u) (l • (neg j • (b • (v • gen2)))) ≡ (l * neg j * v) • pairing u gen2
  one_pairing u l j b v ne =
      E.pairing-smul_left (inv b) u (l • (neg j • (b • (v • gen2))))
      ∙ ap (λ t. inv b • t)
          (E.pairing-smul_right l u (neg j • (b • (v • gen2)))
            ∙ ap (λ t. l • t)
                (E.pairing-smul_right (neg j) u (b • (v • gen2))
                  ∙ ap (λ t. neg j • t)
                      (E.pairing-smul_right b u (v • gen2)
                        ∙ ap (λ t. b • t) (E.pairing-smul_right v u gen2))))
      ∙ collect (inv b) l (neg j) b v (pairing u gen2)
      ∙ ap (λ t. t • pairing u gen2)
          (regroup (inv b) l (neg j) b v
            ∙ ap (λ t. t * (l * neg j * v)) (mul-inv b ne)
            ∙ one-mul (l * neg j * v))
    where
      collect :
          (i l j b v : Fr) (p : Fqk) → i • (l • (j • (b • (v • p)))) ≡ (i * (l * (j * (b * v)))) • p
      collect i l j b v p =
          rw
            (
              mul-smul i (l * (j * (b * v))) p,
              mul-smul l (j * (b * v)) p,
              mul-smul j (b * v) p,
              mul-smul b v p,
            )
            refl

      regroup : (i l j b v : Fr) → i * (l * (j * (b * v))) ≡ b * i * (l * j * v)
      regroup i l j b v = simp ring

  -- The keys that are made with the coefficients h, and what they combine to.
  scaled_keys :
      (h : Fr → Fr) (cs : List Fr) (u : G1) (contexts : List (PublicDecryptionContextFast E))
      (xs : List Fr) (shares : List (DecryptionShareFast E))
      → AreFastShares cs u contexts xs shares
      → (keys : List G2) × (scale_key_shares E contexts shares (map h xs) ≡ ok keys)
        × (product_of_pairings (pairing_product E shares keys)
            ≡ sum (map (λ x. h x * neg (inv x) * eval cs x) xs) • pairing u gen2)
  unfolding scale_key_shares pairing_product sum
  scaled_keys h cs u contexts [] [] s =
      ([], refl, E.product_of_pairings-nil ∙ sym (zero-smul Fr (pairing u gen2)))
  scaled_keys h cs u contexts [] (d ∷ shares) s = absurd s
  scaled_keys h cs u contexts (x ∷ xs) [] s = absurd s
  scaled_keys h cs u contexts (x ∷ xs) (d ∷ shares)
        ((context, b, found, at, at_n, ne, key, share), s) =
      let (keys, scaled, combined) = scaled_keys h cs u contexts xs shares s in
      (
        h x • context.blinded_key_share.blinded_key_share ∷ keys,
        rw (found, scaled) refl,
        E.product_of_pairings-cons d.decryption_share
              (h x • context.blinded_key_share.blinded_key_share) (pairing_product E shares keys)
            ∙ ap₂ ◌⊕◌
                (ap₂ (λ a k. pairing a (h x • k)) share key
                  ∙ one_pairing u (h x) (inv x) b (eval cs x) ne)
                combined
            ∙ sym (add-smul (h x * neg (inv x) * eval cs x) _ (pairing u gen2)),
      )

  -- For n distinct nodes other than zero, at least one and at least as many as the polynomial f has
  -- coefficients, such that the complete symmetric polynomial of degree 2^k - 1 of m nodes in a row, for
  -- m at least one and 2^k + m less than n, is never zero, where n is not a multiple of the
  -- characteristic, and for each node x a share 1/b·U of a decrypter whose context holds x and
  -- -1/x·b·f(x)·H for a nonzero scalar b: the keys are prepared without a panic, and with them the shares
  -- combine to e(U, f(0)·H) to the power (-1)^n.
  pub share_combine_fast-prepare_combine_fast :
      (D : DensePolynomials Fr) (I : BatchInversion Fr) (cs xs : List Fr) (u : G1)
      (contexts : List (PublicDecryptionContextFast E)) (shares : List (DecryptionShareFast E))
      → 1 ≤ length xs
      → Distinct xs
      → AreRegular xs
      → All (λ x. x ≢ fr.zero) xs
      → D.from (length xs) ≢ fr.zero
      → length cs ≤ length xs
      → AreFastShares cs u contexts xs shares
      → (keys : List G2) × (prepare_combine_fast E D I contexts shares ≡ ok keys)
        × (share_combine_fast E shares keys
            ≡ sign {F = Fr} (length xs) • pairing u (eval cs fr.zero • gen2))
  unfolding prepare_combine_fast share_combine_fast interpolate
  share_combine_fast-prepare_combine_fast D I cs xs u contexts shares pos d regular nonzero char le
        s =
      let (domain, made, coefficients) =
        new-inverse_lagrange_coefficients D xs pos d regular char in
      let (keys, scaled, combined) =
        scaled_keys (λ x. product xs * inv (cofactor xs x)) cs u contexts xs shares s in
      (
        keys,
        rw
            (
              domain_and_n_0-product cs u contexts xs shares fr.one s,
              one-mul (product xs),
              made,
              coefficients,
              I.batch_inversion_and_mul_lem (map (cofactor xs) xs) (product xs)
                  (cofactors-nonzero xs),
              map-map (cofactor xs) (λ v. product xs * inv v) xs,
              scaled,
            )
            refl,
        combined ∙ ap (λ k. k • pairing u gen2) weights ∙ value,
      )
    where
      cofactors-nonzero : (ys : List Fr) → All (λ v. v ≢ fr.zero) (map (cofactor xs) ys)
      cofactors-nonzero [] = tt
      cofactors-nonzero (y ∷ ys) = (cofactor-ne-zero xs y, cofactors-nonzero ys)

      weights :
          sum (map (λ x. product xs * inv (cofactor xs x) * neg (inv x) * eval cs x) xs)
          ≡ sign (length xs) * eval cs fr.zero
      weights =
          sum_congr _ _ (λ x. sign (length xs) * (basis fr.zero xs x * eval cs x)) xs
            (lagrange_fast xs d nonzero)
            (λ x e.
              ap (λ t. t * eval cs x) e
              ∙ mul_assoc (sign (length xs)) (basis fr.zero xs x) (eval cs x))
          ∙ sum-mul_left (sign (length xs)) (λ x. basis fr.zero xs x * eval cs x) xs
          ∙ ap (◌*◌ (sign (length xs))) (interpolate-eval fr.zero xs cs d le)

      value :
          (sign (length xs) * eval cs fr.zero) • pairing u gen2
          ≡ sign {F = Fr} (length xs) • pairing u (eval cs fr.zero • gen2)
      value =
          mul-smul (sign (length xs)) (eval cs fr.zero) (pairing u gen2)
          ∙ ap (λ t. sign {F = Fr} (length xs) • t)
              (sym (E.pairing-smul_right (eval cs fr.zero) u gen2))
