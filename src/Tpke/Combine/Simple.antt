-- ===== src/Tpke/Combine/Simple.antt =====
-- Threshold decryption in the simple variants: the shares of enough participants combine to the
-- shared secret (tpke/src/combine.rs, tpke/src/decryption.rs, tpke/src/context.rs).
use nucypher_ferveo.Base.{◌≤◌, ◌≡◌, refl, sym, ap, ◌∙◌, some, List, [], ◌∷◌, map}
use nucypher_ferveo.Base.Lists.{length, Distinct}
use nucypher_ferveo.Algebra.Field.{Field, ◌*◌}
use nucypher_ferveo.Algebra.Space.{
  Group, Space, ◌⊕◌, ◌•◌, zero-add, add-zero, add_assoc, mul-smul, add-smul, zero-smul,
}
use nucypher_ferveo.Algebra.Space.Sums.{sum}
use nucypher_ferveo.Algebra.Engine.{Engine}
use nucypher_ferveo.Algebra.Poly.{eval}
use nucypher_ferveo.Algebra.Poly.Basis.{basis}
use nucypher_ferveo.Algebra.Poly.Lagrange.{interpolate, interpolate-eval}
use nucypher_ferveo.Tpke.Ciphertext.{Ciphertext}
use nucypher_ferveo.Tpke.Context.{PrivateDecryptionContextSimple}
use nucypher_ferveo.Tpke.Decryption.{
  DecryptionShareSimple, DecryptionShareSimplePrecomputed, create_share_precomputed,
}
use nucypher_ferveo.Tpke.Combine.{
  prepare_combine_simple, share_combine_simple, combine_simple_from,
  share_combine_simple_precomputed, combine_precomputed_from,
}
use nucypher_ferveo.Tpke.Combine.Basis.{lagrange_basis_at-basis}

module _ (E : Engine) where
  open E use {Fr, G1, G2, Fqk, gen2, pairing}

  instance abbrev fr : Field Fr
  fr = E.field

  instance abbrev g1 : Group G1
  g1 = E.group1

  instance abbrev g2 : Group G2
  g2 = E.group2

  instance abbrev gt : Group Fqk
  gt = E.groupt

  instance abbrev s1 : Space Fr G1
  s1 = E.space1

  instance abbrev s2 : Space Fr G2
  s2 = E.space2

  instance abbrev st : Space Fr Fqk
  st = E.spacet

  -- The shares belong to the nodes: the share of node x is e(U, f(x)·H), for a polynomial f.
  abbrev pub IsShareOf : List Fr → G1 → List Fr → List (DecryptionShareSimple E) → Type 0
  IsShareOf cs u [] [] = Unit
  IsShareOf cs u [] (share ∷ shares) = ⊥
  IsShareOf cs u (x ∷ xs) [] = ⊥
  IsShareOf cs u (x ∷ xs) (share ∷ shares) =
      (share.decryption_share ≡ pairing u (eval cs x • gen2)) × IsShareOf cs u xs shares

  combine_from_shares :
      (h : Fr → Fr) (cs : List Fr) (u : G1) (acc : Fqk) (xs : List Fr)
      (shares : List (DecryptionShareSimple E))
      → IsShareOf cs u xs shares
      → combine_simple_from E acc shares (map h xs)
        ≡ acc ⊕ sum (map (λ a. h a * eval cs a) xs) • pairing u gen2
  unfolding combine_simple_from sum
  combine_from_shares h cs u acc [] [] s = rw (zero-smul Fr (pairing u gen2)) (sym (add-zero acc))
  combine_from_shares h cs u acc [] (share ∷ shares) s = absurd s
  combine_from_shares h cs u acc (x ∷ xs) [] s = absurd s
  combine_from_shares h cs u acc (x ∷ xs) (share ∷ shares) s =
      combine_from_shares h cs u (acc ⊕ h x • share.decryption_share) xs shares s.1
      ∙ rw
          (
            s.0,
            E.pairing-smul_right (eval cs x) u gen2,
            ← mul-smul (h x) (eval cs x) (pairing u gen2),
            add-smul (h x * eval cs x) (sum (map (λ a. h a * eval cs a) xs)) (pairing u gen2),
          )
          (add_assoc acc _ _)

  -- For distinct nodes, at least as many as the polynomial f has coefficients, and for each node x
  -- the share e(U, f(x)·H): the Lagrange coefficients are computed without a panic, and with them
  -- the shares combine to e(U, f(0)·H).
  pub share_combine_simple-prepare_combine_simple :
      (cs xs : List Fr) (u : G1) (shares : List (DecryptionShareSimple E))
      → Distinct xs
      → length cs ≤ length xs
      → IsShareOf cs u xs shares
      → (coeffs : List Fr) × (prepare_combine_simple xs ≡ some coeffs)
        × (share_combine_simple E shares coeffs ≡ pairing u (eval cs fr.zero • gen2))
  unfolding prepare_combine_simple share_combine_simple interpolate
  share_combine_simple-prepare_combine_simple cs xs u shares d le s =
      (map (basis fr.zero xs) xs, lagrange_basis_at-basis xs fr.zero, combined)
    where
      combined :
          combine_simple_from E gt.zero shares (map (basis fr.zero xs) xs)
          ≡ pairing u (eval cs fr.zero • gen2)
      combined =
          combine_from_shares (basis fr.zero xs) cs u gt.zero xs shares s
          ∙ zero-add _
          ∙ ap (λ k. k • pairing u gen2) (interpolate-eval fr.zero xs cs d le)
          ∙ sym (E.pairing-smul_right (eval cs fr.zero) u gen2)

  -- The precomputed shares of the contexts, each with its Lagrange coefficient.
  abbrev pub precomputed :
      List (PrivateDecryptionContextSimple E)
      → List Fr
      → Ciphertext E
      → List (DecryptionShareSimplePrecomputed E)
  precomputed (context ∷ contexts) (coeff ∷ coeffs) c =
      create_share_precomputed E context c coeff ∷ precomputed contexts coeffs c
  precomputed _ _ c = []

  -- The simple shares of the contexts hold the pairings of the commitment with their key shares.
  abbrev pub IsShareFor :
      List (PrivateDecryptionContextSimple E)
      → Ciphertext E
      → List (DecryptionShareSimple E)
      → Type 0
  IsShareFor [] c [] = Unit
  IsShareFor (context ∷ contexts) c [] = ⊥
  IsShareFor [] c (share ∷ shares) = ⊥
  IsShareFor (context ∷ contexts) c (share ∷ shares) =
      (share.decryption_share ≡ pairing c.commitment context.private_key_share.private_key_share)
      × IsShareFor contexts c shares

  precomputed_from :
      (acc : Fqk) (contexts : List (PrivateDecryptionContextSimple E)) (coeffs : List Fr)
      (c : Ciphertext E) (shares : List (DecryptionShareSimple E))
      → IsShareFor contexts c shares
      → combine_precomputed_from E acc (precomputed contexts coeffs c)
        ≡ combine_simple_from E acc shares coeffs
  unfolding combine_precomputed_from combine_simple_from create_share_precomputed
  precomputed_from acc [] coeffs c [] s = refl
  precomputed_from acc (context ∷ contexts) [] c (share ∷ shares) s = refl
  precomputed_from acc (context ∷ contexts) (coeff ∷ coeffs) c (share ∷ shares) s =
      rw (s.0, ← E.pairing-smul_left coeff c.commitment context.private_key_share.private_key_share)
        (precomputed_from
          (acc ⊕ pairing (coeff • c.commitment) context.private_key_share.private_key_share)
          contexts coeffs c shares s.1)
  precomputed_from acc [] coeffs c (share ∷ shares) s = absurd s
  precomputed_from acc (context ∷ contexts) coeffs c [] s = absurd s

  -- The precomputed variant combines to the same value as the simple variant with the same
  -- coefficients, where each simple share is the pairing of the commitment with the key share of
  -- its context.
  pub share_combine_simple_precomputed-share_combine_simple :
      (contexts : List (PrivateDecryptionContextSimple E)) (coeffs : List Fr) (c : Ciphertext E)
      (shares : List (DecryptionShareSimple E))
      → IsShareFor contexts c shares
      → share_combine_simple_precomputed E (precomputed contexts coeffs c)
        ≡ share_combine_simple E shares coeffs
  unfolding share_combine_simple share_combine_simple_precomputed
  share_combine_simple_precomputed-share_combine_simple contexts coeffs c shares s =
      precomputed_from gt.zero contexts coeffs c shares s
