-- ===== src/Tpke/Combine/Append.antt =====
-- More shares than coefficients: the fold of tpke/src/combine.rs ends with the coefficients.
use nucypher_ferveo.Base.{◌≡◌, refl, sym, ap, ◌∙◌, some, List, [], ◌∷◌, ◌++◌, arith}
use mathlib.Core.Option.{some-injective}
use nucypher_ferveo.Base.Lists.{length, length-map}
use nucypher_ferveo.Algebra.Field.{Field}
use nucypher_ferveo.Algebra.Space.{Group, Space, ◌•◌, ◌⊕◌}
use nucypher_ferveo.Algebra.Engine.{Engine}
use nucypher_ferveo.Algebra.Poly.Basis.{basis}
use nucypher_ferveo.Tpke.Decryption.{DecryptionShareSimple}
use nucypher_ferveo.Tpke.Combine.{prepare_combine_simple, share_combine_simple, combine_simple_from}
use nucypher_ferveo.Tpke.Combine.Basis.{lagrange_basis_at-basis}

module _ (E : Engine) where
  open E use {Fr, G1, G2, Fqk, gen2, pairing}

  instance abbrev fr : Field Fr
  fr = E.field

  instance abbrev g2 : Group G2
  g2 = E.group2

  instance abbrev gt : Group Fqk
  gt = E.groupt

  instance abbrev s2 : Space Fr G2
  s2 = E.space2

  instance abbrev st : Space Fr Fqk
  st = E.spacet

  combine_simple_from-append :
      (acc : Fqk) (shares extra : List (DecryptionShareSimple E)) (coeffs : List Fr)
      → length shares ≡ length coeffs
      → combine_simple_from E acc (shares ++ extra) coeffs ≡ combine_simple_from E acc shares coeffs
  unfolding combine_simple_from
  combine_simple_from-append acc [] [] [] h = refl
  combine_simple_from-append acc [] (e ∷ extra) [] h = refl
  combine_simple_from-append acc [] extra (k ∷ coeffs) h = absurd (omega (arith, h))
  combine_simple_from-append acc (share ∷ shares) extra [] h = absurd (omega (arith, h))
  combine_simple_from-append acc (share ∷ shares) extra (k ∷ coeffs) h =
      combine_simple_from-append (acc ⊕ k • share.decryption_share) shares extra coeffs
        (omega (arith, h))

  -- A share without a coefficient is not combined.
  pub share_combine_simple-append :
      (xs : List Fr) (shares extra : List (DecryptionShareSimple E)) {coeffs : List Fr}
      → length shares ≡ length xs
      → prepare_combine_simple xs ≡ some coeffs
      → share_combine_simple E (shares ++ extra) coeffs ≡ share_combine_simple E shares coeffs
  unfolding prepare_combine_simple share_combine_simple
  share_combine_simple-append xs shares extra {coeffs} size prepared =
      combine_simple_from-append gt.zero shares extra coeffs (
        size
        ∙ sym (length-map xs (basis fr.zero xs))
        ∙ ap length (some-injective _ _ (sym (lagrange_basis_at-basis xs fr.zero) ∙ prepared)))
