-- ===== src/Subproduct/Toeplitz/Product.antt =====
-- What `toeplitz_mul` computes (subproductdomain/src/lib.rs).
use Prim.Native.Nat.{◌+◌ as ◌+ℕ◌, ◌-◌ as ◌-ℕ◌, ◌*◌ as ◌*ℕ◌, ◌/◌, ◌%◌, ◌^◌}
use native.Mathlib.Nat.{pow-suc}
use mathlib.Core.Path.{fun_ext}
use nucypher_ferveo.Base.{
  ℕ, zero, suc, ◌≤◌, ◌<◌, ◌≡◌, ◌≢◌, refl, sym, ap, ◌∙◌, some, List, ◌∷◌, arith,
}
use nucypher_ferveo.Base.Tests.{le→leb}
use nucypher_ferveo.Base.Lists.{length, take, drop, resize, length-take, length-resize}
use nucypher_ferveo.Base.Outcome.{ok}
use nucypher_ferveo.Algebra.Field.{Field}
use nucypher_ferveo.Algebra.Field.Inverse.{inv, inverse-inv}
use nucypher_ferveo.Algebra.Space.{Group, Space}
use nucypher_ferveo.Algebra.Engine.{Engine}
use nucypher_ferveo.Algebra.Domain.{Radix2Domain, Radix2Domains}
use nucypher_ferveo.Algebra.DensePolynomials.{DensePolynomials}
use nucypher_ferveo.Algebra.Poly.Coefficients.{coeff, IsTrimmed}
use nucypher_ferveo.Algebra.Cyclic.{convolve, length-convolve}
use nucypher_ferveo.Algebra.Cyclic.Entries.{
  point_at, point_at-length, rotations, point_at-rotations_wrap, combination, point_at-convolve,
}
use nucypher_ferveo.Algebra.Cyclic.Sums.{
  coeff-drop, combination-circulant, inner, combination-inner,
}
use nucypher_ferveo.Subproduct.Circulant.Entries.{IsCirculantOf, build_circulant-IsCirculantOf}
use nucypher_ferveo.Subproduct.Toeplitz.{max, scale_points, pad_reversed, toeplitz_mul}
use nucypher_ferveo.Subproduct.Toeplitz.Points.{
  length-drop_le, length-pad_reversed, point_at-pad_reversed, point_at-resize, point_at-take,
  elements_roots, scale_points-convolve,
}

module _ {G : Type 0} ⦃g : Group G⦄ where
  -- The padded points, as long as the circulant vector.
  abbrev padded : ℕ → List G → List G
  padded n v = resize (n +ℕ n) g.zero (pad_reversed n v)

  padded_early :
      (n : ℕ) (v : List G) (q m : ℕ)
      → length v ≤ n
      → suc (q +ℕ m) ≡ n
      → point_at (padded n v) q ≡ point_at v m
  padded_early n v q m h e =
      point_at-resize (n +ℕ n) (pad_reversed n v) q (omega arith)
      ∙ point_at-pad_reversed n v q m h e

  padded_late :
      (n : ℕ) (v : List G) (q : ℕ)
      → length v ≤ n
      → n ≤ q
      → q < n +ℕ n
      → point_at (padded n v) q ≡ g.zero
  padded_late n v q h le lt =
      point_at-resize (n +ℕ n) (pad_reversed n v) q lt
      ∙ point_at-length (pad_reversed n v) q (omega (arith, le, length-pad_reversed n v h))

module _ {F G : Type 0} ⦃f : Field F⦄ ⦃g : Group G⦄ ⦃s : Space F G⦄ where
  -- An entry of the convolution with a circulant vector, in the upper half.
  pub convolve-IsCirculantOf :
      (n i r : ℕ) (ps circulant : List F) (v : List G)
      → n ≡ suc (i +ℕ r)
      → length ps ≤ suc n
      → length v ≤ n
      → IsCirculantOf ps n circulant
      → point_at (convolve circulant (padded n v)) i ≡ inner (drop (suc i) ps) v
  unfolding rotations
  convolve-IsCirculantOf n i r ps circulant v size short fits (count, first, zeros, at_n, rest) =
      point_at-convolve circulant (padded n v) i
      ∙ ap (λ k. combination k (coeff circulant) turned) {x = length circulant} {y = n +ℕ n}
          (omega (arith, count))
      ∙ combination-circulant n i r (coeff circulant) (coeff ps) turned (point_at v) size first
          zeros rest (padded_early n v i r fits (omega (arith, size)))
          (wrapped n (n +ℕ i) (omega arith) (omega (arith, size))
            ∙ padded_late n v (n +ℕ i) fits (omega arith) (omega (arith, size)))
          (λ j lt.
            wrapped (suc (n +ℕ j)) (n +ℕ (i -ℕ suc j)) (omega (arith, lt)) (omega (arith, size, lt))
            ∙ padded_late n v (n +ℕ (i -ℕ suc j)) fits (omega arith) (omega (arith, size, lt)))
          (λ m lt.
            wrapped (suc (n +ℕ (i +ℕ m))) (n -ℕ suc m) (omega (arith, size, lt))
              (omega (arith, size, lt))
            ∙ padded_early n v (n -ℕ suc m) m fits (omega (arith, size, lt)))
      ∙ ap (λ a. combination (suc r) a (point_at v))
          (fun_ext (λ m.
            ap (coeff ps) {x = suc (i +ℕ m)} {y = suc i +ℕ m} (omega arith)
            ∙ sym (coeff-drop (suc i) m ps)))
      ∙ combination-inner (suc r) (drop (suc i) ps) v
          (length-drop_le (suc i) (suc r) ps (omega (arith, size, short)))
    where
      turned : ℕ → G
      turned k = point_at (rotations k (padded n v)) i

      long : length (padded n v) ≡ n +ℕ n
      long = length-resize (n +ℕ n) g.zero (pad_reversed n v)

      wrapped : (k q : ℕ) → q +ℕ k ≡ n +ℕ n +ℕ i → q < n +ℕ n → turned k ≡ point_at (padded n v) q
      wrapped k q e lt =
          point_at-rotations_wrap k i q (padded n v) (omega (arith, e, long))
            (omega (arith, size, long)) (omega (arith, lt, long))

module _ (E : Engine) (D : DensePolynomials E.Fr ⦃f = E.field⦄) (domains : Radix2Domains E) where
  open E use {Fr, G1}

  instance abbrev fr : Field Fr
  fr = E.field

  instance abbrev g1 : Group G1
  g1 = E.group1

  instance abbrev s1 : Space Fr G1
  s1 = E.space1

  -- The inverse transform of the products is the convolution.
  transformed :
      (d : Radix2Domain E) (circulant : List Fr) (ts : List G1)
      → length circulant ≡ d.domain.size
      → length ts ≡ d.domain.size
      → d.ifft_in_place (scale_points (d.domain.fft_in_place ts) (d.fft_scalars circulant))
        ≡ convolve circulant ts
  transformed d circulant ts size long =
      ap d.ifft_in_place (
        rw
          (
            d.domain.fft_in_place_lem ts (omega (arith, long)),
            d.fft_scalars_lem circulant (omega (arith, size)),
          )
          (scale_points-convolve circulant ts d.domain.elements
            (rw long (elements_roots E d.domain d.element-size))))
      ∙ d.ifft_in_place_lem (convolve circulant ts) (length-convolve circulant ts ∙ long)

  half : (d : Radix2Domain E) → 2 ≤ d.domain.size → (n : ℕ) × (d.domain.size ≡ n +ℕ n)
  half d le = halve d.log_size_of_group d.size_lem
    where
      halve : (k : ℕ) → d.domain.size ≡ 2 ^ k → (n : ℕ) × (d.domain.size ≡ n +ℕ n)
      halve zero e = absurd (omega arith)
      halve (suc k) e = (2 ^ k, omega (arith, pow-suc 2 k))

  -- For a polynomial with at least one coefficient and no leading zero, whose degree is at most s, at
  -- most s points, where s is the larger of the size asked for and the degree, 1 ≤ s and 2s < 2^64, a
  -- domain for 2s elements with a size that is not a multiple of the characteristic: the product is
  -- computed. It has half as many points as the domain elements, and its point at i is the sum of the
  -- products of the coefficients from the one at i + 1 on with the points given, in order. The second
  -- result is the inverse of the domain's size.
  pub toeplitz_mul-inner :
      (c : Fr) (cs : List Fr) (v : List G1) (size : ℕ) (d : Radix2Domain E)
      → 1 ≤ max size (length cs)
      → 2 *ℕ max size (length cs) < 2 ^ 64
      → length v ≤ max size (length cs)
      → IsTrimmed (c ∷ cs)
      → domains.new (2 *ℕ max size (length cs)) ≡ some d
      → D.from d.domain.size ≢ fr.zero
      → (out : List G1) × (toeplitz_mul E D domains (c ∷ cs) v size
          ≡ ok (out, inv (D.from d.domain.size)))
        × (length out +ℕ length out ≡ d.domain.size)
        × ((i : ℕ) → i < length out → point_at out i ≡ inner (drop (suc i) (c ∷ cs)) v)
  unfolding toeplitz_mul
  toeplitz_mul-inner c cs v size d pos small fits trimmed found char =
      let s = max size (length cs) in
      let large = domains.new-size (2 *ℕ s) found in
      let (n, twice) = half d (omega (arith, pos, large)) in
      let at_most = degree_le_max size (length cs) in
      let (circulant, made, entries) =
        build_circulant-IsCirculantOf D c cs n (omega (arith, pos, large, twice))
          (omega (arith, at_most, large, twice)) trimmed in
      let ts : List G1 = resize d.domain.size g1.zero (pad_reversed n v) in
      let long = length-resize d.domain.size g1.zero (pad_reversed n v) in
      let count =
        length-take n (convolve circulant ts)
          (omega (arith, length-convolve circulant ts, long, twice)) in
      (
        take n (convolve circulant ts),
        rw
            (
              wrapped_degree (length cs) (omega (arith, at_most, small)),
              wrapped_size (2 *ℕ s) small,
              found,
              halved d.domain.size n twice,
              made,
              le→leb (length v) n (omega (arith, fits, large, twice)),
              transformed d circulant ts (omega (arith, entries.0, twice)) long,
              inverse-inv (D.from d.domain.size) char,
            )
            refl,
        omega (arith, count, twice),
        (λ i lt.
            point_at-take n i (convolve circulant ts) (omega (arith, lt, count))
            ∙ ap (λ k. point_at (convolve circulant (resize k g1.zero (pad_reversed n v))) i) twice
            ∙ convolve-IsCirculantOf n i (n -ℕ suc i) (c ∷ cs) circulant v
                (omega (arith, lt, count)) (omega (arith, at_most, large, twice))
                (omega (arith, fits, large, twice)) entries),
      )
    where
      degree_le_max : (a b : ℕ) → b ≤ max a b
      degree_le_max a b = ground arith

      wrapped_degree : (k : ℕ) → k < 2 ^ 64 → (suc k +ℕ 2 ^ 64 -ℕ 1) % 2 ^ 64 ≡ k
      wrapped_degree k h = omega arith

      wrapped_size : (k : ℕ) → k < 2 ^ 64 → k % 2 ^ 64 ≡ k
      wrapped_size k h = omega arith

      halved : (k n : ℕ) → k ≡ n +ℕ n → k / 2 ≡ n
      halved k n h = omega arith
