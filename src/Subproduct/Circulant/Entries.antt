-- ===== src/Subproduct/Circulant/Entries.antt =====
-- The entries of the vector that `build_circulant` makes (subproductdomain/src/lib.rs).
use Prim.Native.Nat.{◌+◌ as ◌+ℕ◌, ◌*◌ as ◌*ℕ◌, ◌-◌ as ◌-ℕ◌}
use nucypher_ferveo.Base.{
  ℕ, suc, ◌≤◌, ◌<◌, ◌≡◌, refl, sym, ap, ◌∙◌, inl, inr, some, List, ◌∷◌, arith,
}
use nucypher_ferveo.Base.Tests.{leb, le→leb, eq→==, ne→==, Bool-cases, leb→le, leb→gt}
use nucypher_ferveo.Base.Lists.{length, get_elem?, take, length-take, replicate}
use nucypher_ferveo.Algebra.Field.{Field}
use nucypher_ferveo.Algebra.DensePolynomials.{DensePolynomials}
use nucypher_ferveo.Algebra.Poly.Coefficients.{coeff, coeff-length, IsTrimmed}
use nucypher_ferveo.Subproduct.Circulant.{build_circulant}
use nucypher_ferveo.Subproduct.Circulant.Slices.{
  length-replicate, set?-coeff, copy_from_slice?-coeff, coeff-replicate, coeff-take,
  coeff-get_elem?,
}

module _ {F : Type 0} ⦃f : Field F⦄ where
  -- Of the 2n entries the ones at 0 and at n are the n-th coefficient, those between are zero, and
  -- after them stand the coefficients from the first to the one before the n-th.
  abbrev pub IsCirculantOf : List F → ℕ → List F → Type 0
  IsCirculantOf cs n v =
      (length v ≡ 2 *ℕ n)
      × (coeff v 0 ≡ coeff cs n)
      × ((j : ℕ) → 1 ≤ j → j < n → coeff v j ≡ f.zero)
      × (coeff v n ≡ coeff cs n)
      × ((j : ℕ) → suc j < n → coeff v (suc (n +ℕ j)) ≡ coeff cs (suc j))

module _ {F : Type 0} ⦃f : Field F⦄ (D : DensePolynomials F) where
  full_circulant :
      (c : F) (cs : List F) (n : ℕ)
      → 1 ≤ n
      → length cs ≡ n
      → IsTrimmed (c ∷ cs)
      → (v : List F) × (build_circulant D (c ∷ cs) n ≡ some v) × IsCirculantOf (c ∷ cs) n v
  unfolding build_circulant
  full_circulant c cs n pos size trimmed =
      let zeros = replicate (2 *ℕ n) f.zero in
      let (v_1, set_1, size_1, at_1, same_1) =
        set?-coeff 0 (coeff (c ∷ cs) n) zeros (omega (arith, length-replicate (2 *ℕ n) f.zero)) in
      let (v_2, set_2, size_2, at_2, same_2) =
        set?-coeff n (coeff (c ∷ cs) n) v_1
          (omega (arith, size_1, length-replicate (2 *ℕ n) f.zero)) in
      let middle = take (length (c ∷ cs) -ℕ 2) cs in
      let count = length-take (length (c ∷ cs) -ℕ 2) cs (omega arith) in
      let (v, copied, size_3, before, within, after) =
        copy_from_slice?-coeff (suc n) middle v_2
          (omega (arith, count, size_2, size_1, length-replicate (2 *ℕ n) f.zero)) in
      (
        v,
        rw
            (
              le→leb (D.degree (c ∷ cs)) n (D.degree_le (c ∷ cs) n trimmed (omega arith)),
              eq→== n (length (c ∷ cs) -ℕ 1) (omega (arith, size)),
              last,
              set_1,
              set_2,
              copied,
            )
            refl,
        (
          omega (arith, size_3, size_2, size_1, length-replicate (2 *ℕ n) f.zero),
          before 0 (omega arith) ∙ same_2 0 (λ e. omega arith) ∙ at_1,
          (λ j le lt.
              before j (omega arith)
              ∙ same_2 j (λ e. omega arith)
              ∙ same_1 j (λ e. omega arith)
              ∙ coeff-replicate (2 *ℕ n) j),
          before n (omega arith) ∙ at_2,
          (λ j lt.
              within j (suc (n +ℕ j)) (omega arith) (omega (arith, count))
              ∙ coeff-take (length (c ∷ cs) -ℕ 2) j cs (omega arith)),
        ),
      )
    where
      last : get_elem? (c ∷ cs) (length (c ∷ cs) -ℕ 1) ≡ some (coeff (c ∷ cs) n)
      last =
          coeff-get_elem? (length (c ∷ cs) -ℕ 1) (c ∷ cs) (omega arith)
          ∙ ap (λ i. some (coeff (c ∷ cs) i)) {x = length (c ∷ cs) -ℕ 1} {y = n} (omega arith)

  shorter_circulant :
      (c : F) (cs : List F) (n : ℕ)
      → length cs < n
      → IsTrimmed (c ∷ cs)
      → (v : List F) × (build_circulant D (c ∷ cs) n ≡ some v) × IsCirculantOf (c ∷ cs) n v
  unfolding build_circulant
  shorter_circulant c cs n short trimmed =
      let zeros = replicate (2 *ℕ n) f.zero in
      let (v, copied, size, before, within, after) =
        copy_from_slice?-coeff (suc n) cs zeros (omega (arith, length-replicate (2 *ℕ n) f.zero)) in
      (
        v,
        rw
            (
              le→leb (D.degree (c ∷ cs)) n (D.degree_le (c ∷ cs) n trimmed (omega arith)),
              ne→== n (length (c ∷ cs) -ℕ 1) (λ e. omega arith),
              copied,
            )
            refl,
        (
          omega (arith, size, length-replicate (2 *ℕ n) f.zero),
          before 0 (omega arith)
              ∙ coeff-replicate (2 *ℕ n) 0
              ∙ sym (coeff-length (c ∷ cs) n (omega arith)),
          (λ j le lt. before j (omega arith) ∙ coeff-replicate (2 *ℕ n) j),
          before n (omega arith)
              ∙ coeff-replicate (2 *ℕ n) n
              ∙ sym (coeff-length (c ∷ cs) n (omega arith)),
          (λ j lt. elim (Bool-cases (leb (length cs) j)) [
            | inl e ↦
                after (suc (n +ℕ j)) (omega (arith, leb→le (length cs) j e))
                ∙ coeff-replicate (2 *ℕ n) (suc (n +ℕ j))
                ∙ sym (coeff-length cs j (leb→le (length cs) j e))
            | inr e ↦ within j (suc (n +ℕ j)) (omega arith) (leb→gt (length cs) j e)
          ]),
        ),
      )

  -- For a polynomial with at least one and at most n + 1 coefficients, no leading zero, and n other than
  -- zero, the vector is made. It has 2n entries: the n-th coefficient at 0 and at n, zeros between
  -- them, and at n + j the j-th coefficient for every j from 1 to n - 1; a coefficient that the
  -- polynomial does not have is zero.
  pub build_circulant-IsCirculantOf :
      (c : F) (cs : List F) (n : ℕ)
      → 1 ≤ n
      → length cs ≤ n
      → IsTrimmed (c ∷ cs)
      → (v : List F) × (build_circulant D (c ∷ cs) n ≡ some v) × IsCirculantOf (c ∷ cs) n v
  build_circulant-IsCirculantOf c cs n pos le trimmed = elim (Bool-cases (leb n (length cs))) [
    | inl e ↦ full_circulant c cs n pos (omega (arith, leb→le n (length cs) e)) trimmed
    | inr e ↦ shorter_circulant c cs n (leb→gt n (length cs) e) trimmed
  ]
