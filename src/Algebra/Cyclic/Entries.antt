-- ===== src/Algebra/Cyclic/Entries.antt =====
-- The entries of a cyclic convolution.
use Prim.Native.Nat.{◌+◌ as ◌+ℕ◌}
use nucypher_ferveo.Base.{
  ℕ, zero, suc, ◌≤◌, ◌<◌, ◌≡◌, refl, sym, ap, ◌∙◌, inl, inr, List, [], ◌∷◌, map, arith,
}
use mathlib.Core.Path.{ap₂}
use nucypher_ferveo.Base.Tests.{leb, Bool-cases, leb→le, leb→gt}
use nucypher_ferveo.Base.Lists.{length, length-map}
use nucypher_ferveo.Algebra.Field.{Field}
use nucypher_ferveo.Algebra.Space.{Group, Space, ◌⊕◌, ◌•◌, smul-zero, zero-add}
use nucypher_ferveo.Algebra.Poly.Coefficients.{coeff}
use nucypher_ferveo.Algebra.Cyclic.{
  last_or, shift, rotate, add_points, convolve, length-rotate, length-convolve,
}

module _ {G : Type 0} ⦃g : Group G⦄ where
  -- The point at an index, and zero beyond the end.
  abbrev pub point_at : List G → ℕ → G
  point_at [] i = g.zero
  point_at (c ∷ cs) zero = c
  point_at (c ∷ cs) (suc i) = point_at cs i

  pub point_at-length : (cs : List G) (i : ℕ) → length cs ≤ i → point_at cs i ≡ g.zero
  point_at-length [] i h = refl
  point_at-length (c ∷ cs) zero h = absurd (omega arith)
  point_at-length (c ∷ cs) (suc i) h = point_at-length cs i (omega arith)

  point_at-shift :
      (a : G) (cs : List G) (i : ℕ)
      → suc i < length cs
      → point_at (shift a cs) (suc i) ≡ point_at cs i
  point_at-shift a [] i h = absurd (omega arith)
  point_at-shift a (c ∷ []) i h = absurd (omega arith)
  point_at-shift a (c ∷ (d ∷ cs)) zero h = refl
  point_at-shift a (c ∷ (d ∷ cs)) (suc i) h = point_at-shift c (d ∷ cs) i (omega arith)

  point_at-rotate :
      (cs : List G) (i : ℕ) → suc i < length cs → point_at (rotate cs) (suc i) ≡ point_at cs i
  unfolding rotate
  point_at-rotate cs i h = point_at-shift (last_or g.zero cs) cs i h

  last_or-point_at :
      (a c : G) (cs : List G) (i : ℕ)
      → suc i ≡ length (c ∷ cs)
      → last_or a (c ∷ cs) ≡ point_at (c ∷ cs) i
  last_or-point_at a c [] zero h = refl
  last_or-point_at a c [] (suc i) h = absurd (omega arith)
  last_or-point_at a c (d ∷ cs) zero h = absurd (omega arith)
  last_or-point_at a c (d ∷ cs) (suc i) h = last_or-point_at c d cs i (omega arith)

  point_at-rotate_last :
      (cs : List G) (i : ℕ) → suc i ≡ length cs → point_at (rotate cs) zero ≡ point_at cs i
  unfolding rotate
  point_at-rotate_last [] i h = absurd (omega arith)
  point_at-rotate_last (c ∷ cs) i h = last_or-point_at g.zero c cs i h

  unfoldable pub rotations : ℕ → List G → List G
  rotations zero cs = cs
  rotations (suc k) cs = rotations k (rotate cs)

  -- A rotation by at most i places holds at i the entry that stood so many places before it.
  pub point_at-rotations :
      (k i j : ℕ) (cs : List G)
      → i ≡ j +ℕ k
      → i < length cs
      → point_at (rotations k cs) i ≡ point_at cs j
  unfolding rotations
  point_at-rotations zero i j cs e h = ap (point_at cs) {x = i} {y = j} (omega arith)
  point_at-rotations (suc k) i j cs e h =
      point_at-rotations k i (suc j) (rotate cs) (omega arith) (omega (arith, length-rotate cs))
      ∙ point_at-rotate cs j (omega arith)

  -- A rotation by more than i places holds at i an entry from the end.
  pub point_at-rotations_wrap :
      (k i j : ℕ) (cs : List G)
      → j +ℕ k ≡ length cs +ℕ i
      → i < length cs
      → j < length cs
      → point_at (rotations k cs) i ≡ point_at cs j
  unfolding rotations
  point_at-rotations_wrap zero i j cs e h lt = absurd (omega arith)
  point_at-rotations_wrap (suc k) i j cs e h lt = elim (Bool-cases (leb (length cs) (suc j))) [
    | inl le ↦
        point_at-rotations k i zero (rotate cs) (omega (arith, leb→le (length cs) (suc j) le))
          (omega (arith, length-rotate cs))
        ∙ point_at-rotate_last cs j (omega (arith, leb→le (length cs) (suc j) le))
    | inr gt ↦
        point_at-rotations_wrap k i (suc j) (rotate cs) (omega (arith, length-rotate cs))
          (omega (arith, length-rotate cs))
          (omega (arith, length-rotate cs, leb→gt (length cs) (suc j) gt))
        ∙ point_at-rotate cs j (leb→gt (length cs) (suc j) gt)
  ]

  point_at-add_points :
      (cs ds : List G) (i : ℕ)
      → length cs ≡ length ds
      → point_at (add_points cs ds) i ≡ point_at cs i ⊕ point_at ds i
  unfolding add_points
  point_at-add_points [] [] i h = sym (zero-add g.zero)
  point_at-add_points [] (d ∷ ds) i h = absurd (omega arith)
  point_at-add_points (c ∷ cs) [] i h = absurd (omega arith)
  point_at-add_points (c ∷ cs) (d ∷ ds) zero h = refl
  point_at-add_points (c ∷ cs) (d ∷ ds) (suc i) h = point_at-add_points cs ds i (omega arith)

module _ {F G : Type 0} ⦃f : Field F⦄ ⦃g : Group G⦄ ⦃s : Space F G⦄ where
  point_at-map_smul :
      (c : F) (ts : List G) (i : ℕ) → point_at (map (◌•◌ c) ts) i ≡ c • point_at ts i
  point_at-map_smul c [] i = sym (smul-zero c)
  point_at-map_smul c (t ∷ ts) zero = refl
  point_at-map_smul c (t ∷ ts) (suc i) = point_at-map_smul c ts i

  -- The first n terms of a sum of multiples.
  unfoldable pub combination : ℕ → (ℕ → F) → (ℕ → G) → G
  combination zero a t = g.zero
  combination (suc n) a t = a zero • t zero ⊕ combination n (λ k. a (suc k)) (λ k. t (suc k))

  pub point_at-convolve :
      (cs : List F) (ts : List G) (i : ℕ)
      → point_at (convolve cs ts) i
        ≡ combination (length cs) (coeff cs) (λ k. point_at (rotations k ts) i)
  unfolding convolve combination rotations
  point_at-convolve [] ts i = zeros ts i
    where
      zeros : (ts : List G) (i : ℕ) → point_at (map (λ _. g.zero) ts) i ≡ g.zero
      zeros [] i = refl
      zeros (t ∷ ts) zero = refl
      zeros (t ∷ ts) (suc i) = zeros ts i
  point_at-convolve (c ∷ cs) ts i =
      point_at-add_points (map (◌•◌ c) ts) (convolve cs (rotate ts)) i
        (length-map ts (◌•◌ c) ∙ sym (length-convolve cs (rotate ts) ∙ length-rotate ts))
      ∙ ap₂ ◌⊕◌ (point_at-map_smul c ts i) (point_at-convolve cs (rotate ts) i)
