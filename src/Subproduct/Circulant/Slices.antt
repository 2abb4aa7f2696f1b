-- ===== src/Subproduct/Circulant/Slices.antt =====
-- Assignments to an index and to a range of a list, entry by entry (subproductdomain/src/lib.rs).
use Prim.Native.Nat.{◌+◌ as ◌+ℕ◌}
use nucypher_ferveo.Base.{ℕ, zero, suc, ◌≤◌, ◌<◌, ◌≡◌, ◌≢◌, refl, ap, some, List, [], ◌∷◌, arith}
use nucypher_ferveo.Base.Lists.{length, get_elem?, take, replicate}
use nucypher_ferveo.Algebra.Field.{Field}
use nucypher_ferveo.Algebra.Poly.Coefficients.{coeff}
use nucypher_ferveo.Subproduct.Circulant.{set?, copy_from_slice?}

pub length-replicate {ℓ} : {A : Type ℓ} (n : ℕ) (a : A) → length (replicate n a) ≡ n
length-replicate zero a = refl
length-replicate (suc n) a = ap suc (length-replicate n a)

module _ {F : Type 0} ⦃f : Field F⦄ where
  -- An assignment changes the one entry.
  pub set?-coeff :
      (i : ℕ) (x : F) (xs : List F)
      → i < length xs
      → (ys : List F) × (set? i x xs ≡ some ys)
        × (length ys ≡ length xs)
        × (coeff ys i ≡ x)
        × ((j : ℕ) → j ≢ i → coeff ys j ≡ coeff xs j)
  unfolding set?
  set?-coeff i x [] h = absurd (omega arith)
  set?-coeff zero x (y ∷ ys) h = (x ∷ ys, refl, refl, refl, others)
    where
      others : (j : ℕ) → j ≢ 0 → coeff (x ∷ ys) j ≡ coeff (y ∷ ys) j
      others zero ne = absurd (ne refl)
      others (suc j) ne = refl
  set?-coeff (suc i) x (y ∷ ys) h =
      let (rest, made, size, at, same) = set?-coeff i x ys (omega arith) in
      (y ∷ rest, rw made refl, ap suc size, at, others rest same)
    where
      others :
          (rest : List F)
          → ((j : ℕ) → j ≢ i → coeff rest j ≡ coeff ys j)
          → (j : ℕ) → j ≢ suc i
          → coeff (y ∷ rest) j ≡ coeff (y ∷ ys) j
      others rest same zero ne = refl
      others rest same (suc j) ne = same j (λ e. ne (ap suc e))

  -- A copy changes the entries of its range.
  pub copy_from_slice?-coeff :
      (i : ℕ) (xs ys : List F)
      → i +ℕ length xs ≤ length ys
      → (zs : List F) × (copy_from_slice? i xs ys ≡ some zs)
        × (length zs ≡ length ys)
        × ((j : ℕ) → j < i → coeff zs j ≡ coeff ys j)
        × ((j k : ℕ) → k ≡ i +ℕ j → j < length xs → coeff zs k ≡ coeff xs j)
        × ((j : ℕ) → i +ℕ length xs ≤ j → coeff zs j ≡ coeff ys j)
  unfolding copy_from_slice?
  copy_from_slice?-coeff zero [] ys h =
      (ys, refl, refl, (λ j lt. refl), (λ j k e lt. absurd (omega arith)), (λ j le. refl))
  copy_from_slice?-coeff zero (x ∷ xs) [] h = absurd (omega arith)
  copy_from_slice?-coeff zero (x ∷ xs) (y ∷ ys) h =
      let (rest, made, size, before, at, after) = copy_from_slice?-coeff zero xs ys (omega arith) in
      (
        x ∷ rest,
        rw made refl,
        ap suc size,
        (λ j lt. absurd (omega arith)),
        within rest at,
        beyond rest after,
      )
    where
      within :
          (rest : List F)
          → ((j k : ℕ) → k ≡ 0 +ℕ j → j < length xs → coeff rest k ≡ coeff xs j)
          → (j k : ℕ) → k ≡ 0 +ℕ j
          → j < suc (length xs)
          → coeff (x ∷ rest) k ≡ coeff (x ∷ xs) j
      within rest at zero zero e lt = refl
      within rest at zero (suc k) e lt = absurd (omega arith)
      within rest at (suc j) zero e lt = absurd (omega arith)
      within rest at (suc j) (suc k) e lt = at j k (omega arith) (omega arith)

      beyond :
          (rest : List F)
          → ((j : ℕ) → 0 +ℕ length xs ≤ j → coeff rest j ≡ coeff ys j)
          → (j : ℕ) → 0 +ℕ suc (length xs) ≤ j
          → coeff (x ∷ rest) j ≡ coeff (y ∷ ys) j
      beyond rest after zero le = absurd (omega arith)
      beyond rest after (suc j) le = after j (omega arith)
  copy_from_slice?-coeff (suc i) xs [] h = absurd (omega arith)
  copy_from_slice?-coeff (suc i) xs (y ∷ ys) h =
      let (rest, made, size, before, at, after) = copy_from_slice?-coeff i xs ys (omega arith) in
      (y ∷ rest, rw made refl, ap suc size, ahead rest before, within rest at, beyond rest after)
    where
      ahead :
          (rest : List F)
          → ((j : ℕ) → j < i → coeff rest j ≡ coeff ys j)
          → (j : ℕ) → j < suc i
          → coeff (y ∷ rest) j ≡ coeff (y ∷ ys) j
      ahead rest before zero lt = refl
      ahead rest before (suc j) lt = before j (omega arith)

      within :
          (rest : List F)
          → ((j k : ℕ) → k ≡ i +ℕ j → j < length xs → coeff rest k ≡ coeff xs j)
          → (j k : ℕ) → k ≡ suc i +ℕ j
          → j < length xs
          → coeff (y ∷ rest) k ≡ coeff xs j
      within rest at j zero e lt = absurd (omega arith)
      within rest at j (suc k) e lt = at j k (omega arith) lt

      beyond :
          (rest : List F)
          → ((j : ℕ) → i +ℕ length xs ≤ j → coeff rest j ≡ coeff ys j)
          → (j : ℕ) → suc i +ℕ length xs ≤ j
          → coeff (y ∷ rest) j ≡ coeff (y ∷ ys) j
      beyond rest after zero le = absurd (omega arith)
      beyond rest after (suc j) le = after j (omega arith)

  pub coeff-replicate : (n j : ℕ) → coeff (replicate n f.zero) j ≡ f.zero
  coeff-replicate zero j = refl
  coeff-replicate (suc n) zero = refl
  coeff-replicate (suc n) (suc j) = coeff-replicate n j

  pub coeff-take : (n j : ℕ) (xs : List F) → j < n → coeff (take n xs) j ≡ coeff xs j
  coeff-take zero j xs lt = absurd (omega arith)
  coeff-take (suc n) j [] lt = refl
  coeff-take (suc n) zero (x ∷ xs) lt = refl
  coeff-take (suc n) (suc j) (x ∷ xs) lt = coeff-take n j xs (omega arith)

  pub coeff-get_elem? : (i : ℕ) (xs : List F) → i < length xs → get_elem? xs i ≡ some (coeff xs i)
  coeff-get_elem? i [] h = absurd (omega arith)
  coeff-get_elem? zero (x ∷ xs) h = refl
  coeff-get_elem? (suc i) (x ∷ xs) h = coeff-get_elem? i xs (omega arith)
