-- ===== src/Algebra/Space/Sums.antt =====
-- Sums over lists, in the field and in a group over it.
use nucypher_ferveo.Base.{◌≡◌, refl, sym, List, [], ◌∷◌, ◌++◌, map}
use mathlib.Core.Path.{ap₂}
use nucypher_ferveo.Base.Lists.{All}
use nucypher_ferveo.Algebra.Field.{Field, ◌+◌, ◌*◌, mul-add, mul-zero}
use nucypher_ferveo.Algebra.Field.Ring.{ring}
use nucypher_ferveo.Algebra.Space.{
  Group, Space, ◌⊕◌, ◌•◌, zero-smul, add-smul, smul-add, smul-zero, zero-add, add_assoc,
}

module _ {ℓ} {F : Type ℓ} ⦃f : Field F⦄ where
  unfoldable pub sum : List F → F
  sum [] = f.zero
  sum (x ∷ xs) = x + sum xs

  unfoldable pub product : List F → F
  product [] = f.one
  product (x ∷ xs) = x * product xs

module _ {ℓ κ} {F : Type ℓ} {A : Type κ} ⦃f : Field F⦄ where
  pub sum-mul_left :
      (k : F) (h : A → F) (xs : List A) → sum (map (λ x. k * h x) xs) ≡ k * sum (map h xs)
  unfolding sum
  sum-mul_left k h [] = sym (mul-zero k)
  sum-mul_left k h (x ∷ xs) = rw (sum-mul_left k h xs) (sym (mul-add k (h x) (sum (map h xs))))

  pub sum-add :
      (h i : A → F) (xs : List A) → sum (map (λ x. h x + i x) xs) ≡ sum (map h xs) + sum (map i xs)
  unfolding sum
  sum-add h i [] = simp ring
  sum-add h i (x ∷ xs) = rw (sum-add h i xs) (simp ring)

module _ {ℓ} {G : Type ℓ} ⦃g : Group G⦄ where
  unfoldable pub total : List G → G
  total [] = g.zero
  total (x ∷ xs) = x ⊕ total xs

  pub total-append : (xs ys : List G) → total (xs ++ ys) ≡ total xs ⊕ total ys
  unfolding total
  total-append [] ys = sym (zero-add (total ys))
  total-append (x ∷ xs) ys = rw (total-append xs ys) (sym (add_assoc x (total xs) (total ys)))

module _ {ℓ κ} {F G : Type ℓ} {A : Type κ} ⦃f : Field F⦄ ⦃g : Group G⦄ ⦃s : Space F G⦄ where
  -- A sum of multiples of one point.
  pub total-smul :
      (k : A → F) (p : G) (xs : List A) → total (map (λ x. k x • p) xs) ≡ sum (map k xs) • p
  unfolding total sum
  total-smul k p [] = sym (zero-smul F p)
  total-smul k p (x ∷ xs) = rw (total-smul k p xs) (sym (add-smul (k x) (sum (map k xs)) p))

  pub smul-total :
      (k : F) (h : A → G) (xs : List A) → total (map (λ x. k • h x) xs) ≡ k • total (map h xs)
  unfolding total
  smul-total k h [] = sym (smul-zero k)
  smul-total k h (x ∷ xs) = rw (smul-total k h xs) (sym (smul-add k (h x) (total (map h xs))))

module _ {ℓ κ μ} {F : Type ℓ} {A : Type κ} ⦃f : Field F⦄ (P : A → Type μ) where
  -- Summands that agree on the elements of the list.
  pub sum_congr :
      (h i : A → F) (xs : List A)
      → All P xs
      → ((x : A) → P x → h x ≡ i x)
      → sum (map h xs) ≡ sum (map i xs)
  unfolding sum
  sum_congr h i [] ps e = refl
  sum_congr h i (x ∷ xs) ps e = ap₂ ◌+◌ (e x ps.0) (sum_congr h i xs ps.1 e)
