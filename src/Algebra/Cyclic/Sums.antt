-- ===== src/Algebra/Cyclic/Sums.antt =====
-- Sums of multiples, in parts; and the sum of a row of a circulant matrix.
use Prim.Native.Nat.{◌+◌ as ◌+ℕ◌}
use nucypher_ferveo.Base.{ℕ, zero, suc, ◌≤◌, ◌<◌, ◌≡◌, refl, sym, ap, ◌∙◌, List, [], ◌∷◌, arith}
use mathlib.Core.Path.{ap₂}
use nucypher_ferveo.Base.Lists.{length, drop}
use nucypher_ferveo.Algebra.Field.{Field}
use nucypher_ferveo.Algebra.Space.{
  Group, Space, ◌⊕◌, ◌•◌, zero-smul, smul-zero, zero-add, add-zero, add_assoc, add_comm,
}
use nucypher_ferveo.Algebra.Poly.Coefficients.{coeff}
use nucypher_ferveo.Algebra.Cyclic.Entries.{point_at, combination}

module _ {F : Type 0} ⦃f : Field F⦄ where
  pub coeff-drop : (n i : ℕ) (cs : List F) → coeff (drop n cs) i ≡ coeff cs (n +ℕ i)
  coeff-drop zero i cs = ap (coeff cs) {x = i} {y = 0 +ℕ i} (omega arith)
  coeff-drop (suc n) i [] = refl
  coeff-drop (suc n) i (c ∷ cs) =
      coeff-drop n i cs ∙ ap (coeff (c ∷ cs)) {x = suc (n +ℕ i)} {y = suc n +ℕ i} (omega arith)

module _ {F G : Type 0} ⦃f : Field F⦄ ⦃g : Group G⦄ ⦃s : Space F G⦄ where
  combination_congr :
      (n : ℕ) (a b : ℕ → F) (t u : ℕ → G)
      → ((k : ℕ) → k < n → a k • t k ≡ b k • u k)
      → combination n a t ≡ combination n b u
  unfolding combination
  combination_congr zero a b t u h = refl
  combination_congr (suc n) a b t u h = ap₂ ◌⊕◌ (h zero (omega arith)) (
      combination_congr n (λ k. a (suc k)) (λ k. b (suc k)) (λ k. t (suc k)) (λ k. u (suc k))
        (λ k lt. h (suc k) (omega arith)))

  combination_zero :
      (n : ℕ) (a : ℕ → F) (t : ℕ → G)
      → ((k : ℕ) → k < n → a k • t k ≡ g.zero)
      → combination n a t ≡ g.zero
  unfolding combination
  combination_zero zero a t h = refl
  combination_zero (suc n) a t h =
      ap₂ ◌⊕◌ (h zero (omega arith))
        (combination_zero n (λ k. a (suc k)) (λ k. t (suc k)) (λ k lt. h (suc k) (omega arith)))
      ∙ zero-add g.zero

  -- A sum in two parts.
  combination_split :
      (m n total : ℕ) (a b : ℕ → F) (t u : ℕ → G)
      → total ≡ m +ℕ n
      → ((k j : ℕ) → j ≡ m +ℕ k → k < n → a j • t j ≡ b k • u k)
      → combination total a t ≡ combination m a t ⊕ combination n b u
  unfolding combination
  combination_split zero n total a b t u e h =
      ap (λ k. combination k a t) {x = total} {y = n} (omega arith)
      ∙ combination_congr n a b t u (λ k lt. h k k (omega arith) lt)
      ∙ sym (zero-add (combination n b u))
  combination_split (suc m) n zero a b t u e h = absurd (omega arith)
  combination_split (suc m) n (suc total) a b t u e h =
      ap (◌⊕◌ (a zero • t zero)) (
        combination_split m n total (λ k. a (suc k)) b (λ k. t (suc k)) u (omega arith)
          (λ k j at lt. h k (suc j) (omega arith) lt))
      ∙ sym (
          add_assoc (a zero • t zero) (combination m (λ k. a (suc k)) (λ k. t (suc k)))
            (combination n b u))

  combination_one : (a : ℕ → F) (t : ℕ → G) → combination 1 a t ≡ a zero • t zero
  unfolding combination
  combination_one a t = add-zero (a zero • t zero)

  smul_zero_left : (k : F) (t : G) → k ≡ f.zero → k • t ≡ g.zero
  smul_zero_left k t e = ap (λ l. l • t) e ∙ zero-smul F t

  smul_zero_right : (k : F) (t : G) → t ≡ g.zero → k • t ≡ g.zero
  smul_zero_right k t e = ap (◌•◌ k) e ∙ smul-zero k

  -- A row of the circulant matrix of p, at rotated points: what is left are the coefficients after
  -- the i-th, at the points in order.
  pub combination-circulant :
      (n i r : ℕ) (a p : ℕ → F) (t v : ℕ → G)
      → n ≡ suc (i +ℕ r)
      → a zero ≡ p n
      → ((j : ℕ) → 1 ≤ j → j < n → a j ≡ f.zero)
      → ((j : ℕ) → suc j < n → a (suc (n +ℕ j)) ≡ p (suc j))
      → t zero ≡ v r
      → t n ≡ g.zero
      → ((j : ℕ) → j < i → t (suc (n +ℕ j)) ≡ g.zero)
      → ((m : ℕ) → m < r → t (suc (n +ℕ (i +ℕ m))) ≡ v m)
      → combination (n +ℕ n) a t ≡ combination (suc r) (λ m. p (suc (i +ℕ m))) v
  combination-circulant n i r a p t v size first zeros rest t_first t_n t_zero t_rest =
      combination_split n n (n +ℕ n) a (λ k. a (n +ℕ k)) t (λ k. t (n +ℕ k)) refl
        (λ k j at lt. ap (λ l. a l • t l) at)
      ∙ ap₂ ◌⊕◌ upper (lower ∙ later)
      ∙ add_comm (p n • v r) (combination r row v)
      ∙ sym (
          combination_split r 1 (suc r) row (λ k. p n) v (λ k. v r) (omega arith)
            (λ k j at lt.
              ap₂ ◌•◌ (ap p {x = suc (i +ℕ j)} {y = n} (omega arith))
                (ap v {x = j} {y = r} (omega arith)))
          ∙ ap (◌⊕◌ (combination r row v)) (combination_one (λ k. p n) (λ k. v r)))
    where
      row : ℕ → F
      row m = p (suc (i +ℕ m))

      later_points : ℕ → G
      later_points j = t (suc (n +ℕ j))

      upper : combination n a t ≡ p n • v r
      upper =
          combination_split 1 (i +ℕ r) n a (λ k. f.zero) t (λ k. g.zero) (omega arith)
            (λ k j at lt.
              smul_zero_left (a j) (t j) (zeros j (omega arith) (omega arith))
              ∙ sym (zero-smul F g.zero))
          ∙ ap₂ ◌⊕◌ (combination_one a t ∙ ap₂ ◌•◌ first t_first)
              (combination_zero (i +ℕ r) (λ k. f.zero) (λ k. g.zero) (λ k lt. zero-smul F g.zero))
          ∙ add-zero (p n • v r)

      lower :
          combination n (λ k. a (n +ℕ k)) (λ k. t (n +ℕ k))
          ≡ combination (i +ℕ r) (λ j. p (suc j)) later_points
      lower =
          combination_split 1 (i +ℕ r) n (λ k. a (n +ℕ k)) (λ j. p (suc j)) (λ k. t (n +ℕ k))
            later_points (omega arith)
            (λ k j at lt.
              ap (λ l. a l • t l) {x = n +ℕ j} {y = suc (n +ℕ k)} (omega arith)
              ∙ ap (λ c. c • t (suc (n +ℕ k))) (rest k (omega arith)))
          ∙ ap (λ z. z ⊕ combination (i +ℕ r) (λ j. p (suc j)) later_points)
              (combination_one (λ k. a (n +ℕ k)) (λ k. t (n +ℕ k))
                ∙ smul_zero_right (a (n +ℕ 0)) (t (n +ℕ 0))
                    (ap t {x = n +ℕ 0} {y = n} (omega arith) ∙ t_n))
          ∙ zero-add (combination (i +ℕ r) (λ j. p (suc j)) later_points)

      later : combination (i +ℕ r) (λ j. p (suc j)) later_points ≡ combination r row v
      later =
          combination_split i r (i +ℕ r) (λ j. p (suc j)) row later_points v refl
            (λ k j at lt.
              ap (λ l. p (suc l) • t (suc (n +ℕ l))) at ∙ ap (◌•◌ (row k)) (t_rest k lt))
          ∙ ap (λ z. z ⊕ combination r row v)
              (combination_zero i (λ j. p (suc j)) later_points
                (λ k lt. smul_zero_right (p (suc k)) (later_points k) (t_zero k lt)))
          ∙ zero-add (combination r row v)

  -- The sum of the products of scalars with points, which ends with the shorter list.
  unfoldable pub inner : List F → List G → G
  inner (c ∷ cs) (v ∷ vs) = c • v ⊕ inner cs vs
  inner _ _ = g.zero

  pub combination-inner :
      (n : ℕ) (cs : List F) (vs : List G)
      → length cs ≤ n
      → combination n (coeff cs) (point_at vs) ≡ inner cs vs
  unfolding combination inner
  combination-inner zero [] vs h = refl
  combination-inner zero (c ∷ cs) vs h = absurd (omega arith)
  combination-inner (suc n) [] vs h =
      combination_zero (suc n) (λ k. f.zero) (point_at vs) (λ k lt. zero-smul F (point_at vs k))
  combination-inner (suc n) (c ∷ cs) [] h =
      combination_zero (suc n) (coeff (c ∷ cs)) (λ k. g.zero) (λ k lt. smul-zero (coeff (c ∷ cs) k))
  combination-inner (suc n) (c ∷ cs) (v ∷ vs) h =
      ap (◌⊕◌ (c • v)) (combination-inner n cs vs (omega arith))
