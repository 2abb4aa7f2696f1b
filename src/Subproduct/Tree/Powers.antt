-- ===== src/Subproduct/Tree/Powers.antt =====
-- Nodes that are consecutive multiples by one scalar, as the elements of an evaluation domain are: they
-- are regular (subproductdomain/src/lib.rs).
use Prim.Native.Nat.{◌+◌ as ◌+ℕ◌}
use nucypher_ferveo.Base.{
  ℕ, zero, suc, ◌<◌, ◌≤◌, ◌≡◌, ◌≢◌, refl, sym, ap, ◌∙◌, some, List, [], ◌∷◌, ◌++◌, arith,
}
use mathlib.Core.Path.{ap₂}
use mathlib.Core.Option.{some-injective}
use nucypher_ferveo.Base.Lists.{length, get_elem?, take}
use nucypher_ferveo.Algebra.Field.{Field, ◌+◌, ◌*◌, ◌-◌, mul-one, mul-zero, one-mul}
use nucypher_ferveo.Algebra.Field.Inverse.{sub-ne-zero}
use nucypher_ferveo.Algebra.Field.Ring.{ring}
use nucypher_ferveo.Subproduct.Tree.Lagrange.{mul-ne-zero}
use nucypher_ferveo.Subproduct.Tree.Regular.{complete, AreRegular}

module _ {F : Type 0} ⦃f : Field F⦄ where
  unfoldable pub pow : F → ℕ → F
  pow w zero = f.one
  pow w (suc k) = w * pow w k

  pow-add : (w : F) (n k : ℕ) → pow w (n +ℕ k) ≡ pow w n * pow w k
  unfolding pow
  pow-add w zero k = ap (pow w) (omega arith) ∙ sym (one-mul (pow w k))
  pow-add w (suc n) k =
      ap (pow w) {x = suc n +ℕ k} {y = suc (n +ℕ k)} (omega arith)
      ∙ ap (◌*◌ w) (pow-add w n k)
      ∙ regroup w (pow w n) (pow w k)
    where
      regroup : (w a b : F) → w * (a * b) ≡ w * a * b
      regroup w a b = simp ring

  abbrev pub powers : F → F → ℕ → List F
  powers a w zero = []
  powers a w (suc n) = a ∷ powers (a * w) w n

  complete_first :
      (u : F) (us : List F) (k : ℕ)
      → complete (u ∷ us) (suc k) ≡ complete us (suc k) + u * complete (u ∷ us) k
  unfolding complete
  complete_first u us k = refl

  complete-zero : (us : List F) → complete us zero ≡ f.one
  unfolding complete
  complete-zero us = refl

  -- Scaling the nodes.
  complete_scaled :
      (a w : F) (n k : ℕ) → complete (powers (a * w) w n) k ≡ pow w k * complete (powers a w n) k
  unfolding pow complete
  complete_scaled a w n zero = sym (mul-one f.one)
  complete_scaled a w zero (suc k) = sym (mul-zero (w * pow w k))
  complete_scaled a w (suc n) (suc k) =
      rw (complete_scaled (a * w) w n (suc k), complete_scaled a w (suc n) k)
        (gather a w (pow w k) (complete (powers (a * w) w n) (suc k))
          (complete (powers a w (suc n)) k))
    where
      gather : (a w p c d : F) → w * p * c + a * w * (p * d) ≡ w * p * (c + a * d)
      gather a w p c d = simp ring

  -- The step of the last node.
  abbrev IsLast : F → F → ℕ → ℕ → Type 0
  IsLast a w n k =
      complete (powers a w (suc n)) (suc k)
      ≡ complete (powers a w n) (suc k) + a * pow w n * complete (powers a w (suc n)) k

  IsLast-suc :
      (a w : F) (n k : ℕ)
      → IsLast (a * w) w n k
      → complete (powers (a * w) w n) (suc k)
          + a * w * pow w n * complete (powers (a * w) w (suc n)) k
          + a * complete (powers a w (suc (suc n))) k
        ≡ complete (powers (a * w) w n) (suc k)
          + a * complete (powers a w (suc n)) k
          + a * (w * pow w n) * complete (powers a w (suc (suc n))) k
      → IsLast a w (suc n) k
  unfolding pow
  IsLast-suc a w n k last moved =
      complete_first a (powers (a * w) w (suc n)) k
      ∙ ap (λ t. t + a * complete (powers a w (suc (suc n))) k) last
      ∙ moved
      ∙ ap (λ t. t + a * (w * pow w n) * complete (powers a w (suc (suc n))) k)
          (sym (complete_first a (powers (a * w) w n) k))

  one_power : (a w : F) → a * pow w zero ≡ a
  unfolding pow
  one_power a w = mul-one a

  complete-IsLast : (a w : F) (n k : ℕ) → IsLast a w n k
  complete-IsLast a w zero k =
      complete_first a [] k
      ∙ ap (λ t. complete [] (suc k) + t * complete (a ∷ []) k) (sym (one_power a w))
  complete-IsLast a w (suc n) zero =
      IsLast-suc a w n zero (complete-IsLast (a * w) w n zero)
        (unfold complete in base a w (pow w n) (complete (powers (a * w) w n) 1))
    where
      base : (a w p c : F) → c + a * w * p * f.one + a * f.one ≡ c + a * f.one + a * (w * p) * f.one
      base a w p c = simp ring
  complete-IsLast a w (suc n) (suc k) =
      IsLast-suc a w n (suc k) (complete-IsLast (a * w) w n (suc k)) (
        ap
          (λ t.
            complete (powers (a * w) w n) (suc (suc k))
            + a * w * pow w n * complete (powers (a * w) w (suc n)) (suc k)
            + a * t)
          (complete-IsLast a w (suc n) k ∙ next_power)
        ∙ swap a w (pow w n) (complete (powers (a * w) w n) (suc (suc k)))
            (complete (powers (a * w) w (suc n)) (suc k)) (complete (powers a w (suc n)) (suc k))
            (complete (powers a w (suc (suc n))) k)
        ∙ ap
            (λ t.
              complete (powers (a * w) w n) (suc (suc k))
              + a * complete (powers a w (suc n)) (suc k)
              + a * (w * pow w n) * t)
            (sym (complete_first a (powers (a * w) w (suc n)) k)))
    where
      next_power :
          complete (powers a w (suc n)) (suc k)
            + a * pow w (suc n) * complete (powers a w (suc (suc n))) k
          ≡ complete (powers a w (suc n)) (suc k)
            + a * (w * pow w n) * complete (powers a w (suc (suc n))) k
      next_power = unfold pow in refl

      swap :
          (a w p c x y z : F)
          → c + a * w * p * x + a * (y + a * (w * p) * z) ≡ c + a * y + a * (w * p) * (x + a * z)
      swap a w p c x y z = simp ring

  -- (1 - w^(k+1)) h_{k+1} = a (1 - w^(n+k+1)) h_k, for the n + 1 nodes a, a·w, ..., a·w^n.
  complete_ratio :
      (a w : F) (n k : ℕ)
      → complete (powers a w (suc n)) (suc k)
          - pow w (suc k) * complete (powers a w (suc n)) (suc k)
        ≡ a * complete (powers a w (suc n)) k * (f.one - pow w (n +ℕ suc k))
  complete_ratio a w n k =
      ap₂ (λ x y. x - pow w (suc k) * y)
        (complete_first a (powers (a * w) w n) k
          ∙ ap (λ t. t + a * complete (powers a w (suc n)) k) (complete_scaled a w n (suc k)))
        (complete-IsLast a w n k)
      ∙ collect a (pow w (suc k)) (pow w n) (complete (powers a w n) (suc k))
          (complete (powers a w (suc n)) k)
      ∙ ap (λ t. a * complete (powers a w (suc n)) k * (f.one - t)) (sym (pow-add w n (suc k)))
    where
      collect : (a p q z x : F) → p * z + a * x - p * (z + a * q * x) ≡ a * x * (f.one - q * p)
      collect a p q z x = simp ring

  -- No complete symmetric polynomial of powers vanishes, as far as the powers are not one.
  pub complete-ne-zero :
      (a w : F) (n k size : ℕ)
      → a ≢ f.zero
      → ((i : ℕ) → 0 < i → i < size → pow w i ≢ f.one)
      → n +ℕ k < size
      → complete (powers a w (suc n)) k ≢ f.zero
  complete-ne-zero a w n zero size ha hw lt z = f.one-ne-zero (sym (complete-zero _) ∙ z)
  complete-ne-zero a w n (suc k) size ha hw lt z =
      mul-ne-zero (a * complete (powers a w (suc n)) k) (f.one - pow w (n +ℕ suc k))
        (mul-ne-zero a (complete (powers a w (suc n)) k) ha
          (complete-ne-zero a w n k size ha hw (omega (arith, lt))))
        (sub-ne-zero f.one (pow w (n +ℕ suc k)) (λ e. hw (n +ℕ suc k) (omega arith) lt (sym e)))
        (sym (complete_ratio a w n k) ∙ ap (λ t. t - pow w (suc k) * t) z ∙ nothing (pow w (suc k)))
    where
      nothing : (p : F) → f.zero - p * f.zero ≡ f.zero
      nothing p = simp ring

  length-powers : (a w : F) (n : ℕ) → length (powers a w n) ≡ n
  length-powers a w zero = refl
  length-powers a w (suc n) = ap suc (length-powers (a * w) w n)

  heads : {a b : F} {as_ bs : List F} → ◌≡◌ {A = List F} (a ∷ as_) (b ∷ bs) → a ≡ b
  heads h = cc

  tails : {a b : F} {as_ bs : List F} → ◌≡◌ {A = List F} (a ∷ as_) (b ∷ bs) → as_ ≡ bs
  tails h = cc

  no_cons : {a : F} {as_ : List F} → ◌≡◌ {A = List F} [] (a ∷ as_) → ⊥
  no_cons h = cc

  front_of_powers :
      (a w : F) (n : ℕ) (vs ys : List F) → powers a w n ≡ vs ++ ys → vs ≡ powers a w (length vs)
  front_of_powers a w n [] ys e = refl
  front_of_powers a w zero (v ∷ vs) ys e = absurd (no_cons e)
  front_of_powers a w (suc n) (v ∷ vs) ys e =
      ap₂ ◌∷◌ (sym (heads e)) (front_of_powers (a * w) w n vs ys (tails e))

  -- Powers in a row are powers.
  segment_of_powers :
      (a w : F) (n : ℕ) (xs vs ys : List F)
      → a ≢ f.zero
      → w ≢ f.zero
      → powers a w n ≡ xs ++ (vs ++ ys)
      → (b : F) × (b ≢ f.zero) × (vs ≡ powers b w (length vs))
  segment_of_powers a w n [] vs ys ha hw e = (a, ha, front_of_powers a w n vs ys e)
  segment_of_powers a w zero (x ∷ xs) vs ys ha hw e = absurd (no_cons e)
  segment_of_powers a w (suc n) (x ∷ xs) vs ys ha hw e =
      segment_of_powers (a * w) w n xs vs ys (mul-ne-zero a w ha hw) hw (tails e)

  -- Nodes a, a·w, ... are regular, where none of the powers of w below a bound is one and there are at
  -- most as many nodes.
  pub powers-AreRegular :
      (a w : F) (n size : ℕ)
      → a ≢ f.zero
      → w ≢ f.zero
      → ((i : ℕ) → 0 < i → i < size → pow w i ≢ f.one)
      → n ≤ size
      → AreRegular (powers a w n)
  powers-AreRegular a w n size ha hw ones le xs [] ys e pos k j p lt = absurd (omega (arith, pos))
  powers-AreRegular a w n size ha hw ones le xs (v ∷ vs) ys e pos k j p lt =
      let (b, hb, shape) = segment_of_powers a w n xs (v ∷ vs) ys ha hw e in
      λ z.
        complete-ne-zero b w (length vs) j size hb ones (omega (arith, lt, le, length-powers a w n))
          (ap (λ us. complete us j) (sym shape) ∙ z)

  -- A list whose elements are multiplied by w from one to the next.
  pub take-powers :
      (element : ℕ → F) (w : F) (i n : ℕ) (xs : List F)
      → ((j : ℕ) → element (suc j) ≡ element j * w)
      → n ≤ length xs
      → ((j : ℕ) → j < n → get_elem? xs j ≡ some (element (i +ℕ j)))
      → take n xs ≡ powers (element i) w n
  take-powers element w i zero xs next le at = refl
  take-powers element w i (suc n) [] next le at = absurd (omega (arith, le))
  take-powers element w i (suc n) (x ∷ xs) next le at =
      ap₂ ◌∷◌
        (some-injective _ _
          (at zero (omega arith) ∙ ap (λ k. some (element k)) {y = i} (omega arith)))
        (take-powers element w (suc i) n xs next (omega (arith, le)) (λ j lt.
            at (suc j) (omega (arith, lt))
            ∙ ap (λ k. some (element k)) {y = suc i +ℕ j} (omega arith))
          ∙ ap (λ a. powers a w n) (next i))
