-- ===== src/Subproduct/Toeplitz/Points.antt =====
-- The padded points of `toeplitz_mul`, entry by entry, and the product of the transforms
-- (subproductdomain/src/lib.rs).
use Prim.Native.Nat.{◌+◌ as ◌+ℕ◌, ◌-◌ as ◌-ℕ◌}
use mathlib.Core.List.{reverse, reverse-cons, append_assoc}
use nucypher_ferveo.Base.{
  ℕ, zero, suc, ◌≤◌, ◌<◌, ◌≡◌, refl, sym, ap, ◌∙◌, List, [], ◌∷◌, ◌++◌, map, arith,
}
use mathlib.Core.Path.{ap₂}
use nucypher_ferveo.Base.Lists.{
  length, length-append, length-reverse, take, drop, replicate, resize, All,
}
use nucypher_ferveo.Base.Predicates.{All-of-get_elem?}
use nucypher_ferveo.Algebra.Field.{Field, ◌*◌, mul-one}
use nucypher_ferveo.Algebra.Field.Ring.{ring}
use nucypher_ferveo.Algebra.Space.{Group, Space}
use nucypher_ferveo.Algebra.Engine.{Engine}
use nucypher_ferveo.Algebra.Domain.{Domain}
use nucypher_ferveo.Algebra.Poly.{eval, eval_points}
use nucypher_ferveo.Algebra.Cyclic.{power, convolve, eval_points-convolve}
use nucypher_ferveo.Algebra.Cyclic.Entries.{point_at}
use nucypher_ferveo.Subproduct.Circulant.Slices.{length-replicate}
use nucypher_ferveo.Subproduct.Toeplitz.{scale_points, pad_reversed}

pub length-drop_le {ℓ} :
    {A : Type ℓ} (k m : ℕ) (xs : List A) → length xs ≤ k +ℕ m → length (drop k xs) ≤ m
length-drop_le zero m xs h = omega (arith, h)
length-drop_le (suc k) m [] h = omega arith
length-drop_le (suc k) m (x ∷ xs) h = length-drop_le k m xs (omega (arith, h))

module _ {G : Type 0} ⦃g : Group G⦄ where
  pub length-pad_reversed : (n : ℕ) (v : List G) → length v ≤ n → length (pad_reversed n v) ≡ n
  unfolding pad_reversed
  length-pad_reversed n v h =
      length-append (replicate (n -ℕ length v) g.zero) (reverse v)
      ∙ omega (arith, length-replicate (n -ℕ length v) g.zero, length-reverse v)

  point_at-append : (xs ys : List G) (i : ℕ) → i < length xs → point_at (xs ++ ys) i ≡ point_at xs i
  point_at-append [] ys i h = absurd (omega arith)
  point_at-append (x ∷ xs) ys zero h = refl
  point_at-append (x ∷ xs) ys (suc i) h = point_at-append xs ys i (omega arith)

  point_at-append_last :
      (xs : List G) (y : G) (i : ℕ) → i ≡ length xs → point_at (xs ++ (y ∷ [])) i ≡ y
  point_at-append_last [] y zero h = refl
  point_at-append_last [] y (suc i) h = absurd (omega arith)
  point_at-append_last (x ∷ xs) y zero h = absurd (omega arith)
  point_at-append_last (x ∷ xs) y (suc i) h = point_at-append_last xs y i (omega arith)

  point_at-replicate : (n i : ℕ) → point_at (replicate n g.zero) i ≡ g.zero
  point_at-replicate zero i = refl
  point_at-replicate (suc n) zero = refl
  point_at-replicate (suc n) (suc i) = point_at-replicate n i

  -- After k zeros the points stand from the last to the first.
  point_at-reverse :
      (k : ℕ) (v : List G) (q m : ℕ)
      → suc (q +ℕ m) ≡ k +ℕ length v
      → point_at (replicate k g.zero ++ reverse v) q ≡ point_at v m
  point_at-reverse k [] q m h =
      point_at-append (replicate k g.zero) [] q (omega (arith, length-replicate k g.zero))
      ∙ point_at-replicate k q
  point_at-reverse k (x ∷ v) q m h =
      ap (λ xs. point_at xs q)
        (ap (λ ys. replicate k g.zero ++ ys) (reverse-cons x v)
          ∙ sym (append_assoc (replicate k g.zero) (reverse v) (x ∷ [])))
      ∙ from_last m h (λ m e. point_at-reverse k v q m e)
    where
      before : List G
      before = replicate k g.zero ++ reverse v

      size : length before ≡ k +ℕ length v
      size =
          length-append (replicate k g.zero) (reverse v)
          ∙ omega (arith, length-replicate k g.zero, length-reverse v)

      from_last :
          (m : ℕ)
          → suc (q +ℕ m) ≡ k +ℕ suc (length v)
          → ((m : ℕ) → suc (q +ℕ m) ≡ k +ℕ length v → point_at before q ≡ point_at v m)
          → point_at (before ++ (x ∷ [])) q ≡ point_at (x ∷ v) m
      from_last zero h rest = point_at-append_last before x q (omega (arith, size))
      from_last (suc m) h rest =
          point_at-append before (x ∷ []) q (omega (arith, size)) ∙ rest m (omega arith)

  pub point_at-pad_reversed :
      (n : ℕ) (v : List G) (q m : ℕ)
      → length v ≤ n
      → suc (q +ℕ m) ≡ n
      → point_at (pad_reversed n v) q ≡ point_at v m
  unfolding pad_reversed
  point_at-pad_reversed n v q m h e = point_at-reverse (n -ℕ length v) v q m (omega (arith, h, e))

  pub point_at-resize :
      (n : ℕ) (xs : List G) (i : ℕ) → i < n → point_at (resize n g.zero xs) i ≡ point_at xs i
  point_at-resize zero xs i h = absurd (omega arith)
  point_at-resize (suc n) [] zero h = refl
  point_at-resize (suc n) [] (suc i) h = point_at-resize n [] i (omega arith)
  point_at-resize (suc n) (x ∷ xs) zero h = refl
  point_at-resize (suc n) (x ∷ xs) (suc i) h = point_at-resize n xs i (omega arith)

  pub point_at-take : (n i : ℕ) (xs : List G) → i < n → point_at (take n xs) i ≡ point_at xs i
  point_at-take zero i xs h = absurd (omega arith)
  point_at-take (suc n) i [] h = refl
  point_at-take (suc n) zero (x ∷ xs) h = refl
  point_at-take (suc n) (suc i) (x ∷ xs) h = point_at-take n i xs (omega arith)

module _ {F : Type 0} ⦃f : Field F⦄ where
  power-one : (n : ℕ) → power f.one n ≡ f.one
  unfolding power
  power-one zero = refl
  power-one (suc n) = rw (power-one n) (mul-one f.one)

  power-mul : (x y : F) (n : ℕ) → power (x * y) n ≡ power x n * power y n
  unfolding power
  power-mul x y zero = sym (mul-one f.one)
  power-mul x y (suc n) = rw (power-mul x y n) (simp ring)

module _ (E : Engine) (d : Domain E) where
  open E use {Fr}

  instance abbrev fr : Field Fr
  fr = E.field

  element-power : (i : ℕ) → d.element i ≡ power d.group_gen i
  unfolding power
  element-power zero = d.element-zero
  element-power (suc i) = d.element-suc i ∙ ap (λ x. x * d.group_gen) (element-power i) ∙ swap
    where
      swap : power d.group_gen i * d.group_gen ≡ d.group_gen * power d.group_gen i
      swap = simp ring

  element_root : (i : ℕ) → d.element d.size ≡ fr.one → power (d.element i) d.size ≡ fr.one
  element_root zero e = ap (λ x. power x d.size) d.element-zero ∙ power-one d.size
  element_root (suc i) e =
      ap (λ x. power x d.size) (d.element-suc i)
      ∙ power-mul (d.element i) d.group_gen d.size
      ∙ ap₂ ◌*◌ (element_root i e) (sym (element-power d.size) ∙ e)
      ∙ mul-one fr.one

  -- Every element is a root of unity of the domain's size.
  pub elements_roots : d.element d.size ≡ fr.one → All (λ x. power x d.size ≡ fr.one) d.elements
  elements_roots e = All-of-get_elem? _ d.elements (λ i lt. (
    d.element i,
    d.get_elem?-elements i (omega (arith, lt, d.length-elements)),
    element_root i e,
  ))

module _ {F G : Type 0} ⦃f : Field F⦄ ⦃g : Group G⦄ ⦃s : Space F G⦄ where
  -- The products of the values at roots of unity are the values of the convolution.
  pub scale_points-convolve :
      (cs : List F) (ts : List G) (xs : List F)
      → All (λ x. power x (length ts) ≡ f.one) xs
      → scale_points (map (eval_points ts) xs) (map (eval cs) xs)
        ≡ map (eval_points (convolve cs ts)) xs
  unfolding scale_points
  scale_points-convolve cs ts [] h = refl
  scale_points-convolve cs ts (x ∷ xs) h =
      ap₂ ◌∷◌ (sym (eval_points-convolve cs ts x h.0)) (scale_points-convolve cs ts xs h.1)
