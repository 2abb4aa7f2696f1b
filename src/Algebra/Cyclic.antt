-- ===== src/Algebra/Cyclic.antt =====
-- The cyclic convolution of scalars with points, which transforms over an evaluation domain compute:
-- multiplication with X, modulo X^N - 1, rotates the coefficients.
pub mod Entries
pub mod Sums
use nucypher_ferveo.Base.{ℕ, zero, suc, ◌≡◌, refl, sym, ap, ◌∙◌, List, [], ◌∷◌, map}
use mathlib.Core.Path.{ap₂}
use nucypher_ferveo.Base.Lists.{length, length-map}
use nucypher_ferveo.Algebra.Field.{Field, ◌+◌, ◌*◌, mul_comm}
use nucypher_ferveo.Algebra.Space.{
  Group, Space, ◌⊕◌, ◌•◌, zero-smul, add-smul, mul-smul, smul-add, smul-zero, zero-add, add-zero,
  one-smul, add_assoc, add_comm, add_left_comm, add_left_cancel, smul_comm, space,
}
use nucypher_ferveo.Algebra.Poly.{eval, eval_points}

module _ {F : Type 0} ⦃f : Field F⦄ where
  unfoldable pub power : F → ℕ → F
  power x zero = f.one
  power x (suc n) = x * power x n

module _ {G : Type 0} ⦃g : Group G⦄ where
  -- The last element, or the first argument if there is none.
  abbrev pub last_or : G → List G → G
  last_or a [] = a
  last_or a (c ∷ cs) = last_or c cs

  -- The elements moved by one place, with a new first one; the last is dropped.
  abbrev pub shift : G → List G → List G
  shift a [] = []
  shift a (c ∷ cs) = a ∷ shift c cs

  unfoldable pub rotate : List G → List G
  rotate cs = shift (last_or g.zero cs) cs

  unfoldable pub add_points : List G → List G → List G
  add_points (c ∷ cs) (d ∷ ds) = (c ⊕ d) ∷ add_points cs ds
  add_points _ _ = []

  length-shift : (a : G) (cs : List G) → length (shift a cs) ≡ length cs
  length-shift a [] = refl
  length-shift a (c ∷ cs) = ap suc (length-shift c cs)

  pub length-rotate : (cs : List G) → length (rotate cs) ≡ length cs
  unfolding rotate
  length-rotate cs = length-shift (last_or g.zero cs) cs

  pub length-add_points :
      (cs ds : List G) → length cs ≡ length ds → length (add_points cs ds) ≡ length ds
  unfolding add_points
  length-add_points [] [] h = refl
  length-add_points [] (d ∷ ds) h = h
  length-add_points (c ∷ cs) [] h = refl
  length-add_points (c ∷ cs) (d ∷ ds) h = ap suc (length-add_points cs ds (suc_injective h))
    where
      suc_injective : {m n : ℕ} → suc m ≡ suc n → m ≡ n
      suc_injective e = cc

module _ {F G : Type 0} ⦃f : Field F⦄ ⦃g : Group G⦄ ⦃s : Space F G⦄ where
  unfoldable pub convolve : List F → List G → List G
  convolve [] ts = map (λ _. g.zero) ts
  convolve (c ∷ cs) ts = add_points (map (◌•◌ c) ts) (convolve cs (rotate ts))

  pub length-convolve : (cs : List F) (ts : List G) → length (convolve cs ts) ≡ length ts
  unfolding convolve
  length-convolve [] ts = length-map ts (λ _. g.zero)
  length-convolve (c ∷ cs) ts =
      let rest = length-convolve cs (rotate ts) ∙ length-rotate ts in
      length-add_points (map (◌•◌ c) ts) (convolve cs (rotate ts))
        (length-map ts (◌•◌ c) ∙ sym rest)
      ∙ rest

  eval_points-zeros : (ts : List G) (x : F) → eval_points (map (λ _. g.zero) ts) x ≡ g.zero
  unfolding eval_points
  eval_points-zeros [] x = refl
  eval_points-zeros (t ∷ ts) x = rw (eval_points-zeros ts x, smul-zero {G = G} x) (zero-add g.zero)

  eval_points-map_smul :
      (c : F) (ts : List G) (x : F) → eval_points (map (◌•◌ c) ts) x ≡ c • eval_points ts x
  unfolding eval_points
  eval_points-map_smul c [] x = sym (smul-zero c)
  eval_points-map_smul c (t ∷ ts) x =
      rw (eval_points-map_smul c ts x, smul-add c t (x • eval_points ts x))
        (ap (◌⊕◌ (c • t)) (smul_comm x c (eval_points ts x)))

  eval_points-add_points :
      (cs ds : List G) (x : F)
      → length cs ≡ length ds
      → eval_points (add_points cs ds) x ≡ eval_points cs x ⊕ eval_points ds x
  unfolding eval_points add_points
  eval_points-add_points [] [] x h = sym (zero-add g.zero)
  eval_points-add_points [] (d ∷ ds) x h = absurd (cc)
  eval_points-add_points (c ∷ cs) [] x h = absurd (cc)
  eval_points-add_points (c ∷ cs) (d ∷ ds) x h =
      rw (eval_points-add_points cs ds x (cc)) (simp space)

  eval_points-shift :
      (a : G) (cs : List G) (x : F)
      → eval_points (shift a cs) x ⊕ power x (length cs) • last_or a cs ≡ a ⊕ x • eval_points cs x
  unfolding eval_points power
  eval_points-shift a [] x = rw (one-smul F a, smul-zero {G = G} x) (add_comm g.zero a)
  eval_points-shift a (c ∷ cs) x =
      add_assoc a (x • eval_points (shift c cs) x) ((x * power x (length cs)) • last_or c cs)
      ∙ ap (◌⊕◌ a) (
          ap (◌⊕◌ (x • eval_points (shift c cs) x))
            (mul-smul x (power x (length cs)) (last_or c cs))
          ∙ sym (smul-add x (eval_points (shift c cs) x) (power x (length cs) • last_or c cs))
          ∙ ap (◌•◌ x) (eval_points-shift c cs x))

  -- At a root of unity a rotation multiplies the value with the root.
  eval_points-rotate :
      (ts : List G) (x : F)
      → power x (length ts) ≡ f.one
      → eval_points (rotate ts) x ≡ x • eval_points ts x
  unfolding rotate
  eval_points-rotate [] x h = unfold eval_points in sym (smul-zero x)
  eval_points-rotate (t ∷ ts) x h =
      let l = last_or t ts in
      add_left_cancel l (eval_points (shift l (t ∷ ts)) x) (x • eval_points (t ∷ ts) x) (
        add_comm l (eval_points (shift l (t ∷ ts)) x)
        ∙ ap (◌⊕◌ (eval_points (shift l (t ∷ ts)) x)) (sym (ap (λ k. k • l) h ∙ one-smul F l))
        ∙ eval_points-shift l (t ∷ ts) x)

  -- At a root of unity the value of a convolution is the product of the values.
  pub eval_points-convolve :
      (cs : List F) (ts : List G) (x : F)
      → power x (length ts) ≡ f.one
      → eval_points (convolve cs ts) x ≡ eval cs x • eval_points ts x
  unfolding convolve eval
  eval_points-convolve [] ts x h = eval_points-zeros ts x ∙ sym (zero-smul F (eval_points ts x))
  eval_points-convolve (c ∷ cs) ts x h =
      eval_points-add_points (map (◌•◌ c) ts) (convolve cs (rotate ts)) x
        (length-map ts (◌•◌ c) ∙ sym (length-convolve cs (rotate ts) ∙ length-rotate ts))
      ∙ ap₂ ◌⊕◌ (eval_points-map_smul c ts x) (
          eval_points-convolve cs (rotate ts) x (ap (power x) (length-rotate ts) ∙ h)
          ∙ ap (◌•◌ (eval cs x)) (eval_points-rotate ts x h)
          ∙ sym (mul-smul (eval cs x) x (eval_points ts x)))
      ∙ ap (◌⊕◌ (c • eval_points ts x)) (ap (λ k. k • eval_points ts x) (mul_comm (eval cs x) x))
      ∙ sym (add-smul c (x * eval cs x) (eval_points ts x))
