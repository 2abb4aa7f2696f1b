-- ===== src/Algebra/DensePolynomials.antt =====
-- The arithmetic of `DensePolynomial` in ark-poly, with `F::from(u128)` of ark-ff and `log2` of
-- ark-std. A polynomial is the list of its coefficients, the constant first.
use Prim.Native.Nat.{◌^◌}
use nucypher_ferveo.Base.{ℕ, zero, suc, ◌≤◌, ◌<◌, ◌≡◌, ◌≢◌, Option, none, some, List}
use nucypher_ferveo.Base.Lists.{length}
use nucypher_ferveo.Algebra.Field.{Field, ◌+◌, ◌-◌}
use nucypher_ferveo.Algebra.Series.{conv}
use nucypher_ferveo.Algebra.Poly.Coefficients.{coeff, IsTrimmed}

-- A sum or a difference panics, `none`, where one of its operands, neither of them zero, ends with a
-- zero coefficient: `degree` asserts that it does not. What it returns for lists without a leading zero
-- has none, and neither has a product, which takes any lists. `log2` rounds up.
pub record DensePolynomials (F : Type 0) ⦃f : Field F⦄ : Type 0 where
  pub add : List F → List F → Option (List F)
  pub sub : List F → List F → Option (List F)
  pub mul : List F → List F → List F
  pub degree : List F → ℕ
  pub log2 : ℕ → ℕ
  pub from : ℕ → F
  pub coeff-add :
      (p q : List F) {r : List F} → add p q ≡ some r → (i : ℕ) → coeff r i ≡ coeff p i + coeff q i
  pub coeff-sub :
      (p q : List F) {r : List F} → sub p q ≡ some r → (i : ℕ) → coeff r i ≡ coeff p i - coeff q i
  pub coeff-mul : (p q : List F) (i : ℕ) → coeff (mul p q) i ≡ conv (coeff p) (coeff q) i
  pub mul-IsTrimmed : (p q : List F) → IsTrimmed (mul p q)
  pub add-IsTrimmed :
      (p q : List F) {r : List F} → IsTrimmed p → IsTrimmed q → add p q ≡ some r → IsTrimmed r
  pub sub-IsTrimmed :
      (p q : List F) {r : List F} → IsTrimmed p → IsTrimmed q → sub p q ≡ some r → IsTrimmed r
  pub add_total : (p q : List F) → IsTrimmed p → IsTrimmed q → (r : List F) × (add p q ≡ some r)
  pub sub_total : (p q : List F) → IsTrimmed p → IsTrimmed q → (r : List F) × (sub p q ≡ some r)
  pub add_panic : (p : List F) (i : ℕ) → coeff p i ≢ f.zero → ¬ IsTrimmed p → add p p ≡ none
  pub degree_le : (p : List F) (n : ℕ) → IsTrimmed p → length p ≤ suc n → degree p ≤ n
  pub log2_le : (n : ℕ) → n ≤ 2 ^ log2 n
  pub log2_lt : (n k : ℕ) → k < log2 n → 2 ^ k < n
  pub from-zero : from zero ≡ f.zero
  pub from-suc : (n : ℕ) → from (suc n) ≡ from n + f.one
