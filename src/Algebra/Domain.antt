-- ===== src/Algebra/Domain.antt =====
-- The polynomials, the evaluation domains and the multiplication of many scalars with one base that
-- ark-poly and ark-ec provide. A `DensePolynomial` is the list of its coefficients.
use Prim.Native.Nat.{◌^◌}
use nucypher_ferveo.Base.{ℕ, zero, suc, ◌≤◌, ◌<◌, ◌≡◌, Option, some, List, map}
use nucypher_ferveo.Base.Lists.{length, get_elem?, Distinct}
use nucypher_ferveo.Algebra.Field.{Field, ◌*◌}
use nucypher_ferveo.Algebra.Space.{Group, Space, ◌•◌}
use nucypher_ferveo.Algebra.Engine.{Engine}
use nucypher_ferveo.Algebra.Poly.{eval, eval_points}

-- `DensePolynomial::evaluate`
pub record Polynomials (E : Engine) : Type 0 where
  pub evaluate : List E.Fr → E.Fr → E.Fr
  pub evaluate_lem : (cs : List E.Fr) (x : E.Fr) → evaluate cs x ≡ eval ⦃f = E.field⦄ cs x

-- `Radix2EvaluationDomain`: the powers of a root of unity. `fft_in_place` is over points of the first
-- group, `evaluate_over_domain_by_ref` over scalars.
pub record Domain (E : Engine) : Type 0 where
  pub size : ℕ
  pub group_gen : E.Fr
  pub group_gen_inv : E.Fr
  pub elements : List E.Fr
  pub element : ℕ → E.Fr
  pub evaluate_over_domain : List E.Fr → List E.Fr
  pub fft_in_place : List E.G1 → List E.G1
  pub length-elements : length elements ≡ size
  pub elements-Distinct : Distinct elements
  pub get_elem?-elements : (i : ℕ) → i < size → get_elem? elements i ≡ some (element i)
  pub element-zero : element zero ≡ E.field.one
  pub element-suc : (i : ℕ) → element (suc i) ≡ ◌*◌ ⦃f = E.field⦄ (element i) group_gen
  pub group_gen_inv_lem : ◌*◌ ⦃f = E.field⦄ group_gen group_gen_inv ≡ E.field.one
  pub evaluate_over_domain_lem :
      (cs : List E.Fr)
      → length cs ≤ size
      → evaluate_over_domain cs ≡ map (eval ⦃f = E.field⦄ cs) elements
  pub fft_in_place_lem :
      (cs : List E.G1)
      → length cs ≤ size
      → fft_in_place cs ≡ map (eval_points ⦃f = E.field⦄ ⦃g = E.group1⦄ ⦃s = E.space1⦄ cs) elements

-- `Radix2EvaluationDomain::new`: a domain of at least the size asked for, where there is one.
pub record Domains (E : Engine) : Type 0 where
  pub new : ℕ → Option (Domain E)
  pub new-size : (n : ℕ) {d : Domain E} → new n ≡ some d → n ≤ d.size

-- A domain of 2^k elements with the transform of scalars, `fft_in_place`, and the inverse transform of
-- points, `ifft_in_place`: the coefficients of the one list of points with these values.
pub record Radix2Domain (E : Engine) : Type 0 where
  pub domain : Domain E
  pub log_size_of_group : ℕ
  pub fft_scalars : List E.Fr → List E.Fr
  pub ifft_in_place : List E.G1 → List E.G1
  pub size_lem : domain.size ≡ 2 ^ log_size_of_group
  pub element-size : domain.element domain.size ≡ E.field.one
  pub fft_scalars_lem :
      (cs : List E.Fr)
      → length cs ≤ domain.size
      → fft_scalars cs ≡ map (eval ⦃f = E.field⦄ cs) domain.elements
  pub ifft_in_place_lem :
      (cs : List E.G1)
      → length cs ≡ domain.size
      → ifft_in_place
          (map (eval_points ⦃f = E.field⦄ ⦃g = E.group1⦄ ⦃s = E.space1⦄ cs) domain.elements)
        ≡ cs

-- `Radix2EvaluationDomain::new`, of such domains.
pub record Radix2Domains (E : Engine) : Type 0 where
  pub new : ℕ → Option (Radix2Domain E)
  pub new-size : (n : ℕ) {d : Radix2Domain E} → new n ≡ some d → n ≤ d.domain.size

-- `FixedBaseMSM` over a group: the window table of a base, and the products of many scalars with it.
pub record FixedBaseMsm (F G : Type 0) ⦃f : Field F⦄ ⦃g : Group G⦄ ⦃s : Space F G⦄ : Type 1 where
  pub Table : Type 0
  pub get_mul_window_size : ℕ → ℕ
  pub size_in_bits : ℕ
  pub get_window_table : ℕ → ℕ → G → Table
  pub multi_scalar_mul : ℕ → ℕ → Table → List F → List G
  pub multi_scalar_mul_lem :
      (window : ℕ) (base : G) (scalars : List F)
      → multi_scalar_mul size_in_bits window (get_window_table size_in_bits window base) scalars
        ≡ map (λ k. k • base) scalars
