-- ===== src/Toy/Polynomials.antt =====
-- Polynomials over the field of five elements, without leading zeros.
use Prim.Native.Nat.{◌-◌ as ◌-ℕ◌, ◌+◌ as ◌+ℕ◌, ◌^◌}
use native.Mathlib.Nat.{pow-suc}
use nucypher_ferveo.Base.{
  ℕ, zero, suc, ◌≤◌, ◌<◌, ◌≡◌, inl, inr, refl, sym, ap, ◌∙◌, Bool, true, false, ◌&&◌, Option, some,
  none, List, [], ◌∷◌, map, arith,
}
use mathlib.Core.Path.{subst}
use mathlib.Core.Option.{some-injective}
use nucypher_ferveo.Base.Tests.{leb, leb→le, leb→gt, Bool-cases, if◌then◌else◌}
use nucypher_ferveo.Base.Lists.{length}
use nucypher_ferveo.Algebra.Field.{◌+◌, ◌*◌, neg, neg-zero}
use nucypher_ferveo.Algebra.Field.Inverse.{inv}
use nucypher_ferveo.Algebra.Poly.{add_coeffs}
use nucypher_ferveo.Algebra.Poly.Coefficients.{
  coeff, coeff-add_coeffs, mul_coeffs, coeff-mul_coeffs, IsTrimmed,
}
use nucypher_ferveo.Algebra.DensePolynomials.{DensePolynomials}
use nucypher_ferveo.Tpke.Combine.Fast.{BatchInversion}
use nucypher_ferveo.Toy.F5.{F5, one, two, three, four, field}

abbrev trim_cons : F5 → List F5 → List F5
trim_cons F5.zero [] = []
trim_cons c [] = c ∷ []
trim_cons c (d ∷ ds) = c ∷ d ∷ ds

abbrev trim : List F5 → List F5
trim [] = []
trim (c ∷ cs) = trim_cons c (trim cs)

coeff-trim_cons : (c : F5) (cs : List F5) (i : ℕ) → coeff (trim_cons c cs) i ≡ coeff (c ∷ cs) i
coeff-trim_cons F5.zero [] zero = refl
coeff-trim_cons F5.zero [] (suc i) = refl
coeff-trim_cons one [] i = refl
coeff-trim_cons two [] i = refl
coeff-trim_cons three [] i = refl
coeff-trim_cons four [] i = refl
coeff-trim_cons c (d ∷ ds) i = refl

pub coeff-trim : (cs : List F5) (i : ℕ) → coeff (trim cs) i ≡ coeff cs i
coeff-trim [] i = refl
coeff-trim (c ∷ cs) zero = coeff-trim_cons c (trim cs) zero
coeff-trim (c ∷ cs) (suc i) = coeff-trim_cons c (trim cs) (suc i) ∙ coeff-trim cs i

trim_cons-IsTrimmed : (c : F5) (cs : List F5) → IsTrimmed cs → IsTrimmed (trim_cons c cs)
trim_cons-IsTrimmed F5.zero [] t = tt
trim_cons-IsTrimmed one [] t = λ e. cc
trim_cons-IsTrimmed two [] t = λ e. cc
trim_cons-IsTrimmed three [] t = λ e. cc
trim_cons-IsTrimmed four [] t = λ e. cc
trim_cons-IsTrimmed c (d ∷ ds) t = t

pub trim-IsTrimmed : (cs : List F5) → IsTrimmed (trim cs)
trim-IsTrimmed [] = tt
trim-IsTrimmed (c ∷ cs) = trim_cons-IsTrimmed c (trim cs) (trim-IsTrimmed cs)

pub coeff-map_neg : (cs : List F5) (i : ℕ) → coeff (map neg cs) i ≡ neg (coeff cs i)
coeff-map_neg [] i = sym neg-zero
coeff-map_neg (c ∷ cs) zero = refl
coeff-map_neg (c ∷ cs) (suc i) = coeff-map_neg cs i

-- Whether the last coefficient, where there is one, is not zero.
abbrev is_trimmed : List F5 → Bool
is_trimmed [] = true
is_trimmed (F5.zero ∷ []) = false
is_trimmed (one ∷ []) = true
is_trimmed (two ∷ []) = true
is_trimmed (three ∷ []) = true
is_trimmed (four ∷ []) = true
is_trimmed (c ∷ d ∷ ds) = is_trimmed (d ∷ ds)

is_trimmed→ : (cs : List F5) → is_trimmed cs ≡ true → IsTrimmed cs
is_trimmed→ [] h = tt
is_trimmed→ (F5.zero ∷ []) h = cc
is_trimmed→ (one ∷ []) h = λ e. cc
is_trimmed→ (two ∷ []) h = λ e. cc
is_trimmed→ (three ∷ []) h = λ e. cc
is_trimmed→ (four ∷ []) h = λ e. cc
is_trimmed→ (c ∷ d ∷ ds) h = is_trimmed→ (d ∷ ds) h

→is_trimmed : (cs : List F5) → IsTrimmed cs → is_trimmed cs ≡ true
→is_trimmed [] t = refl
→is_trimmed (F5.zero ∷ []) t = absurd (t refl)
→is_trimmed (one ∷ []) t = refl
→is_trimmed (two ∷ []) t = refl
→is_trimmed (three ∷ []) t = refl
→is_trimmed (four ∷ []) t = refl
→is_trimmed (c ∷ d ∷ ds) t = →is_trimmed (d ∷ ds) t

-- What is computed, where both operands pass the assertion.
abbrev checked : List F5 → List F5 → List F5 → Option (List F5)
checked p q r = if is_trimmed p && is_trimmed q then some (trim r) else none

pub coeff-checked :
    (p q r : List F5) {s : List F5} → checked p q r ≡ some s → (i : ℕ) → coeff s i ≡ coeff r i
coeff-checked p q r h i =
    ap (λ t. coeff t i) (sym (result (is_trimmed p && is_trimmed q) h)) ∙ coeff-trim r i
  where
    result : (b : Bool) {s : List F5} → (if b then some (trim r) else none) ≡ some s → trim r ≡ s
    result true h = some-injective _ _ h
    result false h = cc

pub checked-IsTrimmed : (p q r : List F5) {s : List F5} → checked p q r ≡ some s → IsTrimmed s
checked-IsTrimmed p q r h =
    subst IsTrimmed (result (is_trimmed p && is_trimmed q) h) (trim-IsTrimmed r)
  where
    result : (b : Bool) {s : List F5} → (if b then some (trim r) else none) ≡ some s → trim r ≡ s
    result true h = some-injective _ _ h
    result false h = cc

pub checked_total :
    (p q r : List F5) → IsTrimmed p → IsTrimmed q → (s : List F5) × (checked p q r ≡ some s)
checked_total p q r t u = (trim r, rw (→is_trimmed p t, →is_trimmed q u) refl)

pub checked_panic : (p r : List F5) → ¬ IsTrimmed p → checked p p r ≡ none
checked_panic p r h = decide (is_trimmed p) refl
  where
    decide : (b : Bool) → is_trimmed p ≡ b → checked p p r ≡ none
    decide true e = absurd (h (is_trimmed→ p e))
    decide false e = rw e refl

lt-pow : (n : ℕ) → suc n ≤ 2 ^ n
lt-pow zero = omega arith
lt-pow (suc n) = omega (arith, lt-pow n, pow-suc 2 n)

pub le-pow : (n : ℕ) → n ≤ 2 ^ n
le-pow n = omega (arith, lt-pow n)

-- The least exponent from k on whose power of two is not less than n.
abbrev least_from : ℕ → ℕ → ℕ → ℕ
least_from zero k n = k
least_from (suc fuel) k n =
    let rest = least_from fuel (suc k) n in if leb n (2 ^ k) then k else rest

pub least_from_le : (fuel k n : ℕ) → n ≤ k +ℕ fuel → n ≤ 2 ^ least_from fuel k n
least_from_le zero k n h = omega (arith, h, le-pow k)
least_from_le (suc fuel) k n h = elim (Bool-cases (leb n (2 ^ k))) [
  | inl e ↦ rw e (leb→le n (2 ^ k) e)
  | inr e ↦ rw e (least_from_le fuel (suc k) n (omega (arith, h)))
]

pub least_from_lt : (fuel k n i : ℕ) → k ≤ i → i < least_from fuel k n → 2 ^ i < n
least_from_lt zero k n i le lt = absurd (omega (arith, le, lt))
least_from_lt (suc fuel) k n i le lt = elim (Bool-cases (leb n (2 ^ k))) [
  | inl e ↦ absurd (omega (arith, le, at e))
  | inr e ↦ elim (Bool-cases (leb (suc k) i)) [
    | inl q ↦ least_from_lt fuel (suc k) n i (leb→le (suc k) i q) (later e)
    | inr q ↦
        let same : k ≡ i = omega (arith, le, leb→gt (suc k) i q) in
        omega (arith, ap (λ j. 2 ^ j) same, leb→gt n (2 ^ k) e)
  ]
]
  where
    at : leb n (2 ^ k) ≡ true → i < k
    at e = subst (λ b. i < (if b then k else least_from fuel (suc k) n)) e lt

    later : leb n (2 ^ k) ≡ false → i < least_from fuel (suc k) n
    later e = subst (λ b. i < (if b then k else least_from fuel (suc k) n)) e lt

abbrev pub from : ℕ → F5
from zero = F5.zero
from (suc n) = from n + one

abbrev pub dense : DensePolynomials F5
dense = record {
  add = λ p q. checked p q (add_coeffs p q);
  sub = λ p q. checked p q (add_coeffs p (map neg q));
  mul = λ p q. trim (mul_coeffs p q);
  degree = λ p. length p -ℕ 1;
  log2 = λ n. least_from n 0 n;
  from = from;
  coeff-add = λ p q h i. coeff-checked p q (add_coeffs p q) h i ∙ coeff-add_coeffs p q i;
  coeff-sub = λ p q h i.
      coeff-checked p q (add_coeffs p (map neg q)) h i
      ∙ coeff-add_coeffs p (map neg q) i
      ∙ ap (◌+◌ (coeff p i)) (coeff-map_neg q i);
  coeff-mul = λ p q i. coeff-trim (mul_coeffs p q) i ∙ coeff-mul_coeffs p q i;
  mul-IsTrimmed = λ p q. trim-IsTrimmed (mul_coeffs p q);
  add-IsTrimmed = λ p q t u h. checked-IsTrimmed p q (add_coeffs p q) h;
  sub-IsTrimmed = λ p q t u h. checked-IsTrimmed p q (add_coeffs p (map neg q)) h;
  add_total = λ p q t u. checked_total p q (add_coeffs p q) t u;
  sub_total = λ p q t u. checked_total p q (add_coeffs p (map neg q)) t u;
  add_panic = λ p i h t. checked_panic p (add_coeffs p p) t;
  degree_le = λ p n t h. omega (arith, h);
  log2_le = λ n. least_from_le n 0 n (omega arith);
  log2_lt = λ n k lt. least_from_lt n 0 n k (omega arith) lt;
  from-zero = refl;
  from-suc = λ n. refl;
}

abbrev pub batch : BatchInversion F5
batch = record {
  batch_inversion_and_mul = λ vs coeff. map (λ v. coeff * inv v) vs;
  batch_inversion_and_mul_lem = λ vs coeff h. refl;
}
