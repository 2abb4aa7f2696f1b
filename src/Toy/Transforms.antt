-- ===== src/Toy/Transforms.antt =====
-- The transforms over the domain of the powers of two, modulo five.
use nucypher_ferveo.Base.{
  ℕ, ◌≤◌, ◌≡◌, refl, Bool, true, false, none, some, List, [], ◌∷◌, ◌&&◌, map, arith,
}
use mathlib.Core.Path.{subst, ap₂}
use nucypher_ferveo.Algebra.Field.{◌+◌, ◌*◌}
use nucypher_ferveo.Algebra.Space.{◌⊕◌, ◌•◌}
use nucypher_ferveo.Base.Tests.{leb, leb→le, is_yes, is_yes→, if◌then◌else◌}
use nucypher_ferveo.Base.Lists.{length}
use nucypher_ferveo.Algebra.Poly.{eval, eval_points}
use nucypher_ferveo.Algebra.Domain.{Radix2Domain, Radix2Domains}
use nucypher_ferveo.Toy.F5.{F5, one, two, three, four, mul, field, group, space}
use nucypher_ferveo.Toy.Instances.{engine, domain}

-- The values at the inverses of the elements, divided by four.
abbrev pub inverse_transform : List F5 → List F5
inverse_transform ys = map (λ x. mul four (eval ys x)) (one ∷ three ∷ four ∷ two ∷ [])

abbrev elements : List F5
elements = one ∷ two ∷ four ∷ three ∷ []

same : List F5 → List F5 → Bool
same [] [] = true
same (x ∷ xs) (y ∷ ys) = is_yes (field.dec_eq x y) && same xs ys
same _ _ = false

same→eq : (xs ys : List F5) → same xs ys ≡ true → xs ≡ ys
unfolding same
same→eq [] [] h = refl
same→eq [] (y ∷ ys) h = cc
same→eq (x ∷ xs) [] h = cc
same→eq (x ∷ xs) (y ∷ ys) h =
    let (first, rest) = both (is_yes (field.dec_eq x y)) (same xs ys) h in
    ap₂ ◌∷◌ (is_yes→ (field.dec_eq x y) first) (same→eq xs ys rest)
  where
    both : (p q : Bool) → (p && q) ≡ true → (p ≡ true) × (q ≡ true)
    both true q h = (refl, h)
    both false q h = cc

every : (F5 → Bool) → Bool
every p = p F5.zero && (p one && (p two && (p three && p four)))

every_sound : (p : F5 → Bool) (x : F5) → every p ≡ true → p x ≡ true
unfolding every
every_sound p F5.zero h = ground arith
every_sound p one h = ground arith
every_sound p two h = ground arith
every_sound p three h = ground arith
every_sound p four h = ground arith

restored : F5 → F5 → F5 → F5 → Bool
unfolding same eval eval_points ◌+◌ ◌*◌ ◌⊕◌ ◌•◌
restored a b c d =
    same (inverse_transform (map (eval_points (a ∷ b ∷ c ∷ d ∷ [])) elements)) (a ∷ b ∷ c ∷ d ∷ [])

all_restored : every (λ a. every (λ b. every (λ c. every (λ d. restored a b c d)))) ≡ true
unfolding every restored
all_restored = refl

-- The coefficients come back from the values.
pub inverse_transform_lem :
    (cs : List F5)
    → length cs ≡ 4
    → inverse_transform (map (eval_points cs) (one ∷ two ∷ four ∷ three ∷ [])) ≡ cs
unfolding restored
inverse_transform_lem (a ∷ b ∷ c ∷ d ∷ []) h = same→eq _ _ (
    every_sound (λ d. restored a b c d) d
      (every_sound (λ c. every (λ d. restored a b c d)) c
        (every_sound (λ b. every (λ c. every (λ d. restored a b c d))) b
          (every_sound (λ a. every (λ b. every (λ c. every (λ d. restored a b c d)))) a
            all_restored))))
inverse_transform_lem [] h = absurd (omega arith)
inverse_transform_lem (a ∷ []) h = absurd (omega arith)
inverse_transform_lem (a ∷ b ∷ []) h = absurd (omega arith)
inverse_transform_lem (a ∷ b ∷ c ∷ []) h = absurd (omega arith)
inverse_transform_lem (a ∷ b ∷ c ∷ d ∷ e ∷ cs) h = absurd (omega arith)

pub root_of_unity : domain.element 4 ≡ one
root_of_unity = refl

abbrev pub radix2_domain : Radix2Domain engine
radix2_domain = record {
  domain = domain;
  log_size_of_group = 2;
  fft_scalars = λ cs. map (eval cs) (one ∷ two ∷ four ∷ three ∷ []);
  ifft_in_place = inverse_transform;
  size_lem = refl;
  element-size = root_of_unity;
  fft_scalars_lem = λ cs h. refl;
  ifft_in_place_lem = inverse_transform_lem;
}

chosen-size :
    (b : Bool) (n : ℕ) {d : Radix2Domain engine}
    → (b ≡ true → n ≤ 4)
    → (if b then some radix2_domain else none) ≡ some d
    → n ≤ d.domain.size
chosen-size true n le h = subst (λ o. n ≤ elim o [ none ↦ 4 | some x ↦ x.domain.size ]) h (le refl)
chosen-size false n le h = cc

pub radix2_domain-size :
    (n : ℕ) {d : Radix2Domain engine}
    → (if leb n 4 then some radix2_domain else none) ≡ some d
    → n ≤ d.domain.size
radix2_domain-size n h = chosen-size (leb n 4) n (leb→le n 4) h

abbrev pub radix2_domains : Radix2Domains engine
radix2_domains = record {
  new = λ n. if leb n 4 then some radix2_domain else none;
  new-size = radix2_domain-size;
}
