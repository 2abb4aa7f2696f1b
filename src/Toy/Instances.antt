-- ===== src/Toy/Instances.antt =====
-- A small engine, with five elements in each group and the product as its pairing, and the
-- interfaces of the other crates over it.
use mathlib.Core.Path.{◌≡◌, subst}
use nucypher_ferveo.Base.{
  ℕ, zero, suc, ◌≤◌, ◌<◌, refl, Bool, true, false, Option, none, some, List, [], ◌∷◌, map, arith,
}
use nucypher_ferveo.Base.Tests.{leb, leb→le, ◌==◌, if◌then◌else◌}
use nucypher_ferveo.Base.Lists.{length, get_elem?, replicate, Distinct}
use nucypher_ferveo.Algebra.Space.{◌⊕◌, ◌•◌}
use nucypher_ferveo.Algebra.Field.{◌*◌}
use nucypher_ferveo.Algebra.Engine.{Engine}
use nucypher_ferveo.Algebra.Poly.{eval, eval_points}
use nucypher_ferveo.Algebra.Domain.{Polynomials, Domain, Domains, FixedBaseMsm}
use nucypher_ferveo.Tpke.Interface.{Primitives}
use nucypher_ferveo.Ferveo.Pvss.Dealing.{Msm}
use nucypher_ferveo.Toy.F5
use nucypher_ferveo.Toy.F5.{
  F5, one, two, three, four, mul, mul_comm, mul_assoc, mul-add, add-mul, field, group, space,
}

abbrev product_of_pairings : List (F5 × F5) → F5
product_of_pairings [] = F5.zero
product_of_pairings ((a, h) ∷ rest) = field.add (mul a h) (product_of_pairings rest)

pub generates : (a : F5) → (k : F5) × (a ≡ k • one)
unfolding ◌•◌
generates a = (a, mul_comm one a)

pub pairing-add_left : (a b h : F5) → mul (a ⊕ b) h ≡ mul a h ⊕ mul b h
unfolding ◌⊕◌
pairing-add_left = add-mul

pub pairing-add_right : (a h i : F5) → mul a (h ⊕ i) ≡ mul a h ⊕ mul a i
unfolding ◌⊕◌
pairing-add_right = mul-add

pub pairing-smul_left : (k a h : F5) → mul (k • a) h ≡ k • mul a h
unfolding ◌•◌
pairing-smul_left = mul_assoc

pub pairing-smul_right : (k a h : F5) → mul a (k • h) ≡ k • mul a h
unfolding ◌•◌
pairing-smul_right k a h = rw (← mul_assoc a k h, mul_comm a k) (mul_assoc k a h)

pub product-cons :
    (a h : F5) (rest : List (F5 × F5))
    → product_of_pairings ((a, h) ∷ rest) ≡ mul a h ⊕ product_of_pairings rest
unfolding ◌⊕◌
product-cons a h rest = refl

abbrev pub engine : Engine
engine = record {
  Fr = F5;
  G1 = F5;
  G2 = F5;
  Fqk = F5;
  field = field;
  group1 = group;
  group2 = group;
  groupt = group;
  space1 = space;
  space2 = space;
  spacet = space;
  gen1 = one;
  gen2 = one;
  gen1_generates = generates;
  gen2_generates = generates;
  pairing = mul;
  pairing-add_left = pairing-add_left;
  pairing-add_right = pairing-add_right;
  pairing-smul_left = pairing-smul_left;
  pairing-smul_right = pairing-smul_right;
  pairing-ne-one = F5.one-ne-zero;
  product_of_pairings = product_of_pairings;
  product_of_pairings-nil = refl;
  product_of_pairings-cons = product-cons;
}

abbrev pub polynomials : Polynomials engine
polynomials = record { evaluate = eval; evaluate_lem = λ cs x. refl }

-- The powers of two, modulo five.
abbrev pub powers : ℕ → F5
powers zero = one
powers (suc i) = mul (powers i) two

pub powers-elements :
    (i : ℕ) → i < 4 → get_elem? (one ∷ two ∷ four ∷ three ∷ []) i ≡ some (powers i)
powers-elements zero h = refl
powers-elements (suc zero) h = refl
powers-elements (suc (suc zero)) h = refl
powers-elements (suc (suc (suc zero))) h = refl
powers-elements (suc (suc (suc (suc i)))) h = absurd (omega arith)

pub Distinct-powers : Distinct (one ∷ two ∷ four ∷ three ∷ [])
Distinct-powers = (
  ((λ e. cc), ((λ e. cc), ((λ e. cc), tt))),
  (((λ e. cc), ((λ e. cc), tt)), (((λ e. cc), tt), (tt, tt))),
)

pub element-suc : (i : ℕ) → powers (suc i) ≡ powers i * two
unfolding ◌*◌
element-suc i = refl

pub group_gen_inv : two * three ≡ one
unfolding ◌*◌
group_gen_inv = refl

abbrev pub domain : Domain engine
domain = record {
  size = 4;
  group_gen = two;
  group_gen_inv = three;
  elements = one ∷ two ∷ four ∷ three ∷ [];
  element = powers;
  evaluate_over_domain = λ cs. map (eval cs) (one ∷ two ∷ four ∷ three ∷ []);
  fft_in_place = λ cs. map (eval_points cs) (one ∷ two ∷ four ∷ three ∷ []);
  length-elements = refl;
  elements-Distinct = Distinct-powers;
  get_elem?-elements = powers-elements;
  element-zero = refl;
  element-suc = element-suc;
  group_gen_inv_lem = group_gen_inv;
  evaluate_over_domain_lem = λ cs h. refl;
  fft_in_place_lem = λ cs h. refl;
}

abbrev domain_for : ℕ → Option (Domain engine)
domain_for n = if leb n 4 then some domain else none

chosen-size :
    (b : Bool) (n : ℕ) {d : Domain engine}
    → (b ≡ true → n ≤ 4)
    → (if b then some domain else none) ≡ some d
    → n ≤ d.size
chosen-size true n le h = subst (λ o. n ≤ elim o [ none ↦ 4 | some x ↦ x.size ]) h (le refl)
chosen-size false n le h = cc

pub domain_for-size :
    (n : ℕ) {d : Domain engine} → (if leb n 4 then some domain else none) ≡ some d → n ≤ d.size
domain_for-size n h = chosen-size (leb n 4) n (leb→le n 4) h

abbrev pub domains : Domains engine
domains = record { new = domain_for; new-size = domain_for-size }

abbrev fixed_base : FixedBaseMsm F5 F5
fixed_base = record {
  Table = F5;
  get_mul_window_size = λ n. n;
  size_in_bits = 3;
  get_window_table = λ bits window base. base;
  multi_scalar_mul = λ bits window base scalars. map (λ k. k • base) scalars;
  multi_scalar_mul_lem = λ window base scalars. refl;
}

abbrev pub msm : Msm engine
msm = record { msm1 = fixed_base; msm2 = fixed_base }

abbrev pub code : F5 → ℕ
code F5.zero = 0
code one = 1
code two = 2
code three = 3
code four = 4

abbrev pub decode : ℕ → F5
decode zero = F5.zero
decode (suc zero) = one
decode (suc (suc zero)) = two
decode (suc (suc (suc zero))) = three
decode _ = four

abbrev pub write_point : ℕ → F5 → List ℕ
write_point n a = code a ∷ replicate n 0

abbrev pub read_point : List ℕ → Option F5
read_point [] = none
read_point (b ∷ bytes) = some (decode b)

pub read-write_point : (n : ℕ) (a : F5) → read_point (write_point n a) ≡ some a
read-write_point n F5.zero = refl
read-write_point n one = refl
read-write_point n _ = refl

abbrev pub first_byte : List ℕ → ℕ
first_byte [] = 0
first_byte (b ∷ bytes) = b

-- The key and the message in clear.
abbrev pub seal_message : List ℕ → List ℕ → List ℕ → Option (List ℕ)
seal_message key nonce message = some (first_byte key ∷ message)

abbrev pub open_message : List ℕ → List ℕ → List ℕ → Option (List ℕ)
open_message key nonce [] = none
open_message key nonce (b ∷ message) = if b == first_byte key then some message else none

pub open-seal :
    (key nonce message sealed : List ℕ)
    → seal_message key nonce message ≡ some sealed
    → open_message key nonce sealed ≡ some message
open-seal key nonce message [] h = cc
open-seal key nonce message (b ∷ sealed) h = ground arith

pub seal_total :
    (key nonce message : List ℕ)
    → length message ≤ 100
    → (sealed : List ℕ) × (seal_message key nonce message ≡ some sealed)
seal_total key nonce message h = (first_byte key ∷ message, refl)

abbrev pub primitives : Primitives engine
primitives = record {
  write_g1 = write_point 96;
  read_g1 = read_point;
  read-write_g1 = read-write_point 96;
  length-write_g1 = λ a. refl;
  write_g2 = write_point 192;
  read_g2 = read_point;
  read-write_g2 = read-write_point 192;
  length-write_g2 = λ a. refl;
  write_fqk = λ a. code a ∷ [];
  serialize_g1 = write_point 47;
  deserialize_g1 = read_point;
  deserialize-serialize_g1 = read-write_point 47;
  serialize_unchecked_g1 = write_point 96;
  serialize_usize = λ n. n ∷ replicate 7 0;
  deserialize_usize = λ bytes. some (first_byte bytes);
  deserialize-serialize_usize = λ n h. refl;
  length-serialize_usize = λ n. refl;
  sha256 = λ bytes. bytes;
  hash_to_g2 = λ bytes. field.add one (decode (first_byte bytes));
  seal_message = seal_message;
  open_message = open_message;
  max_len = 100;
  seal_total = seal_total;
  open-seal = open-seal;
}
