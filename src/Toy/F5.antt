-- ===== src/Toy/F5.antt =====
-- The field of five elements, at which the tests and witnesses run the definitions.
use nucypher_ferveo.Base.{◌≡◌, ◌≢◌, refl, Option, none, some}
use nucypher_ferveo.Algebra.Field.{Field, ◌+◌, ◌*◌}
use nucypher_ferveo.Algebra.Space.{Group, Space, ◌⊕◌}

pub data F5 : Type 0 where
  zero : F5
  one : F5
  two : F5
  three : F5
  four : F5

abbrev next : F5 → F5
next zero = one
next one = two
next two = three
next three = four
next four = zero

abbrev add : F5 → F5 → F5
add zero b = b
add one b = next b
add two b = next (next b)
add three b = next (next (next b))
add four b = next (next (next (next b)))

abbrev pub mul : F5 → F5 → F5
mul zero b = zero
mul one b = b
mul two b = add b b
mul three b = add b (add b b)
mul four b = add b (add b (add b b))

abbrev pub neg : F5 → F5
neg b = mul four b

abbrev inverse : F5 → Option F5
inverse zero = none
inverse one = some one
inverse two = some three
inverse three = some two
inverse four = some four

pub add_assoc : (a b c : F5) → add (add a b) c ≡ add a (add b c)
add_assoc zero zero zero = refl
add_assoc _ zero zero = refl
add_assoc _ _ zero = refl
add_assoc _ _ _ = refl

pub add_comm : (a b : F5) → add a b ≡ add b a
add_comm zero zero = refl
add_comm _ zero = refl
add_comm _ _ = refl

pub add-neg : (a : F5) → add a (neg a) ≡ zero
add-neg zero = refl
add-neg _ = refl

pub mul_assoc : (a b c : F5) → mul (mul a b) c ≡ mul a (mul b c)
mul_assoc zero zero zero = refl
mul_assoc _ zero zero = refl
mul_assoc _ _ zero = refl
mul_assoc _ _ _ = refl

pub mul_comm : (a b : F5) → mul a b ≡ mul b a
mul_comm zero zero = refl
mul_comm _ zero = refl
mul_comm _ _ = refl

pub mul-add : (a b c : F5) → mul a (add b c) ≡ add (mul a b) (mul a c)
mul-add zero zero zero = refl
mul-add _ zero zero = refl
mul-add _ _ zero = refl
mul-add _ _ _ = refl

pub one-ne-zero : one ≢ zero
one-ne-zero e = cc

pub add-mul : (a b c : F5) → mul (add a b) c ≡ add (mul a c) (mul b c)
add-mul zero zero zero = refl
add-mul _ zero zero = refl
add-mul _ _ zero = refl
add-mul _ _ _ = refl

abbrev dec_eq : Discrete F5
dec_eq zero zero = yes refl
dec_eq one one = yes refl
dec_eq two two = yes refl
dec_eq three three = yes refl
dec_eq four four = yes refl
dec_eq a b = no λ e. cc

pub inverse_total : (a : F5) → a ≢ zero → (b : F5) × (inverse a ≡ some b) × (mul a b ≡ one)
inverse_total zero h = absurd (h refl)
inverse_total one h = (one, refl, refl)
inverse_total two h = (three, refl, refl)
inverse_total three h = (two, refl, refl)
inverse_total four h = (four, refl, refl)

instance abbrev pub field : Field F5
field = record {
  zero = zero;
  one = one;
  add = add;
  neg = neg;
  mul = mul;
  inverse = inverse;
  dec_eq = dec_eq;
  add_assoc = add_assoc;
  add_comm = add_comm;
  zero-add = λ a. refl;
  add-neg = add-neg;
  mul_assoc = mul_assoc;
  mul_comm = mul_comm;
  one-mul = λ a. refl;
  mul-add = mul-add;
  one-ne-zero = one-ne-zero;
  inverse-zero = refl;
  inverse_total = inverse_total;
}

instance abbrev pub group : Group F5
group = record {
  zero = zero;
  add = add;
  neg = neg;
  dec_eq = dec_eq;
  add_assoc = add_assoc;
  add_comm = add_comm;
  zero-add = λ a. refl;
  add-neg = add-neg;
}

pub smul-add : (k a b : F5) → mul k (a ⊕ b) ≡ mul k a ⊕ mul k b
unfolding ◌⊕◌
smul-add = mul-add

pub add-smul : (k l a : F5) → mul (k + l) a ≡ mul k a ⊕ mul l a
unfolding ◌⊕◌ ◌+◌
add-smul = add-mul

pub mul-smul : (k l a : F5) → mul (k * l) a ≡ mul k (mul l a)
unfolding ◌*◌
mul-smul = mul_assoc

instance abbrev pub space : Space F5 F5
space = record {
  smul = mul;
  one-smul = λ a. refl;
  smul-add = smul-add;
  add-smul = add-smul;
  mul-smul = mul-smul;
}
