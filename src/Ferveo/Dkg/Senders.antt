-- ===== src/Ferveo/Dkg/Senders.antt =====
-- The sender of a message among the validators: `verify_message` compares whole validators and
-- `apply_message` their addresses (ferveo/src/dkg/pv.rs).
use text.Mathlib.Text.{◌==◌ as str_eq}
use mathlib.Core.Option.{some-injective}
use text.Mathlib.TextEquality.{eq_iff}
use Prim.Native.String.{String}
use nucypher_ferveo.Base.{
  ℕ, zero, suc, ◌<◌, ◌≡◌, ◌≢◌, ◌⊎◌, inl, inr, refl, sym, ap, ◌∙◌, Bool, true, false, Option, none,
  some, List, [], ◌∷◌, map, arith,
}
use nucypher_ferveo.Base.Tests.{if◌then◌else◌, Bool-cases, →is_yes}
use nucypher_ferveo.Base.Lists.{length, get_elem?, All, Distinct}
use nucypher_ferveo.Algebra.Engine.{Engine}
use nucypher_ferveo.Ferveo.Common.{ExternalValidator, Validator, same_validator}
use nucypher_ferveo.Ferveo.Dkg.{position}

-- What a search over a list that finds an element has found: its head, or an element of its tail.
abbrev Found : Bool → Option ℕ → ℕ → Type 0
Found b later i =
    ((b ≡ true) × (i ≡ 0)) ⊎ ((b ≡ false) × ((j : ℕ) × (later ≡ some j) × (i ≡ suc j)))

found :
    (b : Bool) (later : Option ℕ) {i : ℕ}
    → (if b then some 0 else elim later [ none ↦ none | some j ↦ some (suc j) ]) ≡ some i
    → Found b later i
found true later h = inl (refl, cc)
found false none h = cc
found false (some j) h = inr (refl, (j, refl, cc))

module _ {ℓ} {A : Type ℓ} where
  position-cons :
      (p : A → Bool) (x : A) (xs : List A) {i : ℕ}
      → position p (x ∷ xs) ≡ some i
      → Found (p x) (position p xs) i
  unfolding position
  position-cons p x xs h = found (p x) (position p xs) h

  pub position-lt : (p : A → Bool) (xs : List A) {i : ℕ} → position p xs ≡ some i → i < length xs
  unfolding position
  position-lt p [] h = cc
  position-lt p (x ∷ xs) h = elim (position-cons p x xs h) [
    | inl (e, z) ↦ omega arith
    | inr (e, (j, f, z)) ↦ omega (arith, position-lt p xs f)
  ]

  -- An element that passes the test stands in a list where the search succeeds.
  none_of :
      (p q : A → Bool) (xs : List A) {i : ℕ}
      → ((x : A) → p x ≡ true → q x ≡ true)
      → All (λ x. q x ≡ false) xs
      → position p xs ≡ some i
      → ⊥
  unfolding position
  none_of p q [] pq none_q h = cc
  none_of p q (x ∷ xs) pq none_q h = elim (position-cons p x xs h) [
    | inl (e, z) ↦ cc (pq x e, none_q.0)
    | inr (e, (j, f, z)) ↦ none_of p q xs pq none_q.1 f
  ]

  -- At most one element passes the test.
  abbrev pub Unique : (A → Bool) → List A → Type ℓ
  Unique q [] = Unit
  Unique q (x ∷ xs) = (q x ≡ true → All (λ y. q y ≡ false) xs) × Unique q xs

  -- A stricter test that finds an element finds the one that the test finds.
  pub position_stricter :
      (p q : A → Bool) (xs : List A) {i : ℕ}
      → ((x : A) → p x ≡ true → q x ≡ true)
      → Unique q xs
      → position p xs ≡ some i
      → position q xs ≡ some i
  unfolding position
  position_stricter p q [] pq unique h = cc
  position_stricter p q (x ∷ xs) pq unique h = elim (position-cons p x xs h) [
    | inl (e, z) ↦ rw (pq x e, z) refl
    | inr (e, (j, f, z)) ↦ elim (Bool-cases (q x)) [
      | inl passes ↦ absurd (none_of p q xs pq (unique.0 passes) f)
      | inr fails ↦ rw (fails, position_stricter p q xs pq unique.1 f, z) refl
    ]
  ]

module _ (E : Engine) where
  abbrev pub address_of : Validator E → String
  address_of v = v.validator.address

  abbrev pub addresses : List (Validator E) → List String
  addresses validators = map address_of validators

  others :
      (address : String) (v : Validator E) (vs : List (Validator E))
      → All (λ a. address_of v ≢ a) (addresses vs)
      → str_eq address (address_of v) ≡ true
      → All (λ w. str_eq address (address_of w) ≡ false) vs
  others address v [] d h = tt
  others address v (w ∷ vs) d h = (
    elim (Bool-cases (str_eq address (address_of w))) [
      | inl e ↦
          absurd
            (d.0 (sym ((eq_iff address (address_of v)).0 h) ∙ (eq_iff address (address_of w)).0 e))
      | inr e ↦ e
    ],
    others address v vs d.1 h,
  )

  Distinct-Unique :
      (address : String) (vs : List (Validator E))
      → Distinct (addresses vs)
      → Unique (λ w. str_eq address (address_of w)) vs
  Distinct-Unique address [] d = tt
  Distinct-Unique address (v ∷ vs) d =
      ((λ h. others address v vs d.0 h), Distinct-Unique address vs d.1)

  same_address :
      (sender : ExternalValidator E) (v : Validator E)
      → same_validator E sender v.validator ≡ true
      → str_eq sender.address (address_of v) ≡ true
  unfolding same_validator
  same_address sender v h = ground arith

  -- Where the addresses are distinct, both searches find the same index.
  pub position-same_validator :
      (sender : ExternalValidator E) (vs : List (Validator E)) {i : ℕ}
      → Distinct (addresses vs)
      → position (λ v. same_validator E sender v.validator) vs ≡ some i
      → position (λ v. str_eq sender.address v.validator.address) vs ≡ some i
  position-same_validator sender vs d h =
      position_stricter _ _ vs (same_address sender) (Distinct-Unique sender.address vs d) h

  itself : (v : Validator E) → same_validator E v.validator v.validator ≡ true
  unfolding same_validator
  itself v =
      rw
        (
          (eq_iff v.validator.address v.validator.address).1 refl,
          →is_yes
              (E.group2.dec_eq v.validator.public_key.encryption_key
                v.validator.public_key.encryption_key)
              refl,
        )
        refl

  another :
      (w : Validator E) (vs : List (Validator E)) (i : ℕ) (v : Validator E)
      → All (λ a. address_of w ≢ a) (addresses vs)
      → get_elem? vs i ≡ some v
      → same_validator E v.validator w.validator ≡ false
  unfolding same_validator
  another w [] i v d h = cc
  another w (u ∷ vs) zero v d h = elim (Bool-cases (str_eq (address_of v) (address_of w))) [
    | inl e ↦ absurd (
        d.0 (
          sym ((eq_iff (address_of v) (address_of w)).0 e)
          ∙ sym (ap address_of (some-injective u v h))))
    | inr e ↦ rw e refl
  ]
  another w (u ∷ vs) (suc i) v d h = another w vs i v d.1 h

  -- A validator is found under its own index.
  pub position-get_elem? :
      (vs : List (Validator E)) (i : ℕ) (v : Validator E)
      → Distinct (addresses vs)
      → get_elem? vs i ≡ some v
      → position (λ w. same_validator E v.validator w.validator) vs ≡ some i
  unfolding position
  position-get_elem? [] i v d h = cc
  position-get_elem? (w ∷ vs) zero v d h =
      rw (ap (λ u. same_validator E v.validator u.validator) (some-injective w v h), itself v) refl
  position-get_elem? (w ∷ vs) (suc i) v d h =
      rw (another w vs i v d.0 h, position-get_elem? vs i v d.1 h) refl
