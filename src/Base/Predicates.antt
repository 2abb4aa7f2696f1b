-- ===== src/Base/Predicates.antt =====
-- Lemmas on a predicate of every element of a list.
use Prim.Native.Nat.{ℕ, zero, suc, ◌<◌}
use mathlib.Core.Path.{◌≡◌, refl, subst, ap, ap₂, ◌∙◌, sym}
use mathlib.Core.Logic.{◌⊎◌, inl, inr}
use mathlib.Core.List.{List, [], ◌∷◌, ◌++◌, map}
use nucypher_ferveo.Base.Lists.{All, Distinct, take, drop, take-drop, length, get_elem?}
use mathlib.Core.Option.{some, some-injective}
use native.Mathlib.Omega.{arith}

module _ {ℓ κ} {A : Type ℓ} (P : A → Type κ) where
  pub All-take : (n : ℕ) (xs : List A) → All P xs → All P (take n xs)
  All-take zero xs h = tt
  All-take (suc n) [] h = tt
  All-take (suc n) (x ∷ xs) h = (h.0, All-take n xs h.1)

  pub All-drop : (n : ℕ) (xs : List A) → All P xs → All P (drop n xs)
  All-drop zero xs h = h
  All-drop (suc n) [] h = tt
  All-drop (suc n) (x ∷ xs) h = All-drop n xs h.1

module _ {ℓ κ μ} {A : Type ℓ} (P : A → Type κ) (Q : A → Type μ) where
  pub All-imp : (xs : List A) → ((x : A) → P x → Q x) → All P xs → All Q xs
  All-imp [] h p = tt
  All-imp (x ∷ xs) h p = (h x p.0, All-imp xs h p.1)

  pub All-both : (xs : List A) → All P xs → All Q xs → All (λ x. P x × Q x) xs
  All-both [] p q = tt
  All-both (x ∷ xs) p q = ((p.0, q.0), All-both xs p.1 q.1)

module _ {ℓ κ} {A : Type ℓ} {B : Type κ} where
  pub map-All : (f g : A → B) (xs : List A) → All (λ x. f x ≡ g x) xs → map f xs ≡ map g xs
  map-All f g [] h = refl
  map-All f g (x ∷ xs) h = ap₂ ◌∷◌ h.0 (map-All f g xs h.1)

  map-append : (f : A → B) (xs ys : List A) → map f (xs ++ ys) ≡ map f xs ++ map f ys
  map-append f [] ys = refl
  map-append f (x ∷ xs) ys = ap (◌∷◌ (f x)) (map-append f xs ys)

  pub map-take-drop :
      (f : A → B) (n : ℕ) (xs : List A) → map f (take n xs) ++ map f (drop n xs) ≡ map f xs
  map-take-drop f n xs = sym (map-append f (take n xs) (drop n xs)) ∙ ap (map f) (take-drop n xs)

pub map-map {ℓ κ μ} :
    {A : Type ℓ} {B : Type κ} {C : Type μ} (f : A → B) (g : B → C) (xs : List A)
    → map g (map f xs) ≡ map (λ x. g (f x)) xs
map-map f g [] = refl
map-map f g (x ∷ xs) = ap (◌∷◌ (g (f x))) (map-map f g xs)

-- A predicate of some element, which computes on a list.
abbrev pub Any {ℓ} : {A : Type ℓ} → (A → Type 0) → List A → Type 0
Any P [] = ⊥
Any P (x ∷ xs) = P x ⊎ Any P xs

pub Any-take-drop {ℓ} :
    {A : Type ℓ} (P : A → Type 0) (n : ℕ) (xs : List A)
    → Any P xs
    → Any P (take n xs) ⊎ Any P (drop n xs)
Any-take-drop P zero xs h = inr h
Any-take-drop P (suc n) [] h = absurd h
Any-take-drop P (suc n) (x ∷ xs) (inl p) = inl (inl p)
Any-take-drop P (suc n) (x ∷ xs) (inr h) = elim (Any-take-drop P n xs h) [
  | inl t ↦ inl (inr t)
  | inr d ↦ inr d
]

-- With a fact about every element.
pub Any-imp {ℓ κ} :
    {A : Type ℓ} (S : A → Type κ) (P Q : A → Type 0) (xs : List A)
    → ((x : A) → S x → P x → Q x)
    → All S xs
    → Any P xs
    → Any Q xs
Any-imp S P Q [] h s p = absurd p
Any-imp S P Q (x ∷ xs) h s (inl p) = inl (h x s.0 p)
Any-imp S P Q (x ∷ xs) h s (inr p) = inr (Any-imp S P Q xs h s.1 p)

module _ {ℓ κ} {A : Type ℓ} (P : A → Type κ) where
  -- From the elements by their positions.
  pub All-of-get_elem? :
      (xs : List A)
      → ((i : ℕ) → i < length xs → (x : A) × (get_elem? xs i ≡ some x) × P x)
      → All P xs
  All-of-get_elem? [] h = tt
  All-of-get_elem? (x ∷ xs) h =
      let (y, e, p) = h zero (omega arith) in
      (
        subst P (sym (some-injective x y e)) p,
        All-of-get_elem? xs (λ i lt. h (suc i) (omega arith)),
      )

pub Distinct-take {ℓ} : {A : Type ℓ} (n : ℕ) (xs : List A) → Distinct xs → Distinct (take n xs)
Distinct-take zero xs d = tt
Distinct-take (suc n) [] d = tt
Distinct-take (suc n) (x ∷ xs) d = (All-take _ n xs d.0, Distinct-take n xs d.1)
