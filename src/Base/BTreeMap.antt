-- ===== src/Base/BTreeMap.antt =====
-- `BTreeMap` of the Rust standard library with numbers as keys: its entries in the order of the keys.
use Prim.Native.Nat.{◌+◌, ◌≤◌}
use nucypher_ferveo.Base.{ℕ, zero, suc, ◌<◌, ◌≡◌, refl, Bool, true, false, List, [], ◌∷◌, arith}
use nucypher_ferveo.Base.Tests.{ltb, ◌==◌, if◌then◌else◌}
use nucypher_ferveo.Base.Lists.{length, All}

abbrev pub BTreeMap {ℓ} : Type ℓ → Type ℓ
BTreeMap V = List (ℕ × V)

module _ {ℓ} {V : Type ℓ} where
  unfoldable pub insert : ℕ → V → BTreeMap V → BTreeMap V
  insert k v [] = (k, v) ∷ []
  insert k v ((j, w) ∷ m) =
      let rest = insert k v m in
      if k == j then (k, v) ∷ m else if ltb k j then (k, v) ∷ (j, w) ∷ m else (j, w) ∷ rest

  unfoldable pub contains_key : ℕ → BTreeMap V → Bool
  contains_key k [] = false
  contains_key k ((j, w) ∷ m) = let rest = contains_key k m in if k == j then true else rest

  -- The keys grow along the list.
  abbrev pub IsSorted : BTreeMap V → Type 0
  IsSorted [] = Unit
  IsSorted ((j, w) ∷ m) = All (λ e. j < e.0) m × IsSorted m

  All-later : (k j : ℕ) (m : BTreeMap V) → k < j → All (λ e. j < e.0) m → All (λ e. k < e.0) m
  All-later k j [] h a = tt
  All-later k j (e ∷ m) h a = (omega arith, All-later k j m h a.1)

  insert_above :
      (i k : ℕ) (v : V) (m : BTreeMap V)
      → i < k
      → All (λ e. i < e.0) m
      → All (λ e. i < e.0) (insert k v m)
  unfolding insert
  insert_above i k v [] h a = (h, tt)
  insert_above i k v ((j, w) ∷ m) h a = ground (arith, insert_above i k v m h a.1)

  pub insert-IsSorted : (k : ℕ) (v : V) (m : BTreeMap V) → IsSorted m → IsSorted (insert k v m)
  unfolding insert
  insert-IsSorted k v [] s = (tt, tt)
  insert-IsSorted k v ((j, w) ∷ m) s =
      ground (arith, insert-IsSorted k v m s.1, insert_above j k v m, All-later k j m)

  -- A new key makes the map longer by one.
  pub length-insert_fresh :
      (k : ℕ) (v : V) (m : BTreeMap V)
      → contains_key k m ≡ false
      → length (insert k v m) ≡ suc (length m)
  unfolding insert contains_key
  length-insert_fresh k v [] h = refl
  length-insert_fresh k v ((j, w) ∷ m) h = ground (arith, length-insert_fresh k v m)

  none_later : (k j : ℕ) (m : BTreeMap V) → k < j → All (λ e. j < e.0) m → contains_key k m ≡ false
  unfolding contains_key
  none_later k j [] h a = refl
  none_later k j ((i, w) ∷ m) h a = ground (arith, none_later k j m h a.1)

  -- A key that is there keeps the length of a sorted map.
  pub length-insert_present :
      (k : ℕ) (v : V) (m : BTreeMap V)
      → IsSorted m
      → contains_key k m ≡ true
      → length (insert k v m) ≡ length m
  unfolding insert contains_key
  length-insert_present k v [] s h = cc
  length-insert_present k v ((j, w) ∷ m) s h =
      ground (arith, length-insert_present k v m s.1, none_later k j m)

  pub contains_key-insert : (k : ℕ) (v : V) (m : BTreeMap V) → contains_key k (insert k v m) ≡ true
  unfolding insert contains_key
  contains_key-insert k v [] = ground arith
  contains_key-insert k v ((j, w) ∷ m) = ground (arith, contains_key-insert k v m)

  length_above :
      (i n : ℕ) (m : BTreeMap V)
      → i < n
      → IsSorted m
      → All (λ e. i < e.0) m
      → All (λ e. e.0 < n) m
      → i + length m < n
  length_above i n [] lt s above below = omega arith
  length_above i n ((j, w) ∷ m) lt s above below =
      omega (arith, length_above j n m below.0 s.1 s.0 below.1, above.0)

  -- A sorted map whose keys are below a bound has at most that many entries.
  pub length-le : (n : ℕ) (m : BTreeMap V) → IsSorted m → All (λ e. e.0 < n) m → length m ≤ n
  length-le n [] s below = omega arith
  length-le n ((j, w) ∷ m) s below = omega (arith, length_above j n m below.0 s.1 s.0 below.1)

module _ {ℓ} {V : Type ℓ} where
  -- A key that is there stays.
  pub contains_key-insert_keep :
      (i k : ℕ) (v : V) (m : BTreeMap V)
      → contains_key i m ≡ true
      → contains_key i (insert k v m) ≡ true
  unfolding insert contains_key
  contains_key-insert_keep i k v [] h = cc
  contains_key-insert_keep i k v ((j, w) ∷ m) h = ground (arith, contains_key-insert_keep i k v m)

  tail_contains :
      (i lo j : ℕ) (w : V) (m : BTreeMap V)
      → lo < i
      → j ≡ lo
      → contains_key i ((j, w) ∷ m) ≡ true
      → contains_key i m ≡ true
  unfolding contains_key
  tail_contains i lo j w m lt e h = ground arith

  head_key :
      (lo j : ℕ) (w : V) (m : BTreeMap V)
      → lo ≤ j
      → All (λ e. j < e.0) m
      → contains_key lo ((j, w) ∷ m) ≡ true
      → j ≡ lo
  unfolding contains_key
  head_key lo j w m le above h = ground (arith, none_later lo j m)

  above_head :
      (lo j : ℕ) (m : BTreeMap V) → lo ≤ j → All (λ e. j < e.0) m → All (λ e. suc lo ≤ e.0) m
  above_head lo j [] le a = tt
  above_head lo j (e ∷ m) le a = (omega (arith, a.0), above_head lo j m le a.1)

  -- A sorted map with every key from one number up to another has as many entries.
  pub length-ge :
      (n lo : ℕ) (m : BTreeMap V)
      → IsSorted m
      → All (λ e. lo ≤ e.0) m
      → ((i : ℕ) → lo ≤ i → i < lo + n → contains_key i m ≡ true)
      → n ≤ length m
  length-ge zero lo m s above h = omega arith
  length-ge (suc n) lo [] s above h =
      absurd (unfold contains_key in nowhere (h lo (omega arith) (omega arith)))
    where
      nowhere : false ≡ true → ⊥
      nowhere e = cc
  length-ge (suc n) lo ((j, w) ∷ m) s above h =
      let e = head_key lo j w m above.0 s.0 (h lo (omega arith) (omega arith)) in
      omega (
        arith,
        length-ge n (suc lo) m s.1 (above_head lo j m above.0 s.0)
            (λ i le lt. tail_contains i lo j w m (omega arith) e (h i (omega arith) (omega arith))),
      )

module _ {ℓ κ} {V : Type ℓ} (P : ℕ × V → Type κ) where
  pub All-insert : (k : ℕ) (v : V) (m : BTreeMap V) → P (k, v) → All P m → All P (insert k v m)
  unfolding insert
  All-insert k v [] p a = (p, tt)
  All-insert k v ((j, w) ∷ m) p a = ground (arith, All-insert k v m p a.1)
