-- ===== src/Ferveo/Threshold/Keys.antt =====
-- The keypairs of the validators of a session (ferveo/src/lib.rs).
use Prim.Native.Nat.{◌+◌}
use nucypher_ferveo.Base.{ℕ, zero, suc, ◌≡◌, ◌≢◌, ◌<◌, ◌≤◌, refl, ap, List, [], ◌∷◌, arith}
use nucypher_ferveo.Base.Tests.{→is_yes}
use nucypher_ferveo.Base.Lists.{length, take, All}
use nucypher_ferveo.Base.Outcome.{ok}
use nucypher_ferveo.Algebra.Engine.{Engine}
use nucypher_ferveo.Ferveo.Common.{Validator, Keypair, public}
use nucypher_ferveo.Ferveo.Threshold.{check_keypairs}

module _ (E : Engine) where
  open E use {Fr, G2}

  -- The keypairs are those of the validators, whose indices count up, and the decryption keys are
  -- not zero.
  abbrev pub AreKeysOf : ℕ → List (Validator E) → List (Keypair E) → Type 0
  AreKeysOf i [] [] = Unit
  AreKeysOf i (v ∷ validators) (k ∷ keypairs) =
      ((v.share_index ≡ i)
        × (v.validator.public_key ≡ public E k)
        × (k.decryption_key ≢ E.field.zero))
      × AreKeysOf (suc i) validators keypairs
  AreKeysOf i _ _ = ⊥

  pub length-keys :
      (i : ℕ) (validators : List (Validator E)) (keypairs : List (Keypair E))
      → AreKeysOf i validators keypairs
      → length keypairs ≡ length validators
  length-keys i [] [] keys = refl
  length-keys i [] (k ∷ keypairs) keys = absurd keys
  length-keys i (v ∷ validators) [] keys = absurd keys
  length-keys i (v ∷ validators) (k ∷ keypairs) keys =
      ap suc (length-keys (suc i) validators keypairs keys.1)

  pub AreKeysOf-take :
      (n i : ℕ) (validators : List (Validator E)) (keypairs : List (Keypair E))
      → AreKeysOf i validators keypairs
      → AreKeysOf i (take n validators) (take n keypairs)
  AreKeysOf-take zero i validators keypairs keys = tt
  AreKeysOf-take (suc n) i [] [] keys = tt
  AreKeysOf-take (suc n) i [] (k ∷ keypairs) keys = absurd keys
  AreKeysOf-take (suc n) i (v ∷ validators) [] keys = absurd keys
  AreKeysOf-take (suc n) i (v ∷ validators) (k ∷ keypairs) keys =
      (keys.0, AreKeysOf-take n (suc i) validators keypairs keys.1)

  pub check_keypairs-ok :
      (i : ℕ) (validators : List (Validator E)) (keypairs : List (Keypair E))
      → AreKeysOf i validators keypairs
      → check_keypairs E validators keypairs ≡ ok tt
  unfolding check_keypairs
  check_keypairs-ok i [] [] keys = refl
  check_keypairs-ok i [] (k ∷ keypairs) keys = absurd keys
  check_keypairs-ok i (v ∷ validators) [] keys = absurd keys
  check_keypairs-ok i (v ∷ validators) (k ∷ keypairs) ((_, key, _), keys) =
      rw (→is_yes (E.group2.dec_eq _ _) (ap (λ p. p.encryption_key) key))
        (check_keypairs-ok (suc i) validators keypairs keys)

  pub keys_fit :
      (i n : ℕ) (validators : List (Validator E)) (keypairs : List (Keypair E))
      → AreKeysOf i validators keypairs
      → i + length validators ≤ n
      → All (λ v. v.share_index < n) validators
  keys_fit i n [] keypairs keys le = tt
  keys_fit i n (v ∷ validators) [] keys le = absurd keys
  keys_fit i n (v ∷ validators) (k ∷ keypairs) ((index, _, _), keys) le =
      (omega (arith, index, le), keys_fit (suc i) n validators keypairs keys (omega (arith, le)))
