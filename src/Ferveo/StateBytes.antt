-- ===== src/Ferveo/StateBytes.antt =====
-- The byte form of the state of a session, ferveo/src/dkg.rs.
use Prim.Native.Nat.{◌+◌}
use nucypher_ferveo.Base.{ℕ, zero, suc, ◌<◌, ◌≡◌, refl, List, ◌++◌, arith}
use nucypher_ferveo.Base.Lists.{length, length-append}
use mathlib.Core.List.{append_assoc}
use nucypher_ferveo.Base.Outcome.{Outcome, ok, err, ◌>>=◌}
use nucypher_ferveo.Base.Words.{u32_mod}
use nucypher_ferveo.Algebra.Engine.{Engine}
use nucypher_ferveo.Ferveo.Session.{DkgState, sharing, dealt, success, invalid}

-- What ark-serialize provides: the byte forms of `u8`, of a pair of `u32` and of a point, and their
-- sizes. A reader returns what it has read and the bytes that are left.
pub record Codec (E : Engine) : Type 1 where
  pub SerializationError : Type 0
  pub invalid_data : SerializationError
  pub serialize_u8 : ℕ → List ℕ
  pub deserialize_u8 : List ℕ → Outcome SerializationError (ℕ × List ℕ)
  pub u8_size : ℕ
  pub serialize_counts : ℕ → ℕ → List ℕ
  pub deserialize_counts : List ℕ → Outcome SerializationError ((ℕ × ℕ) × List ℕ)
  pub counts_size : ℕ
  pub serialize_g1 : E.G1 → List ℕ
  pub deserialize_g1 : List ℕ → Outcome SerializationError (E.G1 × List ℕ)
  pub g1_size : ℕ
  pub deserialize-serialize_u8 :
      (n : ℕ) (rest : List ℕ) → n < 256 → deserialize_u8 (serialize_u8 n ++ rest) ≡ ok (n, rest)
  pub deserialize-serialize_counts :
      (m n : ℕ) (rest : List ℕ)
      → m < u32_mod
      → n < u32_mod
      → deserialize_counts (serialize_counts m n ++ rest) ≡ ok ((m, n), rest)
  pub deserialize-serialize_g1 :
      (a : E.G1) (rest : List ℕ) → deserialize_g1 (serialize_g1 a ++ rest) ≡ ok (a, rest)
  pub length-serialize_u8 : (n : ℕ) → n < 256 → length (serialize_u8 n) ≡ u8_size
  pub length-serialize_counts :
      (m n : ℕ) → m < u32_mod → n < u32_mod → length (serialize_counts m n) ≡ counts_size
  pub length-serialize_g1 : (a : E.G1) → length (serialize_g1 a) ≡ g1_size

module _ (E : Engine) (C : Codec E) where
  unfoldable pub serialize : DkgState E → List ℕ
  serialize (sharing accumulated_shares block) =
      C.serialize_u8 0 ++ C.serialize_counts accumulated_shares block
  serialize dealt = C.serialize_u8 1
  serialize (success final_key) = C.serialize_u8 2 ++ C.serialize_g1 final_key
  serialize invalid = C.serialize_u8 3

  unfoldable pub serialized_size : DkgState E → ℕ
  serialized_size (sharing accumulated_shares block) = C.u8_size + C.counts_size
  serialized_size dealt = C.u8_size
  serialized_size (success final_key) = C.u8_size + C.g1_size
  serialized_size invalid = C.u8_size

  -- The state for a variant, from the bytes after it.
  unfoldable pub deserialize_variant :
      ℕ → List ℕ → Outcome C.SerializationError (DkgState E × List ℕ)
  deserialize_variant zero bytes = do
    ((accumulated_shares, block), rest) ← C.deserialize_counts bytes
    ok (sharing accumulated_shares block, rest)
  deserialize_variant (suc zero) bytes = ok (dealt, bytes)
  deserialize_variant (suc (suc zero)) bytes = do
    (final_key, rest) ← C.deserialize_g1 bytes
    ok (success final_key, rest)
  deserialize_variant (suc (suc (suc zero))) bytes = ok (invalid, bytes)
  deserialize_variant (suc (suc (suc (suc _)))) bytes = err C.invalid_data

  unfoldable pub deserialize : List ℕ → Outcome C.SerializationError (DkgState E × List ℕ)
  unfolding deserialize_variant
  deserialize bytes = do (variant, rest) ← C.deserialize_u8 bytes; deserialize_variant variant rest

  -- The counts of a state are of type u32.
  abbrev pub FitsU32 : DkgState E → Type 0
  FitsU32 (sharing accumulated_shares block) = (accumulated_shares < u32_mod) × (block < u32_mod)
  FitsU32 _ = Unit

  -- A state whose counts are of type u32 is read back from its bytes, which are as many as
  -- `serialized_size` says, and the bytes behind them are left.
  pub deserialize-serialize :
      (state : DkgState E) (rest : List ℕ)
      → FitsU32 state
      → (deserialize (serialize state ++ rest) ≡ ok (state, rest))
        × (length (serialize state) ≡ serialized_size state)
  unfolding deserialize serialize serialized_size
  deserialize-serialize (sharing m n) rest fits = (
    rw
        (
          append_assoc (C.serialize_u8 0) (C.serialize_counts m n) rest,
          C.deserialize-serialize_u8 0 (C.serialize_counts m n ++ rest) (omega arith),
          C.deserialize-serialize_counts m n rest fits.0 fits.1,
        )
        refl,
    omega (
      arith,
      length-append (C.serialize_u8 0) (C.serialize_counts m n),
      C.length-serialize_u8 0 (omega arith),
      C.length-serialize_counts m n fits.0 fits.1,
    ),
  )
  deserialize-serialize dealt rest fits = (
    rw (C.deserialize-serialize_u8 1 rest (omega arith)) refl,
    C.length-serialize_u8 1 (omega arith),
  )
  deserialize-serialize (success key) rest fits = (
    rw
        (
          append_assoc (C.serialize_u8 2) (C.serialize_g1 key) rest,
          C.deserialize-serialize_u8 2 (C.serialize_g1 key ++ rest) (omega arith),
          C.deserialize-serialize_g1 key rest,
        )
        refl,
    omega (
      arith,
      length-append (C.serialize_u8 2) (C.serialize_g1 key),
      C.length-serialize_u8 2 (omega arith),
      C.length-serialize_g1 key,
    ),
  )
  deserialize-serialize invalid rest fits = (
    rw (C.deserialize-serialize_u8 3 rest (omega arith)) refl,
    C.length-serialize_u8 3 (omega arith),
  )
