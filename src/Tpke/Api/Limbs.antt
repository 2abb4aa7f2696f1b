-- ===== src/Tpke/Api/Limbs.antt =====
-- A scalar as four numbers of 64 bits, and these as bytes, as tpke/src/api.rs reads them.
use Prim.Native.Nat.{◌+◌, ◌*◌, ◌/◌, ◌%◌, ◌^◌}
use native.Mathlib.Nat.{pow-suc}
use nucypher_ferveo.Base.{
  ℕ, zero, suc, ◌≤◌, ◌<◌, ◌≡◌, refl, ap, ◌∙◌, Option, some, List, [], ◌∷◌, ◌++◌, arith,
}
use nucypher_ferveo.Base.Tests.{◌==◌, eq→==}
use nucypher_ferveo.Base.Lists.{length, take, drop, All, length-append, take-append, drop-append}
use nucypher_ferveo.Base.Panics.{◌>>=◌, ◌>>◌, assert}
use nucypher_ferveo.Algebra.Engine.{Engine}

-- `u64::to_le_bytes`, with the number of bytes.
unfoldable pub to_le_bytes : ℕ → ℕ → List ℕ
to_le_bytes zero n = []
to_le_bytes (suc count) n = n % 256 ∷ to_le_bytes count (n / 256)

-- `u64::from_le_bytes`
unfoldable pub from_le_bytes : List ℕ → ℕ
from_le_bytes [] = 0
from_le_bytes (b ∷ bytes) = b + 256 * from_le_bytes bytes

unfoldable pub write_limbs : List ℕ → List ℕ
unfolding to_le_bytes
write_limbs [] = []
write_limbs (limb ∷ limbs) = to_le_bytes 8 limb ++ write_limbs limbs

-- The bytes in chunks of 8, each as a number; a chunk of another length is a panic. The number of
-- bytes is fuel enough, since a chunk has at least one.
unfoldable pub read_chunks : ℕ → List ℕ → Option (List ℕ)
unfolding from_le_bytes
read_chunks zero bytes = some []
read_chunks (suc fuel) [] = some []
read_chunks (suc fuel) (b ∷ bytes) = do
  assert (length (take 8 (b ∷ bytes)) == 8)
  limbs ← read_chunks fuel (drop 8 (b ∷ bytes))
  some (from_le_bytes (take 8 (b ∷ bytes)) ∷ limbs)

-- `Fr` of ark-bls12-381 in its representation, `Fr::new(BigInteger256::new(limbs))` and the field
-- `0` of a scalar; `ToBytes::write` writes the limbs in order, each in little-endian bytes.
pub record Representation (E : Engine) : Type 0 where
  pub limbs : E.Fr → List ℕ
  pub of_limbs : List ℕ → E.Fr
  pub write : E.Fr → List ℕ
  pub length-limbs : (a : E.Fr) → length (limbs a) ≡ 4
  pub limbs_bounded : (a : E.Fr) → All (λ limb. limb < 2 ^ 64) (limbs a)
  pub of_limbs-limbs : (a : E.Fr) → of_limbs (limbs a) ≡ a
  pub write-limbs : (a : E.Fr) → write a ≡ write_limbs (limbs a)

length-to_le_bytes : (count n : ℕ) → length (to_le_bytes count n) ≡ count
unfolding to_le_bytes
length-to_le_bytes zero n = refl
length-to_le_bytes (suc count) n = ap suc (length-to_le_bytes count (n / 256))

from_le_bytes-to_le_bytes :
    (count n : ℕ) → n < 256 ^ count → from_le_bytes (to_le_bytes count n) ≡ n
unfolding to_le_bytes from_le_bytes
from_le_bytes-to_le_bytes zero n h = omega arith
from_le_bytes-to_le_bytes (suc count) n h =
    omega (arith, from_le_bytes-to_le_bytes count (n / 256) (omega (arith, h, pow-suc 256 count)))

pub length-write_limbs : (limbs : List ℕ) → length (write_limbs limbs) ≡ 8 * length limbs
unfolding write_limbs
length-write_limbs [] = refl
length-write_limbs (limb ∷ limbs) = omega (
  arith,
  length-append (to_le_bytes 8 limb) (write_limbs limbs),
  length-to_le_bytes 8 limb,
  length-write_limbs limbs,
)

-- Numbers of 64 bits are read back from their bytes.
pub read_chunks-write_limbs :
    (fuel : ℕ) (limbs : List ℕ)
    → length limbs ≤ fuel
    → All (λ limb. limb < 2 ^ 64) limbs
    → read_chunks fuel (write_limbs limbs) ≡ some limbs
unfolding write_limbs read_chunks
read_chunks-write_limbs zero [] le h = refl
read_chunks-write_limbs zero (limb ∷ limbs) le h = absurd (omega arith)
read_chunks-write_limbs (suc fuel) [] le h = refl
read_chunks-write_limbs (suc fuel) (limb ∷ limbs) le h =
    chunk (to_le_bytes 8 limb) (write_limbs limbs) (length-to_le_bytes 8 limb)
      (read_chunks-write_limbs fuel limbs (omega arith) h.1)
    ∙ ap (λ n. some (n ∷ limbs)) (from_le_bytes-to_le_bytes 8 limb h.0)
  where
    chunk :
        (bytes rest : List ℕ)
        → length bytes ≡ 8
        → read_chunks fuel rest ≡ some limbs
        → read_chunks (suc fuel) (bytes ++ rest) ≡ some (from_le_bytes bytes ∷ limbs)
    chunk [] rest e r = absurd (omega arith)
    chunk (b ∷ bytes) rest e r =
        rw
          (
            take-append 7 bytes rest (omega (arith, e)),
            drop-append 7 bytes rest (omega (arith, e)),
            eq→== (length (b ∷ bytes)) 8 e,
            r,
          )
          refl
