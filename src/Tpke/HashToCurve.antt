-- ===== src/Tpke/HashToCurve.antt =====
-- tpke/src/hash_to_curve.rs: the hash of a message to a point of the second group of bls12-381.
pub mod Chunks
use Prim.Native.Nat.{◌+◌, ◌*◌, ◌/◌, ◌%◌}
use nucypher_ferveo.Base.{ℕ, zero, suc, ◌≤◌, ◌≡◌, Option, none, some, List, [], ◌∷◌, ◌++◌}
use mathlib.Core.List.{reverse}
use nucypher_ferveo.Subproduct.Circulant.{set?}
use nucypher_ferveo.Base.Tests.{◌==◌}
use nucypher_ferveo.Base.Lists.{length, get_elem?, take, drop, replicate}
use nucypher_ferveo.Base.Panics.{◌>>=◌, ◌>>◌, assert}

-- What miracl_core provides for the curve: sizes in bits, the expansion of a message into the front of
-- a buffer by the hash that the program chooses, field elements from bytes modulo the field, and points
-- with their compressed bytes. `ark_deserialize` is the reading of a point in ark_bls12_381, and `dst`
-- the bytes of the tag.
pub record Curve : Type 1 where
  pub Fp : Type 0
  pub Fp2 : Type 0
  pub Point : Type 0
  pub ArkPoint : Type 0
  pub modulus_nbits : ℕ
  pub curve_order_nbits : ℕ
  pub dst : List ℕ
  pub expanded : ℕ → List ℕ → List ℕ → List ℕ
  pub xmd_expand : List ℕ → ℕ → List ℕ → List ℕ → Option (List ℕ)
  pub fp_of : List ℕ → Fp
  pub new_fps : Fp → Fp → Fp2
  pub new_fp2 : Fp2
  pub map2point : Fp2 → Point
  pub add : Point → Point → Point
  pub cfp : Point → Point
  pub affine : Point → Point
  pub to_bytes : Point → List ℕ
  pub ark_deserialize : List ℕ → Option ArkPoint
  pub length-expanded : (n : ℕ) (d m : List ℕ) → length (expanded n d m) ≡ n
  pub length-to_bytes : (p : Point) → length (to_bytes p) ≡ 97
  pub xmd_expand_lem :
      (okm : List ℕ) (n : ℕ) (d m : List ℕ)
      → n ≤ length okm
      → xmd_expand okm n d m ≡ some (expanded n d m ++ drop n okm)

-- 2^64
abbrev pub usize_mod : ℕ
usize_mod = 18446744073709551616

-- `a - 1` wraps as in a release build.
unfoldable pub ceil : ℕ → ℕ → ℕ
ceil a b = ((a + 18446744073709551615) % usize_mod / b + 1) % usize_mod

-- The loop `fd[j] = okm[offset + j]`, for the indices from j on that are left.
unfoldable pub copy_bytes : List ℕ → ℕ → List ℕ → ℕ → ℕ → Option (List ℕ)
copy_bytes okm offset fd j zero = some fd
copy_bytes okm offset fd j (suc left) = do
  byte ← get_elem? okm (offset + j)
  fd' ← set? j byte fd
  copy_bytes okm offset fd' (suc j) left

module _ (C : Curve) where
  open C use {Fp2, Point, ArkPoint, fp_of, new_fps, new_fp2, map2point}

  -- `L`
  unfoldable pub element_length : ℕ
  element_length = ceil (C.modulus_nbits + ceil C.curve_order_nbits 2) 8

  -- The loop over `i`, for the elements that are left.
  unfoldable pub fill_elements : ℕ → List ℕ → List ℕ → List Fp2 → ℕ → ℕ → Option (List Fp2)
  fill_elements l okm fd u i zero = some u
  fill_elements l okm fd u i (suc left) = do
    fd1 ← copy_bytes okm (2 * i * l) fd 0 l
    let w1 = fp_of (take l fd1)
    fd2 ← copy_bytes okm ((2 * i + 1) * l) fd1 0 l
    let w2 = fp_of (take l fd2)
    u' ← set? i (new_fps w1 w2) u
    fill_elements l okm fd2 u' (suc i) left

  unfoldable pub hash_to_field2_bls12381 : List ℕ → List ℕ → ℕ → Option (List Fp2)
  hash_to_field2_bls12381 dst msg ctr = do
    let l = element_length
    okm ← C.xmd_expand (replicate 512 0) (2 * l * ctr) dst msg
    fill_elements l okm (replicate 256 0) (new_fp2 ∷ new_fp2 ∷ []) 0 ctr

  -- The bytes of a point in the order of ark_bls12_381; `clone_from_slice` panics unless the lengths
  -- are the same.
  unfoldable pub reverse_halves : List ℕ → Option (List ℕ)
  reverse_halves compressed = do
    let compressed_rev : List ℕ = drop 1 compressed
    assert (length compressed_rev == 96)
    some (reverse (take 48 compressed_rev) ++ reverse (drop 48 compressed_rev))

  unfoldable pub htp_bls12381_g2 : List ℕ → Option ArkPoint
  htp_bls12381_g2 msg = do
    u ← hash_to_field2_bls12381 C.dst msg 2
    u0 ← get_elem? u 0
    u1 ← get_elem? u 1
    let p : Point = C.affine (C.cfp (C.add (map2point u0) (map2point u1)))
    compressed_rev ← reverse_halves (C.to_bytes p)
    C.ark_deserialize compressed_rev
