-- ===== src/Subproduct/Toeplitz.antt =====
-- `toeplitz_mul` of subproductdomain/src/lib.rs.
pub mod Points
pub mod Product
use Prim.Native.Nat.{◌+◌ as ◌+ℕ◌, ◌-◌ as ◌-ℕ◌, ◌*◌ as ◌*ℕ◌, ◌/◌, ◌%◌, ◌^◌}
use mathlib.Core.List.{reverse}
use nucypher_ferveo.Base.{ℕ, List, [], ◌∷◌, ◌++◌}
use nucypher_ferveo.Base.Tests.{leb, if◌then◌else◌}
use nucypher_ferveo.Base.Lists.{length, take, replicate, resize}
use nucypher_ferveo.Base.Outcome.{Outcome, ok, ◌>>=◌, ◌>>◌, ok_or, unwrap, assert}
use nucypher_ferveo.Algebra.Field.{Field}
use nucypher_ferveo.Algebra.Space.{Group, Space, ◌•◌}
use nucypher_ferveo.Algebra.Engine.{Engine}
use nucypher_ferveo.Algebra.Domain.{Radix2Domains}
use nucypher_ferveo.Algebra.DensePolynomials.{DensePolynomials}
use nucypher_ferveo.Subproduct.Circulant.{build_circulant}

-- The text of the error.
pub data ToeplitzError : Type 0 where
  too_large_a_domain : ToeplitzError

abbrev pub max : ℕ → ℕ → ℕ
max a b = if leb a b then b else a

module _ {F G : Type 0} ⦃f : Field F⦄ ⦃g : Group G⦄ ⦃s : Space F G⦄ where
  -- The loop over the two transforms, which ends with the shorter of them.
  unfoldable pub scale_points : List G → List F → List G
  scale_points (t ∷ ts) (c ∷ cs) = (c • t) ∷ scale_points ts cs
  scale_points ts _ = ts

module _ {G : Type 0} ⦃g : Group G⦄ where
  -- Zeros to the size of the matrix, and the points in reverse.
  unfoldable pub pad_reversed : ℕ → List G → List G
  pad_reversed toeplitz_size v = replicate (toeplitz_size -ℕ length v) g.zero ++ reverse v

module _ (E : Engine) (D : DensePolynomials E.Fr ⦃f = E.field⦄) (domains : Radix2Domains E) where
  open E use {Fr, G1}

  instance abbrev fr : Field Fr
  fr = E.field

  instance abbrev g1 : Group G1
  g1 = E.group1

  instance abbrev s1 : Space Fr G1
  s1 = E.space1

  -- `usize` wraps. With more points than columns the loop that pads them does not end in the memory
  -- there is, a panic.
  unfoldable pub toeplitz_mul : List Fr → List G1 → ℕ → Outcome ToeplitzError (List G1 × Fr)
  unfolding pad_reversed scale_points
  toeplitz_mul polynomial v size_asked = do
    let m : ℕ = (length polynomial +ℕ 2 ^ 64 -ℕ 1) % 2 ^ 64
    let size : ℕ = max size_asked m
    d ← ok_or (domains.new ((2 *ℕ size) % 2 ^ 64)) too_large_a_domain
    let circulant_size : ℕ = d.domain.size
    let toeplitz_size : ℕ = circulant_size / 2
    circulant ← unwrap (build_circulant D polynomial toeplitz_size)
    assert (leb (length v) toeplitz_size)
    let tmp : List G1 = resize circulant_size g1.zero (pad_reversed toeplitz_size v)
    let tmp : List G1 = d.domain.fft_in_place tmp
    let circulant : List Fr = d.fft_scalars circulant
    let tmp : List G1 = d.ifft_in_place (scale_points tmp circulant)
    size_inv ← unwrap (fr.inverse (D.from circulant_size))
    ok (take toeplitz_size tmp, size_inv)
