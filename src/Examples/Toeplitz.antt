-- ===== src/Examples/Toeplitz.antt =====
-- `toeplitz_mul` (subproductdomain/src/lib.rs) at a concrete input.
use nucypher_ferveo.Base.{ℕ, suc, ◌<◌, ◌≡◌, ◌≢◌, refl, List, [], ◌∷◌, arith}
use Prim.Native.Nat.{◌+◌ as ◌+ℕ◌}
use nucypher_ferveo.Base.Lists.{length, drop}
use nucypher_ferveo.Base.Outcome.{ok}
use nucypher_ferveo.Algebra.Field.{◌+◌}
use nucypher_ferveo.Algebra.Field.Inverse.{inv}
use nucypher_ferveo.Algebra.Cyclic.Entries.{point_at}
use nucypher_ferveo.Algebra.Cyclic.Sums.{inner}
use nucypher_ferveo.Toy.F5.{F5, one, two, three, four, field, group, space}
use nucypher_ferveo.Toy.Instances.{engine}
use nucypher_ferveo.Toy.Polynomials.{dense}
use nucypher_ferveo.Toy.Transforms.{radix2_domain, radix2_domains}
use nucypher_ferveo.Subproduct.Toeplitz.{toeplitz_mul}
use nucypher_ferveo.Subproduct.Toeplitz.Product.{toeplitz_mul-inner}

four_ne_zero : dense.from 4 ≢ F5.zero
unfolding ◌+◌
four_ne_zero e = cc

-- A polynomial of degree two and two points.
toeplitz_mul-inner_example :
    (out : List F5) × (toeplitz_mul engine dense radix2_domains
        (one ∷ two ∷ four ∷ [])
        (three ∷ two ∷ [])
        1
      ≡ ok (out, inv (dense.from 4)))
    × (length out +ℕ length out ≡ 4)
    × ((i : ℕ)
        → i < length out
        → point_at out i ≡ inner (drop (suc i) (one ∷ two ∷ four ∷ [])) (three ∷ two ∷ []))
toeplitz_mul-inner_example =
    toeplitz_mul-inner engine dense radix2_domains one (two ∷ four ∷ []) (three ∷ two ∷ []) 1
      radix2_domain (omega arith) (omega arith) (omega arith) (λ e. cc) refl four_ne_zero
