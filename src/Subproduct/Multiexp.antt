-- ===== src/Subproduct/Multiexp.antt =====
-- `fast_multiexp` of subproductdomain/src/lib.rs.
use nucypher_ferveo.Base.{◌≡◌, List, map}
use nucypher_ferveo.Base.Lists.{length}
use nucypher_ferveo.Algebra.Field.{Field}
use nucypher_ferveo.Algebra.Space.{Group, Space, ◌•◌}
use nucypher_ferveo.Algebra.Domain.{FixedBaseMsm}

module _ {F G : Type 0} ⦃f : Field F⦄ ⦃g : Group G⦄ ⦃s : Space F G⦄ (M : FixedBaseMsm F G) where
  unfoldable pub fast_multiexp : List F → G → List G
  fast_multiexp scalars base =
      let window_size = M.get_mul_window_size (length scalars) in
      let base_table = M.get_window_table M.size_in_bits window_size base in
      M.multi_scalar_mul M.size_in_bits window_size base_table scalars

  pub fast_multiexp_lem :
      (scalars : List F) (base : G) → fast_multiexp scalars base ≡ map (λ k. k • base) scalars
  unfolding fast_multiexp
  fast_multiexp_lem scalars base =
      M.multi_scalar_mul_lem (M.get_mul_window_size (length scalars)) base scalars
