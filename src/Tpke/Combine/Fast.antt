-- ===== src/Tpke/Combine/Fast.antt =====
-- `prepare_combine_fast` of tpke/src/combine.rs.
pub mod Keys
pub mod Checked
pub mod Nodes
use nucypher_ferveo.Base.{List, [], ◌∷◌, map, ◌≡◌, ◌≢◌}
use nucypher_ferveo.Base.Lists.{get_elem?, All}
use nucypher_ferveo.Base.Outcome.{ok, ◌>>=◌, unwrap}
use nucypher_ferveo.Algebra.Field.{Field, ◌*◌}
use nucypher_ferveo.Algebra.Field.Inverse.{inv}
use nucypher_ferveo.Algebra.Space.{Group, Space, ◌•◌}
use nucypher_ferveo.Algebra.Engine.{Engine}
use nucypher_ferveo.Algebra.DensePolynomials.{DensePolynomials}
use nucypher_ferveo.Subproduct.Domain as Subproduct
use nucypher_ferveo.Subproduct.Domain.{inverse_lagrange_coefficients}
use nucypher_ferveo.Tpke.Ciphertext.{TpkeResult}
use nucypher_ferveo.Tpke.Context.{PublicDecryptionContextFast}
use nucypher_ferveo.Tpke.Decryption.{DecryptionShareFast}

-- `batch_inversion_and_mul` of ark-ff: every element is replaced by a coefficient times its inverse.
pub record BatchInversion (F : Type 0) ⦃f : Field F⦄ : Type 0 where
  pub batch_inversion_and_mul : List F → F → List F
  pub batch_inversion_and_mul_lem :
      (vs : List F) (coeff : F)
      → All (λ v. v ≢ f.zero) vs
      → batch_inversion_and_mul vs coeff ≡ map (λ v. coeff * inv v) vs

module _ (E : Engine) where
  open E use {Fr, G2}

  instance abbrev fr : Field Fr
  fr = E.field

  instance abbrev g2 : Group G2
  g2 = E.group2

  instance abbrev s2 : Space Fr G2
  s2 = E.space2

  -- The loop that pushes the domain points and multiplies `n_0`.
  unfoldable pub domain_and_n_0 :
      List (PublicDecryptionContextFast E)
      → List (DecryptionShareFast E)
      → Fr
      → TpkeResult (List Fr × Fr)
  domain_and_n_0 contexts [] n_0 = ok ([], n_0)
  domain_and_n_0 contexts (d_i ∷ shares) n_0 = do
    context ← unwrap (get_elem? contexts d_i.decrypter_index)
    (domain, product) ← domain_and_n_0 contexts shares (n_0 * context.lagrange_n_0)
    ok (context.domain ∷ domain, product)

  -- The blinded key shares, each times its coefficient; the loop ends with the shorter list.
  unfoldable pub scale_key_shares :
      List (PublicDecryptionContextFast E)
      → List (DecryptionShareFast E)
      → List Fr
      → TpkeResult (List G2)
  scale_key_shares contexts (d_i ∷ shares) (lambda ∷ lagrange) = do
    decrypter ← unwrap (get_elem? contexts d_i.decrypter_index)
    rest ← scale_key_shares contexts shares lagrange
    ok (lambda • decrypter.blinded_key_share.blinded_key_share ∷ rest)
  scale_key_shares contexts _ _ = ok []

  unfoldable pub prepare_combine_fast :
      DensePolynomials Fr
      → BatchInversion Fr
      → List (PublicDecryptionContextFast E)
      → List (DecryptionShareFast E)
      → TpkeResult (List G2)
  prepare_combine_fast D I public_decryption_contexts shares = do
    (domain, n_0) ← domain_and_n_0 public_decryption_contexts shares fr.one
    s ← unwrap (Subproduct.new D domain)
    lagrange ← unwrap (inverse_lagrange_coefficients D s)
    scale_key_shares public_decryption_contexts shares (I.batch_inversion_and_mul lagrange n_0)
