-- ===== src/Tpke/Api/Context.antt =====
-- `PrivateDecryptionContext` of tpke/src/api.rs: what a participant needs to create a share, and its
-- bytes.
use Prim.Native.Nat.{◌+◌, ◌^◌}
use nucypher_ferveo.Base.{ℕ, ◌<◌, ◌≡◌, refl, ap, ◌∙◌, List, ◌++◌, arith}
use nucypher_ferveo.Base.Tests.{leb, le→leb, ◌==◌, eq→==}
use nucypher_ferveo.Base.Lists.{
  length, take, drop, length-append, take-append, drop-append, take_all,
}
use nucypher_ferveo.Base.Outcome.{ok, ◌>>=◌, ◌>>◌, unwrap, assert}
use nucypher_ferveo.Algebra.Engine.{Engine}
use nucypher_ferveo.Tpke.Interface.{Primitives}
use nucypher_ferveo.Tpke.Ciphertext.{TpkeResult}
use nucypher_ferveo.Tpke.Api.Limbs.{
  Representation, read_chunks, length-write_limbs, read_chunks-write_limbs,
}

pub record PrivateDecryptionContext (E : Engine) : Type 0 where
  pub b_inv : E.Fr
  pub decrypter_index : ℕ

abbrev pub b_inv_len : ℕ
b_inv_len = 32

abbrev pub decrypter_index_len : ℕ
decrypter_index_len = 8

unfoldable pub serialized_size : ℕ
serialized_size = b_inv_len + decrypter_index_len

module _ (E : Engine) (P : Primitives E) (R : Representation E) where
  unfoldable pub new : E.Fr → ℕ → PrivateDecryptionContext E
  new b_inv decrypter_index = record { b_inv = b_inv; decrypter_index = decrypter_index }

  unfoldable pub to_bytes : PrivateDecryptionContext E → List ℕ
  to_bytes context = R.write context.b_inv ++ P.serialize_usize context.decrypter_index

  -- A slice that ends past the input is a panic.
  unfoldable pub from_bytes : List ℕ → TpkeResult (PrivateDecryptionContext E)
  from_bytes bytes = do
    assert (leb b_inv_len (length bytes))
    limbs ← unwrap (read_chunks b_inv_len (take b_inv_len bytes))
    assert (length limbs == 4)
    assert (leb (b_inv_len + decrypter_index_len) (length bytes))
    decrypter_index ← unwrap (P.deserialize_usize (take decrypter_index_len (drop b_inv_len bytes)))
    ok (record { b_inv = R.of_limbs limbs; decrypter_index = decrypter_index })

  -- The bytes of a context whose index is below 2^64 are as many as serialized_size says, and the
  -- context is read back from them.
  pub from_bytes_lem :
      (context : PrivateDecryptionContext E)
      → context.decrypter_index < 2 ^ 64
      → (length (to_bytes context) ≡ serialized_size) × (from_bytes (to_bytes context) ≡ ok context)
  unfolding to_bytes from_bytes serialized_size
  from_bytes_lem context h = (
    omega (arith, length-both),
    rw
        (
          le→leb 32 (length (to_bytes context)) (omega (arith, length-both)),
          le→leb 40 (length (to_bytes context)) (omega (arith, length-both)),
          take-append 32 (R.write context.b_inv) (P.serialize_usize context.decrypter_index)
              length-scalar,
          drop-append 32 (R.write context.b_inv) (P.serialize_usize context.decrypter_index)
              length-scalar,
          R.write-limbs context.b_inv,
          read_chunks-write_limbs 32 (R.limbs context.b_inv)
              (omega (arith, R.length-limbs context.b_inv)) (R.limbs_bounded context.b_inv),
          eq→== (length (R.limbs context.b_inv)) 4 (R.length-limbs context.b_inv),
          take_all 8 (P.serialize_usize context.decrypter_index) length-index,
          P.deserialize-serialize_usize context.decrypter_index h,
          R.of_limbs-limbs context.b_inv,
        )
        refl,
  )
    where
      length-scalar : length (R.write context.b_inv) ≡ 32
      length-scalar =
          ap length (R.write-limbs context.b_inv)
          ∙ length-write_limbs (R.limbs context.b_inv)
          ∙ omega (arith, R.length-limbs context.b_inv)

      length-index : length (P.serialize_usize context.decrypter_index) ≡ 8
      length-index = P.length-serialize_usize context.decrypter_index

      length-both : length (to_bytes context) ≡ 40
      length-both =
          length-append (R.write context.b_inv) (P.serialize_usize context.decrypter_index)
          ∙ omega (arith, length-scalar, length-index)
