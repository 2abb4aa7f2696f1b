-- ===== src/Examples/HashToCurve.antt =====
-- The hash to the curve (tpke/src/hash_to_curve.rs) at a concrete input, over a toy curve with the sizes
-- of bls12-381.
use Prim.Native.Nat.{◌+◌, ◌*◌}
use nucypher_ferveo.Base.{ℕ, ◌≡◌, refl, some, List, [], ◌∷◌, ◌++◌, arith}
use mathlib.Core.List.{reverse}
use nucypher_ferveo.Base.Lists.{length, take, drop, replicate}
use nucypher_ferveo.Subproduct.Circulant.Slices.{length-replicate}
use nucypher_ferveo.Tpke.HashToCurve.{Curve, element_length, ceil, htp_bls12381_g2}
use nucypher_ferveo.Tpke.HashToCurve.Chunks.{point, htp_bls12381_g2-element}

-- Points are numbers, and their bytes a prefix and copies of the number.
abbrev curve : Curve
curve = record {
  Fp = ℕ;
  Fp2 = ℕ × ℕ;
  Point = ℕ;
  ArkPoint = List ℕ;
  modulus_nbits = 381;
  curve_order_nbits = 255;
  dst = 81 ∷ 85 ∷ [];
  expanded = λ n d m. replicate n (length m);
  xmd_expand = λ okm n d m. some (replicate n (length m) ++ drop n okm);
  fp_of = length;
  new_fps = λ a b. (a, b);
  new_fp2 = (0, 0);
  map2point = λ u. u.0 + u.1;
  add = λ p q. p + q;
  cfp = λ p. 2 * p;
  affine = λ p. p;
  to_bytes = λ p. 3 ∷ replicate 48 p ++ replicate 48 1;
  ark_deserialize = λ bytes. some bytes;
  length-expanded = λ n d m. length-replicate n (length m);
  length-to_bytes = λ p. refl;
  xmd_expand_lem = λ okm n d m h. refl;
}

element_length-curve : element_length curve ≡ 64
unfolding element_length ceil
element_length-curve = refl

htp_bls12381_g2-element_example :
    htp_bls12381_g2 curve (1 ∷ 2 ∷ [])
    ≡ some (
        reverse (take 48 (drop 1 (curve.to_bytes (point curve (1 ∷ 2 ∷ [])))))
        ++ reverse (drop 48 (drop 1 (curve.to_bytes (point curve (1 ∷ 2 ∷ []))))))
htp_bls12381_g2-element_example =
    htp_bls12381_g2-element curve (1 ∷ 2 ∷ []) (omega (arith, element_length-curve))
