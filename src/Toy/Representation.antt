-- ===== src/Toy/Representation.antt =====
-- The limbs of Tpke/Api/Limbs over the small engine: a scalar is its first limb.
use Prim.Native.Nat.{◌<◌, ◌^◌}
use nucypher_ferveo.Base.{ℕ, ◌≡◌, refl, List, [], ◌∷◌, arith}
use nucypher_ferveo.Base.Lists.{All}
use nucypher_ferveo.Toy.F5.{F5}
use nucypher_ferveo.Toy.Instances.{engine, code, decode}
use nucypher_ferveo.Tpke.Api.Limbs.{Representation, write_limbs}

abbrev pub limbs_of : F5 → List ℕ
limbs_of a = code a ∷ 0 ∷ 0 ∷ 0 ∷ []

abbrev pub of_limbs : List ℕ → F5
of_limbs [] = F5.zero
of_limbs (n ∷ limbs) = decode n

pub bounded : (a : F5) → All (λ limb. limb < 2 ^ 64) (limbs_of a)
bounded F5.zero = (omega arith, (omega arith, (omega arith, (omega arith, tt))))
bounded _ = (omega arith, (omega arith, (omega arith, (omega arith, tt))))

pub limbs : (a : F5) → of_limbs (limbs_of a) ≡ a
limbs F5.zero = refl
limbs _ = refl

abbrev pub representation : Representation engine
representation = record {
  limbs = limbs_of;
  of_limbs = of_limbs;
  write = λ a. write_limbs (limbs_of a);
  length-limbs = λ a. refl;
  limbs_bounded = bounded;
  of_limbs-limbs = limbs;
  write-limbs = λ a. refl;
}
