-- ===== src/Toy/Codec.antt =====
-- The byte forms of Ferveo/StateBytes over the small engine: a number is one byte.
use nucypher_ferveo.Base.{ℕ, ◌≡◌, refl, List, [], ◌∷◌, ◌++◌}
use nucypher_ferveo.Base.Outcome.{Outcome, ok, err}
use nucypher_ferveo.Toy.F5.{F5, one}
use nucypher_ferveo.Toy.Instances.{engine, code, decode}
use nucypher_ferveo.Ferveo.StateBytes.{Codec}

abbrev pub read_byte : List ℕ → Outcome (Unit {0}) (ℕ × List ℕ)
read_byte [] = err tt
read_byte (b ∷ rest) = ok (b, rest)

abbrev pub read_two : List ℕ → Outcome (Unit {0}) ((ℕ × ℕ) × List ℕ)
read_two (a ∷ (b ∷ rest)) = ok ((a, b), rest)
read_two _ = err tt

abbrev pub read_g1 : List ℕ → Outcome (Unit {0}) (F5 × List ℕ)
read_g1 [] = err tt
read_g1 (b ∷ rest) = ok (decode b, rest)

pub read-code : (a : F5) (rest : List ℕ) → read_g1 ((code a ∷ []) ++ rest) ≡ ok (a, rest)
read-code F5.zero rest = refl
read-code one rest = refl
read-code _ rest = refl

abbrev pub codec : Codec engine
codec = record {
  SerializationError = Unit;
  invalid_data = tt;
  serialize_u8 = λ n. n ∷ [];
  deserialize_u8 = read_byte;
  u8_size = 1;
  serialize_counts = λ m n. m ∷ n ∷ [];
  deserialize_counts = read_two;
  counts_size = 2;
  serialize_g1 = λ a. code a ∷ [];
  deserialize_g1 = read_g1;
  g1_size = 1;
  deserialize-serialize_u8 = λ n rest h. refl;
  deserialize-serialize_counts = λ m n rest h i. refl;
  deserialize-serialize_g1 = read-code;
  length-serialize_u8 = λ n h. refl;
  length-serialize_counts = λ m n h i. refl;
  length-serialize_g1 = λ a. refl;
}
