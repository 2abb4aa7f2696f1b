-- ===== src/Toy.antt =====
-- A pairing engine with five elements, at which the tests and examples run the definitions.
pub mod F5
pub mod Instances
pub mod Polynomials
pub mod Codec
pub mod Representation
pub mod Transforms
