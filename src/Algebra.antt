-- ===== src/Algebra.antt =====
-- The algebra that arkworks provides to the program, as interfaces: a field, groups of prime order
-- over it, the pairing engine, polynomials and evaluation domains; and lemmas on sums over lists.
pub mod Field
pub mod Space
pub mod Engine
pub mod Poly
pub mod Domain
pub mod Series
pub mod DensePolynomials
pub mod Cyclic
