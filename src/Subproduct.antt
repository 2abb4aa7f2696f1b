-- ===== src/Subproduct.antt =====
-- The polynomial arithmetic over arbitrary nodes, subproductdomain/src/lib.rs.
pub mod Multiexp
pub mod Division
pub mod Tree
pub mod Domain
pub mod Circulant
pub mod Toeplitz
