-- ===== src/Examples.antt =====
-- The theorems at concrete inputs, over the engine of Toy.
mod Tpke
mod Shares
mod Session
mod Setup
mod Subproduct
mod Fast
mod Api
mod Wasm
mod Toeplitz
mod Threshold
mod HashToCurve
