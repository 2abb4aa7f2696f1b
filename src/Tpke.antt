-- ===== src/Tpke.antt =====
-- The threshold encryption library, tpke/src.
pub mod Interface
pub mod KeyShare
pub mod Ciphertext
pub mod Context
pub mod Decryption
pub mod Combine
pub mod Refresh
pub mod Threshold
pub mod ThresholdFast
pub mod Api
pub mod HashToCurve
pub mod Setup
