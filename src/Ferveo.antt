-- ===== src/Ferveo.antt =====
-- The distributed key generation, ferveo/src and ferveo-common/src.
pub mod Common
pub mod Session
pub mod Pvss
pub mod Dkg
pub mod StateBytes
pub mod Threshold
pub mod Recovery
