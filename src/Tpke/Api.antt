-- ===== src/Tpke/Api.antt =====
-- tpke/src/api.rs: the byte interface of a participant in the fast variant.
pub mod Limbs
pub mod Context
pub mod Payload
