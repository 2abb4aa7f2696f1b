-- ===== src/TpkeWasm.antt =====
-- tpke-wasm/src/lib.rs: the fast variant as a web page uses it. The wrappers of one value stand for
-- that value. A panic, also of an unwrapped error, is `none`.
pub mod Ciphertext
pub mod Payload
pub mod Setup
pub mod SharedSecret
pub mod Threshold
