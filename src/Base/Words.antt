-- ===== src/Base/Words.antt =====
-- `u32` arithmetic as a release build does it: it wraps.
use Prim.Native.Nat.{ℕ, ◌+◌, ◌-◌, ◌%◌}

abbrev pub u32_mod : ℕ
u32_mod = 4294967296

-- `n as u32`
abbrev pub as_u32 : ℕ → ℕ
as_u32 n = n % u32_mod

abbrev pub sub_u32 : ℕ → ℕ → ℕ
sub_u32 a b = (a + u32_mod - b) % u32_mod

abbrev pub incr_u32 : ℕ → ℕ
incr_u32 n = (n + 1) % u32_mod
