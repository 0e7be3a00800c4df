-- ===== src/Prelude/Word.antt =====
-- The wrapping arithmetic of the source's atomic counters: `fetch_add(1)` and `fetch_sub(1)`.
use Prim.Native.Nat.{ℕ, ◌+◌, ◌-◌, ◌%◌}

abbrev pub u32_mod : ℕ
u32_mod = 4294967296

-- `u32::MAX`.
abbrev pub u32_max : ℕ
u32_max = 4294967295

abbrev pub u64_mod : ℕ
u64_mod = 18446744073709551616

unfoldable pub add_u32 : ℕ → ℕ
add_u32 n = (n + 1) % u32_mod

unfoldable pub sub_u32 : ℕ → ℕ
sub_u32 n = (n + u32_mod - 1) % u32_mod
