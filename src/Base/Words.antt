-- ===== src/Base/Words.antt =====
-- Machine integers: a value is a plain ℕ below `2 ^ w`, and the wrap-around is written out. The
-- release profile of the crates leaves overflow checks off, so `+=` wraps.
use Prim.Native.Nat.{ℕ, ◌%◌}

abbrev pub u32_mod : ℕ
u32_mod = 4294967296

abbrev pub u64_mod : ℕ
u64_mod = 18446744073709551616

abbrev pub u32 : ℕ → ℕ
u32 n = n % u32_mod

abbrev pub u64 : ℕ → ℕ
u64 n = n % u64_mod
