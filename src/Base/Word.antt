-- ===== src/Base/Word.antt =====
-- `std::uint64_t` and `std::size_t`: numbers below 2 ^ 64, with the wrap written out.
use Prim.Native.Nat.{ℕ, ◌+◌, ◌-◌, ◌*◌, ◌%◌, ◌^◌}
use scalable_non_zero_indica.Base.Tests.{◌==◌, if◌then◌else◌}

abbrev pub u64 : ℕ → ℕ
u64 n = n % 2 ^ 64

abbrev pub add64 : ℕ → ℕ → ℕ
add64 a b = u64 (a + b)

-- `-` on ℕ stops at 0, so the modulus is added first.
abbrev pub sub64 : ℕ → ℕ → ℕ
sub64 a b = u64 (a + 2 ^ 64 - b)

abbrev pub mul64 : ℕ → ℕ → ℕ
mul64 a b = u64 (a * b)

-- 1 where a counter is not zero: what it owes to the node above.
abbrev pub nonzero : ℕ → ℕ
nonzero n = if n == 0 then 0 else 1
