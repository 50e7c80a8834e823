-- ===== src/Base/Words.antt =====
-- `u64` arithmetic as the release build does it: `+`, `-` and `*` wrap around, and the
-- saturating and checked forms are written out.
use Prim.Native.Nat.{ℕ, ◌+◌, ◌-◌, ◌*◌, ◌%◌, ◌<◌, min}
use mathlib.Core.Path.{◌≡◌}
use mathlib.Core.Option.{Option, none, some}
use native.Mathlib.Omega.{arith}
use op_rbuilder.Base.Tests.{ltb, if◌then◌else◌}

-- 2^64
abbrev pub u64_mod : ℕ
u64_mod = 18446744073709551616

-- `u64::MAX`
abbrev pub u64_max : ℕ
u64_max = 18446744073709551615

-- 2^256
abbrev pub u256_mod : ℕ
u256_mod = 115792089237316195423570985008687907853269984665640564039457584007913129639936

abbrev pub add_u64 : ℕ → ℕ → ℕ
add_u64 a b = (a + b) % u64_mod

abbrev pub sub_u64 : ℕ → ℕ → ℕ
sub_u64 a b = (a + u64_mod - b) % u64_mod

abbrev pub mul_u64 : ℕ → ℕ → ℕ
mul_u64 a b = (a * b) % u64_mod

abbrev pub saturating_add_u64 : ℕ → ℕ → ℕ
saturating_add_u64 a b = min (a + b) u64_max

abbrev pub saturating_mul_u64 : ℕ → ℕ → ℕ
saturating_mul_u64 a b = min (a * b) u64_max

-- on naturals `-` already stops at 0
abbrev pub saturating_sub : ℕ → ℕ → ℕ
saturating_sub a b = a - b

abbrev pub checked_add_u64 : ℕ → ℕ → Option ℕ
checked_add_u64 a b = if ltb (a + b) u64_mod then some (a + b) else none

pub add_u64_exact : (a b : ℕ) → a + b < u64_mod → add_u64 a b ≡ a + b
add_u64_exact a b h = omega arith
