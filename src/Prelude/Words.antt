-- ===== src/Prelude/Words.antt =====
-- Go's 64-bit integers as bit patterns below 2 ^ 64. An int64 orders the patterns by the number
-- that they stand for, a uint64 by the pattern.
use Prim.Native.Nat.{ℕ, ◌+◌, ◌-◌, ◌/◌, ◌%◌, ◌^◌, ◌<◌}
use mathlib.Core.Path.{◌≡◌}
use mathlib.Core.Bool.{Bool}
use native.Mathlib.Omega.{arith}
use cuirass.Prelude.Tests.{ltb, if◌then◌else◌}

abbrev pub word : ℕ
word = 2 ^ 64

abbrev pub half_word : ℕ
half_word = 2 ^ 63

abbrev pub add_int64 : ℕ → ℕ → ℕ
add_int64 a b = (a + b) % 2 ^ 64

abbrev pub sub_int64 : ℕ → ℕ → ℕ
sub_int64 a b = (a + 2 ^ 64 - b) % 2 ^ 64

-- The order of the signed numbers: the patterns from 2 ^ 63 on are the negative ones.
abbrev pub ltb_int64 : ℕ → ℕ → Bool
ltb_int64 a b = ltb ((a + 2 ^ 63) % 2 ^ 64) ((b + 2 ^ 63) % 2 ^ 64)

-- Division by a positive number, towards zero.
abbrev pub div_int64 : ℕ → ℕ → ℕ
div_int64 a b = if ltb a (2 ^ 63) then a / b else (2 ^ 64 - (2 ^ 64 - a) / b) % 2 ^ 64

-- On numbers that are not negative the signed order is that of the numbers.
pub ltb_int64-eq-ltb : (a b : ℕ) → a < 2 ^ 63 → b < 2 ^ 63 → ltb_int64 a b ≡ ltb a b
ltb_int64-eq-ltb a b ha hb = ground arith

-- A sum that does not reach 2 ^ 63 does not wrap.
pub add_int64-eq-add : (a b : ℕ) → a + b < 2 ^ 63 → add_int64 a b ≡ a + b
add_int64-eq-add a b h = omega arith
