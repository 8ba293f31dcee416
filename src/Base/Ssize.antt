-- ===== src/Base/Ssize.antt =====
-- `ssize_t`: a value is kept as its 64-bit pattern, a number below 2 ^ 64, so that -1 is
-- 2 ^ 64 - 1. Signed comparisons add 2 ^ 63 to both sides first.
use Prim.Native.Nat.{ℕ, ◌+◌, ◌-◌, ◌%◌, ◌^◌, ◌<◌}
use mathlib.Core.Path.{◌≡◌}
use mathlib.Core.Bool.{Bool}
use native.Mathlib.Omega.{arith}
use file_system_fuse.Base.Tests.{ltb, leb}

abbrev pub minus_one : ℕ
minus_one = 2 ^ 64 - 1

-- a < b
unfoldable pub slt : ℕ → ℕ → Bool
slt a b = ltb ((a + 2 ^ 63) % 2 ^ 64) ((b + 2 ^ 63) % 2 ^ 64)

-- a <= b
unfoldable pub sle : ℕ → ℕ → Bool
sle a b = leb ((a + 2 ^ 63) % 2 ^ 64) ((b + 2 ^ 63) % 2 ^ 64)

-- a + b
abbrev pub add_ssize : ℕ → ℕ → ℕ
add_ssize a b = (a + b) % 2 ^ 64

-- a - b
abbrev pub sub_ssize : ℕ → ℕ → ℕ
sub_ssize a b = (a + 2 ^ 64 - b) % 2 ^ 64

-- Between two values that are not negative the comparison is that of the numbers.
pub slt-ltb : (a b : ℕ) → a < 2 ^ 63 → b < 2 ^ 63 → slt a b ≡ ltb a b
unfolding slt
slt-ltb a b h k = ground arith

pub sle-leb : (a b : ℕ) → a < 2 ^ 63 → b < 2 ^ 63 → sle a b ≡ leb a b
unfolding sle
sle-leb a b h k = ground arith
