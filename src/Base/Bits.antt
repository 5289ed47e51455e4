-- ===== src/Base/Bits.antt =====
-- Flag words: tests and updates of a single bit `k`, a power of two, in C's `&`, `|=` and `&= ~`.
use Prim.Native.Nat.{ℕ, ◌+◌, ◌-◌, ◌/◌, ◌%◌}
use mathlib.Core.Bool.{Bool}
use hxroot.Base.Tests.{◌==◌, if◌then◌else◌}

-- `x & k`, as a condition
abbrev pub has_bit : ℕ → ℕ → Bool
has_bit x k = x / k % 2 == 1

-- `x |= k`
abbrev pub set_bit : ℕ → ℕ → ℕ
set_bit x k = if has_bit x k then x else x + k

-- `x &= ~k`
abbrev pub clear_bit : ℕ → ℕ → ℕ
clear_bit x k = if has_bit x k then x - k else x
