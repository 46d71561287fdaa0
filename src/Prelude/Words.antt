-- ===== src/Prelude/Words.antt =====
-- Machine integers: a signed word is a ℤ, and an operation that may leave the range wraps.
use Prim.Native.Nat.{ℕ, ◌-◌, ◌*◌, ◌%◌, ◌^◌}
use mathlib.Core.Path.{◌≡◌}
use native.Mathlib.Omega.{arith}
use vgo.Prelude.Tests.{ltb, if◌then◌else◌}
use vgo.Prelude.Int.{ℤ, pos, negsuc, ◌+ℤ◌, ◌≤ℤ◌}

-- The signed number that a bit pattern of `2 * half` values stands for.
abbrev pub signed : ℕ → ℕ → ℤ
signed half n = if ltb n half then pos n else negsuc (2 * half - 1 - n)

-- The bit pattern of an integer, two's complement.
abbrev pub pattern_of : ℕ → ℤ → ℕ
pattern_of half (pos n) = n % (2 * half)
pattern_of half (negsuc n) = 2 * half - 1 - n % (2 * half)

-- int32(x) and int64(x).
unfoldable pub wrap32 : ℤ → ℤ
wrap32 a = signed (2 ^ 31) (pattern_of (2 ^ 31) a)

unfoldable pub wrap64 : ℤ → ℤ
wrap64 a = signed (2 ^ 63) (pattern_of (2 ^ 63) a)

pub record IsInt32 (a : ℤ) : Type 0 where
  pub above : negsuc (2 ^ 31 - 1) ≤ℤ a
  pub below : a ≤ℤ pos (2 ^ 31 - 1)

pub record IsInt64 (a : ℤ) : Type 0 where
  pub above : negsuc (2 ^ 63 - 1) ≤ℤ a
  pub below : a ≤ℤ pos (2 ^ 63 - 1)

pub wrap32_of_IsInt32 : (a : ℤ) → IsInt32 a → wrap32 a ≡ a
unfolding wrap32
wrap32_of_IsInt32 a h = ground arith

pub wrap64_of_IsInt64 : (a : ℤ) → IsInt64 a → wrap64 a ≡ a
unfolding wrap64
wrap64_of_IsInt64 a h = ground arith

pub wrap64-IsInt64 : (a : ℤ) → IsInt64 (wrap64 a)
unfolding wrap64
wrap64-IsInt64 a = ground arith

-- `int` counters: `n++`.
unfoldable pub incr : ℤ → ℤ
unfolding wrap64
incr a = wrap64 (a +ℤ pos 1)
