-- ===== src/Base/Int.antt =====
-- Signed integers, and `int64` arithmetic on them: durations are `int64` counts of nanoseconds.
use Prim.Native.Nat.{ℕ, ◌+◌, ◌-◌, ◌^◌}
use mathlib.Core.Bool.{Bool, true, false}
use rize_backend.Base.Tests.{ltb, leb, ◌==◌, if◌then◌else◌}

-- `negsuc n` is -(n + 1).
pub data ℤ : Type 0 where
  pos : ℕ → ℤ
  negsuc : ℕ → ℤ

abbrev pub two63 : ℕ
two63 = 2 ^ 63

-- a - b, clamped to the `int64` range.
abbrev pub sub_saturated : ℕ → ℕ → ℤ
sub_saturated a b =
    if leb b a
    then pos (if ltb (a - b) two63 then a - b else two63 - 1)
    else negsuc (if leb (b - a) two63 then b - a - 1 else two63 - 1)

abbrev pub is_negative : ℤ → Bool
is_negative (pos n) = false
is_negative (negsuc n) = true

-- `-x` on `int64`: the least value is its own negation.
abbrev pub neg64 : ℤ → ℤ
neg64 (pos n) = if n == 0 then pos 0 else negsuc (n - 1)
neg64 (negsuc n) = if n == two63 - 1 then negsuc n else pos (n + 1)

-- `x > n` for a number `n`.
abbrev pub exceeds : ℤ → ℕ → Bool
exceeds (pos m) n = ltb n m
exceeds (negsuc m) n = false
