-- ===== src/Base/Integers.antt =====
-- Integers over the native numbers, with the checked operations of `i64`.
use Prim.Native.Nat.{ℕ, zero, suc, ◌+◌, ◌-◌, ◌*◌, ◌^◌}
use mathlib.Core.Bool.{Bool}
use mathlib.Core.Option.{Option, none, some}
use quackgis.Base.Tests.{ltb, leb, if◌then◌else◌}

-- `negsuc n` is -(n + 1).
pub data ℤ : Type 0 where
  pos : ℕ → ℤ
  negsuc : ℕ → ℤ

abbrev pub negated : ℕ → ℤ
negated zero = pos 0
negated (suc n) = negsuc n

abbrev pub times : ℤ → ℕ → ℤ
times (pos n) k = pos (n * k)
times (negsuc n) k = negated (suc n * k)

abbrev pub plus : ℤ → ℕ → ℤ
plus (pos n) k = pos (n + k)
plus (negsuc n) k = if leb (suc n) k then pos (k - suc n) else negsuc (n - k)

abbrev pub minus : ℤ → ℕ → ℤ
minus (pos n) k = if leb k n then pos (n - k) else negsuc (k - n - 1)
minus (negsuc n) k = negsuc (n + k)

-- Whether an integer fits a signed word of `width + 1` bits.
abbrev pub fits : ℕ → ℤ → Bool
fits width (pos n) = ltb n (2 ^ width)
fits width (negsuc n) = ltb n (2 ^ width)

abbrev pub checked_i64 : ℤ → Option ℤ
checked_i64 z = if fits 63 z then some z else none
