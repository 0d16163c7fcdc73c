-- ===== src/Base/Signed.antt =====
-- Signed machine integers that come from flags and the JSON file: a duration or a count that the
-- code compares with 0 before it uses it.
use Prim.Native.Nat.{ℕ, zero, suc, ◌-◌, ◌%◌, ◌^◌}
use yggss.Base.Tests.{ltb, if◌then◌else◌}

-- `negsuc n` is -(n + 1).
pub data ℤ : Type 0 where
  pos : ℕ → ℤ
  negsuc : ℕ → ℤ

-- `if x <= 0 { x = fallback }`, a reading that always leaves a number.
abbrev pub positive_or : ℤ → ℕ → ℕ
positive_or (pos zero) fallback = fallback
positive_or (pos (suc n)) fallback = suc n
positive_or (negsuc n) fallback = fallback

-- The number that an int64 with the bits of `n` stands for.
abbrev signed : ℕ → ℤ
signed n = if ltb n (2 ^ 63) then pos n else negsuc (2 ^ 64 - 1 - n)

-- A product of two int64.
abbrev pub int64 : ℤ → ℤ
int64 (pos n) = signed (n % 2 ^ 64)
int64 (negsuc n) = signed (2 ^ 64 - 1 - n % 2 ^ 64)
