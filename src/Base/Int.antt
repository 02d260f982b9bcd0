-- ===== src/Base/Int.antt =====
-- Go's signed `int` and `int64` where the code tests a sign; `negsuc n` is -(n + 1). And the
-- wrap-around of counters that the code only increments and compares for equality.
use Prim.Native.Nat.{ℕ, ◌+◌, ◌%◌, ◌^◌}
use mathlib.Core.Bool.{Bool, true, false}
use fgvcplateform_public.Base.Tests.{◌==◌}

pub data ℤ : Type 0 where
  pos : ℕ → ℤ
  negsuc : ℕ → ℤ

abbrev pub is_negative : ℤ → Bool
is_negative (pos n) = false
is_negative (negsuc n) = true

-- The test `x == n` against a literal that is not negative.
abbrev pub int_is : ℤ → ℕ → Bool
int_is (pos n) k = n == k
int_is (negsuc n) k = false

-- `x++` on an int64, read as its 64-bit pattern.
abbrev pub inc64 : ℕ → ℕ
inc64 n = (n + 1) % 2 ^ 64
