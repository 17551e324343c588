-- ===== src/Base/Ints.antt =====
-- Signed integers over the native numbers, for the results that C gives as an `int`.
use Prim.Native.Nat.{ℕ, ◌-◌, ◌%◌}
use choco_os.Base.Tests.{leb, ltb, if◌then◌else◌}

pub data ℤ : Type 0 where
  pos negsuc : ℕ → ℤ

-- The difference of two natural numbers.
abbrev pub diff : ℕ → ℕ → ℤ
diff a b = if leb b a then pos (a - b) else negsuc (b - a - 1)

-- A word as a C `int`.
abbrev pub as_int : ℕ → ℤ
as_int n =
    if ltb (n % 4294967296) 2147483648
    then pos (n % 4294967296)
    else negsuc (4294967295 - n % 4294967296)
