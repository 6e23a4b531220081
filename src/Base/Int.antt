-- ===== src/Base/Int.antt =====
-- The `int` results of the C code, as integers.
use Prim.Native.Nat.{ℕ, ◌-◌}
use pine_os.Base.Tests.{leb, if◌then◌else◌}

-- `negsuc n` is -(n + 1).
pub data ℤ : Type 0 where
  pos : ℕ → ℤ
  negsuc : ℕ → ℤ

-- a - b, as an integer
abbrev pub sub_ℕ : ℕ → ℕ → ℤ
sub_ℕ a b = if leb b a then pos (a - b) else negsuc (b - a - 1)

-- the `-1` by which the kernel's functions report a failure
abbrev pub minus_one : ℤ
minus_one = negsuc 0
