-- ===== src/Common/Int.antt =====
-- Whole numbers over the native naturals, for the `int` fields whose sign the code tests.
use Prim.Native.Nat.{ℕ, ◌+◌, ◌-◌, ◌*◌}
use mathlib.Core.Bool.{Bool, true, false}
use hx_clog.Common.Tests.{ltb, if◌then◌else◌}

pub data ℤ : Type 0 where
  pos negsuc : ℕ → ℤ

-- `m - n`
abbrev pub diff : ℕ → ℕ → ℤ
diff m n = if ltb m n then ℤ.negsuc (n - m - 1) else ℤ.pos (m - n)

abbrev pub plus : ℤ → ℕ → ℤ
plus (ℤ.pos m) n = ℤ.pos (m + n)
plus (ℤ.negsuc m) n = diff n (m + 1)

abbrev pub times : ℤ → ℕ → ℤ
times (ℤ.pos m) n = ℤ.pos (m * n)
times (ℤ.negsuc m) n = diff 0 ((m + 1) * n)

-- the number if it is positive, else 0
abbrev pub positive : ℤ → ℕ
positive (ℤ.pos m) = m
positive (ℤ.negsuc m) = 0

abbrev pub less : ℤ → ℤ → Bool
less (ℤ.pos m) (ℤ.pos n) = ltb m n
less (ℤ.pos m) (ℤ.negsuc n) = false
less (ℤ.negsuc m) (ℤ.pos n) = true
less (ℤ.negsuc m) (ℤ.negsuc n) = ltb n m

abbrev pub add : ℤ → ℤ → ℤ
add m (ℤ.pos n) = plus m n
add (ℤ.pos m) (ℤ.negsuc n) = diff m (n + 1)
add (ℤ.negsuc m) (ℤ.negsuc n) = ℤ.negsuc (m + n + 1)
