-- ===== src/Base/Word.antt =====
-- Go's `int32` and `int64` as integers: each operation is the exact one, wrapped.
use Prim.Native.Nat.{ℕ, ◌+◌, ◌-◌, ◌^◌, ◌%◌}
use mathlib.Core.Path.{◌≡◌}
use native.Mathlib.Omega.{arith}
use stablecoin_mmm.Base.Tests.{ltb, if◌then◌else◌}
use stablecoin_mmm.Base.Int.{ℤ, pos, negsuc, ◌≤ℤ◌}

-- The signed value of the low `w` bits, where `half` is 2 ^ (w - 1).
abbrev pub signed : ℕ → ℕ → ℤ
signed half m = if ltb m half then pos m else negsuc (half + half - m - 1)

-- The low bits of an integer; of -(n + 1) they are the complement of those of n.
abbrev pub residue : ℕ → ℤ → ℕ
residue modulus (pos n) = n % modulus
residue modulus (negsuc n) = modulus - 1 - n % modulus

unfoldable pub wrap64 : ℤ → ℤ
wrap64 z = signed (2 ^ 63) (residue (2 ^ 64) z)

unfoldable pub wrap32 : ℤ → ℤ
wrap32 z = signed (2 ^ 31) (residue (2 ^ 32) z)

abbrev pub IsInt64 : ℤ → Type 0
IsInt64 z = (negsuc (2 ^ 63 - 1) ≤ℤ z) × (z ≤ℤ pos (2 ^ 63 - 1))

abbrev pub IsInt32 : ℤ → Type 0
IsInt32 z = (negsuc (2 ^ 31 - 1) ≤ℤ z) × (z ≤ℤ pos (2 ^ 31 - 1))

pub wrap64-eq : (z : ℤ) → IsInt64 z → wrap64 z ≡ z
unfolding wrap64
wrap64-eq z h = ground arith

pub wrap64-IsInt64 : (z : ℤ) → IsInt64 (wrap64 z)
unfolding wrap64
wrap64-IsInt64 z = ground arith

pub wrap32-eq : (z : ℤ) → IsInt32 z → wrap32 z ≡ z
unfolding wrap32
wrap32-eq z h = ground arith

pub wrap32-IsInt32 : (z : ℤ) → IsInt32 (wrap32 z)
unfolding wrap32
wrap32-IsInt32 z = ground arith
