-- ===== src/Base/Fixed.antt =====
-- Fixed-point numbers with eight decimals. They show that the laws of `Base.Float` can be met, and
-- the tests and examples run on them.
use Prim.Native.Nat.{◌*◌, ◌/◌, ◌^◌}
use native.Mathlib.Omega.{arith}
use stablecoin_mmm.Base.Tests.{if◌then◌else◌}
use stablecoin_mmm.Base.Int.{ℤ, pos, negsuc, ◌+ℤ◌, ◌-ℤ◌, ◌*ℤ◌, ltb_ℤ, leb_ℤ, quot_ℤ, negate}
use stablecoin_mmm.Base.Word.{wrap64, wrap32, wrap64-IsInt64, wrap32-IsInt32}
use stablecoin_mmm.Base.Float.{Float, BigFloat, IsOrdered, IsWordValued}

pub record Fixed : Type 0 where
  pub raw : ℤ

abbrev pub fixed : ℤ → Fixed
fixed z = record { raw = z }

abbrev scale : ℤ
scale = pos (10 ^ 8)

abbrev absolute : ℤ → ℤ
absolute z = if ltb_ℤ z (pos 0) then negate z else z

-- One round of Newton's method from 1, and the first term of the logarithm's series.
instance abbrev pub fixed_float : Float Fixed
fixed_float = record {
  dec = λ m k. fixed (pos (m * 10 ^ 8 / 10 ^ k));
  of_int = λ z. fixed (z *ℤ scale);
  to_int = λ x. wrap64 (quot_ℤ x.raw scale);
  to_int32 = λ x. wrap32 (quot_ℤ x.raw scale);
  lt = λ x y. ltb_ℤ x.raw y.raw;
  le = λ x y. leb_ℤ x.raw y.raw;
  add = λ x y. fixed (x.raw +ℤ y.raw);
  sub = λ x y. fixed (x.raw -ℤ y.raw);
  mul = λ x y. fixed (quot_ℤ (x.raw *ℤ y.raw) scale);
  div = λ x y. fixed (quot_ℤ (x.raw *ℤ scale) y.raw);
  neg = λ x. fixed (negate x.raw);
  abs = λ x. fixed (absolute x.raw);
  log = λ x. fixed (x.raw -ℤ scale);
  sqrt = λ x. fixed (quot_ℤ (x.raw +ℤ scale) (pos 2));
  floor = λ x. x;
  pow = λ x y. x;
}

instance abbrev pub fixed_big : BigFloat Fixed Fixed
fixed_big = record {
  new_float = λ x. x;
  to_float64 = λ x. x;
  set_int = λ z. fixed (z *ℤ scale);
  sub = λ x y. fixed (x.raw -ℤ y.raw);
  mul = λ x y. fixed (quot_ℤ (x.raw *ℤ y.raw) scale);
  quo = λ x y. fixed (quot_ℤ (x.raw *ℤ scale) y.raw);
  abs = λ x. fixed (absolute x.raw);
  sign =
      λ x. if ltb_ℤ x.raw (pos 0) then negsuc 0 else if ltb_ℤ (pos 0) x.raw then pos 1 else pos 0;
}

pub Fixed-IsOrdered : IsOrdered fixed_float
Fixed-IsOrdered = record { lt_irrefl = λ x. ground arith; lt_trans = λ x y z h k. ground arith }

pub Fixed-IsWordValued : IsWordValued fixed_float
Fixed-IsWordValued = record {
  to_int_range = λ x. wrap64-IsInt64 (quot_ℤ x.raw scale);
  to_int32_range = λ x. wrap32-IsInt32 (quot_ℤ x.raw scale);
}
