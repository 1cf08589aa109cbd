-- ===== src/Base/Time.antt =====
-- `time.Time` as nanoseconds since the Unix epoch, and `time.Duration` as an `int64` of them.
use Prim.Native.Nat.{◌*◌, ◌-◌, ◌/◌, ◌^◌}
use stablecoin_mmm.Base.Tests.{if◌then◌else◌}
use stablecoin_mmm.Base.Int.{ℤ, pos, negsuc, ◌-ℤ◌, ◌*ℤ◌, ltb_ℤ}
use stablecoin_mmm.Base.Word.{wrap64, IsInt64, wrap64-IsInt64}

-- `time.Time{}`: the first of January of the year 1.
abbrev pub zero_time : ℤ
zero_time = negsuc (62_135_596_800 * 10 ^ 9 - 1)

abbrev pub second : ℤ
second = pos (10 ^ 9)

abbrev pub minute : ℤ
minute = pos (60 * 10 ^ 9)

-- `time.Duration(n) * unit`.
unfoldable pub times : ℤ → ℤ → ℤ
times n unit = wrap64 (n *ℤ unit)

-- `t.Unix()`: whole seconds, rounded down.
unfoldable pub unix : ℤ → ℤ
unix (pos n) = pos (n / 10 ^ 9)
unix (negsuc n) = negsuc (n / 10 ^ 9)

-- `time.Since`: the difference, held to the range of a duration.
unfoldable pub since : ℤ → ℤ → ℤ
since now t =
    let d = now -ℤ t in
    if ltb_ℤ d (negsuc (2 ^ 63 - 1))
    then negsuc (2 ^ 63 - 1)
    else if ltb_ℤ (pos (2 ^ 63 - 1)) d
    then pos (2 ^ 63 - 1)
    else d

pub times-IsInt64 : (n unit : ℤ) → IsInt64 (times n unit)
unfolding times
times-IsInt64 n unit = wrap64-IsInt64 (n *ℤ unit)
