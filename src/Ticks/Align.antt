-- ===== src/Ticks/Align.antt =====
-- `AlignTickToSpacing` of pkg/executor/service.go, and the ranges that `CalculateTickRange` makes.
use native.Mathlib.Nat.{mul-div_left, le-div_iff_mul-le, le_trans, zero-div}
use stablecoin_mmm.Base.{ℕ, zero, suc, ◌+◌, ◌*◌, ◌/◌, ◌≤◌, ◌<◌, ◌≡◌, ◌∙◌, ap, arith}
use stablecoin_mmm.Base.Int.{
  ℤ, pos, negsuc, pos_part, neg_part, ◌*ℤ◌, ◌+ℤ◌, ◌≤ℤ◌, ◌<ℤ◌, quot_ℤ, negate, int_laws, +ℤ_parts,
}
use stablecoin_mmm.Base.Word.{IsInt32, wrap32-eq}
use stablecoin_mmm.Base.Float.{Float, IsWordValued}
use stablecoin_mmm.Ticks.{
  get_tick_spacing, align_tick_to_spacing, price_to_tick, calculate_tick_range,
}

-- The multiples of the spacing that lie nearest to a tick on the side of zero.
abbrev pub towards_zero : ℤ → ℕ → ℤ
towards_zero (pos n) s = pos (n / s * s)
towards_zero (negsuc n) s = negate (pos (suc n / s * s))

negate-mul : (q s : ℕ) → negate (pos q) *ℤ pos s ≡ negate (pos (q * s))
unfolding ◌*ℤ◌
negate-mul zero s = ground arith
negate-mul (suc q) s = ground arith

product_towards_zero : (tick : ℤ) (s : ℕ) → quot_ℤ tick (pos s) *ℤ pos s ≡ towards_zero tick s
unfolding quot_ℤ
product_towards_zero (pos n) s = unfold ◌*ℤ◌ in ground arith
product_towards_zero (negsuc n) s = negate-mul (suc n / s) s

div-mul-le : (n s : ℕ) → n / s * s ≤ n
div-mul-le n s = grind arith

towards_zero-IsInt32 : (tick : ℤ) (s : ℕ) → IsInt32 tick → IsInt32 (towards_zero tick s)
towards_zero-IsInt32 (pos n) s h = omega (arith, div-mul-le n s)
towards_zero-IsInt32 (negsuc n) s h = ground (arith, div-mul-le (suc n) s)

-- No wrap-around: the aligned tick is the exact product.
pub align_tick-eq :
    (tick : ℤ) (s : ℕ) → IsInt32 tick → align_tick_to_spacing tick (pos s) ≡ towards_zero tick s
unfolding align_tick_to_spacing
align_tick-eq tick s h =
    rw
      (product_towards_zero tick s, wrap32-eq (towards_zero tick s) (towards_zero-IsInt32 tick s h))
      (ground arith)

negate_parts : (k : ℕ) → (pos_part (negate (pos k)) ≡ 0) × (neg_part (negate (pos k)) ≡ k)
negate_parts k = ground arith

lt-div-mul : (n s : ℕ) → 0 < s → n < n / s * s + s
lt-div-mul n s h = grind arith

div-div-mul : (n s : ℕ) → 0 < s → n / s * s / s * s ≡ n / s * s
div-div-mul n s h = ap (λ q. q * s) (mul-div_left (n / s) h)

div-mul_mono : (m n s : ℕ) → 0 < s → m ≤ n → m / s * s ≤ n / s * s
div-mul_mono m n s h le =
    let q : m / s ≤ n / s = (le-div_iff_mul-le h).1 (le_trans (div-mul-le m s) le) in grind arith

towards_zero_brackets :
    (t : ℤ) (s : ℕ)
    → 0 < s
    → (pos 0 ≤ℤ t → (towards_zero t s ≤ℤ t) × (t <ℤ towards_zero t s +ℤ pos s))
      × (t <ℤ pos 0 → (t ≤ℤ towards_zero t s) × (towards_zero t s <ℤ t +ℤ pos s))
towards_zero_brackets (pos n) s h =
    omega (int_laws, div-mul-le n s, lt-div-mul n s h, +ℤ_parts (pos (n / s * s)) (pos s))
towards_zero_brackets (negsuc n) s h = omega (
  int_laws,
  div-mul-le (suc n) s,
  lt-div-mul (suc n) s h,
  negate_parts (suc n / s * s),
  +ℤ_parts (negsuc n) (pos s),
)

negate-suc : (k : ℕ) → negate (pos (suc k)) ≡ negsuc k
negate-suc k = ground arith

towards_zero-negate : (k s : ℕ) → 0 < s → towards_zero (negate (pos k)) s ≡ negate (pos (k / s * s))
towards_zero-negate zero s h = ground (arith, zero-div s)
towards_zero-negate (suc k) s h = rw (negate-suc k)

towards_zero_idempotent :
    (t : ℤ) (s : ℕ) → 0 < s → towards_zero (towards_zero t s) s ≡ towards_zero t s
towards_zero_idempotent (pos n) s h = ap pos (div-div-mul n s h)
towards_zero_idempotent (negsuc n) s h =
    towards_zero-negate (suc n / s * s) s h ∙ ap (λ k. negate (pos k)) (div-div-mul (suc n) s h)

towards_zero_mono : (t u : ℤ) (s : ℕ) → 0 < s → t ≤ℤ u → towards_zero t s ≤ℤ towards_zero u s
towards_zero_mono (pos m) (pos n) s h le = ground (arith, div-mul_mono m n s h)
towards_zero_mono (pos m) (negsuc n) s h le = absurd (omega arith)
towards_zero_mono (negsuc m) (pos n) s h le = omega (arith, negate_parts (suc m / s * s))
towards_zero_mono (negsuc m) (negsuc n) s h le = omega (
  arith,
  negate_parts (suc m / s * s),
  negate_parts (suc n / s * s),
  div-mul_mono (suc n) (suc m) s h (omega arith),
)

-- On a tick that is not negative the aligned tick is the multiple of the spacing at it or next below
-- it.
pub align_tick_nonneg :
    (tick : ℤ) (s : ℕ)
    → 0 < s
    → IsInt32 tick
    → pos 0 ≤ℤ tick
    → (align_tick_to_spacing tick (pos s) ≤ℤ tick)
      × (tick <ℤ align_tick_to_spacing tick (pos s) +ℤ pos s)
align_tick_nonneg tick s positive h sign =
    rw (align_tick-eq tick s h) ((towards_zero_brackets tick s positive).0 sign)

-- On a negative tick the aligned tick is the multiple of the spacing at it or next ABOVE it: less
-- than a whole spacing above, and not below.
pub align_tick_negative :
    (tick : ℤ) (s : ℕ)
    → 0 < s
    → IsInt32 tick
    → tick <ℤ pos 0
    → (tick ≤ℤ align_tick_to_spacing tick (pos s))
      × (align_tick_to_spacing tick (pos s) <ℤ tick +ℤ pos s)
align_tick_negative tick s positive h sign =
    rw (align_tick-eq tick s h) ((towards_zero_brackets tick s positive).1 sign)

-- An aligned tick is left alone by a second alignment.
pub align_tick_idempotent :
    (tick : ℤ) (s : ℕ)
    → 0 < s
    → IsInt32 tick
    → align_tick_to_spacing (align_tick_to_spacing tick (pos s)) (pos s)
      ≡ align_tick_to_spacing tick (pos s)
align_tick_idempotent tick s positive h =
    rw
      (
        align_tick-eq tick s h,
        align_tick-eq (towards_zero tick s) s (towards_zero-IsInt32 tick s h),
      )
      (towards_zero_idempotent tick s positive)

-- Alignment keeps the order of two ticks, across zero too.
pub align_tick_mono :
    (t u : ℤ) (s : ℕ)
    → 0 < s
    → IsInt32 t
    → IsInt32 u
    → t ≤ℤ u
    → align_tick_to_spacing t (pos s) ≤ℤ align_tick_to_spacing u (pos s)
align_tick_mono t u s positive ht hu le =
    rw (align_tick-eq t s ht, align_tick-eq u s hu) (towards_zero_mono t u s positive le)

get_tick_spacing_pos : (fee : ℕ) → (s : ℕ) × (0 < s) × (get_tick_spacing fee ≡ pos s)
unfolding get_tick_spacing
get_tick_spacing_pos fee =
    (pos_part (get_tick_spacing fee), unfold get_tick_spacing in ground arith, ground arith)

module _ {F : Type 0} ⦃f : Float F⦄ (range : IsWordValued f) where
  price_to_tick-IsInt32 : (price : F) → IsInt32 (price_to_tick price)
  unfolding price_to_tick
  price_to_tick-IsInt32 price = ground (
    arith,
    range.to_int32_range (f.floor (f.div (f.log (f.sqrt price)) (f.log (f.dec 10_001 4)))),
  )

  -- Both ends of a computed range are ticks at which a position of that fee may stand: aligning them
  -- again with the spacing of the fee changes nothing.
  pub calculate_tick_range_aligned :
      (ref_price : F) (fee : ℕ) (range_bps : ℤ)
      → let (lower, upper) = calculate_tick_range ref_price fee range_bps in
        (align_tick_to_spacing lower (get_tick_spacing fee) ≡ lower)
        × (align_tick_to_spacing upper (get_tick_spacing fee) ≡ upper)
  unfolding calculate_tick_range
  calculate_tick_range_aligned ref_price fee range_bps =
      let (s, positive, e) = get_tick_spacing_pos fee in
      rw e (
        align_tick_idempotent _ s positive (price_to_tick-IsInt32 _),
        align_tick_idempotent _ s positive (price_to_tick-IsInt32 _),
      )
