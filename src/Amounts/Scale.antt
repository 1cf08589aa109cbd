-- ===== src/Amounts/Scale.antt =====
-- The loop that scales a square-root price by 1.0001 per tick, with the rounding of each round.
use native.Mathlib.Nat.{pow-suc, mul-le-mul, le_refl}
use stablecoin_mmm.Base.{ℕ, zero, suc, ◌+◌, ◌*◌, ◌/◌, ◌^◌, ◌≤◌, ◌≡◌, refl, ap, arith}
use stablecoin_mmm.Base.Int.{ℤ, pos, pos_part, ◌≤ℤ◌}
use stablecoin_mmm.Amounts.{scale_up, sqrt_at_tick}

le-round : (x : ℕ) → x ≤ x * 10_001 / 10_000
le-round x = omega arith

pub le-scale_up : (rounds x : ℕ) → x ≤ scale_up rounds x
unfolding scale_up
le-scale_up zero x = omega arith
le-scale_up (suc n) x = omega (arith, le-scale_up n (x * 10_001 / 10_000))

-- Each round adds at least what a ten-thousandth of the start is.
pub linear-le-scale_up : (n d x : ℕ) → d ≤ x / 10_000 → x + n * d ≤ scale_up n x
unfolding scale_up
linear-le-scale_up zero d x h = omega arith
linear-le-scale_up (suc n) d x h =
    let next : x + d ≤ x * 10_001 / 10_000 = omega (arith, h) in
    grind (arith, linear-le-scale_up n d (x * 10_001 / 10_000) (omega (arith, h)))

-- More rounds never give less.
pub scale_up_mono : (m n x : ℕ) → m ≤ n → scale_up m x ≤ scale_up n x
unfolding scale_up
scale_up_mono zero n x h = le-scale_up n x
scale_up_mono (suc m) zero x h = absurd (omega arith)
scale_up_mono (suc m) (suc n) x h = scale_up_mono m n (x * 10_001 / 10_000) (omega arith)

pub sqrt_at_tick-pos : (tick : ℤ) → (k : ℕ) × (2 ^ 96 ≤ k) × (sqrt_at_tick tick ≡ pos k)
unfolding sqrt_at_tick
sqrt_at_tick-pos tick =
    (scale_up (pos_part tick) (2 ^ 96), le-scale_up (pos_part tick) (2 ^ 96), refl)

pub sqrt_at_tick_mono : (s t : ℤ) → s ≤ℤ t → sqrt_at_tick s ≤ℤ sqrt_at_tick t
unfolding sqrt_at_tick
sqrt_at_tick_mono s t h =
    omega (arith, scale_up_mono (pos_part s) (pos_part t) (2 ^ 96) (parts s t h))
  where
    parts : (s t : ℤ) → s ≤ℤ t → pos_part s ≤ pos_part t
    parts s t h = ground arith

-- The loop does nothing at a tick that is not positive.
pub sqrt_at_tick_nonpos : (tick : ℤ) → tick ≤ℤ pos 0 → sqrt_at_tick tick ≡ pos (2 ^ 96)
unfolding sqrt_at_tick scale_up
sqrt_at_tick_nonpos tick h = ap (λ n. pos (scale_up n (2 ^ 96))) (none_left tick h)
  where
    none_left : (t : ℤ) → t ≤ℤ pos 0 → pos_part t ≡ 0
    none_left t k = ground arith

power_step :
    (s x' x p q : ℕ)
    → s * p ≤ x' * q
    → x' * 10_000 ≤ x * 10_001
    → s * (p * 10_000) ≤ x * (q * 10_001)
power_step s x' x p q h k = omega (arith, mul-le-mul k (le_refl q))

-- With the rounding, the scaled price never exceeds the exact power: after n rounds it is at most
-- x · 1.0001^n.
pub scale_up-le-power : (n x : ℕ) → scale_up n x * 10_000 ^ n ≤ x * 10_001 ^ n
unfolding scale_up
scale_up-le-power zero x = omega arith
scale_up-le-power (suc n) x =
    let x' = x * 10_001 / 10_000 in
    rw (pow-suc 10_000 n, pow-suc 10_001 n)
      (power_step (scale_up n x') x' x (10_000 ^ n) (10_001 ^ n) (scale_up-le-power n x')
        (omega arith))
