-- ===== src/Amounts/Signs.antt =====
-- The signs of the amounts of `calculateTokenAmounts` of pkg/executor/service.go.
use stablecoin_mmm.Base.{ℕ, zero, suc, ◌-◌, ◌*◌, ◌/◌, ◌^◌, ◌≤◌, ◌<◌, ◌≡◌, refl, some, arith}
use stablecoin_mmm.Base.Int.{ℤ, pos, negsuc, ◌-ℤ◌, ◌*ℤ◌, ◌≤ℤ◌, ◌<ℤ◌, div_big}
use stablecoin_mmm.Amounts.{sqrt_at_tick, amount0_between, amount1_between, both, amounts_at}

pos-mul : (a b : ℕ) → pos a *ℤ pos b ≡ pos (a * b)
unfolding ◌*ℤ◌
pos-mul a b = ground arith

pos-sub : (a b : ℕ) → b ≤ a → pos a -ℤ pos b ≡ pos (a - b)
unfolding ◌-ℤ◌
pos-sub a b h = ground arith

neg-sub : (a b : ℕ) → a < b → pos a -ℤ pos b ≡ negsuc (b - a - 1)
unfolding ◌-ℤ◌
neg-sub a b h = ground arith

pos-mul-negsuc : (l k : ℕ) → pos (suc l) *ℤ negsuc k ≡ negsuc (suc l * suc k - 1)
unfolding ◌*ℤ◌
pos-mul-negsuc l k = let positive : 0 < suc l * suc k = grind arith in ground arith

div_big-pos : (a d : ℕ) → 0 < d → div_big (pos a) (pos d) ≡ some (pos (a / d))
unfolding div_big
div_big-pos a zero h = elim h [ ]
div_big-pos a (suc d) h = refl

-- With the prices in order both amounts are the rounded-down quotients of natural numbers.
pub amount0_between-eq :
    (l a b : ℕ)
    → a ≤ b
    → 0 < a
    → amount0_between (pos l) (pos a) (pos b) ≡ some (pos (l * (b - a) * 2 ^ 96 / (a * b)))
unfolding amount0_between
amount0_between-eq l a b h positive =
    rw (pos-sub b a h, pos-mul l (b - a), pos-mul (l * (b - a)) (2 ^ 96), pos-mul a b)
      (div_big-pos (l * (b - a) * 2 ^ 96) (a * b) (grind arith))

pub amount1_between-eq :
    (l a b : ℕ)
    → a ≤ b
    → amount1_between (pos l) (pos a) (pos b) ≡ some (pos (l * (b - a) / 2 ^ 96))
unfolding amount1_between
amount1_between-eq l a b h =
    rw (pos-sub b a h, pos-mul l (b - a)) (div_big-pos (l * (b - a)) (2 ^ 96) (omega arith))

pub amount1_between-neg :
    (l a b : ℕ)
    → b < a
    → amount1_between (pos (suc l)) (pos a) (pos b)
      ≡ some (negsuc ((suc l * suc (a - b - 1) - 1) / 2 ^ 96))
unfolding amount1_between div_big
amount1_between-neg l a b h = rw (neg-sub b a h, pos-mul-negsuc l (a - b - 1))

both-some : (a b : ℤ) → both (some a) (some b) ≡ some (a, b)
both-some a b = refl

-- Branches of `amounts_at`, by the place of the current tick.
pub amounts_at_below :
    (cur liquidity lower upper p : ℤ)
    → cur ≤ℤ lower
    → amounts_at cur liquidity lower upper p
      ≡ both (amount0_between liquidity (sqrt_at_tick lower) (sqrt_at_tick upper)) (some (pos 0))
unfolding amounts_at
amounts_at_below cur liquidity lower upper p h = ground arith

pub amounts_at_above :
    (cur liquidity lower upper p : ℤ)
    → lower <ℤ cur
    → upper ≤ℤ cur
    → amounts_at cur liquidity lower upper p
      ≡ both (some (pos 0)) (amount1_between liquidity (sqrt_at_tick lower) (sqrt_at_tick upper))
unfolding amounts_at
amounts_at_above cur liquidity lower upper p h k = ground arith

pub amounts_at_inside :
    (cur liquidity lower upper p : ℤ)
    → lower <ℤ cur
    → cur <ℤ upper
    → amounts_at cur liquidity lower upper p
      ≡ both
          (amount0_between liquidity p (sqrt_at_tick upper))
          (amount1_between liquidity (sqrt_at_tick lower) p)
unfolding amounts_at
amounts_at_inside cur liquidity lower upper p h k = ground arith
