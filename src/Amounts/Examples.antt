-- ===== src/Amounts/Examples.antt =====
-- The theorems on the amounts of a position at concrete inputs.
use stablecoin_mmm.Base.{ℕ, suc, ◌≡◌, ◌^◌, refl, some, arith}
use stablecoin_mmm.Base.Int.{ℤ, pos, negsuc, ◌+ℤ◌, ◌-ℤ◌, ◌*ℤ◌, quot_ℤ}
use stablecoin_mmm.Base.Word.{wrap64, wrap32}
use stablecoin_mmm.Base.Fixed.{Fixed, fixed_float, fixed_big}
use stablecoin_mmm.Amounts.{tick_of_sqrt_price, calculate_token_amounts}
use stablecoin_mmm.Amounts.Total.{calculate_token_amounts_total}
use stablecoin_mmm.Amounts.Negative.{below_par_negative, above_par_negative}

-- At par the tick is 0 and the price 2^96.
tick_at_par : tick_of_sqrt_price Fixed Fixed (pos (2 ^ 96)) ≡ pos 0
unfolding tick_of_sqrt_price ◌+ℤ◌ ◌-ℤ◌ ◌*ℤ◌ quot_ℤ wrap64 wrap32
tick_at_par = refl

calculate_token_amounts_total_example :
    (r : ℤ × ℤ) × (calculate_token_amounts Fixed Fixed (negsuc 5) (negsuc 9) (pos 10) (pos 1)
      ≡ some r)
calculate_token_amounts_total_example =
    calculate_token_amounts_total Fixed Fixed (negsuc 5) (negsuc 9) (pos 10) (pos 1)

-- A price of almost nothing reads as tick 0.
tick_of_one : tick_of_sqrt_price Fixed Fixed (pos 1) ≡ pos 0
unfolding tick_of_sqrt_price ◌+ℤ◌ ◌-ℤ◌ ◌*ℤ◌ quot_ℤ wrap64 wrap32
tick_of_one = refl

below_par_negative_example :
    (x : ℤ) × (n : ℕ) × (calculate_token_amounts Fixed Fixed (pos 1000) (negsuc 9) (pos 10) (pos 1)
      ≡ some (x, negsuc n))
below_par_negative_example =
    below_par_negative Fixed Fixed 999 0 (negsuc 9) (pos 10) (omega arith)
      (rw tick_of_one (omega arith)) (rw tick_of_one (omega arith)) (omega arith)

-- The price 1.010025, at tick 100.
abbrev at_hundred : ℕ
at_hundred = 79624303326835659281511670086

tick_at_hundred : tick_of_sqrt_price Fixed Fixed (pos (suc at_hundred)) ≡ pos 100
unfolding tick_of_sqrt_price ◌+ℤ◌ ◌-ℤ◌ ◌*ℤ◌ quot_ℤ wrap64 wrap32
tick_at_hundred = refl

above_par_negative_example :
    (x : ℤ) × (n : ℕ) × (calculate_token_amounts Fixed Fixed
        (pos 1000)
        (pos 90)
        (pos 110)
        (pos (suc at_hundred))
      ≡ some (x, negsuc n))
above_par_negative_example =
    above_par_negative Fixed Fixed 999 at_hundred 90 (pos 110) (rw tick_at_hundred (omega arith))
      (rw tick_at_hundred (omega arith)) (omega arith)
