-- ===== src/Amounts/Negative.antt =====
-- The negative amounts of `calculateTokenAmounts` of pkg/executor/service.go: the loops that compute a
-- square-root price run no round at ticks that are not positive, and scale by 1.0001 per tick, and not
-- by its square root, at the others.
use stablecoin_mmm.Base.{
  ℕ, suc, ◌+◌, ◌-◌, ◌≤◌, refl, ◌*◌, ◌/◌, ◌^◌, ◌<◌, ◌≡◌, ap, some, arith, inl, inr, ◌⊎◌,
}
use stablecoin_mmm.Base.Int.{ℤ, pos, negsuc, ◌≤ℤ◌, ◌<ℤ◌}
use stablecoin_mmm.Base.Float.{Float, BigFloat}
use stablecoin_mmm.Amounts.{
  scale_up, sqrt_at_tick, amounts_at, tick_of_sqrt_price, calculate_token_amounts,
}
use stablecoin_mmm.Amounts.Scale.{
  sqrt_at_tick-pos, sqrt_at_tick_nonpos, sqrt_at_tick_mono, linear-le-scale_up,
}
use stablecoin_mmm.Amounts.Signs.{
  amount0_between-eq, amount1_between-eq, amount1_between-neg, amounts_at_below, amounts_at_above,
  amounts_at_inside,
}
use stablecoin_mmm.Amounts.Total.{calculate-eq-amounts_at}

sqrt_at_tick_pos : (a : ℕ) → sqrt_at_tick (pos a) ≡ pos (scale_up a (2 ^ 96))
unfolding sqrt_at_tick
sqrt_at_tick_pos a = refl

scale_up-le :
    (a z : ℕ) (upper : ℤ) → pos a ≤ℤ upper → sqrt_at_tick upper ≡ pos z → scale_up a (2 ^ 96) ≤ z
scale_up-le a z upper h e = ground (arith, sqrt_at_tick_mono (pos a) upper h, sqrt_at_tick_pos a, e)

amounts_at_negative :
    (cur : ℤ) (l p : ℕ) (lower upper : ℤ)
    → lower ≤ℤ pos 0
    → upper ≤ℤ pos 0
    → (cur ≤ℤ lower) ⊎ ((lower <ℤ cur) × (upper ≤ℤ cur))
    → amounts_at cur (pos l) lower upper (pos p) ≡ some (pos 0, pos 0)
amounts_at_negative cur l p lower upper low high (inl below) =
    rw
      (
        amounts_at_below cur (pos l) lower upper (pos p) below,
        sqrt_at_tick_nonpos lower low,
        sqrt_at_tick_nonpos upper high,
        amount0_between-eq l (2 ^ 96) (2 ^ 96) (omega arith) (omega arith),
      )
      (ap (λ n. some (pos n, pos 0)) (omega arith))
amounts_at_negative cur l p lower upper low high (inr (over, above)) =
    rw
      (
        amounts_at_above cur (pos l) lower upper (pos p) over above,
        sqrt_at_tick_nonpos lower low,
        sqrt_at_tick_nonpos upper high,
        amount1_between-eq l (2 ^ 96) (2 ^ 96) (omega arith),
      )
      (ap (λ n. some (pos 0, pos n)) (omega arith))

module _ (F B : Type 0) ⦃f : Float F⦄ ⦃b : BigFloat F B⦄ where
  -- Where neither end of the range is above tick zero, a price outside the range is reported with no
  -- tokens at all, however much liquidity there is.
  pub negative_range_outside :
      (l p : ℕ) (lower upper : ℤ)
      → lower ≤ℤ pos 0
      → upper ≤ℤ pos 0
      → (tick_of_sqrt_price F B (pos (suc p)) ≤ℤ lower)
        ⊎ ((lower <ℤ tick_of_sqrt_price F B (pos (suc p)))
            × (upper ≤ℤ tick_of_sqrt_price F B (pos (suc p))))
      → calculate_token_amounts F B (pos (suc l)) lower upper (pos (suc p)) ≡ some (pos 0, pos 0)
  negative_range_outside l p lower upper low high outside =
      rw (calculate-eq-amounts_at F B l p lower upper) (
        amounts_at_negative (tick_of_sqrt_price F B (pos (suc p))) (suc l) (suc p) lower upper low
          high outside)

  -- Where the lower end is at or below tick zero and the current tick is inside the range, a
  -- square-root price below 2^96, that is a price below 1, yields a negative amount of token 1.
  pub below_par_negative :
      (l p : ℕ) (lower upper : ℤ)
      → lower ≤ℤ pos 0
      → lower <ℤ tick_of_sqrt_price F B (pos (suc p))
      → tick_of_sqrt_price F B (pos (suc p)) <ℤ upper
      → suc p < 2 ^ 96
      → (x : ℤ) × (n : ℕ) × (calculate_token_amounts F B (pos (suc l)) lower upper (pos (suc p))
          ≡ some (x, negsuc n))
  below_par_negative l p lower upper low above below small =
      let (z, hz, ez) = sqrt_at_tick-pos upper in
      let e = sqrt_at_tick_nonpos lower low in
      (
        pos (suc l * (z - suc p) * 2 ^ 96 / (suc p * z)),
        (suc l * suc (2 ^ 96 - suc p - 1) - 1) / 2 ^ 96,
        rw (
          calculate-eq-amounts_at F B l p lower upper,
          amounts_at_inside _ (pos (suc l)) lower upper (pos (suc p)) above below,
          ez,
          e,
          amount0_between-eq (suc l) (suc p) z (omega arith) (omega arith),
          amount1_between-neg l (2 ^ 96) (suc p) small,
        ),
      )

  -- Where the lower end is at a tick a that is not negative and the current tick is inside the range,
  -- a square-root price below 2^96 plus a times the ten-thousandth of 2^96, rounded down, yields a
  -- negative amount of token 1.
  pub above_par_negative :
      (l p a : ℕ) (upper : ℤ)
      → pos a <ℤ tick_of_sqrt_price F B (pos (suc p))
      → tick_of_sqrt_price F B (pos (suc p)) <ℤ upper
      → suc p < 2 ^ 96 + a * (2 ^ 96 / 10_000)
      → (x : ℤ) × (n : ℕ) × (calculate_token_amounts F B (pos (suc l)) (pos a) upper (pos (suc p))
          ≡ some (x, negsuc n))
  above_par_negative l p a upper above below small =
      let k = scale_up a (2 ^ 96) in
      let low : suc p < k =
        omega (arith, linear-le-scale_up a (2 ^ 96 / 10_000) (2 ^ 96) (omega arith), small) in
      let (z, hz, ez) = sqrt_at_tick-pos upper in
      let high : k ≤ z = scale_up-le a z upper (omega arith) ez in
      (
        pos (suc l * (z - suc p) * 2 ^ 96 / (suc p * z)),
        (suc l * suc (k - suc p - 1) - 1) / 2 ^ 96,
        rw (
          calculate-eq-amounts_at F B l p (pos a) upper,
          amounts_at_inside _ (pos (suc l)) (pos a) upper (pos (suc p)) above below,
          ez,
          sqrt_at_tick_pos a,
          amount0_between-eq (suc l) (suc p) z (omega arith) (omega arith),
          amount1_between-neg l k (suc p) low,
        ),
      )
