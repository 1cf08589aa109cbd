-- ===== src/Rebalancer/Swap.antt =====
-- The amounts of the stabilizing swap in pkg/rebalancer/service.go.
use native.Mathlib.Nat.{mul-le-mul, le_refl}
use stablecoin_mmm.Base.{ℕ, ◌+◌, ◌-◌, ◌*◌, ◌/◌, ◌≤◌, ◌<◌, ◌≡◌, ◌⊎◌, true, false, some, arith}
use stablecoin_mmm.Base.Int.{pos, ◌-ℤ◌, ◌*ℤ◌, div_big}
use stablecoin_mmm.Base.Word.{wrap64}
use stablecoin_mmm.Base.Float.{Float, IsOrdered}
use stablecoin_mmm.Config.{StabilizationConfig}
use stablecoin_mmm.Rebalancer.Core.{swap_value, min_out}

module _ {F : Type 0} ⦃f : Float F⦄ (order : IsOrdered f) where
  -- The swap never takes more than is available nor more than the configured maximum, even where one
  -- of the numbers is NaN. It takes less than the minimum only where what is available or the maximum
  -- is below the minimum.
  pub swap_value_bounds :
      (cfg : StabilizationConfig F) (available : F)
      → let v = swap_value cfg available in
        (f.lt available v ≡ false)
        × (f.lt cfg.max_swap_amount v ≡ false)
        × ((f.lt v cfg.min_swap_amount ≡ false)
            ⊎ (f.lt available cfg.min_swap_amount ≡ true)
            ⊎ (f.lt cfg.max_swap_amount cfg.min_swap_amount ≡ true))
  unfolding swap_value
  swap_value_bounds cfg available =
      let share = f.div (f.mul available (f.of_int cfg.swap_amount_bps)) (f.dec 10_000 0) in
      ground (
        arith,
        order.lt_irrefl available,
        order.lt_irrefl cfg.max_swap_amount,
        order.lt_irrefl cfg.min_swap_amount,
        order.lt_trans cfg.max_swap_amount available cfg.max_swap_amount,
        order.lt_trans cfg.max_swap_amount available cfg.min_swap_amount,
        order.lt_trans cfg.max_swap_amount available share,
      )

min_out_product :
    (a s : ℕ) → s ≤ 10_000 → min_out (pos a) (pos s) ≡ some (pos (a * (10_000 - s) / 10_000))
unfolding min_out ◌-ℤ◌ ◌*ℤ◌ div_big wrap64
min_out_product a s h = ground arith

-- For an amount in and a slippage of at most 10000 basis points, the least amount out is the exact
-- share of the amount in that the slippage leaves, rounded down: it exists, and never exceeds it.
pub min_out_bounds :
    (a s : ℕ)
    → s ≤ 10_000
    → (m : ℕ) × (min_out (pos a) (pos s) ≡ some (pos m))
      × (m ≤ a)
      × (m * 10_000 ≤ a * (10_000 - s))
      × (a * (10_000 - s) < (m + 1) * 10_000)
min_out_bounds a s h =
    let le : a * (10_000 - s) ≤ a * 10_000 = mul-le-mul (le_refl a) (omega arith) in
    (a * (10_000 - s) / 10_000, min_out_product a s h, omega arith, omega arith, omega arith)
