-- ===== src/Rebalancer/Core.antt =====
-- pkg/rebalancer/service.go: the rebalancer's state and its computations.
-- The state of a call is the rebalancer with the risk engine that it shares and the world.
use stablecoin_mmm.Base.{Bool, true, false, Option, none, some, if◌then◌else◌}
use stablecoin_mmm.Base.Int.{ℤ, pos, ◌-ℤ◌, ◌*ℤ◌, eqb_ℤ, div_big}
use stablecoin_mmm.Base.Word.{wrap64}
use stablecoin_mmm.Base.Float.{Float, BigFloat}
use stablecoin_mmm.Base.Act.{Act, Outcome, GoError, message, wrap}
use stablecoin_mmm.Config.{Config, StabilizationConfig}
use stablecoin_mmm.Risk.{RiskEngine, Reason}
use stablecoin_mmm.Ticks.{uniswap_price_to_tick}
use stablecoin_mmm.Executor.Core.{Executor}

pub record Rebalancer (F B : Type 0) : Type 0 where
  pub cfg : Config F
  pub executor : Option (Executor F)
  pub current_price : B
  pub twap_price : B
  pub ref_price : B
  pub last_rebalance : ℤ
  pub last_stabilize : ℤ
  pub is_running : Bool

pub record State (F B W : Type 0) : Type 0 where
  pub rebalancer : Rebalancer F B
  pub risk : RiskEngine F
  pub world : W

abbrev pub with_world : {F B W A : Type 0} → State F B W → Outcome A × W → Outcome A × State F B W
with_world s (o, w) = (o, record s { world = w })

-- A call of the outside from the rebalancer.
unfoldable pub outside : {F B W A : Type 0} → Act W A → Act (State F B W) A
outside m s = with_world s (m s.world)

-- Why a rebalance goes ahead or does not, with the numbers that the source prints.
pub data Why (F : Type 0) : Type 0 where
  not_running : Why F
  interval_not_reached : Why F
  deviation_exceeds : F → F → Why F
  risk_check_failed : Reason F → Why F
  normal_rebalance : Why F
  stabilization_disabled : Why F
  executor_not_available : Why F
  cooldown_not_reached : Why F
  deviation_below : ℤ → ℤ → Why F
  deviation_reached : ℤ → ℤ → Why F

pub record Decision (F : Type 0) : Type 0 where
  pub should : Bool
  pub reason : Why F

abbrev pub decide : {F : Type 0} → Bool → Why F → Decision F
decide should reason = record { should = should; reason = reason }

module _ {F B : Type 0} ⦃f : Float F⦄ ⦃b : BigFloat F B⦄ where
  -- The two times are the readings of the clock. A reference price that is NaN, on which `big.NewFloat`
  -- panics, is left out with the other values that are not finite.
  unfoldable pub new_rebalancer : Config F → Option (Executor F) → ℤ → ℤ → Rebalancer F B
  new_rebalancer cfg exec last_rebalance last_stabilize = record {
    cfg = cfg;
    executor = exec;
    current_price = b.new_float (f.dec 1 0);
    twap_price = b.new_float (f.dec 1 0);
    ref_price = b.new_float cfg.oracle.ref_price;
    last_rebalance = last_rebalance;
    last_stabilize = last_stabilize;
    is_running = false;
  }

module _ {F B : Type 0} where
  unfoldable pub update_prices : B → B → Rebalancer F B → Rebalancer F B
  update_prices current twap r = record r { current_price = current; twap_price = twap }

  unfoldable pub start : Rebalancer F B → Rebalancer F B
  start r = record r { is_running = true }

  unfoldable pub stop : Rebalancer F B → Rebalancer F B
  stop r = record r { is_running = false }

module _ {F : Type 0} ⦃f : Float F⦄ where
  -- The lower and the upper tick of each tier.
  unfoldable pub range_of_tier : F → ℤ → ℤ × ℤ
  range_of_tier ref_price bps =
      let part = f.div (f.of_int bps) (f.dec 10_000 0) in
      (
        uniswap_price_to_tick (f.mul ref_price (f.sub (f.dec 1 0) part)),
        uniswap_price_to_tick (f.mul ref_price (f.add (f.dec 1 0) part)),
      )

  -- The amount to swap, in units of the token: its share of what is available, raised to the minimum,
  -- then cut to the maximum and to what is available.
  unfoldable pub swap_value : StabilizationConfig F → F → F
  swap_value cfg available =
      let share = f.div (f.mul available (f.of_int cfg.swap_amount_bps)) (f.dec 10_000 0) in
      let raised = if f.lt share cfg.min_swap_amount then cfg.min_swap_amount else share in
      let cut = if f.lt cfg.max_swap_amount raised then cfg.max_swap_amount else raised in
      if f.lt available cut then available else cut

  -- A balance in units of 10^-6, by its low 64 bits.
  unfoldable pub available_of_balance : ℤ → F
  available_of_balance balance = f.div (f.of_int (wrap64 balance)) (f.dec 1_000_000 0)

module _ {F B : Type 0} ⦃f : Float F⦄ ⦃b : BigFloat F B⦄ where
  -- The deviation from the average price; zero where that is zero.
  unfoldable pub calculate_deviation : Rebalancer F B → F
  calculate_deviation r =
      let abs_diff = b.abs (b.sub r.current_price r.twap_price) in
      if eqb_ℤ (b.sign r.twap_price) (pos 0)
      then f.dec 0 1
      else b.to_float64 (b.quo abs_diff r.twap_price)

  unfoldable pub calculate_ranges : Rebalancer F B → (ℤ × ℤ) × (ℤ × ℤ) × (ℤ × ℤ)
  calculate_ranges r = (
    range_of_tier r.cfg.oracle.ref_price r.cfg.bot.core_range_bps,
    range_of_tier r.cfg.oracle.ref_price r.cfg.bot.mid_range_bps,
    range_of_tier r.cfg.oracle.ref_price r.cfg.bot.tail_range_bps,
  )

abbrev pub has_executor : {F : Type 0} → Option (Executor F) → Bool
has_executor none = false
has_executor (some e) = true

abbrev pub last_error : Option GoError → GoError
last_error none = message "stabilization failed"
last_error (some e) = wrap "stabilization failed" e

-- The least amount out that a slippage in basis points leaves.
unfoldable pub min_out : ℤ → ℤ → Option ℤ
min_out amount_in slippage_bps =
    div_big (amount_in *ℤ wrap64 (pos 10_000 -ℤ slippage_bps)) (pos 10_000)
