-- ===== src/Risk.antt =====
-- pkg/risk/engine.go: the risk engine, its circuit breaker and its counters. Each call of
-- `time.Now` is an argument `now`, in nanoseconds; the text of a reason is a constructor that
-- carries the numbers the text shows.
pub mod Breaker
pub mod Verdict
pub mod Counters
mod Examples
use stablecoin_mmm.Base.{Bool, true, false, not, ltb, if◌then◌else◌}
use stablecoin_mmm.Base.Int.{ℤ, pos, ◌+ℤ◌, ltb_ℤ, eqb_ℤ}
use stablecoin_mmm.Base.Word.{wrap64}
use stablecoin_mmm.Base.Time.{zero_time, minute, times, since}
use stablecoin_mmm.Base.Float.{Float, BigFloat}
use stablecoin_mmm.Config.{Config}

pub data RiskSeverity : Type 0 where
  low medium high critical : RiskSeverity

pub data Reason (F : Type 0) : Type 0 where
  price_deviation_exceeds : F → Reason F
  circuit_breaker_is_active : Reason F
  daily_loss_exceeds : F → Reason F
  twap_deviation_too_high : F → Reason F
  risk_check_passed : Reason F
  trade_size_exceeds : F → ℤ → Reason F
  trade_size_check_passed : Reason F

pub record RiskCheck (F : Type 0) : Type 0 where
  pub allowed : Bool
  pub reason : Reason F
  pub severity : RiskSeverity
  pub should_stop : Bool
  pub should_withdraw : Bool

pub record RiskEngine (F : Type 0) : Type 0 where
  pub cfg : Config F
  pub daily_loss : F
  pub circuit_breaker_start : ℤ
  pub is_circuit_breaker : Bool
  pub total_volume : F
  pub failed_trades : ℤ
  pub total_trades : ℤ

module _ {F : Type 0} where
  unfoldable pub trigger_circuit_breaker : ℤ → RiskEngine F → RiskEngine F
  trigger_circuit_breaker now e = record e {
    circuit_breaker_start = now;
    is_circuit_breaker = true;
  }

  unfoldable pub reset_circuit_breaker : RiskEngine F → RiskEngine F
  reset_circuit_breaker e = record e {
    circuit_breaker_start = zero_time;
    is_circuit_breaker = false;
  }

  unfoldable pub is_circuit_breaker_active : RiskEngine F → Bool
  is_circuit_breaker_active e = e.is_circuit_breaker

  unfoldable pub get_daily_loss : RiskEngine F → F
  get_daily_loss e = e.daily_loss

  unfoldable pub record_trade : Bool → RiskEngine F → RiskEngine F
  record_trade success e =
      let total = wrap64 (e.total_trades +ℤ pos 1) in
      if success
      then record e { total_trades = total }
      else record e { failed_trades = wrap64 (e.failed_trades +ℤ pos 1); total_trades = total }

  -- The span for which a triggered breaker stays active.
  unfoldable pub breaker_duration : Config F → ℤ
  breaker_duration cfg = times cfg.risk.circuit_breaker_duration_min minute

module _ {F : Type 0} ⦃f : Float F⦄ where
  unfoldable pub new_risk_engine : Config F → RiskEngine F
  new_risk_engine cfg = record {
    cfg = cfg;
    daily_loss = f.dec 0 0;
    circuit_breaker_start = zero_time;
    is_circuit_breaker = false;
    total_volume = f.dec 0 0;
    failed_trades = pos 0;
    total_trades = pos 0;
  }

  unfoldable pub record_loss : F → RiskEngine F → RiskEngine F
  record_loss amount e = record e { daily_loss = f.add e.daily_loss amount }

  unfoldable pub get_failure_rate : RiskEngine F → F
  get_failure_rate e =
      if eqb_ℤ e.total_trades (pos 0)
      then f.dec 0 0
      else f.div (f.of_int e.failed_trades) (f.of_int e.total_trades)

  unfoldable pub reset_daily_stats : RiskEngine F → RiskEngine F
  reset_daily_stats e = record e {
    daily_loss = f.dec 0 0;
    failed_trades = pos 0;
    total_trades = pos 0;
  }

  -- `float64(bps) / 10000`
  unfoldable pub of_bps : ℤ → F
  of_bps bps = f.div (f.of_int bps) (f.dec 10000 0)

  abbrev pub refusal : Reason F → RiskSeverity → Bool → Bool → RiskCheck F
  refusal why severity stop withdraw = record {
    allowed = false;
    reason = why;
    severity = severity;
    should_stop = stop;
    should_withdraw = withdraw;
  }

  abbrev pub approval : Reason F → RiskCheck F
  approval why = record {
    allowed = true;
    reason = why;
    severity = low;
    should_stop = false;
    should_withdraw = false;
  }

  -- The checks of `CheckRisk` below the circuit breaker; they change nothing.
  unfoldable pub check_limits : RiskEngine F → F → RiskCheck F
  check_limits e twap_deviation =
      if f.lt (of_bps e.cfg.risk.max_daily_loss_bps) e.daily_loss
      then refusal (daily_loss_exceeds (f.mul e.daily_loss (f.dec 100 0))) high true false
      else if f.lt (f.div (of_bps e.cfg.risk.circuit_breaker_deviation_bps) (f.dec 2 0))
          twap_deviation
      then refusal (twap_deviation_too_high (f.mul twap_deviation (f.dec 100 0))) medium false false
      else approval risk_check_passed

  -- `CheckRisk` on the deviations that it computes.
  unfoldable pub check_deviations : ℤ → F → F → RiskEngine F → RiskEngine F × RiskCheck F
  check_deviations now deviation twap_deviation e =
      if f.lt (of_bps e.cfg.risk.circuit_breaker_deviation_bps) deviation
      then (
        trigger_circuit_breaker now e,
        refusal (price_deviation_exceeds (f.mul deviation (f.dec 100 0))) critical true true,
      )
      else if e.is_circuit_breaker
      then if ltb_ℤ (since now e.circuit_breaker_start) (breaker_duration e.cfg)
        then (e, refusal circuit_breaker_is_active high true true)
        else (reset_circuit_breaker e, check_limits (reset_circuit_breaker e) twap_deviation)
      else (e, check_limits e twap_deviation)

module _ {F B : Type 0} ⦃f : Float F⦄ ⦃b : BigFloat F B⦄ where
  unfoldable pub check_risk : ℤ → B → B → F → RiskEngine F → RiskEngine F × RiskCheck F
  check_risk now current_price twap_price ref_price e =
      let current = b.to_float64 current_price in
      let twap = b.to_float64 twap_price in
      check_deviations now (f.abs (f.sub current ref_price)) (f.abs (f.sub twap ref_price)) e

  unfoldable pub check_trade_size : B → B → RiskEngine F → RiskCheck F
  check_trade_size amount0 amount1 e =
      let total_value = f.add (b.to_float64 amount0) (b.to_float64 amount1) in
      if f.lt (of_bps e.cfg.risk.max_single_trade_bps) total_value
      then refusal
          (trade_size_exceeds (f.mul total_value (f.dec 100 0)) e.cfg.risk.max_single_trade_bps)
          medium false false
      else approval trade_size_check_passed
