-- ===== src/Monitor.antt =====
-- pkg/monitor/service.go: the metrics, which a lock guards, and the alerts made of them. Each call
-- holds the lock throughout, so calls are whole steps.
pub mod Alerts
pub mod Profit
use stablecoin_mmm.Base.{
  Bool, true, false, not, ◌&&◌, String, List, [], ◌∷◌, ◌++◌, Option, none, some, if◌then◌else◌,
}
use stablecoin_mmm.Base.Int.{ℤ, pos, ◌+ℤ◌}
use stablecoin_mmm.Base.Time.{zero_time}
use stablecoin_mmm.Base.Float.{Float}
use stablecoin_mmm.Chain.{Chain}
use stablecoin_mmm.Risk.{RiskEngine, is_circuit_breaker_active}
use stablecoin_mmm.Rebalancer.Core.{Rebalancer}

pub record Metrics (F : Type 0) : Type 0 where
  pub current_price : F
  pub twap_price : F
  pub ref_price : F
  pub deviation : F
  pub total_liquidity : F
  pub fees_collected : F
  pub gas_cost : F
  pub net_profit : F
  pub position_count : ℤ
  pub failure_rate : F
  pub last_rebalance : ℤ
  pub status : String

pub data Level : Type 0 where
  warning critical : Level

-- The text of an alert, with the percentage that it shows.
pub data AlertMessage (F : Type 0) : Type 0 where
  deviation_is_high : F → AlertMessage F
  deviation_exceeds_breaker : F → AlertMessage F
  failure_rate_is_high : F → AlertMessage F
  circuit_breaker_active : AlertMessage F

pub record Alert (F : Type 0) : Type 0 where
  pub level : Level
  pub text : AlertMessage F
  pub time : ℤ

module _ {F : Type 0} ⦃f : Float F⦄ where
  unfoldable pub new_metrics : Metrics F
  new_metrics = record {
    current_price = f.dec 0 0;
    twap_price = f.dec 0 0;
    ref_price = f.dec 0 0;
    deviation = f.dec 0 0;
    total_liquidity = f.dec 0 0;
    fees_collected = f.dec 0 0;
    gas_cost = f.dec 0 0;
    net_profit = f.dec 0 0;
    position_count = pos 0;
    failure_rate = f.dec 0 0;
    last_rebalance = zero_time;
    status = "";
  }

  unfoldable pub calculate_deviation : F → F → F
  calculate_deviation price ref =
      let diff = f.sub price ref in f.div (if f.lt diff (f.dec 0 0) then f.neg diff else diff) ref

  unfoldable pub update_prices : F → F → F → Metrics F → Metrics F
  update_prices current twap ref m = record m {
    current_price = current;
    twap_price = twap;
    ref_price = ref;
    deviation = calculate_deviation current ref;
  }

  unfoldable pub update_liquidity : F → Metrics F → Metrics F
  update_liquidity liquidity m = record m { total_liquidity = liquidity }

  unfoldable pub update_fees : F → Metrics F → Metrics F
  update_fees fees m = record m { fees_collected = f.add m.fees_collected fees }

  unfoldable pub update_gas_cost : F → Metrics F → Metrics F
  update_gas_cost cost m =
      let gas_cost = f.add m.gas_cost cost in
      record m { gas_cost = gas_cost; net_profit = f.sub m.fees_collected gas_cost }

  unfoldable pub update_position_count : ℤ → Metrics F → Metrics F
  update_position_count count m = record m { position_count = count }

  unfoldable pub update_failure_rate : F → Metrics F → Metrics F
  update_failure_rate rate m = record m { failure_rate = rate }

  unfoldable pub update_status : String → Metrics F → Metrics F
  update_status status m = record m { status = status }

  unfoldable pub update_last_rebalance : ℤ → Metrics F → Metrics F
  update_last_rebalance t m = record m { last_rebalance = t }

  -- The risk engine may be nil.
  abbrev pub breaker_of : Option (RiskEngine F) → Bool
  breaker_of none = false
  breaker_of (some e) = is_circuit_breaker_active e

  module _ {W : Type 0} (ch : Chain W) where
    -- An alert where its test holds, with the time; the clock is not read where it does not.
    abbrev pub alert_if : Bool → Level → AlertMessage F → W → List (Alert F) × W
    alert_if true level text w =
        let (now, w') = ch.now w in (record { level = level; text = text; time = now } ∷ [], w')
    alert_if false level text w = ([], w)

    -- The four tests in turn.
    unfoldable pub check_alerts : Option (RiskEngine F) → Metrics F → W → List (Alert F) × W
    check_alerts engine m w =
        let (found1, w1) =
          alert_if (f.lt (f.dec 1 2) m.deviation) warning
            (deviation_is_high (f.mul m.deviation (f.dec 100 0))) w in
        let (found2, w2) =
          alert_if (f.lt (f.dec 3 2) m.deviation) critical
            (deviation_exceeds_breaker (f.mul m.deviation (f.dec 100 0))) w1 in
        let (found3, w3) =
          alert_if (f.lt (f.dec 1 1) m.failure_rate) warning
            (failure_rate_is_high (f.mul m.failure_rate (f.dec 100 0))) w2 in
        let (found4, w4) = alert_if (breaker_of engine) critical circuit_breaker_active w3 in
        (found1 ++ (found2 ++ (found3 ++ found4)), w4)

  -- The rebalancer may be nil.
  unfoldable pub snapshot : {B : Type 0} → Option (Rebalancer F B) → Metrics F → Metrics F
  snapshot none m = m
  snapshot (some r) m = record m {
    last_rebalance = r.last_rebalance;
    status = if not r.is_running then "stopped" else "running";
  }
