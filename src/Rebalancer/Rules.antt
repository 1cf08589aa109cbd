-- ===== src/Rebalancer/Rules.antt =====
-- `ShouldRebalance` and `ShouldStabilize` of pkg/rebalancer/service.go. The clock that is read is the
-- world's; `CheckRisk` is given a reading of it on every path.
use stablecoin_mmm.Base.{true, false, not, if◌then◌else◌}
use stablecoin_mmm.Base.Int.{ltb_ℤ}
use stablecoin_mmm.Base.Time.{second, times, since}
use stablecoin_mmm.Base.Float.{Float, BigFloat}
use stablecoin_mmm.Risk.{check_risk}
use stablecoin_mmm.Chain.{Chain}
use stablecoin_mmm.Rebalancer.Core.{
  State, not_running, interval_not_reached, deviation_exceeds, risk_check_failed, normal_rebalance,
  stabilization_disabled, executor_not_available, cooldown_not_reached, deviation_below,
  deviation_reached, Decision, decide, calculate_deviation, has_executor,
}

module _ {F B W : Type 0} ⦃f : Float F⦄ ⦃b : BigFloat F B⦄ (ch : Chain W) where
  unfoldable pub should_rebalance : State F B W → Decision F × State F B W
  should_rebalance s =
      let r = s.rebalancer in
      let (now, w1) = ch.now s.world in
      let deviation = calculate_deviation r in
      let (now', w2) = ch.now w1 in
      let (risk, check) =
        check_risk now' r.current_price r.twap_price r.cfg.oracle.ref_price s.risk in
      if not r.is_running
      then (decide false not_running, s)
      else if ltb_ℤ (since now r.last_rebalance) (times r.cfg.bot.rebalance_interval_sec second)
      then (decide false interval_not_reached, record s { world = w1 })
      else if f.lt r.cfg.bot.rebalance_threshold deviation
      then (
        decide true (
            deviation_exceeds (f.mul deviation (f.dec 100 0))
              (f.mul r.cfg.bot.rebalance_threshold (f.dec 100 0))),
        record s { world = w1 },
      )
      else if not check.allowed
      then (decide false (risk_check_failed check.reason), record s { risk = risk; world = w2 })
      else (decide true normal_rebalance, record s { risk = risk; world = w2 })

  unfoldable pub should_stabilize : State F B W → Decision F × State F B W
  should_stabilize s =
      let r = s.rebalancer in
      let cfg = r.cfg.stabilization in
      let (now, w1) = ch.now s.world in
      let deviation_bps = f.to_int (f.mul (calculate_deviation r) (f.dec 10_000 0)) in
      if not cfg.enabled
      then (decide false stabilization_disabled, s)
      else if not (has_executor r.executor)
      then (decide false executor_not_available, s)
      else if ltb_ℤ (since now r.last_stabilize) (times cfg.cooldown_seconds second)
      then (decide false cooldown_not_reached, record s { world = w1 })
      else if ltb_ℤ deviation_bps cfg.deviation_bps
      then (decide false (deviation_below deviation_bps cfg.deviation_bps), record s { world = w1 })
      else (
        decide true (deviation_reached deviation_bps cfg.deviation_bps),
        record s { world = w1 },
      )
