-- ===== src/Rebalancer/Guard.antt =====
-- What stands between a tick of the timer and a trade in pkg/rebalancer/service.go.
use stablecoin_mmm.Base.{ℕ, ◌≡◌, ◌↔◌, ◌⊎◌, refl, ◌∙◌, true, false, arith}
use stablecoin_mmm.Base.Int.{◌≤ℤ◌}
use stablecoin_mmm.Base.Time.{second, times, since}
use stablecoin_mmm.Base.Float.{Float, BigFloat}
use stablecoin_mmm.Base.Act.{err, message, and_then}
use stablecoin_mmm.Chain.{Chain}
use stablecoin_mmm.Risk.{check_risk}
use stablecoin_mmm.Rebalancer.Core.{State, calculate_deviation}
use stablecoin_mmm.Rebalancer.Rules.{should_rebalance, should_stabilize}
use stablecoin_mmm.Rebalancer.Actions.{
  execute_rebalance, rebalance_if, execute_stabilization, stabilize_if,
}

module _ {F B W : Type 0} ⦃f : Float F⦄ ⦃b : BigFloat F B⦄ (ch : Chain W) where
  -- A stopped rebalancer does nothing: the call fails, and neither the world, the risk engine nor the
  -- rebalancer changes. In particular no transaction is sent.
  pub execute_rebalance_stopped :
      (fuel : ℕ) (s : State F B W)
      → s.rebalancer.is_running ≡ false
      → execute_rebalance ch fuel s ≡ (err (message "rebalance not needed"), s)
  unfolding execute_rebalance rebalance_if should_rebalance
  execute_rebalance_stopped fuel s stopped = ground arith

  -- Deciding whether to rebalance changes the rebalancer in nothing.
  pub should_rebalance_keeps :
      (s : State F B W) → (should_rebalance ch s).1.rebalancer ≡ s.rebalancer
  unfolding should_rebalance
  should_rebalance_keeps s = ground arith

  pub should_stabilize_keeps :
      (s : State F B W) → (should_stabilize ch s).1.rebalancer ≡ s.rebalancer
  unfolding should_stabilize
  should_stabilize_keeps s = ground arith

  -- A rebalance is decided exactly when the rebalancer runs, the interval since the last one is over,
  -- and either the deviation is above the threshold, whatever the breaker, the limits and the risk
  -- check say, or the risk check allows it.
  pub should_rebalance_iff :
      (s : State F B W)
      → ((should_rebalance ch s).0.should ≡ true) ↔ (
          (s.rebalancer.is_running ≡ true)
          × (times s.rebalancer.cfg.bot.rebalance_interval_sec second
              ≤ℤ since (ch.now s.world).0 s.rebalancer.last_rebalance)
          × ((f.lt s.rebalancer.cfg.bot.rebalance_threshold (calculate_deviation s.rebalancer)
                ≡ true)
              ⊎ ((check_risk
                    (ch.now (ch.now s.world).1).0
                    s.rebalancer.current_price
                    s.rebalancer.twap_price
                    s.rebalancer.cfg.oracle.ref_price
                    s.risk).1.allowed
                  ≡ true)))
  unfolding should_rebalance
  should_rebalance_iff s = ground arith

  -- With stabilization enabled, a rebalance that is due and allowed still fails if no stabilization
  -- is needed, and the time of the last rebalance is not renewed.
  pub rebalance_fails_when_stable :
      (fuel : ℕ) (s : State F B W)
      → (should_rebalance ch s).0.should ≡ true
      → s.rebalancer.cfg.stabilization.enabled ≡ true
      → (should_stabilize ch (should_rebalance ch s).1).0.should ≡ false
      → ((execute_rebalance ch fuel s).0 ≡ err (message "stabilization not needed"))
        × ((execute_rebalance ch fuel s).1.rebalancer ≡ s.rebalancer)
  unfolding execute_rebalance rebalance_if execute_stabilization stabilize_if and_then
  rebalance_fails_when_stable fuel s should enabled stable =
      let s' = (should_rebalance ch s).1 in
      let enabled' : s'.rebalancer.cfg.stabilization.enabled ≡ true =
        rw (should_rebalance_keeps s) enabled in
      rw (should, enabled', stable) (refl, should_stabilize_keeps s' ∙ should_rebalance_keeps s)
