-- ===== src/Rebalancer/Held.antt =====
-- The circuit breaker of pkg/risk/engine.go in front of a rebalance of pkg/rebalancer/service.go.
use stablecoin_mmm.Base.{ℕ, ◌≡◌, ◌⊎◌, true, false, arith}
use stablecoin_mmm.Base.Int.{◌≤ℤ◌, ◌<ℤ◌, ◌+ℤ◌}
use stablecoin_mmm.Base.Float.{Float, BigFloat}
use stablecoin_mmm.Base.Act.{err, message}
use stablecoin_mmm.Chain.{Chain}
use stablecoin_mmm.Risk.{breaker_duration}
use stablecoin_mmm.Risk.Breaker.{check_risk_active, breaker_duration-IsInt64}
use stablecoin_mmm.Rebalancer.Core.{State, calculate_deviation}
use stablecoin_mmm.Rebalancer.Rules.{should_rebalance}
use stablecoin_mmm.Rebalancer.Actions.{execute_rebalance, rebalance_if}

-- At most two readings of the clock lie between the worlds.
abbrev pub OnlyReadsClock : {W : Type 0} → Chain W → W → W → Type 0
OnlyReadsClock ch w w' = (w' ≡ w) ⊎ (w' ≡ (ch.now w).1) ⊎ (w' ≡ (ch.now (ch.now w).1).1)

module _ {F B W : Type 0} ⦃f : Float F⦄ ⦃b : BigFloat F B⦄ (ch : Chain W) where
  -- While the breaker is active and its time is not over, and the price deviates from the average by
  -- no more than the threshold, every rebalance fails. It leaves the rebalancer as it was and the
  -- breaker active, and all that it asks of the outside is the clock: no balance is read, and no
  -- transaction is sent.
  pub breaker_holds_rebalance :
      (fuel : ℕ) (s : State F B W)
      → s.risk.is_circuit_breaker ≡ true
      → s.risk.circuit_breaker_start ≤ℤ (ch.now (ch.now s.world).1).0
      → (ch.now (ch.now s.world).1).0 <ℤ s.risk.circuit_breaker_start +ℤ breaker_duration s.risk.cfg
      → f.lt s.rebalancer.cfg.bot.rebalance_threshold (calculate_deviation s.rebalancer) ≡ false
      → let (o, s') = execute_rebalance ch fuel s in
        (o ≡ err (message "rebalance not needed"))
        × (s'.rebalancer ≡ s.rebalancer)
        × (s'.risk.is_circuit_breaker ≡ true)
        × OnlyReadsClock ch s.world s'.world
  unfolding execute_rebalance rebalance_if should_rebalance
  breaker_holds_rebalance fuel s active after before low =
      let r = s.rebalancer in
      let now = (ch.now (ch.now s.world).1).0 in
      ground (
        arith,
        check_risk_active now r.current_price r.twap_price r.cfg.oracle.ref_price s.risk
            (breaker_duration-IsInt64 s.risk.cfg) active after before,
      )
