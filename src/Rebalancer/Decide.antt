-- ===== src/Rebalancer/Decide.antt =====
-- The cooldown and the conditions of a stabilization in pkg/rebalancer/service.go.
use stablecoin_mmm.Base.{◌≡◌, ◌↔◌, true, false, arith}
use stablecoin_mmm.Base.Int.{ltb_ℤ}
use stablecoin_mmm.Base.Time.{second, times, since}
use stablecoin_mmm.Base.Float.{Float, BigFloat}
use stablecoin_mmm.Chain.{Chain}
use stablecoin_mmm.Rebalancer.Core.{State, calculate_deviation, has_executor}
use stablecoin_mmm.Rebalancer.Rules.{should_stabilize}
use stablecoin_mmm.Rebalancer.Actions.{mark_stabilized}

module _ {F B W : Type 0} ⦃f : Float F⦄ ⦃b : BigFloat F B⦄ (ch : Chain W) where
  -- The conditions under which `ShouldStabilize` says yes.
  pub record IsDue (s : State F B W) : Type 0 where
    pub enabled : s.rebalancer.cfg.stabilization.enabled ≡ true
    pub ready : has_executor s.rebalancer.executor ≡ true
    pub cooled :
        ltb_ℤ
          (since (ch.now s.world).0 s.rebalancer.last_stabilize)
          (times s.rebalancer.cfg.stabilization.cooldown_seconds second)
        ≡ false
    pub deviates :
        ltb_ℤ
          (f.to_int (f.mul (calculate_deviation s.rebalancer) (f.dec 10_000 0)))
          s.rebalancer.cfg.stabilization.deviation_bps
        ≡ false

  -- A stabilization is decided exactly when it is enabled, there is an executor, the cooldown since
  -- the last one is over, and the deviation in whole basis points reaches the configured one.
  pub should_stabilize_iff : (s : State F B W) → ((should_stabilize ch s).0.should ≡ true) ↔ IsDue s
  unfolding should_stabilize
  should_stabilize_iff s = ground arith

  -- Right after a stabilization is marked, and until the clock passes its instant by the cooldown,
  -- none is decided.
  pub stabilized_cools_down :
      (s : State F B W)
      → ltb_ℤ
          (since (ch.now (mark_stabilized ch s).1.world).0 (ch.now s.world).0)
          (times s.rebalancer.cfg.stabilization.cooldown_seconds second)
        ≡ true
      → (should_stabilize ch (mark_stabilized ch s).1).0.should ≡ false
  unfolding should_stabilize mark_stabilized
  stabilized_cools_down s early = ground arith
