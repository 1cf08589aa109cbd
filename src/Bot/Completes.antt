-- ===== src/Bot/Completes.antt =====
-- A tick of the rebalance loop of main.go that goes through.
use stablecoin_mmm.Base.{ℕ, ◌≡◌, refl, ◌<◌, true, some}
use stablecoin_mmm.Base.Float.{Float, BigFloat}
use stablecoin_mmm.Base.Act.{ok, and_then, caught}
use stablecoin_mmm.Chain.{Chain}
use stablecoin_mmm.Executor.Core.{Executor}
use stablecoin_mmm.Monitor.{update_last_rebalance}
use stablecoin_mmm.Rebalancer.Core.{State}
use stablecoin_mmm.Rebalancer.Rules.{should_rebalance, should_stabilize}
use stablecoin_mmm.Rebalancer.Actions.{
  mark_rebalanced, execute_rebalance, rebalance_if, execute_stabilization, stabilize_if,
}
use stablecoin_mmm.Rebalancer.Guard.{should_rebalance_keeps, should_stabilize_keeps}
use stablecoin_mmm.Rebalancer.Retry.{SucceedsAfter, attempts_iff}
use stablecoin_mmm.Api.Server.{Server}
use stablecoin_mmm.Bot.Core.{execute_rebalance_tick, run_rebalance}

module _ {F B W : Type 0} ⦃f : Float F⦄ ⦃b : BigFloat F B⦄ (ch : Chain W) (fuel : ℕ) where
  execute_rebalance_ok :
      (s : State F B W) (exec : Executor F) (n : ℕ) (t : State F B W)
      → (should_rebalance ch s).0.should ≡ true
      → s.rebalancer.cfg.stabilization.enabled ≡ true
      → (should_stabilize ch (should_rebalance ch s).1).0.should ≡ true
      → s.rebalancer.executor ≡ some exec
      → n < 3
      → SucceedsAfter ch fuel exec n 1 (should_stabilize ch (should_rebalance ch s).1).1 t
      → execute_rebalance ch fuel s ≡ mark_rebalanced ch t
  unfolding execute_rebalance rebalance_if execute_stabilization stabilize_if and_then
  execute_rebalance_ok s exec n t due enabled deviates ready few succeeds =
      let s1 = (should_rebalance ch s).1 in
      let s2 = (should_stabilize ch s1).1 in
      let enabled' : s1.rebalancer.cfg.stabilization.enabled ≡ true =
        rw (should_rebalance_keeps ch s) enabled in
      let ready' : s2.rebalancer.executor ≡ some exec =
        rw (should_stabilize_keeps ch s1, should_rebalance_keeps ch s) ready in
      rw (due, enabled', deviates, ready', (attempts_iff ch fuel exec s2 t).1 (n, few, succeeds))
        refl

  -- If a rebalance is due and allowed, stabilization is enabled and due, and one of three attempts at
  -- the swap succeeds, the earlier ones having failed with an error, then the tick goes through: it
  -- leaves the state of that attempt with the time of the rebalance put down by a reading of the
  -- clock, and the metrics show that time.
  pub tick_completes :
      (s : Server F B W) (exec : Executor F) (n : ℕ) (t : State F B W)
      → (should_rebalance ch s.state).0.should ≡ true
      → s.state.rebalancer.cfg.stabilization.enabled ≡ true
      → (should_stabilize ch (should_rebalance ch s.state).1).0.should ≡ true
      → s.state.rebalancer.executor ≡ some exec
      → n < 3
      → SucceedsAfter ch fuel exec n 1 (should_stabilize ch (should_rebalance ch s.state).1).1 t
      → execute_rebalance_tick ch fuel s ≡ (
        ok tt,
        record s {
          state = (mark_rebalanced ch t).1;
          metrics = update_last_rebalance (ch.now t.world).0 s.metrics;
        },
      )
  unfolding execute_rebalance_tick run_rebalance mark_rebalanced and_then caught
  tick_completes s exec n t due enabled deviates ready few succeeds =
      rw (execute_rebalance_ok s.state exec n t due enabled deviates ready few succeeds) refl
