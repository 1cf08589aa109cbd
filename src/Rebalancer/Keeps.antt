-- ===== src/Rebalancer/Keeps.antt =====
-- What a rebalance of pkg/rebalancer/service.go leaves alone, however it ends.
use stablecoin_mmm.Base.{
  ℕ, zero, suc, ◌+◌, ◌≡◌, refl, ap, ◌⊎◌, inl, inr, not, Option, none, some, Bool-cases, arith,
}
use stablecoin_mmm.Base.Int.{ℤ, pos, leb_ℤ}
use stablecoin_mmm.Base.Float.{Float, BigFloat}
use stablecoin_mmm.Base.Act.{Outcome, Result, value, error, GoError, or_panic}
use stablecoin_mmm.Base.Settles.{ends_and_then, ends_caught, ends_wrapped, ends_if}
use stablecoin_mmm.Config.{Config}
use stablecoin_mmm.Chain.{Address, Chain}
use stablecoin_mmm.Risk.{RiskEngine, check_risk}
use stablecoin_mmm.Executor.Core.{Executor, Returned}
use stablecoin_mmm.Rebalancer.Core.{
  Rebalancer, State, Decision, outside, min_out, swap_value, available_of_balance,
}
use stablecoin_mmm.Rebalancer.Rules.{should_rebalance, should_stabilize}
use stablecoin_mmm.Rebalancer.Actions.{
  settle, mark_stabilized, mark_rebalanced, swap_balance, do_stabilization, pause, after_attempt,
  attempts, with_executor, stabilize_if, execute_stabilization, rebalance_if, execute_rebalance,
}
use stablecoin_mmm.Rebalancer.Guard.{should_rebalance_keeps}

-- The rebalancer but for the times of its last actions.
abbrev pub conduct : {F B : Type 0} → Rebalancer F B → Rebalancer F B
conduct r = record r { last_rebalance = pos 0; last_stabilize = pos 0 }

module _ {F B W : Type 0} ⦃f : Float F⦄ ⦃b : BigFloat F B⦄ (ch : Chain W) (fuel : ℕ)
    (c : Rebalancer F B) (k : RiskEngine F) where
  -- The rebalancer is c but for those times, and the risk engine is k.
  abbrev Kept : State F B W → Type 0
  Kept s = (conduct s.rebalancer ≡ c) × (s.risk ≡ k)

  settle-Kept : (r : Returned) (s : State F B W) → Kept s → Kept (settle ch r s).1
  unfolding settle mark_stabilized
  settle-Kept (r, some e) s h = h
  settle-Kept (r, none) s h = elim (Bool-cases r.success) [
    | inl good ↦ rw good h
    | inr bad ↦ rw bad h
  ]

  or_panic-Kept : (o : Option ℤ) (s : State F B W) → Kept s → Kept (or_panic o s).1
  or_panic-Kept none s h = h
  or_panic-Kept (some z) s h = h

  swap_balance-Kept :
      (exec : Executor F) (cfg : Config F) (token_in token_out : Address) (balance : ℤ)
      (s : State F B W)
      → Kept s
      → Kept (swap_balance ch fuel exec cfg token_in token_out balance s).1
  unfolding swap_balance outside
  swap_balance-Kept exec cfg token_in token_out balance s h =
      let available : F = available_of_balance balance in
      let amount_in =
        f.to_int (f.mul (swap_value cfg.stabilization available) (f.dec 1_000_000 0)) in
      elim (Bool-cases (leb_ℤ amount_in (pos 0))) [
        | inl nothing ↦ rw nothing h
        | inr positive ↦ rw positive (
            ends_and_then Kept _ _
              (or_panic-Kept (min_out amount_in cfg.execution.max_slippage_bps) s h)
              λ out_min t p. ends_and_then Kept _ _ p settle-Kept)
      ]

  do_stabilization-Kept :
      (exec : Executor F) (s : State F B W) → Kept s → Kept (do_stabilization ch fuel exec s).1
  unfolding do_stabilization outside
  do_stabilization-Kept exec s h =
      ends_and_then Kept _ _ (ends_wrapped Kept _ _ h) λ balance0 s1 h1.
        ends_and_then Kept _ _ (ends_wrapped Kept _ _ h1) λ balance1 s2 h2.
          elim (Bool-cases (f.lt (f.dec 1 0) (b.to_float64 s.rebalancer.current_price))) [
            | inl above ↦ rw above (swap_balance-Kept exec s.rebalancer.cfg _ _ balance0 s2 h2)
            | inr below ↦ rw below (swap_balance-Kept exec s.rebalancer.cfg _ _ balance1 s2 h2)
          ]

  pause-Kept : (attempt : ℕ) (s : State F B W) → Kept s → Kept (pause ch attempt s)
  unfolding pause
  pause-Kept attempt s h = ground arith

  after_attempt-Kept :
      (again : GoError → State F B W → Outcome (Unit {0}) × State F B W) (r : Result (Unit {0}))
      (s : State F B W)
      → Kept s
      → ((e : GoError) → Kept (again e s).1)
      → Kept (after_attempt ch again r s).1
  after_attempt-Kept again (value u) s h go = h
  after_attempt-Kept again (error e) s h go = go e

  attempts-Kept :
      (left attempt : ℕ) (exec : Executor F) (last : Option GoError) (s : State F B W)
      → Kept s
      → Kept (attempts ch left attempt fuel exec last s).1
  unfolding attempts
  attempts-Kept zero attempt exec last s h = h
  attempts-Kept (suc left) attempt exec last s h =
      ends_caught Kept _ _ (do_stabilization-Kept exec s h) λ r t p. after_attempt-Kept _ r t p λ e.
        attempts-Kept left (attempt + 1) exec (some e) (pause ch attempt t) (pause-Kept attempt t p)

  pub with_executor-Kept :
      (o : Option (Executor F)) (s : State F B W)
      → Kept s
      → Kept (with_executor ch o (λ exec. attempts ch 3 1 fuel exec none) s).1
  with_executor-Kept none s h = h
  with_executor-Kept (some exec) s h = attempts-Kept 3 1 exec none s h

  should_stabilize-Kept : (s : State F B W) → Kept s → Kept (should_stabilize ch s).1
  unfolding should_stabilize
  should_stabilize-Kept s h = ground arith

  execute_stabilization-Kept : (s : State F B W) → Kept s → Kept (execute_stabilization ch fuel s).1
  unfolding execute_stabilization stabilize_if
  execute_stabilization-Kept s h =
      let p = should_stabilize-Kept s h in
      elim (Bool-cases (should_stabilize ch s).0.should) [
        | inl needed ↦ rw needed (with_executor-Kept _ (should_stabilize ch s).1 p)
        | inr idle ↦ rw idle p
      ]

  mark_rebalanced-Kept : (s : State F B W) → Kept s → Kept (mark_rebalanced ch s).1
  unfolding mark_rebalanced
  mark_rebalanced-Kept s h = h

  rebalance_if-Kept :
      (d : Decision F) (s : State F B W) → Kept s → Kept (rebalance_if ch fuel (d, s)).1
  unfolding rebalance_if
  rebalance_if-Kept d s h = ends_if Kept (not d.should) _ _ h (
      ends_if Kept s.rebalancer.cfg.stabilization.enabled _ _
        (ends_and_then Kept _ _ (execute_stabilization-Kept s h) λ _. mark_rebalanced-Kept)
        (mark_rebalanced-Kept s h))

module _ {F B W : Type 0} ⦃f : Float F⦄ ⦃b : BigFloat F B⦄ (ch : Chain W) (fuel : ℕ) where
  -- However a rebalance ends, the configuration, the executor, the prices and the running flag of the
  -- rebalancer are those of before, and the risk engine is the one that the decision left.
  pub execute_rebalance_keeps :
      (s : State F B W)
      → let s' = (execute_rebalance ch fuel s).1 in
        (conduct s'.rebalancer ≡ conduct s.rebalancer) × (s'.risk ≡ (should_rebalance ch s).1.risk)
  unfolding execute_rebalance
  execute_rebalance_keeps s =
      rebalance_if-Kept ch fuel (conduct s.rebalancer) (should_rebalance ch s).1.risk
        (should_rebalance ch s).0 (should_rebalance ch s).1
        (ap conduct (should_rebalance_keeps ch s), refl)

  -- The decision runs the risk check once on the rebalancer's prices, or leaves the engine alone.
  pub should_rebalance_risk :
      (s : State F B W)
      → let r = s.rebalancer in
        ((should_rebalance ch s).1.risk ≡ s.risk)
        ⊎ ((should_rebalance ch s).1.risk
            ≡ (check_risk
                (ch.now (ch.now s.world).1).0
                r.current_price
                r.twap_price
                r.cfg.oracle.ref_price
                s.risk).0)
  unfolding should_rebalance
  should_rebalance_risk s = ground arith
