-- ===== src/Rebalancer/Live.antt =====
-- A rebalance of pkg/rebalancer/service.go on a chain whose library calls come back.
use stablecoin_mmm.Base.{
  ℕ, String, zero, suc, ◌+◌, ◌≡◌, true, Option, none, some, Bool-cases, inl, inr, arith,
}
use stablecoin_mmm.Base.Int.{ℤ, pos, leb_ℤ, div_big-some}
use stablecoin_mmm.Base.Float.{Float, BigFloat}
use stablecoin_mmm.Base.Act.{Act, Outcome, Result, value, error, GoError, wrapped}
use stablecoin_mmm.Base.Settles.{
  Settles, to_value, to_error, Settles-and_then, Settles-caught, Settles-wrapped,
  Settles_of_Returns,
}
use stablecoin_mmm.Erc20.{get_token_balance}
use stablecoin_mmm.Config.{Config}
use stablecoin_mmm.Chain.{Address, Chain}
use stablecoin_mmm.Executor.Core.{Executor, Returned}
use stablecoin_mmm.Executor.Live.{IsLive, get_token_balance-Settles}
use stablecoin_mmm.Executor.Completes.{execute_swap-Returns}
use stablecoin_mmm.Rebalancer.Core.{
  State, Decision, with_world, outside, min_out, has_executor, swap_value, available_of_balance,
}
use stablecoin_mmm.Rebalancer.Rules.{should_rebalance, should_stabilize}
use stablecoin_mmm.Rebalancer.Actions.{
  settle, mark_stabilized, mark_rebalanced, swap_balance, do_stabilization, pause, after_attempt,
  attempts, with_executor, stabilize_if, execute_stabilization, rebalance_if, execute_rebalance,
}

min_out-some : (amount slippage : ℤ) → (m : ℤ) × (min_out amount slippage ≡ some m)
unfolding min_out
min_out-some amount slippage = div_big-some _ (pos 10_000) (ground arith)

module _ {F B W : Type 0} where
  outside-Settles :
      {A : Type 0} (m : Act W A) (s : State F B W) → Settles (m s.world) → Settles (outside m s)
  unfolding outside
  outside-Settles {A} m s h = by_outcome (m s.world) h
    where
      by_outcome : (o : Outcome A × W) → Settles o → Settles (with_world s o)
      by_outcome _ to_value = to_value
      by_outcome _ to_error = to_error

module _ {F B W : Type 0} ⦃f : Float F⦄ ⦃b : BigFloat F B⦄ (ch : Chain W) (fuel : ℕ)
    (live : IsLive ch fuel) where
  settle-Settles : (r : Returned) (s : State F B W) → Settles (settle ch r s)
  unfolding settle mark_stabilized
  settle-Settles (r, some e) s = to_error
  settle-Settles (r, none) s = elim (Bool-cases r.success) [
    | inl good ↦ rw good to_value
    | inr bad ↦ rw bad to_error
  ]

  swap_balance-Settles :
      (exec : Executor F) (cfg : Config F) (token_in token_out : Address) (balance : ℤ)
      (s : State F B W)
      → Settles (swap_balance ch fuel exec cfg token_in token_out balance s)
  unfolding swap_balance
  swap_balance-Settles exec cfg token_in token_out balance s =
      let available : F = available_of_balance balance in
      let amount_in =
        f.to_int (f.mul (swap_value cfg.stabilization available) (f.dec 1_000_000 0)) in
      let (m, some_m) = min_out-some amount_in cfg.execution.max_slippage_bps in
      elim (Bool-cases (leb_ℤ amount_in (pos 0))) [
        | inl nothing ↦ rw nothing to_error
        | inr positive ↦
            rw (positive, some_m)
              (Settles-and_then to_value λ out_min t.
                Settles-and_then
                  (outside-Settles _ t (
                    Settles_of_Returns (
                      execute_swap-Returns ch fuel live exec token_in token_out amount_in out_min
                        (pos 0) t.world)))
                  settle-Settles)
      ]

  balance_of_token :
      (text : String) (token : Address) (exec : Executor F) (s : State F B W)
      → Settles (wrapped text (outside (get_token_balance ch token exec.wallet_address) s))
  balance_of_token text token exec s = Settles-wrapped text (
      outside-Settles _ s
        (get_token_balance-Settles ch fuel live token exec.wallet_address s.world))

  do_stabilization-Settles :
      (exec : Executor F) (s : State F B W) → Settles (do_stabilization ch fuel exec s)
  unfolding do_stabilization
  do_stabilization-Settles exec s =
      let cfg = s.rebalancer.cfg in
      Settles-and_then (balance_of_token "failed to get token0 balance" _ exec s) λ balance0 s1.
        Settles-and_then (balance_of_token "failed to get token1 balance" _ exec s1) λ balance1 s2.
          elim (Bool-cases (f.lt (f.dec 1 0) (b.to_float64 s.rebalancer.current_price))) [
            | inl above ↦ rw above (swap_balance-Settles exec cfg _ _ balance0 s2)
            | inr below ↦ rw below (swap_balance-Settles exec cfg _ _ balance1 s2)
          ]

  after_attempt-Settles :
      (again : GoError → State F B W → Outcome (Unit {0}) × State F B W) (r : Result (Unit {0}))
      (s : State F B W)
      → ((e : GoError) (t : State F B W) → Settles (again e t))
      → Settles (after_attempt ch again r s)
  after_attempt-Settles again (value u) s h = to_value
  after_attempt-Settles again (error e) s h = h e s

  attempts-Settles :
      (left attempt : ℕ) (exec : Executor F) (last : Option GoError) (s : State F B W)
      → Settles (attempts ch left attempt fuel exec last s)
  unfolding attempts
  attempts-Settles zero attempt exec last s = to_error
  attempts-Settles (suc left) attempt exec last s =
      Settles-caught (do_stabilization-Settles exec s) λ r t.
        after_attempt-Settles _ r t
          λ e v. attempts-Settles left (attempt + 1) exec (some e) (pause ch attempt v)

  -- A stabilization that is decided has an executor.
  decided_has_executor :
      (s : State F B W)
      → (should_stabilize ch s).0.should ≡ true
      → has_executor (should_stabilize ch s).1.rebalancer.executor ≡ true
  unfolding should_stabilize
  decided_has_executor s h = ground arith

  stabilize_if-Settles :
      (d : Decision F) (s : State F B W)
      → (d.should ≡ true → has_executor s.rebalancer.executor ≡ true)
      → Settles (stabilize_if ch fuel (d, s))
  unfolding stabilize_if
  stabilize_if-Settles d s has = elim (Bool-cases d.should) [
    | inl yes_ ↦ rw yes_ (with_executor-Settles s.rebalancer.executor s (has yes_))
    | inr no_ ↦ rw no_ to_error
  ]
    where
      with_executor-Settles :
          (o : Option (Executor F)) (s : State F B W)
          → has_executor o ≡ true
          → Settles (with_executor ch o (λ exec. attempts ch 3 1 fuel exec none) s)
      with_executor-Settles none s h = absurd (ground arith)
      with_executor-Settles (some exec) s h = attempts-Settles 3 1 exec none s

  execute_stabilization-Settles : (s : State F B W) → Settles (execute_stabilization ch fuel s)
  unfolding execute_stabilization
  execute_stabilization-Settles s =
      stabilize_if-Settles (should_stabilize ch s).0 (should_stabilize ch s).1
        (decided_has_executor s)

  mark_rebalanced-Settles : (s : State F B W) → Settles (mark_rebalanced ch s)
  unfolding mark_rebalanced
  mark_rebalanced-Settles s = to_value

  -- If the library's calls return a value or an error, and every transaction is mined within the fuel,
  -- a rebalance always comes back, with success or an error, whatever the state: it neither panics,
  -- on a nil executor for one, nor waits for ever.
  pub execute_rebalance-Settles : (s : State F B W) → Settles (execute_rebalance ch fuel s)
  unfolding execute_rebalance rebalance_if
  execute_rebalance-Settles s =
      let t = (should_rebalance ch s).1 in
      elim (Bool-cases (should_rebalance ch s).0.should) [
        | inl due ↦ elim (Bool-cases t.rebalancer.cfg.stabilization.enabled) [
          | inl on ↦
              rw (due, on)
                (Settles-and_then (execute_stabilization-Settles t) λ _. mark_rebalanced-Settles)
          | inr off ↦ rw (due, off) (mark_rebalanced-Settles t)
        ]
        | inr early ↦ rw early to_error
      ]
