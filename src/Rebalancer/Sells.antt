-- ===== src/Rebalancer/Sells.antt =====
-- The swaps that one rebalance of pkg/rebalancer/service.go sends.
use mathlib.Core.Path.{subst}
use stablecoin_mmm.Base.{
  ℕ, zero, suc, ◌+◌, ◌≤◌, ◌≡◌, refl, sym, ap, inl, inr, false, not, [], Option, none, some,
  Bool-cases, arith,
}
use stablecoin_mmm.Base.Int.{ℤ, pos, leb_ℤ}
use stablecoin_mmm.Base.Float.{Float, BigFloat}
use stablecoin_mmm.Base.Act.{Outcome, Result, value, error, GoError, or_panic, and_then}
use stablecoin_mmm.Base.Settles.{
  ends_and_then, ends_through, ends_caught_through, ends_wrapped, ends_if,
}
use stablecoin_mmm.Config.{Config}
use stablecoin_mmm.Chain.{Address, Chain}
use stablecoin_mmm.Executor.Core.{Executor, Returned}
use stablecoin_mmm.Executor.Trades.{execute_swap}
use stablecoin_mmm.Executor.Sells.{
  Selling, selling, Sent, none_sent, Sent-suc, Sent-le, get_token_balance-Sent, execute_swap-Sent,
}
use stablecoin_mmm.Rebalancer.Core.{
  State, Decision, outside, min_out, swap_value, available_of_balance,
}
use stablecoin_mmm.Rebalancer.Rules.{should_rebalance, should_stabilize}
use stablecoin_mmm.Rebalancer.Actions.{
  settle, mark_stabilized, mark_rebalanced, swap_balance, do_stabilization, pause, after_attempt,
  attempts, with_executor, stabilize_if, execute_stabilization, rebalance_if, execute_rebalance,
}

-- A positive amount, with the least amount out that the slippage leaves of it.
abbrev pub Careful : ℤ → ℤ → ℤ → Type 0
Careful bps amount_in out_min =
    (leb_ℤ amount_in (pos 0) ≡ false) × (min_out amount_in bps ≡ some out_min)

module _ {F B W : Type 0} ⦃f : Float F⦄ ⦃b : BigFloat F B⦄ (ch : Chain W) (fuel : ℕ) (bps : ℤ) where
  -- At most n swaps so far, and this slippage is the configured one.
  abbrev Sold : ℕ → State F B (Selling W) → Type 0
  Sold n s = (s.rebalancer.cfg.execution.max_slippage_bps ≡ bps) × Sent (Careful bps) n s.world.1

  Sold-le : (n m : ℕ) (s : State F B (Selling W)) → n ≤ m → Sold n s → Sold m s
  Sold-le n m s h (e, p) = (e, Sent-le n m h p)

  settle-Sold :
      (n : ℕ) (r : Returned) (s : State F B (Selling W))
      → Sold n s
      → Sold n (settle (selling ch) r s).1
  unfolding settle mark_stabilized
  settle-Sold n (r, some e) s h = h
  settle-Sold n (r, none) s h = elim (Bool-cases r.success) [
    | inl good ↦ rw good h
    | inr bad ↦ rw bad h
  ]

  -- The swap, where there is a least amount out.
  swap-Sold :
      (n : ℕ) (exec : Executor F) (token_in token_out : Address) (amount_in : ℤ) (o : Option ℤ)
      (s : State F B (Selling W))
      → leb_ℤ amount_in (pos 0) ≡ false
      → min_out amount_in bps ≡ o
      → Sold n s
      → Sold
          (suc n)
          (and_then (or_panic o s) (λ out_min t.
            and_then
              (outside
                (execute_swap (selling ch) exec fuel token_in token_out amount_in out_min (pos 0))
                t)
              (settle (selling ch)))).1
  unfolding and_then outside
  swap-Sold n exec token_in token_out amount_in none s positive m h = (h.0, Sent-suc h.1)
  swap-Sold n exec token_in token_out amount_in (some out_min) s positive m h =
      let swap = execute_swap (selling ch) exec fuel token_in token_out amount_in out_min (pos 0) in
      ends_and_then (Sold (suc n)) (settle (selling ch)) (outside swap s)
        (
          h.0,
          execute_swap-Sent ch exec (Careful bps) n fuel token_in token_out amount_in out_min
              (pos 0) (positive, m) s.world h.1,
        )
        (settle-Sold (suc n))

  swap_balance-Sold :
      (n : ℕ) (exec : Executor F) (cfg : Config F) (token_in token_out : Address) (balance : ℤ)
      (s : State F B (Selling W))
      → cfg.execution.max_slippage_bps ≡ bps
      → Sold n s
      → Sold (suc n) (swap_balance (selling ch) fuel exec cfg token_in token_out balance s).1
  unfolding swap_balance
  swap_balance-Sold n exec cfg token_in token_out balance s e h =
      let available : F = available_of_balance balance in
      let amount_in =
        f.to_int (f.mul (swap_value cfg.stabilization available) (f.dec 1_000_000 0)) in
      elim (Bool-cases (leb_ℤ amount_in (pos 0))) [
        | inl nothing ↦ rw nothing (h.0, Sent-suc h.1)
        | inr positive ↦ rw positive (
            swap-Sold n exec token_in token_out amount_in
              (min_out amount_in cfg.execution.max_slippage_bps) s positive
              (ap (min_out amount_in) (sym e)) h)
      ]

  do_stabilization-Sold :
      (n : ℕ) (exec : Executor F) (s : State F B (Selling W))
      → Sold n s
      → Sold (suc n) (do_stabilization (selling ch) fuel exec s).1
  unfolding do_stabilization outside
  do_stabilization-Sold n exec s h =
      ends_through (Sold (suc n)) (Sold n) _ _
        (ends_wrapped (Sold n) _ _ (h.0, get_token_balance-Sent ch (Careful bps) n _ _ s.world h.1))
        (λ t p. (p.0, Sent-suc p.1))
        λ balance0 s1 h1.
          ends_through (Sold (suc n)) (Sold n) _ _
            (ends_wrapped (Sold n) _ _
              (h1.0, get_token_balance-Sent ch (Careful bps) n _ _ s1.world h1.1))
            (λ t p. (p.0, Sent-suc p.1))
            λ balance1 s2 h2.
              elim (Bool-cases (f.lt (f.dec 1 0) (b.to_float64 s.rebalancer.current_price))) [
                | inl above ↦
                    rw above (swap_balance-Sold n exec s.rebalancer.cfg _ _ balance0 s2 h.0 h2)
                | inr below ↦
                    rw below (swap_balance-Sold n exec s.rebalancer.cfg _ _ balance1 s2 h.0 h2)
              ]

  pause-Sold :
      (n attempt : ℕ) (s : State F B (Selling W)) → Sold n s → Sold n (pause (selling ch) attempt s)
  unfolding pause
  pause-Sold n attempt s h = ground arith

  after_attempt-Sold :
      (n m : ℕ)
      (again : GoError → State F B (Selling W) → Outcome (Unit {0}) × State F B (Selling W))
      (r : Result (Unit {0})) (s : State F B (Selling W))
      → n ≤ m
      → Sold n s
      → ((e : GoError) → Sold m (again e s).1)
      → Sold m (after_attempt (selling ch) again r s).1
  after_attempt-Sold n m again (value u) s le h go = Sold-le n m s le h
  after_attempt-Sold n m again (error e) s le h go = go e

  attempts-Sold :
      (left attempt n m : ℕ) (exec : Executor F) (last : Option GoError) (s : State F B (Selling W))
      → left + n ≤ m
      → Sold n s
      → Sold m (attempts (selling ch) left attempt fuel exec last s).1
  unfolding attempts
  attempts-Sold zero attempt n m exec last s le h = Sold-le n m s (omega (arith, le)) h
  attempts-Sold (suc left) attempt n m exec last s le h =
      ends_caught_through (Sold m) (Sold (suc n)) _ _ (do_stabilization-Sold n exec s h)
        (λ t p. Sold-le (suc n) m t (omega (arith, le)) p)
        λ r t p. after_attempt-Sold (suc n) m _ r t (omega (arith, le)) p λ e.
          attempts-Sold left (attempt + 1) (suc n) m exec (some e) (pause (selling ch) attempt t)
            (omega (arith, le)) (pause-Sold (suc n) attempt t p)

  with_executor-Sold :
      (o : Option (Executor F)) (s : State F B (Selling W))
      → Sold 0 s
      → Sold 3 (with_executor (selling ch) o (λ exec. attempts (selling ch) 3 1 fuel exec none) s).1
  with_executor-Sold none s h = Sold-le 0 3 s (omega arith) h
  with_executor-Sold (some exec) s h = attempts-Sold 3 1 0 3 exec none s (omega arith) h

  should_stabilize-Sold :
      (s : State F B (Selling W)) → Sold 0 s → Sold 0 (should_stabilize (selling ch) s).1
  unfolding should_stabilize
  should_stabilize-Sold s h = ground arith

  should_rebalance-Sold :
      (s : State F B (Selling W)) → Sold 0 s → Sold 0 (should_rebalance (selling ch) s).1
  unfolding should_rebalance
  should_rebalance-Sold s h = ground arith

  execute_stabilization-Sold :
      (s : State F B (Selling W)) → Sold 0 s → Sold 3 (execute_stabilization (selling ch) fuel s).1
  unfolding execute_stabilization stabilize_if
  execute_stabilization-Sold s h =
      let p = should_stabilize-Sold s h in
      let t = (should_stabilize (selling ch) s).1 in
      elim (Bool-cases (should_stabilize (selling ch) s).0.should) [
        | inl needed ↦ rw needed (with_executor-Sold _ t p)
        | inr idle ↦ rw idle (Sold-le 0 3 t (omega arith) p)
      ]

  mark_rebalanced-Sold :
      (n : ℕ) (s : State F B (Selling W)) → Sold n s → Sold n (mark_rebalanced (selling ch) s).1
  unfolding mark_rebalanced
  mark_rebalanced-Sold n s h = h

  rebalance_if-Sold :
      (d : Decision F) (s : State F B (Selling W))
      → Sold 0 s
      → Sold 3 (rebalance_if (selling ch) fuel (d, s)).1
  unfolding rebalance_if
  rebalance_if-Sold d s h = ends_if (Sold 3) (not d.should) _ _ (Sold-le 0 3 s (omega arith) h) (
      ends_if (Sold 3) s.rebalancer.cfg.stabilization.enabled _ _
        (ends_and_then (Sold 3) _ _ (execute_stabilization-Sold s h) λ _. mark_rebalanced-Sold 3)
        (mark_rebalanced-Sold 3 s (Sold-le 0 3 s (omega arith) h)))

module _ {F B W : Type 0} ⦃f : Float F⦄ ⦃b : BigFloat F B⦄ (ch : Chain W) (fuel : ℕ) where
  -- Whatever the chain answers, a rebalance sends at most three swaps, each of a positive amount and
  -- with the least amount out that the configured slippage leaves of it.
  pub execute_rebalance-Sent :
      (s : State F B (Selling W))
      → s.world.1 ≡ []
      → Sent
          (Careful s.rebalancer.cfg.execution.max_slippage_bps)
          3
          (execute_rebalance (selling ch) fuel s).1.world.1
  unfolding execute_rebalance
  execute_rebalance-Sent s e =
      let bps = s.rebalancer.cfg.execution.max_slippage_bps in
      let fresh : Sent (Careful bps) 0 s.world.1 = subst (Sent (Careful bps) 0) (sym e) none_sent in
      (rebalance_if-Sold ch fuel bps (should_rebalance (selling ch) s).0
        (should_rebalance (selling ch) s).1 (should_rebalance-Sold ch fuel bps s (refl, fresh))).1
