-- ===== src/Rebalancer/Owned.antt =====
-- What a rebalance of pkg/rebalancer/service.go does with the bot's funds.
use stablecoin_mmm.Base.{
  ℕ, zero, suc, ◌+◌, refl, sym, inl, inr, not, Option, none, some, Bool-cases, arith,
}
use stablecoin_mmm.Base.Int.{ℤ, pos, leb_ℤ}
use stablecoin_mmm.Base.Float.{Float, BigFloat}
use stablecoin_mmm.Base.Act.{Outcome, Result, value, error, GoError, or_panic}
use stablecoin_mmm.Base.Settles.{ends_and_then, ends_caught, ends_wrapped, ends_if}
use stablecoin_mmm.Config.{Config}
use stablecoin_mmm.Chain.{Address, Chain}
use stablecoin_mmm.Chain.Watched.{Watched, watching, Owner}
use stablecoin_mmm.Executor.Core.{Executor, Returned}
use stablecoin_mmm.Executor.Owned.{Owned, IsOf, MaybeOf, get_token_balance-Owned}
use stablecoin_mmm.Executor.Payouts.{execute_swap-Owned}
use stablecoin_mmm.Rebalancer.Core.{
  State, Decision, outside, min_out, swap_value, available_of_balance,
}
use stablecoin_mmm.Rebalancer.Rules.{should_rebalance, should_stabilize}
use stablecoin_mmm.Rebalancer.Actions.{
  settle, mark_stabilized, mark_rebalanced, swap_balance, do_stabilization, pause, after_attempt,
  attempts, with_executor, stabilize_if, execute_stabilization, rebalance_if, execute_rebalance,
}
use mathlib.Core.Path.{subst}
use stablecoin_mmm.Rebalancer.Core.{Rebalancer}
use stablecoin_mmm.Rebalancer.Guard.{should_rebalance_keeps, should_stabilize_keeps}

module _ {F B W : Type 0} ⦃f : Float F⦄ ⦃b : BigFloat F B⦄ (ch : Chain W) (o : Owner)
    (fuel : ℕ) where
  abbrev pub Lawful : State F B (Watched W) → Type 0
  Lawful s = Owned o s.world

  settle-Lawful :
      (r : Returned) (s : State F B (Watched W)) → Lawful s → Lawful (settle (watching ch) r s).1
  unfolding settle mark_stabilized
  settle-Lawful (r, some e) s h = h
  settle-Lawful (r, none) s h = elim (Bool-cases r.success) [
    | inl good ↦ rw good h
    | inr bad ↦ rw bad h
  ]

  or_panic-Lawful : (x : Option ℤ) (s : State F B (Watched W)) → Lawful s → Lawful (or_panic x s).1
  or_panic-Lawful none s h = h
  or_panic-Lawful (some z) s h = h

  module _ (exec : Executor F) (own : IsOf ch o exec) where
    swap_balance-Lawful :
        (cfg : Config F) (token_in token_out : Address) (balance : ℤ) (s : State F B (Watched W))
        → Lawful s
        → Lawful (swap_balance (watching ch) fuel exec cfg token_in token_out balance s).1
    unfolding swap_balance outside
    swap_balance-Lawful cfg token_in token_out balance s h =
        let available : F = available_of_balance balance in
        let amount_in =
          f.to_int (f.mul (swap_value cfg.stabilization available) (f.dec 1_000_000 0)) in
        elim (Bool-cases (leb_ℤ amount_in (pos 0))) [
          | inl nothing ↦ rw nothing h
          | inr positive ↦ rw positive (
              ends_and_then Lawful _ _
                (or_panic-Lawful (min_out amount_in cfg.execution.max_slippage_bps) s h)
                λ out_min t p.
                  ends_and_then Lawful _ _
                    (execute_swap-Owned ch o exec own fuel token_in token_out amount_in out_min
                      (pos 0) t.world p)
                    settle-Lawful)
        ]

    do_stabilization-Lawful :
        (s : State F B (Watched W))
        → Lawful s
        → Lawful (do_stabilization (watching ch) fuel exec s).1
    unfolding do_stabilization outside
    do_stabilization-Lawful s h =
        ends_and_then Lawful _ _
          (ends_wrapped Lawful _ _ (get_token_balance-Owned ch o _ _ s.world h))
          λ balance0 s1 h1.
            ends_and_then Lawful _ _
              (ends_wrapped Lawful _ _ (get_token_balance-Owned ch o _ _ s1.world h1))
              λ balance1 s2 h2.
                elim (Bool-cases (f.lt (f.dec 1 0) (b.to_float64 s.rebalancer.current_price))) [
                  | inl above ↦ rw above (swap_balance-Lawful s.rebalancer.cfg _ _ balance0 s2 h2)
                  | inr below ↦ rw below (swap_balance-Lawful s.rebalancer.cfg _ _ balance1 s2 h2)
                ]

    pause-Lawful :
        (attempt : ℕ) (s : State F B (Watched W))
        → Lawful s
        → Lawful (pause (watching ch) attempt s)
    unfolding pause
    pause-Lawful attempt s h = ground arith

    after_attempt-Lawful :
        (again : GoError → State F B (Watched W) → Outcome (Unit {0}) × State F B (Watched W))
        (r : Result (Unit {0})) (s : State F B (Watched W))
        → Lawful s
        → ((e : GoError) → Lawful (again e s).1)
        → Lawful (after_attempt (watching ch) again r s).1
    after_attempt-Lawful again (value u) s h go = h
    after_attempt-Lawful again (error e) s h go = go e

    attempts-Lawful :
        (left attempt : ℕ) (last : Option GoError) (s : State F B (Watched W))
        → Lawful s
        → Lawful (attempts (watching ch) left attempt fuel exec last s).1
    unfolding attempts
    attempts-Lawful zero attempt last s h = h
    attempts-Lawful (suc left) attempt last s h =
        ends_caught Lawful _ _ (do_stabilization-Lawful s h) λ r t p.
          after_attempt-Lawful _ r t p λ e.
            attempts-Lawful left (attempt + 1) (some e) (pause (watching ch) attempt t)
              (pause-Lawful attempt t p)

  with_executor-Lawful :
      (x : Option (Executor F)) (s : State F B (Watched W))
      → MaybeOf ch o x
      → Lawful s
      → Lawful
          (with_executor (watching ch) x (λ exec. attempts (watching ch) 3 1 fuel exec none) s).1
  with_executor-Lawful none s own h = h
  with_executor-Lawful (some exec) s own h = attempts-Lawful exec (own exec refl) 3 1 none s h

  should_stabilize-Lawful :
      (s : State F B (Watched W)) → Lawful s → Lawful (should_stabilize (watching ch) s).1
  unfolding should_stabilize
  should_stabilize-Lawful s h = ground arith

  should_rebalance-Lawful :
      (s : State F B (Watched W)) → Lawful s → Lawful (should_rebalance (watching ch) s).1
  unfolding should_rebalance
  should_rebalance-Lawful s h = ground arith

  execute_stabilization-Lawful :
      (s : State F B (Watched W))
      → MaybeOf ch o s.rebalancer.executor
      → Lawful s
      → Lawful (execute_stabilization (watching ch) fuel s).1
  unfolding execute_stabilization stabilize_if
  execute_stabilization-Lawful s own h =
      let t = (should_stabilize (watching ch) s).1 in
      let p = should_stabilize-Lawful s h in
      elim (Bool-cases (should_stabilize (watching ch) s).0.should) [
        | inl needed ↦ rw needed (
            with_executor-Lawful _ t
              (subst (λ (r : Rebalancer F B). MaybeOf ch o r.executor)
                (sym (should_stabilize_keeps (watching ch) s)) own)
              p)
        | inr idle ↦ rw idle p
      ]

  rebalance_if-Lawful :
      (d : Decision F) (s : State F B (Watched W))
      → MaybeOf ch o s.rebalancer.executor
      → Lawful s
      → Lawful (rebalance_if (watching ch) fuel (d, s)).1
  unfolding rebalance_if mark_rebalanced
  rebalance_if-Lawful d s own h = ends_if Lawful (not d.should) _ _ h (
      ends_if Lawful s.rebalancer.cfg.stabilization.enabled _ _
        (ends_and_then Lawful _ _ (execute_stabilization-Lawful s own h) λ _ t p. p) h)

  pub execute_rebalance-Lawful :
      (s : State F B (Watched W))
      → MaybeOf ch o s.rebalancer.executor
      → Lawful s
      → Lawful (execute_rebalance (watching ch) fuel s).1
  unfolding execute_rebalance
  execute_rebalance-Lawful s own h =
      rebalance_if-Lawful (should_rebalance (watching ch) s).0 (should_rebalance (watching ch) s).1
        (subst (λ (r : Rebalancer F B). MaybeOf ch o r.executor)
          (sym (should_rebalance_keeps (watching ch) s)) own)
        (should_rebalance-Lawful s h)
