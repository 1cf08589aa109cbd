-- ===== src/Rebalancer/Rests.antt =====
-- What a successful stabilization of pkg/rebalancer/service.go does to the next one.
use stablecoin_mmm.Base.{
  ℕ, zero, suc, ◌+◌, ◌≡◌, refl, ap, true, Bool-cases, inl, inr, Option, none, some, arith,
}
use stablecoin_mmm.Base.Int.{ℤ, pos, leb_ℤ, ltb_ℤ}
use stablecoin_mmm.Base.Time.{second, times, since}
use stablecoin_mmm.Base.Float.{Float, BigFloat}
use stablecoin_mmm.Base.Act.{
  ok, err, message, GoError, Ensures, returns, fails, panics, Ensures-and_then, Ensures-tried,
  of_Ensures,
}
use stablecoin_mmm.Config.{Config}
use stablecoin_mmm.Chain.{Chain, Address}
use stablecoin_mmm.Executor.Core.{Executor, Returned}
use stablecoin_mmm.Rebalancer.Core.{State, swap_value, available_of_balance}
use stablecoin_mmm.Rebalancer.Rules.{should_stabilize}
use stablecoin_mmm.Rebalancer.Actions.{
  settle, mark_stabilized, swap_balance, do_stabilization, pause, attempts, with_executor,
  stabilize_if, execute_stabilization,
}
use stablecoin_mmm.Rebalancer.Held.{OnlyReadsClock}

module _ {F B W : Type 0} ⦃f : Float F⦄ ⦃b : BigFloat F B⦄ (ch : Chain W) (fuel : ℕ) where
  -- The call has ended in marking the time of the stabilization.
  abbrev Marked : Unit {0} → State F B W → Type 0
  Marked u t = (v : State F B W) × (t ≡ (mark_stabilized ch v).1)

  settle-Marked : (r : Returned) (s : State F B W) → Ensures Marked (settle ch r s)
  unfolding settle mark_stabilized
  settle-Marked (r, some e) s = fails
  settle-Marked (r, none) s = elim (Bool-cases r.success) [
    | inl good ↦ rw good (returns (s, refl))
    | inr bad ↦ rw bad fails
  ]

  swap_balance-Marked :
      (exec : Executor F) (cfg : Config F) (token_in token_out : Address) (balance : ℤ)
      (s : State F B W)
      → Ensures Marked (swap_balance ch fuel exec cfg token_in token_out balance s)
  unfolding swap_balance
  swap_balance-Marked exec cfg token_in token_out balance s =
      let available : F = available_of_balance balance in
      let amount_in =
        f.to_int (f.mul (swap_value cfg.stabilization available) (f.dec 1_000_000 0)) in
      elim (Bool-cases (leb_ℤ amount_in (pos 0))) [
        | inl nothing ↦ rw nothing fails
        | inr positive ↦
            rw positive (Ensures-and_then _ λ out_min t. Ensures-and_then _ λ r. settle-Marked r)
      ]

  do_stabilization-Marked :
      (exec : Executor F) (s : State F B W) → Ensures Marked (do_stabilization ch fuel exec s)
  unfolding do_stabilization
  do_stabilization-Marked exec s = Ensures-and_then _ λ balance0 s1.
      Ensures-and_then _ λ balance1 s2.
        elim (Bool-cases (f.lt (f.dec 1 0) (b.to_float64 s.rebalancer.current_price))) [
          | inl above ↦ rw above (swap_balance-Marked exec s.rebalancer.cfg _ _ balance0 s2)
          | inr below ↦ rw below (swap_balance-Marked exec s.rebalancer.cfg _ _ balance1 s2)
        ]

  attempts-Marked :
      (left attempt : ℕ) (exec : Executor F) (last : Option GoError) (s : State F B W)
      → Ensures Marked (attempts ch left attempt fuel exec last s)
  unfolding attempts
  attempts-Marked zero attempt exec last s = fails
  attempts-Marked (suc left) attempt exec last s =
      Ensures-tried _ (do_stabilization-Marked exec s) (λ u t p. returns p)
        λ e t. attempts-Marked left (attempt + 1) exec (some e) (pause ch attempt t)

  with_executor-Marked :
      (o : Option (Executor F)) (s : State F B W)
      → Ensures Marked (with_executor ch o (λ exec. attempts ch 3 1 fuel exec none) s)
  with_executor-Marked none s = panics
  with_executor-Marked (some exec) s = attempts-Marked 3 1 exec none s

  execute_stabilization-Marked :
      (s : State F B W) → Ensures Marked (execute_stabilization ch fuel s)
  unfolding execute_stabilization stabilize_if
  execute_stabilization-Marked s = elim (Bool-cases (should_stabilize ch s).0.should) [
    | inl needed ↦ rw needed (with_executor-Marked _ (should_stabilize ch s).1)
    | inr idle ↦ rw idle fails
  ]

  cooldown_holds :
      (t : State F B W)
      → ltb_ℤ
          (since (ch.now t.world).0 t.rebalancer.last_stabilize)
          (times t.rebalancer.cfg.stabilization.cooldown_seconds second)
        ≡ true
      → let (o, t') = execute_stabilization ch fuel t in
        (o ≡ err (message "stabilization not needed"))
        × (t'.rebalancer ≡ t.rebalancer)
        × (t'.risk ≡ t.risk)
        × OnlyReadsClock ch t.world t'.world
  unfolding execute_stabilization stabilize_if should_stabilize
  cooldown_holds t early = ground arith

  -- A stabilization that succeeds has, as the last thing it did, put a reading of the clock down as
  -- its time. Until the clock passes that reading by the cooldown, the next stabilization fails: it
  -- leaves the rebalancer and the risk engine as they were and asks the outside for the time at most.
  pub stabilized_rests :
      (s t : State F B W)
      → execute_stabilization ch fuel s ≡ (ok tt, t)
      → ltb_ℤ
          (since (ch.now t.world).0 t.rebalancer.last_stabilize)
          (times t.rebalancer.cfg.stabilization.cooldown_seconds second)
        ≡ true
      → let (o, t') = execute_stabilization ch fuel t in
        ((w : W) × ((t.rebalancer.last_stabilize, t.world) ≡ ch.now w))
        × (o ≡ err (message "stabilization not needed"))
        × (t'.rebalancer ≡ t.rebalancer)
        × (t'.risk ≡ t.risk)
        × OnlyReadsClock ch t.world t'.world
  unfolding mark_stabilized
  stabilized_rests s t done early =
      let (v, marked) =
        of_Ensures Marked (execute_stabilization ch fuel s) (execute_stabilization-Marked s) done in
      let (failed, same, same_risk, clock) = cooldown_holds t early in
      (
        (v.world, ap (λ (u : State F B W). (u.rebalancer.last_stabilize, u.world)) marked),
        failed,
        same,
        same_risk,
        clock,
      )
