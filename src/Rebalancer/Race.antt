-- ===== src/Rebalancer/Race.antt =====
-- Two callers of `ExecuteStabilization` in pkg/rebalancer/service.go: the rebalance loop of main.go and
-- the goroutine of `handleRebalance`. No lock joins a caller's decision to what it does about it.
use stablecoin_mmm.Base.{
  ℕ, ◌≡◌, refl, Bool, true, false, List, [], ◌∷◌, if◌then◌else◌, Option, none, some, arith,
}
use stablecoin_mmm.Base.Int.{ℤ, leb_ℤ, ltb_ℤ, ◌-ℤ◌}
use stablecoin_mmm.Base.Time.{second, times, since}
use stablecoin_mmm.Base.Float.{Float, BigFloat}
use stablecoin_mmm.Chain.{Chain}
use stablecoin_mmm.Base.{ap}
use stablecoin_mmm.Rebalancer.Keeps.{conduct, with_executor-Kept}
use stablecoin_mmm.Rebalancer.Core.{State, Decision, stop}
use stablecoin_mmm.Rebalancer.Rules.{should_stabilize}
use stablecoin_mmm.Rebalancer.Actions.{stabilize_if, attempts, with_executor, execute_stabilization}

pub data Caller : Type 0 where
  loop handler : Caller

-- A caller decides by `ShouldStabilize`, then acts on what it has decided. Meanwhile the monitor loop
-- or a handler may call `Stop`.
pub data CallerStep : Type 0 where
  decides acts : Caller → CallerStep
  stops : CallerStep

-- The shared state, and what each caller has decided and not acted on yet.
pub record Callers (F B W : Type 0) : Type 0 where
  pub state : State F B W
  pub decision : Caller → Option (Decision F)

abbrev pub same_caller : Caller → Caller → Bool
same_caller loop loop = true
same_caller handler handler = true
same_caller loop handler = false
same_caller handler loop = false

abbrev pub remember :
    {F : Type 0}
    → Caller
    → Option (Decision F)
    → (Caller → Option (Decision F))
    → Caller
    → Option (Decision F)
remember c d others c' = if same_caller c c' then d else others c'

module _ {F B W : Type 0} ⦃f : Float F⦄ ⦃b : BigFloat F B⦄ (ch : Chain W) (fuel : ℕ) where
  abbrev pub act : Caller → Option (Decision F) → Callers F B W → Callers F B W
  act c none r = r
  act c (some d) r = record {
    state = (stabilize_if ch fuel (d, r.state)).1;
    decision = remember c none r.decision;
  }

  -- One step of a caller of `ExecuteStabilization`.
  unfoldable pub caller_step : CallerStep → Callers F B W → Callers F B W
  caller_step (decides c) r =
      let (d, s) = should_stabilize ch r.state in
      record { state = s; decision = remember c (some d) r.decision }
  caller_step (acts c) r = act c (r.decision c) r
  caller_step stops r =
      let s = r.state in record r { state = record s { rebalancer = stop s.rebalancer } }

  abbrev pub caller_steps : List CallerStep → Callers F B W → Callers F B W
  caller_steps [] r = r
  caller_steps (t ∷ ts) r = caller_steps ts (caller_step t r)

  -- The attempts at a swap, whose outcome is put aside.
  abbrev pub stabilized : State F B W → State F B W
  stabilized s =
      (with_executor ch s.rebalancer.executor (λ exec. attempts ch 3 1 fuel exec none) s).1

-- Time that passes does not fall back below a span that has passed.
since_mono :
    (n m t d : ℤ) → leb_ℤ n m ≡ true → ltb_ℤ (since n t) d ≡ false → ltb_ℤ (since m t) d ≡ false
unfolding since ◌-ℤ◌
since_mono n m t d le h = ground arith

module _ {F B W : Type 0} ⦃f : Float F⦄ ⦃b : BigFloat F B⦄ (ch : Chain W) (fuel : ℕ) where
  -- A caller that has decided and acts at once is a call of `ExecuteStabilization`.
  caller_steps-execute_stabilization :
      (c : Caller) (r : Callers F B W)
      → (caller_steps ch fuel (decides c ∷ acts c ∷ []) r).state
        ≡ (execute_stabilization ch fuel r.state).1
  unfolding caller_step execute_stabilization
  caller_steps-execute_stabilization loop r = refl
  caller_steps-execute_stabilization handler r = refl

  decides_again :
      (s : State F B W)
      → leb_ℤ (ch.now s.world).0 (ch.now (ch.now s.world).1).0 ≡ true
      → (should_stabilize ch s).0.should ≡ true
      → (should_stabilize ch (should_stabilize ch s).1).0.should ≡ true
  unfolding should_stabilize
  decides_again s later h = ground (
    arith,
    since_mono (ch.now s.world).0 (ch.now (ch.now s.world).1).0 s.rebalancer.last_stabilize
        (times s.rebalancer.cfg.stabilization.cooldown_seconds second) later,
  )

  -- If a stabilization is due, and both callers decide before either acts, with a clock that does not
  -- go back between them, then both go for a swap, one behind the other: the second does not ask
  -- again whether the first has brought the price back or has started the cooldown.
  pub interleaved_stabilize_twice :
      (r : Callers F B W)
      → (should_stabilize ch r.state).0.should ≡ true
      → leb_ℤ (ch.now r.state.world).0 (ch.now (ch.now r.state.world).1).0 ≡ true
      → let s = (should_stabilize ch (should_stabilize ch r.state).1).1 in
        (caller_steps ch fuel
          (decides loop ∷ decides handler ∷ acts loop ∷ acts handler ∷ [])
          r).state
        ≡ stabilized ch fuel (stabilized ch fuel s)
  unfolding caller_step stabilize_if
  interleaved_stabilize_twice r due later = rw (due, decides_again r.state later due) refl

  stays_off :
      (s : State F B W)
      → (stabilized ch fuel (record s { rebalancer = stop s.rebalancer })).rebalancer.is_running
        ≡ false
  unfolding stop
  stays_off s =
      let t = record s { rebalancer = stop s.rebalancer } in
      ap (λ r. r.is_running)
        (with_executor-Kept ch fuel (conduct t.rebalancer) t.risk t.rebalancer.executor t
          (refl, refl)).0

  -- A stop that comes between a caller's decision and its action does not hold the action back: the
  -- caller goes for a swap although the rebalancer is stopped, and the rebalancer stays stopped.
  pub late_stop :
      (c : Caller) (r : Callers F B W)
      → (should_stabilize ch r.state).0.should ≡ true
      → let s = (should_stabilize ch r.state).1 in
        let t = record s { rebalancer = stop s.rebalancer } in
        ((caller_steps ch fuel (decides c ∷ stops ∷ acts c ∷ []) r).state ≡ stabilized ch fuel t)
        × ((stabilized ch fuel t).rebalancer.is_running ≡ false)
  unfolding caller_step stabilize_if
  late_stop loop r due = (rw due refl, stays_off (should_stabilize ch r.state).1)
  late_stop handler r due = (rw due refl, stays_off (should_stabilize ch r.state).1)
