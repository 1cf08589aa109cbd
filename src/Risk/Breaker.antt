-- ===== src/Risk/Breaker.antt =====
-- The circuit breaker of pkg/risk/engine.go against a timer that is open since an instant or closed.
use stablecoin_mmm.Base.{
  ◌≡◌, refl, ◌⊎◌, inr, Bool, true, false, List, [], ◌∷◌, arith, if◌then◌else◌,
}
use stablecoin_mmm.Base.Int.{ℤ, ◌+ℤ◌, ◌≤ℤ◌, ◌<ℤ◌, ltb_ℤ, int_laws, +ℤ_parts, -ℤ_parts}
use stablecoin_mmm.Base.Word.{IsInt64}
use stablecoin_mmm.Base.Time.{zero_time, minute, since, times-IsInt64}
use stablecoin_mmm.Base.Float.{Float, BigFloat}
use stablecoin_mmm.Config.{Config}
use stablecoin_mmm.Risk.{
  RiskCheck, RiskEngine, trigger_circuit_breaker, reset_circuit_breaker, record_trade,
  breaker_duration, new_risk_engine, record_loss, reset_daily_stats, of_bps, check_deviations,
  check_risk,
}

-- Elapsed time below a duration is a comparison of instants: the saturation of `since` is harmless.
pub since-lt :
    (now start d : ℤ)
    → IsInt64 d
    → start ≤ℤ now
    → now <ℤ start +ℤ d
    → ltb_ℤ (since now start) d ≡ true
unfolding since
since-lt now start d fits after before = ground (arith, +ℤ_parts start d, -ℤ_parts now start)

-- The timer that the breaker implements.
pub data Timer : Type 0 where
  closed : Timer
  open_since : ℤ → Timer

-- A trip opens it at the present; otherwise it closes once the duration has passed.
abbrev pub timer_step : ℤ → Bool → ℤ → Timer → Timer
timer_step now true duration s = open_since now
timer_step now false duration closed = closed
timer_step now false duration (open_since t) =
    if ltb_ℤ (since now t) duration then open_since t else closed

abbrev pub view : {F : Type 0} → RiskEngine F → Timer
view e = if e.is_circuit_breaker then open_since e.circuit_breaker_start else closed

pub breaker_duration-IsInt64 : {F : Type 0} (cfg : Config F) → IsInt64 (breaker_duration cfg)
unfolding breaker_duration
breaker_duration-IsInt64 cfg = times-IsInt64 cfg.risk.circuit_breaker_duration_min minute

-- What no check of the risk changes.
pub record KeepsCounters {F : Type 0} (e e' : RiskEngine F) : Type 0 where
  pub cfg : e'.cfg ≡ e.cfg
  pub daily_loss : e'.daily_loss ≡ e.daily_loss
  pub total_volume : e'.total_volume ≡ e.total_volume
  pub failed_trades : e'.failed_trades ≡ e.failed_trades
  pub total_trades : e'.total_trades ≡ e.total_trades

module _ {F B : Type 0} ⦃f : Float F⦄ ⦃b : BigFloat F B⦄ where
  -- The test on which `CheckRisk` trips the breaker.
  abbrev pub trips : B → F → RiskEngine F → Bool
  trips current ref e =
      f.lt (of_bps e.cfg.risk.circuit_breaker_deviation_bps)
        (f.abs (f.sub (b.to_float64 current) ref))

  -- `CheckRisk` moves the breaker exactly as the timer steps, and changes no counter.
  pub check_risk_refines_timer :
      (now : ℤ) (current twap : B) (ref : F) (e : RiskEngine F)
      → let e' = (check_risk now current twap ref e).0 in
        (view e' ≡ timer_step now (trips current ref e) (breaker_duration e.cfg) (view e))
        × KeepsCounters e e'
  unfolding check_risk check_deviations trigger_circuit_breaker reset_circuit_breaker
  check_risk_refines_timer now current twap ref e = ground arith

-- One call of `CheckRisk`.
pub record Call (F B : Type 0) : Type 0 where
  pub now : ℤ
  pub current : B
  pub twap : B
  pub ref : F

-- The instants of the calls do not fall, from `low` on, and stay before `limit`.
abbrev pub InOrder : {F B : Type 0} → ℤ → ℤ → List (Call F B) → Type 0
InOrder low limit [] = Unit
InOrder low limit (c ∷ cs) = (low ≤ℤ c.now) × (c.now <ℤ limit) × InOrder c.now limit cs

abbrev pub AllRefused : {F : Type 0} → List (RiskCheck F) → Type 0
AllRefused [] = Unit
AllRefused (c ∷ cs) =
    (c.allowed ≡ false) × (c.should_stop ≡ true) × (c.should_withdraw ≡ true) × AllRefused cs

module _ {F B : Type 0} ⦃f : Float F⦄ ⦃b : BigFloat F B⦄ where
  -- A sequence of calls, with the checks that they return.
  abbrev pub run_checks : List (Call F B) → RiskEngine F → RiskEngine F × List (RiskCheck F)
  run_checks [] e = (e, [])
  run_checks (c ∷ cs) e =
      let (e', check) = check_risk c.now c.current c.twap c.ref e in
      let (e'', checks) = run_checks cs e' in (e'', check ∷ checks)

  -- An active breaker, not yet expired, stays active and refuses; a new trip only moves its start.
  pub check_risk_active :
      (now : ℤ) (current twap : B) (ref : F) (e : RiskEngine F)
      → IsInt64 (breaker_duration e.cfg)
      → e.is_circuit_breaker ≡ true
      → e.circuit_breaker_start ≤ℤ now
      → now <ℤ e.circuit_breaker_start +ℤ breaker_duration e.cfg
      → let (e', check) = check_risk now current twap ref e in
        (e'.cfg ≡ e.cfg)
        × (e'.is_circuit_breaker ≡ true)
        × (e.circuit_breaker_start ≤ℤ e'.circuit_breaker_start)
        × (e'.circuit_breaker_start ≤ℤ now)
        × (check.allowed ≡ false)
        × (check.should_stop ≡ true)
        × (check.should_withdraw ≡ true)
  unfolding check_risk check_deviations trigger_circuit_breaker
  check_risk_active now current twap ref e fits active after before =
      ground
        (arith, since-lt now e.circuit_breaker_start (breaker_duration e.cfg) fits after before)

  run_checks_from :
      (low limit : ℤ) (calls : List (Call F B)) (e : RiskEngine F)
      → IsInt64 (breaker_duration e.cfg)
      → e.is_circuit_breaker ≡ true
      → e.circuit_breaker_start ≤ℤ low
      → limit ≤ℤ e.circuit_breaker_start +ℤ breaker_duration e.cfg
      → InOrder low limit calls
      → AllRefused (run_checks calls e).1
        × ((run_checks calls e).0.is_circuit_breaker ≡ true)
        × (e.circuit_breaker_start ≤ℤ (run_checks calls e).0.circuit_breaker_start)
  run_checks_from low limit [] e fits active start held _ = (tt, active, omega arith)
  run_checks_from low limit (c ∷ cs) e fits active start held (after, before, rest) =
      let e' = (check_risk c.now c.current c.twap c.ref e).0 in
      let (same, still, later, started, refused, stop, withdraw) =
        check_risk_active c.now c.current c.twap c.ref e fits active (omega arith) (omega arith) in
      let fits' : IsInt64 (breaker_duration e'.cfg) = rw same fits in
      let held' : limit ≤ℤ e'.circuit_breaker_start +ℤ breaker_duration e'.cfg = rw same (
        omega (
          int_laws,
          +ℤ_parts e'.circuit_breaker_start (breaker_duration e.cfg),
          +ℤ_parts e.circuit_breaker_start (breaker_duration e.cfg),
        )) in
      let (all, on, up) = run_checks_from c.now limit cs e' fits' still started held' rest in
      ((refused, stop, withdraw, all), on, omega arith)

  -- Once the breaker is active, every call of `CheckRisk` in the span that follows its start refuses
  -- the trade and asks to stop and to withdraw, whatever the prices; the breaker is active at the
  -- end. The clock does not run backwards.
  pub breaker_holds :
      (calls : List (Call F B)) (e : RiskEngine F)
      → e.is_circuit_breaker ≡ true
      → InOrder e.circuit_breaker_start (e.circuit_breaker_start +ℤ breaker_duration e.cfg) calls
      → AllRefused (run_checks calls e).1 × ((run_checks calls e).0.is_circuit_breaker ≡ true)
  breaker_holds calls e active ordered =
      let start = e.circuit_breaker_start in
      let (all, on, _) =
        run_checks_from start (start +ℤ breaker_duration e.cfg) calls e
          (breaker_duration-IsInt64 e.cfg) active (omega arith) (omega arith) ordered in
      (all, on)

-- The operations of the engine that change its state.
pub data Op (F B : Type 0) : Type 0 where
  check : Call F B → Op F B
  trade : Bool → Op F B
  loss : F → Op F B
  reset_day : Op F B

module _ {F B : Type 0} ⦃f : Float F⦄ ⦃b : BigFloat F B⦄ where
  abbrev pub apply : Op F B → RiskEngine F → RiskEngine F
  apply (check c) e = (check_risk c.now c.current c.twap c.ref e).0
  apply (trade success) e = record_trade success e
  apply (loss amount) e = record_loss amount e
  apply reset_day e = reset_daily_stats e

  abbrev pub apply_all : List (Op F B) → RiskEngine F → RiskEngine F
  apply_all [] e = e
  apply_all (op ∷ ops) e = apply_all ops (apply op e)

-- The breaker is active or has no start.
abbrev pub IsConsistent : {F : Type 0} → RiskEngine F → Type 0
IsConsistent e = (e.is_circuit_breaker ≡ true) ⊎ (e.circuit_breaker_start ≡ zero_time)

module _ {F B : Type 0} ⦃f : Float F⦄ ⦃b : BigFloat F B⦄ where
  pub apply-IsConsistent :
      (op : Op F B) (e : RiskEngine F) → IsConsistent e → IsConsistent (apply op e)
  unfolding check_risk check_deviations trigger_circuit_breaker reset_circuit_breaker record_trade
      record_loss reset_daily_stats
  apply-IsConsistent (check c) e h = ground arith
  apply-IsConsistent (trade success) e h = ground arith
  apply-IsConsistent (loss amount) e h = h
  apply-IsConsistent reset_day e h = h

  apply_all-keeps :
      (ops : List (Op F B)) (e : RiskEngine F) → IsConsistent e → IsConsistent (apply_all ops e)
  apply_all-keeps [] e h = h
  apply_all-keeps (op ∷ ops) e h = apply_all-keeps ops (apply op e) (apply-IsConsistent op e h)

  -- In every state that a new engine reaches, a breaker that is not active has the zero time for
  -- its start.
  pub apply_all-IsConsistent :
      (cfg : Config F) (ops : List (Op F B)) → IsConsistent (apply_all ops (new_risk_engine cfg))
  unfolding new_risk_engine
  apply_all-IsConsistent cfg ops = apply_all-keeps ops (new_risk_engine cfg) (inr refl)
