-- ===== src/Risk/Examples.antt =====
-- The theorems on pkg/risk/engine.go at concrete inputs.
use stablecoin_mmm.Base.{◌≡◌, refl, ◌↔◌, true, false, List, [], ◌∷◌, arith}
use stablecoin_mmm.Base.Int.{pos, ◌+ℤ◌, ◌*ℤ◌}
use stablecoin_mmm.Base.Word.{wrap64}
use stablecoin_mmm.Base.Time.{times}
use stablecoin_mmm.Base.Fixed.{Fixed, fixed_float, fixed_big}
use stablecoin_mmm.Risk.{check_risk, breaker_duration}
use stablecoin_mmm.Risk.Breaker.{
  Call, InOrder, AllRefused, run_checks, breaker_holds, Op, check, trade, loss, reset_day, view,
  timer_step, trips, KeepsCounters, check_risk_refines_timer,
}
use stablecoin_mmm.Risk.Verdict.{IsReleased, WithinLimits, check_risk_allowed_iff}
use stablecoin_mmm.Sample.{config, engine, units}

-- Two calls inside the minute, the second at a price of two.
abbrev calls : List (Call Fixed Fixed)
calls =
    record { now = pos 2000; current = units 1; twap = units 1; ref = units 1 }
    ∷ record { now = pos 3000; current = units 2; twap = units 1; ref = units 1 }
    ∷ []

ordered :
    InOrder engine.circuit_breaker_start
      (engine.circuit_breaker_start +ℤ breaker_duration config)
      calls
unfolding breaker_duration times wrap64 ◌+ℤ◌ ◌*ℤ◌
ordered = ground arith

breaker_holds_example :
    AllRefused (run_checks calls engine).1 × ((run_checks calls engine).0.is_circuit_breaker ≡ true)
breaker_holds_example = breaker_holds calls engine refl ordered

check_risk_refines_timer_example :
    let e' = (check_risk (pos 5000) (units 2) (units 1) (units 1) engine).0 in
    (view e'
      ≡ timer_step
          (pos 5000)
          (trips (units 2) (units 1) engine)
          (breaker_duration config)
          (view engine))
    × KeepsCounters engine e'
check_risk_refines_timer_example =
    check_risk_refines_timer (pos 5000) (units 2) (units 1) (units 1) engine

check_risk_allowed_iff_example :
    ((check_risk (pos 5000) (units 2) (units 1) (units 1) engine).1.allowed ≡ true)
    ↔ (IsReleased (pos 5000) engine × WithinLimits (units 2) (units 1) (units 1) engine)
check_risk_allowed_iff_example =
    check_risk_allowed_iff (pos 5000) (units 2) (units 1) (units 1) engine

abbrev ops : List (Op Fixed Fixed)
ops =
    check (record { now = pos 3000; current = units 2; twap = units 1; ref = units 1 })
    ∷ trade false
    ∷ loss (units 1)
    ∷ reset_day
    ∷ []
