-- ===== src/Risk/Verdict.antt =====
-- What `CheckRisk` and `CheckTradeSize` of pkg/risk/engine.go answer, on every branch.
use stablecoin_mmm.Base.{◌≡◌, ◌↔◌, ◌⊎◌, true, false, arith}
use stablecoin_mmm.Base.Int.{ℤ, ltb_ℤ}
use stablecoin_mmm.Base.Time.{since}
use stablecoin_mmm.Base.Float.{Float, BigFloat}
use stablecoin_mmm.Risk.{
  RiskEngine, critical, low, reset_circuit_breaker, breaker_duration, of_bps, check_limits,
  check_deviations, check_risk, check_trade_size,
}
use stablecoin_mmm.Risk.Breaker.{trips}

-- The breaker has no say: it is not active, or its time is over.
abbrev pub IsReleased : {F : Type 0} → ℤ → RiskEngine F → Type 0
IsReleased now e =
    (e.is_circuit_breaker ≡ false)
    ⊎ (ltb_ℤ (since now e.circuit_breaker_start) (breaker_duration e.cfg) ≡ false)

module _ {F B : Type 0} ⦃f : Float F⦄ ⦃b : BigFloat F B⦄ where
  -- The price is in the band, the daily loss within its limit, and the average price within half
  -- the band.
  pub record WithinLimits (current twap : B) (ref : F) (e : RiskEngine F) : Type 0 where
    pub price : trips current ref e ≡ false
    pub loss : f.lt (of_bps e.cfg.risk.max_daily_loss_bps) e.daily_loss ≡ false
    pub average :
        f.lt
          (f.div (of_bps e.cfg.risk.circuit_breaker_deviation_bps) (f.dec 2 0))
          (f.abs (f.sub (b.to_float64 twap) ref))
        ≡ false

  -- `CheckRisk` allows a trade exactly when the breaker is released and every limit is kept.
  pub check_risk_allowed_iff :
      (now : ℤ) (current twap : B) (ref : F) (e : RiskEngine F)
      → ((check_risk now current twap ref e).1.allowed ≡ true)
        ↔ (IsReleased now e × WithinLimits current twap ref e)
  unfolding check_risk check_deviations check_limits reset_circuit_breaker
  check_risk_allowed_iff now current twap ref e = ground arith

  -- A check that asks to withdraw also asks to stop, one that asks to stop refuses, and an allowed
  -- one has the lowest severity. The severity is critical exactly when the call tripped the breaker.
  pub check_risk_flags :
      (now : ℤ) (current twap : B) (ref : F) (e : RiskEngine F)
      → let check = (check_risk now current twap ref e).1 in
        ((check.should_withdraw ≡ false) ⊎ (check.should_stop ≡ true))
        × ((check.should_stop ≡ false) ⊎ (check.allowed ≡ false))
        × ((check.allowed ≡ false) ⊎ (check.severity ≡ low))
        × ((check.severity ≡ critical) ↔ (trips current ref e ≡ true))
  unfolding check_risk check_deviations check_limits reset_circuit_breaker
  check_risk_flags now current twap ref e = ground arith

  -- Whether or not the trade is allowed, a check of its size asks neither to stop nor to withdraw;
  -- it is refused exactly when the sum of the two amounts is above the limit.
  pub check_trade_size_flags :
      (amount0 amount1 : B) (e : RiskEngine F)
      → let check = check_trade_size amount0 amount1 e in
        (check.should_stop ≡ false)
        × (check.should_withdraw ≡ false)
        × ((check.allowed ≡ false) ↔ (
            f.lt
              (of_bps e.cfg.risk.max_single_trade_bps)
              (f.add (b.to_float64 amount0) (b.to_float64 amount1))
            ≡ true))
  unfolding check_trade_size
  check_trade_size_flags amount0 amount1 e = ground arith
