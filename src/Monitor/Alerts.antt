-- ===== src/Monitor/Alerts.antt =====
-- Which alerts pkg/monitor/service.go raises.
use stablecoin_mmm.Base.{
  ◌≡◌, ◌↔◌, ◌⊎◌, refl, ◌++◌, Bool, true, false, List, [], ◌∷◌, Option, arith, if◌then◌else◌,
}
use stablecoin_mmm.Base.Float.{Float}
use stablecoin_mmm.Chain.{Chain}
use stablecoin_mmm.Risk.{RiskEngine}
use stablecoin_mmm.Monitor.{
  Metrics, AlertMessage, Level, deviation_is_high, deviation_exceeds_breaker, failure_rate_is_high,
  circuit_breaker_active, warning, critical, Alert, check_alerts, alert_if, breaker_of,
}

abbrev pub is_critical : {F : Type 0} → Alert F → Bool
is_critical a = elim a.level [ warning ↦ false | critical ↦ true ]

abbrev pub any_critical : {F : Type 0} → List (Alert F) → Bool
any_critical [] = false
any_critical (a ∷ rest) = if is_critical a then true else any_critical rest

any_critical-append :
    {F : Type 0} (xs ys : List (Alert F))
    → any_critical (xs ++ ys) ≡ (if any_critical xs then true else any_critical ys)
any_critical-append [] ys = refl
any_critical-append (x ∷ xs) ys = ground (arith, any_critical-append xs ys)

module _ {F W : Type 0} ⦃f : Float F⦄ (ch : Chain W) where
  critical-alert_if :
      (b : Bool) (text : AlertMessage F) (w : W)
      → any_critical (alert_if ch b critical text w).0 ≡ b
  critical-alert_if true text w = refl
  critical-alert_if false text w = refl

  warning-alert_if :
      (b : Bool) (text : AlertMessage F) (w : W)
      → any_critical (alert_if ch b warning text w).0 ≡ false
  warning-alert_if true text w = refl
  warning-alert_if false text w = refl

  -- Some alert is critical exactly when the deviation is above 0.03 or the breaker of an engine that
  -- is there is active: a warning never hides one.
  pub check_alerts_critical :
      (engine : Option (RiskEngine F)) (m : Metrics F) (w : W)
      → (any_critical (check_alerts ch engine m w).0 ≡ true)
        ↔ ((f.lt (f.dec 3 2) m.deviation ≡ true) ⊎ (breaker_of engine ≡ true))
  unfolding check_alerts
  check_alerts_critical engine m w =
      rw
        (
          any_critical-append _ _,
          any_critical-append _ _,
          any_critical-append _ _,
          warning-alert_if (f.lt (f.dec 1 2) m.deviation) _ _,
          critical-alert_if (f.lt (f.dec 3 2) m.deviation) _ _,
          warning-alert_if (f.lt (f.dec 1 1) m.failure_rate) _ _,
          critical-alert_if (breaker_of engine) _ _,
        )
        (ground arith)

  module _ (P : W → Type 0) (clock : (w : W) → P w → P (ch.now w).1) where
    alert_if-keeps :
        (b : Bool) (level : Level) (text : AlertMessage F) (w : W)
        → P w
        → P (alert_if ch b level text w).1
    alert_if-keeps true level text w p = clock w p
    alert_if-keeps false level text w p = p

    -- What reading the clock does not change of the world, the alerts do not.
    pub check_alerts-keeps :
        (engine : Option (RiskEngine F)) (m : Metrics F) (w : W)
        → P w
        → P (check_alerts ch engine m w).1
    unfolding check_alerts
    check_alerts-keeps engine m w p =
        let shown = λ (x : F). f.mul x (f.dec 100 0) in
        alert_if-keeps (breaker_of engine) critical circuit_breaker_active _ (
          alert_if-keeps (f.lt (f.dec 1 1) m.failure_rate) warning
            (failure_rate_is_high (shown m.failure_rate)) _
            (alert_if-keeps (f.lt (f.dec 3 2) m.deviation) critical
              (deviation_exceeds_breaker (shown m.deviation)) _
              (alert_if-keeps (f.lt (f.dec 1 2) m.deviation) warning
                (deviation_is_high (shown m.deviation)) w p)))
