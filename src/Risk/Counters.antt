-- ===== src/Risk/Counters.antt =====
-- The trade counters of pkg/risk/engine.go.
use stablecoin_mmm.Base.{
  ℕ, suc, ◌+◌, ◌^◌, ◌≤◌, ◌<◌, ◌≡◌, refl, ap, ◌==◌, Bool, true, false, List, [], ◌∷◌, arith,
  if◌then◌else◌, length,
}
use stablecoin_mmm.Base.Int.{pos, ◌+ℤ◌}
use stablecoin_mmm.Base.Word.{wrap64}
use stablecoin_mmm.Base.Float.{Float}
use stablecoin_mmm.Risk.{RiskEngine, record_trade, get_failure_rate, reset_daily_stats}

abbrev pub failures : List Bool → ℕ
failures [] = 0
failures (true ∷ rest) = failures rest
failures (false ∷ rest) = suc (failures rest)

failures-le : (outcomes : List Bool) → failures outcomes ≤ length outcomes
failures-le [] = omega arith
failures-le (true ∷ rest) = omega (arith, failures-le rest)
failures-le (false ∷ rest) = omega (arith, failures-le rest)

abbrev pub record_trades : {F : Type 0} → List Bool → RiskEngine F → RiskEngine F
record_trades [] e = e
record_trades (success ∷ rest) e = record_trades rest (record_trade success e)

wrap64-pos : (n : ℕ) → n + 1 < 2 ^ 63 → wrap64 (pos n +ℤ pos 1) ≡ pos (n + 1)
unfolding wrap64 ◌+ℤ◌
wrap64-pos n h = ground arith

record_trades_from :
    {F : Type 0} (outcomes : List Bool) (e : RiskEngine F) (failed total : ℕ)
    → e.failed_trades ≡ pos failed
    → e.total_trades ≡ pos total
    → failed ≤ total
    → total + length outcomes < 2 ^ 63
    → let e' = record_trades outcomes e in
      (e'.total_trades ≡ pos (total + length outcomes))
      × (e'.failed_trades ≡ pos (failed + failures outcomes))
unfolding record_trade
record_trades_from [] e failed total ef et le fits = ground arith
record_trades_from (true ∷ rest) e failed total ef et le fits =
    ground
      (arith, wrap64-pos total, record_trades_from rest (record_trade true e) failed (total + 1))
record_trades_from (false ∷ rest) e failed total ef et le fits = ground (
  arith,
  wrap64-pos total,
  wrap64-pos failed,
  record_trades_from rest (record_trade false e) (failed + 1) (total + 1),
)

module _ {F : Type 0} ⦃f : Float F⦄ where
  -- After a reset of the daily statistics and any trades, fewer than 2 ^ 63, the counters hold the
  -- number of trades and of failed ones, and the failure rate is their quotient: zero if there was
  -- no trade.
  pub failure_rate_of_trades :
      (outcomes : List Bool) (e : RiskEngine F)
      → length outcomes < 2 ^ 63
      → let e' = record_trades outcomes (reset_daily_stats e) in
        let n = length outcomes in
        (e'.total_trades ≡ pos n)
        × (e'.failed_trades ≡ pos (failures outcomes))
        × (failures outcomes ≤ n)
        × (get_failure_rate e' ≡ (
            if n == 0
            then f.dec 0 0
            else f.div (f.of_int (pos (failures outcomes))) (f.of_int (pos n))))
  unfolding reset_daily_stats get_failure_rate
  failure_rate_of_trades outcomes e fits =
      let (total, failed) =
        record_trades_from outcomes (reset_daily_stats e) 0 0 refl refl (omega arith)
          (omega arith) in
      let t : (record_trades outcomes (reset_daily_stats e)).total_trades ≡ pos (length outcomes) =
        rw total (ap pos (omega arith)) in
      let x : (record_trades outcomes (reset_daily_stats e)).failed_trades
          ≡ pos (failures outcomes) =
        rw failed (ap pos (omega arith)) in
      (t, x, failures-le outcomes, rw (t, x) (ground arith))
