-- ===== src/Api/Codes.antt =====
-- The status codes of the answers of pkg/api/service.go.
use stablecoin_mmm.Base.{ℕ, ◌&&◌, ◌||◌, ◌==◌, Bool, true, false, not, List, [], ◌∷◌, if◌then◌else◌}
use stablecoin_mmm.Api.Routes.{
  Request, to_health, to_metrics, to_positions, to_risk, to_rebalance, to_start, to_stop, to_alerts,
  to_balance, to_status, to_create_pool, to_add_liquidity, to_swap,
}

-- The requests whose handler needs the executor.
unfoldable pub needs_executor : {F : Type 0} → Request F → Bool
needs_executor to_health = false
needs_executor to_metrics = false
needs_executor to_risk = false
needs_executor to_rebalance = false
needs_executor to_start = false
needs_executor to_stop = false
needs_executor to_alerts = false
needs_executor (to_status order) = false
needs_executor to_positions = true
needs_executor to_balance = true
needs_executor (to_create_pool r) = true
needs_executor (to_add_liquidity r) = true
needs_executor (to_swap r) = true

-- The codes of a request that has what it needs.
unfoldable pub codes : {F : Type 0} → Request F → List ℕ
codes to_health = 200 ∷ []
codes to_metrics = 200 ∷ []
codes to_risk = 200 ∷ []
codes to_rebalance = 200 ∷ 400 ∷ []
codes to_start = 200 ∷ []
codes to_stop = 200 ∷ []
codes to_alerts = 200 ∷ []
codes (to_status order) = 200 ∷ []
codes to_positions = 200 ∷ 500 ∷ []
codes to_balance = 200 ∷ []
codes (to_create_pool r) = 200 ∷ 400 ∷ 500 ∷ []
codes (to_add_liquidity r) = 200 ∷ 400 ∷ 500 ∷ []
codes (to_swap r) = 200 ∷ 400 ∷ 500 ∷ []

abbrev pub is_one_of : ℕ → List ℕ → Bool
is_one_of n [] = false
is_one_of n (m ∷ ms) = n == m || is_one_of n ms

-- The codes of a request, by whether there is an executor.
abbrev pub codes_with : {F : Type 0} → Bool → Request F → List ℕ
codes_with has r = if needs_executor r && not has then 503 ∷ [] else codes r
