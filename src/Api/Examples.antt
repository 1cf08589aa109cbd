-- ===== src/Api/Examples.antt =====
-- The theorems on pkg/api/service.go at concrete inputs.
use stablecoin_mmm.Base.{ℕ, ◌≡◌, refl}
use stablecoin_mmm.Base.Int.{pos}
use stablecoin_mmm.Base.Act.{Result, value, Ensures}
use stablecoin_mmm.Api.Server.{SwapRequest}
use stablecoin_mmm.Base.{List, [], ◌∷◌}
use stablecoin_mmm.Base.Int.{negsuc}
use stablecoin_mmm.Base.Fixed.{Fixed, fixed_float, fixed_big}
use stablecoin_mmm.Base.Act.{and_then, pure}
use stablecoin_mmm.Api.Liquidity.{Tier, add_tiers}
use stablecoin_mmm.Api.Tiers.{add_all, positive_tiers, answer_of, add_tiers_lem}
use stablecoin_mmm.Api.Routes.{Request, to_swap, serve}
use stablecoin_mmm.Api.ReadOnly.{in_world}
use stablecoin_mmm.Api.Effects.{controls, serve-OnlyWorld}
use stablecoin_mmm.Api.Codes.{is_one_of, codes_with}
use stablecoin_mmm.Api.Coded.{serve-Coded}
use stablecoin_mmm.Base.{false, true}
use stablecoin_mmm.Api.Status.{any_controls, serve_all, to_set, status_tells}
use stablecoin_mmm.Api.Server.{answer, status}
use stablecoin_mmm.Api.Routes.{to_status}
use stablecoin_mmm.Base.Act.{ok}
use stablecoin_mmm.Risk.{is_circuit_breaker_active}
use stablecoin_mmm.Position.{get_total_ratio}
use stablecoin_mmm.Sample.{chain, server, executor}

abbrev request : Result SwapRequest
request = value (record {
  token_in = "token0";
  token_out = "token1";
  amount_in = "100";
  amount_out_min = "";
  fee = 500;
})

abbrev swap_request : Request Fixed
swap_request = to_swap request

uncontrolled : controls swap_request ≡ false
unfolding controls
uncontrolled = refl

serve-OnlyWorld_example : (w : ℕ) × ((serve chain 4 swap_request server).1 ≡ in_world server w)
serve-OnlyWorld_example = serve-OnlyWorld chain 4 swap_request server uncontrolled

serve-Coded_example :
    Ensures
      (λ a _. is_one_of a.code (codes_with true swap_request) ≡ true)
      (serve chain 4 swap_request server)
serve-Coded_example = serve-Coded chain 4 swap_request server

uncontrolled_swap : any_controls (swap_request ∷ []) ≡ false
unfolding controls
uncontrolled_swap = refl

status_tells_example :
    (serve chain 4
      (to_status (λ m. m))
      (serve_all chain 4 (to_set false ∷ swap_request ∷ []) server)).0
    ≡ ok (
        answer 200 (
          status false
            (is_circuit_breaker_active server.state.risk)
            (get_total_ratio (λ m. m) server.positions)
            server.cfg.uniswap.pool_address
            server.cfg.uniswap.token0_address
            server.cfg.uniswap.token1_address
            server.cfg.uniswap.fee_tier))
status_tells_example =
    status_tells chain 4 false (swap_request ∷ []) (λ m. m) server uncontrolled_swap

-- The second tier has nothing of token 1, and is skipped.
abbrev tiers : List Tier
tiers =
    record {
      layer = "core";
      amount0 = pos 60;
      amount1 = pos 60;
      tick_lower = negsuc 9;
      tick_upper = pos 10;
    }
    ∷ record {
      layer = "mid";
      amount0 = pos 30;
      amount1 = pos 0;
      tick_lower = negsuc 49;
      tick_upper = pos 50;
    }
    ∷ []

add_tiers_lem_example :
    add_tiers chain executor 4 7 8 500 tiers [] server
    ≡ and_then
        (add_all chain executor 4 7 8 500 (positive_tiers tiers) server)
        (λ a. pure (answer_of [] a))
add_tiers_lem_example = add_tiers_lem chain executor 4 7 8 500 tiers [] server
