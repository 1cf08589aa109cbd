-- ===== src/Api/Server.antt =====
-- pkg/api/service.go: the server's state, its requests and its answers. Routing and JSON are gin's: a
-- request that is to be bound comes as the result of that binding.
use stablecoin_mmm.Base.{ℕ, Bool, String, List, Option}
use stablecoin_mmm.Base.Int.{ℤ}
use stablecoin_mmm.Base.Act.{GoError, Outcome}
use stablecoin_mmm.Config.{Config}
use stablecoin_mmm.Chain.{Address}
use stablecoin_mmm.Executor.Core.{Executor}
use stablecoin_mmm.Executor.Tiers.{TierPosition}
use stablecoin_mmm.Position.{Positions}
use stablecoin_mmm.Monitor.{Metrics, Alert}
use stablecoin_mmm.Rebalancer.Core.{State}

-- `pending` counts the rebalances that a handler has started in the background.
pub record Server (F B W : Type 0) : Type 0 where
  pub cfg : Config F
  pub positions : Positions F
  pub metrics : Metrics F
  pub executor : Option (Executor F)
  pub state : State F B W
  pub pending : ℕ

pub record CreatePoolRequest : Type 0 where
  pub token0 : String
  pub token1 : String
  pub fee : ℕ

pub record AddLiquidityRequest : Type 0 where
  pub token0 : String
  pub token1 : String
  pub fee : ℕ
  pub amount0 : String
  pub amount1 : String
  pub tick_lower : ℤ
  pub tick_upper : ℤ
  pub range_bps : ℤ

pub record SwapRequest : Type 0 where
  pub token_in : String
  pub token_out : String
  pub amount_in : String
  pub amount_out_min : String
  pub fee : ℕ

pub record LayerResult : Type 0 where
  pub layer : String
  pub tx_hash : Option ℕ
  pub token_id : Option ℤ
  pub success : Bool
  pub tick_lower : ℤ
  pub tick_upper : ℤ

-- What an answer says; a number that is nil prints as such.
pub data Body (F : Type 0) : Type 0 where
  health : ℤ → Body F
  status : Bool → Bool → F → String → String → String → ℕ → Body F
  metrics : Metrics F → Body F
  positions : List TierPosition → ℕ → Body F
  risk : Bool → F → F → Body F
  info : String → Body F
  alerts : List (Alert F) → ℕ → Body F
  failure : GoError → Body F
  refused : String → Body F
  pool_exists : Option ℕ → ℕ → Body F
  tx_failed : Option ℕ → ℕ → GoError → String → Body F
  pool_created : Option ℕ → Option Address → ℕ → Body F
  liquidity_added : List LayerResult → Body F
  layer_failed : String → GoError → Body F
  swapped : Option ℕ → ℤ → Option ℤ → ℕ → Bool → Option ℤ → Option ℤ → Body F
  balances : ℤ → ℤ → Address → Address → Address → Body F

pub record Response (F : Type 0) : Type 0 where
  pub code : ℕ
  pub body : Body F

abbrev pub answer : {F : Type 0} → ℕ → Body F → Response F
answer code body = record { code = code; body = body }

-- A call of the outside from the server.
abbrev pub with_chain : {F B W A : Type 0} → Server F B W → Outcome A × W → Outcome A × Server F B W
with_chain s (o, w) = let st = s.state in (o, record s { state = record st { world = w } })

unfoldable pub on_chain :
    {F B W A : Type 0} → (W → Outcome A × W) → Server F B W → Outcome A × Server F B W
on_chain m s = with_chain s (m s.state.world)
