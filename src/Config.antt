-- ===== src/Config.antt =====
-- config/config.go: the configuration that every component holds. Go's `int` and `int64` are
-- integers, `uint32` and `uint64` naturals; `float64` is the parameter F.
use stablecoin_mmm.Base.{ℕ, String, Bool}
use stablecoin_mmm.Base.Int.{ℤ}
use stablecoin_mmm.Base.Act.{Act, ◌>>=◌}

pub record StabilizationConfig (F : Type 0) : Type 0 where
  pub enabled : Bool
  pub deviation_bps : ℤ
  pub swap_amount_bps : ℤ
  pub max_swap_amount : F
  pub min_swap_amount : F
  pub cooldown_seconds : ℤ

pub record ServerConfig : Type 0 where
  pub host : String
  pub port : ℤ
  pub mode : String

pub record UniswapConfig : Type 0 where
  pub rpc_url : String
  pub chain_id : ℤ
  pub pool_address : String
  pub factory_address : String
  pub position_manager : String
  pub swap_router : String
  pub stabilization_vault_address : String
  pub quoter : String
  pub fee_tier : ℕ
  pub token0_address : String
  pub token1_address : String

pub record BotConfig (F : Type 0) : Type 0 where
  pub private_key : String
  pub core_ratio : F
  pub mid_ratio : F
  pub tail_ratio : F
  pub core_range_bps : ℤ
  pub mid_range_bps : ℤ
  pub tail_range_bps : ℤ
  pub rebalance_threshold : F
  pub rebalance_interval_sec : ℤ
  pub stabilization_enabled : Bool
  pub stabilization_bps : ℤ
  pub stabilization_cap : F

pub record RiskConfig : Type 0 where
  pub max_daily_loss_bps : ℤ
  pub max_single_trade_bps : ℤ
  pub circuit_breaker_deviation_bps : ℤ
  pub circuit_breaker_duration_min : ℤ
  pub max_leverage : ℤ

pub record OracleConfig (F : Type 0) : Type 0 where
  pub twap_interval_sec : ℤ
  pub ref_price : F

pub record ExecutionConfig (F : Type 0) : Type 0 where
  pub gas_limit : ℕ
  pub gas_price_multiplier : F
  pub max_slippage_bps : ℤ
  pub deadline_seconds : ℤ
  pub retry_times : ℤ

pub record Config (F : Type 0) : Type 0 where
  pub server : ServerConfig
  pub uniswap : UniswapConfig
  pub bot : BotConfig F
  pub risk : RiskConfig
  pub oracle : OracleConfig F
  pub execution : ExecutionConfig F
  pub stabilization : StabilizationConfig F

-- `Load`, over the file system's read and the yaml package's decoder.
unfoldable pub load :
    {S F Bytes : Type 0}
    → (String → Act S Bytes)
    → (Bytes → Act S (Config F))
    → String
    → Act S (Config F)
load read_file unmarshal path = do bytes ← read_file path; unmarshal bytes
