-- ===== src/Sample.antt =====
-- A configuration, a chain on a clock and an executor, on which the examples run.
use stablecoin_mmm.Base.{ℕ, refl, arith, suc, ◌+◌, ◌*◌, ◌^◌, true, false, [], ◌∷◌, none, some}
use stablecoin_mmm.Base.Int.{pos, pos_part}
use stablecoin_mmm.Base.Fixed.{Fixed, fixed, fixed_float, fixed_big}
use stablecoin_mmm.Base.Act.{pure, ok}
use stablecoin_mmm.Base.Settles.{to_value}
use stablecoin_mmm.Executor.Live.{IsLive}
use stablecoin_mmm.Config.{Config}
use stablecoin_mmm.Chain.{Chain, Receipt}
use stablecoin_mmm.Base.Time.{zero_time}
use stablecoin_mmm.Risk.{RiskEngine}
use stablecoin_mmm.Monitor.{new_metrics}
use stablecoin_mmm.Executor.Core.{Executor}
use stablecoin_mmm.Rebalancer.Core.{State}
use stablecoin_mmm.Api.Server.{Server}

-- Whole units, and hundredths of one.
abbrev pub units : ℕ → Fixed
units n = fixed (pos (n * 10 ^ 8))

abbrev pub cents : ℕ → Fixed
cents n = fixed (pos (n * 10 ^ 6))

abbrev pub config : Config Fixed
config = record {
  server = record { host = "0.0.0.0"; port = pos 8080; mode = "debug" };
  uniswap = record {
    rpc_url = "http://localhost:8545";
    chain_id = pos 1;
    pool_address = "pool";
    factory_address = "factory";
    position_manager = "manager";
    swap_router = "router";
    stabilization_vault_address = "vault";
    quoter = "quoter";
    fee_tier = 500;
    token0_address = "token0";
    token1_address = "token1";
  };
  bot = record {
    private_key = "key";
    core_ratio = cents 60;
    mid_ratio = cents 30;
    tail_ratio = cents 10;
    core_range_bps = pos 10;
    mid_range_bps = pos 50;
    tail_range_bps = pos 200;
    rebalance_threshold = cents 2;
    rebalance_interval_sec = pos 1;
    stabilization_enabled = true;
    stabilization_bps = pos 20;
    stabilization_cap = units 1000;
  };
  risk = record {
    max_daily_loss_bps = pos 100;
    max_single_trade_bps = pos 500;
    circuit_breaker_deviation_bps = pos 30;
    circuit_breaker_duration_min = pos 1;
    max_leverage = pos 1;
  };
  oracle = record { twap_interval_sec = pos 60; ref_price = units 1 };
  execution = record {
    gas_limit = 500_000;
    gas_price_multiplier = units 1;
    max_slippage_bps = pos 50;
    deadline_seconds = pos 300;
    retry_times = pos 3;
  };
  stabilization = record {
    enabled = true;
    deviation_bps = pos 20;
    swap_amount_bps = pos 1000;
    max_swap_amount = units 100;
    min_swap_amount = units 1;
    cooldown_seconds = pos 60;
  };
}

abbrev pub receipt : Receipt
receipt = record { status = 0; gas_used = 21_000; logs = [] }

-- The world is the time in nanoseconds. Every transaction is mined at once, and fails.
abbrev pub chain : Chain ℕ
chain = record {
  hex_to_address = λ text. 7;
  now = λ w. (pos w, suc w);
  sleep = λ d w. w + pos_part d;
  dial = λ url. pure tt;
  hex_to_ecdsa = λ text. pure 1;
  pubkey_to_address = λ key. 9;
  new_binding = λ binding a. pure tt;
  parse_abi = pure tt;
  pack = λ method. pure [];
  call_contract = λ to payload. pure (1 ∷ []);
  balance_at = λ a. pure (pos 0);
  pending_nonce_at = λ a. pure 0;
  suggest_gas_price = pure (pos 1);
  sign_tx = λ tx chain_id key. pure (record { hash = 5 });
  send_transaction = λ tx. pure tt;
  transaction_receipt = λ tx. pure receipt;
  wait_mined = λ tx. pure receipt;
  new_transactor = λ key chain_id. pure (record { id = key; nonce = none });
  factory_get_pool = λ token0 token1 fee. pure 0;
  factory_create_pool = λ auth token0 token1 fee. pure (record { hash = 5 });
  manager_mint = λ auth params. pure (record { hash = 5 });
  router_exact_input_single = λ auth params. pure (record { hash = 5 });
  quoter_quote = λ token_in token_out fee amount limit. pure (record { hash = 5 });
  pool_liquidity = pure (pos 1);
  pool_slot0 = pure (record { sqrt_price = pos (2 ^ 96); tick = pos 0; observation_index = 0 });
}

-- The same, but every transaction succeeds.
abbrev pub good_chain : Chain ℕ
good_chain = record chain { transaction_receipt = λ tx. pure (record receipt { status = 1 }) }

abbrev pub executor : Executor Fixed
executor = record {
  cfg = config;
  chain_id = pos 1;
  private_key = 1;
  max_retries = pos 3;
  wallet_address = 9;
}

-- The engine with its breaker tripped at instant 1000, in nanoseconds.
abbrev pub engine : RiskEngine Fixed
engine = record {
  cfg = config;
  daily_loss = units 0;
  total_volume = units 0;
  failed_trades = pos 0;
  total_trades = pos 0;
  is_circuit_breaker = true;
  circuit_breaker_start = pos 1000;
}

-- A running rebalancer with a price and an average of one, and a breaker that is closed.
abbrev pub state : State Fixed Fixed ℕ
state = record {
  rebalancer = record {
    cfg = config;
    executor = some executor;
    current_price = units 1;
    twap_price = units 1;
    ref_price = units 1;
    last_rebalance = pos 0;
    last_stabilize = pos 0;
    is_running = true;
  };
  risk = record engine { is_circuit_breaker = false; circuit_breaker_start = zero_time };
  world = 5_000_000_000;
}

abbrev pub stopped_state : State Fixed Fixed ℕ
stopped_state =
    let r = state.rebalancer in record state { rebalancer = record r { is_running = false } }

-- The price is at two.
abbrev pub high_state : State Fixed Fixed ℕ
high_state =
    let r = state.rebalancer in record state { rebalancer = record r { current_price = units 2 } }

abbrev pub server : Server Fixed Fixed ℕ
server = record {
  cfg = config;
  positions = [];
  metrics = new_metrics;
  executor = some executor;
  state = state;
  pending = 0;
}

-- Every call of the sample chain comes back, and every transaction is mined at once.
pub chain-IsLive : IsLive chain 4
chain-IsLive = record {
  parse_abi = λ w. to_value;
  pack = λ m w. to_value;
  call_contract = λ to payload w. to_value;
  balance_at = λ a w. to_value;
  pending_nonce_at = λ a w. to_value;
  suggest_gas_price = λ w. to_value;
  sign_tx = λ tx id key w. to_value;
  send_transaction = λ tx w. to_value;
  new_transactor = λ key id w. to_value;
  get_pool = λ a b fee w. to_value;
  make_pool = λ auth a b fee w. to_value;
  mint = λ auth p w. to_value;
  swap = λ auth p w. to_value;
  mined = λ tx w. record {
    polls = 0;
    answer = (ok receipt, w);
    enough = omega arith;
    after = (refl, tt);
    settled = to_value;
  };
}
