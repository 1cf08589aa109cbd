-- ===== src/Bot/Sample.antt =====
-- A bot that is built on the sample chain, for the examples.
use stablecoin_mmm.Base.{ℕ, ◌≡◌, refl, false}
use stablecoin_mmm.Base.Int.{pos}
use stablecoin_mmm.Base.Fixed.{Fixed, fixed_float, fixed_big}
use stablecoin_mmm.Uniswap.{PriceOracle}
use stablecoin_mmm.Base.{some}
use stablecoin_mmm.Base.Act.{and_then, caught, wrapped}
use stablecoin_mmm.Risk.{new_risk_engine}
use stablecoin_mmm.Position.{new_position_service}
use stablecoin_mmm.Monitor.{new_metrics}
use stablecoin_mmm.Executor.Core.{new_executor}
use stablecoin_mmm.Rebalancer.Core.{new_rebalancer}
use stablecoin_mmm.Uniswap.{new_client, new_price_oracle}
use stablecoin_mmm.Bot.Core.{Bot, new_bot, assemble}
use stablecoin_mmm.Sample.{executor, config, chain, units}

abbrev pub oracle : PriceOracle Fixed
oracle = record {
  cfg = config;
  client = record {
    cfg = config;
    pool_addr = 7;
    fee_tier = 500;
    chain_id = pos 1;
    token0_addr = 7;
    token1_addr = 7;
  };
  ref_price = units 1;
}

-- What is built, on the world behind two readings of the clock.
abbrev pub bot_on : {W : Type 0} → W → Bot Fixed Fixed W
bot_on w = record {
  server = record {
    cfg = config;
    positions = new_position_service;
    metrics = new_metrics;
    executor = some executor;
    state = record {
      rebalancer = record {
        cfg = config;
        executor = some executor;
        current_price = units 1;
        twap_price = units 1;
        ref_price = units 1;
        last_rebalance = pos 0;
        last_stabilize = pos 1;
        is_running = false;
      };
      risk = new_risk_engine config;
      world = w;
    };
    pending = 0;
  };
  oracle = oracle;
  cancelled = false;
}

abbrev pub built_bot : Bot Fixed Fixed ℕ
built_bot = bot_on 2

pub builds : new_bot chain config 0 ≡ some built_bot
unfolding new_bot assemble new_client new_executor new_rebalancer new_price_oracle and_then caught
    wrapped
builds = refl
