-- ===== src/Uniswap.antt =====
-- pkg/uniswap/client.go and pkg/oracle/service.go: reading the pool, and the prices made of it.
use stablecoin_mmm.Base.{ℕ, String, ◌^◌}
use stablecoin_mmm.Base.Int.{ℤ}
use stablecoin_mmm.Base.Word.{wrap32, wrap64}
use stablecoin_mmm.Base.Float.{Float, BigFloat}
use stablecoin_mmm.Base.Act.{Act, ◌>>=◌, ◌>>◌, pure, or_wrap}
use stablecoin_mmm.Config.{Config}
use stablecoin_mmm.Chain.{
  Address, Chain, factory_binding, position_manager_binding, swap_router_binding, pool_binding,
}

pub record Token : Type 0 where
  pub address : Address
  pub decimals : ℕ
  pub symbol : String
  pub name : String

pub record Slot0 : Type 0 where
  pub price : ℤ
  pub tick : ℤ
  pub observation_index : ℕ

pub record Pool : Type 0 where
  pub address : Address
  pub token0 : Token
  pub token1 : Token
  pub fee : ℕ
  pub liquidity : ℤ
  pub slot0 : Slot0

pub record Client (F : Type 0) : Type 0 where
  pub cfg : Config F
  pub pool_addr : Address
  pub fee_tier : ℕ
  pub chain_id : ℤ
  pub token0_addr : Address
  pub token1_addr : Address

module _ {W F : Type 0} (ch : Chain W) where
  unfoldable pub new_client : Config F → Act W (Client F)
  new_client cfg = do
    or_wrap "failed to connect to ethclient" (ch.dial cfg.uniswap.rpc_url)
    or_wrap "failed to create factory"
        (ch.new_binding factory_binding (ch.hex_to_address cfg.uniswap.factory_address))
    or_wrap "failed to create position manager"
        (ch.new_binding position_manager_binding (ch.hex_to_address cfg.uniswap.position_manager))
    or_wrap "failed to create swap router"
        (ch.new_binding swap_router_binding (ch.hex_to_address cfg.uniswap.swap_router))
    or_wrap "failed to create pool contract"
        (ch.new_binding pool_binding (ch.hex_to_address cfg.uniswap.pool_address))
    pure (record {
      cfg = cfg;
      pool_addr = ch.hex_to_address cfg.uniswap.pool_address;
      fee_tier = cfg.uniswap.fee_tier;
      chain_id = cfg.uniswap.chain_id;
      token0_addr = ch.hex_to_address cfg.uniswap.token0_address;
      token1_addr = ch.hex_to_address cfg.uniswap.token1_address;
    })

  unfoldable pub get_pool : Client F → Act W Pool
  get_pool c = do
    liquidity ← or_wrap "failed to get liquidity" ch.pool_liquidity
    slot0 ← or_wrap "failed to get slot0" ch.pool_slot0
    pure (record {
      address = c.pool_addr;
      token0 = record { address = c.token0_addr; decimals = 18; symbol = "GLUSD"; name = "GLUSD" };
      token1 = record { address = c.token1_addr; decimals = 18; symbol = "USDT"; name = "USDT" };
      fee = c.fee_tier;
      liquidity = liquidity;
      slot0 = record {
        price = slot0.sqrt_price;
        tick = wrap32 (wrap64 slot0.tick);
        observation_index = slot0.observation_index;
      };
    })

module _ {W F B : Type 0} ⦃f : Float F⦄ ⦃b : BigFloat F B⦄ (ch : Chain W) where
  -- The square of the pool's square-root price over 2^96.
  unfoldable pub get_current_price : Client F → Act W B
  get_current_price c = do
    pool ← get_pool ch c
    let ratio = b.quo (b.set_int pool.slot0.price) (b.new_float (f.dec (2 ^ 96) 0))
    pure (b.mul ratio ratio)

  -- A constant: neither the client nor the interval is read.
  unfoldable pub get_twap_price : Client F → ℤ → Act W B
  get_twap_price c interval_seconds = pure (b.new_float (f.dec 1 0))

pub record PriceOracle (F : Type 0) : Type 0 where
  pub cfg : Config F
  pub client : Client F
  pub ref_price : F

pub record PriceInfo (B : Type 0) : Type 0 where
  pub current_price : B
  pub twap_price : B
  pub ref_price : B

unfoldable pub new_price_oracle : {F : Type 0} → Config F → Client F → PriceOracle F
new_price_oracle cfg client = record {
  cfg = cfg;
  client = client;
  ref_price = cfg.oracle.ref_price;
}

module _ {W F B : Type 0} ⦃f : Float F⦄ ⦃b : BigFloat F B⦄ (ch : Chain W) where
  unfoldable pub get_price_info : PriceOracle F → Act W (PriceInfo B)
  get_price_info o = do
    current_price ← or_wrap "failed to get current price" (get_current_price ch o.client)
    twap_price ←
        or_wrap "failed to get TWAP price"
          (get_twap_price ch o.client o.cfg.oracle.twap_interval_sec)
    pure (record {
      current_price = current_price;
      twap_price = twap_price;
      ref_price = b.new_float o.ref_price;
    })
