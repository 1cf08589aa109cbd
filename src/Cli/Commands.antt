-- ===== src/Cli/Commands.antt =====
-- main.go: `handleCreatePool` and `handleAddLiquidity`. `log.Fatalf` ends the process: it is an error
-- here. A command returns what it prints of the receipt.
use stablecoin_mmm.Base.{ℕ, ◌*◌, ◌^◌, ◌==◌, List, [], ◌∷◌, take, drop, length, leb, if◌then◌else◌}
use stablecoin_mmm.Base.Int.{ℤ, pos, ◌+ℤ◌}
use stablecoin_mmm.Base.Word.{wrap64}
use stablecoin_mmm.Base.Time.{unix}
use stablecoin_mmm.Base.Float.{Float}
use stablecoin_mmm.Base.Act.{Act, message, ◌>>=◌, ◌>>◌, pure, throw, or_wrap}
use stablecoin_mmm.Config.{Config}
use stablecoin_mmm.Chain.{Address, Bytes, Receipt, Chain, read_clock}
use stablecoin_mmm.Erc20.{set_bytes}
use stablecoin_mmm.Cli.Encode.{Codec, create_pool_input, mint_input}

-- What the second command prints of a log of three words.
pub record Minted : Type 0 where
  pub token_id : ℤ
  pub amount0 : ℤ
  pub amount1 : ℤ

-- The last twenty bytes of the first word of each log.
unfoldable pub pool_addresses_of_logs : Codec → List Bytes → List Address
pool_addresses_of_logs c [] = []
pool_addresses_of_logs c (entry ∷ rest) =
    if leb 32 (length entry)
    then c.bytes_to_address (take 20 (drop 12 entry)) ∷ pool_addresses_of_logs c rest
    else pool_addresses_of_logs c rest

unfoldable pub minted_of_logs : List Bytes → List Minted
minted_of_logs [] = []
minted_of_logs (entry ∷ rest) =
    if leb 96 (length entry)
    then record {
      token_id = set_bytes (take 32 entry);
      amount0 = set_bytes (take 32 (drop 32 entry));
      amount1 = set_bytes (take 32 (drop 64 entry));
    }
      ∷ minted_of_logs rest
    else minted_of_logs rest

module _ {F : Type 0} ⦃f : Float F⦄ (cfg : Config F) where
  -- `int32(math.Log(refPrice*(1-float64(coreBps)/10000)) / math.Log(1.0001))`
  unfoldable pub cli_tick_lower : ℤ
  cli_tick_lower = f.to_int32 (
      f.div
        (f.log (
          f.mul cfg.oracle.ref_price
            (f.sub (f.dec 1 0) (f.div (f.of_int cfg.bot.core_range_bps) (f.dec 10_000 0)))))
        (f.log (f.dec 10_001 4)))

  unfoldable pub cli_tick_upper : ℤ
  cli_tick_upper = f.to_int32 (
      f.div
        (f.log (
          f.mul cfg.oracle.ref_price
            (f.add (f.dec 1 0) (f.div (f.of_int cfg.bot.core_range_bps) (f.dec 10_000 0)))))
        (f.log (f.dec 10_001 4)))

module _ {W F : Type 0} (c : Codec) (ch : Chain W) (cfg : Config F) where
  -- From the gas price to the mined receipt, which both commands spell out.
  unfoldable pub send_and_wait : ℕ → Address → ℕ → Bytes → Act W Receipt
  send_and_wait private_key to gas_limit input = do
    gas_price ← or_wrap "Failed to suggest gas price" ch.suggest_gas_price
    nonce ← or_wrap "Failed to get nonce" (ch.pending_nonce_at (ch.pubkey_to_address private_key))
    signed ← or_wrap "Failed to sign transaction" (
        ch.sign_tx
          (record {
            nonce = nonce;
            to = to;
            amount = pos 0;
            gas_limit = gas_limit;
            gas_price = gas_price;
            payload = input;
          })
          cfg.uniswap.chain_id private_key)
    or_wrap "Failed to send transaction" (ch.send_transaction signed)
    receipt ← or_wrap "Failed to wait for receipt" (ch.wait_mined signed)
    if receipt.status == 0 then throw (message "Transaction failed!") else pure receipt

  unfoldable pub handle_create_pool : Act W (ℕ × List Address)
  handle_create_pool = do
    or_wrap "Failed to connect to RPC" (ch.dial cfg.uniswap.rpc_url)
    private_key ← or_wrap "Invalid private key" (ch.hex_to_ecdsa cfg.bot.private_key)
    receipt ← send_and_wait private_key (ch.hex_to_address cfg.uniswap.factory_address) 500_000 (
        create_pool_input c (ch.hex_to_address cfg.uniswap.token0_address)
          (ch.hex_to_address cfg.uniswap.token1_address) cfg.uniswap.fee_tier)
    pure (receipt.gas_used, pool_addresses_of_logs c receipt.logs)

  -- Both amounts are a hundred tokens of eighteen decimals.
  unfoldable pub handle_add_liquidity : ⦃f : Float F⦄ → Act W (ℕ × List Minted)
  handle_add_liquidity = do
    or_wrap "Failed to connect to RPC" (ch.dial cfg.uniswap.rpc_url)
    private_key ← or_wrap "Invalid private key" (ch.hex_to_ecdsa cfg.bot.private_key)
    now ← read_clock ch
    receipt ← send_and_wait private_key (ch.hex_to_address cfg.uniswap.position_manager) 800_000 (
        mint_input c (ch.hex_to_address cfg.uniswap.token0_address)
          (ch.hex_to_address cfg.uniswap.token1_address) cfg.uniswap.fee_tier (cli_tick_lower cfg)
          (cli_tick_upper cfg) (pos (100 * 10 ^ 18)) (pos (100 * 10 ^ 18))
          (ch.pubkey_to_address private_key) (wrap64 (unix now +ℤ pos 300)))
    pure (receipt.gas_used, minted_of_logs receipt.logs)
