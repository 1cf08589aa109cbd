-- ===== src/Executor/Core.antt =====
-- pkg/executor/service.go: the executor, its results, the poll for a receipt and the approval of a
-- token. A call takes the fuel of the poll, which the source repeats without a bound.
use stablecoin_mmm.Base.{
  ℕ, zero, suc, Bool, false, String, List, [], ◌∷◌, Option, none, some, ◌==◌, leb, take, length,
  if◌then◌else◌,
}
use stablecoin_mmm.Base.Int.{ℤ, pos, ◌*ℤ◌, leb_ℤ}
use stablecoin_mmm.Base.Word.{wrap64}
use stablecoin_mmm.Base.Time.{second, times}
use stablecoin_mmm.Base.Act.{
  Act, Outcome, ok, err, panicked, waiting, GoError, not_found, wrap, Result, value, error, ◌>>=◌,
  ◌>>◌, pure, or_wrap,
}
use stablecoin_mmm.Config.{Config}
use stablecoin_mmm.Chain.{
  Address, Bytes, Tx, Receipt, factory_binding, position_manager_binding, swap_router_binding,
  quoter_binding, pool_binding, Chain, read_clock,
}
use stablecoin_mmm.Erc20.{set_bytes, new_erc20, erc20_allowance, erc20_approve}

-- A hash, an address or a number that the source leaves empty or nil is `none`.
pub record ExecutionResult : Type 0 where
  pub success : Bool
  pub tx_hash : Option ℕ
  pub error : Option GoError
  pub error_code : String
  pub gas_used : ℕ
  pub timestamp : ℤ
  pub token_id : Option ℤ
  pub amount0 : Option ℤ
  pub amount1 : Option ℤ
  pub pool_address : Option Address
  pub balance_change0 : Option ℤ
  pub balance_change1 : Option ℤ

-- `(*ExecutionResult, error)`: on a failure the source returns both.
abbrev pub Returned : Type 0
Returned = ExecutionResult × Option GoError

-- The zero value of the fields that a literal leaves out.
abbrev pub blank : Bool → ℤ → ExecutionResult
blank success timestamp = record {
  success = success;
  tx_hash = none;
  error = none;
  error_code = "";
  gas_used = 0;
  timestamp = timestamp;
  token_id = none;
  amount0 = none;
  amount1 = none;
  pool_address = none;
  balance_change0 = none;
  balance_change1 = none;
}

pub record Executor (F : Type 0) : Type 0 where
  pub cfg : Config F
  pub chain_id : ℤ
  pub private_key : ℕ
  pub max_retries : ℤ
  pub wallet_address : Address

-- The loop body of `waitForReceipt`: try again after a receipt that is not found.
abbrev pub after_poll :
    {W : Type 0} → (W → Outcome Receipt × W) → Outcome Receipt × W → Outcome Receipt × W
after_poll again (ok r, w) = (ok r, w)
after_poll again (err not_found, w) = again w
after_poll again (err (GoError.external n), w) = (err (GoError.external n), w)
after_poll again (err (GoError.message s), w) = (err (GoError.message s), w)
after_poll again (err (wrap s e), w) = (err (wrap s e), w)
after_poll again (panicked, w) = (panicked, w)
after_poll again (waiting, w) = (waiting, w)

module _ {W : Type 0} (ch : Chain W) where
  unfoldable pub wait_for_receipt : ℕ → Tx → Act W Receipt
  wait_for_receipt zero tx w = (waiting, w)
  wait_for_receipt (suc fuel) tx w =
      after_poll (λ w'. wait_for_receipt fuel tx (ch.sleep (times (pos 2) second) w'))
        (ch.transaction_receipt tx w)

  -- `&ExecutionResult{Success: false, TxHash: hash, Error: reported, Timestamp: time.Now()}, err`
  unfoldable pub failed : Option ℕ → GoError → GoError → Act W Returned
  failed hash reported e = do
    now ← read_clock ch
    let r = blank false now
    pure (record r { tx_hash = hash; error = some reported }, some e)

  -- `if err != nil { return … }` around the rest of a call.
  unfoldable pub checked :
      {A : Type 0}
      → Option ℕ
      → (GoError → GoError)
      → (A → Act W Returned)
      → Result A
      → Act W Returned
  checked hash report k (value a) = k a
  checked hash report k (error e) = failed hash (report e) e

  unfoldable pub same_error : GoError → GoError
  same_error e = e

  -- The result that is built from a receipt.
  unfoldable pub reported : Tx → Receipt → Option ℤ → Option Address → Act W Returned
  reported tx receipt token_id pool_address = do
    now ← read_clock ch
    let r = blank (receipt.status == 1) now
    pure (
      record r {
        tx_hash = some tx.hash;
        gas_used = receipt.gas_used;
        token_id = token_id;
        pool_address = pool_address;
      },
      none,
    )

-- The first log with three words of data holds the token's id in its first word.
unfoldable pub token_id_of_logs : List Bytes → Option ℤ
token_id_of_logs [] = none
token_id_of_logs (entry ∷ rest) =
    if leb 96 (length entry) then some (set_bytes (take 32 entry)) else token_id_of_logs rest

-- `QuoteSwap` reads the first log of at least one word, whole.
unfoldable pub amount_out_of_logs : List Bytes → Option ℤ
amount_out_of_logs [] = none
amount_out_of_logs (entry ∷ rest) =
    if leb 32 (length entry) then some (set_bytes entry) else amount_out_of_logs rest

module _ {W F : Type 0} (ch : Chain W) where
  unfoldable pub new_executor : Config F → Act W (Executor F)
  new_executor cfg = do
    or_wrap "failed to connect to ethclient" (ch.dial cfg.uniswap.rpc_url)
    private_key ← or_wrap "invalid private key" (ch.hex_to_ecdsa cfg.bot.private_key)
    or_wrap "failed to create factory"
        (ch.new_binding factory_binding (ch.hex_to_address cfg.uniswap.factory_address))
    or_wrap "failed to create position manager"
        (ch.new_binding position_manager_binding (ch.hex_to_address cfg.uniswap.position_manager))
    or_wrap "failed to create swap router"
        (ch.new_binding swap_router_binding (ch.hex_to_address cfg.uniswap.swap_router))
    or_wrap "failed to create quoter"
        (ch.new_binding quoter_binding (ch.hex_to_address cfg.uniswap.quoter))
    or_wrap "failed to create pool"
        (ch.new_binding pool_binding (ch.hex_to_address cfg.uniswap.pool_address))
    pure (record {
      cfg = cfg;
      chain_id = cfg.uniswap.chain_id;
      private_key = private_key;
      max_retries = cfg.execution.retry_times;
      wallet_address = ch.pubkey_to_address private_key;
    })

module _ {W F : Type 0} (ch : Chain W) (e : Executor F) where
  unfoldable pub get_wallet_address : Address
  get_wallet_address = e.wallet_address

  unfoldable pub query_pool_address : Address → Address → ℕ → Act W Address
  query_pool_address token0 token1 fee = ch.factory_get_pool token0 token1 (pos fee)

  -- A receipt of a failed approval is no error here.
  unfoldable pub approve_token : ℕ → Address → Address → ℤ → Act W (Unit {0})
  approve_token fuel token_addr spender amount = do
    erc20 ← new_erc20 ch token_addr
    allowance ← erc20_allowance ch erc20 e.wallet_address spender
    if leb_ℤ amount allowance
        then pure tt
        else (erc20_approve ch erc20 e.private_key spender (amount *ℤ pos 2) (wrap64 e.chain_id)
            >>= λ tx. wait_for_receipt ch fuel tx >>= λ receipt. pure tt)
