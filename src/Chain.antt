-- ===== src/Chain.antt =====
-- What the program asks of go-ethereum, of its generated contract bindings (pkg/contracts), of the
-- clock and of the network. All of it stands outside the code that is modelled: a value of `Chain`
-- is a parameter, over any type W of worlds. A call may change the world.
pub mod Carried
pub mod Watched
use stablecoin_mmm.Base.{ℕ, String, List, Option}
use stablecoin_mmm.Base.Int.{ℤ}
use stablecoin_mmm.Base.Act.{Act, ok}

-- `common.Address`: the number of its 20 bytes.
abbrev pub Address : Type 0
Address = ℕ

abbrev pub Bytes : Type 0
Bytes = List ℕ

-- A signed `*types.Transaction`, by its hash.
pub record Tx : Type 0 where
  pub hash : ℕ

-- `types.NewTransaction(nonce, to, value, gasLimit, gasPrice, data)`
pub record RawTx : Type 0 where
  pub nonce : ℕ
  pub to : Address
  pub amount : ℤ
  pub gas_limit : ℕ
  pub gas_price : ℤ
  pub payload : Bytes

-- `*types.Receipt`, with the `Data` of its logs.
pub record Receipt : Type 0 where
  pub status : ℕ
  pub gas_used : ℕ
  pub logs : List Bytes

-- `INonfungiblePositionManagerMintParams`
pub record MintParams : Type 0 where
  pub token0 : Address
  pub token1 : Address
  pub fee : ℤ
  pub tick_lower : ℤ
  pub tick_upper : ℤ
  pub amount0_desired : ℤ
  pub amount1_desired : ℤ
  pub amount0_min : ℤ
  pub amount1_min : ℤ
  pub recipient : Address
  pub deadline : ℤ

-- `IV3SwapRouterExactInputSingleParams`
pub record SwapParams : Type 0 where
  pub token_in : Address
  pub token_out : Address
  pub fee : ℤ
  pub recipient : Address
  pub amount_in : ℤ
  pub amount_out_minimum : ℤ
  pub sqrt_price_limit : ℤ

-- `Slot0` of the pool binding; the tick is nil where the call failed.
pub record PoolSlot0 : Type 0 where
  pub sqrt_price : ℤ
  pub tick : ℤ
  pub observation_index : ℕ

-- The calls that the ABI packs.
pub data Method : Type 0 where
  balance_of : Address → Method
  allowance : Address → Address → Method
  approve : Address → ℤ → Method
  mint : MintParams → Method

-- The contracts to which `abigen`'s constructors bind an address.
pub data Binding : Type 0 where
  factory_binding position_manager_binding swap_router_binding quoter_binding pool_binding : Binding

-- `*bind.TransactOpts`, with the fields that the code reads; a nonce that nothing has set is nil.
pub record Transactor : Type 0 where
  pub id : ℕ
  pub nonce : Option ℤ

-- A private key is a number that only these functions read. The clock and a sleep do not fail.
pub record Chain (W : Type 0) : Type 0 where
  pub hex_to_address : String → Address
  pub now : W → ℤ × W
  pub sleep : ℤ → W → W
  pub dial : String → Act W (Unit {0})
  pub hex_to_ecdsa : String → Act W ℕ
  pub pubkey_to_address : ℕ → Address
  pub new_binding : Binding → Address → Act W (Unit {0})
  pub parse_abi : Act W (Unit {0})
  pub pack : Method → Act W Bytes
  pub call_contract : Address → Bytes → Act W Bytes
  pub balance_at : Address → Act W ℤ
  pub pending_nonce_at : Address → Act W ℕ
  pub suggest_gas_price : Act W ℤ
  pub sign_tx : RawTx → ℤ → ℕ → Act W Tx
  pub send_transaction : Tx → Act W (Unit {0})
  pub transaction_receipt : Tx → Act W Receipt
  pub wait_mined : Tx → Act W Receipt
  -- `bind.NewKeyedTransactorWithChainID` on a key and a chain.
  pub new_transactor : ℕ → ℤ → Act W Transactor
  pub factory_get_pool : Address → Address → ℤ → Act W Address
  pub factory_create_pool : Transactor → Address → Address → ℤ → Act W Tx
  pub manager_mint : Transactor → MintParams → Act W Tx
  pub router_exact_input_single : Transactor → SwapParams → Act W Tx
  pub quoter_quote : Address → Address → ℤ → ℤ → ℤ → Act W Tx
  pub pool_liquidity : Act W ℤ
  pub pool_slot0 : Act W PoolSlot0

abbrev pub read_clock : {W : Type 0} → Chain W → Act W ℤ
read_clock ch w = let (t, w') = ch.now w in (ok t, w')
