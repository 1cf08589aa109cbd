-- ===== src/Executor/Mined.antt =====
-- A swap of pkg/executor/service.go that reaches the chain.
use stablecoin_mmm.Base.{ℕ, ◌<◌, ◌≡◌, ◌==◌, refl, none, some}
use stablecoin_mmm.Base.Int.{ℤ, pos, ◌*ℤ◌}
use stablecoin_mmm.Base.Act.{ok, Result, and_then, caught, try}
use stablecoin_mmm.Chain.{Address, Tx, Receipt, Transactor, Chain, SwapParams}
use stablecoin_mmm.Executor.Core.{
  Executor, ExecutionResult, blank, approve_token, wait_for_receipt, checked, reported,
}
use stablecoin_mmm.Executor.Trades.{execute_swap, send_swap}
use stablecoin_mmm.Executor.Receipts.{AnswersAfter, wait_for_receipt_iff}

module _ {W F : Type 0} (ch : Chain W) (e : Executor F) where
  abbrev swap_params : Address → Address → ℤ → ℤ → ℤ → SwapParams
  swap_params token_in token_out amount_in out_min limit = record {
    token_in = token_in;
    token_out = token_out;
    fee = pos e.cfg.uniswap.fee_tier;
    recipient = e.wallet_address;
    amount_in = amount_in;
    amount_out_minimum = out_min;
    sqrt_price_limit = limit;
  }

  -- Whether or not the approval fails, if the swap is sent and its receipt is found after n fruitless
  -- polls, any fuel above n makes the call return without an error: a result that is a success exactly
  -- on status 1, with the transaction's hash and gas.
  pub execute_swap_mined :
      (token_in token_out : Address) (amount_in out_min limit : ℤ) (fuel n : ℕ) (w w1 w2 w3 w4 : W)
      (approval : Result (Unit {0})) (auth : Transactor) (tx : Tx) (receipt : Receipt)
      → try
          (approve_token ch e fuel token_in
            (ch.hex_to_address e.cfg.uniswap.swap_router)
            (amount_in *ℤ pos 10))
          w
        ≡ (ok approval, w1)
      → ch.new_transactor e.private_key e.chain_id w1 ≡ (ok auth, w2)
      → ch.router_exact_input_single auth
          (swap_params token_in token_out amount_in out_min limit)
          w2
        ≡ (ok tx, w3)
      → AnswersAfter ch tx n w3 (ok receipt, w4)
      → n < fuel
      → (r : ExecutionResult) × (w' : W) × (execute_swap ch e fuel token_in token_out amount_in
            out_min limit w
          ≡ (ok (r, none), w'))
        × (r.success ≡ (receipt.status == 1))
        × (r.tx_hash ≡ some tx.hash)
        × (r.gas_used ≡ receipt.gas_used)
  unfolding execute_swap send_swap checked reported and_then caught
  execute_swap_mined token_in token_out amount_in out_min limit fuel n w w1 w2 w3 w4 approval auth
        tx receipt approved made sent mined enough =
      let found : wait_for_receipt ch fuel tx w3 ≡ (ok receipt, w4) =
        (wait_for_receipt_iff ch tx fuel w3 (ok receipt, w4) tt).1 (n, enough, mined) in
      let r = blank (receipt.status == 1) (ch.now w4).0 in
      (
        record r { tx_hash = some tx.hash; gas_used = receipt.gas_used },
        (ch.now w4).1,
        rw (approved, made, sent, found) refl,
        refl,
        refl,
        refl,
      )
