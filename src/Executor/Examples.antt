-- ===== src/Executor/Examples.antt =====
-- The theorems on the executor at concrete inputs.
use stablecoin_mmm.Base.{ℕ, ◌≡◌, ◌<◌, ◌↔◌}
use stablecoin_mmm.Base.Int.{pos}
use stablecoin_mmm.Base.Act.{Outcome, ok}
use stablecoin_mmm.Chain.{Tx, Receipt}
use stablecoin_mmm.Executor.Core.{wait_for_receipt}
use stablecoin_mmm.Executor.Trades.{execute_swap}
use stablecoin_mmm.Executor.Receipts.{AnswersAfter, wait_for_receipt_iff}
use stablecoin_mmm.Base.Fixed.{fixed_float, fixed_big}
use stablecoin_mmm.Executor.Mined.{execute_swap_mined}
use stablecoin_mmm.Executor.Core.{approve_token, ExecutionResult}
use stablecoin_mmm.Base.{none, some, ◌==◌, arith, refl}
use stablecoin_mmm.Base.Int.{◌*ℤ◌}
use stablecoin_mmm.Base.Act.{Result, value, try, and_then, caught}
use stablecoin_mmm.Chain.{Transactor}
use stablecoin_mmm.Erc20.{new_erc20, erc20_allowance, set_bytes}
use stablecoin_mmm.Sample.{chain, executor, receipt}

abbrev tx : Tx
tx = record { hash = 5 }

abbrev mined : Outcome Receipt × ℕ
mined = (ok receipt, 0)

wait_for_receipt_iff_example :
    (wait_for_receipt chain 4 tx 0 ≡ mined) ↔ ((n : ℕ) × (n < 4) × AnswersAfter chain tx n 0 mined)
wait_for_receipt_iff_example = wait_for_receipt_iff chain tx 4 0 mined tt

abbrev transactor : Transactor
transactor = record { id = 1; nonce = none }

abbrev approved : Result (Unit {0})
approved = value tt

approval : try (approve_token chain executor 4 7 7 (pos 0 *ℤ pos 10)) 0 ≡ (ok approved, 0)
unfolding approve_token caught and_then ◌*ℤ◌ new_erc20 erc20_allowance set_bytes
approval = refl

-- The allowance is enough, and the swap is mined with status 0.
execute_swap_mined_example :
    (r : ExecutionResult) × (w : ℕ) × (execute_swap chain executor 4 7 8 (pos 0) (pos 99) (pos 0) 0
      ≡ (ok (r, none), w))
    × (r.success ≡ (0 == 1))
    × (r.tx_hash ≡ some 5)
    × (r.gas_used ≡ 21_000)
execute_swap_mined_example =
    execute_swap_mined chain executor 7 8 (pos 0) (pos 99) (pos 0) 4 0 0 0 0 0 0 approved transactor
      tx receipt approval refl refl (refl, tt) (omega arith)
