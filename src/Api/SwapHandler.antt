-- ===== src/Api/SwapHandler.antt =====
-- `handleSwap` of pkg/api/service.go.
use text.Mathlib.Text.{◌==◌}
use stablecoin_mmm.Base.{ℕ, Bool, true, not, String, Option, none, some, if◌then◌else◌}
use stablecoin_mmm.Base.Int.{ℤ, pos, eqb_ℤ}
use stablecoin_mmm.Base.Decimal.{set_string}
use stablecoin_mmm.Base.Act.{Act, GoError, Result, value, error, ◌>>=◌, pure, or_panic}
use stablecoin_mmm.Chain.{Chain}
use stablecoin_mmm.Executor.Core.{ExecutionResult}
use stablecoin_mmm.Executor.Trades.{execute_swap}
use stablecoin_mmm.Rebalancer.Core.{min_out}
use stablecoin_mmm.Api.Server.{
  Server, SwapRequest, Response, answer, on_chain, refused, tx_failed, swapped,
}
use stablecoin_mmm.Api.Handlers.{with_executor, bound, error_text, returned_answer}

-- The balance is compared with the amount only where the result has one.
abbrev pub is_verified : Option ℤ → ℤ → Bool
is_verified none amount_in = true
is_verified (some change) amount_in = eqb_ℤ change amount_in

module _ {F B W : Type 0} (ch : Chain W) where
  unfoldable pub swap_answer : ℤ → ExecutionResult → Act (Server F B W) (Response F)
  swap_answer amount_in r =
      if not r.success
      then error_text r.error (λ e. answer 200 (tx_failed r.tx_hash r.gas_used e r.error_code))
      else pure (
          answer 200 (
            swapped r.tx_hash amount_in r.amount0 r.gas_used
              (is_verified r.balance_change0 amount_in) r.balance_change0 r.balance_change1))

  -- A given least amount out is parsed; an empty one follows from the slippage.
  unfoldable pub out_min_of : Server F B W → String → ℤ → Result (Option ℤ)
  out_min_of s text amount_in =
      if text == ""
      then value (min_out amount_in s.cfg.execution.max_slippage_bps)
      else elim (set_string text) [
        | none ↦ error (GoError.message "invalid amount_out_min")
        | some n ↦ value (some n)
      ]

  abbrev pub out_min_or_400 :
      Result (Option ℤ) → (ℤ → Act (Server F B W) (Response F)) → Act (Server F B W) (Response F)
  out_min_or_400 (error e) k = pure (answer 400 (refused "invalid amount_out_min"))
  out_min_or_400 (value m) k = or_panic m >>= k

  abbrev pub amount_or_400 :
      Option ℤ → (ℤ → Act (Server F B W) (Response F)) → Act (Server F B W) (Response F)
  amount_or_400 none k = pure (answer 400 (refused "invalid amount_in"))
  amount_or_400 (some n) k = k n

  unfoldable pub handle_swap : ℕ → Result SwapRequest → Act (Server F B W) (Response F)
  handle_swap fuel request s =
      with_executor s.executor
        (λ e. bound request λ req. amount_or_400 (set_string req.amount_in) λ amount_in.
          out_min_or_400 (out_min_of s req.amount_out_min amount_in) λ amount_out_min.
            on_chain (
              execute_swap ch e fuel (ch.hex_to_address req.token_in)
                (ch.hex_to_address req.token_out) amount_in amount_out_min (pos 0))
            >>= returned_answer (swap_answer amount_in))
        s
