-- ===== src/Executor/Live.antt =====
-- A chain whose library calls come back and whose transactions are mined, and the reads and approvals
-- of pkg/executor on it.
use stablecoin_mmm.Base.{ℕ, zero, suc, ◌<◌, ◌==◌, Bool-cases, inl, inr}
use stablecoin_mmm.Base.Int.{ℤ, pos, ◌*ℤ◌, leb_ℤ}
use stablecoin_mmm.Base.Word.{wrap64}
use stablecoin_mmm.Base.Act.{Outcome}
use stablecoin_mmm.Base.Settles.{Settles, to_value, Settles-and_then}
use stablecoin_mmm.Chain.{
  Address, Bytes, Tx, RawTx, Receipt, Method, MintParams, SwapParams, Transactor, Chain,
}
use stablecoin_mmm.Erc20.{
  new_erc20, erc20_balance_of, erc20_allowance, erc20_approve, get_token_balance,
}
use stablecoin_mmm.Executor.Core.{Executor, wait_for_receipt, approve_token}
use stablecoin_mmm.Executor.Receipts.{AnswersAfter, wait_for_receipt_iff, IsAnswer}

-- A receipt, or an error other than "not found", comes after fewer fruitless polls than the fuel.
pub record IsMined {W : Type 0} (ch : Chain W) (fuel : ℕ) (tx : Tx) (w : W) : Type 0 where
  pub polls : ℕ
  pub answer : Outcome Receipt × W
  pub enough : polls < fuel
  pub after : AnswersAfter ch tx polls w answer
  pub settled : Settles answer

-- What go-ethereum documents: a call returns a value or an error. A transaction is mined in time.
pub record IsLive {W : Type 0} (ch : Chain W) (fuel : ℕ) : Type 0 where
  pub parse_abi : (w : W) → Settles (ch.parse_abi w)
  pub pack : (m : Method) (w : W) → Settles (ch.pack m w)
  pub call_contract :
      (to : Address) (payload : Bytes) (w : W) → Settles (ch.call_contract to payload w)
  pub balance_at : (a : Address) (w : W) → Settles (ch.balance_at a w)
  pub pending_nonce_at : (a : Address) (w : W) → Settles (ch.pending_nonce_at a w)
  pub suggest_gas_price : (w : W) → Settles (ch.suggest_gas_price w)
  pub sign_tx : (tx : RawTx) (id : ℤ) (key : ℕ) (w : W) → Settles (ch.sign_tx tx id key w)
  pub send_transaction : (tx : Tx) (w : W) → Settles (ch.send_transaction tx w)
  pub new_transactor : (key : ℕ) (id : ℤ) (w : W) → Settles (ch.new_transactor key id w)
  pub get_pool : (a b : Address) (fee : ℤ) (w : W) → Settles (ch.factory_get_pool a b fee w)
  pub make_pool :
      (auth : Transactor) (a b : Address) (fee : ℤ) (w : W)
      → Settles (ch.factory_create_pool auth a b fee w)
  pub mint : (auth : Transactor) (p : MintParams) (w : W) → Settles (ch.manager_mint auth p w)
  pub swap :
      (auth : Transactor) (p : SwapParams) (w : W) → Settles (ch.router_exact_input_single auth p w)
  pub mined : (tx : Tx) (w : W) → IsMined ch fuel tx w

module _ {W : Type 0} (ch : Chain W) (fuel : ℕ) (live : IsLive ch fuel) where
  IsAnswer-of_AnswersAfter :
      (tx : Tx) (n : ℕ) (w : W) (o : Outcome Receipt × W) → AnswersAfter ch tx n w o → IsAnswer o
  IsAnswer-of_AnswersAfter tx zero w o a = a.1
  IsAnswer-of_AnswersAfter tx (suc n) w o (w', e, a) = IsAnswer-of_AnswersAfter tx n _ o a

  pub wait_for_receipt-Settles : (tx : Tx) (w : W) → Settles (wait_for_receipt ch fuel tx w)
  wait_for_receipt-Settles tx w =
      let m = live.mined tx w in
      let answers = IsAnswer-of_AnswersAfter tx m.polls w m.answer m.after in
      rw ((wait_for_receipt_iff ch tx fuel w m.answer answers).1 (m.polls, m.enough, m.after))
        m.settled

  pub get_token_balance-Settles :
      (token owner : Address) (w : W) → Settles (get_token_balance ch token owner w)
  unfolding get_token_balance new_erc20 erc20_balance_of
  get_token_balance-Settles token owner w = elim (Bool-cases (token == 0)) [
    | inl coin ↦ rw coin (live.balance_at owner w)
    | inr erc20 ↦ rw erc20 (
        Settles-and_then (Settles-and_then (live.parse_abi w) λ _ _. to_value) λ a w1.
          Settles-and_then (live.pack _ w1)
            λ input w2. Settles-and_then (live.call_contract a input w2) λ _ _. to_value)
  ]

module _ {W F : Type 0} (ch : Chain W) (fuel : ℕ) (live : IsLive ch fuel) (e : Executor F) where
  approve-Settles :
      (erc20 spender : Address) (amount : ℤ) (w : W)
      → Settles (erc20_approve ch erc20 e.private_key spender amount (wrap64 e.chain_id) w)
  unfolding erc20_approve
  approve-Settles erc20 spender amount w = Settles-and_then (live.pack _ w) λ input w1.
      Settles-and_then (live.pending_nonce_at _ w1) λ n w2.
        Settles-and_then (live.suggest_gas_price w2) λ price w3.
          Settles-and_then (live.sign_tx _ _ _ w3)
            λ tx w4. Settles-and_then (live.send_transaction tx w4) λ _ _. to_value

  pub approve_token-Settles :
      (token spender : Address) (amount : ℤ) (w : W)
      → Settles (approve_token ch e fuel token spender amount w)
  unfolding approve_token new_erc20 erc20_allowance
  approve_token-Settles token spender amount w =
      Settles-and_then (Settles-and_then (live.parse_abi w) λ _ _. to_value) λ erc20 w1.
        Settles-and_then
          (Settles-and_then (live.pack _ w1)
            λ input w2. Settles-and_then (live.call_contract erc20 input w2) λ _ _. to_value)
          λ allowance w2. elim (Bool-cases (leb_ℤ amount allowance)) [
            | inl enough ↦ rw enough to_value
            | inr low ↦ rw low (
                Settles-and_then (approve-Settles erc20 spender (amount *ℤ pos 2) w2) λ tx w3.
                  Settles-and_then (wait_for_receipt-Settles ch fuel live tx w3) λ _ _. to_value)
          ]
