-- ===== src/Executor/Sells.antt =====
-- The swaps that pkg/executor/service.go sends.
use stablecoin_mmm.Base.{
  ℕ, zero, suc, ◌≤◌, arith, ◌==◌, List, [], ◌∷◌, inl, inr, Option, none, some, Bool-cases,
}
use stablecoin_mmm.Base.Int.{ℤ, pos, ◌*ℤ◌, leb_ℤ}
use stablecoin_mmm.Base.Time.{second, times}
use stablecoin_mmm.Base.Act.{
  Act, Outcome, ok, err, panicked, waiting, GoError, not_found, wrap, and_then, caught,
}
use stablecoin_mmm.Base.Settles.{ends_and_then, ends_caught_through}
use stablecoin_mmm.Chain.{Address, Tx, Receipt, Chain, SwapParams}
use stablecoin_mmm.Chain.Carried.{kept, carrying}
use stablecoin_mmm.Erc20.{
  new_erc20, erc20_balance_of, erc20_allowance, erc20_approve, get_token_balance,
}
use stablecoin_mmm.Executor.Core.{
  Executor, Returned, after_poll, wait_for_receipt, failed, checked, reported, same_error,
  approve_token,
}
use stablecoin_mmm.Executor.Trades.{send_swap, execute_swap}

-- The world, and the swaps that were sent, the latest first.
abbrev pub Selling : Type 0 → Type 0
Selling W = W × List SwapParams

abbrev pub selling : {W : Type 0} → Chain W → Chain (Selling W)
selling {W} ch =
    let carried : Chain (Selling W) = carrying ch in
    record carried {
      router_exact_input_single =
          λ auth p s. kept (p ∷ s.1) (ch.router_exact_input_single auth p s.0);
    }

-- At most n swaps, whose amount in and least amount out satisfy R.
pub data Sent (R : ℤ → ℤ → Type 0) : ℕ → List SwapParams → Type 0 where
  none_sent : {n : ℕ} → Sent R n []
  one_sent :
      {n : ℕ} {p : SwapParams} {ps : List SwapParams}
      → R p.amount_in p.amount_out_minimum
      → Sent R n ps
      → Sent R (suc n) (p ∷ ps)

pub Sent-suc : {R : ℤ → ℤ → Type 0} {n : ℕ} {ps : List SwapParams} → Sent R n ps → Sent R (suc n) ps
Sent-suc none_sent = none_sent
Sent-suc (one_sent r s) = one_sent r (Sent-suc s)

pub Sent-le :
    {R : ℤ → ℤ → Type 0} (n m : ℕ) {ps : List SwapParams} → n ≤ m → Sent R n ps → Sent R m ps
Sent-le n m h none_sent = none_sent
Sent-le (suc n) zero h (one_sent r s) = absurd (omega (arith, h))
Sent-le (suc n) (suc m) h (one_sent r s) = one_sent r (Sent-le n m (omega (arith, h)) s)

abbrev pub SentBy : {W : Type 0} → (ℤ → ℤ → Type 0) → ℕ → Selling W → Type 0
SentBy R n s = Sent R n s.1

module _ {W : Type 0} (ch : Chain W) (R : ℤ → ℤ → Type 0) (n : ℕ) where
  after_poll-Sent :
      (again : Selling W → Outcome Receipt × Selling W) (o : Outcome Receipt × Selling W)
      → SentBy R n o.1
      → ((s : Selling W) → SentBy R n s → SentBy R n (again s).1)
      → SentBy R n (after_poll again o).1
  after_poll-Sent again (ok r, s) h go = h
  after_poll-Sent again (err not_found, s) h go = go s h
  after_poll-Sent again (err (GoError.external k), s) h go = h
  after_poll-Sent again (err (GoError.message t), s) h go = h
  after_poll-Sent again (err (wrap t e), s) h go = h
  after_poll-Sent again (panicked, s) h go = h
  after_poll-Sent again (waiting, s) h go = h

  wait_for_receipt-Sent :
      (fuel : ℕ) (tx : Tx) (s : Selling W)
      → SentBy R n s
      → SentBy R n (wait_for_receipt (selling ch) fuel tx s).1
  unfolding wait_for_receipt
  wait_for_receipt-Sent zero tx s h = h
  wait_for_receipt-Sent (suc fuel) tx s h =
      after_poll-Sent _ ((selling ch).transaction_receipt tx s) h
        λ t p. wait_for_receipt-Sent fuel tx ((selling ch).sleep (times (pos 2) second) t) p

  pub get_token_balance-Sent :
      (token owner : Address) (s : Selling W)
      → SentBy R n s
      → SentBy R n (get_token_balance (selling ch) token owner s).1
  unfolding get_token_balance new_erc20 erc20_balance_of
  get_token_balance-Sent token owner s h = elim (Bool-cases (token == 0)) [
    | inl coin ↦ rw coin h
    | inr erc20 ↦ rw erc20 (
        ends_and_then (SentBy R n) _ _ (ends_and_then (SentBy R n) _ _ h λ _ t p. p) λ a s1 h1.
          ends_and_then (SentBy R n) _ _ h1
            λ input s2 h2. ends_and_then (SentBy R n) _ _ h2 λ _ t p. p)
  ]

module _ {W F : Type 0} (ch : Chain W) (e : Executor F) (R : ℤ → ℤ → Type 0) (n : ℕ) where
  approve-Sent :
      (erc20 spender : Address) (amount id : ℤ) (s : Selling W)
      → SentBy R n s
      → SentBy R n (erc20_approve (selling ch) erc20 e.private_key spender amount id s).1
  unfolding erc20_approve
  approve-Sent erc20 spender amount id s h = ends_and_then (SentBy R n) _ _ h λ _ s1 h1.
      ends_and_then (SentBy R n) _ _ h1 λ _ s2 h2. ends_and_then (SentBy R n) _ _ h2 λ _ s3 h3.
        ends_and_then (SentBy R n) _ _ h3 λ _ s4 h4. ends_and_then (SentBy R n) _ _ h4 λ _ t p. p

  approve_token-Sent :
      (fuel : ℕ) (token spender : Address) (amount : ℤ) (s : Selling W)
      → SentBy R n s
      → SentBy R n (approve_token (selling ch) e fuel token spender amount s).1
  unfolding approve_token new_erc20 erc20_allowance
  approve_token-Sent fuel token spender amount s h =
      ends_and_then (SentBy R n) _ _ (ends_and_then (SentBy R n) _ _ h λ _ t p. p) λ erc20 s1 h1.
        ends_and_then (SentBy R n) _ _
          (ends_and_then (SentBy R n) _ _ h1
            λ input t p. ends_and_then (SentBy R n) _ _ p λ _ u q. q)
          λ allowance s2 h2. elim (Bool-cases (leb_ℤ amount allowance)) [
            | inl enough ↦ rw enough h2
            | inr low ↦ rw low (
                ends_and_then (SentBy R n) _ _ (approve-Sent erc20 spender _ _ s2 h2) λ tx s3 h3.
                  ends_and_then (SentBy R n) _ _ (wait_for_receipt-Sent ch R n fuel tx s3 h3)
                    λ _ t p. p)
          ]

  checked-Sent :
      {A : Type 0} (hash : Option ℕ) (report : GoError → GoError) (k : A → Act (Selling W) Returned)
      (m : Outcome A × Selling W)
      → SentBy R n m.1
      → ((a : A) (s : Selling W) → SentBy R n s → SentBy R n (k a s).1)
      → SentBy R n (and_then (caught m) (checked (selling ch) hash report k)).1
  unfolding checked failed and_then caught
  checked-Sent hash report k (ok a, s) h go = go a s h
  checked-Sent hash report k (err g, s) h go = h
  checked-Sent hash report k (panicked, s) h go = h
  checked-Sent hash report k (waiting, s) h go = h

  -- Behind the call one more swap may be sent.
  checked_then :
      {A : Type 0} (hash : Option ℕ) (report : GoError → GoError) (k : A → Act (Selling W) Returned)
      (m : Outcome A × Selling W)
      → SentBy R n m.1
      → ((a : A) (s : Selling W) → SentBy R n s → SentBy R (suc n) (k a s).1)
      → SentBy R (suc n) (and_then (caught m) (checked (selling ch) hash report k)).1
  unfolding checked failed and_then caught
  checked_then hash report k (ok a, s) h go = go a s h
  checked_then hash report k (err g, s) h go = Sent-suc h
  checked_then hash report k (panicked, s) h go = Sent-suc h
  checked_then hash report k (waiting, s) h go = Sent-suc h

module _ {W F : Type 0} (ch : Chain W) (e : Executor F) (R : ℤ → ℤ → Type 0) (n fuel : ℕ)
    (token_in token_out : Address) (amount_in out_min limit : ℤ)
    (allowed : R amount_in out_min) where
  send_swap-Sent :
      (s : Selling W)
      → SentBy R n s
      → SentBy R
          (suc n)
          (send_swap (selling ch) e fuel token_in token_out amount_in out_min limit s).1
  unfolding send_swap reported and_then
  send_swap-Sent s h =
      checked_then ch e R n _ _ _ ((selling ch).new_transactor e.private_key e.chain_id s) h
        λ auth s1 h1.
          let p : SwapParams = record {
            token_in = token_in;
            token_out = token_out;
            fee = pos e.cfg.uniswap.fee_tier;
            recipient = e.wallet_address;
            amount_in = amount_in;
            amount_out_minimum = out_min;
            sqrt_price_limit = limit;
          } in
          checked-Sent ch e R (suc n) none (same_error (selling ch))
            (λ tx t. and_then (caught (wait_for_receipt (selling ch) fuel tx t)) (
              checked (selling ch) (some tx.hash) (same_error (selling ch))
                (λ receipt. reported (selling ch) tx receipt none none)))
            ((selling ch).router_exact_input_single auth p s1) (one_sent allowed h1)
            λ tx s2 h2.
              checked-Sent ch e R (suc n) (some tx.hash) (same_error (selling ch))
                (λ receipt. reported (selling ch) tx receipt none none)
                (wait_for_receipt (selling ch) fuel tx s2)
                (wait_for_receipt-Sent ch R (suc n) fuel tx s2 h2) λ receipt t q. q

  -- A swap is sent at most once.
  pub execute_swap-Sent :
      (s : Selling W)
      → SentBy R n s
      → SentBy R
          (suc n)
          (execute_swap (selling ch) e fuel token_in token_out amount_in out_min limit s).1
  unfolding execute_swap
  execute_swap-Sent s h =
      ends_caught_through (SentBy R (suc n)) (SentBy R n) _
        (approve_token (selling ch) e fuel token_in (ch.hex_to_address e.cfg.uniswap.swap_router)
          (amount_in *ℤ pos 10) s)
        (approve_token-Sent ch e R n fuel token_in _ _ s h) (λ t. Sent-suc) λ r. send_swap-Sent
