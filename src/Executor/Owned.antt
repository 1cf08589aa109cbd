-- ===== src/Executor/Owned.antt =====
-- What the calls of pkg/executor/service.go may do with the bot's funds.
use stablecoin_mmm.Base.{
  ℕ, zero, suc, ◌≡◌, ◌⊎◌, refl, inl, inr, ◌==◌, Option, none, some, Bool-cases,
}
use stablecoin_mmm.Base.Int.{ℤ, pos, leb_ℤ}
use stablecoin_mmm.Base.Time.{second, times}
use stablecoin_mmm.Base.Act.{
  Act, Outcome, ok, err, panicked, waiting, GoError, not_found, wrap, and_then, caught,
}
use stablecoin_mmm.Base.Settles.{ends_and_then}
use stablecoin_mmm.Chain.{Address, Tx, Receipt, Chain}
use stablecoin_mmm.Chain.Watched.{Watched, watching, Owner, AllLawful, one_done}
use stablecoin_mmm.Erc20.{
  new_erc20, erc20_balance_of, erc20_allowance, erc20_approve, get_token_balance,
}
use stablecoin_mmm.Executor.Core.{
  Executor, Returned, after_poll, wait_for_receipt, failed, checked, same_error, approve_token,
}

-- All that was done is lawful.
abbrev pub Owned : {W : Type 0} → Owner → Watched W → Type 0
Owned o s = AllLawful o s.1

-- The executor's contracts and wallet are the owner's.
pub record IsOf {W F : Type 0} (ch : Chain W) (o : Owner) (e : Executor F) : Type 0 where
  pub router : ch.hex_to_address e.cfg.uniswap.swap_router ≡ o.router
  pub manager : ch.hex_to_address e.cfg.uniswap.position_manager ≡ o.manager
  pub wallet : e.wallet_address ≡ o.wallet

-- The executor, where there is one, is the owner's.
abbrev pub MaybeOf : {W F : Type 0} → Chain W → Owner → Option (Executor F) → Type 0
MaybeOf {F = F} ch o x = (e : Executor F) → x ≡ some e → IsOf ch o e

module _ {W : Type 0} (ch : Chain W) (o : Owner) where
  after_poll-Owned :
      (again : Watched W → Outcome Receipt × Watched W) (m : Outcome Receipt × Watched W)
      → Owned o m.1
      → ((s : Watched W) → Owned o s → Owned o (again s).1)
      → Owned o (after_poll again m).1
  after_poll-Owned again (ok r, s) h go = h
  after_poll-Owned again (err not_found, s) h go = go s h
  after_poll-Owned again (err (GoError.external k), s) h go = h
  after_poll-Owned again (err (GoError.message t), s) h go = h
  after_poll-Owned again (err (wrap t e), s) h go = h
  after_poll-Owned again (panicked, s) h go = h
  after_poll-Owned again (waiting, s) h go = h

  wait_for_receipt-Owned :
      (fuel : ℕ) (tx : Tx) (s : Watched W)
      → Owned o s
      → Owned o (wait_for_receipt (watching ch) fuel tx s).1
  unfolding wait_for_receipt
  wait_for_receipt-Owned zero tx s h = h
  wait_for_receipt-Owned (suc fuel) tx s h =
      after_poll-Owned _ ((watching ch).transaction_receipt tx s) h
        λ t p. wait_for_receipt-Owned fuel tx ((watching ch).sleep (times (pos 2) second) t) p

  pub get_token_balance-Owned :
      (token owner : Address) (s : Watched W)
      → Owned o s
      → Owned o (get_token_balance (watching ch) token owner s).1
  unfolding get_token_balance new_erc20 erc20_balance_of
  get_token_balance-Owned token owner s h = elim (Bool-cases (token == 0)) [
    | inl coin ↦ rw coin h
    | inr erc20 ↦ rw erc20 (
        ends_and_then (Owned o) _ _ (ends_and_then (Owned o) _ _ h λ _ t p. p) λ a s1 h1.
          ends_and_then (Owned o) _ _ h1 λ input s2 h2. ends_and_then (Owned o) _ _ h2 λ _ t p. p)
  ]

  pub checked-Owned :
      {A : Type 0} (hash : Option ℕ) (report : GoError → GoError) (k : A → Act (Watched W) Returned)
      (m : Outcome A × Watched W)
      → Owned o m.1
      → ((a : A) (s : Watched W) → Owned o s → Owned o (k a s).1)
      → Owned o (and_then (caught m) (checked (watching ch) hash report k)).1
  unfolding checked failed and_then caught
  checked-Owned hash report k (ok a, s) h go = go a s h
  checked-Owned hash report k (err g, s) h go = h
  checked-Owned hash report k (panicked, s) h go = h
  checked-Owned hash report k (waiting, s) h go = h

module _ {W F : Type 0} (ch : Chain W) (o : Owner) (e : Executor F) (own : IsOf ch o e)
    (fuel : ℕ) where
  approve-Owned :
      (erc20 spender : Address) (amount id : ℤ) (s : Watched W)
      → (spender ≡ o.router) ⊎ (spender ≡ o.manager)
      → Owned o s
      → Owned o (erc20_approve (watching ch) erc20 e.private_key spender amount id s).1
  unfolding erc20_approve
  approve-Owned erc20 spender amount id s lawful h =
      ends_and_then (Owned o) _ _ (one_done lawful h) λ _ s1 h1.
        ends_and_then (Owned o) _ _ h1 λ _ s2 h2. ends_and_then (Owned o) _ _ h2 λ _ s3 h3.
          ends_and_then (Owned o) _ _ (one_done refl h3)
            λ _ s4 h4. ends_and_then (Owned o) _ _ h4 λ _ t p. p

  pub approve_token-Owned :
      (token spender : Address) (amount : ℤ) (s : Watched W)
      → (spender ≡ o.router) ⊎ (spender ≡ o.manager)
      → Owned o s
      → Owned o (approve_token (watching ch) e fuel token spender amount s).1
  unfolding approve_token new_erc20 erc20_allowance
  approve_token-Owned token spender amount s lawful h =
      ends_and_then (Owned o) _ _ (ends_and_then (Owned o) _ _ h λ _ t p. p) λ erc20 s1 h1.
        ends_and_then (Owned o) _ _
          (ends_and_then (Owned o) _ _ h1 λ input t p. ends_and_then (Owned o) _ _ p λ _ u q. q)
          λ allowance s2 h2. elim (Bool-cases (leb_ℤ amount allowance)) [
            | inl enough ↦ rw enough h2
            | inr low ↦ rw low (
                ends_and_then (Owned o) _ _ (approve-Owned erc20 spender _ _ s2 lawful h2)
                  λ tx s3 h3.
                    ends_and_then (Owned o) _ _ (wait_for_receipt-Owned ch o fuel tx s3 h3)
                      λ _ t p. p)
          ]

  -- The wait for a sent transaction and the report behind it.
  pub mined-Owned :
      (k : Tx → Receipt → Act (Watched W) Returned) (m : Outcome Tx × Watched W)
      → Owned o m.1
      → ((tx : Tx) (r : Receipt) (s : Watched W) → Owned o s → Owned o (k tx r s).1)
      → Owned o
          (and_then (caught m) (
            checked (watching ch) none (same_error (watching ch)) (λ tx s.
              and_then
                (caught (wait_for_receipt (watching ch) fuel tx s))
                (checked (watching ch) (some tx.hash) (same_error (watching ch)) (k tx))))).1
  mined-Owned k m h go = checked-Owned ch o _ _ _ m h λ tx s p.
      checked-Owned ch o _ _ (k tx) (wait_for_receipt (watching ch) fuel tx s)
        (wait_for_receipt-Owned ch o fuel tx s p) (go tx)
