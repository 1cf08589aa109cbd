-- ===== src/Position/Manager.antt =====
-- pkg/position/manager.go: the position manager, which packs and sends its own mint transaction.
use stablecoin_mmm.Base.{
  ℕ, ◌+◌, ◌%◌, ◌^◌, ◌≡◌, String, List, [], ◌∷◌, Option, none, some, leb, ◌==◌, take, length,
  if◌then◌else◌,
}
use stablecoin_mmm.Base.Int.{ℤ, pos, neg_part, pos_part}
use stablecoin_mmm.Base.Act.{
  Act, message, ◌>>=◌, ◌>>◌, pure, throw, panic, or_wrap, and_then, Ensures, panics,
  Ensures-and_then, Ensures-bind, Ensures-wrapped,
}
use stablecoin_mmm.Chain.{Address, Bytes, Tx, Receipt, MintParams, mint, Chain}
use stablecoin_mmm.Erc20.{set_bytes}

pub record PositionManager : Type 0 where
  pub address : Address
  pub private_key : ℕ
  pub chain_id : ℤ

pub record MintResult : Type 0 where
  pub token_id : Option ℤ
  pub amount0 : Option ℤ
  pub amount1 : Option ℤ

abbrev pub drop : ℕ → Bytes → Bytes
drop ℕ.zero xs = xs
drop (ℕ.suc n) [] = []
drop (ℕ.suc n) (x ∷ xs) = drop n xs

-- The loop over the logs: the last one of three words or more stays.
unfoldable pub mint_result_of_logs : MintResult → List Bytes → MintResult
mint_result_of_logs r [] = r
mint_result_of_logs r (entry ∷ rest) =
    mint_result_of_logs
      (if leb 96 (length entry)
        then record {
          token_id = some (set_bytes (take 32 entry));
          amount0 = some (set_bytes (take 32 (drop 32 entry)));
          amount1 = some (set_bytes (take 32 (drop 64 entry)));
        }
        else r)
      rest

-- `auth.Nonce.Uint64()`: a nil nonce panics.
abbrev pub nonce_or_panic : {W : Type 0} → Option ℤ → Act W ℕ
nonce_or_panic none = panic
nonce_or_panic (some n) = pure ((pos_part n + neg_part n) % 2 ^ 64)

module _ {W : Type 0} (ch : Chain W) where
  unfoldable pub new_position_manager : String → String → String → ℤ → Act W PositionManager
  new_position_manager rpc_url position_manager_addr private_key chain_id = do
    or_wrap "failed to connect to ethclient" (ch.dial rpc_url)
    key ← or_wrap "invalid private key" (ch.hex_to_ecdsa private_key)
    pure (record {
      address = ch.hex_to_address position_manager_addr;
      private_key = key;
      chain_id = chain_id;
    })

  unfoldable pub receipt_result : Receipt → Act W MintResult
  receipt_result receipt =
      if receipt.status == 0
      then throw (message "transaction failed")
      else pure (
          mint_result_of_logs (record { token_id = none; amount0 = none; amount1 = none })
            receipt.logs)

  -- The recipient of the parameters is replaced by the wallet of the key.
  unfoldable pub mint_position : PositionManager → MintParams → Act W (MintResult × Tx)
  mint_position pm params = do
    or_wrap "failed to parse ABI" ch.parse_abi
    input ←
        or_wrap "failed to pack input"
          (ch.pack (mint (record params { recipient = ch.pubkey_to_address pm.private_key })))
    auth ← or_wrap "failed to create transactor" (ch.new_transactor pm.private_key pm.chain_id)
    gas_price ← or_wrap "failed to suggest gas price" ch.suggest_gas_price
    nonce ← nonce_or_panic auth.nonce
    signed ← or_wrap "failed to sign transaction" (
        ch.sign_tx
          (record {
            nonce = nonce;
            to = pm.address;
            amount = pos 0;
            gas_limit = 800_000;
            gas_price = gas_price;
            payload = input;
          })
          pm.chain_id pm.private_key)
    or_wrap "failed to send transaction" (ch.send_transaction signed)
    receipt ← or_wrap "failed to wait for receipt" (ch.wait_mined signed)
    result ← receipt_result receipt
    pure (result, signed)

  -- The transactor's nonce is nil, as `bind.NewKeyedTransactorWithChainID` leaves it.
  abbrev pub HasNoNonce : Type 0
  HasNoNonce =
      (key : ℕ) (chain_id : ℤ) (w : W)
      → Ensures (λ auth _. auth.nonce ≡ none) (ch.new_transactor key chain_id w)

  without_nonce :
      (nonce : Option ℤ) (k : ℕ → Act W (MintResult × Tx)) (w : W)
      → nonce ≡ none
      → Ensures (λ _ _. ⊥) (and_then (nonce_or_panic nonce w) k)
  unfolding and_then
  without_nonce none k w e = panics
  without_nonce (some n) k w e = cc

  -- With the nonce that the library leaves nil, a mint never returns a result: it fails before it
  -- reads the nonce, or panics there.
  pub mint_position-never :
      (pm : PositionManager) (params : MintParams) (w : W)
      → HasNoNonce
      → Ensures (λ _ _. ⊥) (mint_position pm params w)
  unfolding mint_position
  mint_position-never pm params w no_nonce = Ensures-and_then _ λ _ w1.
      Ensures-and_then _ λ input w2.
        Ensures-bind (Ensures-wrapped _ (no_nonce pm.private_key pm.chain_id w2))
          λ auth w3 e. Ensures-and_then _ λ gas_price w4. without_nonce auth.nonce _ w4 e
