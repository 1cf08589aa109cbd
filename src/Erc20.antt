-- ===== src/Erc20.antt =====
-- pkg/executor/erc20.go: reading balances and allowances of a token, and approving a spender.
use stablecoin_mmm.Base.{ℕ, ◌+◌, ◌*◌, [], ◌∷◌, ◌==◌, if◌then◌else◌}
use stablecoin_mmm.Base.Int.{ℤ, pos}
use stablecoin_mmm.Base.Act.{Act, ◌>>=◌, ◌>>◌, pure}
use stablecoin_mmm.Chain.{Address, Bytes, Tx, Chain, balance_of, allowance, approve}

-- `big.Int.SetBytes`: the number whose digits in base 256 these are, the highest first.
unfoldable pub set_bytes_from : ℕ → Bytes → ℕ
set_bytes_from acc [] = acc
set_bytes_from acc (x ∷ xs) = set_bytes_from (acc * 256 + x) xs

unfoldable pub set_bytes : Bytes → ℤ
unfolding set_bytes_from
set_bytes xs = pos (set_bytes_from 0 xs)

module _ {W : Type 0} (ch : Chain W) where
  -- `NewERC20` keeps the address; parsing the ABI may fail.
  unfoldable pub new_erc20 : Address → Act W Address
  new_erc20 address = do ch.parse_abi; pure address

  unfoldable pub erc20_balance_of : Address → Address → Act W ℤ
  erc20_balance_of erc20 owner = do
    input ← ch.pack (balance_of owner)
    result ← ch.call_contract erc20 input
    pure (set_bytes result)

  unfoldable pub erc20_allowance : Address → Address → Address → Act W ℤ
  erc20_allowance erc20 owner spender = do
    input ← ch.pack (allowance owner spender)
    result ← ch.call_contract erc20 input
    pure (set_bytes result)

  unfoldable pub erc20_approve : Address → ℕ → Address → ℤ → ℤ → Act W Tx
  erc20_approve erc20 private_key spender amount chain_id = do
    input ← ch.pack (approve spender amount)
    nonce ← ch.pending_nonce_at (ch.pubkey_to_address private_key)
    gas_price ← ch.suggest_gas_price
    signed ←
        ch.sign_tx
          (record {
            nonce = nonce;
            to = erc20;
            amount = pos 0;
            gas_limit = 100_000;
            gas_price = gas_price;
            payload = input;
          })
          chain_id private_key
    ch.send_transaction signed
    pure signed

  -- `GetTokenBalance`: the zero address stands for the chain's own coin.
  unfoldable pub get_token_balance : Address → Address → Act W ℤ
  get_token_balance token_addr owner_addr =
      if token_addr == 0
      then ch.balance_at owner_addr
      else (new_erc20 token_addr >>= λ erc20. erc20_balance_of erc20 owner_addr)
