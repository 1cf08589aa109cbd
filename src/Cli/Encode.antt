-- ===== src/Cli/Encode.antt =====
-- main.go: the call data that `handleCreatePool` and `handleAddLiquidity` put together by hand.
use stablecoin_mmm.Base.{
  ℕ, zero, suc, ◌-◌, ◌/◌, ◌%◌, ◌^◌, ◌<◌, String, List, [], ◌∷◌, ◌++◌, ◌≡◌, take, length,
}
use stablecoin_mmm.Base.Int.{ℤ, pos, negsuc}
use stablecoin_mmm.Chain.{Address, Bytes}
use stablecoin_mmm.Erc20.{set_bytes}

-- go-ethereum's `common.LeftPadBytes`, `Address.Bytes`, `common.BytesToAddress` and
-- `crypto.Keccak256` of a text.
pub record Codec : Type 0 where
  pub left_pad_bytes : Bytes → ℕ → Bytes
  pub address_bytes : Address → Bytes
  pub bytes_to_address : Bytes → Address
  pub keccak256 : String → Bytes

unfoldable pub zeros : ℕ → Bytes
zeros zero = []
zeros (suc n) = 0 ∷ zeros n

-- What these functions promise. An address has twenty bytes, a hash thirty-two.
pub record IsCodec (c : Codec) : Type 0 where
  pub pads : (xs : Bytes) (n : ℕ) → c.left_pad_bytes xs n ≡ zeros (n - length xs) ++ xs
  pub address_length : (a : Address) → length (c.address_bytes a) ≡ 20
  pub address_value : (a : Address) → a < 256 ^ 20 → set_bytes (c.address_bytes a) ≡ pos a
  pub keccak_length : (text : String) → length (c.keccak256 text) ≡ 32

abbrev pub magnitude : ℤ → ℕ
magnitude (pos n) = n
magnitude (negsuc n) = suc n

-- The digits of a number in base 256 before `rest`; the number is enough fuel.
unfoldable pub bytes_with : ℕ → ℕ → Bytes → Bytes
bytes_with zero n rest = rest
bytes_with (suc fuel) zero rest = rest
bytes_with (suc fuel) (suc n) rest = bytes_with fuel (suc n / 256) ((suc n % 256) ∷ rest)

-- `big.Int.Bytes`: the magnitude, the highest byte first, and no byte for zero.
unfoldable pub big_bytes : ℤ → Bytes
big_bytes z = bytes_with (magnitude z) (magnitude z) []

-- `data = append(data, x...)` for each of the pieces.
unfoldable pub append_all : Bytes → List Bytes → Bytes
append_all input [] = input
append_all input (x ∷ xs) = append_all (input ++ x) xs

module _ (c : Codec) where
  -- `common.LeftPadBytes(z.Bytes(), 32)`
  unfoldable pub number_word : ℤ → Bytes
  number_word z = c.left_pad_bytes (big_bytes z) 32

  -- `common.LeftPadBytes(a.Bytes(), 32)`
  unfoldable pub address_word : Address → Bytes
  address_word a = c.left_pad_bytes (c.address_bytes a) 32

  -- `crypto.Keccak256([]byte(signature))[:4]`
  unfoldable pub method_id : String → Bytes
  method_id signature = take 4 (c.keccak256 signature)

  unfoldable pub create_pool_input : Address → Address → ℕ → Bytes
  create_pool_input token0 token1 fee =
      method_id "createPool(address,address,uint24)"
      ++ (address_word token0 ++ (address_word token1 ++ number_word (pos fee)))

  unfoldable pub mint_input : Address → Address → ℕ → ℤ → ℤ → ℤ → ℤ → Address → ℤ → Bytes
  mint_input token0 token1 fee tick_lower tick_upper amount0 amount1 recipient deadline =
      append_all [] (
        method_id
          "mint((address,address,uint24,int24,int24,uint256,uint256,uint256,uint256,address,uint256))"
        ∷ address_word token0
        ∷ address_word token1
        ∷ number_word (pos fee)
        ∷ number_word tick_lower
        ∷ number_word tick_upper
        ∷ number_word amount0
        ∷ number_word amount1
        ∷ number_word (pos 0)
        ∷ number_word (pos 0)
        ∷ address_word recipient
        ∷ number_word deadline
        ∷ [])
