-- ===== src/Cli/Examples.antt =====
-- The theorems on what main.go encodes and signs at concrete inputs.
use stablecoin_mmm.Base.{◌-◌, ◌%◌, ◌∙◌, ◌^◌, ◌≡◌, refl, ap, [], ◌∷◌, ◌++◌, drop, length, arith}
use stablecoin_mmm.Base.Int.{pos, negsuc}
use stablecoin_mmm.Chain.{Address, Bytes}
use stablecoin_mmm.Cli.Encode.{Codec, IsCodec, zeros, big_bytes, mint_input}
use stablecoin_mmm.Cli.Bytes.{
  length-padded, set_bytes-padded, length-big_bytes, set_bytes-big_bytes, length-zeros,
}
use stablecoin_mmm.Base.{ℕ}
use stablecoin_mmm.Base.Fixed.{fixed_float, Fixed-IsWordValued}
use stablecoin_mmm.Cli.Commands.{handle_add_liquidity}
use stablecoin_mmm.Base.Act.{ok}
use stablecoin_mmm.Cli.Recording.{recording}
use stablecoin_mmm.Cli.Signed.{
  AtMostOne, IsCall, key_read, mint_words, handle_add_liquidity-AtMostOne,
}
use stablecoin_mmm.Sample.{chain, config}
use stablecoin_mmm.Cli.Words.{words, mint_input-words}

abbrev twenty : Address → Bytes
twenty a = let xs = big_bytes (pos (a % 256 ^ 20)) in zeros (20 - length xs) ++ xs

-- A codec that hashes every text to zeros.
abbrev codec : Codec
codec = record {
  left_pad_bytes = λ xs n. zeros (n - length xs) ++ xs;
  address_bytes = twenty;
  bytes_to_address = λ xs. 0;
  keccak256 = λ text. zeros 32;
}

twenty_bytes : (a : Address) → length (twenty a) ≡ 20
twenty_bytes a =
    length-padded (big_bytes (pos (a % 256 ^ 20))) 20
      (length-big_bytes (pos (a % 256 ^ 20)) 20 (omega arith))

codec-IsCodec : IsCodec codec
codec-IsCodec = record {
  pads = λ xs n. refl;
  address_length = twenty_bytes;
  address_value = λ a h.
      set_bytes-padded (20 - length (big_bytes (pos (a % 256 ^ 20))))
        (big_bytes (pos (a % 256 ^ 20)))
      ∙ set_bytes-big_bytes (pos (a % 256 ^ 20))
      ∙ ap pos (omega (arith, h));
  keccak_length = λ text. length-zeros 32;
}

-- The ticks -10 and 10: both are sent as 10.
mint_input-words_example :
    words 11 (drop 4 (mint_input codec 7 8 500 (negsuc 9) (pos 10) (pos 100) (pos 99) 9 (pos 1300)))
    ≡ pos 7
      ∷ pos 8
      ∷ pos 500
      ∷ pos 10
      ∷ pos 10
      ∷ pos 100
      ∷ pos 99
      ∷ pos 0
      ∷ pos 0
      ∷ pos 9
      ∷ pos 1300
      ∷ []
mint_input-words_example =
    mint_input-words codec codec-IsCodec 7 8 500 (negsuc 9) (pos 10) (pos 100) (pos 99) 9 (pos 1300)
      (omega arith) (omega arith) (omega arith) (omega arith, omega arith)
      (omega arith, omega arith) (omega arith) (omega arith) (omega arith)
      (omega arith, omega arith)

-- The ends of the range of the sample configuration.
handle_add_liquidity-AtMostOne_example :
    AtMostOne
      (λ tx.
        IsCall 7 800_000 tx
        × ((key : ℕ) × ((key_read chain config 0).0 ≡ ok key)
            × (words 11 (drop 4 tx.payload)
                ≡ mint_words chain config key (chain.now (key_read chain config 0).1).0)))
      (handle_add_liquidity codec (recording chain) config (0, [])).1
handle_add_liquidity-AtMostOne_example =
    handle_add_liquidity-AtMostOne codec chain config codec-IsCodec (λ text. omega arith)
      (omega arith) Fixed-IsWordValued (λ key. omega arith) 0
