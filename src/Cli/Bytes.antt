-- ===== src/Cli/Bytes.antt =====
-- main.go: the bytes of a number and of a padded word, read back.
use stablecoin_mmm.Base.{
  ℕ, zero, suc, ◌+◌, ◌-◌, ◌/◌, ◌%◌, ◌^◌, ◌≤◌, ◌<◌, [], ◌∷◌, ◌++◌, ◌≡◌, refl, ap, ◌∙◌, length,
  length-append, arith,
}
use stablecoin_mmm.Base.Int.{ℤ, pos}
use stablecoin_mmm.Chain.{Address, Bytes}
use stablecoin_mmm.Erc20.{set_bytes, set_bytes_from}
use stablecoin_mmm.Cli.Encode.{
  Codec, IsCodec, zeros, magnitude, bytes_with, big_bytes, number_word, address_word,
}

set_bytes-bytes_with :
    (fuel n : ℕ) (rest : Bytes)
    → n ≤ fuel
    → set_bytes_from 0 (bytes_with fuel n rest) ≡ set_bytes_from n rest
unfolding bytes_with set_bytes_from
set_bytes-bytes_with zero n rest h = ap (λ k. set_bytes_from k rest) (omega arith)
set_bytes-bytes_with (suc fuel) zero rest h = refl
set_bytes-bytes_with (suc fuel) (suc n) rest h =
    set_bytes-bytes_with fuel (suc n / 256) ((suc n % 256) ∷ rest) (omega (arith, h))
    ∙ ap (λ k. set_bytes_from k rest) (omega arith)

length-bytes_with :
    (fuel n j : ℕ) (rest : Bytes) → n < 256 ^ j → length (bytes_with fuel n rest) ≤ j + length rest
unfolding bytes_with
length-bytes_with zero n j rest h = omega arith
length-bytes_with (suc fuel) zero j rest h = omega arith
length-bytes_with (suc fuel) (suc n) zero rest h = absurd (omega (arith, h))
length-bytes_with (suc fuel) (suc n) (suc j) rest h =
    omega (arith, length-bytes_with fuel (suc n / 256) j ((suc n % 256) ∷ rest) (omega (arith, h)))

set_bytes-zeros : (k : ℕ) (xs : Bytes) → set_bytes_from 0 (zeros k ++ xs) ≡ set_bytes_from 0 xs
unfolding zeros set_bytes_from
set_bytes-zeros zero xs = refl
set_bytes-zeros (suc k) xs = set_bytes-zeros k xs

pub length-zeros : (k : ℕ) → length (zeros k) ≡ k
unfolding zeros
length-zeros zero = refl
length-zeros (suc k) = ap suc (length-zeros k)

-- A word of the call data: thirty-two bytes that read back as a number.
pub record IsWord (x : Bytes) (z : ℤ) : Type 0 where
  pub size : length x ≡ 32
  pub reads : set_bytes x ≡ z

pub length-padded : (xs : Bytes) (n : ℕ) → length xs ≤ n → length (zeros (n - length xs) ++ xs) ≡ n
length-padded xs n h =
    omega (arith, length-append (zeros (n - length xs)) xs, length-zeros (n - length xs))

pub set_bytes-padded : (k : ℕ) (xs : Bytes) → set_bytes (zeros k ++ xs) ≡ set_bytes xs
unfolding set_bytes
set_bytes-padded k xs = ap pos (set_bytes-zeros k xs)

pub set_bytes-big_bytes : (z : ℤ) → set_bytes (big_bytes z) ≡ pos (magnitude z)
unfolding set_bytes big_bytes set_bytes_from
set_bytes-big_bytes z = ap pos (set_bytes-bytes_with (magnitude z) (magnitude z) [] (omega arith))

pub length-big_bytes : (z : ℤ) (j : ℕ) → magnitude z < 256 ^ j → length (big_bytes z) ≤ j
unfolding big_bytes
length-big_bytes z j h = omega (arith, length-bytes_with (magnitude z) (magnitude z) j [] h)

module _ (c : Codec) (lawful : IsCodec c) where
  padded-IsWord :
      (xs : Bytes) (z : ℤ) → length xs ≤ 32 → set_bytes xs ≡ z → IsWord (c.left_pad_bytes xs 32) z
  padded-IsWord xs z h e = record {
    size = rw (lawful.pads xs 32) (length-padded xs 32 h);
    reads = rw (lawful.pads xs 32) (set_bytes-padded (32 - length xs) xs ∙ e);
  }

  pub number_word-IsWord :
      (z : ℤ) → magnitude z < 256 ^ 32 → IsWord (number_word c z) (pos (magnitude z))
  unfolding number_word
  number_word-IsWord z h =
      padded-IsWord (big_bytes z) (pos (magnitude z)) (length-big_bytes z 32 h)
        (set_bytes-big_bytes z)

  pub address_word-IsWord : (a : Address) → a < 256 ^ 20 → IsWord (address_word c a) (pos a)
  unfolding address_word
  address_word-IsWord a h =
      padded-IsWord (c.address_bytes a) (pos a) (omega (arith, lawful.address_length a))
        (lawful.address_value a h)
