-- ===== src/Cli/Words.antt =====
-- main.go: the call data of the two commands, read as a selector and words of thirty-two bytes.
use stablecoin_mmm.Base.{
  ℕ, zero, suc, String, sym, ◌^◌, ◌<◌, ◌≤◌, List, [], ◌∷◌, ◌++◌, ◌≡◌, refl, ap, ◌∙◌, take, drop,
  length, arith,
}
use stablecoin_mmm.Base.Int.{ℤ, pos}
use stablecoin_mmm.Base.Word.{IsInt32, IsInt64}
use stablecoin_mmm.Chain.{Address, Bytes}
use stablecoin_mmm.Erc20.{set_bytes}
use stablecoin_mmm.Cli.Encode.{
  Codec, IsCodec, magnitude, append_all, number_word, address_word, method_id, create_pool_input,
  mint_input,
}
use stablecoin_mmm.Cli.Bytes.{IsWord, number_word-IsWord, address_word-IsWord}
use mathlib.Core.Path.{subst}
use mathlib.Core.List.{append-nil, append_assoc}

-- The first n words.
unfoldable pub words : ℕ → Bytes → List ℤ
words zero xs = []
words (suc n) xs = set_bytes (take 32 xs) ∷ words n (drop 32 xs)

-- The pieces are words that read back as these numbers.
data Spells : List Bytes → List ℤ → Type 0 where
  done : Spells [] []
  word :
      {x : Bytes} {z : ℤ} {xs : List Bytes} {zs : List ℤ}
      → IsWord x z
      → Spells xs zs
      → Spells (x ∷ xs) (z ∷ zs)

take-append : (xs ys : Bytes) (n : ℕ) → length xs ≡ n → take n (xs ++ ys) ≡ xs
take-append [] ys zero e = refl
take-append [] ys (suc n) e = absurd (omega (arith, e))
take-append (x ∷ xs) ys zero e = absurd (omega (arith, e))
take-append (x ∷ xs) ys (suc n) e = ap (λ r. x ∷ r) (take-append xs ys n (omega (arith, e)))

drop-append : (xs ys : Bytes) (n : ℕ) → length xs ≡ n → drop n (xs ++ ys) ≡ ys
drop-append [] ys zero e = refl
drop-append [] ys (suc n) e = absurd (omega (arith, e))
drop-append (x ∷ xs) ys zero e = absurd (omega (arith, e))
drop-append (x ∷ xs) ys (suc n) e = drop-append xs ys n (omega (arith, e))

length-take : (xs : Bytes) (n : ℕ) → n ≤ length xs → length (take n xs) ≡ n
length-take xs zero h = refl
length-take [] (suc n) h = absurd (omega (arith, h))
length-take (x ∷ xs) (suc n) h = ap suc (length-take xs n (omega (arith, h)))

append_all-append :
    (input : Bytes) (xs : List Bytes) → append_all input xs ≡ input ++ append_all [] xs
unfolding append_all
append_all-append input [] = sym (append-nil input)
append_all-append input (x ∷ xs) =
    append_all-append (input ++ x) xs
    ∙ append_assoc input x (append_all [] xs)
    ∙ ap (λ r. input ++ r) (sym (append_all-append x xs))

words-append_all :
    {xs : List Bytes} {zs : List ℤ} → Spells xs zs → words (length zs) (append_all [] xs) ≡ zs
unfolding words append_all
words-append_all done = refl
words-append_all (word {x} {z} {xs} {zs} w s) =
    let e = append_all-append x xs in
    let first : take 32 (append_all x xs) ≡ x = rw e (take-append x (append_all [] xs) 32 w.size) in
    let rest : drop 32 (append_all x xs) ≡ append_all [] xs =
      rw e (drop-append x (append_all [] xs) 32 w.size) in
    rw (first, rest, w.reads) (ap (λ r. z ∷ r) (words-append_all s))

length-method_id : (c : Codec) → IsCodec c → (text : String) → length (method_id c text) ≡ 4
unfolding method_id
length-method_id c lawful text =
    length-take (c.keccak256 text) 4 (omega (arith, lawful.keccak_length text))

-- What the rest of the call data spells, behind the selector.
selected :
    (c : Codec)
    → IsCodec c
    → (text : String) → {xs : List Bytes} {zs : List ℤ} → Spells xs zs
    → words (length zs) (drop 4 (append_all [] (method_id c text ∷ xs))) ≡ zs
unfolding append_all
selected c lawful text {xs} s =
    rw
      (
        append_all-append (method_id c text) xs,
        drop-append (method_id c text) (append_all [] xs) 4 (length-method_id c lawful text),
      )
      (words-append_all s)

-- Whatever is an address, a machine integer or an amount fits in a word.
int64_fits : (z : ℤ) → IsInt64 z → magnitude z < 256 ^ 32
int64_fits z h = ground arith

int32_fits : (z : ℤ) → IsInt32 z → magnitude z < 256 ^ 32
int32_fits z h = ground arith

module _ (c : Codec) (lawful : IsCodec c) where
  create_words :
      (token0 token1 : Address) (fee : ℕ)
      → token0 < 256 ^ 20
      → token1 < 256 ^ 20
      → fee < 2 ^ 32
      → words 3 (
          drop 4 (
            ((method_id c "createPool(address,address,uint24)" ++ address_word c token0)
              ++ address_word c token1)
            ++ number_word c (pos fee)))
        ≡ pos token0 ∷ pos token1 ∷ pos fee ∷ []
  unfolding append_all
  create_words token0 token1 fee h0 h1 hf = selected c lawful "createPool(address,address,uint24)" (
      word (address_word-IsWord c lawful token0 h0) (
        word (address_word-IsWord c lawful token1 h1)
          (word (number_word-IsWord c lawful (pos fee) (omega (arith, hf))) done)))

  pub create_pool_input-words :
      (token0 token1 : Address) (fee : ℕ)
      → token0 < 256 ^ 20
      → token1 < 256 ^ 20
      → fee < 2 ^ 32
      → words 3 (drop 4 (create_pool_input c token0 token1 fee))
        ≡ pos token0 ∷ pos token1 ∷ pos fee ∷ []
  unfolding create_pool_input
  create_pool_input-words token0 token1 fee h0 h1 hf =
      let x0 = address_word c token0 in
      let x1 = address_word c token1 in
      let m = method_id c "createPool(address,address,uint24)" in
      subst (λ r. words 3 (drop 4 r) ≡ pos token0 ∷ pos token1 ∷ pos fee ∷ [])
        (append_assoc (m ++ x0) x1 (number_word c (pos fee))
          ∙ append_assoc m x0 (x1 ++ number_word c (pos fee)))
        (create_words token0 token1 fee h0 h1 hf)

  pub mint_input-words :
      (token0 token1 : Address) (fee : ℕ) (lower upper amount0 amount1 : ℤ) (recipient : Address)
      (deadline : ℤ)
      → token0 < 256 ^ 20
      → token1 < 256 ^ 20
      → fee < 2 ^ 32
      → IsInt32 lower
      → IsInt32 upper
      → magnitude amount0 < 256 ^ 32
      → magnitude amount1 < 256 ^ 32
      → recipient < 256 ^ 20
      → IsInt64 deadline
      → words 11
          (drop 4 (mint_input c token0 token1 fee lower upper amount0 amount1 recipient deadline))
        ≡ pos token0
          ∷ pos token1
          ∷ pos fee
          ∷ pos (magnitude lower)
          ∷ pos (magnitude upper)
          ∷ pos (magnitude amount0)
          ∷ pos (magnitude amount1)
          ∷ pos 0
          ∷ pos 0
          ∷ pos recipient
          ∷ pos (magnitude deadline)
          ∷ []
  unfolding mint_input
  mint_input-words token0 token1 fee lower upper amount0 amount1 recipient deadline h0 h1 hf hl hu
        ha hb hr hd =
      let a : (a : Address) → a < 256 ^ 20 → IsWord (address_word c a) (pos a) =
        address_word-IsWord c lawful in
      let n : (z : ℤ) → magnitude z < 256 ^ 32 → IsWord (number_word c z) (pos (magnitude z)) =
        number_word-IsWord c lawful in
      selected c lawful _ (
        word (a token0 h0) (
          word (a token1 h1) (
            word (n (pos fee) (omega (arith, hf))) (
              word (n lower (int32_fits lower hl)) (
                word (n upper (int32_fits upper hu)) (
                  word (n amount0 ha) (
                    word (n amount1 hb) (
                      word (n (pos 0) (omega arith)) (
                        word (n (pos 0) (omega arith)) (
                          word (a recipient hr)
                            (word (n deadline (int64_fits deadline hd)) done)))))))))))
