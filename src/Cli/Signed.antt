-- ===== src/Cli/Signed.antt =====
-- main.go: what the two commands sign.
use stablecoin_mmm.Base.{
  ℕ, String, Bool-cases, ap, sym, ◌∙◌, ◌*◌, ◌^◌, ◌<◌, ◌==◌, List, [], ◌∷◌, ◌≡◌, refl, ◌⊎◌, inl, inr,
  drop, arith,
}
use stablecoin_mmm.Base.Int.{ℤ, pos, ◌+ℤ◌}
use stablecoin_mmm.Base.Word.{wrap64, wrap64-IsInt64}
use stablecoin_mmm.Base.Time.{unix}
use stablecoin_mmm.Base.Float.{Float, IsWordValued}
use stablecoin_mmm.Base.Act.{Act, Outcome, ok, err, panicked, waiting, wrapped, and_then}
use stablecoin_mmm.Base.Settles.{ends_through, ends_and_then, ends_wrapped}
use stablecoin_mmm.Config.{Config}
use stablecoin_mmm.Chain.{Chain, RawTx, Address, Bytes, read_clock}
use stablecoin_mmm.Cli.Encode.{Codec, IsCodec, magnitude}
use stablecoin_mmm.Cli.Words.{words, mint_input-words, create_pool_input-words}
use stablecoin_mmm.Cli.Commands.{
  send_and_wait, handle_create_pool, handle_add_liquidity, cli_tick_lower, cli_tick_upper,
}
use stablecoin_mmm.Cli.Recording.{Recorded, recording}

-- Nothing was signed, or one transaction that satisfies Q.
abbrev pub AtMostOne : {W : Type 0} → (RawTx → Type 0) → Recorded W → Type 0
AtMostOne Q s = (s.1 ≡ []) ⊎ ((tx : RawTx) × (s.1 ≡ tx ∷ []) × Q tx)

abbrev Nothing : {W : Type 0} → Recorded W → Type 0
Nothing s = s.1 ≡ []

-- The configured key as it is read once the node is dialled.
abbrev pub key_read : {W F : Type 0} → Chain W → Config F → W → Outcome ℕ × W
key_read ch cfg w = ch.hex_to_ecdsa cfg.bot.private_key (ch.dial cfg.uniswap.rpc_url w).1

-- The words of a mint: the tokens, the fee, the magnitudes of the ticks, a hundred tokens twice, two
-- zeros, the address of the key, and the magnitude of the time five minutes on.
abbrev pub mint_words : {W F : Type 0} → ⦃f : Float F⦄ → Chain W → Config F → ℕ → ℤ → List ℤ
mint_words ch cfg key now =
    pos (ch.hex_to_address cfg.uniswap.token0_address)
    ∷ pos (ch.hex_to_address cfg.uniswap.token1_address)
    ∷ pos cfg.uniswap.fee_tier
    ∷ pos (magnitude (cli_tick_lower cfg))
    ∷ pos (magnitude (cli_tick_upper cfg))
    ∷ pos (100 * 10 ^ 18)
    ∷ pos (100 * 10 ^ 18)
    ∷ pos 0
    ∷ pos 0
    ∷ pos (ch.pubkey_to_address key)
    ∷ pos (magnitude (wrap64 (unix now +ℤ pos 300)))
    ∷ []

-- A transaction to a contract, with no coin.
abbrev pub IsCall : Address → ℕ → RawTx → Type 0
IsCall to gas_limit tx = (tx.to ≡ to) × (tx.amount ≡ pos 0) × (tx.gas_limit ≡ gas_limit)

-- The clock is read in between.
after_clock :
    {W B : Type 0} (Q : RawTx → Type 0) (ch : Chain (Recorded W)) (k : ℤ → Act (Recorded W) B)
    (s : Recorded W)
    → AtMostOne Q (k (ch.now s).0 (ch.now s).1).1
    → AtMostOne Q (and_then (read_clock ch s) k).1
unfolding and_then
after_clock Q ch k s h = h

module _ {W A B : Type 0} (Q : RawTx → Type 0) where
  -- A call that signs nothing, before the signature and after it.
  before :
      (text : String) (k : A → Act (Recorded W) B) (m : Outcome A × Recorded W)
      → Nothing m.1
      → ((a : A) (s : Recorded W) → Nothing s → AtMostOne Q (k a s).1)
      → AtMostOne Q (and_then (wrapped text m) k).1
  before text k m none_yet h =
      ends_through (AtMostOne Q) Nothing k (wrapped text m) (ends_wrapped Nothing text m none_yet)
        (λ s e. inl e) h

  -- The call's value and state are those that it ends with.
  before_known :
      (text : String) (k : A → Act (Recorded W) B) (m : Outcome A × Recorded W)
      → Nothing m.1
      → ((a : A) (s : Recorded W) → m ≡ (ok a, s) → Nothing s → AtMostOne Q (k a s).1)
      → AtMostOne Q (and_then (wrapped text m) k).1
  unfolding and_then wrapped
  before_known text k (ok a, s) e h = h a s refl e
  before_known text k (err g, s) e h = inl e
  before_known text k (panicked, s) e h = inl e
  before_known text k (waiting, s) e h = inl e

  after :
      (text : String) (k : A → Act (Recorded W) B) (m : Outcome A × Recorded W)
      → AtMostOne Q m.1
      → ((a : A) (s : Recorded W) → AtMostOne Q s → AtMostOne Q (k a s).1)
      → AtMostOne Q (and_then (wrapped text m) k).1
  after text k m one h =
      ends_and_then (AtMostOne Q) k (wrapped text m) (ends_wrapped (AtMostOne Q) text m one) h

module _ {W F : Type 0} (c : Codec) (ch : Chain W) (cfg : Config F) where
  send_and_wait-AtMostOne :
      (Q : RawTx → Type 0) (private_key : ℕ) (to : Address) (gas_limit : ℕ) (input : Bytes)
      → ((nonce : ℕ) (price : ℤ)
          → Q (record {
            nonce = nonce;
            to = to;
            amount = pos 0;
            gas_limit = gas_limit;
            gas_price = price;
            payload = input;
          }))
      → (s : Recorded W) → Nothing s
      → AtMostOne Q (send_and_wait c (recording ch) cfg private_key to gas_limit input s).1
  unfolding send_and_wait
  send_and_wait-AtMostOne Q private_key to gas_limit input q s e =
      before Q _ _ ((recording ch).suggest_gas_price s) e λ price s1 e1.
        before Q _ _ ((recording ch).pending_nonce_at (ch.pubkey_to_address private_key) s1) e1
          λ nonce s2 e2.
            let tx : RawTx = record {
              nonce = nonce;
              to = to;
              amount = pos 0;
              gas_limit = gas_limit;
              gas_price = price;
              payload = input;
            } in
            after Q _ _ ((recording ch).sign_tx tx cfg.uniswap.chain_id private_key s2)
              (inr (tx, ap (λ txs. tx ∷ txs) e2, q nonce price))
              λ signed s3 p3. after Q _ _ ((recording ch).send_transaction signed s3) p3 λ _ s4 p4.
                after Q _ _ ((recording ch).wait_mined signed s4) p4 λ receipt s5 p5.
                  elim (Bool-cases (receipt.status == 0)) [
                    | inl failed ↦ rw failed p5
                    | inr mined ↦ rw mined p5
                  ]

  module _ (lawful : IsCodec c) (addresses : (text : String) → ch.hex_to_address text < 256 ^ 20)
      (fees : cfg.uniswap.fee_tier < 2 ^ 32) where
    -- Whatever the chain answers, `handleCreatePool` signs at most one transaction: a call of the
    -- factory, with no coin, whose data behind the selector is the two tokens and the fee.
    pub handle_create_pool-AtMostOne :
        (w : W)
        → AtMostOne
            (λ tx.
              IsCall (ch.hex_to_address cfg.uniswap.factory_address) 500_000 tx
              × (words 3 (drop 4 tx.payload)
                  ≡ pos (ch.hex_to_address cfg.uniswap.token0_address)
                    ∷ pos (ch.hex_to_address cfg.uniswap.token1_address)
                    ∷ pos cfg.uniswap.fee_tier
                    ∷ []))
            (handle_create_pool c (recording ch) cfg (w, [])).1
    unfolding handle_create_pool
    handle_create_pool-AtMostOne w =
        before _ _ _ ((recording ch).dial cfg.uniswap.rpc_url (w, [])) refl λ _ s1 e1.
          before _ _ _ ((recording ch).hex_to_ecdsa cfg.bot.private_key s1) e1 λ key s2 e2.
            ends_and_then (AtMostOne _) _ (send_and_wait c (recording ch) cfg key _ 500_000 _ s2)
              (send_and_wait-AtMostOne _ key _ 500_000 _
                (λ nonce price. (
                  (refl, refl, refl),
                  create_pool_input-words c lawful _ _ cfg.uniswap.fee_tier (addresses _)
                      (addresses _) fees,
                ))
                s2 e2)
              λ receipt s3 p. p

    -- Whatever the chain answers, `handleAddLiquidity` signs at most one transaction: a call of the
    -- position manager, with no coin, whose data behind the selector is the two tokens, the fee, the
    -- magnitudes of the two ticks, a hundred tokens of eighteen decimals twice, two zeros, the
    -- address of the key that the configured text is read as, and the magnitude of the time five
    -- minutes behind the reading of the clock that follows.
    pub handle_add_liquidity-AtMostOne :
        ⦃f : Float F⦄
        → IsWordValued f
        → ((key : ℕ) → ch.pubkey_to_address key < 256 ^ 20)
        → (w : W)
        → AtMostOne
            (λ tx.
              IsCall (ch.hex_to_address cfg.uniswap.position_manager) 800_000 tx
              × ((key : ℕ) × ((key_read ch cfg w).0 ≡ ok key)
                  × (words 11 (drop 4 tx.payload)
                      ≡ mint_words ch cfg key (ch.now (key_read ch cfg w).1).0)))
            (handle_add_liquidity c (recording ch) cfg (w, [])).1
    unfolding handle_add_liquidity cli_tick_lower cli_tick_upper
    handle_add_liquidity-AtMostOne words_fit keys w =
        before_known _ _ _ ((recording ch).dial cfg.uniswap.rpc_url (w, [])) refl λ _ s1 dialled e1.
          before_known _ _ _ ((recording ch).hex_to_ecdsa cfg.bot.private_key s1) e1
            λ key s2 parsed e2.
              let at : s1.0 ≡ (ch.dial cfg.uniswap.rpc_url w).1 = sym (ap (λ m. m.1.0) dialled) in
              let read : (key_read ch cfg w).0 ≡ ok key =
                ap (λ u. (ch.hex_to_ecdsa cfg.bot.private_key u).0) (sym at)
                ∙ ap (λ m. m.0) parsed in
              let then_at : s2.0 ≡ (key_read ch cfg w).1 =
                sym (ap (λ m. m.1.0) parsed)
                ∙ ap (λ u. (ch.hex_to_ecdsa cfg.bot.private_key u).1) at in
              after_clock _ (recording ch) _ s2 (
                ends_and_then (AtMostOne _) _
                  (send_and_wait c (recording ch) cfg key _ 800_000 _ ((recording ch).now s2).1)
                  (send_and_wait-AtMostOne _ key _ 800_000 _
                    (λ nonce price. (
                      (refl, refl, refl),
                      (
                        key,
                        read,
                        mint_input-words c lawful _ _ cfg.uniswap.fee_tier (cli_tick_lower cfg)
                              (cli_tick_upper cfg) (pos (100 * 10 ^ 18)) (pos (100 * 10 ^ 18))
                              (ch.pubkey_to_address key) (wrap64 (unix (ch.now s2.0).0 +ℤ pos 300))
                              (addresses _) (addresses _) fees (words_fit.to_int32_range _)
                              (words_fit.to_int32_range _) (omega arith) (omega arith) (keys key)
                              (wrap64-IsInt64 _)
                            ∙ ap (λ u. mint_words ch cfg key (ch.now u).0) then_at,
                      ),
                    ))
                    ((recording ch).now s2).1 e2)
                  (λ receipt s4 p. p))
