-- ===== src/Bot/Hands.antt =====
-- The bot of main.go from its construction on, on a chain that keeps what is done with its funds.
use mathlib.Core.Path.{subst}
use mathlib.Core.Option.{some-injective}
use stablecoin_mmm.Base.{ℕ, ◌≡◌, refl, sym, ap, List, [], some, arith}
use stablecoin_mmm.Base.Float.{Float, BigFloat}
use stablecoin_mmm.Base.Act.{
  Outcome, ok, err, panicked, waiting, caught, Ensures, returns, fails, panics, waits,
  Ensures-and_then, Ensures-bind, Ensures-wrapped,
}
use stablecoin_mmm.Base.Settles.{ends_and_then, ends_wrapped}
use stablecoin_mmm.Config.{Config}
use stablecoin_mmm.Chain.{Chain, read_clock}
use stablecoin_mmm.Chain.Carried.{kept}
use stablecoin_mmm.Chain.Watched.{Watched, watching, Owner, AllLawful, none_done}
use stablecoin_mmm.Executor.Core.{Executor, new_executor}
use stablecoin_mmm.Executor.Owned.{Owned, IsOf, MaybeOf}
use stablecoin_mmm.Rebalancer.Core.{new_rebalancer, start}
use stablecoin_mmm.Uniswap.{PriceOracle, new_client}
use stablecoin_mmm.Api.Handlers.{update_rebalancer}
use stablecoin_mmm.Bot.Core.{Bot, NewParts, built, assemble, new_bot, start_bot, value_or_nil}
use stablecoin_mmm.Bot.Inputs.{Input, inputs, inputs-closed}
use stablecoin_mmm.Bot.Owned.{InHands, InHands-closed}

-- A call that says something of its value, by what it returns.
kept-Ensures :
    {A W L : Type 0} (Q : A → Type 0) (l : L) (m : Outcome A × W)
    → ((a : A) → m.0 ≡ ok a → Q a)
    → Ensures (λ a _. Q a) (kept l m)
kept-Ensures Q l (ok a, w) h = returns (h a refl)
kept-Ensures Q l (err e, w) h = fails
kept-Ensures Q l (panicked, w) h = panics
kept-Ensures Q l (waiting, w) h = waits

module _ {F W : Type 0} (ch : Chain W) (cfg : Config F) (key : ℕ)
    (one_key : (w : W) (k : ℕ) → (ch.hex_to_ecdsa cfg.bot.private_key w).0 ≡ ok k → k ≡ key) where
  -- The contracts and the wallet of the configuration.
  abbrev pub configured : Owner
  configured = record {
    router = ch.hex_to_address cfg.uniswap.swap_router;
    manager = ch.hex_to_address cfg.uniswap.position_manager;
    wallet = ch.pubkey_to_address key;
  }

  new_executor-IsOf :
      (s : Watched W) → Ensures (λ e _. IsOf ch configured e) (new_executor (watching ch) cfg s)
  unfolding new_executor
  new_executor-IsOf s = Ensures-and_then _ λ _ s1.
      Ensures-bind
        (Ensures-wrapped "invalid private key" (
          kept-Ensures (λ k. k ≡ key) s1.1 (ch.hex_to_ecdsa cfg.bot.private_key s1.0)
            (one_key s1.0)))
        λ k s2 is_key. Ensures-and_then _ λ _ _. Ensures-and_then _ λ _ _. Ensures-and_then _ λ _ _.
          Ensures-and_then _ λ _ _. Ensures-and_then _ λ _ _.
            returns
              (record { router = refl; manager = refl; wallet = ap ch.pubkey_to_address is_key })

  new_executor-Owned :
      (o : Owner) (s : Watched W) → Owned o s → Owned o (new_executor (watching ch) cfg s).1
  unfolding new_executor
  new_executor-Owned o s h = ends_and_then (Owned o) _ _ (ends_wrapped (Owned o) _ _ h) λ _ s1 h1.
      ends_and_then (Owned o) _ _ (ends_wrapped (Owned o) _ _ h1) λ _ s2 h2.
        ends_and_then (Owned o) _ _ (ends_wrapped (Owned o) _ _ h2) λ _ s3 h3.
          ends_and_then (Owned o) _ _ (ends_wrapped (Owned o) _ _ h3) λ _ s4 h4.
            ends_and_then (Owned o) _ _ (ends_wrapped (Owned o) _ _ h4) λ _ s5 h5.
              ends_and_then (Owned o) _ _ (ends_wrapped (Owned o) _ _ h5)
                λ _ s6 h6. ends_and_then (Owned o) _ _ (ends_wrapped (Owned o) _ _ h6) λ _ t p. p

  new_client-Owned :
      (o : Owner) (s : Watched W) → Owned o s → Owned o (new_client (watching ch) cfg s).1
  unfolding new_client
  new_client-Owned o s h = ends_and_then (Owned o) _ _ (ends_wrapped (Owned o) _ _ h) λ _ s1 h1.
      ends_and_then (Owned o) _ _ (ends_wrapped (Owned o) _ _ h1) λ _ s2 h2.
        ends_and_then (Owned o) _ _ (ends_wrapped (Owned o) _ _ h2) λ _ s3 h3.
          ends_and_then (Owned o) _ _ (ends_wrapped (Owned o) _ _ h3)
            λ _ s4 h4. ends_and_then (Owned o) _ _ (ends_wrapped (Owned o) _ _ h4) λ _ t p. p

  read_clock-Owned :
      (o : Owner) (s : Watched W)
      → Owned o s
      → Ensures (λ _ t. Owned o t) (read_clock (watching ch) s)
  read_clock-Owned o s h = returns h

  tried_executor :
      (m : Outcome (Executor F) × Watched W)
      → Ensures (λ e _. IsOf ch configured e) m
      → Owned configured m.1
      → Ensures (λ r s. MaybeOf ch configured (value_or_nil r) × Owned configured s) (caught m)
  unfolding caught
  tried_executor _ (returns q) h =
      returns (λ e same. subst (IsOf ch configured) (some-injective _ _ same) q, h)
  tried_executor _ fails h = returns (λ e same. absurd (ground arith), h)
  tried_executor _ panics h = panics
  tried_executor _ waits h = waits

  -- What the parts of a bot are made of.
  abbrev Parts : NewParts F → Watched W → Type 0
  Parts p s = Owned configured s × MaybeOf ch configured p.4 × MaybeOf ch configured p.1

-- A call that ends in a lawful state returns in one.
returns-Owned :
    {A W : Type 0} (o : Owner) (m : Outcome A × Watched W)
    → Owned o m.1
    → Ensures (λ _ s. Owned o s) m
returns-Owned o (ok a, s) h = returns h
returns-Owned o (err e, s) h = fails
returns-Owned o (panicked, s) h = panics
returns-Owned o (waiting, s) h = waits

module _ {F B W : Type 0} ⦃f : Float F⦄ ⦃b : BigFloat F B⦄ (ch : Chain W) (cfg : Config F) (key : ℕ)
    (one_key : (w : W) (k : ℕ) → (ch.hex_to_ecdsa cfg.bot.private_key w).0 ≡ ok k → k ≡ key) where
  built-InHands :
      (m : Outcome (NewParts F) × Watched W) (bot : Bot F B (Watched W))
      → Ensures (Parts ch cfg key one_key) m
      → built (watching ch) cfg m ≡ some bot
      → InHands ch (configured ch cfg key one_key) (start_bot (watching ch) bot).server
  unfolding assemble new_rebalancer start_bot update_rebalancer start
  built-InHands _ bot (returns h) e =
      subst
        (λ (x : Bot F B (Watched W)).
          InHands ch (configured ch cfg key one_key) (start_bot (watching ch) x).server)
        (some-injective _ _ e) h
  built-InHands _ bot fails e = absurd (ground arith)
  built-InHands _ bot panics e = absurd (ground arith)
  built-InHands _ bot waits e = absurd (ground arith)

  -- Whatever the chain answers, and whatever is asked of a bot that is built, with nothing done
  -- before, on a chain that keeps what is done with its funds, in any order of ticks, background
  -- rebalances and requests: every approval of a token that it has packed is for the configured
  -- router or position manager, every transaction that it has signed itself carries no coin, and
  -- every position and swap that it has sent goes to the wallet of the configured key, if the text
  -- of that key means one key.
  pub funds_in_hands :
      (fuel : ℕ) (oracle : PriceOracle F) (s : Watched W) (bot : Bot F B (Watched W))
      (is : List (Input F))
      → s.1 ≡ []
      → new_bot (watching ch) cfg s ≡ some bot
      → AllLawful
          (configured ch cfg key one_key)
          (inputs (watching ch) fuel oracle is (start_bot (watching ch) bot).server).state.world.1
  unfolding new_bot
  funds_in_hands fuel oracle s bot is fresh e =
      let o = configured ch cfg key one_key in
      let clean : Owned o s = subst (AllLawful o) (sym fresh) none_done in
      let parts =
        Ensures-bind
          (returns-Owned o _
            (ends_wrapped (Owned o) _ _ (new_client-Owned ch cfg key one_key o s clean)))
          λ client s1 h1.
            Ensures-bind
              (tried_executor ch cfg key one_key _ (new_executor-IsOf ch cfg key one_key s1)
                (new_executor-Owned ch cfg key one_key o s1 h1))
              λ exec s2 h2. Ensures-bind (read_clock-Owned ch cfg key one_key o s2 h2.1) λ t1 s3 h3.
                Ensures-bind (read_clock-Owned ch cfg key one_key o s3 h3) λ t2 s4 h4.
                  Ensures-bind
                    (tried_executor ch cfg key one_key _ (new_executor-IsOf ch cfg key one_key s4)
                      (new_executor-Owned ch cfg key one_key o s4 h4))
                    λ api s5 h5. returns (h5.1, h5.0, h2.0) in
      (inputs-closed (watching ch) fuel oracle (InHands ch o) (InHands-closed ch o fuel oracle)
        (λ t h. h) is (start_bot (watching ch) bot).server (built-InHands _ bot parts e)).0
