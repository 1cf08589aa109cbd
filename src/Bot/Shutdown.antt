-- ===== src/Bot/Shutdown.antt =====
-- main.go: when the loops end, and what the program does behind a signal.
use stablecoin_mmm.Base.{
  ℕ, Bool, true, false, ◌||◌, Bool-cases, inl, inr, List, [], ◌∷◌, ◌++◌, map, Option, some, none,
  ◌≡◌, refl, ap, ◌∙◌, ◌≢◌, sym, String, arith,
}
use stablecoin_mmm.Base.Float.{Float, BigFloat}
use stablecoin_mmm.Base.Act.{Act, Outcome, ok, err, panicked, waiting}
use stablecoin_mmm.Config.{Config}
use stablecoin_mmm.Chain.{Chain}
use stablecoin_mmm.Rebalancer.Core.{start}
use stablecoin_mmm.Monitor.{update_status}
use stablecoin_mmm.Api.Handlers.{update_rebalancer, handle_start}
use stablecoin_mmm.Bot.Core.{Bot, new_bot, stop_bot}
use stablecoin_mmm.Bot.Loops.{
  Loop, Program, Turn, ticker, ctx_done, signal, control, starts, same_loop, turn, turns, main,
  loaded, program_of, handle_start_bot,
}

ap_some : {A B : Type 0} {a a' : A} → (g : A → B) → some a ≡ some a' → g a ≡ g a'
ap_some g e = cc

true_not_false : true ≢ false
true_not_false = λ e. absurd (cc)

same_loop_refl : (l : Loop) → same_loop l l ≡ true
same_loop_refl l = ground arith

-- Whether the select of a loop takes the context's case in the turns.
abbrev pub sees_done_in : Loop → List Turn → Bool
sees_done_in l [] = false
sees_done_in l (ctx_done m ∷ ts) = same_loop m l || sees_done_in l ts
sees_done_in l (ticker m ∷ ts) = sees_done_in l ts
sees_done_in l (signal ∷ ts) = sees_done_in l ts
sees_done_in l (control c ∷ ts) = sees_done_in l ts

module _ {F B W : Type 0} ⦃f : Float F⦄ ⦃b : BigFloat F B⦄ (ch : Chain W) (fuel : ℕ) where
  stays_cancelled :
      (t : Turn) (p : Program F B W)
      → p.bot.cancelled ≡ true
      → (turn ch fuel t p).bot.cancelled ≡ true
  unfolding turn stop_bot
  stays_cancelled t p h = ground arith

  stays_returned :
      (t : Turn) (l : Loop) (p : Program F B W)
      → p.looping l ≡ false
      → (turn ch fuel t p).looping l ≡ false
  unfolding turn stop_bot
  stays_returned t l p h = ground arith

  returned :
      (ts : List Turn) (l : Loop) (p : Program F B W)
      → p.looping l ≡ false
      → (turns ch fuel ts p).looping l ≡ false
  unfolding turns
  returned [] l p h = h
  returned (t ∷ ts) l p h = returned ts l (turn ch fuel t p) (stays_returned t l p h)

  sees_done :
      (l : Loop) (p : Program F B W)
      → p.bot.cancelled ≡ true
      → (turn ch fuel (ctx_done l) p).looping l ≡ false
  unfolding turn
  sees_done l p h = rw (h, same_loop_refl l) refl

  cancelled_before :
      (before after : List Turn) (l : Loop) (p : Program F B W)
      → p.bot.cancelled ≡ true
      → (turns ch fuel (before ++ (ctx_done l ∷ after)) p).looping l ≡ false
  unfolding turns
  cancelled_before [] after l p h = returned after l (turn ch fuel (ctx_done l) p) (sees_done l p h)
  cancelled_before (t ∷ ts) after l p h =
      cancelled_before ts after l (turn ch fuel t p) (stays_cancelled t p h)

  -- Behind a signal, a loop whose select takes the context's case has returned for good, whatever
  -- happens before and after, a start by the API included.
  pub signal_ends_loops :
      (before after : List Turn) (l : Loop) (p : Program F B W)
      → (turns ch fuel (signal ∷ (before ++ (ctx_done l ∷ after))) p).looping l ≡ false
  signal_ends_loops before after l p =
      unfold turns turn in cancelled_before before after l _ (unfold stop_bot in refl)

  alive_turn :
      (t : Turn) (p : Program F B W)
      → ((l : Loop) → p.looping l ≡ false → p.bot.cancelled ≡ true)
      → (l : Loop) → (turn ch fuel t p).looping l ≡ false
      → (turn ch fuel t p).bot.cancelled ≡ true
  unfolding turn stop_bot
  alive_turn t p h l e = ground (arith, h l)

  alive_turns :
      (ts : List Turn) (p : Program F B W)
      → ((l : Loop) → p.looping l ≡ false → p.bot.cancelled ≡ true)
      → (l : Loop) → (turns ch fuel ts p).looping l ≡ false
      → (turns ch fuel ts p).bot.cancelled ≡ true
  unfolding turns
  alive_turns [] p h = h
  alive_turns (t ∷ ts) p h = alive_turns ts (turn ch fuel t p) (alive_turn t p h)

  idle : (l : Loop) (p : Program F B W) → p.looping l ≡ false → turn ch fuel (ticker l) p ≡ p
  unfolding turn
  idle l p h = rw h refl

  -- All loops have returned: their tickers do nothing.
  tickers_idle :
      (ls : List Loop) (p : Program F B W)
      → ((l : Loop) → p.looping l ≡ false)
      → turns ch fuel (map ticker ls) p ≡ p
  unfolding turns turn
  tickers_idle [] p h = refl
  tickers_idle (l ∷ ls) p h =
      ap (turns ch fuel (map ticker ls)) (idle l p (h l)) ∙ tickers_idle ls p h

  -- A loop whose select takes the context's case behind a cancellation has returned.
  seen-returned :
      (ts : List Turn) (l : Loop) (p : Program F B W)
      → p.bot.cancelled ≡ true
      → sees_done_in l ts ≡ true
      → (turns ch fuel ts p).looping l ≡ false
  unfolding turns
  seen-returned [] l p h e = absurd (ground (arith, e))
  seen-returned (ctx_done m ∷ ts) l p h e = elim (Bool-cases (same_loop m l)) [
    | inl same ↦ returned ts l (turn ch fuel (ctx_done m) p) (unfold turn in rw (h, same) refl)
    | inr other ↦
        seen-returned ts l (turn ch fuel (ctx_done m) p) (stays_cancelled (ctx_done m) p h)
          (ground (arith, e, other))
  ]
  seen-returned (ticker m ∷ ts) l p h e =
      seen-returned ts l (turn ch fuel (ticker m) p) (stays_cancelled (ticker m) p h) e
  seen-returned (signal ∷ ts) l p h e =
      seen-returned ts l (turn ch fuel signal p) (stays_cancelled signal p h) e
  seen-returned (control c ∷ ts) l p h e =
      seen-returned ts l (turn ch fuel (control c) p) (stays_cancelled (control c) p h) e

  -- Behind a signal and any turns among which every loop's select takes the context's case, a start
  -- by the API sets the rebalancer and the status to running, and no tickers change anything any
  -- more.
  pub started_in_vain :
      (ts : List Turn) (ls : List Loop) (p : Program F B W)
      → ((l : Loop) → sees_done_in l ts ≡ true)
      → let q = turn ch fuel (control starts) (turns ch fuel (signal ∷ ts) p) in
        (q.bot.server.state.rebalancer.is_running ≡ true)
        × (q.bot.server.metrics.status ≡ "running")
        × (turns ch fuel (map ticker ls) q ≡ q)
  started_in_vain ts ls p h =
      let stopped = turns ch fuel (signal ∷ ts) p in
      let over : (l : Loop) → stopped.looping l ≡ false = λ l.
        unfold turns turn in
        seen-returned ts l (record p { bot = stop_bot ch p.bot }) (unfold stop_bot in refl) (h l) in
      (
        unfold turn handle_start update_rebalancer start in refl,
        unfold turn handle_start update_rebalancer start update_status in refl,
        tickers_idle ls (turn ch fuel (control starts) stopped) (unfold turn in over),
      )

  built_looping :
      (o : Option (Bot F B W)) (p : Program F B W) (l : Loop)
      → program_of ch o ≡ some p
      → p.looping l ≡ true
  built_looping (some bot) p l e = sym (ap_some (λ q. q.looping l) e)
  built_looping none p l e = absurd (ground arith)

  loaded_looping :
      (m : Outcome (Config F) × W) (p : Program F B W) (l : Loop)
      → loaded ch m ≡ some p
      → p.looping l ≡ true
  unfolding handle_start_bot
  loaded_looping (ok cfg, w) p l e = built_looping (new_bot ch cfg w) p l e
  loaded_looping (err er, w) p l e = absurd (ground arith)
  loaded_looping (panicked, w) p l e = absurd (ground arith)
  loaded_looping (waiting, w) p l e = absurd (ground arith)

  -- A loop of a program that `main` has started ends only once the context is cancelled.
  pub loops_until_cancelled :
      {Bytes : Type 0} (read_file : String → Act W Bytes) (unmarshal : Bytes → Act W (Config F))
      (w : W) (p : Program F B W) (ts : List Turn) (l : Loop)
      → main ch read_file unmarshal w ≡ some p
      → (turns ch fuel ts p).looping l ≡ false
      → (turns ch fuel ts p).bot.cancelled ≡ true
  unfolding main
  loops_until_cancelled read_file unmarshal w p ts l e =
      alive_turns ts p (λ l' over. absurd (true_not_false (sym (loaded_looping _ p l' e) ∙ over))) l
