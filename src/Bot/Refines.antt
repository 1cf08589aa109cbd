-- ===== src/Bot/Refines.antt =====
-- The bot of main.go as a controller of two switches: whether the rebalancer runs, and whether the
-- circuit breaker is active.
use mathlib.Core.Path.{subst}
use stablecoin_mmm.Base.{
  ℕ, ◌≡◌, refl, ap, ◌∙◌, inl, inr, Bool, true, false, List, [], ◌∷◌, ◌-◌, ◌==◌, arith, Bool-cases,
}
use stablecoin_mmm.Base.Float.{Float, BigFloat}
use stablecoin_mmm.Base.Act.{
  Outcome, Result, value, error, ok, err, panicked, waiting, and_then, caught,
}
use stablecoin_mmm.Base.Settles.{ends_caught}
use stablecoin_mmm.Chain.{Chain}
use stablecoin_mmm.Risk.{is_circuit_breaker_active}
use stablecoin_mmm.Rebalancer.Core.{start, stop}
use stablecoin_mmm.Rebalancer.Core as R
use stablecoin_mmm.Rebalancer.Guard.{execute_rebalance_stopped}
use stablecoin_mmm.Rebalancer.Keeps.{execute_rebalance_keeps}
use stablecoin_mmm.Uniswap.{PriceOracle, PriceInfo, get_price_info}
use stablecoin_mmm.Api.Server.{Server, on_chain}
use stablecoin_mmm.Api.Handlers.{update_rebalancer, handle_start, handle_stop, handle_rebalance}
use stablecoin_mmm.Bot.Core.{
  update_prices_tick, execute_rebalance_tick, check_alerts_tick, run_rebalance, run_pending,
  after_rebalance, with_prices,
}
use stablecoin_mmm.Bot.Machine.{
  price_tick, rebalance_tick, monitor_tick, stop_request, rebalance_request,
}
use stablecoin_mmm.Bot.Moves.{Move, event, start_request, background, move, moves}

-- Whether it runs, and whether the breaker is active.
abbrev pub Controller : Type 0
Controller = Bool × Bool

pub data Rebalances : Move → Type 0 where
  by_loop : Rebalances (event rebalance_tick)
  in_background : Rebalances background

-- What each move may do. A rebalance may trip or release the breaker, and only while it runs; the
-- monitor stops a controller whose breaker is active, and no other.
pub data Step : Move → Controller → Controller → Type 0 where
  reads_prices : {c : Controller} → Step (event price_tick) c c
  requests : {c : Controller} → Step (event rebalance_request) c c
  starts : {running breaker : Bool} → Step start_request (running, breaker) (true, breaker)
  stops : {running breaker : Bool} → Step (event stop_request) (running, breaker) (false, breaker)
  watches : {running : Bool} → Step (event monitor_tick) (running, false) (running, false)
  halts : {running : Bool} → Step (event monitor_tick) (running, true) (false, true)
  idles : {m : Move} {breaker : Bool} → Rebalances m → Step m (false, breaker) (false, breaker)
  declines : {c : Controller} → Step background c c
  checks :
      {m : Move} {breaker breaker' : Bool} → Rebalances m → Step m (true, breaker) (true, breaker')

pub data Steps : List Move → Controller → Controller → Type 0 where
  done : {c : Controller} → Steps [] c c
  next :
      {m : Move} {ms : List Move} {c c' c'' : Controller}
      → Step m c c'
      → Steps ms c' c''
      → Steps (m ∷ ms) c c''

running_checks :
    {m : Move} (c c' : Controller) → Rebalances m → c.0 ≡ true → c'.0 ≡ true → Step m c c'
running_checks (true, b) (true, b') r e e' = checks r
running_checks (true, b) (false, b') r e e' = absurd (ground arith)
running_checks (false, b) c' r e e' = absurd (ground arith)

stopped_idles : {m : Move} (c : Controller) → Rebalances m → c.0 ≡ false → Step m c c
stopped_idles (false, b) r e = idles r
stopped_idles (true, b) r e = absurd (ground arith)

abbrev pub view : {F B W : Type 0} → Server F B W → Controller
view s = (s.state.rebalancer.is_running, s.state.risk.is_circuit_breaker)

module _ {F B W : Type 0} ⦃f : Float F⦄ ⦃b : BigFloat F B⦄ (ch : Chain W) (fuel : ℕ)
    (oracle : PriceOracle F) where
  run_rebalance-Step :
      {m : Move}
      → Rebalances m
      → (s : Server F B W) → Step m (view s) (view (run_rebalance ch fuel s).1)
  unfolding run_rebalance
  run_rebalance-Step r s = elim (Bool-cases s.state.rebalancer.is_running) [
    | inl on ↦
        running_checks (view s) _ r on
          (ap (λ c. c.is_running) (execute_rebalance_keeps ch fuel s.state).0 ∙ on)
    | inr off ↦ rw (execute_rebalance_stopped ch fuel s.state off) (stopped_idles (view s) r off)
  ]

  price_view :
      (m : Outcome (PriceInfo B) × W) (s : Server F B W)
      → view s
        ≡ view
            (and_then (caught (on_chain (λ _. m) s)) (λ r t. (ok (tt {0}), with_prices ch r t))).1
  unfolding and_then caught on_chain update_rebalancer R.update_prices
  price_view (ok i, w) s = refl
  price_view (err e, w) s = refl
  price_view (panicked, w) s = refl
  price_view (waiting, w) s = refl

  after_view : (r : Result (Unit {0})) (s : Server F B W) → view s ≡ view (after_rebalance ch r s).1
  after_view (error e) s = refl
  after_view (value u) s = refl

  check_alerts_tick-Step :
      (s : Server F B W) → Step (event monitor_tick) (view s) (view (check_alerts_tick ch s))
  unfolding check_alerts_tick update_rebalancer stop is_circuit_breaker_active
  check_alerts_tick-Step s = elim (Bool-cases s.state.risk.is_circuit_breaker) [
    | inl active ↦ rw active halts
    | inr calm ↦ rw calm watches
  ]

  pub move-Step : (m : Move) (s : Server F B W) → Step m (view s) (view (move ch fuel oracle m s))
  move-Step (event price_tick) s =
      unfold update_prices_tick on_chain in
      subst (Step (event price_tick) (view s))
        (price_view (get_price_info ch oracle s.state.world) s) reads_prices
  move-Step (event rebalance_tick) s =
      unfold execute_rebalance_tick in
      ends_caught (λ t. Step (event rebalance_tick) (view s) (view t)) _ (run_rebalance ch fuel s)
        (run_rebalance-Step by_loop s)
        (λ r t p. subst (Step (event rebalance_tick) (view s)) (after_view r t) p)
  move-Step (event monitor_tick) s = check_alerts_tick-Step s
  move-Step (event stop_request) s = unfold handle_stop update_rebalancer stop in stops
  move-Step (event rebalance_request) s = elim (Bool-cases s.state.rebalancer.is_running) [
    | inl on ↦ unfold handle_rebalance in rw on requests
    | inr off ↦ unfold handle_rebalance in rw off requests
  ]
  move-Step start_request s = unfold handle_start update_rebalancer start in starts
  move-Step background s = elim (Bool-cases (s.pending == 0)) [
    | inl empty ↦ unfold run_pending in rw empty declines
    | inr some_left ↦
        unfold run_pending in
        rw some_left (run_rebalance-Step in_background (record s { pending = s.pending - 1 }))
  ]

  -- Every sequence of ticks, requests and background rebalances is a run of the controller: only a
  -- start switches it on, only a stop or a monitor tick under an active breaker switches it off, and
  -- the breaker changes only in a rebalance while it runs.
  pub moves_refine :
      (ms : List Move) (s : Server F B W) → Steps ms (view s) (view (moves ch fuel oracle ms s))
  moves_refine [] s = done
  moves_refine (m ∷ ms) s = next (move-Step m s) (moves_refine ms (move ch fuel oracle m s))
