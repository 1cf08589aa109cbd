-- ===== src/Bot/Inputs.antt =====
-- Everything that reaches the bot of main.go: the moves of Bot/Moves and every request of
-- pkg/api/service.go. A handler that panics is recovered by gin, with the state it had reached.
mod Examples
use stablecoin_mmm.Base.{
  ℕ, ◌≡◌, refl, ◌||◌, ◌-◌, ◌+◌, ◌==◌, inl, inr, not, some, Bool, true, false, Bool-cases, String,
  List, [], ◌∷◌, arith,
}
use mathlib.Core.Path.{subst}
use stablecoin_mmm.Base.{sym, ap}
use stablecoin_mmm.Base.Int.{ℤ}
use stablecoin_mmm.Base.Float.{Float, BigFloat}
use stablecoin_mmm.Base.Act.{
  Outcome, ok, err, panicked, waiting, Result, value, error, and_then, caught,
}
use stablecoin_mmm.Base.Settles.{ends_caught, ends_if}
use stablecoin_mmm.Chain.{Chain}
use stablecoin_mmm.Risk.{is_circuit_breaker_active}
use stablecoin_mmm.Monitor.{check_alerts, update_status, update_last_rebalance}
use stablecoin_mmm.Rebalancer.Core.{start, stop}
use stablecoin_mmm.Uniswap.{PriceOracle, PriceInfo, get_price_info}
use stablecoin_mmm.Api.Server.{Server, on_chain}
use stablecoin_mmm.Api.Handlers.{
  update_rebalancer, handle_start, handle_stop, handle_rebalance, handle_alerts,
}
use stablecoin_mmm.Api.ReadOnly.{in_world}
use stablecoin_mmm.Api.Effects.{controls, serve-OnlyWorld}
use stablecoin_mmm.Api.Routes.{
  Request, to_health, to_metrics, to_positions, to_risk, to_rebalance, to_start, to_stop, to_alerts,
  to_balance, to_status, to_create_pool, to_add_liquidity, to_swap, serve,
}
use stablecoin_mmm.Bot.Core.{
  update_prices_tick, execute_rebalance_tick, check_alerts_tick, run_rebalance, run_pending,
  after_rebalance, with_prices,
}
use stablecoin_mmm.Bot.Machine.{
  price_tick, rebalance_tick, monitor_tick, stop_request, rebalance_request,
}
use stablecoin_mmm.Bot.Moves.{Move, event, start_request, background, move}

pub data Input (F : Type 0) : Type 0 where
  moved : Move → Input F
  asked : Request F → Input F

-- The inputs that start the rebalancer.
abbrev pub starts : {F : Type 0} → Input F → Bool
starts (moved start_request) = true
starts (moved background) = false
starts (moved (event e)) = false
starts (asked to_start) = true
starts (asked to_health) = false
starts (asked to_metrics) = false
starts (asked to_positions) = false
starts (asked to_risk) = false
starts (asked to_rebalance) = false
starts (asked to_stop) = false
starts (asked to_alerts) = false
starts (asked to_balance) = false
starts (asked (to_status order)) = false
starts (asked (to_create_pool r)) = false
starts (asked (to_add_liquidity r)) = false
starts (asked (to_swap r)) = false

abbrev pub starts_in : {F : Type 0} → List (Input F) → Bool
starts_in [] = false
starts_in (i ∷ is) = starts i || starts_in is

module _ {F B W : Type 0} ⦃f : Float F⦄ ⦃b : BigFloat F B⦄ (ch : Chain W) (fuel : ℕ)
    (oracle : PriceOracle F) where
  abbrev pub input : Input F → Server F B W → Server F B W
  input (moved m) s = move ch fuel oracle m s
  input (asked r) s = (serve ch fuel r s).1

  abbrev pub inputs : List (Input F) → Server F B W → Server F B W
  inputs [] s = s
  inputs (i ∷ is) s = inputs is (input i s)

  -- The rebalancer is switched, and the status says so.
  abbrev pub switch : Bool → String → Server F B W → Server F B W
  switch on text s =
      let st = s.state in
      let r = st.rebalancer in
      record s {
        state = record st { rebalancer = record r { is_running = on } };
        metrics = update_status text s.metrics;
      }

  -- An input that starts the rebalancer switches it on, with the status, and does nothing else.
  pub switched_on :
      (i : Input F) (s : Server F B W) → starts i ≡ true → input i s ≡ switch true "running" s
  unfolding serve handle_start update_rebalancer start
  switched_on (moved start_request) s e = refl
  switched_on (moved background) s e = absurd (ground (arith, e))
  switched_on (moved (event m)) s e = absurd (ground (arith, e))
  switched_on (asked to_start) s e = refl
  switched_on (asked to_health) s e = absurd (ground (arith, e))
  switched_on (asked to_metrics) s e = absurd (ground (arith, e))
  switched_on (asked to_positions) s e = absurd (ground (arith, e))
  switched_on (asked to_risk) s e = absurd (ground (arith, e))
  switched_on (asked to_rebalance) s e = absurd (ground (arith, e))
  switched_on (asked to_stop) s e = absurd (ground (arith, e))
  switched_on (asked to_alerts) s e = absurd (ground (arith, e))
  switched_on (asked to_balance) s e = absurd (ground (arith, e))
  switched_on (asked (to_status o)) s e = absurd (ground (arith, e))
  switched_on (asked (to_create_pool r)) s e = absurd (ground (arith, e))
  switched_on (asked (to_add_liquidity r)) s e = absurd (ground (arith, e))
  switched_on (asked (to_swap r)) s e = absurd (ground (arith, e))

  -- What a property must bear so that no input but a start breaks it. A price is one that the oracle
  -- reports.
  pub record IsClosed (P : Server F B W → Type 0) : Type 0 where
    pub read :
        (s : Server F B W) → P s → P (in_world s (get_price_info {B = B} ch oracle s.state.world).1)
    pub served :
        (r : Request F) (s : Server F B W) (w : W)
        → (serve ch fuel r s).1 ≡ in_world s w
        → P s
        → P (in_world s w)
    pub priced :
        (s : Server F B W) (w : W) (i : PriceInfo B)
        → (get_price_info ch oracle w).0 ≡ ok i
        → P s
        → P (with_prices ch (value i) s)
    pub rebalanced : (s : Server F B W) → P s → P (run_rebalance ch fuel s).1
    pub noted :
        (s : Server F B W) (t : ℤ)
        → P s
        → P (record s { metrics = update_last_rebalance t s.metrics })
    pub stopped : (s : Server F B W) → P s → P (switch false "stopped" s)
    pub halted : (s : Server F B W) → P s → P (switch false "circuit_breaker" s)
    pub counted : (s : Server F B W) (n : ℕ) → P s → P (record s { pending = n })

  -- A start does not break it either.
  abbrev pub BearsStart : (Server F B W → Type 0) → Type 0
  BearsStart P = (s : Server F B W) → P s → P (switch true "running" s)

  module _ (P : Server F B W → Type 0) (c : IsClosed P) where
    price_tick-closed :
        (m : Outcome (PriceInfo B) × W) (s : Server F B W)
        → get_price_info ch oracle s.state.world ≡ m
        → P (in_world s m.1)
        → P (and_then (caught (on_chain (λ _. m) s)) (λ r t. (ok (tt {0}), with_prices ch r t))).1
    unfolding and_then caught on_chain
    price_tick-closed (ok i, w) s e p = c.priced (in_world s w) s.state.world i (ap (λ m. m.0) e) p
    price_tick-closed (err g, w) s e p = p
    price_tick-closed (panicked, w) s e p = p
    price_tick-closed (waiting, w) s e p = p

    after_rebalance-closed :
        (r : Result (Unit {0})) (s : Server F B W) → P s → P (after_rebalance ch r s).1
    after_rebalance-closed (error e) s p = p
    after_rebalance-closed (value u) s p = c.noted s s.state.rebalancer.last_rebalance p

    move-closed :
        (m : Move) (s : Server F B W)
        → (starts {F = F} (moved m) ≡ true → BearsStart P)
        → P s
        → P (move ch fuel oracle m s)
    move-closed (event price_tick) s b p =
        unfold update_prices_tick on_chain in
        price_tick-closed (get_price_info ch oracle s.state.world) s refl (c.read s p)
    move-closed (event rebalance_tick) s b p =
        unfold execute_rebalance_tick in
        ends_caught P _ (run_rebalance ch fuel s) (c.rebalanced s p) after_rebalance-closed
    move-closed (event monitor_tick) s b p =
        let w = (check_alerts ch (some s.state.risk) s.metrics s.state.world).1 in
        let q : P (in_world s w) = c.served to_alerts s w (unfold serve handle_alerts in refl) p in
        elim (Bool-cases (is_circuit_breaker_active s.state.risk)) [
          | inl active ↦
              unfold check_alerts_tick update_rebalancer stop in
              rw active (c.halted (in_world s w) q)
          | inr calm ↦ unfold check_alerts_tick in rw calm q
        ]
    move-closed (event stop_request) s b p =
        unfold handle_stop update_rebalancer stop in c.stopped s p
    move-closed (event rebalance_request) s b p =
        unfold handle_rebalance in
        ends_if P (not s.state.rebalancer.is_running) _ _ p (c.counted s (s.pending + 1) p)
    move-closed start_request s b p = unfold handle_start update_rebalancer start in b refl s p
    move-closed background s b p = elim (Bool-cases (s.pending == 0)) [
      | inl none_left ↦ unfold run_pending in rw none_left p
      | inr some_left ↦
          unfold run_pending in
          rw some_left
            (c.rebalanced (record s { pending = s.pending - 1 }) (c.counted s (s.pending - 1) p))
    ]

    uncontrolled-closed :
        (r : Request F) (s : Server F B W) → controls r ≡ false → P s → P (serve ch fuel r s).1
    uncontrolled-closed r s h p =
        let (w, e) = serve-OnlyWorld ch fuel r s h in subst P (sym e) (c.served r s w e p)

    serve-closed :
        (r : Request F) (s : Server F B W)
        → (starts (asked r) ≡ true → BearsStart P)
        → P s
        → P (serve ch fuel r s).1
    serve-closed to_rebalance s b p = unfold serve in move-closed (event rebalance_request) s b p
    serve-closed to_start s b p = unfold serve in move-closed start_request s b p
    serve-closed to_stop s b p = unfold serve in move-closed (event stop_request) s b p
    serve-closed to_health s b p = uncontrolled-closed to_health s (unfold controls in refl) p
    serve-closed to_metrics s b p = uncontrolled-closed to_metrics s (unfold controls in refl) p
    serve-closed to_positions s b p = uncontrolled-closed to_positions s (unfold controls in refl) p
    serve-closed to_risk s b p = uncontrolled-closed to_risk s (unfold controls in refl) p
    serve-closed to_alerts s b p = uncontrolled-closed to_alerts s (unfold controls in refl) p
    serve-closed to_balance s b p = uncontrolled-closed to_balance s (unfold controls in refl) p
    serve-closed (to_status o) s b p =
        uncontrolled-closed (to_status o) s (unfold controls in refl) p
    serve-closed (to_create_pool r) s b p =
        uncontrolled-closed (to_create_pool r) s (unfold controls in refl) p
    serve-closed (to_add_liquidity r) s b p =
        uncontrolled-closed (to_add_liquidity r) s (unfold controls in refl) p
    serve-closed (to_swap r) s b p = uncontrolled-closed (to_swap r) s (unfold controls in refl) p

    pub input-closed :
        (i : Input F) (s : Server F B W) → (starts i ≡ true → BearsStart P) → P s → P (input i s)
    input-closed (moved m) s b p = move-closed m s b p
    input-closed (asked r) s b p = serve-closed r s b p

    pub inputs-closed :
        BearsStart P → (is : List (Input F)) (s : Server F B W) → P s → P (inputs is s)
    inputs-closed b [] s p = p
    inputs-closed b (i ∷ is) s p = inputs-closed b is (input i s) (input-closed i s (λ _. b) p)

    -- Inputs without a start.
    pub quiet-closed :
        (is : List (Input F)) (s : Server F B W) → starts_in is ≡ false → P s → P (inputs is s)
    quiet-closed [] s h p = p
    quiet-closed (i ∷ is) s h p =
        quiet-closed is (input i s) (ground (arith, h))
          (input-closed i s (λ e. absurd (ground (arith, h, e))) p)
