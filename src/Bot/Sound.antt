-- ===== src/Bot/Sound.antt =====
-- What holds of the bot of main.go in every order of its ticks and requests, starts included.
use mathlib.Core.Path.{subst}
use stablecoin_mmm.Base.{
  ℕ, String, ◌≡◌, refl, sym, ap, ◌∙◌, ◌⊎◌, inl, inr, Bool, true, false, Option, List, [], ◌∷◌, not,
  Bool-cases,
}
use stablecoin_mmm.Base.Float.{Float, BigFloat}
use stablecoin_mmm.Base.Act.{value}
use stablecoin_mmm.Config.{Config}
use stablecoin_mmm.Chain.{Chain}
use stablecoin_mmm.Risk.{RiskEngine}
use stablecoin_mmm.Risk.Breaker.{IsConsistent, check, apply-IsConsistent, check_risk_refines_timer}
use stablecoin_mmm.Executor.Core.{Executor}
use stablecoin_mmm.Monitor.{update_status, update_prices, update_last_rebalance}
use stablecoin_mmm.Rebalancer.Core.{Rebalancer, State, new_rebalancer, start, stop}
use stablecoin_mmm.Rebalancer.Core as R
use stablecoin_mmm.Rebalancer.Rules.{should_rebalance}
use stablecoin_mmm.Rebalancer.Actions.{execute_rebalance}
use stablecoin_mmm.Rebalancer.Keeps.{conduct, execute_rebalance_keeps, should_rebalance_risk}
use stablecoin_mmm.Uniswap.{PriceOracle}
use stablecoin_mmm.Api.Server.{Server}
use stablecoin_mmm.Api.Handlers.{update_rebalancer}
use stablecoin_mmm.Bot.Core.{run_rebalance, with_prices}
use stablecoin_mmm.Api.ReadOnly.{in_world}
use stablecoin_mmm.Bot.Inputs.{
  Input, IsClosed, BearsStart, starts, starts_in, input, inputs, switched_on, input-closed,
  inputs-closed,
}

-- The status that the API reports agrees with the rebalancer; it is empty only while the rebalancer
-- runs as the bot has started it.
abbrev pub StatusAgrees : Bool → String → Bool → Type 0
StatusAgrees unasked status is_running =
    ((status ≡ "") × (is_running ≡ true) × (unasked ≡ true))
    ⊎ ((status ≡ "running") × (is_running ≡ true))
    ⊎ ((status ≡ "stopped") × (is_running ≡ false))
    ⊎ ((status ≡ "circuit_breaker") × (is_running ≡ false))

-- The parts share one configuration, the breaker is active or has no start, and the status agrees.
-- `unasked`: no request to start has come.
pub record IsSound {F B W : Type 0} (cfg : Config F) (exec : Option (Executor F)) (unasked : Bool)
    (s : Server F B W) : Type 0 where
  pub server_cfg : s.cfg ≡ cfg
  pub rebalancer_cfg : s.state.rebalancer.cfg ≡ cfg
  pub risk_cfg : s.state.risk.cfg ≡ cfg
  pub executor : s.state.rebalancer.executor ≡ exec
  pub breaker : IsConsistent s.state.risk
  pub status : StatusAgrees unasked s.metrics.status s.state.rebalancer.is_running

-- All that soundness looks at but the status.
abbrev looked :
    {F B W : Type 0} → Server F B W → Config F × Config F × RiskEngine F × Option (Executor F)
looked s = let r = s.state.rebalancer in (s.cfg, r.cfg, s.state.risk, r.executor)

module _ {F B W : Type 0} ⦃f : Float F⦄ ⦃b : BigFloat F B⦄ (ch : Chain W) (fuel : ℕ)
    (oracle : PriceOracle F) where
  module _ (cfg : Config F) (exec : Option (Executor F)) (unasked : Bool) where
    -- A state whose rebalancer is the same but for its times, with a sound engine.
    IsSound-state :
        (s : Server F B W) (t : State F B W)
        → IsSound cfg exec unasked s
        → conduct t.rebalancer ≡ conduct s.state.rebalancer
        → t.risk.cfg ≡ s.state.risk.cfg
        → IsConsistent t.risk
        → IsSound cfg exec unasked (record s { state = t })
    IsSound-state s t h same risk_same consistent = record {
      server_cfg = h.server_cfg;
      rebalancer_cfg = ap (λ r. r.cfg) same ∙ h.rebalancer_cfg;
      risk_cfg = risk_same ∙ h.risk_cfg;
      executor = ap (λ r. r.executor) same ∙ h.executor;
      breaker = consistent;
      status =
          subst (StatusAgrees unasked s.metrics.status) (sym (ap (λ r. r.is_running) same))
            h.status;
    }

    -- What the decision leaves of the engine is sound if it was.
    decision-risk :
        (t : State F B W)
        → IsConsistent t.risk
        → ((should_rebalance ch t).1.risk.cfg ≡ t.risk.cfg)
          × IsConsistent (should_rebalance ch t).1.risk
    decision-risk t consistent =
        let r = t.rebalancer in
        let now = (ch.now (ch.now t.world).1).0 in
        let ref = r.cfg.oracle.ref_price in
        elim (should_rebalance_risk ch fuel t) [
          | inl same ↦ (ap (λ e. e.cfg) same, subst IsConsistent (sym same) consistent)
          | inr checked ↦ (
            ap (λ e. e.cfg) checked
                ∙ (check_risk_refines_timer now r.current_price r.twap_price ref t.risk).1.cfg,
            subst IsConsistent (sym checked) (
                apply-IsConsistent
                  (check (record {
                    now = now;
                    current = r.current_price;
                    twap = r.twap_price;
                    ref = ref;
                  }))
                  t.risk consistent),
          )
        ]

    rebalance-IsSound :
        (s : Server F B W)
        → IsSound cfg exec unasked s
        → IsSound cfg exec unasked (run_rebalance ch fuel s).1
    unfolding run_rebalance
    rebalance-IsSound s h =
        let (same, risk) = execute_rebalance_keeps ch fuel s.state in
        let (risk_cfg, consistent) = decision-risk s.state h.breaker in
        IsSound-state s (execute_rebalance ch fuel s.state).1 h same
          (ap (λ e. e.cfg) risk ∙ risk_cfg) (subst IsConsistent (sym risk) consistent)

    -- The parts that soundness looks at, the status apart, are those of a sound server.
    IsSound-same :
        (s t : Server F B W)
        → IsSound cfg exec unasked s
        → looked t ≡ looked s
        → StatusAgrees unasked t.metrics.status t.state.rebalancer.is_running
        → IsSound cfg exec unasked t
    IsSound-same s t h same agrees = record {
      server_cfg = ap (λ l. l.0) same ∙ h.server_cfg;
      rebalancer_cfg = ap (λ l. l.1) same ∙ h.rebalancer_cfg;
      risk_cfg = ap (λ l. l.2.cfg) same ∙ h.risk_cfg;
      executor = ap (λ l. l.3) same ∙ h.executor;
      breaker = subst IsConsistent (sym (ap (λ l. l.2) same)) h.breaker;
      status = agrees;
    }

    IsSound-closed : IsClosed {B = B} ch fuel oracle (IsSound cfg exec unasked)
    unfolding update_status update_rebalancer R.update_prices update_prices update_last_rebalance
    IsSound-closed = record {
      read = λ s h. IsSound-same s (in_world s _) h refl h.status;
      served = λ r s w e h. IsSound-same s (in_world s w) h refl h.status;
      priced = λ s w i e h. IsSound-same s (with_prices ch (value i) s) h refl h.status;
      rebalanced = rebalance-IsSound;
      noted = λ s t h. IsSound-same s _ h refl h.status;
      stopped = λ s h. IsSound-same s _ h refl (inr (inr (inl (refl, refl))));
      halted = λ s h. IsSound-same s _ h refl (inr (inr (inr (refl, refl))));
      counted = λ s n h. IsSound-same s (record s { pending = n }) h refl h.status;
    }

    IsSound-started : BearsStart {B = B} ch fuel oracle (IsSound cfg exec unasked)
    unfolding update_status
    IsSound-started s h = IsSound-same s _ h refl (inr (inl (refl, refl)))

  module _ (cfg : Config F) (exec : Option (Executor F)) where
    -- A request to start leaves a status that is not empty.
    asked-IsSound :
        (i : Input F) (s : Server F B W)
        → starts i ≡ true
        → IsSound cfg exec true s
        → IsSound cfg exec false (input ch fuel oracle i s)
    unfolding update_status
    asked-IsSound i s e h = rw (switched_on ch fuel oracle i s e) (record {
      server_cfg = h.server_cfg;
      rebalancer_cfg = h.rebalancer_cfg;
      risk_cfg = h.risk_cfg;
      executor = h.executor;
      breaker = h.breaker;
      status = inr (inl (refl, refl));
    })

    pub inputs-IsSound :
        (is : List (Input F)) (s : Server F B W)
        → IsSound cfg exec true s
        → IsSound cfg exec (not (starts_in is)) (inputs ch fuel oracle is s)
    inputs-IsSound [] s h = h
    inputs-IsSound (i ∷ is) s h = elim (Bool-cases (starts i)) [
      | inl start ↦ rw start (
          inputs-closed ch fuel oracle (IsSound cfg exec false) (IsSound-closed cfg exec false)
            (IsSound-started cfg exec false) is (input ch fuel oracle i s)
            (asked-IsSound i s start h))
      | inr other ↦ rw other (
          inputs-IsSound is (input ch fuel oracle i s) (
            input-closed ch fuel oracle (IsSound cfg exec true) (IsSound-closed cfg exec true) i s
              (λ e. IsSound-started cfg exec true) h))
    ]
