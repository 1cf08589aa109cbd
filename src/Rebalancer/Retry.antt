-- ===== src/Rebalancer/Retry.antt =====
-- The retries of `ExecuteStabilization` in pkg/rebalancer/service.go.
use stablecoin_mmm.Base.{ℕ, zero, suc, ◌+◌, ◌<◌, ◌≡◌, ◌↔◌, refl, ◌∙◌, Option, none, some, arith}
use stablecoin_mmm.Base.Float.{Float, BigFloat}
use stablecoin_mmm.Base.Act.{Outcome, ok, err, panicked, waiting, GoError, and_then, caught}
use stablecoin_mmm.Chain.{Chain}
use stablecoin_mmm.Executor.Core.{Executor}
use stablecoin_mmm.Rebalancer.Core.{State}
use stablecoin_mmm.Rebalancer.Actions.{do_stabilization, pause, after_attempt, attempts}

module _ {F B W : Type 0} ⦃f : Float F⦄ ⦃b : BigFloat F B⦄ (ch : Chain W) (fuel : ℕ)
    (exec : Executor F) where
  -- From the attempt of that number on, n attempts fail with an error, each followed by its pause,
  -- and the next one succeeds.
  abbrev pub SucceedsAfter : ℕ → ℕ → State F B W → State F B W → Type 0
  SucceedsAfter zero attempt s t = do_stabilization ch fuel exec s ≡ (ok tt, t)
  SucceedsAfter (suc n) attempt s t =
      (e : GoError) × (s' : State F B W) × (do_stabilization ch fuel exec s ≡ (err e, s'))
      × SucceedsAfter n (attempt + 1) (pause ch attempt s') t

  retry_succeeds :
      (n left attempt : ℕ) (last : Option GoError) (s t : State F B W)
      → SucceedsAfter n attempt s t
      → n < left
      → attempts ch left attempt fuel exec last s ≡ (ok tt, t)
  unfolding attempts and_then caught
  retry_succeeds n zero attempt last s t h lt = absurd (omega arith)
  retry_succeeds zero (suc left) attempt last s t h lt = rw h
  retry_succeeds (suc n) (suc left) attempt last s t (e, s', failed, rest) lt =
      rw failed (retry_succeeds n left (attempt + 1) (some e) _ t rest (omega arith))

  Tries : ℕ → ℕ → State F B W → State F B W → Type 0
  Tries left attempt s t = (n : ℕ) × (n < left) × SucceedsAfter n attempt s t

  retry_step :
      (left attempt : ℕ) (m : Outcome (Unit {0}) × State F B W) (s t : State F B W)
      → do_stabilization ch fuel exec s ≡ m
      → ((e : GoError) (v : State F B W)
          → attempts ch left (attempt + 1) fuel exec (some e) v ≡ (ok tt, t)
          → Tries left (attempt + 1) v t)
      → and_then (caught m) (
          after_attempt ch
            (λ e v. attempts ch left (attempt + 1) fuel exec (some e) (pause ch attempt v)))
        ≡ (ok tt, t)
      → Tries (suc left) attempt s t
  unfolding Tries and_then caught
  retry_step left attempt (ok u, v) s t e ih h = (0, omega arith, e ∙ h)
  retry_step left attempt (err g, v) s t e ih h =
      let (n, lt, rest) = ih g _ h in (suc n, omega arith, (g, v, e, rest))
  retry_step left attempt (panicked, v) s t e ih h = absurd (ground arith)
  retry_step left attempt (waiting, v) s t e ih h = absurd (ground arith)

  retry_inverts :
      (left attempt : ℕ) (last : Option GoError) (s t : State F B W)
      → attempts ch left attempt fuel exec last s ≡ (ok tt, t)
      → Tries left attempt s t
  unfolding attempts
  retry_inverts zero attempt last s t h = absurd (ground arith)
  retry_inverts (suc left) attempt last s t h =
      retry_step left attempt (do_stabilization ch fuel exec s) s t refl
        (λ e v. retry_inverts left (attempt + 1) (some e) v t) h

  -- The retried stabilization succeeds exactly when one of its first three attempts does, each one
  -- before it having failed with an error and been followed by its pause; it ends in the state of
  -- the attempt that succeeded. A panic is not retried.
  pub attempts_iff :
      (s t : State F B W)
      → (attempts ch 3 1 fuel exec none s ≡ (ok tt, t))
        ↔ ((n : ℕ) × (n < 3) × SucceedsAfter n 1 s t)
  unfolding Tries
  attempts_iff s t = (retry_inverts 3 1 none s t, λ h. retry_succeeds h.0 3 1 none s t h.2 h.1)
