-- ===== src/Executor/Receipts.antt =====
-- `waitForReceipt` of pkg/executor/service.go: its poll and its fuel.
use mathlib.Core.Path.{subst}
use stablecoin_mmm.Base.{ℕ, zero, suc, ◌<◌, ◌≡◌, refl, sym, ◌∙◌, ◌↔◌, arith}
use stablecoin_mmm.Base.Int.{pos}
use stablecoin_mmm.Base.Time.{second, times}
use stablecoin_mmm.Base.Act.{Outcome, ok, err, panicked, waiting, GoError, not_found}
use stablecoin_mmm.Chain.{Tx, Receipt, Chain}
use stablecoin_mmm.Executor.Core.{after_poll, wait_for_receipt}

-- An outcome at which the poll stops: a receipt, a panic, or an error other than "not found".
abbrev pub IsAnswer : {W : Type 0} → Outcome Receipt × W → Type 0
IsAnswer (err not_found, w) = ⊥
IsAnswer (err (GoError.external k), w) = Unit
IsAnswer (err (GoError.message s), w) = Unit
IsAnswer (err (GoError.wrap s g), w) = Unit
IsAnswer (ok r, w) = Unit
IsAnswer (panicked, w) = Unit
IsAnswer (waiting, w) = ⊥

module _ {W : Type 0} (ch : Chain W) (tx : Tx) where
  -- The first n polls find nothing, with a sleep of two seconds after each; the next one answers.
  abbrev pub AnswersAfter : ℕ → W → Outcome Receipt × W → Type 0
  AnswersAfter zero w o = (ch.transaction_receipt tx w ≡ o) × IsAnswer o
  AnswersAfter (suc n) w o =
      (w' : W) × (ch.transaction_receipt tx w ≡ (err not_found, w'))
      × AnswersAfter n (ch.sleep (times (pos 2) second) w') o

  after_answer :
      (again : W → Outcome Receipt × W) (o : Outcome Receipt × W)
      → IsAnswer o
      → after_poll again o ≡ o
  after_answer again (err not_found, w) h = absurd h
  after_answer again (err (GoError.external k), w) h = refl
  after_answer again (err (GoError.message s), w) h = refl
  after_answer again (err (GoError.wrap s g), w) h = refl
  after_answer again (ok r, w) h = refl
  after_answer again (panicked, w) h = refl
  after_answer again (waiting, w) h = absurd h

  enough_fuel :
      (n fuel : ℕ) (w : W) (o : Outcome Receipt × W)
      → AnswersAfter n w o
      → n < fuel
      → wait_for_receipt ch fuel tx w ≡ o
  unfolding wait_for_receipt
  enough_fuel n zero w o a h = absurd (omega arith)
  enough_fuel zero (suc fuel) w o (e, a) h = rw e (after_answer _ o a)
  enough_fuel (suc n) (suc fuel) w o (w', e, a) h = rw e (enough_fuel n fuel _ o a (omega arith))

  Stops : ℕ → W → Outcome Receipt × W → Type 0
  Stops fuel w o = (n : ℕ) × (n < fuel) × AnswersAfter n w o

  wait_step :
      (fuel : ℕ) (w : W) (m o : Outcome Receipt × W)
      → ch.transaction_receipt tx w ≡ m
      → IsAnswer o
      → ((v : W) → wait_for_receipt ch fuel tx v ≡ o → Stops fuel v o)
      → after_poll (λ v. wait_for_receipt ch fuel tx (ch.sleep (times (pos 2) second) v)) m ≡ o
      → Stops (suc fuel) w o
  unfolding Stops
  wait_step fuel w (err not_found, v) o e a ih h =
      let (n, lt, rest) = ih _ h in (suc n, omega arith, (v, e, rest))
  wait_step fuel w (err (GoError.external k), v) o e a ih h = (0, omega arith, (e ∙ h, a))
  wait_step fuel w (err (GoError.message s), v) o e a ih h = (0, omega arith, (e ∙ h, a))
  wait_step fuel w (err (GoError.wrap s g), v) o e a ih h = (0, omega arith, (e ∙ h, a))
  wait_step fuel w (ok r, v) o e a ih h = (0, omega arith, (e ∙ h, a))
  wait_step fuel w (panicked, v) o e a ih h = (0, omega arith, (e ∙ h, a))
  wait_step fuel w (waiting, v) o e a ih h = (0, omega arith, (e ∙ h, a))

  wait-Stops :
      (fuel : ℕ) (w : W) (o : Outcome Receipt × W)
      → IsAnswer o
      → wait_for_receipt ch fuel tx w ≡ o
      → Stops fuel w o
  unfolding wait_for_receipt
  wait-Stops zero w o a h = absurd (subst IsAnswer (sym h) a)
  wait-Stops (suc fuel) w o a h =
      wait_step fuel w (ch.transaction_receipt tx w) o refl a (λ v. wait-Stops fuel v o a) h

  -- The poll ends in a given answer exactly when that answer is the first one, after fewer fruitless
  -- polls than the fuel: enough fuel always gives it, and nothing else is ever returned.
  pub wait_for_receipt_iff :
      (fuel : ℕ) (w : W) (o : Outcome Receipt × W)
      → IsAnswer o
      → (wait_for_receipt ch fuel tx w ≡ o) ↔ ((n : ℕ) × (n < fuel) × AnswersAfter n w o)
  unfolding Stops
  wait_for_receipt_iff fuel w o a = (wait-Stops fuel w o a, λ s. enough_fuel s.0 fuel w o s.2 s.1)
