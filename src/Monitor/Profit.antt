-- ===== src/Monitor/Profit.antt =====
-- The profit of pkg/monitor/service.go: it is computed anew where a gas cost comes in, and only there.
use stablecoin_mmm.Base.{List, [], ◌∷◌, ◌++◌, map, ◌≡◌, refl, ap, ◌∙◌}
use stablecoin_mmm.Base.Float.{Float}
use stablecoin_mmm.Monitor.{Metrics, update_fees, update_gas_cost}

-- A fee that is collected or gas that is paid.
pub data Flow (F : Type 0) : Type 0 where
  fee gas : F → Flow F

module _ {F : Type 0} ⦃f : Float F⦄ where
  abbrev pub flow : Flow F → Metrics F → Metrics F
  flow (fee x) m = update_fees x m
  flow (gas x) m = update_gas_cost x m

  abbrev pub flows : List (Flow F) → Metrics F → Metrics F
  flows [] m = m
  flows (x ∷ xs) m = flows xs (flow x m)

  -- The sums, in the order in which they come in.
  abbrev pub fees_of : F → List (Flow F) → F
  fees_of total [] = total
  fees_of total (fee x ∷ xs) = fees_of (f.add total x) xs
  fees_of total (gas x ∷ xs) = fees_of total xs

  abbrev pub gas_of : F → List (Flow F) → F
  gas_of total [] = total
  gas_of total (fee x ∷ xs) = gas_of total xs
  gas_of total (gas x ∷ xs) = gas_of (f.add total x) xs

  flows-append :
      (xs ys : List (Flow F)) (m : Metrics F) → flows (xs ++ ys) m ≡ flows ys (flows xs m)
  flows-append [] ys m = refl
  flows-append (x ∷ xs) ys m = flows-append xs ys (flow x m)

  fees_collected_lem :
      (xs : List (Flow F)) (m : Metrics F)
      → (flows xs m).fees_collected ≡ fees_of m.fees_collected xs
  unfolding update_fees update_gas_cost
  fees_collected_lem [] m = refl
  fees_collected_lem (fee x ∷ xs) m = fees_collected_lem xs (flow (fee x) m)
  fees_collected_lem (gas x ∷ xs) m = fees_collected_lem xs (flow (gas x) m)

  gas_cost_lem : (xs : List (Flow F)) (m : Metrics F) → (flows xs m).gas_cost ≡ gas_of m.gas_cost xs
  unfolding update_fees update_gas_cost
  gas_cost_lem [] m = refl
  gas_cost_lem (fee x ∷ xs) m = gas_cost_lem xs (flow (fee x) m)
  gas_cost_lem (gas x ∷ xs) m = gas_cost_lem xs (flow (gas x) m)

  fees_keep_profit :
      (xs : List F) (m : Metrics F) → (flows (map fee xs) m).net_profit ≡ m.net_profit
  unfolding update_fees
  fees_keep_profit [] m = refl
  fees_keep_profit (x ∷ xs) m = fees_keep_profit xs (flow (fee x) m)

  -- After any fees and gas costs, a gas cost and then further fees, the profit is that at the gas
  -- cost: the fees up to it, less the gas up to it and with it. The further fees are missing from it.
  pub net_profit_lem :
      (xs : List (Flow F)) (cost : F) (more : List F) (m : Metrics F)
      → (flows (xs ++ (gas cost ∷ map fee more)) m).net_profit
        ≡ f.sub (fees_of m.fees_collected xs) (f.add (gas_of m.gas_cost xs) cost)
  net_profit_lem xs cost more m =
      ap (λ m'. m'.net_profit) (flows-append xs (gas cost ∷ map fee more) m)
      ∙ fees_keep_profit more (flow (gas cost) (flows xs m))
      ∙ (unfold update_gas_cost in rw (fees_collected_lem xs m, gas_cost_lem xs m) refl)
