-- ===== src/Api/Tiers.antt =====
-- `handleAddLiquidity` of pkg/api/service.go against a direct description of it: add the tiers whose
-- amounts are positive in turn, and answer once, by the first error or by all the results.
use stablecoin_mmm.Base.{
  ℕ, ◌&&◌, Bool, Bool-cases, String, List, [], ◌∷◌, ◌++◌, ◌≡◌, refl, ap, ◌∙◌, sym, ◌⊎◌, inl, inr,
  some, none, if◌then◌else◌,
}
use stablecoin_mmm.Base.Int.{pos, ltb_ℤ}
use stablecoin_mmm.Base.Act.{
  Act, Outcome, GoError, ok, err, panicked, waiting, ◌>>=◌, pure, and_then,
}
use stablecoin_mmm.Chain.{Address, Chain}
use stablecoin_mmm.Executor.Core.{Executor, Returned}
use stablecoin_mmm.Executor.Trades.{add_liquidity}
use stablecoin_mmm.Api.Server.{
  Server, LayerResult, Response, answer, on_chain, liquidity_added, layer_failed,
}
use stablecoin_mmm.Api.Liquidity.{Tier, layer_result, tier_done, add_tier, add_tiers}
use mathlib.Core.List.{append-nil, append_assoc}

-- The layer that failed and why, or the results of all.
abbrev pub Added : Type 0
Added = (String × GoError) ⊎ List LayerResult

abbrev pub is_positive : Tier → Bool
is_positive t = ltb_ℤ (pos 0) t.amount0 && ltb_ℤ (pos 0) t.amount1

unfoldable pub positive_tiers : List Tier → List Tier
positive_tiers [] = []
positive_tiers (t ∷ ts) = if is_positive t then t ∷ positive_tiers ts else positive_tiers ts

abbrev pub before_results : LayerResult → Added → Added
before_results x (inl e) = inl e
before_results x (inr xs) = inr (x ∷ xs)

abbrev pub answer_of : {F : Type 0} → List LayerResult → Added → Response F
answer_of results (inl (layer, why)) = answer 500 (layer_failed layer why)
answer_of results (inr more) = answer 200 (liquidity_added (results ++ more))

-- One result before the others.
answer_before :
    {F S : Type 0} (x : LayerResult) (results : List LayerResult) (m : Outcome Added × S)
    → and_then m (λ a. pure (answer_of {F = F} (results ++ (x ∷ [])) a))
      ≡ and_then
          (and_then m (λ more. pure (before_results x more)))
          (λ a. pure (answer_of {F = F} results a))
unfolding and_then
answer_before {F} x results (ok (inl e), s) = refl
answer_before {F} x results (ok (inr more), s) =
    ap (λ all. (ok (answer 200 (liquidity_added all)), s)) (append_assoc results (x ∷ []) more)
answer_before {F} x results (err e, s) = refl
answer_before {F} x results (panicked, s) = refl
answer_before {F} x results (waiting, s) = refl

module _ {F B W : Type 0} (ch : Chain W) (e : Executor F) (fuel : ℕ) (token0 token1 : Address)
    (fee : ℕ) where
  abbrev pub one_tier : Tier → Act (Server F B W) Returned
  one_tier t =
      on_chain
        (add_liquidity ch e fuel token0 token1 fee t.amount0 t.amount1 t.tick_lower t.tick_upper)

  abbrev pub then_rest : Tier → Act (Server F B W) Added → Returned → Act (Server F B W) Added
  then_rest t rest (r, some why) = pure (inl (t.layer, why))
  then_rest t rest (r, none) = rest >>= λ more. pure (before_results (layer_result t r) more)

  unfoldable pub add_all : List Tier → Act (Server F B W) Added
  add_all [] = pure (inr [])
  add_all (t ∷ ts) = one_tier t >>= then_rest t (add_all ts)

  answers_after :
      (t : Tier) (results : List LayerResult) (rest : Act (Server F B W) Added)
      (k : List LayerResult → Act (Server F B W) (Response F))
      → ((results : List LayerResult) (s : Server F B W)
          → k results s ≡ and_then (rest s) (λ a. pure (answer_of results a)))
      → (m : Outcome Returned × Server F B W)
      → and_then m (tier_done ch e t results k)
        ≡ and_then (and_then m (then_rest t rest)) (λ a. pure (answer_of results a))
  unfolding and_then
  answers_after t results rest k h (ok (r, some er), s) = refl
  answers_after t results rest k h (ok (r, none), s) =
      h (results ++ (layer_result t r ∷ [])) s ∙ answer_before (layer_result t r) results (rest s)
  answers_after t results rest k h (err er, s) = refl
  answers_after t results rest k h (panicked, s) = refl
  answers_after t results rest k h (waiting, s) = refl

  -- The handler's loop over the tiers gives the answer and the state of the direct description: add
  -- those whose amounts are positive in turn, and answer by the first error or by all the results,
  -- behind those that are there already.
  pub add_tiers_lem :
      (ts : List Tier) (results : List LayerResult) (s : Server F B W)
      → add_tiers ch e fuel token0 token1 fee ts results s
        ≡ (add_all (positive_tiers ts) >>= λ a. pure (answer_of results a)) s
  unfolding add_tiers add_tier add_all positive_tiers
  add_tiers_lem [] results s =
      unfold and_then in
      ap (λ all. (ok (answer 200 (liquidity_added all)), s)) (sym (append-nil results))
  add_tiers_lem (t ∷ ts) results s = elim (Bool-cases (is_positive t)) [
    | inl p ↦
        rw (add_tier, p)
          (answers_after t results (add_all (positive_tiers ts))
            (add_tiers ch e fuel token0 token1 fee ts) (add_tiers_lem ts) (one_tier t s))
    | inr n ↦ rw (add_tier, n) (add_tiers_lem ts results s)
  ]
