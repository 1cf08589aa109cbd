-- ===== src/Api/Panics.antt =====
-- Transactions that fail on the chain, in the handlers of pkg/api/service.go.
use stablecoin_mmm.Base.{ℕ, ◌≡◌, true, ◌⊎◌, Option, none}
use stablecoin_mmm.Base.Int.{ℤ}
use stablecoin_mmm.Base.Act.{Act}
use stablecoin_mmm.Executor.Core.{Executor}
use stablecoin_mmm.Chain.{Chain}
use stablecoin_mmm.Api.Server.{Server, Response, answer, swapped}

-- A refusal, an error, or a swap that succeeded, called verified and without an amount out.
abbrev pub IsSwapAnswer : {F : Type 0} → Response F → Type 0
IsSwapAnswer {F} r =
    (r.code ≡ 400)
    ⊎ (r.code ≡ 500)
    ⊎ (r.code ≡ 503)
    ⊎ ((hash : Option ℕ) × (amount_in : ℤ) × (gas : ℕ) × (r
          ≡ answer 200 (swapped hash amount_in none gas true none none)))

abbrev Answers : {F B W : Type 0} → Response F → Server F B W → Type 0
Answers r s = IsSwapAnswer r
