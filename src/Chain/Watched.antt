-- ===== src/Chain/Watched.antt =====
-- A chain that keeps what could move the bot's funds: the approvals that it packs, the transactions
-- that it signs, and the positions and swaps that it sends through the bindings.
use stablecoin_mmm.Base.{◌≡◌, ◌⊎◌, List, [], ◌∷◌}
use stablecoin_mmm.Base.Int.{pos}
use stablecoin_mmm.Chain.{
  Address, RawTx, MintParams, SwapParams, Method, balance_of, allowance, approve, mint, Chain,
}
use stablecoin_mmm.Chain.Carried.{kept, carrying}

pub data Effect : Type 0 where
  approves : Address → Effect
  signs : RawTx → Effect
  mints : MintParams → Effect
  swaps : SwapParams → Effect

-- The world, and what was done, the latest first.
abbrev pub Watched : Type 0 → Type 0
Watched W = W × List Effect

abbrev pub packed : Method → List Effect → List Effect
packed (approve spender amount) es = approves spender ∷ es
packed (balance_of owner) es = es
packed (allowance owner spender) es = es
packed (mint p) es = es

abbrev pub watching : {W : Type 0} → Chain W → Chain (Watched W)
watching {W} ch =
    let carried : Chain (Watched W) = carrying ch in
    record carried {
      pack = λ method s. kept (packed method s.1) (ch.pack method s.0);
      sign_tx = λ tx id key s. kept (signs tx ∷ s.1) (ch.sign_tx tx id key s.0);
      manager_mint = λ auth p s. kept (mints p ∷ s.1) (ch.manager_mint auth p s.0);
      router_exact_input_single =
          λ auth p s. kept (swaps p ∷ s.1) (ch.router_exact_input_single auth p s.0);
    }

-- The contracts that may spend the bot's tokens, and its wallet.
pub record Owner : Type 0 where
  pub router : Address
  pub manager : Address
  pub wallet : Address

-- Only the two contracts may spend, no coin is sent, and positions and swaps go to the wallet.
abbrev pub IsLawful : Owner → Effect → Type 0
IsLawful o (approves spender) = (spender ≡ o.router) ⊎ (spender ≡ o.manager)
IsLawful o (signs tx) = tx.amount ≡ pos 0
IsLawful o (mints p) = p.recipient ≡ o.wallet
IsLawful o (swaps p) = p.recipient ≡ o.wallet

pub data AllLawful (o : Owner) : List Effect → Type 0 where
  none_done : AllLawful o []
  one_done : {e : Effect} {es : List Effect} → IsLawful o e → AllLawful o es → AllLawful o (e ∷ es)
