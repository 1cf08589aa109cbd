-- ===== src/Cli/Recording.antt =====
-- A chain that keeps the transactions it is asked to sign, so that a theorem can speak of them.
use stablecoin_mmm.Base.{List, ◌∷◌}
use stablecoin_mmm.Chain.{Chain, RawTx}
use stablecoin_mmm.Chain.Carried.{kept, carrying}

-- The world, and the transactions, the latest first.
abbrev pub Recorded : Type 0 → Type 0
Recorded W = W × List RawTx

abbrev pub recording : {W : Type 0} → Chain W → Chain (Recorded W)
recording {W} ch =
    let carried : Chain (Recorded W) = carrying ch in
    record carried {
      sign_tx = λ tx chain_id key s. kept (tx ∷ s.1) (ch.sign_tx tx chain_id key s.0);
    }
