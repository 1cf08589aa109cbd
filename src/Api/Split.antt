-- ===== src/Api/Split.antt =====
-- The split of the amounts over the tiers in pkg/api/service.go.
use native.Mathlib.Nat.{mul-add}
use stablecoin_mmm.Base.{ℕ, ◌+◌, ◌*◌, ◌/◌, ◌≤◌, ◌≡◌, sym, ap, ◌∙◌, some, arith}
use stablecoin_mmm.Base.Int.{pos, ◌*ℤ◌, div_big}
use stablecoin_mmm.Api.Liquidity.{share_of}

share_of-pos : (t p : ℕ) → share_of (pos t) (pos p) ≡ some (pos (t * p / 100))
unfolding share_of div_big ◌*ℤ◌
share_of-pos t p = ground arith

-- Three tiers whose percentages add up to 100 get shares that never exceed the whole, and at most two
-- units of it are left over.
pub shares_of_whole :
    (t p q r : ℕ)
    → p + q + r ≡ 100
    → (x y z : ℕ) × (share_of (pos t) (pos p) ≡ some (pos x))
      × (share_of (pos t) (pos q) ≡ some (pos y))
      × (share_of (pos t) (pos r) ≡ some (pos z))
      × (x + y + z ≤ t)
      × (t ≤ x + y + z + 2)
shares_of_whole t p q r h =
    let product : t * p + t * q + t * r ≡ t * 100 =
      sym (ap (λ n. n + t * r) (mul-add t p q)) ∙ sym (mul-add t (p + q) r) ∙ ap (λ n. t * n) h in
    (
      t * p / 100,
      t * q / 100,
      t * r / 100,
      share_of-pos t p,
      share_of-pos t q,
      share_of-pos t r,
      omega arith,
      omega arith,
    )
