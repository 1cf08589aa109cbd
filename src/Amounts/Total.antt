-- ===== src/Amounts/Total.antt =====
-- What `calculateTokenAmounts` of pkg/executor/service.go returns: its branches, and the signs of its
-- amounts.
use stablecoin_mmm.Base.{
  ℕ, zero, suc, ◌-◌, ◌*◌, ◌/◌, ◌^◌, ◌≤◌, ◌<◌, ◌≡◌, refl, ◌||◌, true, false, some, arith, Bool-cases,
  inl, inr, ◌⊎◌,
}
use stablecoin_mmm.Base.Int.{ℤ, pos, negsuc, ◌-ℤ◌, ◌*ℤ◌, ◌≤ℤ◌, ◌<ℤ◌, leb_ℤ, eqb_ℤ, div_big-some}
use stablecoin_mmm.Base.Float.{Float, BigFloat}
use stablecoin_mmm.Amounts.{
  sqrt_at_tick, two96, amount0_between, amount1_between, amounts_at, tick_of_sqrt_price,
  calculate_token_amounts,
}
use stablecoin_mmm.Amounts.Scale.{sqrt_at_tick-pos, sqrt_at_tick_mono}
use stablecoin_mmm.Amounts.Signs.{
  amount0_between-eq, amount1_between-eq, amounts_at_below, amounts_at_above, amounts_at_inside,
}

product_nonzero :
    (a : ℤ) (k : ℕ) → eqb_ℤ a (pos 0) ≡ false → 0 < k → eqb_ℤ (a *ℤ pos k) (pos 0) ≡ false
unfolding ◌*ℤ◌
product_nonzero (pos zero) k h positive = absurd (ground arith)
product_nonzero (pos (suc n)) k h positive = let q : 0 < suc n * k = grind arith in ground arith
product_nonzero (negsuc n) k h positive = let q : 0 < suc n * k = grind arith in ground arith

amount1_some : (l a b : ℤ) → (q : ℤ) × (amount1_between l a b ≡ some q)
unfolding amount1_between
amount1_some l a b = div_big-some (l *ℤ (b -ℤ a)) two96 (ground arith)

amount0_some :
    (l a : ℤ) (k : ℕ)
    → eqb_ℤ a (pos 0) ≡ false
    → 0 < k
    → (q : ℤ) × (amount0_between l a (pos k) ≡ some q)
unfolding amount0_between
amount0_some l a k h positive =
    div_big-some (l *ℤ (pos k -ℤ a) *ℤ two96) (a *ℤ pos k) (product_nonzero a k h positive)

amounts_at-some :
    (cur liquidity lower upper p : ℤ)
    → eqb_ℤ p (pos 0) ≡ false
    → (r : ℤ × ℤ) × (amounts_at cur liquidity lower upper p ≡ some r)
unfolding amounts_at
amounts_at-some cur liquidity lower upper p h =
    let (ka, ha, ea) = sqrt_at_tick-pos lower in
    let (kb, hb, eb) = sqrt_at_tick-pos upper in
    let (x, ex) = amount0_some liquidity (pos ka) kb (ground arith) (omega arith) in
    let (y, ey) = amount1_some liquidity (pos ka) (pos kb) in
    let (z, ez) = amount0_some liquidity p kb h (omega arith) in
    let (w, ew) = amount1_some liquidity (pos ka) p in
    elim (Bool-cases (leb_ℤ cur lower)) [
      | inl below ↦ ((x, pos 0), rw (below, ea, eb, ex))
      | inr over ↦ elim (Bool-cases (leb_ℤ upper cur)) [
        | inl above ↦ ((pos 0, y), rw (over, above, ea, eb, ey))
        | inr inside ↦ ((z, w), rw (over, inside, ea, eb, ez, ew))
      ]
    ]

le_or_lt : (a b : ℤ) → (a ≤ℤ b) ⊎ (b <ℤ a)
le_or_lt a b = omega arith

pos-le : (a b : ℤ) (m n : ℕ) → a ≡ pos m → b ≡ pos n → a ≤ℤ b → m ≤ n
pos-le a b m n e e' h = ground arith

amounts_at_nonneg :
    (cur : ℤ) (l p : ℕ) (lower upper : ℤ)
    → 0 < p
    → lower ≤ℤ upper
    → (lower <ℤ cur → cur <ℤ upper → (sqrt_at_tick lower ≤ℤ pos p) × (pos p ≤ℤ sqrt_at_tick upper))
    → (x y : ℕ) × (amounts_at cur (pos l) lower upper (pos p) ≡ some (pos x, pos y))
amounts_at_nonneg cur l p lower upper positive order within =
    let (a, ha, ea) = sqrt_at_tick-pos lower in
    let (z, hz, ez) = sqrt_at_tick-pos upper in
    let le = pos-le _ _ a z ea ez (sqrt_at_tick_mono lower upper order) in
    elim (le_or_lt cur lower) [
      | inl below ↦ (
        l * (z - a) * 2 ^ 96 / (a * z),
        0,
        rw (
          amounts_at_below cur (pos l) lower upper (pos p) below,
          ea,
          ez,
          amount0_between-eq l a z le (omega arith),
        ),
      )
      | inr over ↦ elim (le_or_lt upper cur) [
        | inl above ↦ (
          0,
          l * (z - a) / 2 ^ 96,
          rw (
            amounts_at_above cur (pos l) lower upper (pos p) over above,
            ea,
            ez,
            amount1_between-eq l a z le,
          ),
        )
        | inr inside ↦
            let (lo, hi) = within over inside in
            let low = pos-le _ (pos p) a p ea refl lo in
            let high = pos-le (pos p) _ p z refl ez hi in
            (
              l * (z - p) * 2 ^ 96 / (p * z),
              l * (p - a) / 2 ^ 96,
              rw (
                amounts_at_inside cur (pos l) lower upper (pos p) over inside,
                ea,
                ez,
                amount0_between-eq l p z high positive,
                amount1_between-eq l a p low,
              ),
            )
      ]
    ]

module _ (F B : Type 0) ⦃f : Float F⦄ ⦃b : BigFloat F B⦄ where
  -- The computation never panics: whatever the liquidity, the ticks and the price, even negative
  -- ones, no division is by zero and there is a result.
  pub calculate_token_amounts_total :
      (liquidity tick_lower tick_upper sqrt_price : ℤ)
      → (r : ℤ × ℤ) × (calculate_token_amounts F B liquidity tick_lower tick_upper sqrt_price
          ≡ some r)
  unfolding calculate_token_amounts
  calculate_token_amounts_total liquidity lower upper p =
      elim (Bool-cases (eqb_ℤ liquidity (pos 0) || eqb_ℤ p (pos 0))) [
        | inl idle ↦ ((pos 0, pos 0), rw idle)
        | inr busy ↦
            let (r, e) =
              amounts_at-some (tick_of_sqrt_price F B p) liquidity lower upper p (ground arith) in
            (r, rw busy e)
      ]

  -- Without liquidity, or without a price, both amounts are zero.
  pub calculate_token_amounts_idle :
      (liquidity tick_lower tick_upper sqrt_price : ℤ)
      → (liquidity ≡ pos 0) ⊎ (sqrt_price ≡ pos 0)
      → calculate_token_amounts F B liquidity tick_lower tick_upper sqrt_price ≡ some (pos 0, pos 0)
  unfolding calculate_token_amounts
  calculate_token_amounts_idle liquidity lower upper p (inl e) = rw e
  calculate_token_amounts_idle liquidity lower upper p (inr e) =
      let z : eqb_ℤ p (pos 0) ≡ true = rw e in ground arith

  pub calculate-eq-amounts_at :
      (l p : ℕ) (lower upper : ℤ)
      → calculate_token_amounts F B (pos (suc l)) lower upper (pos (suc p))
        ≡ amounts_at (tick_of_sqrt_price F B (pos (suc p))) (pos (suc l)) lower upper (pos (suc p))
  unfolding calculate_token_amounts
  calculate-eq-amounts_at l p lower upper = ground arith

  -- If the liquidity and the price are positive, the range is in order, and the price, where the
  -- current tick is inside the range, lies between the square-root prices that the code computes for
  -- its ends, then there is a result and both amounts are natural numbers.
  pub calculate_token_amounts_nonneg :
      (l p : ℕ) (lower upper : ℤ)
      → lower ≤ℤ upper
      → (lower <ℤ tick_of_sqrt_price F B (pos (suc p))
          → tick_of_sqrt_price F B (pos (suc p)) <ℤ upper
          → (sqrt_at_tick lower ≤ℤ pos (suc p)) × (pos (suc p) ≤ℤ sqrt_at_tick upper))
      → (x y : ℕ) × (calculate_token_amounts F B (pos (suc l)) lower upper (pos (suc p))
          ≡ some (pos x, pos y))
  calculate_token_amounts_nonneg l p lower upper order within =
      rw (calculate-eq-amounts_at l p lower upper) (
        amounts_at_nonneg (tick_of_sqrt_price F B (pos (suc p))) (suc l) (suc p) lower upper
          (omega arith) order within)
