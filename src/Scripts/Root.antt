-- ===== src/Scripts/Root.antt =====
-- scripts/deploy_vault.go: `sqrt`, the script's helper for a square root.
use stablecoin_mmm.Base.{
  ℕ, zero, suc, true, false, ◌<◌, ◌+◌, ◌/◌, ◌≡◌, refl, some, ap, ◌∙◌, arith, if◌then◌else◌,
}
use native.Mathlib.Decide.{dec_lt}
use stablecoin_mmm.Base.Int.{ℤ, pos, negsuc, ◌+ℤ◌, ltb_ℤ, eqb_ℤ, div_big, int_laws}
use stablecoin_mmm.Base.Act.{Act, ok, waiting, ◌>>=◌, or_panic, and_then}

-- The loop, with its bound on the rounds: while b < a, a takes b, and b takes the mean of the new a
-- and b + n / b.
unfoldable pub newton : {S : Type 0} → ℕ → ℤ → ℤ → ℤ → Act S ℤ
newton zero n a b s = (waiting, s)
newton (suc fuel) n a b s =
    if ltb_ℤ b a
    then (or_panic (div_big n b) >>= λ q.
          or_panic (div_big (b +ℤ q +ℤ b) (pos 2)) >>= newton fuel n b)
        s
    else (ok a, s)

unfoldable pub sqrt : {S : Type 0} → ℕ → ℤ → Act S ℤ
sqrt fuel n s =
    if eqb_ℤ n (pos 0)
    then (ok (pos 0), s)
    else (or_panic (div_big n (pos 2)) >>= λ half. newton fuel n n (half +ℤ pos 1)) s

-- What it yields.
abbrev sqrt_value : ℤ → ℤ
sqrt_value (pos zero) = pos 0
sqrt_value (pos (suc n)) = pos (suc n / 2 + 1)
sqrt_value (negsuc n) = negsuc n

-- The loop ends.
newton-last :
    {S : Type 0} (fuel : ℕ) (n a b : ℤ) (s : S)
    → ltb_ℤ b a ≡ false
    → newton (suc fuel) n a b s ≡ (ok a, s)
unfolding newton
newton-last fuel n a b s h = rw h refl

-- One round.
newton-step :
    {S : Type 0} (fuel : ℕ) (n a b q c : ℤ) (s : S)
    → ltb_ℤ b a ≡ true
    → div_big n b ≡ some q
    → div_big (b +ℤ q +ℤ b) (pos 2) ≡ some c
    → newton (suc fuel) n a b s ≡ newton fuel n b c s
unfolding newton and_then
newton-step fuel n a b q c s h hq hc = rw (h, hq, hc) refl

pos_add : (a b : ℕ) → pos a +ℤ pos b ≡ pos (a + b)
unfolding ◌+ℤ◌
pos_add a b = ground arith

-- On positive numbers the new b is not below the new a, so that one round is the last.
newton-round :
    {S : Type 0} (fuel n a b : ℕ) (s : S)
    → suc b < a
    → newton (suc (suc fuel)) (pos n) (pos a) (pos (suc b)) s ≡ (ok (pos (suc b)), s)
newton-round fuel n a b s h =
    let c = pos ((suc b + n / suc b + suc b) / 2) in
    newton-step (suc fuel) (pos n) (pos a) (pos (suc b)) (pos (n / suc b)) c s (ground arith)
      (unfold div_big in refl)
      (rw (pos_add (suc b) (n / suc b), pos_add (suc b + n / suc b) (suc b))
        (unfold div_big in refl))
    ∙ newton-last fuel (pos n) (pos (suc b)) c s (ground arith)

sqrt-start :
    {S : Type 0} (fuel : ℕ) (n h : ℤ) (s : S)
    → eqb_ℤ n (pos 0) ≡ false
    → div_big n (pos 2) ≡ some h
    → sqrt fuel n s ≡ newton fuel n n (h +ℤ pos 1) s
unfolding sqrt and_then
sqrt-start fuel n h s e eh = rw (e, eh) refl

-- With fuel for one round and for the test behind it, or with more, `sqrt` ends. It yields n / 2 + 1 of
-- a positive n, a negative n itself, and zero of zero.
pub sqrt_lem :
    {S : Type 0} (fuel : ℕ) (n : ℤ) (s : S) → sqrt (suc (suc fuel)) n s ≡ (ok (sqrt_value n), s)
sqrt_lem fuel (pos zero) s = unfold sqrt in refl
sqrt_lem fuel (pos (suc n)) s =
    sqrt-start (suc (suc fuel)) (pos (suc n)) (pos (suc n / 2)) s (ground arith)
      (unfold div_big in refl)
    ∙ ap (λ b. newton (suc (suc fuel)) (pos (suc n)) (pos (suc n)) b s) (pos_add (suc n / 2) 1)
    ∙ elim (dec_lt (suc n / 2 + 1) (suc n)) [
      | yes p ↦
          ap (λ b. newton (suc (suc fuel)) (pos (suc n)) (pos (suc n)) (pos b) s) (omega arith)
          ∙ newton-round fuel (suc n) (suc n) (suc n / 2) s (omega (arith, p))
          ∙ ap (λ b. (ok (pos b), s)) (omega arith)
      | no p ↦
          newton-last (suc fuel) (pos (suc n)) (pos (suc n)) (pos (suc n / 2 + 1)) s (ground arith)
          ∙ ap (λ b. (ok (pos b), s)) (omega (arith, p))
    ]
sqrt_lem fuel (negsuc n) s =
    sqrt-start (suc (suc fuel)) (negsuc n) (negsuc (n / 2)) s (ground arith)
      (unfold div_big in refl)
    ∙ newton-last (suc fuel) (negsuc n) (negsuc n) (negsuc (n / 2) +ℤ pos 1) s (grind int_laws)
