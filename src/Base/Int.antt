-- ===== src/Base/Int.antt =====
-- Integers over the native numbers: Go's `big.Int`, and the values of its signed machine integers.
use Prim.Native.Nat.{ℕ, zero, suc, ◌+◌, ◌-◌, ◌*◌, ◌/◌, ◌≤◌, ◌<◌}
use mathlib.Core.Path.{◌≡◌, refl}
use mathlib.Core.Bool.{Bool, false}
use mathlib.Core.Option.{Option, none, some}
use native.Mathlib.Omega.{arith}
use stablecoin_mmm.Base.Tests.{ltb, leb, ◌==◌, if◌then◌else◌}

-- `negsuc n` is -(n + 1).
pub data ℤ : Type 0 where
  pos : ℕ → ℤ
  negsuc : ℕ → ℤ

abbrev pub pos_part : ℤ → ℕ
pos_part (pos n) = n
pos_part (negsuc n) = 0

abbrev pub neg_part : ℤ → ℕ
neg_part (pos n) = 0
neg_part (negsuc n) = suc n

abbrev pub sub_ℕ : ℕ → ℕ → ℤ
sub_ℕ a b = if leb b a then pos (a - b) else negsuc (b - a - 1)

infixl 65 ◌+ℤ◌ ◌-ℤ◌
infixl 70 ◌*ℤ◌
infix 50 ◌≤ℤ◌ ◌<ℤ◌
unfoldable pub ◌+ℤ◌ : ℤ → ℤ → ℤ
a +ℤ b = sub_ℕ (pos_part a + pos_part b) (neg_part a + neg_part b)

unfoldable pub ◌-ℤ◌ : ℤ → ℤ → ℤ
a -ℤ b = sub_ℕ (pos_part a + neg_part b) (neg_part a + pos_part b)

unfoldable pub ◌*ℤ◌ : ℤ → ℤ → ℤ
a *ℤ b =
    sub_ℕ (pos_part a * pos_part b + neg_part a * neg_part b)
      (pos_part a * neg_part b + neg_part a * pos_part b)

abbrev pub ◌≤ℤ◌ : ℤ → ℤ → Type 0
a ≤ℤ b = pos_part a + neg_part b ≤ pos_part b + neg_part a

abbrev pub ◌<ℤ◌ : ℤ → ℤ → Type 0
a <ℤ b = pos_part a + neg_part b < pos_part b + neg_part a

abbrev pub ltb_ℤ : ℤ → ℤ → Bool
ltb_ℤ a b = ltb (pos_part a + neg_part b) (pos_part b + neg_part a)

abbrev pub leb_ℤ : ℤ → ℤ → Bool
leb_ℤ a b = leb (pos_part a + neg_part b) (pos_part b + neg_part a)

abbrev pub eqb_ℤ : ℤ → ℤ → Bool
eqb_ℤ a b = pos_part a + neg_part b == pos_part b + neg_part a

abbrev pub negate : ℤ → ℤ
negate a = sub_ℕ (neg_part a) (pos_part a)

-- Go's `/` on signed integers: the quotient goes towards zero. The callers' divisors are not zero.
unfoldable pub quot_ℤ : ℤ → ℤ → ℤ
quot_ℤ (pos a) (pos d) = pos (a / d)
quot_ℤ (pos a) (negsuc d) = negate (pos (a / suc d))
quot_ℤ (negsuc a) (pos d) = negate (pos (suc a / d))
quot_ℤ (negsuc a) (negsuc d) = pos (suc a / suc d)

-- `big.Int.Div`: Euclidean, and a panic (`none`) on a divisor of zero.
unfoldable pub div_big : ℤ → ℤ → Option ℤ
div_big a (pos zero) = none
div_big (pos a) (pos (suc d)) = some (pos (a / suc d))
div_big (negsuc a) (pos (suc d)) = some (negsuc (a / suc d))
div_big (pos a) (negsuc d) = some (negate (pos (a / suc d)))
div_big (negsuc a) (negsuc d) = some (pos (suc (a / suc d)))

-- With these the operations can stay shut.
pub +ℤ_parts :
    (a b : ℤ)
    → pos_part (a +ℤ b) + neg_part a + neg_part b ≡ neg_part (a +ℤ b) + pos_part a + pos_part b
unfolding ◌+ℤ◌
+ℤ_parts a b = ground arith

pub -ℤ_parts :
    (a b : ℤ)
    → pos_part (a -ℤ b) + neg_part a + pos_part b ≡ neg_part (a -ℤ b) + pos_part a + neg_part b
unfolding ◌-ℤ◌
-ℤ_parts a b = ground arith

pub eq_of_parts : (a b : ℤ) → pos_part a + neg_part b ≡ pos_part b + neg_part a → a ≡ b
eq_of_parts a b h = ground arith

pub ruleset int_laws = (arith, +ℤ_parts, -ℤ_parts, eq_of_parts)

-- A quotient exists for every divisor but zero.
pub div_big-some : (a d : ℤ) → eqb_ℤ d (pos 0) ≡ false → (q : ℤ) × (div_big a d ≡ some q)
unfolding div_big
div_big-some (pos a) (pos zero) h = absurd (ground arith)
div_big-some (negsuc a) (pos zero) h = absurd (ground arith)
div_big-some (pos a) (pos (suc d)) h = (pos (a / suc d), refl)
div_big-some (negsuc a) (pos (suc d)) h = (negsuc (a / suc d), refl)
div_big-some (pos a) (negsuc d) h = (negate (pos (a / suc d)), refl)
div_big-some (negsuc a) (negsuc d) h = (pos (suc (a / suc d)), refl)
