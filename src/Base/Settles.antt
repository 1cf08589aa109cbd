-- ===== src/Base/Settles.antt =====
-- Calls that come back, and what the state satisfies when they end.
use stablecoin_mmm.Base.Tests.{if◌then◌else◌}
use mathlib.Core.Bool.{Bool, true, false}
use mathlib.Core.Path.{◌≡◌, refl}
use Prim.Native.String.{String}
use stablecoin_mmm.Base.Act.{
  Act, Outcome, ok, err, panicked, waiting, GoError, Result, value, error, and_then, caught,
  wrapped, Ensures, returns,
}

-- The call ends with a value or an error: it neither panics nor waits for ever.
pub data Settles {S A : Type 0} : Outcome A × S → Type 0 where
  to_value : {a : A} {s : S} → Settles (ok a, s)
  to_error : {e : GoError} {s : S} → Settles (err e, s)

-- The call ends with a value that satisfies P.
pub data Returns {S A : Type 0} (P : A → S → Type 0) : Outcome A × S → Type 0 where
  with_value : {a : A} {s : S} → P a s → Returns P (ok a, s)

-- No demand on the value.
abbrev pub Anything : {S A : Type 0} → A → S → Type 0
Anything a s = Unit {0}

module _ {S A B : Type 0} where
  pub Settles-and_then :
      {k : A → Act S B} {m : Outcome A × S}
      → Settles m
      → ((a : A) (s : S) → Settles (k a s))
      → Settles (and_then m k)
  unfolding and_then
  Settles-and_then to_value h = h _ _
  Settles-and_then to_error h = to_error

  pub Settles-caught :
      {k : Result A → Act S B} {m : Outcome A × S}
      → Settles m
      → ((r : Result A) (s : S) → Settles (k r s))
      → Settles (and_then (caught m) k)
  unfolding and_then caught
  Settles-caught to_value h = h _ _
  Settles-caught to_error h = h _ _

  pub Returns-and_then :
      {P : B → S → Type 0} {Q : A → S → Type 0} {k : A → Act S B} {m : Outcome A × S}
      → Returns Q m
      → ((a : A) (s : S) → Q a s → Returns P (k a s))
      → Returns P (and_then m k)
  unfolding and_then
  Returns-and_then (with_value q) h = h _ _ q

  -- A call whose error is looked at need only settle.
  pub Returns-caught :
      {P : B → S → Type 0} {k : Result A → Act S B} {m : Outcome A × S}
      → Settles m
      → ((r : Result A) (s : S) → Returns P (k r s))
      → Returns P (and_then (caught m) k)
  unfolding and_then caught
  Returns-caught to_value h = h _ _
  Returns-caught to_error h = h _ _

module _ {S A : Type 0} where
  pub Settles-wrapped : (text : String) {m : Outcome A × S} → Settles m → Settles (wrapped text m)
  unfolding wrapped
  Settles-wrapped text to_value = to_value
  Settles-wrapped text to_error = to_error

  pub Settles-if :
      (b : Bool) {m n : Outcome A × S}
      → (b ≡ true → Settles m)
      → (b ≡ false → Settles n)
      → Settles (if b then m else n)
  Settles-if true h k = h refl
  Settles-if false h k = k refl

  pub Settles_of_Returns : {P : A → S → Type 0} {m : Outcome A × S} → Returns P m → Settles m
  Settles_of_Returns (with_value p) = to_value

  -- A call that returns satisfies what it ensures.
  pub Returns-of_Ensures :
      {P Q : A → S → Type 0} {m : Outcome A × S} → Returns Q m → Ensures P m → Returns P m
  Returns-of_Ensures (with_value q) (returns p) = with_value p

-- A property of the state, at the end of a call of any outcome.
module _ {S A : Type 0} (P : S → Type 0) where
  pub ends_wrapped : (text : String) (m : Outcome A × S) → P m.1 → P (wrapped text m).1
  unfolding wrapped
  ends_wrapped text (ok a, s) p = p
  ends_wrapped text (err e, s) p = p
  ends_wrapped text (panicked, s) p = p
  ends_wrapped text (waiting, s) p = p

  pub ends_if : (b : Bool) (m n : Outcome A × S) → P m.1 → P n.1 → P (if b then m else n).1
  ends_if true m n p q = p
  ends_if false m n p q = q

  -- The same where the test chooses between two calls.
  pub ends_either :
      (b : Bool) (m n : Act S A) (s : S) → P (m s).1 → P (n s).1 → P ((if b then m else n) s).1
  ends_either true m n s p q = p
  ends_either false m n s p q = q

module _ {S A B : Type 0} (P : S → Type 0) where
  pub ends_and_then :
      (k : A → Act S B) (m : Outcome A × S)
      → P m.1
      → ((a : A) (s : S) → P s → P (k a s).1)
      → P (and_then m k).1
  unfolding and_then
  ends_and_then k (ok a, s) p h = h a s p
  ends_and_then k (err e, s) p h = p
  ends_and_then k (panicked, s) p h = p
  ends_and_then k (waiting, s) p h = p

  pub ends_caught :
      (k : Result A → Act S B) (m : Outcome A × S)
      → P m.1
      → ((r : Result A) (s : S) → P s → P (k r s).1)
      → P (and_then (caught m) k).1
  unfolding and_then caught
  ends_caught k (ok a, s) p h = h (value a) s p
  ends_caught k (err e, s) p h = h (error e) s p
  ends_caught k (panicked, s) p h = p
  ends_caught k (waiting, s) p h = p

-- A property Q in between, which is enough where the call ends there.
pub ends_through :
    {S A B : Type 0} (P Q : S → Type 0) (k : A → Act S B) (m : Outcome A × S)
    → Q m.1
    → ((s : S) → Q s → P s)
    → ((a : A) (s : S) → Q s → P (k a s).1)
    → P (and_then m k).1
unfolding and_then
ends_through P Q k (ok a, s) q stop h = h a s q
ends_through P Q k (err e, s) q stop h = stop s q
ends_through P Q k (panicked, s) q stop h = stop s q
ends_through P Q k (waiting, s) q stop h = stop s q

pub ends_caught_through :
    {S A B : Type 0} (P Q : S → Type 0) (k : Result A → Act S B) (m : Outcome A × S)
    → Q m.1
    → ((s : S) → Q s → P s)
    → ((r : Result A) (s : S) → Q s → P (k r s).1)
    → P (and_then (caught m) k).1
unfolding and_then caught
ends_caught_through P Q k (ok a, s) q stop h = h (value a) s q
ends_caught_through P Q k (err e, s) q stop h = h (error e) s q
ends_caught_through P Q k (panicked, s) q stop h = stop s q
ends_caught_through P Q k (waiting, s) q stop h = stop s q
