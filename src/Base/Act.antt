-- ===== src/Base/Act.antt =====
-- The outcome of a Go call that may fail, panic or wait, and calls that change a state. Go's
-- `(value, error)` is `ok` or `err`; a call with both a value and an error returns a pair.
use Prim.Native.Nat.{ℕ}
use Prim.Native.String.{String}
use mathlib.Core.Option.{Option, none, some}
use mathlib.Core.Path.{◌≡◌, subst}

-- `external n` is an error that another package made. `wrap s e` is `fmt.Errorf("s: %w", e)`.
pub data GoError : Type 0 where
  not_found : GoError
  external : ℕ → GoError
  message : String → GoError
  wrap : String → GoError → GoError

-- `waiting` is a poll that has used up its fuel.
pub data Outcome (A : Type 0) : Type 0 where
  ok : A → Outcome A
  err : GoError → Outcome A
  panicked : Outcome A
  waiting : Outcome A

pub data Result (A : Type 0) : Type 0 where
  value : A → Result A
  error : GoError → Result A

abbrev pub Act : Type 0 → Type 0 → Type 0
Act S A = S → Outcome A × S

unfoldable pub and_then : {S A B : Type 0} → Outcome A × S → (A → Act S B) → Outcome B × S
and_then (ok a, s) k = k a s
and_then (err e, s) k = (err e, s)
and_then (panicked, s) k = (panicked, s)
and_then (waiting, s) k = (waiting, s)

infixl 5 ◌>>=◌ ◌>>◌
abbrev pub ◌>>=◌ : {S A B : Type 0} → Act S A → (A → Act S B) → Act S B
◌>>=◌ m k s = and_then (m s) k

abbrev pub ◌>>◌ : {S A B : Type 0} → Act S A → Act S B → Act S B
m >> k = m >>= λ _. k

abbrev pub pure : {S A : Type 0} → A → Act S A
pure a s = (ok a, s)

abbrev pub throw : {S A : Type 0} → GoError → Act S A
throw e s = (err e, s)

abbrev pub panic : {S A : Type 0} → Act S A
panic s = (panicked, s)

unfoldable pub caught : {S A : Type 0} → Outcome A × S → Outcome (Result A) × S
caught (ok a, s) = (ok (value a), s)
caught (err e, s) = (ok (error e), s)
caught (panicked, s) = (panicked, s)
caught (waiting, s) = (waiting, s)

-- The call with its error as a value, for code that looks at `err` and goes on.
abbrev pub try : {S A : Type 0} → Act S A → Act S (Result A)
try m s = caught (m s)

unfoldable pub wrapped : {S A : Type 0} → String → Outcome A × S → Outcome A × S
wrapped text (ok a, s) = (ok a, s)
wrapped text (err e, s) = (err (wrap text e), s)
wrapped text (panicked, s) = (panicked, s)
wrapped text (waiting, s) = (waiting, s)

-- `if err != nil { return fmt.Errorf("text: %w", err) }`
abbrev pub or_wrap : {S A : Type 0} → String → Act S A → Act S A
or_wrap text m s = wrapped text (m s)

-- A division by zero of `big.Int` panics.
abbrev pub or_panic : {S A : Type 0} → Option A → Act S A
or_panic (some a) = pure a
or_panic none = panic

-- If the call returns a value, P holds of it and of the state, whatever happened on the way.
pub data Ensures {S A : Type 0} (P : A → S → Type 0) : Outcome A × S → Type 0 where
  returns : {a : A} {s : S} → P a s → Ensures P (ok a, s)
  fails : {e : GoError} {s : S} → Ensures P (err e, s)
  panics : {s : S} → Ensures P (panicked, s)
  waits : {s : S} → Ensures P (waiting, s)

module _ {S A B : Type 0} {P : B → S → Type 0} where
  pub Ensures-and_then :
      {k : A → Act S B} (m : Outcome A × S)
      → ((a : A) (s : S) → Ensures P (k a s))
      → Ensures P (and_then m k)
  unfolding and_then
  Ensures-and_then (ok a, s) h = h a s
  Ensures-and_then (err e, s) h = fails
  Ensures-and_then (panicked, s) h = panics
  Ensures-and_then (waiting, s) h = waits

  -- The same through a call whose error is a value.
  pub Ensures-caught :
      {k : Result A → Act S B} (m : Outcome A × S)
      → ((r : Result A) (s : S) → Ensures P (k r s))
      → Ensures P (and_then (caught m) k)
  unfolding and_then caught
  Ensures-caught (ok a, s) h = h (value a) s
  Ensures-caught (err e, s) h = h (error e) s
  Ensures-caught (panicked, s) h = panics
  Ensures-caught (waiting, s) h = waits

  -- The rest of the call may use what the first part ensures.
  pub Ensures-bind :
      {k : A → Act S B} {Q : A → S → Type 0} {m : Outcome A × S}
      → Ensures Q m
      → ((a : A) (s : S) → Q a s → Ensures P (k a s))
      → Ensures P (and_then m k)
  unfolding and_then
  Ensures-bind (returns q) h = h _ _ q
  Ensures-bind fails h = fails
  Ensures-bind panics h = panics
  Ensures-bind waits h = waits

-- A call whose error is a value: the rest may use what a value ensures.
pub Ensures-tried :
    {S A B : Type 0} {P : B → S → Type 0} {Q : A → S → Type 0} (k : Result A → Act S B)
    {m : Outcome A × S}
    → Ensures Q m
    → ((a : A) (s : S) → Q a s → Ensures P (k (value a) s))
    → ((e : GoError) (s : S) → Ensures P (k (error e) s))
    → Ensures P (and_then (caught m) k)
unfolding and_then caught
Ensures-tried k (returns q) h g = h _ _ q
Ensures-tried k fails h g = g _ _
Ensures-tried k panics h g = panics
Ensures-tried k waits h g = waits

pub Ensures-wrapped :
    {S A : Type 0} {Q : A → S → Type 0} (text : String) {m : Outcome A × S}
    → Ensures Q m
    → Ensures Q (wrapped text m)
unfolding wrapped
Ensures-wrapped text (returns q) = returns q
Ensures-wrapped text fails = fails
Ensures-wrapped text panics = panics
Ensures-wrapped text waits = waits

-- What a returned value satisfies, by the outcome.
abbrev pub Holds : {S A : Type 0} → (A → S → Type 0) → Outcome A × S → Type 0
Holds P (ok a, s) = P a s
Holds P (err e, s) = Unit
Holds P (panicked, s) = Unit
Holds P (waiting, s) = Unit

pub Holds-of-Ensures :
    {S A : Type 0} (P : A → S → Type 0) (m : Outcome A × S) → Ensures P m → Holds P m
Holds-of-Ensures P _ (returns p) = p
Holds-of-Ensures P _ fails = tt
Holds-of-Ensures P _ panics = tt
Holds-of-Ensures P _ waits = tt

-- A value that a call returned satisfies what the call ensures.
pub of_Ensures :
    {S A : Type 0} (P : A → S → Type 0) (m : Outcome A × S) {a : A} {s : S}
    → Ensures P m
    → m ≡ (ok a, s)
    → P a s
of_Ensures P m h e = subst (Holds P) e (Holds-of-Ensures P m h)
