-- ===== src/Prelude/Outcome.antt =====
-- How the code ends: a panic is `none`, and a `Result` of the source is a value.
use mathlib.Core.Path.{◌≡◌, refl}
use mathlib.Core.Option.{Option, none, some}

-- Rust's `Result<A, E>`.
pub data Result (E A : Type 0) : Type 0 where
  ok : A → Result E A
  err : E → Result E A

-- Sequencing of code that may panic.
infixl 5 ◌>>=◌ ◌>>◌
abbrev pub ◌>>=◌ : {A B : Type 0} → Option A → (A → Option B) → Option B
none >>= f = none
some a >>= f = f a

abbrev pub ◌>>◌ : {B : Type 0} → Option (Unit {0}) → Option B → Option B
m >> k = m >>= λ _. k

-- Rust's `?` on a `Result`: an error is passed on.
abbrev pub and_then : {E A B : Type 0} → Result E A → (A → Result E B) → Result E B
and_then (ok a) f = f a
and_then (err e) f = err e

-- A `Result` that is an error nobody handles is a panic of `unwrap`.
abbrev pub map_err : {E F A : Type 0} → (E → F) → Result E A → Result F A
map_err f (ok a) = ok a
map_err f (err e) = err (f e)

-- Total correctness: the code does not panic, and what it returns satisfies `P`.
pub data Returns {A : Type 0} (P : A → Type 0) : Option A → Type 0 where
  returns : {a : A} → P a → Returns P (some a)

module _ {A : Type 0} {P : A → Type 0} where
  pub bind :
      {B : Type 0} {Q : B → Type 0} {m : Option A} {f : A → Option B}
      → Returns P m
      → ((a : A) → P a → Returns Q (f a))
      → Returns Q (m >>= f)
  bind (returns p) next = next _ p

  pub mono : {Q : A → Type 0} {m : Option A} → Returns P m → ((a : A) → P a → Q a) → Returns Q m
  mono (returns p) weaken = returns (weaken _ p)

  -- The value that is returned, and its equation.
  pub value : {m : Option A} → Returns P m → (a : A) × (m ≡ some a) × P a
  value (returns {a} p) = (a, refl, p)

  pub from_some : {a : A} → Returns P (some a) → P a
  from_some (returns p) = p
