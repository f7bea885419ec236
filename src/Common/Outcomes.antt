-- ===== src/Common/Outcomes.antt =====
-- The outcome of a Go call: it returns, it panics, or the model's bound on loop rounds is used up.
use mathlib.Core.Bool.{Bool, true, false}

pub data Outcome {ℓ} (A : Type ℓ) : Type ℓ where
  returns : A → Outcome A
  panics : Outcome A
  runs_on : Outcome A

infixl 5 ◌>>=◌ ◌>>◌
abbrev pub ◌>>=◌ {ℓ κ} : {A : Type ℓ} {B : Type κ} → Outcome A → (A → Outcome B) → Outcome B
returns a >>= f = f a
panics >>= f = panics
runs_on >>= f = runs_on

abbrev pub ◌>>◌ {ℓ} : {B : Type ℓ} → Outcome (Unit {0}) → Outcome B → Outcome B
m >> k = m >>= λ _. k

-- A run-time check: the call panics where it fails.
abbrev pub require : Bool → Outcome (Unit {0})
require true = returns tt
require false = panics

-- What a call does not break: nothing is said of one that panics.
abbrev pub Holds {ℓ} : {A : Type ℓ} → (A → Type ℓ) → Outcome A → Type ℓ
Holds P (returns a) = P a
Holds P panics = Unit
Holds P runs_on = Unit

pub Holds-weaken {ℓ} :
    {A : Type ℓ} {P Q : A → Type ℓ} (m : Outcome A) → ((a : A) → P a → Q a) → Holds P m → Holds Q m
Holds-weaken (returns a) f h = f a h
Holds-weaken panics f h = tt
Holds-weaken runs_on f h = tt

pub Holds-bind {ℓ κ} :
    {A : Type ℓ} {B : Type κ} {P : A → Type ℓ} (Q : B → Type κ) (m : Outcome A) (f : A → Outcome B)
    → Holds P m
    → ((a : A) → P a → Holds Q (f a))
    → Holds Q (m >>= f)
Holds-bind Q (returns a) f h g = g a h
Holds-bind Q panics f h g = tt
Holds-bind Q runs_on f h g = tt
