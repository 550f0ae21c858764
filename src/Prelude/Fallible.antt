-- ===== src/Prelude/Fallible.antt =====
-- What a C function that returns 0 with a result, or -1, does: also where that is undefined.
use mathlib.Core.Option.{Option, none, some}
use mathlib.Core.Logic.{◌≢◌}

-- A function returns 0 with a result, or -1; or what it does is undefined in C.
pub data Evaluated {ℓ} (A : Type ℓ) : Type ℓ where
  value : A → Evaluated A
  fails undefined : Evaluated A

infixl 1 ◌>>=◌
abbrev pub ◌>>=◌ {ℓ κ} : {A : Type ℓ} {B : Type κ} → Evaluated A → (A → Evaluated B) → Evaluated B
value a >>= f = f a
fails >>= f = fails
undefined >>= f = undefined

abbrev pub or_fail {ℓ} : {A : Type ℓ} → Option A → Evaluated A
or_fail none = fails
or_fail (some a) = value a

abbrev pub IsDefined {ℓ} : {A : Type ℓ} → Evaluated A → Type 0
IsDefined (value a) = Unit
IsDefined fails = Unit
IsDefined undefined = ⊥

pub bind-IsDefined {ℓ κ} :
    {A : Type ℓ} {B : Type κ} (r : Evaluated A) (f : A → Evaluated B)
    → IsDefined r
    → ((a : A) → IsDefined (f a))
    → IsDefined (r >>= f)
bind-IsDefined (value a) f h next = next a
bind-IsDefined fails f h next = tt
bind-IsDefined undefined f h next = h

pub or_fail-IsDefined {ℓ} : {A : Type ℓ} (r : Option A) → IsDefined (or_fail r)
or_fail-IsDefined none = tt
or_fail-IsDefined (some a) = tt

pub defined-≢ {ℓ} : {A : Type ℓ} (r : Evaluated A) → IsDefined r → r ≢ undefined
defined-≢ (value a) h e = cc
defined-≢ fails h e = cc
defined-≢ undefined h e = h
