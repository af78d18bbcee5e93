-- ===== src/Prelude/Errors.antt =====
-- A value or an error, as functions that return an error beside their result do.
use mathlib.Core.Path.{◌≡◌, refl}
use mathlib.Core.Bool.{Bool, true, false}
use mini_key_value_store.Prelude.Tests.{if◌then◌else◌}

pub data Outcome (E : Type 0) (A : Type 0) : Type 0 where
  returns : A → Outcome E A
  fails : E → Outcome E A

-- The next step, unless there is an error.
abbrev pub and_then : {E A B : Type 0} → Outcome E A → (A → Outcome E B) → Outcome E B
and_then (returns a) f = f a
and_then (fails e) f = fails e

-- The error with what a caller says of it.
abbrev pub wrap_error : {E F A : Type 0} → (E → F) → Outcome E A → Outcome F A
wrap_error f (returns a) = returns a
wrap_error f (fails e) = fails (f e)

pub and_then-returns :
    {E A B : Type 0} (o : Outcome E A) (f : A → Outcome E B) (b : B)
    → and_then o f ≡ returns b
    → (a : A) × (o ≡ returns a) × (f a ≡ returns b)
and_then-returns (returns a) f b e = (a, refl, e)
and_then-returns (fails e') f b e = absurd (cc)

pub wrap_error-returns :
    {E F A : Type 0} (f : E → F) (o : Outcome E A) (a : A)
    → wrap_error f o ≡ returns a
    → o ≡ returns a
wrap_error-returns f (returns b) a e = cc
wrap_error-returns f (fails e') a e = absurd (cc)

-- A guard that was passed.
pub if_returns :
    {E A : Type 0} (b : Bool) (o : Outcome E A) (e : E) (a : A)
    → (if b then o else fails e) ≡ returns a
    → (b ≡ true) × (o ≡ returns a)
if_returns true o e a h = (refl, h)
if_returns false o e a h = absurd (cc)

pub if_not_returns :
    {E A : Type 0} (b : Bool) (e : E) (o : Outcome E A) (a : A)
    → (if b then fails e else o) ≡ returns a
    → (b ≡ false) × (o ≡ returns a)
if_not_returns true e o a h = absurd (cc)
if_not_returns false e o a h = (refl, h)

pub payload : {E A : Type 0} (a b : A) → ◌≡◌ {A = Outcome E A} (returns a) (returns b) → a ≡ b
payload a b e = cc
