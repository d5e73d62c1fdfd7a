-- ===== src/Prelude/Errors.antt =====
-- `Com_Error` does not return: a function that may call it has an outcome.
use mathlib.Core.Path.{◌≡◌, refl, ap}
use native.Mathlib.Omega.{arith}
use mathlib.Core.Option.{Option, none, some}

pub data ErrorCode : Type 0 where
  err_fatal err_drop : ErrorCode

pub data Outcome {ℓ} (A : Type ℓ) : Type ℓ where
  ok : A → Outcome A
  err : ErrorCode → Outcome A

infixl 5 ◌>>=◌
abbrev pub ◌>>=◌ {ℓ κ} : {A : Type ℓ} {B : Type κ} → Outcome A → (A → Outcome B) → Outcome B
ok a >>= f = f a
err e >>= f = err e

-- The next step on a result that a loop with fuel gave; `none` is fuel that ran out.
abbrev pub then_some {ℓ κ} :
    {A : Type ℓ} {B : Type κ} → Outcome (Option A) → (A → Outcome (Option B)) → Outcome (Option B)
then_some (ok (some a)) f = f a
then_some (ok none) f = ok none
then_some (err e) f = err e

some_or {ℓ} : {A : Type ℓ} → A → Option A → A
some_or d (some a) = a
some_or d none = d

value_or {ℓ} : {A : Type ℓ} → A → Outcome A → A
value_or d (ok a) = a
value_or d (err e) = d

pub ok-injective {ℓ} : {A : Type ℓ} (a b : A) → ok a ≡ ok b → a ≡ b
unfolding value_or
ok-injective a b e = ap (value_or a) e

-- A chain that gives a result gives one at its first step.
pub then_some-some {ℓ κ} :
    {A : Type ℓ} {B : Type κ} (m : Outcome (Option A)) (f : A → Outcome (Option B)) (b : B)
    → then_some m f ≡ ok (some b)
    → (a : A) × (m ≡ ok (some a)) × (f a ≡ ok (some b))
then_some-some (ok (some a)) f b e = (a, refl, e)
then_some-some (ok none) f b e = absurd (ground arith)
then_some-some (err c) f b e = absurd (ground arith)

pub ok-some-injective {ℓ} : {A : Type ℓ} (a b : A) → ok (some a) ≡ ok (some b) → a ≡ b
unfolding some_or
ok-some-injective a b e = ap (some_or a) (ok-injective (some a) (some b) e)
