-- ===== src/Prelude/Fallible.antt =====
-- What a call that returns `LoggedResult` comes to: a value, an error that was logged, or a panic
-- (a slice out of range).
use mathlib.Core.Path.{◌≡◌, refl}

pub data Outcome {ℓ} (A : Type ℓ) : Type ℓ where
  ok : A → Outcome A
  err : Outcome A
  panic : Outcome A

infixl 5 ◌>>=◌
abbrev pub ◌>>=◌ {ℓ κ} : {A : Type ℓ} {B : Type κ} → Outcome A → (A → Outcome B) → Outcome B
ok a >>= f = f a
err >>= f = err
panic >>= f = panic

pub bind-eq-ok {ℓ κ} :
    {A : Type ℓ} {B : Type κ} (first : Outcome A) (then_run : A → Outcome B) {b : B}
    → (first >>= then_run) ≡ ok b
    → (got : A) × (first ≡ ok got) × (then_run got ≡ ok b)
bind-eq-ok err then_run done = cc
bind-eq-ok panic then_run done = cc
bind-eq-ok (ok got) then_run done = (got, refl, done)

-- A property of what comes back, if anything does.
abbrev pub Ok {ℓ κ} : {A : Type ℓ} → (A → Type κ) → Outcome A → Type κ
Ok P (ok a) = P a
Ok P err = Unit
Ok P panic = Unit

pub Ok-bind {ℓ κ ι} :
    {A : Type ℓ} {B : Type κ} (P : B → Type ι) (m : Outcome A) (f : A → Outcome B)
    → ((a : A) → Ok P (f a))
    → Ok P (m >>= f)
Ok-bind P (ok a) f h = h a
Ok-bind P err f h = tt
Ok-bind P panic f h = tt

pub bind_ok {ℓ κ} :
    {A : Type ℓ} {B : Type κ} (first : Outcome A) (then_run : A → Outcome B) {got : A}
    → first ≡ ok got
    → (first >>= then_run) ≡ then_run got
bind_ok first then_run e = cc
