-- ===== src/Common/Results.antt =====
-- A computation that may be refused: a value or the refusal.
use mathlib.Core.Path.{◌≡◌, refl}
use mathlib.Core.Bool.{Bool, true, false}

pub data Result {ℓ κ} (E : Type ℓ) (A : Type κ) : Type (ℓ ⊔ κ) where
  ok : A → Result E A
  err : E → Result E A

infixl 5 ◌>>=◌ ◌>>◌
abbrev pub ◌>>=◌ {ℓ κ μ} :
    {E : Type ℓ} {A : Type κ} {B : Type μ} → Result E A → (A → Result E B) → Result E B
ok a >>= f = f a
err e >>= f = err e

abbrev pub ◌>>◌ {ℓ μ} : {E : Type ℓ} {B : Type μ} → Result E (Unit {0}) → Result E B → Result E B
m >> k = m >>= λ _. k

-- `if (!test) throw e`
abbrev pub guard {ℓ} : {E : Type ℓ} → Bool → E → Result E (Unit {0})
guard true e = ok tt
guard false e = err e

-- A property of the value of a computation that is not refused.
abbrev pub OnOk {ℓ κ μ} : {E : Type ℓ} {A : Type κ} → (A → Type μ) → Result E A → Type μ
OnOk P (ok a) = P a
OnOk P (err e) = Unit

pub OnOk-bind {ℓ κ ν μ} :
    {E : Type ℓ} {A : Type κ} {B : Type ν} (P : A → Type μ) (Q : B → Type μ) (m : Result E A)
    (f : A → Result E B)
    → OnOk P m
    → ((a : A) → P a → OnOk Q (f a))
    → OnOk Q (m >>= f)
OnOk-bind P Q (ok a) f h g = g a h
OnOk-bind P Q (err e) f h g = tt

-- After a test that did not refuse, the test is known to hold.
pub OnOk-guard {ℓ κ μ} :
    {E : Type ℓ} {B : Type κ} (Q : B → Type μ) (b : Bool) (e : E) (m : Result E B)
    → (b ≡ true → OnOk Q m)
    → OnOk Q (guard b e >> m)
OnOk-guard Q true e m h = h refl
OnOk-guard Q false e m h = tt

pub OnOk-any {ℓ κ} : {E : Type ℓ} {A : Type κ} (m : Result E A) → OnOk (λ _. Unit {0}) m
OnOk-any (ok a) = tt
OnOk-any (err e) = tt
