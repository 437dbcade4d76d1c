-- ===== src/Prelude/Result.antt =====
-- `Result`, and chains of `?` on it.
use mathlib.Core.Path.{◌≡◌, refl, subst}
use mathlib.Core.Logic.{◌⊎◌, inl, inr}
use mathlib.Core.Bool.{Bool, true, false}
use mathlib.Core.Option.{Option, none, some}

pub data Result {ℓ κ} (E : Type ℓ) (A : Type κ) : Type (ℓ ⊔ κ) where
  ok : A → Result E A
  err : E → Result E A

infixl 5 ◌>>=◌ ◌>>◌
abbrev pub ◌>>=◌ {ℓ κ ν} :
    {E : Type ν} {A : Type ℓ} {B : Type κ} → Result E A → (A → Result E B) → Result E B
err problem >>= next = err problem
ok value >>= next = next value

abbrev pub ◌>>◌ {ℓ ν} : {E : Type ν} {B : Type ℓ} → Result E (Unit {0}) → Result E B → Result E B
checked >> next = checked >>= λ _. next

-- `if b { return Err(e); }`.
abbrev pub refuse_if {ν} : {E : Type ν} → Bool → E → Result E (Unit {0})
refuse_if true e = err e
refuse_if false e = ok tt

-- `ok_or`.
abbrev pub ok_or {ℓ ν} : {E : Type ν} {A : Type ℓ} → Option A → E → Result E A
ok_or (some value) problem = ok value
ok_or none problem = err problem

-- `is_ok`.
abbrev pub is_ok {ℓ ν} : {E : Type ν} {A : Type ℓ} → Result E A → Bool
is_ok (ok a) = true
is_ok (err e) = false

-- What holds of the value of a chain that succeeds. It is shut, so that its arguments are read off.
pub Ensures {ℓ κ ν} : {E : Type ν} {A : Type ℓ} → (A → Type κ) → Result E A → Type κ
Ensures P (ok a) = P a
Ensures P (err e) = Unit

pub ensures-ok {ℓ κ ν} :
    {E : Type ν} {A : Type ℓ} (P : A → Type κ) (m : Result E A) {a : A}
    → Ensures P m
    → m ≡ ok a
    → P a
unfolding Ensures
ensures-ok P m e h = subst (Ensures P) h e

pub ok-ensures {ℓ κ ν} :
    (E : Type ν) {A : Type ℓ} (P : A → Type κ) {a : A} → P a → Ensures {E = E} P (ok a)
unfolding Ensures
ok-ensures E P h = h

pub err-ensures {ℓ κ ν} : {E : Type ν} {A : Type ℓ} (P : A → Type κ) (e : E) → Ensures P (err e)
unfolding Ensures
err-ensures P e = tt

pub always-ensures {ℓ κ ν} :
    {E : Type ν} {A : Type ℓ} (P : A → Type κ) (m : Result E A) → ((a : A) → P a) → Ensures P m
unfolding Ensures
always-ensures P (ok a) h = h a
always-ensures P (err e) h = tt

module _ {ℓ κ ν μ} {E : Type μ} {A : Type ℓ} {B : Type κ} (P : B → Type ν) where
  pub bind-ensures :
      (m : Result E A) (f : A → Result E B)
      → ((a : A) → m ≡ ok a → Ensures P (f a))
      → Ensures P (m >>= f)
  unfolding Ensures
  bind-ensures (ok a) f h = h a refl
  bind-ensures (err e) f h = tt

pub Result-cases {ℓ ν} :
    {E : Type ν} {A : Type ℓ} (r : Result E A) → ((a : A) × (r ≡ ok a)) ⊎ ((e : E) × (r ≡ err e))
Result-cases (ok a) = inl (a, refl)
Result-cases (err e) = inr (e, refl)
