-- ===== src/Prelude/Maybe.antt =====
-- Chains of `?` on `Option`.
use mathlib.Core.Path.{◌≡◌, refl, subst}
use mathlib.Core.Bool.{Bool, true, false}
use mathlib.Core.Option.{Option, none, some}

infixl 5 ◌>>=◌ ◌>>◌
abbrev pub ◌>>=◌ {ℓ κ} : {A : Type ℓ} {B : Type κ} → Option A → (A → Option B) → Option B
none >>= f = none
some a >>= f = f a

abbrev pub ◌>>◌ {ℓ} : {B : Type ℓ} → Option (Unit {0}) → Option B → Option B
m >> k = m >>= λ _. k

-- `if !b { return None; }`.
abbrev pub guard : Bool → Option (Unit {0})
guard true = some tt
guard false = none

pub >>=-eq-some {ℓ κ} :
    {A : Type ℓ} {B : Type κ} (m : Option A) (f : A → Option B) {b : B}
    → (m >>= f) ≡ some b
    → (a : A) × (m ≡ some a) × (f a ≡ some b)
>>=-eq-some none f h = cc
>>=-eq-some (some a) f h = (a, refl, h)

-- What holds of the value of a chain that gives one. It is shut, so that its arguments are read off.
pub Ensures {ℓ κ} : {A : Type ℓ} → (A → Type κ) → Option A → Type κ
Ensures P none = Unit
Ensures P (some a) = P a

pub ensures-some {ℓ κ} :
    {A : Type ℓ} (P : A → Type κ) (m : Option A) {a : A} → Ensures P m → m ≡ some a → P a
unfolding Ensures
ensures-some P m {a} e h = subst (Ensures P) h e

pub some-ensures {ℓ κ} : {A : Type ℓ} (P : A → Type κ) {a : A} → P a → Ensures P (some a)
unfolding Ensures
some-ensures P h = h

pub none-ensures {ℓ κ} : {A : Type ℓ} (P : A → Type κ) → Ensures P none
unfolding Ensures
none-ensures P = tt

module _ {ℓ κ ν} {A : Type ℓ} {B : Type κ} (P : B → Type ν) where
  pub bind-ensures :
      (m : Option A) (f : A → Option B)
      → ((a : A) → m ≡ some a → Ensures P (f a))
      → Ensures P (m >>= f)
  unfolding Ensures
  bind-ensures none f h = tt
  bind-ensures (some a) f h = h a refl
