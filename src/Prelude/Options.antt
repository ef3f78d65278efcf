-- ===== src/Prelude/Options.antt =====
-- What holds of a result that may be missing.
use mathlib.Core.Option.{Option, none, some}

infixl 5 ◌>>=◌
abbrev pub ◌>>=◌ {ℓ κ} : {A : Type ℓ} {B : Type κ} → Option A → (A → Option B) → Option B
none >>= f = none
some a >>= f = f a

-- The property of a result, if there is one.
abbrev pub After {ℓ κ} : {A : Type ℓ} → (A → Type κ) → Option A → Type κ
After P none = Unit
After P (some a) = P a

pub After-bind {ℓ κ λ₁ λ₂} :
    {A : Type ℓ} {B : Type κ} (P : A → Type λ₁) (Q : B → Type λ₂) (o : Option A) (f : A → Option B)
    → After P o
    → ((a : A) → P a → After Q (f a))
    → After Q (o >>= f)
After-bind P Q none f h k = tt
After-bind P Q (some a) f h k = k a h

pub After-map {ℓ κ λ₂} :
    {A : Type ℓ} {B : Type κ} (Q : B → Type λ₂) (o : Option A) (f : A → Option B)
    → ((a : A) → After Q (f a))
    → After Q (o >>= f)
After-map Q none f k = tt
After-map Q (some a) f k = k a

pub After-weaken {ℓ κ λ₁} :
    {A : Type ℓ} (P : A → Type κ) (Q : A → Type λ₁) (o : Option A)
    → ((a : A) → P a → Q a)
    → After P o
    → After Q o
After-weaken P Q none k p = tt
After-weaken P Q (some a) k p = k a p
