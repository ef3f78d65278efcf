-- ===== src/Jeux/Run.antt =====
-- Runs of the server's functions, and POSIX semaphores as the sources use them (`P` and `V`).
-- The model runs one thread at a time: a call that waits on a semaphore of value 0, with nobody
-- left to post it, never returns.
use c_starter_projects.Prelude.{ℕ, zero, suc}

pub data Run {ℓ} (A : Type ℓ) : Type ℓ where
  ok : A → Run A
  blocked : Run A
  fault : Run A

infixl 5 ◌>>=◌ ◌>>◌
abbrev pub ◌>>=◌ {ℓ κ} : {A : Type ℓ} {B : Type κ} → Run A → (A → Run B) → Run B
ok a >>= f = f a
blocked >>= f = blocked
fault >>= f = fault

abbrev pub ◌>>◌ {ℓ} : {B : Type ℓ} → Run (Unit {0}) → Run B → Run B
m >> k = m >>= λ _. k

-- `sem_wait`, behind `P`
abbrev pub sem_wait : ℕ → Run ℕ
sem_wait zero = blocked
sem_wait (suc n) = ok n

-- `sem_post`, behind `V`
abbrev pub sem_post : ℕ → ℕ
sem_post n = suc n

-- The property of the result of a run, if it has one.
abbrev pub Returning {ℓ κ} : {A : Type ℓ} → (A → Type κ) → Run A → Type κ
Returning P (ok a) = P a
Returning P blocked = Unit
Returning P fault = Unit

pub Returning-bind {ℓ κ λ₁ λ₂} :
    {A : Type ℓ} {B : Type κ} (P : A → Type λ₁) (Q : B → Type λ₂) (r : Run A) (f : A → Run B)
    → Returning P r
    → ((a : A) → P a → Returning Q (f a))
    → Returning Q (r >>= f)
Returning-bind P Q (ok a) f p k = k a p
Returning-bind P Q blocked f p k = tt
Returning-bind P Q fault f p k = tt

pub Returning-weaken {ℓ κ λ₁} :
    {A : Type ℓ} (P : A → Type κ) (Q : A → Type λ₁) (r : Run A)
    → ((a : A) → P a → Q a)
    → Returning P r
    → Returning Q r
Returning-weaken P Q (ok a) k p = k a p
Returning-weaken P Q blocked k p = tt
Returning-weaken P Q fault k p = tt

pub Returning-map {ℓ κ λ₂} :
    {A : Type ℓ} {B : Type κ} (Q : B → Type λ₂) (r : Run A) (f : A → Run B)
    → ((a : A) → Returning Q (f a))
    → Returning Q (r >>= f)
Returning-map Q (ok a) f k = k a
Returning-map Q blocked f k = tt
Returning-map Q fault f k = tt
