-- ===== src/Jeux/Store.antt =====
-- Objects by their address. `none` is an address that was never allocated or has been freed.
use c_starter_projects.Prelude.{
  ℕ, zero, suc, ◌≡◌, refl, ◌⊎◌, inl, inr, ◌≢◌, arith, Option, ◌==◌, if◌then◌else◌,
}

abbrev pub null : ℕ
null = 0

abbrev pub Store {ℓ} : Type ℓ → Type ℓ
Store A = ℕ → Option A

abbrev pub write {ℓ} : {A : Type ℓ} → Store A → ℕ → Option A → Store A
write store p left q = if q == p then left else store q

pub other-write {ℓ} :
    {A : Type ℓ} (store : Store A) (p q : ℕ) (left : Option A)
    → q ≢ p
    → write store p left q ≡ store q
other-write store p q left ne = ground arith

pub null-cases : (p : ℕ) → (p ≡ null) ⊎ (p ≢ null)
null-cases zero = inl refl
null-cases (suc p) = inr (omega arith)

pub self-write {ℓ} :
    {A : Type ℓ} (store : Store A) (p : ℕ) (left : Option A) → write store p left p ≡ left
self-write store p left = ground arith
