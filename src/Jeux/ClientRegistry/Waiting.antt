-- ===== src/Jeux/ClientRegistry/Waiting.antt =====
-- hw5/src/client_registry.c: the number of clients, and when `creg_wait_for_empty` returns.
use mathlib.Core.Path.{subst}
use c_starter_projects.Prelude.{
  ℕ, zero, suc, ◌≡◌, refl, true, Option, List, [], ◌∷◌, ◌++◌, arith, Bool-cases, inl, inr, if_elim,
}
use c_starter_projects.Prelude.Int.{ℤ, pos, ◌+ℤ◌, ◌-ℤ◌, ◌≤ℤ◌, ltb_ℤ, eq_ℤ}
use c_starter_projects.Jeux.Run.{Run, ok, blocked, fault, ◌>>=◌, sem_wait}
use c_starter_projects.Jeux.ClientRegistry.{
  ClientRegistry, max_clients, creg_init, creg_register, creg_unregister, holds_fd,
  creg_wait_for_empty, is_empty,
}

one_more : (c : ℤ) → ltb_ℤ c max_clients ≡ true → c +ℤ pos 1 ≤ℤ max_clients
unfolding ◌+ℤ◌
one_more c h = ground arith

one_less : (c : ℤ) → c ≤ℤ max_clients → c -ℤ pos 1 ≤ℤ max_clients
unfolding ◌-ℤ◌
one_less c h = ground arith

module _ {Client : Type 0} (client_get_fd : Client → ℤ) where
  -- The registries that registrations and unregistrations make from the first one.
  pub data CregReach : ClientRegistry Client → Type 0 where
    starts : CregReach creg_init
    registers :
        {cr left : ClientRegistry Client} (client : Client) (o : Option Client)
        → CregReach cr
        → creg_register client cr ≡ ok (o, left)
        → CregReach left
    unregisters :
        {cr left : ClientRegistry Client} (client : Client) (r : ℤ)
        → CregReach cr
        → creg_unregister client_get_fd client cr ≡ ok (r, left)
        → CregReach left

  pub record IsBounded (cr : ClientRegistry Client) : Type 0 where
    pub unlocked : cr.registry_lock ≡ 1
    pub bounded : cr.client_count ≤ℤ max_clients

  abbrev BoundedRun {ℓ} : {A : Type ℓ} → Run (A × ClientRegistry Client) → Type 0
  BoundedRun (ok r) = IsBounded r.1
  BoundedRun blocked = Unit {0}
  BoundedRun fault = Unit {0}

  waits-BoundedRun :
      {A : Type 0} (n : ℕ) (k : ℕ → A × ClientRegistry Client)
      → ((m : ℕ) → IsBounded (k m).1)
      → BoundedRun (sem_wait n >>= λ m. ok (k m))
  waits-BoundedRun zero k f = tt
  waits-BoundedRun (suc n) k f = f n

  register-BoundedRun :
      (client : Client) (cr : ClientRegistry Client)
      → IsBounded cr
      → BoundedRun (creg_register client cr)
  unfolding creg_register
  register-BoundedRun client cr b = elim (Bool-cases (ltb_ℤ cr.client_count max_clients)) [
    | inl small ↦
        let more = one_more cr.client_count small in
        rw (b.unlocked, small)
          (if_elim BoundedRun (is_empty cr.nodes) _ _
            (waits-BoundedRun cr.not_empty _ (λ m. record { unlocked = refl; bounded = more }))
            (record { unlocked = refl; bounded = more }))
    | inr full ↦ rw (b.unlocked, full) (record { unlocked = refl; bounded = b.bounded })
  ]

  unregister-BoundedRun :
      (client : Client) (cr : ClientRegistry Client)
      → IsBounded cr
      → BoundedRun (creg_unregister client_get_fd client cr)
  unfolding creg_unregister
  unregister-BoundedRun client cr b =
      let count =
        if_elim (λ c. c ≤ℤ max_clients) (holds_fd client_get_fd (client_get_fd client) cr.nodes)
          (cr.client_count -ℤ pos 1) cr.client_count (one_less cr.client_count b.bounded)
          b.bounded in
      rw b.unlocked (record { unlocked = refl; bounded = count })

  -- Every registry that registrations and unregistrations make from the first one is unlocked and
  -- counts at most `MAX_CLIENTS` clients.
  pub CregReach-IsBounded : {cr : ClientRegistry Client} → CregReach cr → IsBounded cr
  CregReach-IsBounded starts = unfold creg_init in record { unlocked = refl; bounded = omega arith }
  CregReach-IsBounded (registers {cr} client o reach e) =
      subst BoundedRun e (register-BoundedRun client cr (CregReach-IsBounded reach))
  CregReach-IsBounded (unregisters {cr} client r reach e) =
      subst BoundedRun e (unregister-BoundedRun client cr (CregReach-IsBounded reach))

  eq_ℤ_self : (a : ℤ) → eq_ℤ a a ≡ true
  eq_ℤ_self a = ground arith

  -- With the first client registered `creg_wait_for_empty` blocks, and once that client is
  -- unregistered it returns.
  pub wait_first_client :
      (client : Client)
      → ((creg_register client creg_init >>= λ r. creg_wait_for_empty r.1) ≡ blocked)
        × ((left : ClientRegistry Client) × ((creg_register client creg_init
                >>= (λ r. creg_unregister client_get_fd client r.1)
                >>= (λ r. creg_wait_for_empty r.1))
              ≡ ok left)
            × (left.client_count ≡ pos 0))
  unfolding creg_register creg_init creg_unregister creg_wait_for_empty holds_fd ◌+ℤ◌ ◌-ℤ◌
  wait_first_client client = (refl, rw (eq_ℤ_self (client_get_fd client)) (_, refl, refl))

-- A registry that has had a client and is at 0 on `notEmpty` no more registers further clients
-- without a wait on it, so that `creg_wait_for_empty` returns with a client registered.
pub wait_ignores_client :
    {Client : Type 0} (client first : Client) (rest : List Client) (n : ℕ)
    (cr : ClientRegistry Client)
    → cr.nodes ≡ first ∷ rest
    → cr.registry_lock ≡ 1
    → cr.not_empty ≡ suc n
    → ltb_ℤ cr.client_count max_clients ≡ true
    → (creg_register client cr >>= λ r. creg_wait_for_empty r.1)
      ≡ ok (record cr { nodes = cr.nodes ++ client ∷ []; client_count = cr.client_count +ℤ pos 1 })
unfolding creg_register creg_wait_for_empty
wait_ignores_client client first rest n cr e l w c = rw (l, c, e, w) refl
