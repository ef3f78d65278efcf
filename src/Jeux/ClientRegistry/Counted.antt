-- ===== src/Jeux/ClientRegistry/Counted.antt =====
-- hw5/src/client_registry.c: the count of the clients against the semaphore `notEmpty`.
use mathlib.Core.Path.{subst}
use mathlib.Core.Bool.{false≢true}
use c_starter_projects.Prelude.{
  ℕ, zero, suc, ◌≤◌, ◌≡◌, refl, sym, ◌∙◌, ◌⊎◌, inl, inr, Bool, true, false, Bool-cases, List, [],
  ◌∷◌, ◌++◌, length, length-append, arith, if◌then◌else◌,
}
use c_starter_projects.Prelude.Int.{ℤ, pos, ◌+ℤ◌, ◌-ℤ◌, ◌≤ℤ◌, ltb_ℤ, eq_ℤ}
use c_starter_projects.Jeux.Run.{Run, ok, blocked, fault, ◌>>=◌, sem_wait, sem_post}
use c_starter_projects.Jeux.ClientRegistry.{
  ClientRegistry, max_clients, creg_init, creg_register, creg_unregister, holds_fd, is_empty,
}
use c_starter_projects.Jeux.ClientRegistry.Waiting.{CregReach, starts, registers, unregisters}

-- A wait returns, or there is a client to wait for.
abbrev pub Awaited : ℕ → ℤ → Type 0
Awaited not_empty count = (1 ≤ not_empty) ⊎ (pos 1 ≤ℤ count)

posted_if : (n : ℕ) (b : Bool) → 1 ≤ n → 1 ≤ (if b then sem_post n else n)
posted_if n true h = omega arith
posted_if n false h = h

still_awaited : (c : ℤ) → pos 1 ≤ℤ c → eq_ℤ (c -ℤ pos 1) (pos 0) ≡ false → pos 1 ≤ℤ c -ℤ pos 1
unfolding ◌-ℤ◌
still_awaited c h e = ground arith

pub counts_down :
    (n : ℕ) (c : ℤ)
    → Awaited n c
    → Awaited (if eq_ℤ (c -ℤ pos 1) (pos 0) then sem_post n else n) (c -ℤ pos 1)
counts_down n c (inl h) = inl (posted_if n (eq_ℤ (c -ℤ pos 1) (pos 0)) h)
counts_down n c (inr h) = elim (Bool-cases (eq_ℤ (c -ℤ pos 1) (pos 0))) [
  | inl e ↦ rw e (inl (omega arith))
  | inr e ↦ rw e (inr (still_awaited c h e))
]

counts_same : (n : ℕ) (c : ℤ) → Awaited n c → Awaited (if eq_ℤ c (pos 0) then sem_post n else n) c
counts_same n c (inl h) = inl (posted_if n (eq_ℤ c (pos 0)) h)
counts_same n c (inr h) = inr h

count_up : (c : ℤ) (n : ℕ) → c ≤ℤ pos n → c +ℤ pos 1 ≤ℤ pos (suc n)
unfolding ◌+ℤ◌
count_up c n h = ground arith

count_down : (c : ℤ) (n : ℕ) → c ≤ℤ pos n → c -ℤ pos 1 ≤ℤ pos n
unfolding ◌-ℤ◌
count_down c n h = ground arith

still_one : (c : ℤ) → pos 1 ≤ℤ c → pos 1 ≤ℤ c +ℤ pos 1
unfolding ◌+ℤ◌
still_one c h = ground arith

first_one : pos 1 ≤ℤ pos 0 +ℤ pos 1
unfolding ◌+ℤ◌
first_one = omega arith

one_client : (n : ℕ) (c : ℤ) → Awaited n c → Awaited n (c +ℤ pos 1)
one_client n c (inl h) = inl h
one_client n c (inr h) = inr (still_one c h)

pub nothing_left : (n : ℕ) (c : ℤ) → Awaited n c → c ≤ℤ pos 0 → 1 ≤ n
nothing_left n c (inl h) k = h
nothing_left n c (inr h) k = absurd (omega (arith, h, k))

module _ {Client : Type 0} (client_get_fd : Client → ℤ) where
  pub record IsCounted (cr : ClientRegistry Client) : Type 0 where
    pub unlocked : cr.registry_lock ≡ 1
    pub at_most : cr.client_count ≤ℤ pos (length cr.nodes)
    pub fresh : is_empty cr.nodes ≡ true → cr.client_count ≡ pos 0
    pub awaited : Awaited cr.not_empty cr.client_count

  CountedRun {ℓ} : {A : Type ℓ} → Run (A × ClientRegistry Client) → Type 0
  CountedRun (ok r) = IsCounted r.1
  CountedRun blocked = Unit {0}
  CountedRun fault = Unit {0}

  not_empty_behind : (cs : List Client) (c : Client) → is_empty (cs ++ c ∷ []) ≡ false
  not_empty_behind [] c = refl
  not_empty_behind (d ∷ cs) c = refl

  grown :
      (client : Client) (cr : ClientRegistry Client) (left : ℕ)
      → IsCounted cr
      → Awaited left (cr.client_count +ℤ pos 1)
      → IsCounted (record {
        nodes = cr.nodes ++ client ∷ [];
        client_count = cr.client_count +ℤ pos 1;
        registry_lock = 1;
        not_empty = left;
      })
  grown client cr left k w =
      let size : suc (length cr.nodes) ≡ length (cr.nodes ++ client ∷ []) =
        omega (arith, length-append cr.nodes (client ∷ [])) in
      record {
        unlocked = refl;
        at_most =
            subst (λ n. cr.client_count +ℤ pos 1 ≤ℤ pos n) size
              (count_up cr.client_count (length cr.nodes) k.at_most);
        fresh = λ e. absurd (false≢true (sym (not_empty_behind cr.nodes client) ∙ e));
        awaited = w;
      }

  waits-CountedRun :
      {A : Type 0} (n : ℕ) (f : ℕ → A × ClientRegistry Client)
      → ((m : ℕ) → IsCounted (f m).1)
      → CountedRun (sem_wait n >>= λ m. ok (f m))
  unfolding CountedRun
  waits-CountedRun zero f h = tt
  waits-CountedRun (suc n) f h = h n

  register-CountedRun :
      (client : Client) (cr : ClientRegistry Client)
      → IsCounted cr
      → CountedRun (creg_register client cr)
  unfolding creg_register CountedRun
  register-CountedRun client cr k = elim (Bool-cases (ltb_ℤ cr.client_count max_clients)) [
    | inl small ↦ elim (Bool-cases (is_empty cr.nodes)) [
      | inl e ↦
          rw (k.unlocked, small, e)
            (waits-CountedRun cr.not_empty _ (λ m.
              grown client cr m k
                (inr (subst (λ c. pos 1 ≤ℤ c +ℤ pos 1) (sym (k.fresh e)) first_one))))
      | inr e ↦
          rw (k.unlocked, small, e)
            (grown client cr cr.not_empty k (one_client cr.not_empty cr.client_count k.awaited))
    ]
    | inr full ↦
        rw (k.unlocked, full)
          (record { unlocked = refl; at_most = k.at_most; fresh = k.fresh; awaited = k.awaited })
  ]

  none_found :
      (cs : List Client) (fd : ℤ) → is_empty cs ≡ true → holds_fd client_get_fd fd cs ≡ false
  unfolding holds_fd
  none_found [] fd e = refl
  none_found (c ∷ cs) fd e = absurd (false≢true e)

  unregister-CountedRun :
      (client : Client) (cr : ClientRegistry Client)
      → IsCounted cr
      → CountedRun (creg_unregister client_get_fd client cr)
  unfolding creg_unregister CountedRun
  unregister-CountedRun client cr k =
      elim (Bool-cases (holds_fd client_get_fd (client_get_fd client) cr.nodes)) [
        | inl found ↦
            rw (k.unlocked, found)
              (record {
                unlocked = refl;
                at_most = count_down cr.client_count (length cr.nodes) k.at_most;
                fresh = λ e.
                    absurd
                      (false≢true (sym (none_found cr.nodes (client_get_fd client) e) ∙ found));
                awaited = counts_down cr.not_empty cr.client_count k.awaited;
              })
        | inr lacks ↦
            rw (k.unlocked, lacks)
              (record {
                unlocked = refl;
                at_most = k.at_most;
                fresh = k.fresh;
                awaited = counts_same cr.not_empty cr.client_count k.awaited;
              })
      ]

  pub CregReach-IsCounted : {cr : ClientRegistry Client} → CregReach client_get_fd cr → IsCounted cr
  unfolding CountedRun
  CregReach-IsCounted starts =
      unfold creg_init in
      record {
        unlocked = refl;
        at_most = omega arith;
        fresh = λ e. refl;
        awaited = inl (omega arith);
      }
  CregReach-IsCounted (registers {cr} client o reach e) =
      subst CountedRun e (register-CountedRun client cr (CregReach-IsCounted reach))
  CregReach-IsCounted (unregisters {cr} client r reach e) =
      subst CountedRun e (unregister-CountedRun client cr (CregReach-IsCounted reach))
