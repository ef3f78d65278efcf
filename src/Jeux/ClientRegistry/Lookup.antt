-- ===== src/Jeux/ClientRegistry/Lookup.antt =====
-- `creg_lookup` and `creg_all_players` of hw5/src/client_registry.c: clients that stay, the lock
-- that is kept, and an array that is overrun.
use c_starter_projects.Prelude.{
  ℕ, suc, ◌≡◌, refl, sym, ◌∙◌, Option, List, [], ◌∷◌, arith, ◌+◌, ◌<◌, length, map, lt→ltb,
}
use c_starter_projects.Prelude.Int.{ℤ, pos}
use c_starter_projects.Prelude.Strings.{Text}
use c_starter_projects.Jeux.Run.{Run, ok, blocked, fault, ◌>>=◌}
use c_starter_projects.Jeux.ClientRegistry.{
  ClientRegistry, creg_register, creg_unregister, creg_lookup, lookup_loop, creg_shutdown_all,
  creg_all_players,
}

module _ {Client : Type 0} (client_get_fd : Client → ℤ) (player_name : Client → Option Text) where
  -- The client that a lookup finds.
  abbrev pub found : Text → ClientRegistry Client → Run (Option Client)
  found user cr = creg_lookup player_name user cr >>= λ r. ok r.0

  abbrev keeping :
      ClientRegistry Client → Option Client → Run (Option Client × ClientRegistry Client)
  keeping kept o = ok (o, kept)

  drop_kept :
      (r : Run (Option Client)) (kept : ClientRegistry Client)
      → ((r >>= keeping kept) >>= λ q. ok q.0) ≡ r
  drop_kept (ok o) kept = refl
  drop_kept blocked kept = refl
  drop_kept fault kept = refl

  found-lookup_loop :
      (user : Text) (cr : ClientRegistry Client)
      → cr.registry_lock ≡ 1
      → found user cr ≡ lookup_loop player_name user cr.nodes
  unfolding creg_lookup
  found-lookup_loop user cr l = rw l (drop_kept (lookup_loop player_name user cr.nodes) _)

  found_after :
      (client : Client) (user : Text) (cr : ClientRegistry Client)
      → cr.registry_lock ≡ 1
      → (creg_unregister client_get_fd client cr >>= λ r. found user r.1)
        ≡ lookup_loop player_name user cr.nodes
  unfolding creg_unregister
  found_after client user cr l = rw l (found-lookup_loop user _ refl)

  -- An unlocked registry finds for every name after an unregistration what it found before it, the
  -- client that was unregistered included.
  pub found-unregister :
      (client : Client) (user : Text) (cr : ClientRegistry Client)
      → cr.registry_lock ≡ 1
      → (creg_unregister client_get_fd client cr >>= λ r. found user r.1) ≡ found user cr
  unfolding creg_unregister
  found-unregister client user cr l =
      found_after client user cr l ∙ sym (found-lookup_loop user cr l)

  -- A lookup in an unlocked registry without nodes keeps its lock: every later registration,
  -- unregistration, lookup and shutdown blocks.
  pub lookup_empty_locks :
      (client : Client) (user later : Text) (cr : ClientRegistry Client)
      → cr.registry_lock ≡ 1
      → cr.nodes ≡ []
      → ((creg_lookup player_name user cr >>= λ r. creg_register client r.1) ≡ blocked)
        × ((creg_lookup player_name user cr >>= λ r. creg_unregister client_get_fd client r.1)
            ≡ blocked)
        × ((creg_lookup player_name user cr >>= λ r. creg_lookup player_name later r.1) ≡ blocked)
        × ((creg_lookup player_name user cr >>= λ r. creg_shutdown_all client_get_fd r.1) ≡ blocked)
  unfolding creg_lookup lookup_loop creg_register creg_unregister creg_shutdown_all
  lookup_empty_locks client user later cr l e = rw (l, e) (refl, refl, refl, refl)

-- Once an unlocked registry counts two or more clients fewer than it has nodes, `creg_all_players`
-- writes behind the end of its array.
pub all_players_overruns :
    {Client Player : Type 0} (player_of : Client → Player) (first : Client) (rest : List Client)
    (count : ℕ) (cr : ClientRegistry Client)
    → cr.registry_lock ≡ 1
    → cr.nodes ≡ first ∷ rest
    → cr.client_count ≡ pos count
    → count + 1 < length (map player_of (first ∷ rest))
    → creg_all_players player_of cr ≡ fault
unfolding creg_all_players
all_players_overruns player_of first rest count cr l e c h =
    rw (l, e, c, lt→ltb (suc count) (length (map player_of (first ∷ rest))) (omega arith)) refl
