-- ===== src/Jeux/Server/Users.antt =====
-- The request for the list of users in hw5/src/server.c: no run of it returns.
use c_starter_projects.Prelude.{
  ℕ, ◌+◌, ◌≡◌, refl, true, Option, none, some, List, [], ◌∷◌, ◌++◌, length, arith, Option-cases,
  inl, inr, leb, ltb, if_elim,
}
use c_starter_projects.Prelude.Strings.{Text}
use c_starter_projects.Prelude.Decimal.{decimal}
use c_starter_projects.Jeux.Run.{fault, Returning, Returning-map}
use c_starter_projects.Jeux.Player.{player_get_name, player_get_rating}
use c_starter_projects.Jeux.PlayerRegistry.{Players}
use c_starter_projects.Jeux.ClientRegistry.{creg_all_players}
use c_starter_projects.Jeux.Server.{
  Clients, Server, Moment, add_line, user_lines, users_text, unref_each, users,
}

-- The buffer has no room for the NUL byte of its first line.
add_line_faults : (players : Players) (buffer : Text) (p : ℕ) → add_line players buffer p ≡ fault
unfolding add_line
add_line_faults players buffer p = elim (Option-cases (player_get_name (players p))) [
  | inl freed ↦ rw (add_line, freed) refl
  | inr (name, e) ↦
      let rating = decimal (player_get_rating (players p)) in
      let line = name ++ b'\t' ∷ rating ++ b'\n' ∷ [] in
      let over : ltb (length line) (length buffer + length line + 1) ≡ true = ground arith in
      rw (add_line, e, over)
        (if_elim (λ o. o ≡ fault) (leb 10 (length rating)) fault fault refl refl)
]

users_text_faults :
    (players : Players) (buffer : Text) (all : List (Option ℕ))
    → users_text players buffer all ≡ fault
unfolding users_text user_lines
users_text_faults players buffer [] = refl
users_text_faults players buffer (none ∷ rest) = refl
users_text_faults players buffer (some p ∷ rest) = rw (add_line_faults players buffer p) refl

-- The request never returns: it faults or blocks.
pub users_never :
    {Client Heap : Type 0} (lib : Clients Client Heap) (now : Moment) (s : Server Client Heap)
    → Returning (λ t. ⊥) (users lib now s)
unfolding users
users_never lib now s =
    Returning-map (λ t. ⊥) (creg_all_players (lib.client_get_player s.heap) s.client_registry) _
      (λ all.
        Returning-map (λ t. ⊥) (unref_each all.1 s.players) _
          (λ left. elim (Option-cases all.0) [
            | inl nothing ↦ rw nothing tt
            | inr (players, e) ↦ rw (e, users_text_faults left now.fill players) tt
          ]))
