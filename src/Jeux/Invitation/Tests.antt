-- ===== src/Jeux/Invitation/Tests.antt =====
-- Sample invitations, whose clients are file descriptors, and the theorems at them.
use c_starter_projects.Prelude.{
  ℕ, ◌≡◌, refl, ◌≢◌, ◌⊎◌, none, some, [], ◌∷◌, arith, ◌==◌, if◌then◌else◌,
}
use c_starter_projects.Prelude.Int.{pos, minus_one}
use c_starter_projects.Jeux.Run.{ok}
use c_starter_projects.Jeux.Game.{
  null_role, first_player_role, second_player_role, game_create, game_is_over, winning_letter,
}
use c_starter_projects.Jeux.Store.{null}
use c_starter_projects.Jeux.Invitation.{
  inv_open_state, inv_accepted_state, inv_closed_state, Invitation, Games, inv_create, inv_accept,
  inv_close, InvitationState,
}
use c_starter_projects.Jeux.Invitation.States.{
  InvReach, here, next, closes, accepts, Forward, InvReach-Forward, accept_cases,
}
use c_starter_projects.Jeux.Invitation.Closing.{close_resigns, opponent}

abbrev invitation : InvitationState → ℕ → Invitation ℕ
invitation state game = record {
  inv_game = game;
  inv_source = 4;
  inv_target = 5;
  inv_source_game_role = first_player_role;
  inv_target_game_role = second_player_role;
  inv_state = state;
  ref_count = pos 1;
  inv_lock = 1;
}

abbrev offered : Invitation ℕ
offered = invitation inv_open_state null

abbrev under_way : Invitation ℕ
under_way = invitation inv_accepted_state 7

abbrev no_games : Games
no_games p = none

abbrev one_game : Games
one_game p = if p == 7 then some game_create else none

offered_by_create :
    inv_create (λ fd. pos fd) (some 4) (some 5) first_player_role second_player_role
    ≡ some (offered, 4 ∷ 5 ∷ [])
unfolding inv_create
offered_by_create = refl

accept_then_close :
    InvReach offered no_games (record under_way { inv_state = inv_closed_state }) one_game
unfolding inv_accept inv_close
accept_then_close = next (next here (accepts 7 (pos 0) refl)) (closes null_role (pos 0) refl)

InvReach-Forward_example : Forward offered (record under_way { inv_state = inv_closed_state })
InvReach-Forward_example = InvReach-Forward accept_then_close

accept_cases_example :
    ((offered.inv_state ≡ inv_open_state)
      × (inv' : Invitation ℕ) × (games' : Games) × (inv_accept 7 offered no_games
          ≡ ok (pos 0, inv', games'))
      × (inv'.inv_state ≡ inv_accepted_state)
      × (games' inv'.inv_game ≡ some game_create)
      × ((q : ℕ) → q ≢ 7 → games' q ≡ no_games q))
    ⊎ ((offered.inv_state ≢ inv_open_state)
        × (inv_accept 7 offered no_games ≡ ok (minus_one, offered, no_games)))
accept_cases_example = accept_cases 7 0 offered no_games refl

close_resigns_example :
    (games' : Games) × (inv_close under_way first_player_role one_game
      ≡ ok (pos 0, record under_way { inv_state = inv_closed_state }, games'))
    × (games' 7
        ≡ some (record game_create { game_winner = opponent first_player_role; ref_count = pos 1 }))
    × ((q : ℕ) → q ≢ 7 → games' q ≡ one_game q)
unfolding game_create game_is_over winning_letter
close_resigns_example =
    close_resigns under_way first_player_role one_game game_create 0 refl refl (omega arith) refl
      refl refl refl refl (λ e. cc)
