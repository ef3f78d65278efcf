-- ===== src/Jeux/Game/Tests.antt =====
-- Sample games, and the theorems about hw5/src/game.c at them.
use c_starter_projects.Prelude.{
  ℕ, ◌≤◌, ◌≡◌, refl, ◌⊎◌, true, false, none, some, List, [], ◌∷◌, arith,
}
use c_starter_projects.Prelude.Int.{ℤ, pos, minus_one, ◌≤ℤ◌}
use c_starter_projects.Jeux.Run.{Run, ok, blocked, fault}
use c_starter_projects.Jeux.Game.{
  Role, null_role, first_player_role, second_player_role, Game, GameMove, game_create,
  game_apply_move, game_is_over, winning_letter,
}
use c_starter_projects.Jeux.Game.Text.{
  game_parse_move, game_unparse_move, parse_move-unparse_move, parse_move-some,
}
use c_starter_projects.Jeux.Game.Invariant.{
  IsWellFormed, applies, GameReach, here, next, GameReach-create-IsWellFormed, moves_made-le-nine,
}
use c_starter_projects.Jeux.Game.Moves.{IsToBlank, Marks, apply_move-Marks}
use c_starter_projects.Jeux.Game.Winner.{IsWon, player_of, is_over_decides}
use c_starter_projects.Jeux.Game.Lifetime.{unref_times, unref_frees}

abbrev board_game : List ℕ → ℕ → Game
board_game board moves = record {
  game_winner = null_role;
  cur_role = second_player_role;
  ref_count = pos 2;
  game_draw = false;
  terminated = false;
  game_board = board;
  moves_made = moves;
  game_lock = 1;
}

-- X X X / O O . / . . .
abbrev top_row : Game
top_row = board_game (b'X' ∷ b'X' ∷ b'X' ∷ b'O' ∷ b'O' ∷ b' ' ∷ b' ' ∷ b' ' ∷ b' ' ∷ []) 5

-- X X X / O O X / X O O
abbrev full_with_row : Game
full_with_row = board_game (b'X' ∷ b'X' ∷ b'X' ∷ b'O' ∷ b'O' ∷ b'X' ∷ b'X' ∷ b'O' ∷ b'O' ∷ []) 9

top_row-IsWellFormed : IsWellFormed top_row
top_row-IsWellFormed = record { nine = refl; marks = ground arith; counted = refl; unlocked = refl }

full_with_row-IsWellFormed : IsWellFormed full_with_row
full_with_row-IsWellFormed = record {
  nine = refl;
  marks = ground arith;
  counted = refl;
  unlocked = refl;
}

abbrev move_to : ℕ → Role → GameMove
move_to i role = record { board_index = pos i; cur_player = role }

abbrev left_by : Game → Run (ℤ × Game) → Game
left_by g (ok (ret, h)) = h
left_by g blocked = g
left_by g fault = g

abbrev moved : Game → ℕ → Role → Game
moved g i role = left_by g (game_apply_move g (move_to i role))

abbrev opened : Game
opened = moved game_create 5 first_player_role

opened_reached : GameReach game_create opened
unfolding game_apply_move game_create
opened_reached = next here (applies (move_to 5 first_player_role) (pos 0) refl)

GameReach-create-IsWellFormed_example : IsWellFormed opened
unfolding game_apply_move game_create
GameReach-create-IsWellFormed_example = GameReach-create-IsWellFormed opened_reached

moves_made-le-nine_example : opened.moves_made ≤ 9
unfolding game_apply_move game_create
moves_made-le-nine_example = moves_made-le-nine opened_reached

abbrev reply : Game → ℕ → ℕ → Game
reply g i j = moved (moved g i first_player_role) j second_player_role

abbrev filled_up : Game
filled_up = moved (reply (reply (reply (reply game_create 1 4) 2 5) 6 3) 7 8) 9 first_player_role

reply_reached :
    {g h : Game} (i j : ℕ) {k : Game}
    → GameReach game_create g
    → game_apply_move g (move_to i first_player_role) ≡ ok (pos 0, h)
    → game_apply_move h (move_to j second_player_role) ≡ ok (pos 0, k)
    → GameReach game_create k
reply_reached i j r p q = next (next r (applies _ _ p)) (applies _ _ q)

filled_up_reached : GameReach game_create filled_up
unfolding game_apply_move game_create
filled_up_reached =
    next
      (reply_reached 7 8
        (reply_reached 6 3 (reply_reached 2 5 (reply_reached 1 4 here refl refl) refl refl) refl
          refl)
        refl refl)
      (applies (move_to 9 first_player_role) (pos 0) refl)

parse_move-unparse_move_example :
    game_parse_move top_row null_role (game_unparse_move [] (move_to 7 second_player_role)).text
    ≡ ok (some (move_to 7 second_player_role), top_row)
parse_move-unparse_move_example =
    parse_move-unparse_move top_row 0 7 second_player_role [] refl (omega arith) (omega arith)
      (λ e. cc)

parse_move-some_example :
    (top_row ≡ top_row)
    × (pos 1 ≤ℤ pos 7)
    × (pos 7 ≤ℤ pos 9)
    × ((second_player_role ≡ null_role) ⊎ (top_row.cur_role ≡ second_player_role))
unfolding game_parse_move
parse_move-some_example =
    parse_move-some top_row top_row second_player_role (b'7' ∷ []) (move_to 7 second_player_role)
      refl

apply_move-Marks_example :
    ((h : Game) × (game_apply_move top_row (move_to 6 second_player_role) ≡ ok (pos 0, h))
      × IsToBlank top_row (move_to 6 second_player_role)
      × Marks top_row (move_to 6 second_player_role) h)
    ⊎ ((game_apply_move top_row (move_to 6 second_player_role) ≡ ok (minus_one, top_row))
        × ¬ IsToBlank top_row (move_to 6 second_player_role))
apply_move-Marks_example =
    apply_move-Marks top_row (move_to 6 second_player_role) top_row-IsWellFormed

is_over_decides_example :
    ((c : ℕ) × IsWon top_row.game_board c
      × (game_is_over top_row
          ≡ ok (pos 1, record top_row { game_winner = player_of c; terminated = true })))
    ⊎ (((c : ℕ) → ¬ IsWon top_row.game_board c) × (game_is_over top_row ≡ ok (pos 0, top_row)))
is_over_decides_example = is_over_decides top_row top_row-IsWellFormed (omega arith)

unref_frees_example : unref_times 2 top_row ≡ ok none
unref_frees_example = unref_frees 1 top_row refl refl

-- The row wins.
top_row_is_won :
    game_is_over top_row
    ≡ ok (pos 1, record top_row { game_winner = first_player_role; terminated = true })
unfolding game_is_over winning_letter
top_row_is_won = refl
