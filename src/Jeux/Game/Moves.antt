-- ===== src/Jeux/Game/Moves.antt =====
-- `game_apply_move` on every branch, and the turns that follow from it.
use c_starter_projects.Prelude.{
  ℕ, suc, ◌≡◌, refl, sym, ◌≢◌, ◌⊎◌, ◌↔◌, Bool, false, not, ◌||◌, Bool-cases, inl, inr, arith,
  length, set, get_or-set_self, get_or-set_ne, ◌==◌, if◌then◌else◌,
}
use c_starter_projects.Prelude.Int.{pos, minus_one, ◌≤ℤ◌}
use c_starter_projects.Jeux.Run.{ok}
use c_starter_projects.Jeux.Game.{
  Role, first_player_role, second_player_role, Game, GameMove, game_apply_move, offset,
  index_out_of_range, cell,
}
use c_starter_projects.Jeux.Game.Invariant.{IsWellFormed}

abbrev pub letter_of : Role → ℕ
letter_of first_player_role = b'X'
letter_of _ = b'O'

abbrev pub next_role : Role → Role
next_role first_player_role = second_player_role
next_role _ = first_player_role

-- The move names a cell of the board, and that cell is blank.
abbrev pub IsToBlank : Game → GameMove → Type 0
IsToBlank g move =
    (pos 1 ≤ℤ move.board_index)
    × (move.board_index ≤ℤ pos 9)
    × (cell g.game_board (offset move.board_index) ≡ b' ')

-- The letter of the mover is in the cell and no other cell differs, the turn is the opponent's, one
-- more move is counted, and the outcome of the game is as before.
pub record Marks (g : Game) (move : GameMove) (h : Game) : Type 0 where
  pub marked : cell h.game_board (offset move.board_index) ≡ letter_of move.cur_player
  pub kept : (j : ℕ) → j ≢ offset move.board_index → cell h.game_board j ≡ cell g.game_board j
  pub turned : h.cur_role ≡ next_role move.cur_player
  pub counted : h.moves_made ≡ suc g.moves_made
  pub winner_kept : h.game_winner ≡ g.game_winner
  pub terminated_kept : h.terminated ≡ g.terminated
  pub references_kept : h.ref_count ≡ g.ref_count
  pub lock_kept : h.game_lock ≡ g.game_lock

marked : Game → GameMove → Game
marked g move = record g {
  cur_role = next_role move.cur_player;
  game_board = set g.game_board (offset move.board_index) (letter_of move.cur_player);
  moves_made = suc g.moves_made;
}

refused : Game → GameMove → Bool
refused g move =
    index_out_of_range move.board_index || not (cell g.game_board (offset move.board_index) == b' ')

apply_move-marked :
    (g : Game) (move : GameMove)
    → g.game_lock ≡ 1
    → game_apply_move g move
      ≡ ok (if refused g move then (minus_one, g) else (pos 0, marked g move))
unfolding game_apply_move refused marked
apply_move-marked g move e = ground arith

refused_iff : (g : Game) (move : GameMove) → refused g move ≡ false ↔ IsToBlank g move
unfolding refused
refused_iff g move = (λ e. ground arith, λ h. ground arith)

marked-Marks :
    (g : Game) (move : GameMove)
    → length g.game_board ≡ 9
    → IsToBlank g move
    → Marks g move (marked g move)
unfolding marked
marked-Marks g move e h = record {
  marked =
      get_or-set_self g.game_board (offset move.board_index) (letter_of move.cur_player) 0
        (ground arith);
  kept = λ j ne.
      get_or-set_ne g.game_board (offset move.board_index) j (letter_of move.cur_player) 0
        (λ e'. ne (sym e'));
  turned = refl;
  counted = refl;
  winner_kept = refl;
  terminated_kept = refl;
  references_kept = refl;
  lock_kept = refl;
}

-- On a well-formed game `game_apply_move` returns 0 exactly for a move to a blank cell of the board,
-- which it marks with the letter of the mover, and otherwise returns -1 and leaves the game as it is.
-- It accepts such a move out of turn, too, and in a game that has ended.
pub apply_move-Marks :
    (g : Game) (move : GameMove)
    → IsWellFormed g
    → ((h : Game) × (game_apply_move g move ≡ ok (pos 0, h)) × IsToBlank g move × Marks g move h)
      ⊎ ((game_apply_move g move ≡ ok (minus_one, g)) × ¬ IsToBlank g move)
apply_move-Marks g move w = elim (Bool-cases (refused g move)) [
  | inl e ↦ inr (rw (apply_move-marked g move w.unlocked, e), λ h. cc ((refused_iff g move).1 h))
  | inr e ↦
      let blank = (refused_iff g move).0 e in
      inl (
        marked g move,
        rw (apply_move-marked g move w.unlocked, e),
        blank,
        marked-Marks g move w.nine blank,
      )
]
