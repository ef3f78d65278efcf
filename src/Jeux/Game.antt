-- ===== src/Jeux/Game.antt =====
-- hw5/src/game.c, with the roles of hw5/include/game.h: a GAME as a record, each function as a
-- function from the game to the game it leaves. The board is a list of nine characters.
pub mod Text
pub mod Invariant
pub mod Winner
pub mod Moves
pub mod Lifetime
mod Tests
use c_starter_projects.Prelude.{
  ℕ, suc, ◌-◌, Bool, true, false, not, ◌&&◌, ◌||◌, Option, none, some, List, replicate, get_or, set,
  ◌==◌, if◌then◌else◌,
}
use c_starter_projects.Prelude.Int.{ℤ, pos, pos_part, ◌+ℤ◌, ◌-ℤ◌, ltb_ℤ, eq_ℤ, minus_one}
use c_starter_projects.Jeux.Run.{Run, ok, ◌>>=◌, sem_wait, sem_post}

pub data Role : Type 0 where
  null_role first_player_role second_player_role : Role

pub record Game : Type 0 where
  pub game_winner : Role
  pub cur_role : Role
  pub ref_count : ℤ
  pub game_draw : Bool
  pub terminated : Bool
  pub game_board : List ℕ
  pub moves_made : ℕ
  pub game_lock : ℕ

pub record GameMove : Type 0 where
  pub board_index : ℤ
  pub cur_player : Role

abbrev pub game_board_length : ℕ
game_board_length = 9

abbrev pub same_role : Role → Role → Bool
same_role null_role null_role = true
same_role first_player_role first_player_role = true
same_role second_player_role second_player_role = true
same_role _ _ = false

-- `gameBoard[i]`, for the indices of the board
abbrev pub cell : List ℕ → ℕ → ℕ
cell board i = get_or board i 0

unfoldable pub game_create : Game
game_create = record {
  game_winner = null_role;
  cur_role = first_player_role;
  ref_count = pos 2;
  game_draw = false;
  terminated = false;
  game_board = replicate game_board_length b' ';
  moves_made = 0;
  game_lock = 1;
}

unfoldable pub game_ref : Game → Run Game
game_ref g = do
  lock ← sem_wait g.game_lock
  ok (record g { ref_count = g.ref_count +ℤ pos 1; game_lock = sem_post lock })

-- `none`: the count reached 0 and the game was freed.
unfoldable pub game_unref : Game → Run (Option Game)
game_unref g = do
  lock ← sem_wait g.game_lock
  let count = g.ref_count -ℤ pos 1
  ok (
      if eq_ℤ count (pos 0)
      then none
      else some (record g { ref_count = count; game_lock = sem_post lock }))

abbrev pub index_out_of_range : ℤ → Bool
index_out_of_range i = ltb_ℤ (pos 9) i || ltb_ℤ i (pos 1)

-- The cell of a board index in range.
abbrev pub offset : ℤ → ℕ
offset i = pos_part i - 1

unfoldable pub game_apply_move : Game → GameMove → Run (ℤ × Game)
game_apply_move g move = do
  lock ← sem_wait g.game_lock
  let first = same_role move.cur_player first_player_role
  ok (
      if index_out_of_range move.board_index
        || not (cell g.game_board (offset move.board_index) == b' ')
      then (minus_one, record g { game_lock = sem_post lock })
      else (
        pos 0,
        record g {
          cur_role = if first then second_player_role else first_player_role;
          game_board = set g.game_board (offset move.board_index) (if first then b'X' else b'O');
          moves_made = suc g.moves_made;
          game_lock = sem_post lock;
        },
      ))

-- A resignation records the winner and drops one reference.
unfoldable pub game_resign : Game → Role → Run (ℤ × Option Game)
unfolding game_unref
game_resign g role = do
  lock ← sem_wait g.game_lock
  let posted = record g { game_lock = sem_post lock }
  if g.terminated then ok (minus_one, some posted) else do
    let winner = if same_role role first_player_role then second_player_role else first_player_role
    left ← game_unref (record posted { game_winner = winner })
    ok (pos 0, left)

-- Three cells that hold one letter.
unfoldable pub is_line : List ℕ → ℕ → ℕ → ℕ → Bool
is_line board i j k =
    not (cell board i == b' ') && (cell board i == cell board j) && (cell board i == cell board k)

unfoldable pub winning_letter : List ℕ → ℕ
unfolding is_line
winning_letter board =
    if is_line board 0 1 2
    then cell board 0
    else if is_line board 3 4 5
    then cell board 3
    else if is_line board 6 7 8
    then cell board 6
    else if is_line board 0 3 6
    then cell board 0
    else if is_line board 1 4 7
    then cell board 1
    else if is_line board 2 5 8
    then cell board 2
    else if is_line board 0 4 8
    then cell board 0
    else if is_line board 2 4 6
    then cell board 2
    else b' '

unfoldable pub game_is_over : Game → Run (ℤ × Game)
game_is_over g = do
  lock ← sem_wait g.game_lock
  let letter = winning_letter g.game_board
  let posted = record g { game_lock = sem_post lock }
  ok (
      if g.moves_made == 9
      then (pos 1, record posted { game_winner = null_role; terminated = true })
      else if letter == b'X'
      then (pos 1, record posted { game_winner = first_player_role; terminated = true })
      else if letter == b'O'
      then (pos 1, record posted { game_winner = second_player_role; terminated = true })
      else (pos 0, posted))

unfoldable pub game_get_winner : Game → Run (Role × Game)
game_get_winner g = do
  lock ← sem_wait g.game_lock
  ok (g.game_winner, record g { game_lock = sem_post lock })
