-- ===== src/Jeux/Game/Text.antt =====
-- The text forms of hw5/src/game.c: the moves that clients type, and the board that they are shown.
use c_starter_projects.Prelude.{
  ℕ, suc, ◌+◌, ◌≤◌, ◌≡◌, refl, not, ◌&&◌, Option, none, some, List, [], ◌∷◌, ◌++◌, arith, leb,
  length, get_or, ◌==◌, if◌then◌else◌, ◌≢◌, ◌⊎◌, length-append,
}
use c_starter_projects.Prelude.Int.{ℤ, pos, sub_ℕ, ◌-ℤ◌, ◌≤ℤ◌}
use c_starter_projects.Prelude.Decimal.{decimal, decimal_digit}
use c_starter_projects.Jeux.Run.{Run, ok, ◌>>=◌, sem_wait, sem_post}
use c_starter_projects.Jeux.Game.{
  Role, null_role, first_player_role, second_player_role, Game, GameMove, same_role, cell,
  index_out_of_range,
}

-- The value of a byte as a `char`, which is signed.
abbrev pub char_value : ℕ → ℤ
char_value c = if leb 128 c then sub_ℕ c 256 else pos c

-- The role that the text names, or else the role whose turn it is.
unfoldable pub parsed_role : Role → List ℕ → Role
parsed_role turn text =
    if length text == 1
    then turn
    else if length text == 4
    then (if get_or text 3 0 == b'X'
        then first_player_role
        else if get_or text 3 0 == b'O'
        then second_player_role
        else turn)
    else turn

unfoldable pub game_parse_move : Game → Role → List ℕ → Run (Option GameMove × Game)
unfolding parsed_role ◌-ℤ◌
game_parse_move g role text = do
  lock ← sem_wait g.game_lock
  let posted = record g { game_lock = sem_post lock }
  let index = char_value (get_or text 0 0) -ℤ pos 48
  ok (
      if not (same_role role null_role) && not (same_role g.cur_role role)
      then (none, posted)
      else if index_out_of_range index
      then (none, posted)
      else (
        some (record { board_index = index; cur_player = parsed_role g.cur_role text }),
        posted,
      ))

-- A `malloc`ed buffer: its size, and the text that was written to it (a NUL byte follows it).
pub record Buffer : Type 0 where
  pub size : ℕ
  pub text : List ℕ

-- `garbage` is the text that the fresh buffer happens to hold, where nothing is written.
unfoldable pub game_unparse_move : List ℕ → GameMove → Buffer
game_unparse_move garbage move = record {
  size = length (decimal move.board_index) + 3;
  text =
      if same_role move.cur_player first_player_role
      then decimal move.board_index ++ b'<' ∷ b'-' ∷ b'X' ∷ []
      else if same_role move.cur_player second_player_role
      then decimal move.board_index ++ b'<' ∷ b'-' ∷ b'O' ∷ []
      else garbage;
}

abbrev pub newline : ℕ
newline = 10

abbrev pub board_row : List ℕ → ℕ → ℕ → ℕ → List ℕ
board_row b i j k = cell b i ∷ b'|' ∷ cell b j ∷ b'|' ∷ cell b k ∷ newline ∷ []

abbrev pub board_rule : List ℕ
board_rule = b'-' ∷ b'-' ∷ b'-' ∷ b'-' ∷ b'-' ∷ newline ∷ []

abbrev pub turn_line : Role → List ℕ
turn_line null_role = []
turn_line first_player_role =
    b'X' ∷ b' ' ∷ b't' ∷ b'o' ∷ b' ' ∷ b'm' ∷ b'o' ∷ b'v' ∷ b'e' ∷ newline ∷ []
turn_line second_player_role =
    b'O' ∷ b' ' ∷ b't' ∷ b'o' ∷ b' ' ∷ b'm' ∷ b'o' ∷ b'v' ∷ b'e' ∷ newline ∷ []

abbrev pub board_text : Game → List ℕ
board_text g =
    board_row b 0 1 2
    ++ (board_rule
        ++ (board_row b 3 4 5 ++ (board_rule ++ (board_row b 6 7 8 ++ turn_line g.cur_role))))
  where
    b : List ℕ
    b = g.game_board

-- Every line is added by `strcat` to what the fresh buffer of 35 + 11 bytes holds.
unfoldable pub game_unparse_state : List ℕ → Game → Run (Buffer × Game)
game_unparse_state garbage g = do
  lock ← sem_wait g.game_lock
  ok (record { size = 46; text = garbage ++ board_text g }, record g { game_lock = sem_post lock })

length-turn_line : (role : Role) → length (turn_line role) ≤ 10
length-turn_line null_role = omega arith
length-turn_line first_player_role = omega arith
length-turn_line second_player_role = omega arith

-- The text of a move to one of the cells 1 to 9 by one of the two players is read back as that move
-- by `game_parse_move`, for a game whose lock is free and no role to check; the game is left as it was.
pub parse_move-unparse_move :
    (g : Game) (lock i : ℕ) (role : Role) (garbage : List ℕ)
    → g.game_lock ≡ suc lock
    → 1 ≤ i
    → i ≤ 9
    → role ≢ null_role
    → let move : GameMove = record { board_index = pos i; cur_player = role } in
      game_parse_move g null_role (game_unparse_move garbage move).text ≡ ok (some move, g)
unfolding game_parse_move game_unparse_move ◌-ℤ◌
parse_move-unparse_move g lock i null_role garbage e lo hi h = absurd (h refl)
parse_move-unparse_move g lock i first_player_role garbage e lo hi h =
    ground (arith, decimal_digit i)
parse_move-unparse_move g lock i second_player_role garbage e lo hi h =
    ground (arith, decimal_digit i)

-- A text that parses does so on the turn of the role that is checked (if one is), names a cell of
-- the board, and leaves the game as it was.
pub parse_move-some :
    (g g' : Game) (role : Role) (text : List ℕ) (move : GameMove)
    → game_parse_move g role text ≡ ok (some move, g')
    → (g' ≡ g)
      × (pos 1 ≤ℤ move.board_index)
      × (move.board_index ≤ℤ pos 9)
      × ((role ≡ null_role) ⊎ (g.cur_role ≡ role))
unfolding game_parse_move
parse_move-some g g' role text move e = ground arith

-- Writing the text of a player's move and the NUL byte behind it takes one byte more than
-- `game_unparse_move` allocates.
pub unparse_move_overruns :
    (garbage : List ℕ) (move : GameMove)
    → move.cur_player ≢ null_role
    → length (game_unparse_move garbage move).text + 1 ≡ (game_unparse_move garbage move).size + 1
unfolding game_unparse_move
unparse_move_overruns garbage move h = ground (
  arith,
  length-append (decimal move.board_index) (b'<' ∷ b'-' ∷ b'X' ∷ []),
  length-append (decimal move.board_index) (b'<' ∷ b'-' ∷ b'O' ∷ []),
)

-- The text of a game fits in its buffer, with the NUL byte, when the fresh buffer holds at most
-- five bytes of text; the game is left as it was.
pub unparse_state_fits :
    (garbage : List ℕ) (g : Game) (lock : ℕ)
    → g.game_lock ≡ suc lock
    → length garbage ≤ 5
    → (buffer : Buffer) × (game_unparse_state garbage g ≡ ok (buffer, g))
      × (length buffer.text + 1 ≤ buffer.size)
unfolding game_unparse_state
unparse_state_fits garbage g lock e h = (
  record { size = 46; text = garbage ++ board_text g },
  ground arith,
  omega (arith, length-append garbage (board_text g), length-turn_line g.cur_role),
)
