-- ===== src/Jeux/Game/Invariant.antt =====
-- What every game of the server keeps: a board of nine marks, as many moves as filled cells, and a
-- free lock.
use c_starter_projects.Prelude.{
  ℕ, zero, suc, ◌≤◌, ◌<◌, ◌≡◌, refl, ◌≢◌, ◌⊎◌, some, List, [], ◌∷◌, arith, length, get_or, set, All,
  length-set, All-set, ◌==◌, if◌then◌else◌,
}
use c_starter_projects.Prelude.Int.{ℤ, minus_one}
use c_starter_projects.Jeux.Run.{ok}
use c_starter_projects.Jeux.Game.{
  Role, Game, GameMove, game_create, game_ref, game_unref, game_apply_move, game_resign,
  game_is_over, offset,
}

abbrev pub IsMark : ℕ → Type 0
IsMark c = (c ≡ b' ') ⊎ (c ≡ b'X') ⊎ (c ≡ b'O')

-- The number of cells that are not blank.
abbrev pub filled : List ℕ → ℕ
filled [] = 0
filled (c ∷ cs) = if c == b' ' then filled cs else suc (filled cs)

pub record IsWellFormed (g : Game) : Type 0 where
  pub nine : length g.game_board ≡ 9
  pub marks : All IsMark g.game_board
  pub counted : g.moves_made ≡ filled g.game_board
  pub unlocked : g.game_lock ≡ 1

filled-set :
    (cs : List ℕ) (i v : ℕ)
    → i < length cs
    → get_or cs i 0 ≡ b' '
    → v ≢ b' '
    → filled (set cs i v) ≡ suc (filled cs)
filled-set [] i v h e n = absurd (omega arith)
filled-set (c ∷ cs) zero v h e n = ground arith
filled-set (c ∷ cs) (suc i) v h e n = ground (arith, filled-set cs i v)

pub filled-le-length : (cs : List ℕ) → filled cs ≤ length cs
filled-le-length [] = omega arith
filled-le-length (c ∷ cs) = ground (arith, filled-le-length cs)

-- A board with no blank cell has a mark at every index.
pub full-ne-blank :
    (cs : List ℕ) (i : ℕ) → filled cs ≡ length cs → i < length cs → get_or cs i 0 ≢ b' '
full-ne-blank [] i e h = absurd (omega arith)
full-ne-blank (c ∷ cs) zero e h = ground (arith, filled-le-length cs)
full-ne-blank (c ∷ cs) (suc i) e h = ground (arith, filled-le-length cs, full-ne-blank cs i)

-- The calls of the module on a game that stays alive.
pub data GameStep (g h : Game) : Type 0 where
  refers : game_ref g ≡ ok h → GameStep g h
  unrefers : game_unref g ≡ ok (some h) → GameStep g h
  applies : (move : GameMove) (ret : ℤ) → game_apply_move g move ≡ ok (ret, h) → GameStep g h
  resigns : (role : Role) (ret : ℤ) → game_resign g role ≡ ok (ret, some h) → GameStep g h
  checks : (ret : ℤ) → game_is_over g ≡ ok (ret, h) → GameStep g h

pub data GameReach (g : Game) : Game → Type 0 where
  here : GameReach g g
  next : {h k : Game} → GameReach g h → GameStep h k → GameReach g k

pub game_create-IsWellFormed : IsWellFormed game_create
unfolding game_create
game_create-IsWellFormed = record {
  nine = refl;
  marks = ground arith;
  counted = refl;
  unlocked = refl;
}

apply_move-IsWellFormed :
    (g h : Game) (move : GameMove) (ret : ℤ)
    → game_apply_move g move ≡ ok (ret, h)
    → IsWellFormed g
    → IsWellFormed h
unfolding game_apply_move
apply_move-IsWellFormed g h move ret e w = ground (
  arith,
  length-set g.game_board (offset move.board_index) b'X',
  length-set g.game_board (offset move.board_index) b'O',
  All-set IsMark g.game_board (offset move.board_index) b'X',
  All-set IsMark g.game_board (offset move.board_index) b'O',
  filled-set g.game_board (offset move.board_index) b'X',
  filled-set g.game_board (offset move.board_index) b'O',
)

GameStep-IsWellFormed : {g h : Game} → GameStep g h → IsWellFormed g → IsWellFormed h
unfolding game_ref game_unref game_resign game_is_over
GameStep-IsWellFormed (refers e) w = ground arith
GameStep-IsWellFormed (unrefers e) w = ground arith
GameStep-IsWellFormed (applies move ret e) w = apply_move-IsWellFormed _ _ move ret e w
GameStep-IsWellFormed (resigns role ret e) w = ground arith
GameStep-IsWellFormed (checks ret e) w = ground arith

pub GameReach-IsWellFormed : {g h : Game} → IsWellFormed g → GameReach g h → IsWellFormed h
GameReach-IsWellFormed w here = w
GameReach-IsWellFormed w (next r s) = GameStep-IsWellFormed s (GameReach-IsWellFormed w r)

-- Every game that the calls of the module reach from a new one has nine cells, each blank, X or O,
-- has counted one move for each filled cell, and holds no lock.
pub GameReach-create-IsWellFormed : {g : Game} → GameReach game_create g → IsWellFormed g
GameReach-create-IsWellFormed r = GameReach-IsWellFormed game_create-IsWellFormed r

-- At most nine moves are ever made in a game.
pub moves_made-le-nine : {g : Game} → GameReach game_create g → g.moves_made ≤ 9
moves_made-le-nine {g} r =
    let w = GameReach-create-IsWellFormed r in omega (arith, filled-le-length g.game_board, w)

-- After nine moves every further move is refused and leaves the game as it is.
pub ninth_move_is_last :
    {g : Game} (move : GameMove)
    → GameReach game_create g
    → g.moves_made ≡ 9
    → game_apply_move g move ≡ ok (minus_one, g)
unfolding game_apply_move
ninth_move_is_last {g} move r e =
    let w = GameReach-create-IsWellFormed r in
    ground (arith, w, full-ne-blank g.game_board (offset move.board_index))
