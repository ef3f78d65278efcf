-- ===== src/Jeux/Game/Winner.antt =====
-- How `game_is_over` decides a game.
use c_starter_projects.Prelude.{
  ℕ, zero, suc, ◌<◌, ◌≡◌, refl, sym, ◌≢◌, ◌⊎◌, inl, inr, List, [], ◌∷◌, arith, length, true, All,
  ◌==◌, if◌then◌else◌, ◌||◌,
}
use c_starter_projects.Prelude.Int.{pos}
use c_starter_projects.Jeux.Run.{ok}
use c_starter_projects.Jeux.Game.{
  Role, null_role, first_player_role, second_player_role, Game, cell, is_line, winning_letter,
  game_is_over,
}
use c_starter_projects.Jeux.Game.Invariant.{IsWellFormed, IsMark}

-- Three rows, three columns and two diagonals.
abbrev pub lines : List (ℕ × ℕ × ℕ)
lines =
    (0, 1, 2)
    ∷ (3, 4, 5)
    ∷ (6, 7, 8)
    ∷ (0, 3, 6)
    ∷ (1, 4, 7)
    ∷ (2, 5, 8)
    ∷ (0, 4, 8)
    ∷ (2, 4, 6)
    ∷ []

-- The letter `c` fills one of the lines.
abbrev pub HasLine : List ℕ → ℕ → List (ℕ × ℕ × ℕ) → Type 0
HasLine board c [] = ⊥
HasLine board c ((i, j, k) ∷ ls) =
    ((cell board i ≡ c) × (cell board j ≡ c) × (cell board k ≡ c)) ⊎ HasLine board c ls

first_line : List ℕ → List (ℕ × ℕ × ℕ) → ℕ
first_line board [] = b' '
first_line board ((i, j, k) ∷ ls) =
    if is_line board i j k then cell board i else first_line board ls

winning_letter-first_line : (board : List ℕ) → winning_letter board ≡ first_line board lines
unfolding winning_letter first_line
winning_letter-first_line board = refl

first_line-HasLine :
    (board : List ℕ) (ls : List (ℕ × ℕ × ℕ)) (c : ℕ)
    → first_line board ls ≡ c
    → c ≢ b' '
    → HasLine board c ls
unfolding first_line is_line
first_line-HasLine board [] c e n = absurd (n (sym e))
first_line-HasLine board ((i, j, k) ∷ ls) c e n = ground (arith, first_line-HasLine board ls c)

first_line-ne-blank :
    (board : List ℕ) (ls : List (ℕ × ℕ × ℕ)) (c : ℕ)
    → HasLine board c ls
    → c ≢ b' '
    → first_line board ls ≢ b' '
unfolding first_line is_line
first_line-ne-blank board [] c h n = absurd h
first_line-ne-blank board ((i, j, k) ∷ ls) c h n = ground (arith, first_line-ne-blank board ls c)

cell-IsMark : (board : List ℕ) (i : ℕ) → All IsMark board → i < length board → IsMark (cell board i)
cell-IsMark [] i h lt = absurd (omega arith)
cell-IsMark (x ∷ xs) zero h lt = h.0
cell-IsMark (x ∷ xs) (suc i) h lt = cell-IsMark xs i h.1 (omega arith)

abbrev Starts : ℕ → ℕ × ℕ × ℕ → Type 0
Starts n (i, j, k) = i < n

first_line-IsMark :
    (board : List ℕ) (ls : List (ℕ × ℕ × ℕ))
    → All IsMark board
    → All (Starts (length board)) ls
    → IsMark (first_line board ls)
unfolding first_line
first_line-IsMark board [] h lt = inl refl
first_line-IsMark board ((i, j, k) ∷ ls) h lt =
    ground (arith, cell-IsMark board i h lt.0, first_line-IsMark board ls h lt.1)

-- The role that plays a letter.
abbrev pub player_of : ℕ → Role
player_of c = if c == b'X' then first_player_role else second_player_role

abbrev pub IsWon : List ℕ → ℕ → Type 0
IsWon board c = ((c ≡ b'X') ⊎ (c ≡ b'O')) × HasLine board c lines

abbrev Decided : List ℕ → ℕ → Type 0
Decided board c = IsWon board c ⊎ (((d : ℕ) → ¬ IsWon board d) × (c ≢ b'X') × (c ≢ b'O'))

first_line-Decided :
    (board : List ℕ) → IsMark (first_line board lines) → Decided board (first_line board lines)
first_line-Decided board (inl blank) = inr (
  λ d (letter, line). first_line-ne-blank board lines d line (λ e. ground arith) blank,
  ground arith,
  ground arith,
)
first_line-Decided board (inr (inl x)) =
    inl (inl x, first_line-HasLine board lines _ refl (ground arith))
first_line-Decided board (inr (inr o)) =
    inl (inr o, first_line-HasLine board lines _ refl (ground arith))

winning_letter-Decided :
    (board : List ℕ) → All IsMark board → length board ≡ 9 → Decided board (winning_letter board)
winning_letter-Decided board h e =
    rw winning_letter-first_line
      (first_line-Decided board (first_line-IsMark board lines h (rw e (omega arith))))

is_over-letter :
    (g : Game) (c : ℕ)
    → g.game_lock ≡ 1
    → g.moves_made ≢ 9
    → winning_letter g.game_board ≡ c
    → game_is_over g
      ≡ ok (
          if (c == b'X') || (c == b'O')
          then (pos 1, record g { game_winner = player_of c; terminated = true })
          else (pos 0, g))
unfolding game_is_over
is_over-letter g c e ne l = ground arith

-- On a well-formed game of fewer or more than nine moves, either X or O fills a line and
-- `game_is_over` returns 1, makes the player of that letter the winner and ends the game, or neither
-- does and it returns 0 and leaves the game as it is.
pub is_over_decides :
    (g : Game)
    → IsWellFormed g
    → g.moves_made ≢ 9
    → ((c : ℕ) × IsWon g.game_board c
        × (game_is_over g ≡ ok (pos 1, record g { game_winner = player_of c; terminated = true })))
      ⊎ (((c : ℕ) → ¬ IsWon g.game_board c) × (game_is_over g ≡ ok (pos 0, g)))
is_over_decides g w ne =
    let c = winning_letter g.game_board in
    let over = is_over-letter g c w.unlocked ne refl in
    elim (winning_letter-Decided g.game_board w.marks w.nine) [
      | inl won ↦ inl (c, won, ground (arith, over, won.0))
      | inr (lost, x, o) ↦ inr (lost, ground (arith, over, x, o))
    ]

-- A line that the ninth move completes does not win: `game_is_over` ends the game with no winner.
pub ninth_move_win_lost :
    (g : Game) (c : ℕ)
    → IsWellFormed g
    → g.moves_made ≡ 9
    → IsWon g.game_board c
    → (h : Game) × (game_is_over g ≡ ok (pos 1, h))
      × IsWon h.game_board c
      × (h.terminated ≡ true)
      × (h.game_winner ≡ null_role)
unfolding game_is_over
ninth_move_win_lost g c w nine won =
    (record g { game_winner = null_role; terminated = true }, ground arith, won, refl, refl)
