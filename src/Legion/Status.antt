-- ===== src/Legion/Status.antt =====
-- `legion_status_all` of hw4/src/cli.c: the table of daemons as text, and how it is read back.
mod Tests
use mathlib.Core.List.{append-nil, append_assoc}
use mathlib.Core.Path.{subst}
use c_starter_projects.Prelude.{
  ℕ, zero, suc, ◌+◌, ◌%◌, ◌/◌, ◌≡◌, ◌≢◌, refl, sym, ap, ◌∙◌, List, [], ◌∷◌, ◌++◌, map, All,
  All-append, arith, ltb, ◌==◌, if◌then◌else◌, Bool-cases, false, ◌≤◌, inl, inr,
}
use c_starter_projects.Prelude.Int.{ℤ, pos, negsuc}
use c_starter_projects.Prelude.Decimal.{show_digits, decimal}
use c_starter_projects.Prelude.Strings.{Text}
use c_starter_projects.Legion.Daemons.{
  Daemon, DaemonStatus, status_unknown, status_inactive, status_starting, status_active,
  status_stopping, status_exited, status_crashed,
}

unfoldable pub daemon_status_map : DaemonStatus → Text
daemon_status_map status_unknown = b'u' ∷ b'n' ∷ b'k' ∷ b'n' ∷ b'o' ∷ b'w' ∷ b'n' ∷ []
daemon_status_map status_inactive = b'i' ∷ b'n' ∷ b'a' ∷ b'c' ∷ b't' ∷ b'i' ∷ b'v' ∷ b'e' ∷ []
daemon_status_map status_starting = b's' ∷ b't' ∷ b'a' ∷ b'r' ∷ b't' ∷ b'i' ∷ b'n' ∷ b'g' ∷ []
daemon_status_map status_active = b'a' ∷ b'c' ∷ b't' ∷ b'i' ∷ b'v' ∷ b'e' ∷ []
daemon_status_map status_stopping = b's' ∷ b't' ∷ b'o' ∷ b'p' ∷ b'p' ∷ b'i' ∷ b'n' ∷ b'g' ∷ []
daemon_status_map status_exited = b'e' ∷ b'x' ∷ b'i' ∷ b't' ∷ b'e' ∷ b'd' ∷ []
daemon_status_map status_crashed = b'c' ∷ b'r' ∷ b'a' ∷ b's' ∷ b'h' ∷ b'e' ∷ b'd' ∷ []

-- The line that `fprintf` writes, here and for the command `status`.
unfoldable pub status_line : Daemon → Text
unfolding decimal daemon_status_map
status_line d =
    d.daemon_name
    ++ (b'\t'
        ∷ (decimal d.daemon_process_id
            ++ (b'\t' ∷ (daemon_status_map d.daemon_status ++ b'\n' ∷ []))))

unfoldable pub legion_status_all : List Daemon → Text
unfolding status_line
legion_status_all [] = []
legion_status_all (d ∷ rest) = status_line d ++ legion_status_all rest

-- A reader of the text: lines end at a newline, and their columns are separated by tabs.
unfoldable read_rows : (column : Text) (row : List Text) → Text → List (List Text)
read_rows column row [] = []
read_rows column row (b ∷ s) =
    let next_row = read_rows [] [] s in
    let next_column = read_rows [] (row ++ column ∷ []) s in
    let further = read_rows (column ++ b ∷ []) row s in
    if b == b'\n'
    then (row ++ column ∷ []) ∷ next_row
    else if b == b'\t'
    then next_column
    else further

unfoldable pub rows_of : Text → List (List Text)
unfolding read_rows
rows_of s = read_rows [] [] s

abbrev pub row_of : Daemon → List Text
row_of d = d.daemon_name ∷ decimal d.daemon_process_id ∷ daemon_status_map d.daemon_status ∷ []

-- A byte that separates no columns and ends no line.
abbrev pub IsPlain : ℕ → Type 0
IsPlain b = (b ≢ b'\t') × (b ≢ b'\n')

read_rows-column :
    (word column : Text) (row : List Text) (s : Text)
    → All IsPlain word
    → read_rows column row (word ++ s) ≡ read_rows (column ++ word) row s
unfolding read_rows
read_rows-column [] column row s h = ap (λ c. read_rows c row s) (sym (append-nil column))
read_rows-column (b ∷ word) column row s h =
    let no_end : (b == b'\n') ≡ false = ground (arith, h.0.1) in
    let no_tab : (b == b'\t') ≡ false = ground (arith, h.0.0) in
    rw (no_end, no_tab)
      (read_rows-column word (column ++ b ∷ []) row s h.1
        ∙ ap (λ c. read_rows c row s) (append_assoc column (b ∷ []) word))

digit-IsPlain : (n : ℕ) → IsPlain (n + 48)
digit-IsPlain n = (λ e. omega (arith, e), λ e. omega (arith, e))

show_digits-IsPlain : (f n : ℕ) → All IsPlain (show_digits f n)
unfolding show_digits
show_digits-IsPlain zero n = tt
show_digits-IsPlain (suc f) n = elim (Bool-cases (ltb n 10)) [
  | inl small ↦ rw small (digit-IsPlain n, tt)
  | inr large ↦ rw large (
      All-append IsPlain (show_digits f (n / 10)) ((n % 10 + 48) ∷ [])
        (show_digits-IsPlain f (n / 10)) ((digit-IsPlain (n % 10)), tt))
]

decimal-IsPlain : (a : ℤ) → All IsPlain (decimal a)
unfolding decimal
decimal-IsPlain (pos n) = show_digits-IsPlain (suc n) n
decimal-IsPlain (negsuc n) =
    ((λ e. omega (arith, e), λ e. omega (arith, e)), show_digits-IsPlain (suc (suc n)) (suc n))

letters-IsPlain : (word : Text) → All (λ b. 97 ≤ b) word → All IsPlain word
letters-IsPlain [] h = tt
letters-IsPlain (b ∷ word) h =
    ((λ e. omega (arith, e, h.0), λ e. omega (arith, e, h.0)), letters-IsPlain word h.1)

status-IsPlain : (status : DaemonStatus) → All IsPlain (daemon_status_map status)
unfolding daemon_status_map
status-IsPlain status_unknown = letters-IsPlain (daemon_status_map status_unknown) (ground arith)
status-IsPlain status_inactive = letters-IsPlain (daemon_status_map status_inactive) (ground arith)
status-IsPlain status_starting = letters-IsPlain (daemon_status_map status_starting) (ground arith)
status-IsPlain status_active = letters-IsPlain (daemon_status_map status_active) (ground arith)
status-IsPlain status_stopping = letters-IsPlain (daemon_status_map status_stopping) (ground arith)
status-IsPlain status_exited = letters-IsPlain (daemon_status_map status_exited) (ground arith)
status-IsPlain status_crashed = letters-IsPlain (daemon_status_map status_crashed) (ground arith)

-- One line is read as one row.
read_rows-status_line :
    (d : Daemon) (s : Text)
    → All IsPlain d.daemon_name
    → read_rows [] [] (status_line d ++ s) ≡ row_of d ∷ read_rows [] [] s
unfolding status_line read_rows
read_rows-status_line d s h =
    let name = d.daemon_name in
    let pid = decimal d.daemon_process_id in
    let status = daemon_status_map d.daemon_status in
    let e : status_line d ++ s ≡ name ++ (b'\t' ∷ (pid ++ (b'\t' ∷ (status ++ b'\n' ∷ s)))) =
      append_assoc name (b'\t' ∷ (pid ++ (b'\t' ∷ (status ++ b'\n' ∷ [])))) s
      ∙ ap (λ t. name ++ (b'\t' ∷ t))
          (append_assoc pid (b'\t' ∷ (status ++ b'\n' ∷ [])) s
            ∙ ap (λ t. pid ++ (b'\t' ∷ t)) (append_assoc status (b'\n' ∷ []) s)) in
    ap (read_rows [] []) e
    ∙ read_rows-column name [] [] _ h
    ∙ read_rows-column pid [] (name ∷ []) _ (decimal-IsPlain d.daemon_process_id)
    ∙ read_rows-column status [] (name ∷ pid ∷ []) _ (status-IsPlain d.daemon_status)

-- The text that `status-all` prints shows every daemon once and in the order of the table: read by
-- lines and tabs, its rows are the names, the process ids and the names of the statuses, if no name
-- of a daemon has a tab or a newline.
pub rows_of-legion_status_all :
    (daemons : List Daemon)
    → All (λ d. All IsPlain d.daemon_name) daemons
    → rows_of (legion_status_all daemons) ≡ map row_of daemons
unfolding rows_of legion_status_all
rows_of-legion_status_all [] h = unfold read_rows in refl
rows_of-legion_status_all (d ∷ rest) h =
    read_rows-status_line d (legion_status_all rest) h.0
    ∙ ap (λ rows. row_of d ∷ rows) (rows_of-legion_status_all rest h.1)
