-- ===== src/Legion/Child.antt =====
-- The child's part of `legion_start` of hw4/src/cli.c, between `fork` and `execvpe`. `none` is an
-- undefined run: a read or a write outside an object.
pub mod Buffers
mod Tests
use c_starter_projects.Prelude.{
  ℕ, ◌+◌, ◌-◌, Bool, true, false, not, ◌&&◌, ◌||◌, Option, none, some, List, [], ◌∷◌, ◌++◌, length,
  take, ltb, leb, if◌then◌else◌,
}
use c_starter_projects.Prelude.Strings.{Text}
use c_starter_projects.Legion.Daemons.{Daemon, Legion, report, sf_error}

-- What the calls answer: `getenv`, and whether `dup2`, `setpgid` and `execvpe` succeed.
pub record ChildAnswers : Type 0 where
  pub path_env_var : Option Text
  pub duplicated : Bool
  pub grouped : Bool
  pub executed : Bool

-- The program of the daemon runs, with its standard output in the log file, or the child goes on as
-- a second CLI, with `legion_start` returning LEGION_ERROR.
pub data Child : Type 0 where
  executes : (daemon_exe daemon_args env_path log_file_path : Text) → Child
  goes_on : Legion → Child

abbrev pub logfile_dir : Text
logfile_dir = b'l' ∷ b'o' ∷ b'g' ∷ b's' ∷ []

abbrev pub daemons_dir : Text
daemons_dir = b'd' ∷ b'a' ∷ b'e' ∷ b'm' ∷ b'o' ∷ b'n' ∷ b's' ∷ []

abbrev pub snprintf_max_len : ℕ
snprintf_max_len = 1000

-- `snprintf` of a text, without its NUL byte, to an object of `size` bytes.
abbrev pub snprintf : (size : ℕ) → Text → Option Text
snprintf size t =
    let written = take (snprintf_max_len - 1) t in
    if ltb (length written) size then some written else none

unfoldable pub log_path : (name : Text) (version : ℕ) → Text
log_path name version =
    logfile_dir ++ b'/' ∷ name ++ b'.' ∷ b'l' ∷ b'o' ∷ b'g' ∷ b'.' ∷ version ∷ []

abbrev pub both : Option Text → Option Text → Option (Text × Text)
both env none = none
both none (some log) = none
both (some env) (some log) = some (env, log)

-- What the child does with its paths.
abbrev pub run_child : Option (Text × Text) → Daemon → ChildAnswers → Legion → Option Child
run_child none d a l = none
run_child (some paths) d a l =
    if a.duplicated && a.grouped && a.executed
    then some (executes d.daemon_exe d.daemon_args paths.0 paths.1)
    else some (goes_on (report sf_error l))

-- The buffers, for what `getenv` returns; `strlen` is called two bytes behind its beginning.
unfoldable pub child_paths : (path : Text) (name : Text) (version : ℕ) → Option (Text × Text)
unfolding log_path
child_paths path name version =
    let log = snprintf (length logfile_dir + length name + 2) (log_path name version) in
    let env = snprintf (length daemons_dir + (length path - 2)) (daemons_dir ++ b':' ∷ path) in
    if ltb (length path) 2 then none else both env log

unfoldable pub start_child : Daemon → (version : ℕ) → ChildAnswers → Legion → Option Child
unfolding child_paths
start_child d version a l = elim a.path_env_var [
  | none ↦ none
  | some path ↦ run_child (child_paths path d.daemon_name version) d a l
]
