-- ===== src/Legion/Commands/Missing.antt =====
-- Command lines on which `legion_check_args` of hw4/src/cli.c reads a pointer that it should not.
use c_starter_projects.Prelude.{◌≡◌, refl, ◌∙◌, true, ltb, none, List, ◌∷◌, ◌⊎◌, inl, inr}
use c_starter_projects.Prelude.Strings.{Text, same_text}
use c_starter_projects.Legion.Daemons.{
  Daemon, Legion, legion_daemon_name_exists, legion_stop, stop_at,
}
use c_starter_projects.Legion.Commands.{
  Slot, unset, holds, dangling, Arguments, Answers, register_command, register_at, run_command,
  legion_check_args, word_register, word_unregister, word_status, word_start, word_stop,
  word_logrotate,
}

-- The commands that take a name.
abbrev pub TakesName : Text → Type 0
TakesName word =
    (word ≡ word_unregister)
    ⊎ (word ≡ word_status)
    ⊎ (word ≡ word_start)
    ⊎ (word ≡ word_stop)
    ⊎ (word ≡ word_logrotate)

abbrev pub IsAbsent : Slot → Type 0
IsAbsent s = (s ≡ unset) ⊎ (s ≡ dangling)

command_missing :
    (word : Text) (a : Answers) (args : Arguments) (l : Legion) (d : Daemon) (rest : List Daemon)
    → TakesName word
    → args.arg_idx ≡ 1
    → IsAbsent (args.arg 1)
    → l.daemons ≡ d ∷ rest
    → run_command word a args l ≡ none
unfolding run_command same_text
command_missing word a args l d rest (inl w) i (inl s) e = rw (w, i, s, e) refl
command_missing word a args l d rest (inl w) i (inr s) e = rw (w, i, s, e) refl
command_missing word a args l d rest (inr (inl w)) i (inl s) e = rw (w, i, s, e) refl
command_missing word a args l d rest (inr (inl w)) i (inr s) e = rw (w, i, s, e) refl
command_missing word a args l d rest (inr (inr (inl w))) i (inl s) e = rw (w, i, s, e) refl
command_missing word a args l d rest (inr (inr (inl w))) i (inr s) e = rw (w, i, s, e) refl
command_missing word a args l d rest (inr (inr (inr (inl w)))) i (inl s) e = rw (w, i, s, e) refl
command_missing word a args l d rest (inr (inr (inr (inl w)))) i (inr s) e = rw (w, i, s, e) refl
command_missing word a args l d rest (inr (inr (inr (inr w)))) i (inl s) e = rw (w, i, s, e) refl
command_missing word a args l d rest (inr (inr (inr (inr w)))) i (inr s) e = rw (w, i, s, e) refl

check_args_run :
    (word : Text) (a : Answers) (args : Arguments) (l : Legion)
    → ltb 0 args.arg_idx ≡ true
    → args.arg 0 ≡ holds word
    → legion_check_args a args l ≡ run_command word a args l
unfolding legion_check_args
check_args_run word a args l h w = rw (h, w) refl

-- With a registered daemon, the commands unregister, status, start, stop and logrotate without a
-- name compare with a string that the line does not hold: NULL, or one of a former line.
pub name_missing :
    (word : Text) (a : Answers) (args : Arguments) (l : Legion) (d : Daemon) (rest : List Daemon)
    → TakesName word
    → args.arg_idx ≡ 1
    → args.arg 0 ≡ holds word
    → IsAbsent (args.arg 1)
    → l.daemons ≡ d ∷ rest
    → legion_check_args a args l ≡ none
name_missing word a args l d rest t i w s e =
    check_args_run word a args l (rw i refl) w ∙ command_missing word a args l d rest t i s e

-- The stop command for a name that no daemon has reads through a null pointer.
pub stop_unregistered :
    (name : Text) (a : Answers) (args : Arguments) (l : Legion)
    → args.arg_idx ≡ 2
    → args.arg 0 ≡ holds word_stop
    → args.arg 1 ≡ holds name
    → legion_daemon_name_exists name l ≡ none
    → legion_check_args a args l ≡ none
unfolding legion_check_args run_command same_text legion_stop stop_at
stop_unregistered name a args l i w s e = rw (i, w, s, e) refl

-- The register command with a new name, a program and no further argument reads what an earlier
-- command line has left as its fourth argument, though that memory is gone.
pub register_dangling :
    (name exe : Text) (a : Answers) (args : Arguments) (l : Legion)
    → args.arg_idx ≡ 3
    → args.arg 0 ≡ holds word_register
    → args.arg 1 ≡ holds name
    → args.arg 2 ≡ holds exe
    → args.arg 3 ≡ dangling
    → legion_daemon_name_exists name l ≡ none
    → legion_check_args a args l ≡ none
unfolding legion_check_args run_command register_command register_at same_text
register_dangling name exe a args l i w s₁ s₂ s₃ e = rw (i, w, s₁, s₂, s₃, e) refl
