-- ===== src/Legion/Status/Tests.antt =====
-- A table of daemons, and the text of hw4/src/cli.c for it.
use c_starter_projects.Prelude.{◌≡◌, refl, List, [], ◌∷◌, map, ◌++◌, arith}
use c_starter_projects.Prelude.Int.{pos}
use c_starter_projects.Prelude.Decimal.{decimal}
use c_starter_projects.Prelude.Strings.{Text}
use c_starter_projects.Legion.Daemons.{Daemon, status_active, status_inactive}
use c_starter_projects.Legion.Status.{
  daemon_status_map, status_line, legion_status_all, rows_of, row_of, rows_of-legion_status_all,
}

abbrev two_daemons : List Daemon
two_daemons =
    record {
      daemon_name = b'l' ∷ b'a' ∷ b'z' ∷ b'y' ∷ [];
      daemon_exe = [];
      daemon_args = [];
      daemon_status = status_active;
      daemon_process_id = pos 42;
    }
    ∷ record {
      daemon_name = b'f' ∷ b't' ∷ b'p' ∷ [];
      daemon_exe = [];
      daemon_args = [];
      daemon_status = status_inactive;
      daemon_process_id = pos 0;
    }
    ∷ []

abbrev tab : Text
tab = b'\t' ∷ []

abbrev newline : Text
newline = b'\n' ∷ []

two_lines :
    legion_status_all two_daemons
    ≡ (b'l' ∷ b'a' ∷ b'z' ∷ b'y' ∷ [])
      ++ tab
      ++ (b'4' ∷ b'2' ∷ [])
      ++ tab
      ++ daemon_status_map status_active
      ++ newline
      ++ (b'f' ∷ b't' ∷ b'p' ∷ [])
      ++ tab
      ++ (b'0' ∷ [])
      ++ tab
      ++ daemon_status_map status_inactive
      ++ newline
unfolding legion_status_all status_line decimal
two_lines = refl

rows_of-legion_status_all_example : rows_of (legion_status_all two_daemons) ≡ map row_of two_daemons
rows_of-legion_status_all_example = rows_of-legion_status_all two_daemons (ground arith)
