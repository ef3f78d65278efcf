-- ===== src/Legion/Logs.antt =====
-- The log files that `legion_logrotate` of hw4/src/cli.c moves: for one daemon, the contents of each
-- version that exists, between the test for the oldest one and the restart.
pub mod Rotation
mod Tests
use c_starter_projects.Prelude.{
  ℕ, zero, suc, ◌+◌, ◌-◌, Bool, true, false, Option, none, some, ◌==◌, if◌then◌else◌,
}
use c_starter_projects.Prelude.Options.{◌>>=◌}
use c_starter_projects.Prelude.Strings.{Text}

abbrev pub Files : Type 0
Files = ℕ → Option Text

abbrev pub log_versions : ℕ
log_versions = 7

abbrev pub exists : Option Text → Bool
exists none = false
exists (some t) = true

abbrev pub place_at : ℕ → Option Text → Files → Files
place_at v contents files i = if i == v then contents else files i

-- `rename` of a version to the next one; `none` is -1.
unfoldable pub rename : ℕ → Files → Option Files
rename v files = elim (files v) [
  | none ↦ none
  | some t ↦ some (place_at v none (place_at (suc v) (some t) files))
]

-- The loop over the versions from `left - 1` down to 0.
unfoldable pub rename_all : (left : ℕ) → Files → Option Files
unfolding rename
rename_all zero files = some files
rename_all (suc v) files = rename v files >>= rename_all v

-- The loop that looks for a version without a file.
unfoldable pub first_free : (fuel version : ℕ) → Files → Option ℕ
first_free zero v files = none
first_free (suc fuel) v files =
    let further = first_free fuel (v + 1) files in if exists (files v) then further else some v

-- The branches of `legion_logrotate`, for whether the oldest version exists: the version that the
-- daemon is started with again, and the files.
unfoldable pub rotate_when : (oldest_exists : Bool) → Files → Option (ℕ × Files)
unfolding rename_all first_free
rotate_when true files =
    rename_all (log_versions - 1) (place_at (log_versions - 1) none files) >>= λ moved.
    some (0, moved)
rotate_when false files = first_free log_versions 0 files >>= λ v. some (v, files)

-- The oldest version is the last that can exist, so that the search for a free one ends by then.
unfoldable pub rotate_files : Files → Option (ℕ × Files)
unfolding rotate_when
rotate_files files = rotate_when (exists (files (log_versions - 1))) files
