-- ===== src/Legion/Logs/Tests.antt =====
-- The log files of a daemon of hw4, and the theorems about them.
use c_starter_projects.Prelude.{
  ℕ, suc, ◌≡◌, refl, none, some, [], ◌∷◌, All, ltb, arith, if◌then◌else◌,
}
use c_starter_projects.Legion.Logs.{Files, log_versions, rotate_files, rotate_when, first_free}
use c_starter_projects.Legion.Logs.Rotation.{AllExist, rotate_files_full}

-- The first `n` versions exist; each holds its own number.
abbrev made : ℕ → Files
made n i = if ltb i n then some (i ∷ []) else none

third : rotate_files (made 2) ≡ some (2, made 2)
unfolding rotate_files rotate_when first_free
third = refl

made_exist : AllExist log_versions (made 7)
made_exist i h = ground (arith, h)

rotate_files_full_example :
    (g : Files) × (rotate_files (made 7) ≡ some (0, g))
    × (g 0 ≡ none)
    × All (λ (i : ℕ). g (suc i) ≡ made 7 i) (0 ∷ 1 ∷ 2 ∷ 3 ∷ 4 ∷ 5 ∷ [])
rotate_files_full_example = rotate_files_full (made 7) made_exist
