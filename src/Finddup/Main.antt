-- ===== src/Finddup/Main.antt =====
-- `finddup_main` of hw2/src/finddup.c, as it is compiled without DEBUG: the options, the file of
-- names and the scans. What `getopt_long`, `fopen`, `lstat` and `qsort` answer are parameters; the
-- messages to the standard error are left out, and so is the help.

pub mod Single
pub mod Printed
mod Tests
use c_starter_projects.Prelude.{
  ℕ, Bool, true, false, Option, none, some, List, [], ◌∷◌, ◌++◌, ◌==◌, if◌then◌else◌,
}
use c_starter_projects.Prelude.Options.{◌>>=◌}
use c_starter_projects.Prelude.Strings.{Text, same_text}
use c_starter_projects.Finddup.Contents.{Filedesc}
use c_starter_projects.Finddup.Names.{getfn, build_from}
use c_starter_projects.Finddup.Scans.{Stat, Line, link_lines, scan1, scan2, scan3}

-- The results of `getopt_long`: 0 for a long option, by its name, and the letters.
pub data Choice : Type 0 where
  long_option : Text → Choice
  letter_l letter_h question other_letter : Choice

pub data Started : Type 0 where
  goes_on : (linkflag : Bool) → Started
  exits : (status : ℕ) → Started

abbrev pub no_links : Text
no_links = b'n' ∷ b'o' ∷ b'-' ∷ b'l' ∷ b'i' ∷ b'n' ∷ b'k' ∷ b's' ∷ []

abbrev pub help : Text
help = b'h' ∷ b'e' ∷ b'l' ∷ b'p' ∷ []

-- The loop over the options. A long option that is neither of these two falls through to `l`.
unfoldable pub parse_options : List Choice → (linkflag : Bool) → Started
parse_options [] linkflag = goes_on linkflag
parse_options (long_option name ∷ more) linkflag =
    let unlinked = parse_options more false in
    if same_text name no_links then unlinked else if same_text name help then exits 0 else unlinked
parse_options (letter_l ∷ more) linkflag = parse_options more false
parse_options (letter_h ∷ more) linkflag = exits 0
parse_options (question ∷ more) linkflag = exits 1
parse_options (other_letter ∷ more) linkflag = exits 1

-- The head of a list, for the loop that prints the links.
abbrev pub links_of : (linkflag : Bool) → List Filedesc → List Line
links_of linkflag [] = []
links_of linkflag (p ∷ rest) = link_lines linkflag true false p rest

-- The contents of the file that is named at an offset.
abbrev pub opened_at :
    (fopen : Text → Option (List ℕ)) (names : List ℕ) (nameloc : ℕ) → Option (List ℕ)
opened_at fopen names nameloc = getfn names nameloc >>= fopen

module _ (sort : List Filedesc → List Filedesc) (beyond : Filedesc) where
  -- The part behind the build loop: what is printed up to the end of the program.
  unfoldable pub print_scans :
      (contents : ℕ → Option (List ℕ)) (linkflag : Bool)
      → List Filedesc × List Line
      → Option (List Line)
  unfolding link_lines scan1 scan2 scan3
  print_scans contents linkflag built = scan1 contents sort beyond (sort built.0) >>= λ scanned.
      scan2 contents scanned >>= λ found.
      some (built.1 ++ links_of linkflag scanned ++ scan3 linkflag true true none 0 found)

module _ (lstat : Text → Stat) (fopen : Text → Option (List ℕ))
    (sort : List Filedesc → List Filedesc) (beyond : Filedesc) where
  -- The part behind the opening of the file of names.
  unfoldable pub run_scans : (linkflag : Bool) (names : List ℕ) → Option (List Line)
  unfolding getfn build_from print_scans
  run_scans linkflag names =
      build_from lstat names >>= print_scans sort beyond (opened_at fopen names) linkflag

  abbrev pub with_status : Option (List Line) → Option (ℕ × List Line)
  with_status none = none
  with_status (some lines) = some (0, lines)

  -- The start, for the operands behind the options: the status and what is printed.
  unfoldable pub start_with : Started → List Text → Option (ℕ × List Line)
  unfolding run_scans
  start_with (exits status) operands = some (status, [])
  start_with (goes_on linkflag) [] = some (1, [])
  start_with (goes_on linkflag) (a ∷ b ∷ more) = some (1, [])
  start_with (goes_on linkflag) (a ∷ []) = elim (fopen a) [
    | none ↦ some (1, [])
    | some names ↦ with_status (run_scans linkflag names)
  ]

  unfoldable pub finddup_main : List Choice → (operands : List Text) → Option (ℕ × List Line)
  unfolding parse_options start_with
  finddup_main choices operands = start_with (parse_options choices true) operands
