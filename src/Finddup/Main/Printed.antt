-- ===== src/Finddup/Main/Printed.antt =====
-- What hw2/src/finddup.c prints as duplicates, from the file of names to the last scan.
use c_starter_projects.Prelude.{ℕ, ◌≡◌, ◌≢◌, ◌⊎◌, Bool, true, Option, some, List, [], All}
use c_starter_projects.Finddup.Contents.{Filedesc, compare_loop}
use c_starter_projects.Finddup.Scans.{Line}
use c_starter_projects.Finddup.Output.{duplicates_in, listed}
use c_starter_projects.Finddup.Duplicates.{IsListed, IsUnflagged, IsLinked, Single}

module _ (contents : ℕ → Option (List ℕ)) (files : List Filedesc) where
  -- Another file of the list, of that length, whose contents the loop of `fullcmp` finds to be the
  -- same.
  pub record IsSame (name file_length : ℕ) : Type 0 where
    pub original : ℕ
    pub device : ℕ
    pub inode : ℕ
    pub listed : IsListed files original file_length device inode
    pub other : original ≢ name
    pub first : List ℕ
    pub second : List ℕ
    pub original_opened : contents original ≡ some first
    pub opened : contents name ≡ some second
    pub compared : compare_loop first second ≡ true

  -- A file of the list that is the same as another one, or has the device and the inode of another.
  pub record IsDuplicate (name : ℕ) : Type 0 where
    pub file_length : ℕ
    pub device : ℕ
    pub inode : ℕ
    pub listed : IsListed files name file_length device inode
    pub evidence : IsSame name file_length ⊎ IsLinked contents files name device inode

abbrev IsFresh : List Filedesc × List Line → Type 0
IsFresh built = All IsUnflagged built.0 × (duplicates_in built.1 ≡ [])
