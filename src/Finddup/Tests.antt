-- ===== src/Finddup/Tests.antt =====
-- Files for the theorems on hw2/src/finddup.c.
use c_starter_projects.Prelude.{
  ℕ, ◌≡◌, ◌↔◌, refl, true, false, Option, some, List, [], ◌∷◌, arith, ◌==◌, if◌then◌else◌,
}
use c_starter_projects.Prelude.Options.{After}
use c_starter_projects.Finddup.Contents.{Filedesc, rc_crc32, fullcmp}
use c_starter_projects.Finddup.Scans.{find_duplicates}
use c_starter_projects.Finddup.Compare.{fullcmp_decides}
use c_starter_projects.Finddup.Moves.{Keeps, find_duplicates-Keeps}

-- The checksum of the digits from 1 to 9, a common test.
rc_crc32_digits :
    rc_crc32 0 (b'1' ∷ b'2' ∷ b'3' ∷ b'4' ∷ b'5' ∷ b'6' ∷ b'7' ∷ b'8' ∷ b'9' ∷ []) ≡ 0xcbf43926
unfolding rc_crc32
rc_crc32_digits = refl

abbrev file_at : ℕ → Filedesc
file_at loc = record {
  nameloc = loc;
  file_length = 2;
  crc32 = 0;
  device = 1;
  inode = loc;
  has_crc = false;
  is_dup = false;
  is_link = false;
}

abbrev fine : List ℕ
fine = b'o' ∷ b'k' ∷ []

-- The files 10 and 20 have the same text, the file 30 another one, and the files 40 and 50 the same
-- bytes, of which one is 200.
abbrev contents : ℕ → Option (List ℕ)
contents loc =
    if loc == 30
    then some (b'n' ∷ b'o' ∷ [])
    else if loc == 40
    then some (b'o' ∷ 200 ∷ [])
    else if loc == 50
    then some (b'o' ∷ 200 ∷ [])
    else some fine

fullcmp_decides_example : (fullcmp contents (file_at 10) (file_at 20) ≡ some true) ↔ (fine ≡ fine)
fullcmp_decides_example =
    fullcmp_decides contents (file_at 10) (file_at 20) fine fine refl refl
      (omega arith, (omega arith, tt)) refl

find_duplicates-Keeps_example :
    After
      (Keeps (file_at 10 ∷ file_at 30 ∷ file_at 20 ∷ []))
      (find_duplicates contents (λ fs. fs) (file_at 0) (file_at 10 ∷ file_at 30 ∷ file_at 20 ∷ []))
find_duplicates-Keeps_example =
    find_duplicates-Keeps contents (λ fs. fs) (file_at 0)
      (file_at 10 ∷ file_at 30 ∷ file_at 20 ∷ []) (λ fs n. refl)
