-- ===== src/Finddup/Main/Tests.antt =====
-- Runs of hw2/src/finddup.c, and the theorems about its parts at them.
use Prim.Native.Nat.{bit_xor}
use c_starter_projects.Prelude.{
  ℕ, ◌≡◌, refl, true, false, Option, some, List, [], ◌∷◌, All, arith, if◌then◌else◌,
}
use c_starter_projects.Prelude.Int.{pos, eq_ℤ}
use c_starter_projects.Prelude.Strings.{Text, same_text}
use c_starter_projects.Finddup.Contents.{
  Filedesc, rc_crc32, lines_of, before_nul, get_crc, fullcmp, with_crc, compare_loop, sum_crcs,
}
use c_starter_projects.Finddup.Scans.{
  Stat, regular, Line, dup_header, file_line, dup_line, build_list, mark_links, link_lines, scan1,
  scan1_from, needsort, scan2, dup_scan, dup_round, scan3,
}
use c_starter_projects.Finddup.Names.{names_from, getfn, build_from, cut_line}
use c_starter_projects.Finddup.Names.ReadBack.{HasNoNul, ReadsBack, getfn-names_from}
use c_starter_projects.Finddup.Order.{
  comp1, is_negative, comes_first, same_fields, int_difference, comp1_lem,
}
use c_starter_projects.Finddup.Division.{shift_register, message_bits, rc_crc32-shift_register}
use c_starter_projects.Finddup.Main.{
  long_option, parse_options, goes_on, finddup_main, start_with, run_scans, print_scans,
}

-- Two names, each of one letter, one per line.
abbrev two_names : List ℕ
two_names = b'a' ∷ b'\n' ∷ b'b' ∷ b'\n' ∷ []

abbrev names_file : Text
names_file = b'n' ∷ []

abbrev opens : Text → Option (List ℕ)
opens name = if same_text name names_file then some two_names else some (b'o' ∷ b'k' ∷ [])

abbrev stats : Text → Stat
stats name = regular 2 1 (if same_text name (b'a' ∷ []) then 7 else 8)

abbrev behind_all : Filedesc
behind_all = record {
  nameloc = 0;
  file_length = 0;
  crc32 = 0;
  device = 0;
  inode = 0;
  has_crc = false;
  is_dup = false;
  is_link = false;
}

abbrev in_order : List Filedesc → List Filedesc
in_order fs = fs

-- The second file is printed as a duplicate of the first.
whole_run :
    finddup_main stats opens in_order behind_all [] (names_file ∷ [])
    ≡ some (0, dup_header ∷ file_line 0 ∷ dup_line 2 ∷ [])
unfolding finddup_main parse_options start_with run_scans print_scans build_from names_from cut_line
    lines_of before_nul build_list same_text scan1 scan1_from needsort with_crc get_crc sum_crcs
    rc_crc32 scan2 dup_scan dup_round mark_links fullcmp compare_loop link_lines scan3 getfn
whole_run = refl

-- The option `--debug` is taken for `-l`.
debug_option : parse_options (long_option (b'd' ∷ []) ∷ []) true ≡ goes_on false
unfolding parse_options same_text
debug_option = refl

two_names-HasNoNul : HasNoNul two_names
two_names-HasNoNul = ground arith

getfn-names_from_example :
    (names : List (ℕ × List ℕ)) × (names_from 0 (lines_of [] two_names) ≡ some names)
    × All (ReadsBack two_names) names
getfn-names_from_example = getfn-names_from two_names two_names-HasNoNul

-- The last name of a file that does not end with a newline loses its last byte.
last_name_cut : names_from 0 (lines_of [] (b'a' ∷ b'b' ∷ [])) ≡ some ((0, b'a' ∷ []) ∷ [])
unfolding names_from lines_of cut_line before_nul
last_name_cut = refl

abbrev sized : ℕ → Filedesc
sized n = record behind_all { file_length = n; crc32 = 5 }

comp1_lem_example :
    (is_negative (comp1 (sized 3) (sized 4)) ≡ comes_first (sized 3) (sized 4))
    × (eq_ℤ (comp1 (sized 3) (sized 4)) (pos 0) ≡ same_fields (sized 3) (sized 4))
comp1_lem_example =
    comp1_lem (sized 3) (sized 4) (omega arith, omega arith, omega arith, omega arith)
      (omega arith, omega arith, omega arith, omega arith)

abbrev with_sum : ℕ → Filedesc
with_sum c = record behind_all { crc32 = c }

-- Three checksums of which each comes before the next, and the last before the first.
comp1_cycle :
    (is_negative (comp1 (with_sum 0) (with_sum 0x60000000)) ≡ true)
    × (is_negative (comp1 (with_sum 0x60000000) (with_sum 0xc0000000)) ≡ true)
    × (is_negative (comp1 (with_sum 0xc0000000) (with_sum 0)) ≡ true)
unfolding comp1 int_difference
comp1_cycle = (refl, refl, refl)

rc_crc32-shift_register_example :
    rc_crc32 0 (b'1' ∷ b'2' ∷ [])
    ≡ bit_xor (shift_register (bit_xor 0 0xffff_ffff) (message_bits (b'1' ∷ b'2' ∷ []))) 0xffff_ffff
rc_crc32-shift_register_example =
    rc_crc32-shift_register 0 (b'1' ∷ b'2' ∷ []) (omega arith, (omega arith, tt))

abbrev at_name : ℕ → Filedesc
at_name n = record behind_all { nameloc = n; file_length = 2; inode = n }

abbrev built : List Filedesc × List Line
built = (
  record (at_name 0) { device = 1; inode = 7 } ∷ record (at_name 2) { device = 1; inode = 8 } ∷ [],
  [],
)
