-- ===== src/Dtmf/Args.antt =====
-- The command line of hw1/src/dtmf.c: `validargs` and the two scanners that it calls. An argument
-- is the list of its bytes; `argv` is the list of the arguments, with the null pointer behind it.
pub mod Ranges
pub mod Values
mod Tests
use c_starter_projects.Prelude.{
  ℕ, zero, suc, ◌+◌, ◌-◌, ◌*◌, ◌/◌, ◌^◌, Bool, true, false, not, ◌&&◌, ◌||◌, Option, none, some,
  List, [], ◌∷◌, length, ltb, leb, ◌==◌, if◌then◌else◌,
}
use c_starter_projects.Prelude.Int.{ℤ, pos, negsuc, sub_ℕ, ltb_ℤ, eq_ℤ, minus_one}

abbrev pub Text : Type 0
Text = List ℕ

pub record FlagScan : Type 0 where
  pub len : ℕ
  pub frst_char : ℕ
  pub scnd_char : ℕ

-- The loop of `get_current_flag`, which reads two characters a round.
flag_scan : Text → ℕ → ℕ → ℕ → FlagScan
flag_scan [] len frst scnd = record { len = len; frst_char = frst; scnd_char = scnd }
flag_scan (a ∷ []) len frst scnd = record { len = suc len; frst_char = a; scnd_char = scnd }
flag_scan (a ∷ b ∷ []) len frst scnd = record { len = suc len; frst_char = a; scnd_char = b }
flag_scan (a ∷ b ∷ c ∷ rest) len frst scnd = flag_scan (c ∷ rest) (len + 3) a b

unfoldable pub get_current_flag : Text → ℕ → ℕ → FlagScan
unfolding flag_scan
get_current_flag flag frst scnd = flag_scan flag 0 frst scnd

-- What `get_current_value` makes of a text: a number, no number, or the overflow of a `long`, which
-- C leaves undefined.
pub data Value : Type 0 where
  number : ℤ → Value
  malformed : Value
  overflows : Value

abbrev pub long_limit : ℕ
long_limit = 2 ^ 63

abbrev pub signed : Bool → ℕ → ℤ
signed false n = pos n
signed true n = sub_ℕ 0 n

-- The loop of `get_current_value`; `acc` is ten times the number read so far. The recursive call
-- stands behind the tests.
unfoldable pub value_loop : Text → Bool → ℕ → Value
value_loop [] negative acc = number (signed negative (acc / 10))
value_loop (c ∷ rest) negative acc =
    let after_sign = value_loop rest true acc in
    let after_digit = value_loop rest negative ((acc + (c - 48)) * 10) in
    if c == b'-'
    then after_sign
    else if ltb 57 c || ltb c 48
    then malformed
    else if leb long_limit ((acc + (c - 48)) * 10)
    then overflows
    else after_digit

-- `none` is the null pointer.
unfoldable pub get_current_value : Option Text → Value
unfolding value_loop
get_current_value none = malformed
get_current_value (some text) = value_loop text false 0

pub record Options : Type 0 where
  pub global_options : ℕ
  pub noise_file : Option Text
  pub noise_level : ℤ
  pub block_size : ℤ
  pub audio_samples : ℤ

abbrev pub help_option : ℕ
help_option = 1

abbrev pub generate_option : ℕ
generate_option = 2

abbrev pub detect_option : ℕ
detect_option = 4

-- The local variables of `validargs`, with the global `noise_file`, which it sets on the way.
pub record Locals : Type 0 where
  pub frst_char : ℕ
  pub scnd_char : ℕ
  pub t_flag_seen : Bool
  pub l_flag_seen : Bool
  pub n_flag_seen : Bool
  pub b_flag_seen : Bool
  pub temp_audio_samples : ℤ
  pub temp_noise_level : ℤ
  pub temp_block_size : ℤ
  pub noise_file : Option Text
  pub noise_file_len : ℕ

-- A round of a loop goes on, returns EOF, or is undefined (a null pointer, an overflow).
pub data Round : Type 0 where
  goes_on : Locals → Round
  returns_eof : Locals → Round
  undefined : Round

abbrev pub out_of_range : ℤ → ℤ → ℤ → Bool
out_of_range lo hi v = ltb_ℤ v lo || ltb_ℤ hi v

-- The value of an option, held to its range.
abbrev pub ranged : ℤ → ℤ → (ℤ → Locals) → Locals → Value → Round
ranged lo hi update old (number v) =
    if out_of_range lo hi v then returns_eof old else goes_on (update v)
ranged lo hi update old malformed = returns_eof old
ranged lo hi update old overflows = undefined

-- `-n`: the length of the name is taken even of a null pointer.
unfoldable pub noise_round : Option Text → Locals → Round
noise_round none l = undefined
noise_round (some name) l =
    let named = record l {
      n_flag_seen = true;
      noise_file = some name;
      noise_file_len = l.noise_file_len + length name;
    } in
    if ltb named.noise_file_len 4 then returns_eof named else goes_on named

-- The locals with the flag of a round in place.
abbrev pub rescanned : Locals → FlagScan → Locals
rescanned l scan = record l { frst_char = scan.frst_char; scnd_char = scan.scnd_char }

abbrev pub with_samples : Locals → ℤ → Locals
with_samples l v = record l { t_flag_seen = true; temp_audio_samples = v }

abbrev pub with_level : Locals → ℤ → Locals
with_level l v = record l { l_flag_seen = true; temp_noise_level = v }

abbrev pub with_block : Locals → ℤ → Locals
with_block l v = record l { b_flag_seen = true; temp_block_size = v }

unfoldable pub generate_round : Text → Option Text → Locals → Round
unfolding noise_round get_current_flag
generate_round flag value old =
    let scan = get_current_flag flag old.frst_char old.scnd_char in
    let l = rescanned old scan in
    if ltb 3 scan.len
    then returns_eof l
    else if not (l.frst_char == b'-')
    then returns_eof l
    else if (l.scnd_char == b't') && not l.t_flag_seen
    then ranged (pos 0) (pos 268435455) (with_samples l) l (get_current_value value)
    else if (l.scnd_char == b'l') && not l.l_flag_seen
    then ranged (negsuc 29) (pos 30) (with_level l) l (get_current_value value)
    else if (l.scnd_char == b'n') && not l.n_flag_seen
    then noise_round value l
    else returns_eof l

unfoldable pub detect_round : Text → Option Text → Locals → Round
unfolding get_current_flag
detect_round flag value old =
    let scan = get_current_flag flag old.frst_char old.scnd_char in
    let l = rescanned old scan in
    if ltb 3 scan.len
    then returns_eof l
    else if not (l.frst_char == b'-')
    then returns_eof l
    else if (l.scnd_char == b'b') && not l.b_flag_seen
    then ranged (pos 10) (pos 1000) (with_block l) l (get_current_value value)
    else returns_eof l

abbrev pub and_then : Round → (Locals → Round) → Round
and_then (goes_on l) k = k l
and_then (returns_eof l) k = returns_eof l
and_then undefined k = undefined

-- The `for` loops: every round takes a flag and the argument behind it.
unfoldable pub flag_loop : (Text → Option Text → Locals → Round) → List Text → Locals → Round
flag_loop round [] l = goes_on l
flag_loop round (flag ∷ []) l = round flag none l
flag_loop round (flag ∷ value ∷ rest) l =
    and_then (round flag (some value) l) (λ l'. flag_loop round rest l')

abbrev pub given_or : ℤ → ℤ → ℤ
given_or v default = if eq_ℤ v minus_one then default else v

-- The settings that either mode leaves.
unfoldable pub settle : ℕ → Locals → Options
settle mode l = record {
  global_options = mode;
  noise_file = if l.noise_file_len == 0 then none else l.noise_file;
  noise_level = given_or l.temp_noise_level (pos 0);
  block_size = given_or l.temp_block_size (pos 100);
  audio_samples = given_or l.temp_audio_samples (pos 1000);
}

-- The result of a run of the program's argument check.
pub data Verdict : Type 0 where
  valid : Options → Verdict
  invalid : Options → Verdict
  undefined_run : Verdict

unfoldable pub finish : ℕ → Options → Round → Verdict
unfolding settle
finish mode old (goes_on l) = valid (settle mode l)
finish mode old (returns_eof l) =
    invalid (record old { global_options = 0; noise_file = l.noise_file })
finish mode old undefined = undefined_run

unfoldable pub start : Options → FlagScan → Locals
start old scan = record {
  frst_char = scan.frst_char;
  scnd_char = scan.scnd_char;
  t_flag_seen = false;
  l_flag_seen = false;
  n_flag_seen = false;
  b_flag_seen = false;
  temp_audio_samples = minus_one;
  temp_noise_level = minus_one;
  temp_block_size = minus_one;
  noise_file = old.noise_file;
  noise_file_len = 0;
}

unfoldable pub validargs : List Text → Options → Verdict
unfolding get_current_flag start
validargs [] old = invalid (record old { global_options = 0 })
validargs (program ∷ []) old = invalid (record old { global_options = 0 })
validargs (program ∷ mode ∷ args) old =
    let scan = get_current_flag mode b'0' b'0' in
    let generates = finish generate_option old (flag_loop generate_round args (start old scan)) in
    let detects = finish detect_option old (flag_loop detect_round args (start old scan)) in
    if ltb 3 scan.len
    then invalid (record old { global_options = 0 })
    else if (scan.frst_char == b'-') && (scan.scnd_char == b'h')
    then valid (record old { global_options = help_option })
    else if (scan.frst_char == b'-') && (scan.scnd_char == b'g')
    then generates
    else if (scan.frst_char == b'-') && (scan.scnd_char == b'd')
    then detects
    else invalid (record old { global_options = 0 })
