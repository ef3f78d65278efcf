-- ===== src/Dtmf/Detect.antt =====
-- dtmf_detect of hw1/src/dtmf.c, with getMax and check_SIX_DB. Indices of type int16_t are their bit
-- patterns.
pub mod Ends
mod Tests
use c_starter_projects.Prelude.{
  ℕ, zero, suc, ◌+◌, ◌-◌, ◌*◌, ◌/◌, ◌%◌, ◌^◌, Bool, true, false, not, ◌&&◌, ◌||◌, Option, none,
  some, List, [], ◌∷◌, ◌++◌, map, ltb, drop, ◌==◌, if◌then◌else◌,
}
use c_starter_projects.Prelude.Int.{ℤ, pos, negsuc, ◌-ℤ◌, ltb_ℤ, eq_ℤ, minus_one}
use c_starter_projects.Prelude.Decimal.{decimal}
use c_starter_projects.Dtmf.Goertzel.{
  ToneMath, GoertzelState, goertzel_init, goertzel_step, goertzel_strength,
}
use c_starter_projects.Dtmf.Audio.{AudioHeader, audio_read_header, audio_read_sample}

-- The run of a loop: its result, an undefined read, or no fuel left.
pub data Verdict {ℓ} (A : Type ℓ) : Type ℓ where
  done : A → Verdict A
  undefined : Verdict A
  out_of_fuel : Verdict A

-- An int16_t as an int.
abbrev pub signed_16 : ℕ → ℤ
signed_16 w = if ltb w (2 ^ 15) then pos w else pos w -ℤ pos (2 ^ 16)

abbrev pub dtmf_symbol_names : List ℕ
dtmf_symbol_names =
    b'1' ∷ b'2' ∷ b'3' ∷ b'A' ∷ b'4' ∷ b'5' ∷ b'6' ∷ b'B' ∷ b'7' ∷ b'8' ∷ b'9' ∷ b'C' ∷ b'*' ∷ b'0'
    ∷ b'#' ∷ b'D' ∷ []

abbrev first_of : List ℕ → Option ℕ
first_of [] = none
first_of (b ∷ rest) = some b

-- The line of an event; `none` when a tone is -1.
unfoldable pub event_line : (start_idx end_idx : ℕ) → (row column : Option ℕ) → Option (List ℕ)
unfolding decimal
event_line start_idx end_idx none column = none
event_line start_idx end_idx (some row) none = none
event_line start_idx end_idx (some row) (some column) =
    elim (first_of (drop (row + column) dtmf_symbol_names)) [
      | none ↦ none
      | some symbol ↦ some (
          decimal (signed_16 start_idx)
          ++ b'\t' ∷ decimal (signed_16 end_idx)
          ++ b'\t' ∷ symbol ∷ b'\n' ∷ [])
    ]

pub record Found : Type 0 where
  pub audio_in : List ℕ
  pub events_out : List ℕ
  pub block_count : ℕ
  pub start_idx : ℕ
  pub end_idx : ℕ
  pub cur_idx : ℕ
  pub prev_row : Option ℕ
  pub prev_column : Option ℕ
  pub cur_row : Option ℕ
  pub cur_column : Option ℕ

module _ (math : ToneMath) where
  unfoldable pub get_max : math.Double → math.Double → math.Double
  get_max a b = if math.exceeds a b then a else b

  unfoldable pub check_six_db : (main a b c : math.Double) → Bool
  check_six_db main a b c =
      math.at_least (math.over main a) math.six_db
      && math.at_least (math.over main b) math.six_db
      && math.at_least (math.over main c) math.six_db

  -- The strongest of four frequencies, and its place when it is far enough above the others.
  unfoldable pub strongest : (a b c d : math.Double) → math.Double × Option ℕ
  unfolding get_max check_six_db
  strongest a b c d =
      let top = get_max (get_max a b) (get_max c d) in
      let place =
        if math.same top a
        then if check_six_db a b c d then some 0 else none
        else if math.same top b
        then if check_six_db b a c d then some 1 else none
        else if math.same top c
        then if check_six_db c a b d then some 2 else none
        else if check_six_db d a b c
        then some 3
        else none in
      (top, place)

  abbrev pub scaled : ℕ → math.Double
  scaled sample = math.over (math.of_sample sample) (math.of_int (pos 32767))

  -- The samples of a block but the last: the filters, the last sample read, how often the loop has
  -- counted, whether no sample was -1, and what is left of the stream.
  pub record Block : Type 0 where
    pub filters : List (GoertzelState math)
    pub sample : ℕ
    pub count : ℕ
    pub eof_not_found : Bool
    pub audio : List ℕ

  unfoldable pub read_block : (n : ℕ) → Block → Block
  unfolding goertzel_step
  read_block zero b = b
  read_block (suc n) b =
      let read = audio_read_sample b.audio b.sample in
      let counted = record b { sample = read.1; count = b.count + 1; audio = read.2 } in
      let further =
        read_block n
          (record counted { filters = map (goertzel_step math (scaled read.1)) b.filters }) in
      if read.1 == 0xffff then record counted { eof_not_found = false } else further

  unfoldable pub fresh_filters : ℕ → List (GoertzelState math)
  unfolding goertzel_init
  fresh_filters n =
      map
        (λ f. goertzel_init math n (
          math.over (math.times (math.of_int (pos f)) (math.of_int (pos n)))
            (math.of_int (pos 8000))))
        (697 ∷ 770 ∷ 852 ∷ 941 ∷ 1209 ∷ 1336 ∷ 1477 ∷ 1633 ∷ [])

  -- The strongest row and column of the eight strengths; there are never more or fewer.
  unfoldable pub tones_of : List math.Double → (math.Double × Option ℕ) × (math.Double × Option ℕ)
  unfolding strongest
  tones_of (a ∷ b ∷ c ∷ d ∷ e ∷ f ∷ g ∷ h ∷ []) = (strongest a b c d, strongest e f g h)
  tones_of other = ((math.of_int (pos 0), none), (math.of_int (pos 0), none))

  abbrev pub found_place : Option ℕ → Bool
  found_place none = false
  found_place (some place) = true

  -- Whether a block has a tone.
  unfoldable pub has_tone : (row column : math.Double × Option ℕ) → Bool
  has_tone row column =
      let ratio = math.over row.0 column.0 in
      math.at_least (math.plus row.0 column.0) math.minus_20db
      && math.at_least ratio (math.times math.four_db math.hundredth)
      && math.at_least math.four_db ratio
      && found_place row.1
      && found_place column.1

  abbrev pub row_tone : Option ℕ → Option ℕ → Option ℕ
  row_tone none old = old
  row_tone (some place) old = some (place * 4)

  abbrev pub column_tone : Option ℕ → Option ℕ → Option ℕ
  column_tone none old = old
  column_tone (some place) old = some place

  abbrev pub same_tone : Option ℕ → Option ℕ → Bool
  same_tone none none = true
  same_tone none (some b) = false
  same_tone (some a) none = false
  same_tone (some a) (some b) = a == b

  abbrev pub appended : Found → Option (List ℕ) → Option Found
  appended f none = none
  appended f (some line) = some (record f { events_out = f.events_out ++ line })

  -- A block that has a tone, for a block of `n` samples: `none` is an undefined read.
  unfoldable pub extend_event : ℕ → Found → Option Found
  unfolding event_line
  extend_event n f =
      let long =
        math.at_least
          (math.over (math.of_int (signed_16 f.end_idx -ℤ signed_16 f.start_idx))
            (math.of_int (pos 8000)))
          math.min_dtmf_duration in
      let renewed = record f {
        start_idx = (f.cur_idx + (2 ^ 16 - n)) % 2 ^ 16;
        end_idx = f.cur_idx;
        prev_row = f.cur_row;
        prev_column = f.cur_column;
      } in
      let written = appended renewed (event_line f.start_idx f.end_idx f.prev_row f.prev_column) in
      if same_tone f.prev_row none && same_tone f.prev_column none
      then some (record f { prev_row = f.cur_row; prev_column = f.cur_column })
      else if same_tone f.cur_row f.prev_row && same_tone f.cur_column f.prev_column
      then some (record f { end_idx = f.cur_idx })
      else if long
      then written
      else some renewed

  -- What is done with a block that has been read: the last sample, the strengths, the tone.
  unfoldable pub end_block : ℕ → Block → Found → Option Found
  unfolding goertzel_strength tones_of has_tone extend_event
  end_block n b f =
      let read = audio_read_sample b.audio b.sample in
      let tones = tones_of (map (goertzel_strength math (scaled read.1)) b.filters) in
      let heard = record f {
        audio_in = read.2;
        block_count = 1;
        cur_idx = (f.cur_idx + n) % 2 ^ 16;
        cur_row = row_tone tones.0.1 f.cur_row;
        cur_column = column_tone tones.1.1 f.cur_column;
      } in
      let extended = extend_event n heard in
      if has_tone tones.0 tones.1 then extended else some heard

  abbrev pub finish_line : Found → Option (List ℕ) → Verdict (List ℕ)
  finish_line f none = undefined
  finish_line f (some line) = done (f.events_out ++ line)

  unfoldable pub finish : Found → Verdict (List ℕ)
  unfolding event_line
  finish f =
      let last = finish_line f (event_line f.start_idx f.end_idx f.cur_row f.cur_column) in
      if ltb_ℤ (pos 0) (signed_16 f.end_idx) then last else done f.events_out

  -- What follows a block: another round, or the end of the loop.
  abbrev pub block_then : (Found → Verdict (List ℕ)) → Bool → Option Found → Verdict (List ℕ)
  block_then further more none = undefined
  block_then further true (some f) = further f
  block_then further false (some f) = finish f

  -- The end of a round, for a block of `n` samples that is short or not.
  unfoldable pub after_block :
      (Found → Verdict (List ℕ)) → (n : ℕ) → (short : Bool) → Block → Found → Verdict (List ℕ)
  unfolding end_block finish
  after_block further n true b f = finish f
  after_block further n false b f = block_then further b.eof_not_found (end_block n b f)

  unfoldable pub begin_block : ℕ → Found → Block
  unfolding fresh_filters
  begin_block n f = record {
    filters = fresh_filters n;
    sample = 0;
    count = f.block_count;
    eof_not_found = true;
    audio = f.audio_in;
  }

  unfoldable pub detect_loop : (fuel n : ℕ) → Found → Verdict (List ℕ)
  unfolding read_block after_block begin_block
  detect_loop zero n f = out_of_fuel
  detect_loop (suc fuel) n f =
      let b = read_block (n - 1) (begin_block n f) in
      after_block (detect_loop fuel n) n (ltb b.count (n - 1)) b f

  abbrev pub nothing_found : List ℕ → Found
  nothing_found audio = record {
    audio_in = audio;
    events_out = [];
    block_count = 0;
    start_idx = 0;
    end_idx = 0;
    cur_idx = 0;
    prev_row = none;
    prev_column = none;
    cur_row = none;
    cur_column = none;
  }

  -- `none` is the result EOF, of a stream without a valid header.
  unfoldable pub dtmf_detect :
      (fuel block_size : ℕ) → AudioHeader → List ℕ → Option (Verdict (List ℕ))
  unfolding detect_loop
  dtmf_detect fuel block_size ah audio =
      let header = audio_read_header (some audio) ah in
      let detected = detect_loop fuel block_size (nothing_found header.2) in
      if eq_ℤ header.0 minus_one then none else some detected
