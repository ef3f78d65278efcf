-- ===== src/Dtmf/Generate.antt =====
-- dtmf_generate of hw1/src/dtmf.c, with get_txt_idx, getCurFreqColRow and get_noise_w. A line of
-- the events is the contents of `line_buf` behind `fgets`, its NUL byte and what follows included.
-- `none` is an undefined run: a read behind the buffer, or an index that overflows an int. The
-- arithmetic of `double` and `cos` and `pow` of the library are the parameter `SoundMath`.
pub mod Samples
mod Tests
use c_starter_projects.Prelude.{
  ℕ, zero, suc, ◌+◌, ◌-◌, ◌*◌, ◌/◌, ◌%◌, ◌^◌, Bool, true, false, ◌||◌, Option, none, some, List, [],
  ◌∷◌, ltb, leb, drop, ◌==◌, if◌then◌else◌,
}
use c_starter_projects.Prelude.Options.{◌>>=◌}
use c_starter_projects.Prelude.Int.{ℤ, pos, minus_one}
use c_starter_projects.Dtmf.Audio.{
  AudioHeader, audio_magic, audio_data_offset, pcm16_encoding, audio_frame_rate, audio_channels,
  audio_write_header, audio_read_sample, audio_write_sample,
}

pub record SoundMath : Type 1 where
  pub Double : Type 0
  pub of_int : ℤ → Double
  -- An int16_t by its bit pattern, and `trunc` to one.
  pub of_sample : ℕ → Double
  pub trunc_sample : Double → ℕ
  pub half : Double
  pub two_pi : Double
  pub plus : Double → Double → Double
  pub minus : Double → Double → Double
  pub times : Double → Double → Double
  pub over : Double → Double → Double
  pub cos : Double → Double
  pub pow : Double → Double → Double

-- The digits at the head of a text: how many there are, and their value. The value so far has been
-- multiplied by ten.
unfoldable pub idx_loop : (count value : ℕ) → List ℕ → Option (ℕ × ℕ)
idx_loop count value [] = none
idx_loop count value (b ∷ text) =
    let next = (value + (b - 48)) * 10 in
    let further = idx_loop (count + 1) next text in
    if ltb 57 b || ltb b 48
    then some (count, value / 10)
    else if leb (2 ^ 31) next
    then none
    else further

unfoldable pub get_txt_idx : List ℕ → Option (ℕ × ℕ)
unfolding idx_loop
get_txt_idx text = idx_loop 0 0 text

-- The frequencies of a symbol, 0 for a symbol that is none.
unfoldable pub row_frequency : ℕ → ℕ
row_frequency c =
    if (c == b'1') || (c == b'2') || (c == b'3') || (c == b'A')
    then 697
    else if (c == b'4') || (c == b'5') || (c == b'6') || (c == b'B')
    then 770
    else if (c == b'7') || (c == b'8') || (c == b'9') || (c == b'C')
    then 852
    else if (c == b'*') || (c == b'0') || (c == b'#') || (c == b'D')
    then 941
    else 0

unfoldable pub column_frequency : ℕ → ℕ
column_frequency c =
    if (c == b'1') || (c == b'4') || (c == b'7') || (c == b'*')
    then 1209
    else if (c == b'2') || (c == b'5') || (c == b'8') || (c == b'0')
    then 1336
    else if (c == b'3') || (c == b'6') || (c == b'9') || (c == b'#')
    then 1477
    else if (c == b'A') || (c == b'B') || (c == b'C') || (c == b'D')
    then 1633
    else 0

pub record Event : Type 0 where
  pub start_idx : ℕ
  pub end_idx : ℕ
  pub symbol : ℕ

abbrev symbol_at : List ℕ → Option ℕ
symbol_at [] = none
symbol_at (b ∷ text) = some b

-- What the body of the loop reads from the buffer.
unfoldable pub event_of : List ℕ → Option Event
unfolding get_txt_idx
event_of line = do
  first ← get_txt_idx line
  let behind_first = drop (first.0 + 1) line
  second ← get_txt_idx behind_first
  let behind_second = drop (second.0 + 1) behind_first
  symbol ← symbol_at behind_second
  some (record { start_idx = first.1; end_idx = second.1; symbol = symbol })

-- The state of the loop: the samples written, the bytes left of the noise file (`none` without
-- one), the last sample of noise, and `prevEndIdx`, `none` for -1.
pub record Progress : Type 0 where
  pub audio_out : List ℕ
  pub noise_file_p : Option (List ℕ)
  pub cur_noise_sample : ℕ
  pub prev_end_idx : Option ℕ

-- The noise file: none is named, it cannot be opened, or its bytes.
pub data NoiseFile : Type 0 where
  unnamed missing : NoiseFile
  opened : List ℕ → NoiseFile

module _ (math : SoundMath) where
  unfoldable pub get_noise_w : (noise_level : ℤ) → math.Double
  get_noise_w noise_level =
      let one = math.of_int (pos 1) in
      let ratio =
        math.pow (math.of_int (pos 10))
          (math.over (math.of_int noise_level) (math.of_int (pos 10))) in
      math.over ratio (math.plus one ratio)

  -- The cosine of one frequency at an index, halved.
  abbrev pub wave : (frequency i : ℕ) → math.Double
  wave frequency i =
      math.times
        (math.cos (
          math.over
            (math.times (math.times math.two_pi (math.of_int (pos frequency)))
              (math.of_int (pos i)))
            (math.of_int (pos audio_frame_rate))))
        math.half

  -- A sample of a tone, or of silence, with noise mixed in.
  abbrev pub mixed : (noise_w tone : math.Double) → (noise : ℕ) → ℕ
  mixed noise_w tone noise =
      let scaled = math.times (math.of_sample noise) noise_w in
      let left = math.times tone (math.minus (math.of_int (pos 1)) noise_w) in
      math.trunc_sample
        (math.times (math.plus left (math.times scaled noise_w)) (math.of_int (pos 32767)))

  -- One round of the loops over the indices: `clean` is the sample without noise.
  unfoldable pub write_with :
      (noise_w tone : math.Double) → (clean : ℕ) → Option (List ℕ) → Progress → Progress
  write_with noise_w tone clean none g = record g {
    audio_out = audio_write_sample g.audio_out clean;
  }
  write_with noise_w tone clean (some bytes) g =
      let read = audio_read_sample bytes g.cur_noise_sample in
      record g {
        audio_out = audio_write_sample g.audio_out (mixed noise_w tone read.1);
        noise_file_p = some read.2;
        cur_noise_sample = read.1;
      }

  abbrev pub write_one : (noise_w tone : math.Double) → (clean : ℕ) → Progress → Progress
  write_one noise_w tone clean g = write_with noise_w tone clean g.noise_file_p g

  -- The gap between two events.
  unfoldable pub write_gap : math.Double → ℕ → Progress → Progress
  unfolding write_with
  write_gap noise_w zero g = g
  write_gap noise_w (suc n) g = write_gap noise_w n (write_one noise_w (math.of_int (pos 0)) 0 g)

  abbrev pub tone_of : (symbol i : ℕ) → math.Double
  tone_of symbol i = math.plus (wave (row_frequency symbol) i) (wave (column_frequency symbol) i)

  unfoldable pub write_tone : math.Double → (symbol i n : ℕ) → Progress → Progress
  unfolding write_with row_frequency column_frequency
  write_tone noise_w symbol i zero g = g
  write_tone noise_w symbol i (suc n) g =
      let tone = tone_of symbol i in
      write_tone noise_w symbol (i + 1) n
        (write_one noise_w tone (math.trunc_sample (math.times tone (math.of_int (pos 32767)))) g)

  -- Where the event before ended, once the event is known.
  abbrev pub settled : Option ℕ → (start : ℕ) → Option ℕ
  settled none zero = none
  settled none (suc n) = some 0
  settled (some p) start = some p

  abbrev pub is_behind : Option ℕ → ℕ → Bool
  is_behind none start = true
  is_behind (some p) start = leb p start

  -- The gap in front of an event, if the end of the one before is known.
  abbrev pub fill_gap : math.Double → (start : ℕ) → Option ℕ → Progress → Progress
  fill_gap noise_w start none g = g
  fill_gap noise_w start (some p) g = write_gap noise_w (start - p) g

  -- One round of the loop over the lines: `none` is a line that makes the function return EOF.
  unfoldable pub play : math.Double → Event → Progress → Option Progress
  unfolding write_gap write_tone
  play noise_w e g =
      let filled = fill_gap noise_w e.start_idx (settled g.prev_end_idx e.start_idx) g in
      let played = write_tone noise_w e.symbol e.start_idx (e.end_idx - e.start_idx) filled in
      if ltb e.end_idx e.start_idx
      then none
      else if is_behind g.prev_end_idx e.start_idx
      then some (record played { prev_end_idx = some e.end_idx })
      else none

  -- The zeros at the end, from `prevEndIdx`, -1 included.
  unfoldable pub write_zeros : ℕ → Progress → Progress
  write_zeros zero g = g
  write_zeros (suc n) g = write_zeros n (record g { audio_out = audio_write_sample g.audio_out 0 })

  -- `curDataSz / 2`: the data size is an uint32_t, and is kept in an int.
  -- `none` is a negative number.
  abbrev pub sample_total : ℕ → Option ℕ
  sample_total length =
      let size = length * 2 % 2 ^ 32 in if ltb size (2 ^ 31) then some (size / 2) else none

  abbrev pub zeros_left : (total prev_end_idx : Option ℕ) → ℕ
  zeros_left none prev = 0
  zeros_left (some total) none = total + 1
  zeros_left (some total) (some p) = total - p

  -- What follows a round.
  abbrev pub played_then :
      (Progress → Option (ℤ × List ℕ)) → Progress → Option Progress → Option (ℤ × List ℕ)
  played_then further g none = some (minus_one, g.audio_out)
  played_then further g (some left) = further left

  -- The loop and what follows it: the result with the output, `none` for an undefined run.
  unfoldable pub play_all :
      math.Double → (total : Option ℕ) → List (List ℕ) → Progress → Option (ℤ × List ℕ)
  unfolding event_of play write_zeros
  play_all noise_w total [] g =
      some (pos 0, (write_zeros (zeros_left total g.prev_end_idx) g).audio_out)
  play_all noise_w total (line ∷ rest) g =
      event_of line >>= λ e. played_then (play_all noise_w total rest) g (play noise_w e g)

  abbrev pub header_for : ℕ → AudioHeader
  header_for length = record {
    magic_number = audio_magic;
    data_offset = audio_data_offset;
    data_size = length * 2 % 2 ^ 32;
    encoding = pcm16_encoding;
    sample_rate = audio_frame_rate;
    channels = audio_channels;
  }

  abbrev pub header_written : Option (List ℕ) → List ℕ
  header_written none = []
  header_written (some bytes) = bytes

  abbrev pub begun : ℕ → Option (List ℕ) → Progress
  begun length noise = record {
    audio_out = header_written (audio_write_header false (some []) (header_for length)).1;
    noise_file_p = noise;
    cur_noise_sample = 0;
    prev_end_idx = none;
  }

  unfoldable pub dtmf_generate :
      (noise_level : ℤ) → NoiseFile → (length : ℕ) → List (List ℕ) → Option (ℤ × List ℕ)
  unfolding get_noise_w play_all
  dtmf_generate noise_level missing length lines = some (minus_one, [])
  dtmf_generate noise_level unnamed length lines =
      play_all (get_noise_w noise_level) (sample_total length) lines (begun length none)
  dtmf_generate noise_level (opened bytes) length lines =
      play_all (get_noise_w noise_level) (sample_total length) lines (begun length (some bytes))
