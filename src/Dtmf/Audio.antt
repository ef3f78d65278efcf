-- ===== src/Dtmf/Audio.antt =====
-- hw1/src/audio.c: reading and writing Sun audio headers and 16-bit samples. A stream that is read
-- is the list of the bytes that are left; one that is written is the list of the bytes written so
-- far. Words are numbers below 2 ^ 32, samples are 16-bit patterns.
pub mod RoundTrip
mod Tests
use Prim.Native.Nat.{bit_and, bit_xor}
use c_starter_projects.Prelude.{
  ℕ, zero, suc, ◌-◌, ◌*◌, ◌/◌, ◌%◌, ◌^◌, Bool, true, false, not, Option, none, some, List, [], ◌∷◌,
  ◌++◌, ltb, drop, ◌==◌, if◌then◌else◌,
}
use c_starter_projects.Prelude.Int.{ℤ, pos, minus_one}

pub record AudioHeader : Type 0 where
  pub magic_number : ℕ
  pub data_offset : ℕ
  pub data_size : ℕ
  pub encoding : ℕ
  pub sample_rate : ℕ
  pub channels : ℕ

abbrev pub audio_magic : ℕ
audio_magic = 0x2e736e64

abbrev pub audio_data_offset : ℕ
audio_data_offset = 24

abbrev pub pcm16_encoding : ℕ
pcm16_encoding = 3

abbrev pub audio_frame_rate : ℕ
audio_frame_rate = 8000

abbrev pub audio_channels : ℕ
audio_channels = 1

-- `fgetc`: a byte, or `none` for EOF.
abbrev pub fgetc : List ℕ → Option ℕ × List ℕ
fgetc [] = (none, [])
fgetc (b ∷ s) = (some b, s)

-- EOF is -1, stored in an uint32_t.
abbrev pub as_word : Option ℕ → ℕ
as_word none = 0xffff_ffff
as_word (some b) = b

-- `fullHex << 8` in an uint32_t
abbrev pub shift_byte : ℕ → ℕ
shift_byte w = w * 256 % 2 ^ 32

unfoldable pub traverse_audio_file_header : List ℕ → ℕ × List ℕ
traverse_audio_file_header s =
    let (b₁, s₁) = fgetc s in
    let w₁ = shift_byte (bit_xor 0 (as_word b₁)) in
    let (b₂, s₂) = fgetc s₁ in
    let w₂ = shift_byte (bit_xor w₁ (as_word b₂)) in
    let (b₃, s₃) = fgetc s₂ in
    let w₃ = shift_byte (bit_xor w₂ (as_word b₃)) in
    let (b₄, s₄) = fgetc s₃ in (bit_xor w₃ (as_word b₄), s₄)

unfoldable pub check_audio_header : AudioHeader → Bool
check_audio_header h =
    if not (h.magic_number == audio_magic)
    then false
    else if ltb h.data_offset audio_data_offset
    then false
    else if not (h.encoding == pcm16_encoding)
    then false
    else if not (h.sample_rate == audio_frame_rate)
    then false
    else if not (h.channels == audio_channels)
    then false
    else true

-- The annotation of `data_offset - 24` bytes is passed over; the count is an int, and a negative
-- one passes over nothing.
abbrev pub skip_annotation : ℕ → List ℕ → List ℕ
skip_annotation offset s = if ltb (offset - 24) (2 ^ 31) then drop (offset - 24) s else s

-- The result, the header that was read, and what is left of the stream; `none` is a NULL stream.
unfoldable pub audio_read_header : Option (List ℕ) → AudioHeader → ℤ × AudioHeader × List ℕ
unfolding check_audio_header
audio_read_header none old = (minus_one, old, [])
audio_read_header (some s) old =
    let (magic, s₁) = traverse_audio_file_header s in
    let (offset, s₂) = traverse_audio_file_header s₁ in
    let (size, s₃) = traverse_audio_file_header s₂ in
    let (encoded, s₄) = traverse_audio_file_header s₃ in
    let (rate, s₅) = traverse_audio_file_header s₄ in
    let (chans, s₆) = traverse_audio_file_header s₅ in
    let h : AudioHeader = record {
      magic_number = magic;
      data_offset = offset;
      data_size = size;
      encoding = encoded;
      sample_rate = rate;
      channels = chans;
    } in
    if check_audio_header h then (pos 0, h, skip_annotation offset s₆) else (minus_one, h, s₆)

-- The bytes `n - 1`, …, 0 of a word; `%c` writes the low byte of its argument.
unfoldable pub word_bytes : ℕ → ℕ → List ℕ
word_bytes zero w = []
word_bytes (suc n) w = (w / 2 ^ (8 * n) % 256) ∷ word_bytes n w

unfoldable pub helper_audio_write_header : List ℕ → ℕ → List ℕ
unfolding word_bytes
helper_audio_write_header out w = out ++ word_bytes 4 w

-- `none` is a NULL stream, `eof` what `feof` says of the stream.
unfoldable pub audio_write_header :
    (eof : Bool) → Option (List ℕ) → AudioHeader → ℤ × Option (List ℕ)
audio_write_header eof none h = (minus_one, none)
audio_write_header true (some out) h = (minus_one, some out)
audio_write_header false (some out) h =
    let o₁ = helper_audio_write_header out h.magic_number in
    let o₂ = helper_audio_write_header o₁ h.data_offset in
    let o₃ = helper_audio_write_header o₂ h.data_size in
    let o₄ = helper_audio_write_header o₃ h.encoding in
    let o₅ = helper_audio_write_header o₄ h.sample_rate in
    (pos 0, some (helper_audio_write_header o₅ h.channels))

-- The result, the sample (as it was, where the function does not set it), and what is left.
unfoldable pub audio_read_sample : List ℕ → ℕ → ℤ × ℕ × List ℕ
audio_read_sample [] old = (minus_one, 0xffff, [])
audio_read_sample (b ∷ []) old = (minus_one, old, [])
audio_read_sample (b ∷ c ∷ s) old = (pos 0, bit_xor (bit_xor 0 b * 256 % 2 ^ 16) c, s)

unfoldable pub audio_write_sample : List ℕ → ℕ → List ℕ
audio_write_sample out sample = out ++ (bit_and sample 0xff00 / 256) ∷ bit_and sample 0xff ∷ []
