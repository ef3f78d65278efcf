-- ===== src/Dtmf/Audio/RoundTrip.antt =====
-- What hw1/src/audio.c writes, it reads back.
use Prim.Native.Nat.{bit_and, bit_xor}
use mathlib.Core.List.{append_assoc}
use c_starter_projects.Prelude.{
  ℕ, ◌+◌, ◌-◌, ◌*◌, ◌/◌, ◌%◌, ◌^◌, ◌<◌, ◌≡◌, refl, ap, ◌∙◌, true, false, some, List, [], ◌∷◌, ◌++◌,
  arith, length, drop, lt→ltb, if◌then◌else◌,
}
use c_starter_projects.Prelude.Int.{pos, minus_one}
use c_starter_projects.Prelude.Bits.{bit_xor_fields, bit_and_low_mask, bit_and_shifted}
use c_starter_projects.Dtmf.Audio.{
  AudioHeader, audio_magic, audio_data_offset, pcm16_encoding, audio_frame_rate, audio_channels,
  traverse_audio_file_header, check_audio_header, audio_read_header, word_bytes,
  helper_audio_write_header, audio_write_header, audio_read_sample, audio_write_sample, shift_byte,
  skip_annotation,
}

xor_byte : (q b : ℕ) → b < 256 → bit_xor (q * 256) b ≡ q * 256 + b
xor_byte q b h = bit_xor_fields 8 q b h

zero-xor_byte : (b : ℕ) → b < 256 → bit_xor 0 b ≡ b
zero-xor_byte b h = omega (arith, xor_byte 0 b h)

push_byte : (q b : ℕ) → q < 2 ^ 24 → b < 256 → bit_xor (shift_byte q) b ≡ q * 256 + b
push_byte q b k h = let same : q * 256 % 2 ^ 32 ≡ q * 256 = omega arith in rw same (xor_byte q b h)

join_bytes :
    (a b c d : ℕ)
    → a < 256
    → b < 256
    → c < 256
    → d < 256
    → bit_xor (shift_byte (bit_xor (shift_byte (bit_xor (shift_byte (bit_xor 0 a)) b)) c)) d
      ≡ ((a * 256 + b) * 256 + c) * 256 + d
join_bytes a b c d p q r s = rw (
  zero-xor_byte a p,
  push_byte a b (omega arith) q,
  push_byte (a * 256 + b) c (omega arith) r,
  push_byte ((a * 256 + b) * 256 + c) d (omega arith) s,
)

-- The bytes of a word, with any stream behind them, are read as the word.
pub traverse-word_bytes :
    (w : ℕ) (s : List ℕ) → w < 2 ^ 32 → traverse_audio_file_header (word_bytes 4 w ++ s) ≡ (w, s)
unfolding traverse_audio_file_header word_bytes
traverse-word_bytes w s h =
    ap (λ t. (t, s))
      (join_bytes (w / 16777216 % 256) (w / 65536 % 256) (w / 256 % 256) (w / 1 % 256) (omega arith)
          (omega arith) (omega arith) (omega arith)
        ∙ omega arith)

-- A sample that was written is read back, and what stands behind it is left.
pub read_sample-write_sample :
    (sample old : ℕ) (s : List ℕ)
    → sample < 2 ^ 16
    → audio_read_sample (audio_write_sample [] sample ++ s) old ≡ (pos 0, sample, s)
unfolding audio_read_sample audio_write_sample
read_sample-write_sample sample old s h =
    let low : bit_and sample 0xff ≡ sample % 256 = bit_and_low_mask 8 sample in
    let high : bit_and sample 0xff00 / 256 ≡ sample / 256 =
      omega (arith, bit_and_shifted 8 sample 0xff, bit_and_low_mask 8 (sample / 256)) in
    let whole : sample / 256 * 256 % 2 ^ 16 ≡ sample / 256 * 256 = omega arith in
    ap (λ t. (pos 0, t, s))
      (rw
        (
          high,
          low,
          zero-xor_byte (sample / 256) (omega arith),
          whole,
          xor_byte (sample / 256) (sample % 256) (omega arith),
        )
        (omega arith))

-- A header that the reader accepts, in front of an annotation of `n` bytes.
pub record IsReadable (h : AudioHeader) (n : ℕ) : Type 0 where
  pub magic : h.magic_number ≡ audio_magic
  pub offset : h.data_offset ≡ audio_data_offset + n
  pub short : n < 2 ^ 31
  pub size : h.data_size < 2 ^ 32
  pub encoded : h.encoding ≡ pcm16_encoding
  pub rate : h.sample_rate ≡ audio_frame_rate
  pub mono : h.channels ≡ audio_channels

drop_annotation : (note s : List ℕ) → drop (length note) (note ++ s) ≡ s
drop_annotation [] s = refl
drop_annotation (b ∷ note) s = drop_annotation note s

skip_annotation_lem :
    (offset : ℕ) (note s : List ℕ)
    → offset ≡ audio_data_offset + length note
    → length note < 2 ^ 31
    → skip_annotation offset (note ++ s) ≡ s
skip_annotation_lem offset note s e h =
    let n : offset - 24 ≡ length note = omega arith in
    rw (n, lt→ltb (length note) (2 ^ 31) h) (drop_annotation note s)

check_readable : (h : AudioHeader) (n : ℕ) → IsReadable h n → check_audio_header h ≡ true
unfolding check_audio_header
check_readable h n r = ground arith

-- The bytes of a header.
abbrev pub header_bytes : AudioHeader → List ℕ
header_bytes h =
    word_bytes 4 h.magic_number
    ++ (word_bytes 4 h.data_offset
        ++ (word_bytes 4 h.data_size
            ++ (word_bytes 4 h.encoding
                ++ (word_bytes 4 h.sample_rate ++ word_bytes 4 h.channels))))

pub write_header-header_bytes :
    (out : List ℕ) (h : AudioHeader)
    → audio_write_header false (some out) h ≡ (pos 0, some (out ++ header_bytes h))
unfolding audio_write_header helper_audio_write_header
write_header-header_bytes out h = ap (λ t. (pos 0, some t)) (simp append_assoc)

-- The words of a header, bracketed to the right before a stream.
abbrev six_words : AudioHeader → List ℕ → List ℕ
six_words h s =
    word_bytes 4 h.magic_number
    ++ (word_bytes 4 h.data_offset
        ++ (word_bytes 4 h.data_size
            ++ (word_bytes 4 h.encoding
                ++ (word_bytes 4 h.sample_rate ++ (word_bytes 4 h.channels ++ s)))))

header_bytes-append : (h : AudioHeader) (s : List ℕ) → header_bytes h ++ s ≡ six_words h s
unfolding word_bytes
header_bytes-append h s = refl

-- The reader on six words.
read_six_words :
    (a b c d e f : ℕ) (old : AudioHeader) (s : List ℕ)
    → a < 2 ^ 32
    → b < 2 ^ 32
    → c < 2 ^ 32
    → d < 2 ^ 32
    → e < 2 ^ 32
    → f < 2 ^ 32
    → let h : AudioHeader = record {
      magic_number = a;
      data_offset = b;
      data_size = c;
      encoding = d;
      sample_rate = e;
      channels = f;
    } in
      audio_read_header (some (six_words h s)) old
      ≡ (if check_audio_header h then (pos 0, h, skip_annotation b s) else (minus_one, h, s))
read_six_words a b c d e f old s p q r t u v =
    let s₆ = word_bytes 4 f ++ s in
    let s₅ = word_bytes 4 e ++ s₆ in
    let s₄ = word_bytes 4 d ++ s₅ in
    let s₃ = word_bytes 4 c ++ s₄ in
    let s₂ = word_bytes 4 b ++ s₃ in
    unfold audio_read_header in
    rw (
      traverse-word_bytes a s₂ p,
      traverse-word_bytes b s₃ q,
      traverse-word_bytes c s₄ r,
      traverse-word_bytes d s₅ t,
      traverse-word_bytes e s₆ u,
      traverse-word_bytes f s v,
    )

-- A header that was written to a fresh stream, with an annotation and samples behind it, is read
-- back with result 0, and the samples are left, if it is a header that `audio_read_header` accepts:
-- with the magic number, the encoding, the rate and the number of channels of `audio.h`, a size of 32
-- bits, and an offset of 24 bytes more than the annotation, which is shorter than 2 ^ 31 bytes.
-- `audio_write_header` writes any header.
pub read_header-write_header :
    (h old : AudioHeader) (note s : List ℕ)
    → IsReadable h (length note)
    → (bytes : List ℕ) × (audio_write_header false (some []) h ≡ (pos 0, some bytes))
      × (audio_read_header (some (bytes ++ (note ++ s))) old ≡ (pos 0, h, s))
read_header-write_header h old note s r = (
  header_bytes h,
  write_header-header_bytes [] h,
  rw (header_bytes-append h (note ++ s)) (
      read_six_words h.magic_number h.data_offset h.data_size h.encoding h.sample_rate h.channels
        old (note ++ s) (omega arith) (omega arith) (omega arith) (omega arith) (omega arith)
        (omega arith)
      ∙ rw (check_readable h (length note) r)
          (ap (λ t. (pos 0, h, t)) (skip_annotation_lem h.data_offset note s r.offset r.short))),
)
