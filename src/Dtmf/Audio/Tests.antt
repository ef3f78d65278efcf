-- ===== src/Dtmf/Audio/Tests.antt =====
-- Sample streams, and the theorems about hw1/src/audio.c at them.
use c_starter_projects.Prelude.{ℕ, ◌≡◌, refl, false, some, List, [], ◌∷◌, ◌++◌, arith}
use c_starter_projects.Prelude.Int.{pos, minus_one}
use c_starter_projects.Dtmf.Audio.{
  AudioHeader, audio_magic, traverse_audio_file_header, audio_read_header, audio_write_header,
  audio_read_sample,
}
use c_starter_projects.Dtmf.Audio.RoundTrip.{read_header-write_header}

abbrev one_second : AudioHeader
one_second = record {
  magic_number = audio_magic;
  data_offset = 26;
  data_size = 16000;
  encoding = 3;
  sample_rate = 8000;
  channels = 1;
}

read_header-write_header_example :
    (bytes : List ℕ) × (audio_write_header false (some []) one_second ≡ (pos 0, some bytes))
    × (audio_read_header (some (bytes ++ (0 ∷ 7 ∷ 1 ∷ []))) one_second
        ≡ (pos 0, one_second, 1 ∷ []))
read_header-write_header_example =
    read_header-write_header one_second one_second (0 ∷ 7 ∷ []) (1 ∷ []) (omega arith)

big_endian : traverse_audio_file_header (0x2e ∷ 0x73 ∷ 0x6e ∷ 0x64 ∷ []) ≡ (audio_magic, [])
unfolding traverse_audio_file_header
big_endian = refl

cut_short : audio_read_sample (0x2e ∷ []) 9 ≡ (minus_one, 9, [])
unfolding audio_read_sample
cut_short = refl
