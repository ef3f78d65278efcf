-- ===== src/Dtmf/Detect/Tests.antt =====
-- A stream for the theorem on dtmf_detect of hw1/src/dtmf.c.
use c_starter_projects.Prelude.{ℕ, ◌+◌, ◌*◌, ◌≡◌, refl, true, some, List, [], ◌∷◌, length}
use c_starter_projects.Prelude.Int.{pos_part}
use c_starter_projects.Dtmf.Goertzel.{ToneMath}
use c_starter_projects.Dtmf.Audio.{
  AudioHeader, audio_read_header, traverse_audio_file_header, check_audio_header,
}

-- Numbers in place of the doubles.
abbrev numbers : ToneMath
numbers = record {
  Double = ℕ;
  of_int = pos_part;
  of_sample = λ s. s;
  plus = λ a b. a + b;
  minus = λ a b. a;
  times = λ a b. a * b;
  over = λ a b. a;
  cos = λ a. a;
  sin = λ a. a;
  square = λ a. a * a;
  exceeds = λ a b. true;
  at_least = λ a b. true;
  same = λ a b. true;
  two_pi = 6;
  four_db = 2;
  six_db = 4;
  minus_20db = 0;
  hundredth = 0;
  min_dtmf_duration = 0;
}

abbrev no_header : AudioHeader
no_header = record {
  magic_number = 0;
  data_offset = 0;
  data_size = 0;
  encoding = 0;
  sample_rate = 0;
  channels = 0;
}

-- A header of 24 bytes and three samples.
abbrev stream : List ℕ
stream =
    0x2e ∷ 0x73 ∷ 0x6e ∷ 0x64 ∷ 0 ∷ 0 ∷ 0 ∷ 24 ∷ 0 ∷ 0 ∷ 0 ∷ 6 ∷ 0 ∷ 0 ∷ 0 ∷ 3 ∷ 0 ∷ 0 ∷ 0x1f ∷ 0x40
    ∷ 0 ∷ 0 ∷ 0 ∷ 1 ∷ 0 ∷ 1 ∷ 0 ∷ 2 ∷ 0 ∷ 3 ∷ []

three_samples : length (audio_read_header (some stream) no_header).2 ≡ 6
unfolding audio_read_header traverse_audio_file_header check_audio_header
three_samples = refl
