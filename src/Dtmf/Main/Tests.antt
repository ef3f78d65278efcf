-- ===== src/Dtmf/Main/Tests.antt =====
-- Runs of hw1/src/main.c.
use c_starter_projects.Prelude.{ℕ, ◌+◌, ◌*◌, ◌≡◌, refl, true, Option, none, List, [], ◌∷◌}
use c_starter_projects.Prelude.Int.{pos, pos_part}
use c_starter_projects.Dtmf.Audio.{AudioHeader}
use c_starter_projects.Dtmf.Args.{Text, Options, validargs}
use c_starter_projects.Dtmf.Generate.{SoundMath}
use c_starter_projects.Dtmf.Goertzel.{ToneMath}
use c_starter_projects.Dtmf.Main.{usage, main}
use c_starter_projects.Dtmf.Main.Ends.{Follows, main-Follows}

-- Numbers in place of the doubles.
abbrev sounds : SoundMath
sounds = record {
  Double = ℕ;
  of_int = pos_part;
  of_sample = λ s. s;
  trunc_sample = λ d. d;
  half = 0;
  two_pi = 6;
  plus = λ a b. a + b;
  minus = λ a b. a;
  times = λ a b. a * b;
  over = λ a b. a;
  cos = λ a. a;
  pow = λ a b. a;
}

abbrev tones : ToneMath
tones = record {
  Double = ℕ;
  of_int = pos_part;
  of_sample = λ s. s;
  plus = λ a b. a + b;
  minus = λ a b. a;
  times = λ a b. a * b;
  over = λ a b. a;
  cos = λ a. a;
  sin = λ a. a;
  square = λ a. a * a;
  exceeds = λ a b. true;
  at_least = λ a b. true;
  same = λ a b. true;
  two_pi = 6;
  four_db = 2;
  six_db = 4;
  minus_20db = 0;
  hundredth = 0;
  min_dtmf_duration = 0;
}

abbrev settings : Options
settings = record {
  global_options = 0;
  noise_file = none;
  noise_level = pos 0;
  block_size = pos 0;
  audio_samples = pos 0;
}

abbrev a_header : AudioHeader
a_header = record {
  magic_number = 0;
  data_offset = 0;
  data_size = 0;
  encoding = 0;
  sample_rate = 0;
  channels = 0;
}

abbrev no_file : Text → Option (List ℕ)
no_file name = none

abbrev detect_line : List Text
detect_line = (b'd' ∷ []) ∷ (b'-' ∷ b'd' ∷ []) ∷ []

main-Follows_example :
    Follows
      (validargs detect_line settings)
      (main sounds tones no_file a_header [] [] detect_line settings)
main-Follows_example = main-Follows sounds tones no_file a_header [] [] detect_line settings

without_mode : main sounds tones no_file a_header [] [] ((b'd' ∷ []) ∷ []) settings ≡ usage 1
unfolding main validargs
without_mode = refl
