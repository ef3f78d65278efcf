-- ===== src/Dtmf/Main.antt =====
-- The main function of hw1/src/main.c, over the parts of hw1/src/dtmf.c. The standard input is given
-- as lines for the generator and as bytes for the detector.
pub mod Ends
mod Tests
use c_starter_projects.Prelude.{
  ℕ, suc, ◌+◌, ◌*◌, ◌/◌, ◌%◌, Option, none, some, List, [], length, ◌==◌, if◌then◌else◌,
}
use c_starter_projects.Prelude.Int.{ℤ, pos_part, eq_ℤ, minus_one}
use c_starter_projects.Dtmf.Audio.{AudioHeader, audio_read_header}
use c_starter_projects.Dtmf.Args.{Text, Options, valid, invalid, undefined_run, validargs}
use c_starter_projects.Dtmf.Generate.{SoundMath, NoiseFile, unnamed, missing, opened, dtmf_generate}
use c_starter_projects.Dtmf.Goertzel.{ToneMath}
use c_starter_projects.Dtmf.Detect.{Verdict, done, undefined, out_of_fuel, dtmf_detect}

-- How the program ends: with the usage text, or with what it has written; or it does not.
pub data ProgramEnd : Type 0 where
  usage : (status : ℕ) → ProgramEnd
  returns : (status : ℕ) (output : List ℕ) → ProgramEnd
  undefined_behaviour : ProgramEnd
  no_end : ProgramEnd

abbrev pub opened_file : Option (List ℕ) → NoiseFile
opened_file none = missing
opened_file (some bytes) = opened bytes

abbrev pub noise_of : (Text → Option (List ℕ)) → Option Text → NoiseFile
noise_of fopen none = unnamed
noise_of fopen (some name) = opened_file (fopen name)

abbrev pub generated : Option (ℤ × List ℕ) → ProgramEnd
generated none = undefined_behaviour
generated (some r) = if eq_ℤ r.0 minus_one then returns 1 r.1 else returns 0 r.1

abbrev pub detected : Option (Verdict (List ℕ)) → ProgramEnd
detected none = returns 1 []
detected (some (done events)) = returns 0 events
detected (some undefined) = undefined_behaviour
detected (some out_of_fuel) = no_end

-- What the two modes read is given, and the stream for the noise.
module _ (sound : SoundMath) (tone : ToneMath) (fopen : Text → Option (List ℕ)) (ah : AudioHeader)
    (lines : List (List ℕ)) (audio : List ℕ) where
  unfoldable pub run_mode : Options → ProgramEnd
  run_mode o =
      let fuel = suc (length (audio_read_header (some audio) ah).2) in
      let generates = generated (
        dtmf_generate sound o.noise_level (noise_of fopen o.noise_file)
          (pos_part o.audio_samples * 8) lines) in
      let detects = detected (dtmf_detect tone fuel (pos_part o.block_size) ah audio) in
      if o.global_options % 2 == 1
      then usage 0
      else if o.global_options / 2 % 2 == 1
      then generates
      else if o.global_options / 4 % 2 == 1
      then detects
      else returns 1 []

  unfoldable pub main : (argv : List Text) → Options → ProgramEnd
  unfolding run_mode
  main argv old = elim (validargs argv old) [
    | valid o ↦ run_mode o
    | invalid o ↦ if o.global_options == 0 then usage 1 else run_mode o
    | undefined_run ↦ undefined_behaviour
  ]
