-- ===== src/Dtmf/Main/Ends.antt =====
-- The main function of hw1/src/main.c ends, whatever its command line and its input.
use c_starter_projects.Prelude.{
  ℕ, suc, ◌*◌, ◌/◌, ◌%◌, ◌≤◌, ◌≡◌, refl, ap, ◌⊎◌, inl, inr, Option, none, some, List, length, arith,
  if_elim, ◌==◌, if◌then◌else◌,
}
use c_starter_projects.Prelude.Int.{ℤ, pos_part, eq_ℤ, minus_one}
use c_starter_projects.Prelude.Options.{After}
use c_starter_projects.Dtmf.Audio.{AudioHeader, audio_read_header}
use c_starter_projects.Dtmf.Args.{
  Text, Options, Verdict, valid, invalid, undefined_run, validargs, help_option,
}
use c_starter_projects.Dtmf.Args.Ranges.{IsInBounds, Sound, validargs-Sound}
use c_starter_projects.Dtmf.Generate.{SoundMath, dtmf_generate}
use c_starter_projects.Dtmf.Goertzel.{ToneMath}
use c_starter_projects.Dtmf.Detect
use c_starter_projects.Dtmf.Detect.{done, undefined, out_of_fuel, dtmf_detect}
use c_starter_projects.Dtmf.Detect.Ends.{Ended, dtmf_detect-Ended}
use c_starter_projects.Dtmf.Main.{
  ProgramEnd, usage, returns, undefined_behaviour, no_end, generated, detected, noise_of, run_mode,
  main,
}

abbrev pub IsEnd : ProgramEnd → Type 0
IsEnd (usage status) = Unit
IsEnd (returns status output) = Unit
IsEnd undefined_behaviour = Unit
IsEnd no_end = ⊥

-- The end that a command line leads to: a refused one to the usage text and the status 1, an accepted
-- one to some end.
abbrev pub Follows : Verdict → ProgramEnd → Type 0
Follows (valid o) e = IsEnd e
Follows (invalid o) e = e ≡ usage 1
Follows undefined_run e = e ≡ undefined_behaviour

generated-IsEnd : (o : Option (ℤ × List ℕ)) → IsEnd (generated o)
generated-IsEnd none = tt
generated-IsEnd (some r) = if_elim IsEnd (eq_ℤ r.0 minus_one) _ _ tt tt

detected-IsEnd : (o : Option (Detect.Verdict (List ℕ))) → After Ended o → IsEnd (detected o)
detected-IsEnd none h = tt
detected-IsEnd (some (done events)) h = tt
detected-IsEnd (some undefined) h = tt
detected-IsEnd (some out_of_fuel) h = h

-- Settings that ask for help, or have blocks of ten samples or more.
abbrev Runs : Options → Type 0
Runs o = (o.global_options ≡ help_option) ⊎ IsInBounds o

block_size : (o : Options) → IsInBounds o → 2 ≤ pos_part o.block_size
block_size o h = ground (arith, h.block)

module _ (sound : SoundMath) (tone : ToneMath) (fopen : Text → Option (List ℕ)) (ah : AudioHeader)
    (lines : List (List ℕ)) (audio : List ℕ) where
  run_mode-IsEnd : (o : Options) → Runs o → IsEnd (run_mode sound tone fopen ah lines audio o)
  unfolding run_mode
  run_mode-IsEnd o (inl e) = simp e tt
  run_mode-IsEnd o (inr h) = if_elim IsEnd (o.global_options % 2 == 1) _ _ tt (
      if_elim IsEnd (o.global_options / 2 % 2 == 1) _ _
        (generated-IsEnd (
          dtmf_generate sound o.noise_level (noise_of fopen o.noise_file)
            (pos_part o.audio_samples * 8) lines))
        (if_elim IsEnd (o.global_options / 4 % 2 == 1) _ _
          (detected-IsEnd
            (dtmf_detect tone (suc (length (audio_read_header (some audio) ah).2))
              (pos_part o.block_size) ah audio)
            (dtmf_detect-Ended tone (suc (length (audio_read_header (some audio) ah).2))
              (pos_part o.block_size) ah audio (omega arith) (block_size o h)))
          tt))

  verdict-Follows :
      (old : Options) (v : Verdict)
      → Sound old v
      → Follows v (elim v [
        | valid o ↦ run_mode sound tone fopen ah lines audio o
        | invalid o ↦
            if o.global_options == 0 then usage 1 else run_mode sound tone fopen ah lines audio o
        | undefined_run ↦ undefined_behaviour
      ])
  verdict-Follows old (valid o) (inl e) =
      run_mode-IsEnd o (inl (ap (λ (p : Options). p.global_options) e))
  verdict-Follows old (valid o) (inr h) = run_mode-IsEnd o (inr h.1)
  verdict-Follows old (invalid o) h = simp h.0 refl
  verdict-Follows old undefined_run h = refl

-- Whatever the settings before, the files and the input: on a command line that `validargs` refuses
-- the program prints its usage and ends with the status 1; on one that it accepts the program prints
-- its usage, returns with what it has written, or has undefined behaviour, and never runs for ever.
pub main-Follows :
    (sound : SoundMath) (tone : ToneMath) (fopen : Text → Option (List ℕ)) (ah : AudioHeader)
    (lines : List (List ℕ)) (audio : List ℕ) (argv : List Text) (old : Options)
    → Follows (validargs argv old) (main sound tone fopen ah lines audio argv old)
unfolding main
main-Follows sound tone fopen ah lines audio argv old =
    verdict-Follows sound tone fopen ah lines audio old (validargs argv old)
      (validargs-Sound argv old)
