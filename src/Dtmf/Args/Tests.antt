-- ===== src/Dtmf/Args/Tests.antt =====
-- Command lines of hw1/src/dtmf.c, and the theorems about `validargs` at them.
use c_starter_projects.Prelude.{◌≡◌, refl, none, some, [], ◌∷◌, arith}
use c_starter_projects.Prelude.Int.{pos, negsuc, minus_one}
use c_starter_projects.Prelude.Decimal.{decimal}
use c_starter_projects.Dtmf.Args.{
  Text, Options, valid, finish, flag_loop, generate_round, number, get_current_value, validargs,
}
use c_starter_projects.Dtmf.Args.Ranges.{Sound, validargs-Sound}
use c_starter_projects.Dtmf.Args.Values.{get_current_value-decimal}

abbrev fresh : Options
fresh = record {
  global_options = 0;
  noise_file = none;
  noise_level = pos 0;
  block_size = pos 0;
  audio_samples = pos 0;
}

abbrev program : Text
program = b'd' ∷ b't' ∷ b'm' ∷ b'f' ∷ []

abbrev generate : Text
generate = b'-' ∷ b'g' ∷ []

abbrev level : Text
level = b'-' ∷ b'l' ∷ []

abbrev minus_three : Text
minus_three = b'-' ∷ b'3' ∷ []

validargs-Sound_example :
    Sound fresh (validargs (program ∷ generate ∷ level ∷ minus_three ∷ []) fresh)
validargs-Sound_example = validargs-Sound (program ∷ generate ∷ level ∷ minus_three ∷ []) fresh

get_current_value-decimal_example :
    get_current_value (some (decimal (negsuc 1204))) ≡ number (negsuc 1204)
get_current_value-decimal_example = get_current_value-decimal (negsuc 1204) (omega arith)

minus_one_read : get_current_value (some (b'-' ∷ b'1' ∷ [])) ≡ number minus_one
unfolding get_current_value
minus_one_read = refl

louder :
    validargs (program ∷ generate ∷ level ∷ minus_three ∷ []) fresh
    ≡ valid (record fresh {
      global_options = 2;
      noise_level = negsuc 2;
      block_size = pos 100;
      audio_samples = pos 1000;
    })
unfolding validargs finish flag_loop generate_round get_current_value
louder = refl
