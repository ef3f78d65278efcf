-- ===== src/Dtmf/Generate/Tests.antt =====
-- Events for the theorems on dtmf_generate of hw1/src/dtmf.c.
use c_starter_projects.Prelude.{ℕ, ◌+◌, ◌*◌, ◌≡◌, ◌≢◌, refl, ap, some, List, [], ◌∷◌, length, arith}
use c_starter_projects.Prelude.Int.{pos, pos_part}
use c_starter_projects.Dtmf.Generate.{
  SoundMath, Event, NoiseFile, unnamed, missing, opened, event_of, idx_loop, get_txt_idx,
  dtmf_generate, row_frequency, column_frequency,
}
use c_starter_projects.Dtmf.Generate.Samples.{InOrder, dtmf_generate-InOrder}

-- Numbers in place of the doubles.
abbrev numbers : SoundMath
numbers = record {
  Double = ℕ;
  of_int = pos_part;
  of_sample = λ s. s;
  trunc_sample = λ d. d;
  half = 0;
  two_pi = 6;
  plus = λ a b. a + b;
  minus = λ a b. a;
  times = λ a b. a * b;
  over = λ a b. a;
  cos = λ a. a;
  pow = λ a b. a;
}

-- The line 2, 5, 9 with tabs between, and the NUL byte.
abbrev line : List ℕ
line = b'2' ∷ b'\t' ∷ b'5' ∷ b'\t' ∷ b'9' ∷ b'\n' ∷ 0 ∷ []

abbrev nine : Event
nine = record { start_idx = 2; end_idx = 5; symbol = b'9' }

line_read : event_of line ≡ some nine
unfolding event_of get_txt_idx idx_loop
line_read = refl

nine_frequencies : (row_frequency b'9' ≡ 852) × (column_frequency b'9' ≡ 1477)
unfolding row_frequency column_frequency
nine_frequencies = (refl, refl)

line-InOrder : InOrder 0 7 (line ∷ [])
line-InOrder = (nine, line_read, omega arith, omega arith, omega arith)

is_named : NoiseFile → ℕ
is_named unnamed = 0
is_named missing = 1
is_named (opened bytes) = 2

unnamed≢missing : unnamed ≢ missing
unfolding is_named
unnamed≢missing e = absurd (omega (arith, ap is_named e))

dtmf_generate-InOrder_example :
    (out : List ℕ) × (dtmf_generate numbers (pos 0) unnamed 7 (line ∷ []) ≡ some (pos 0, out))
    × (length out ≡ 24 + 2 * 7)
dtmf_generate-InOrder_example =
    dtmf_generate-InOrder numbers (pos 0) unnamed 7 line [] unnamed≢missing (omega arith)
      line-InOrder
