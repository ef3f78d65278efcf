-- ===== src/Dtmf/Args/Values.antt =====
-- The numbers of the command line, and two arguments that `validargs` gets wrong.
use mathlib.Core.List.{append_assoc, append-nil}
use c_starter_projects.Prelude.{
  ℕ, zero, suc, ◌+◌, ◌-◌, ◌*◌, ◌/◌, ◌%◌, ◌<◌, ◌≡◌, refl, sym, ap, ◌∙◌, inl, inr, Bool, true, false,
  Bool-cases, some, [], ◌∷◌, ◌++◌, arith, ltb,
}
use c_starter_projects.Prelude.Int.{ℤ, pos, negsuc, minus_one, magnitude}
use c_starter_projects.Prelude.Decimal.{show_digits, decimal}
use c_starter_projects.Dtmf.Args.{
  Text, Options, undefined_run, number, value_loop, get_current_value, long_limit, signed,
  validargs, flag_loop, generate_round, settle, finish, start, get_current_flag,
}

digit-value_loop :
    (d acc : ℕ) (negative : Bool) (rest : Text)
    → d < 10
    → (acc + d) * 10 < long_limit
    → value_loop ((d + 48) ∷ rest) negative acc ≡ value_loop rest negative ((acc + d) * 10)
unfolding value_loop
digit-value_loop d acc negative rest h k =
    let back : d + 48 - 48 ≡ d = omega arith in ground (arith, back)

digits-value_loop :
    (fuel n : ℕ) (negative : Bool) (rest : Text)
    → n < fuel
    → n * 10 < long_limit
    → value_loop (show_digits fuel n ++ rest) negative 0 ≡ value_loop rest negative (n * 10)
unfolding show_digits
digits-value_loop zero n negative rest h k = absurd (omega arith)
digits-value_loop (suc fuel) n negative rest h k = elim (Bool-cases (ltb n 10)) [
  | inl small ↦
      let whole : (0 + n) * 10 ≡ n * 10 = omega arith in
      rw small (
        digit-value_loop n 0 negative rest (ground arith) (omega arith)
        ∙ ap (value_loop rest negative) whole)
  | inr large ↦
      let whole : (n / 10 * 10 + n % 10) * 10 ≡ n * 10 = omega arith in
      rw (large, append_assoc)
        (digits-value_loop fuel (n / 10) negative ((n % 10 + 48) ∷ rest) (ground arith)
            (omega arith)
          ∙ digit-value_loop (n % 10) (n / 10 * 10) negative rest (omega arith) (omega arith)
          ∙ ap (value_loop rest negative) whole)
]

whole_text :
    (fuel n : ℕ) (negative : Bool)
    → n < fuel
    → n * 10 < long_limit
    → value_loop (show_digits fuel n) negative 0 ≡ number (signed negative n)
unfolding value_loop
whole_text fuel n negative h k =
    let back : n * 10 / 10 ≡ n = omega arith in
    ap (λ t. value_loop t negative 0) (sym (append-nil (show_digits fuel n)))
    ∙ digits-value_loop fuel n negative [] h k
    ∙ ap (λ m. number (signed negative m)) back

negative_number : (n : ℕ) → signed true (suc n) ≡ negsuc n
negative_number n = ground arith

minus_sign : (text : Text) → value_loop (b'-' ∷ text) false 0 ≡ value_loop text true 0
unfolding value_loop
minus_sign text = refl

-- `get_current_value` reads the decimal text of a number as that number, as long as ten times its
-- absolute value fits a `long`.
pub get_current_value-decimal :
    (v : ℤ) → magnitude v * 10 < long_limit → get_current_value (some (decimal v)) ≡ number v
unfolding get_current_value decimal
get_current_value-decimal (pos n) h = whole_text (suc n) n false (omega arith) h
get_current_value-decimal (negsuc n) h =
    minus_sign (show_digits (suc (suc n)) (suc n))
    ∙ whole_text (suc (suc n)) (suc n) true (omega arith) h
    ∙ ap number (negative_number n)

-- When the value of `-l` is -1, the mode is `-g` and there is no other option, the level that
-- `validargs` leaves is 0 dB, as if `-l` had not been given.
pub level_minus_one_lost :
    (program text : Text) (old : Options)
    → get_current_value (some text) ≡ number minus_one
    → validargs (program ∷ (b'-' ∷ b'g' ∷ []) ∷ (b'-' ∷ b'l' ∷ []) ∷ text ∷ []) old
      ≡ validargs (program ∷ (b'-' ∷ b'g' ∷ []) ∷ []) old
unfolding validargs flag_loop generate_round finish get_current_flag start settle
level_minus_one_lost program text old h = rw h refl

-- `-g -n` without a name takes the length of a null pointer.
pub noise_name_missing :
    (program : Text) (old : Options)
    → validargs (program ∷ (b'-' ∷ b'g' ∷ []) ∷ (b'-' ∷ b'n' ∷ []) ∷ []) old ≡ undefined_run
unfolding validargs flag_loop generate_round finish
noise_name_missing program old = refl
