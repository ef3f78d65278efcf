-- ===== src/Legion/Parse/Tests.antt =====
-- Lines, and the theorems about `legion_parse_args` of hw4/src/cli.c at them.
use c_starter_projects.Prelude.{
  none, map, ◌≤◌, length, drop, ◌≡◌, refl, some, List, [], ◌∷◌, All, arith,
}
use c_starter_projects.Prelude.Strings.{Text}
use c_starter_projects.Legion.Commands.{unset, Arguments}
use c_starter_projects.Legion.Parse.{at_field, fields, tokens, arguments_of}
use c_starter_projects.Legion.Parse.Printed.{
  Field, bare, quoted, IsField, text_of, show_line, Fits, IsFilled, unwords, arguments_of-show_line,
}

-- x 'a b'
abbrev quoted_line : Text
quoted_line = b'x' ∷ b' ' ∷ 39 ∷ b'a' ∷ b' ' ∷ b'b' ∷ 39 ∷ []

abbrev written : Text
written = b'x' ∷ b'@' ∷ b'a' ∷ b' ' ∷ b'b' ∷ b'@' ∷ []

two_fields : fields at_field quoted_line ≡ some written
unfolding fields
two_fields = refl

two_tokens : tokens [] written ≡ (b'x' ∷ []) ∷ (b'a' ∷ b' ' ∷ b'b' ∷ []) ∷ []
unfolding tokens
two_tokens = refl

abbrev a_line : List Field
a_line = bare (b'x' ∷ []) ∷ quoted (b'a' ∷ b' ' ∷ b'b' ∷ []) ∷ []

a_line-IsField : All IsField a_line
a_line-IsField = ground arith

arguments_of-show_line_example :
    (Fits (map text_of a_line)
      → (a : Arguments) × (arguments_of (show_line a_line) (λ i. unset) ≡ some (some a))
        × IsFilled (map text_of a_line) (λ i. unset) a)
    × (500 ≤ length (unwords (drop 3 (map text_of a_line)))
        → arguments_of (show_line a_line) (λ i. unset) ≡ none)
arguments_of-show_line_example =
    arguments_of-show_line a_line (λ i. unset) a_line-IsField (omega arith)
