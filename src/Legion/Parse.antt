-- ===== src/Legion/Parse.antt =====
-- `legion_parse_args` of hw4/src/cli.c: from a line, without its newline, to the arguments that
-- `legion_check_args` runs.
pub mod Buffer
pub mod Printed
mod Tests
use c_starter_projects.Prelude.{
  ℕ, suc, ◌*◌, Bool, true, false, Option, none, some, List, [], ◌∷◌, ◌++◌, length, ltb, ◌==◌,
  if◌then◌else◌,
}
use c_starter_projects.Prelude.Strings.{Text}
use c_starter_projects.Legion.Daemons.{Legion}
use c_starter_projects.Legion.Commands.{
  Slot, unset, holds, dangling, Arguments, Answers, Next, next_line, legion_check_args,
}

-- Where the loops over the line stand: at the test of the outer loop, in a word, behind it, in a
-- quoted field, at the quotes behind it.
pub data Place : Type 0 where
  at_field in_word at_spaces in_quotes at_quotes : Place

abbrev pub cons : ℕ → Option Text → Option Text
cons c none = none
cons c (some t) = some (c ∷ t)

-- What is written to `curArg`: the fields, each with `@` behind it. `none` is the return on `<`.
unfoldable pub fields : Place → Text → Option Text
fields in_word [] = some (b'@' ∷ [])
fields in_quotes [] = some (b'@' ∷ [])
fields at_field [] = some []
fields at_spaces [] = some []
fields at_quotes [] = some []
fields in_word (c ∷ s) = elim (c == b' ') [
  | true ↦ cons b'@' (fields at_spaces s)
  | false ↦ cons c (fields in_word s)
]
fields in_quotes (c ∷ s) = elim (c == 39) [
  | true ↦ cons b'@' (fields at_quotes s)
  | false ↦ cons c (fields in_quotes s)
]
fields at_field (c ∷ s) = elim (c == b'<') [
  | true ↦ none
  | false ↦ elim (c == 39) [
    | true ↦ fields in_quotes s
    | false ↦ elim (c == b' ') [
      | true ↦ cons b'@' (fields at_spaces s)
      | false ↦ cons c (fields in_word s)
    ]
  ]
]
fields at_spaces (c ∷ s) = elim (c == b' ') [
  | true ↦ fields at_spaces s
  | false ↦ elim (c == b'<') [
    | true ↦ none
    | false ↦ elim (c == 39) [ true ↦ fields in_quotes s | false ↦ cons c (fields in_word s) ]
  ]
]
fields at_quotes (c ∷ s) = elim (c == 39) [
  | true ↦ fields at_quotes s
  | false ↦ elim (c == b' ') [
    | true ↦ fields at_spaces s
    | false ↦ elim (c == b'<') [ true ↦ none | false ↦ cons c (fields in_word s) ]
  ]
]

abbrev pub backwards : Text → Text → Text
backwards [] t = t
backwards (c ∷ s) t = backwards s (c ∷ t)

abbrev pub end_token : Text → List Text → List Text
end_token [] ts = ts
end_token (c ∷ s) ts = backwards (c ∷ s) [] ∷ ts

-- `strtok_r` at `@`, which passes over empty fields; `current` is the field so far, backwards.
unfoldable pub tokens : Text → Text → List Text
tokens current [] = end_token current []
tokens current (c ∷ s) = elim (c == b'@') [
  | true ↦ end_token current (tokens [] s)
  | false ↦ tokens (c ∷ current) s
]

-- The bytes of `argContainer` that the fourth field and the later ones take, with a blank before
-- each of the later ones.
unfoldable pub joined : Text → List Text → Text
joined first [] = first
joined first (t ∷ rest) = joined (first ++ b' ' ∷ t) rest

-- What a line leaves of the elements that it does not set: their strings are freed.
abbrev pub outlived : Slot → Slot
outlived unset = unset
outlived (holds t) = dangling
outlived dangling = dangling

abbrev pub put : ℕ → Slot → (ℕ → Slot) → ℕ → Slot
put i s arg j = if j == i then s else arg j

-- The loop over the tokens: the first three are elements, the others are joined in the fourth,
-- which `argArrIdx` does not count. `none` is a run over the 500 bytes of `argContainer`.
unfoldable pub place : List Text → (ℕ → Slot) → Option Arguments
place [] arg = some (record { arg_idx = 0; arg = arg })
place (a ∷ []) arg = some (record { arg_idx = 1; arg = put 0 (holds a) arg })
place (a ∷ b ∷ []) arg = some (record { arg_idx = 2; arg = put 0 (holds a) (put 1 (holds b) arg) })
place (a ∷ b ∷ c ∷ []) arg =
    some (record { arg_idx = 3; arg = put 0 (holds a) (put 1 (holds b) (put 2 (holds c) arg)) })
place (a ∷ b ∷ c ∷ d ∷ rest) arg =
    let all = joined d rest in
    if ltb (length all) 500
    then some (record {
      arg_idx = 3;
      arg = put 0 (holds a) (put 1 (holds b) (put 2 (holds c) (put 3 (holds all) arg)));
    })
    else none

-- The arguments of a line, or `none` where the run is undefined: a line of fewer than two
-- characters leaves no room for the NUL byte that `strtok_r` looks for. The inner `none` is a line
-- with `<`, which is dropped.
unfoldable pub arguments_of : Text → (ℕ → Slot) → Option (Option Arguments)
arguments_of line arg = elim (fields at_field line) [
  | none ↦ some none
  | some out ↦
      if ltb (length out) (2 * length line)
      then elim (place (tokens [] out) (λ i. outlived (arg i))) [
        | none ↦ none
        | some a ↦ some (some a)
      ]
      else none
]

-- The elements of `argArr` that are left, and what comes next.
unfoldable pub legion_parse_args : Answers → Text → (ℕ → Slot) → Legion → Option ((ℕ → Slot) × Next)
unfolding fields tokens joined place arguments_of
legion_parse_args answers line arg l = elim (arguments_of line arg) [
  | none ↦ none
  | some dropped ↦ elim dropped [
    | none ↦ some (arg, next_line l)
    | some a ↦ elim (legion_check_args answers a l) [ none ↦ none | some n ↦ some (a.arg, n) ]
  ]
]
