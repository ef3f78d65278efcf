-- ===== src/Legion/Parse/Buffer.antt =====
-- How much `legion_parse_args` of hw4/src/cli.c writes to its buffer.
use mathlib.Core.Path.{subst}
use c_starter_projects.Prelude.{
  ℕ, suc, ◌+◌, ◌*◌, ◌≤◌, ◌≡◌, ◌≢◌, Bool, true, false, Option, none, some, [], ◌∷◌, length, arith,
  ◌==◌,
}
use c_starter_projects.Prelude.Strings.{Text}
use c_starter_projects.Legion.Parse.{
  Place, at_field, in_word, at_spaces, in_quotes, at_quotes, fields, cons, arguments_of,
}
use c_starter_projects.Legion.Commands.{Slot}

abbrev pub IsWithin : ℕ → Option Text → Type 0
IsWithin n none = Unit {0}
IsWithin n (some t) = length t ≤ n

cons-IsWithin : (n c : ℕ) (o : Option Text) → IsWithin n o → IsWithin (suc n) (cons c o)
cons-IsWithin n c none h = tt
cons-IsWithin n c (some t) h = omega (arith, h)

weaken : (n : ℕ) (o : Option Text) → IsWithin n o → IsWithin (suc n) o
weaken n none h = tt
weaken n (some t) h = omega (arith, h)

elim-IsWithin :
    (n : ℕ) (b : Bool) (x y : Option Text)
    → IsWithin n x
    → IsWithin n y
    → IsWithin n (elim b [ true ↦ x | false ↦ y ])
elim-IsWithin n true x y h k = h
elim-IsWithin n false x y h k = k

fields-IsWithin : (p : Place) (s : Text) → IsWithin (suc (length s)) (fields p s)
unfolding fields
fields-IsWithin in_word [] = omega arith
fields-IsWithin in_quotes [] = omega arith
fields-IsWithin at_field [] = omega arith
fields-IsWithin at_spaces [] = omega arith
fields-IsWithin at_quotes [] = omega arith
fields-IsWithin in_word (c ∷ s) =
    let n = suc (length s) in
    elim-IsWithin (suc n) (c == b' ') _ _
      (cons-IsWithin n b'@' (fields at_spaces s) (fields-IsWithin at_spaces s))
      (cons-IsWithin n c (fields in_word s) (fields-IsWithin in_word s))
fields-IsWithin in_quotes (c ∷ s) =
    let n = suc (length s) in
    elim-IsWithin (suc n) (c == 39) _ _
      (cons-IsWithin n b'@' (fields at_quotes s) (fields-IsWithin at_quotes s))
      (cons-IsWithin n c (fields in_quotes s) (fields-IsWithin in_quotes s))
fields-IsWithin at_field (c ∷ s) =
    let n = suc (length s) in
    elim-IsWithin (suc n) (c == b'<') none _ tt (
      elim-IsWithin (suc n) (c == 39) _ _
        (weaken n (fields in_quotes s) (fields-IsWithin in_quotes s))
        (elim-IsWithin (suc n) (c == b' ') _ _
          (cons-IsWithin n b'@' (fields at_spaces s) (fields-IsWithin at_spaces s))
          (cons-IsWithin n c (fields in_word s) (fields-IsWithin in_word s))))
fields-IsWithin at_spaces (c ∷ s) =
    let n = suc (length s) in
    elim-IsWithin (suc n) (c == b' ') _ _
      (weaken n (fields at_spaces s) (fields-IsWithin at_spaces s))
      (elim-IsWithin (suc n) (c == b'<') none _ tt (
        elim-IsWithin (suc n) (c == 39) _ _
          (weaken n (fields in_quotes s) (fields-IsWithin in_quotes s))
          (cons-IsWithin n c (fields in_word s) (fields-IsWithin in_word s))))
fields-IsWithin at_quotes (c ∷ s) =
    let n = suc (length s) in
    elim-IsWithin (suc n) (c == 39) _ _
      (weaken n (fields at_quotes s) (fields-IsWithin at_quotes s))
      (elim-IsWithin (suc n) (c == b' ') _ _
        (weaken n (fields at_spaces s) (fields-IsWithin at_spaces s))
        (elim-IsWithin (suc n) (c == b'<') none _ tt
          (cons-IsWithin n c (fields in_word s) (fields-IsWithin in_word s))))

-- What `legion_parse_args` writes for a line of two characters or more leaves room for a NUL byte in
-- its buffer of twice the length of the line.
pub fields_fit :
    (line out : Text)
    → 2 ≤ length line
    → fields at_field line ≡ some out
    → length out + 1 ≤ 2 * length line
fields_fit line out h e =
    let within = subst (IsWithin (suc (length line))) e (fields-IsWithin at_field line) in
    omega (arith, h, within)

-- A line of a single character other than `<`, a quote and a blank leaves no room for the NUL byte
-- behind its field.
pub one_character_overruns :
    (c : ℕ) (arg : ℕ → Slot) → c ≢ b'<' → c ≢ 39 → c ≢ b' ' → arguments_of (c ∷ []) arg ≡ none
unfolding arguments_of fields
one_character_overruns c arg less quote blank = ground (arith, less, quote, blank)
