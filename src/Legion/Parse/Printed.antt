-- ===== src/Legion/Parse/Printed.antt =====
-- Lines that are printed from fields, and what `legion_parse_args` of hw4/src/cli.c makes of them.
use mathlib.Core.List.{append-nil, append_assoc}
use c_starter_projects.Prelude.{
  ℕ, ◌*◌, ◌≤◌, ◌≡◌, refl, ap, ◌∙◌, ◌≢◌, true, none, some, List, [], ◌∷◌, ◌++◌, length, arith, All,
  map, ltb, lt→ltb, ◌<◌, get_or, drop, if◌then◌else◌,
}
use c_starter_projects.Prelude.Strings.{Text}
use c_starter_projects.Legion.Commands.{Slot, Arguments, holds}
use c_starter_projects.Legion.Parse.{
  at_field, in_word, at_spaces, in_quotes, at_quotes, fields, cons, backwards, end_token, tokens,
  outlived, joined, put, place, arguments_of,
}
use c_starter_projects.Legion.Parse.Buffer.{fields_fit}

-- A field as it stands in a line.
pub data Field : Type 0 where
  bare quoted : Text → Field

abbrev pub text_of : Field → Text
text_of (bare s) = s
text_of (quoted s) = s

-- The bytes of a bare field behind its first, and of a quoted field.
abbrev IsBare : ℕ → Type 0
IsBare c = (c ≢ b' ') × (c ≢ b'@')

abbrev IsQuoted : ℕ → Type 0
IsQuoted c = (c ≢ 39) × (c ≢ b'@')

-- Neither a bare nor a quoted field is empty, and no `@` is in a field. A bare field has no blank,
-- and begins neither with `<` nor with a quote; a quoted field has no quote.
abbrev pub IsField : Field → Type 0
IsField (bare []) = ⊥
IsField (bare (c ∷ s)) = (c ≢ b'<') × (c ≢ 39) × All IsBare (c ∷ s)
IsField (quoted []) = ⊥
IsField (quoted (c ∷ s)) = All IsQuoted (c ∷ s)

abbrev pub show_field : Field → Text → Text
show_field (bare s) rest = s ++ rest
show_field (quoted s) rest = 39 ∷ s ++ 39 ∷ rest

abbrev pub show_behind : List Field → Text
show_behind [] = []
show_behind (f ∷ fs) = b' ' ∷ show_field f (show_behind fs)

-- The fields with one blank between two of them.
abbrev pub show_line : List Field → Text
show_line [] = []
show_line (f ∷ fs) = show_field f (show_behind fs)

abbrev marked : List Field → Text
marked [] = []
marked (f ∷ fs) = text_of f ++ b'@' ∷ marked fs

word_then :
    (s tail out : Text)
    → All IsBare s
    → fields in_word tail ≡ some (b'@' ∷ out)
    → fields in_word (s ++ tail) ≡ some (s ++ b'@' ∷ out)
unfolding fields
word_then [] tail out h e = e
word_then (c ∷ s) tail out h e = ground (arith, h.0, word_then s tail out h.1 e)

quotes_then :
    (s tail out : Text)
    → All IsQuoted s
    → fields at_quotes tail ≡ some out
    → fields in_quotes (s ++ 39 ∷ tail) ≡ some (s ++ b'@' ∷ out)
unfolding fields
quotes_then [] tail out h e = rw e refl
quotes_then (c ∷ s) tail out h e = ground (arith, h.0, quotes_then s tail out h.1 e)

field_then :
    (f : Field) (tail out : Text)
    → IsField f
    → fields in_word tail ≡ some (b'@' ∷ out)
    → fields at_quotes tail ≡ some out
    → (fields at_field (show_field f tail) ≡ some (text_of f ++ b'@' ∷ out))
      × (fields at_spaces (show_field f tail) ≡ some (text_of f ++ b'@' ∷ out))
unfolding fields
field_then (bare []) tail out h e k = absurd h
field_then (bare (c ∷ s)) tail out h e k =
    let word = word_then s tail out h.2.1 e in
    (ground (arith, h.0, h.1, h.2.0, word), ground (arith, h.0, h.1, h.2.0, word))
field_then (quoted []) tail out h e k = absurd h
field_then (quoted (c ∷ s)) tail out h e k =
    (quotes_then (c ∷ s) tail out h k, quotes_then (c ∷ s) tail out h k)

fields-show_behind :
    (fs : List Field)
    → All IsField fs
    → (fields in_word (show_behind fs) ≡ some (b'@' ∷ marked fs))
      × (fields at_quotes (show_behind fs) ≡ some (marked fs))
unfolding fields
fields-show_behind [] h = (refl, refl)
fields-show_behind (f ∷ fs) h =
    let behind = fields-show_behind fs h.1 in
    let field = (field_then f (show_behind fs) (marked fs) h.0 behind.0 behind.1).1 in
    (ap (cons b'@') field, field)

fields-show_line :
    (fs : List Field) → All IsField fs → fields at_field (show_line fs) ≡ some (marked fs)
unfolding fields
fields-show_line [] h = refl
fields-show_line (f ∷ fs) h =
    let behind = fields-show_behind fs h.1 in
    (field_then f (show_behind fs) (marked fs) h.0 behind.0 behind.1).0

backwards_twice : (s t u : Text) → backwards (backwards s t) u ≡ backwards t (s ++ u)
backwards_twice [] t u = refl
backwards_twice (c ∷ s) t u = backwards_twice s (c ∷ t) u

end_token_full :
    (s t : Text) (c : ℕ) (ts : List Text)
    → end_token (backwards s (c ∷ t)) ts ≡ backwards (backwards s (c ∷ t)) [] ∷ ts
end_token_full [] t c ts = refl
end_token_full (d ∷ s) t c ts = end_token_full s (c ∷ t) d ts

tokens_then :
    (s current rest : Text)
    → All (λ c. c ≢ b'@') s
    → tokens current (s ++ b'@' ∷ rest) ≡ end_token (backwards s current) (tokens [] rest)
unfolding tokens
tokens_then [] current rest h = refl
tokens_then (c ∷ s) current rest h = ground (arith, h.0, tokens_then s (c ∷ current) rest h.1)

All-weaken : {P Q : ℕ → Type 0} (s : Text) → ((c : ℕ) → P c → Q c) → All P s → All Q s
All-weaken [] f h = tt
All-weaken (c ∷ s) f h = (f c h.0, All-weaken s f h.1)

IsField-no_at : (f : Field) → IsField f → All (λ c. c ≢ b'@') (text_of f)
IsField-no_at (bare []) h = tt
IsField-no_at (bare (c ∷ s)) h = All-weaken (c ∷ s) (λ d k. k.1) h.2
IsField-no_at (quoted []) h = tt
IsField-no_at (quoted (c ∷ s)) h = All-weaken (c ∷ s) (λ d k. k.1) h

token_of_text :
    (c : ℕ) (s rest : Text)
    → All (λ d. d ≢ b'@') (c ∷ s)
    → tokens [] ((c ∷ s) ++ b'@' ∷ rest) ≡ (c ∷ s) ∷ tokens [] rest
token_of_text c s rest h =
    let ts = tokens [] rest in
    tokens_then (c ∷ s) [] rest h
    ∙ end_token_full s [] c ts
    ∙ ap (λ t. t ∷ ts) (backwards_twice s (c ∷ []) [] ∙ ap (λ t. c ∷ t) (append-nil s))

token_of_field :
    (f : Field) (rest : Text)
    → IsField f
    → tokens [] (text_of f ++ b'@' ∷ rest) ≡ text_of f ∷ tokens [] rest
token_of_field (bare []) rest h = absurd h
token_of_field (bare (c ∷ s)) rest h = token_of_text c s rest (IsField-no_at (bare (c ∷ s)) h)
token_of_field (quoted []) rest h = absurd h
token_of_field (quoted (c ∷ s)) rest h = token_of_text c s rest (IsField-no_at (quoted (c ∷ s)) h)

tokens-marked : (fs : List Field) → All IsField fs → tokens [] (marked fs) ≡ map text_of fs
unfolding tokens
tokens-marked [] h = refl
tokens-marked (f ∷ fs) h =
    token_of_field f (marked fs) h.0 ∙ ap (λ ts. text_of f ∷ ts) (tokens-marked fs h.1)

-- The texts, with a blank before each but the first.
abbrev pub unwords : List Text → Text
unwords [] = []
unwords (t ∷ []) = t
unwords (t ∷ u ∷ ts) = t ++ b' ' ∷ unwords (u ∷ ts)

-- The elements behind a line of these texts: the first three hold the first three texts, the fourth
-- holds all others, and the count is that of the first three. What is not set has outlived its line.
pub record IsFilled (texts : List Text) (old : ℕ → Slot) (a : Arguments) : Type 0 where
  pub counted : a.arg_idx ≡ (if ltb (length texts) 3 then length texts else 3)
  pub command : 0 < length texts → a.arg 0 ≡ holds (get_or texts 0 [])
  pub name : 1 < length texts → a.arg 1 ≡ holds (get_or texts 1 [])
  pub executable : 2 < length texts → a.arg 2 ≡ holds (get_or texts 2 [])
  pub others : 3 < length texts → a.arg 3 ≡ holds (unwords (drop 3 texts))
  pub unset_left : (i : ℕ) → length texts ≤ i → a.arg i ≡ outlived (old i)
  pub beyond : (i : ℕ) → 4 ≤ i → a.arg i ≡ outlived (old i)

unwords_longer :
    (first t : Text) (rest : List Text)
    → unwords ((first ++ b' ' ∷ t) ∷ rest) ≡ first ++ b' ' ∷ unwords (t ∷ rest)
unwords_longer first t [] = refl
unwords_longer first t (u ∷ rest) = append_assoc first (b' ' ∷ t) (b' ' ∷ unwords (u ∷ rest))

joined-unwords : (first : Text) (rest : List Text) → joined first rest ≡ unwords (first ∷ rest)
unfolding joined
joined-unwords first [] = refl
joined-unwords first (t ∷ rest) =
    joined-unwords (first ++ b' ' ∷ t) rest ∙ unwords_longer first t rest

-- The fourth element has 500 bytes.
abbrev pub Fits : List Text → Type 0
Fits texts = length (unwords (drop 3 texts)) < 500

place-IsFilled :
    (texts : List Text) (old : ℕ → Slot)
    → Fits texts
    → (a : Arguments) × (place texts (λ i. outlived (old i)) ≡ some a) × IsFilled texts old a
unfolding place
place-IsFilled [] old h = (
  _,
  refl,
  record {
    counted = refl;
    command = λ k. absurd (omega (arith, k));
    name = λ k. absurd (omega (arith, k));
    executable = λ k. absurd (omega (arith, k));
    others = λ k. absurd (omega (arith, k));
    unset_left = λ i k. refl;
    beyond = λ i k. refl;
  },
)
place-IsFilled (a ∷ []) old h = (
  _,
  refl,
  record {
    counted = refl;
    command = λ k. refl;
    name = λ k. absurd (omega (arith, k));
    executable = λ k. absurd (omega (arith, k));
    others = λ k. absurd (omega (arith, k));
    unset_left = λ i k. ground (arith, k);
    beyond = λ i k. ground (arith, k);
  },
)
place-IsFilled (a ∷ b ∷ []) old h = (
  _,
  refl,
  record {
    counted = refl;
    command = λ k. refl;
    name = λ k. refl;
    executable = λ k. absurd (omega (arith, k));
    others = λ k. absurd (omega (arith, k));
    unset_left = λ i k. ground (arith, k);
    beyond = λ i k. ground (arith, k);
  },
)
place-IsFilled (a ∷ b ∷ c ∷ []) old h = (
  _,
  refl,
  record {
    counted = refl;
    command = λ k. refl;
    name = λ k. refl;
    executable = λ k. refl;
    others = λ k. absurd (omega (arith, k));
    unset_left = λ i k. ground (arith, k);
    beyond = λ i k. ground (arith, k);
  },
)
place-IsFilled (a ∷ b ∷ c ∷ d ∷ rest) old h =
    let e = joined-unwords d rest in
    let fits : ltb (length (joined d rest)) 500 ≡ true =
      lt→ltb _ _ (omega (arith, h, ap length e)) in
    let old' : ℕ → Slot = λ i. outlived (old i) in
    let left : Arguments = record {
      arg_idx = 3;
      arg =
          put 0 (holds a) (put 1 (holds b) (put 2 (holds c) (put 3 (holds (joined d rest)) old')));
    } in
    (
      left,
      rw fits refl,
      record {
        counted = ground arith;
        command = λ k. refl;
        name = λ k. refl;
        executable = λ k. refl;
        others = λ k. ap holds e;
        unset_left = λ i k. ground (arith, k);
        beyond = λ i k. ground (arith, k);
      },
    )

place_overruns :
    (texts : List Text) (arg : ℕ → Slot)
    → 500 ≤ length (unwords (drop 3 texts))
    → place texts arg ≡ none
unfolding place
place_overruns [] arg h = absurd (omega (arith, h))
place_overruns (a ∷ []) arg h = absurd (omega (arith, h))
place_overruns (a ∷ b ∷ []) arg h = absurd (omega (arith, h))
place_overruns (a ∷ b ∷ c ∷ []) arg h = absurd (omega (arith, h))
place_overruns (a ∷ b ∷ c ∷ d ∷ rest) arg h =
    let long = ap length (joined-unwords d rest) in ground (arith, h, long)

-- A line of two characters or more that is printed from bare and quoted fields with one blank between
-- them: none is empty or has an `@`; a bare one has no blank and begins neither with `<` nor with a
-- quote; a quoted one has no quote. If what follows the third field takes less than 500 bytes, the
-- line is split into these fields, without their quotes: the first three are the first elements of
-- `argArr`, which alone are counted, and the others are the fourth, with blanks between them. If it
-- takes 500 bytes or more, the run is undefined.
pub arguments_of-show_line :
    (fs : List Field) (arg : ℕ → Slot)
    → All IsField fs
    → 2 ≤ length (show_line fs)
    → (Fits (map text_of fs)
        → (a : Arguments) × (arguments_of (show_line fs) arg ≡ some (some a))
          × IsFilled (map text_of fs) arg a)
      × (500 ≤ length (unwords (drop 3 (map text_of fs))) → arguments_of (show_line fs) arg ≡ none)
unfolding arguments_of
arguments_of-show_line fs arg h long =
    let line = show_line fs in
    let texts = map text_of fs in
    let split = fields-show_line fs h in
    let room : ltb (length (marked fs)) (2 * length line) ≡ true =
      lt→ltb _ _ (omega (arith, fields_fit line (marked fs) long split)) in
    (
      λ fits.
          let placed = place-IsFilled texts arg fits in
          (placed.0, rw (arguments_of, split, room, tokens-marked fs h, placed.1) refl, placed.2),
      λ overrun.
          rw
            (
              arguments_of,
              split,
              room,
              tokens-marked fs h,
              place_overruns texts (λ i. outlived (arg i)) overrun,
            )
            refl,
    )
