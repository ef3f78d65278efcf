-- ===== src/Dtmf/Args/Ranges.antt =====
-- Every successful `validargs` leaves settings within the ranges that the usage text promises.
use c_starter_projects.Prelude.{
  ℕ, ◌≤◌, ◌≡◌, refl, ◌⊎◌, inl, inr, Bool, true, false, Option, none, some, List, [], ◌∷◌, arith,
  length, not, ◌&&◌, ltb, ◌==◌, if◌then◌else◌, ◌+◌,
}
use c_starter_projects.Prelude.Int.{ℤ, pos, negsuc, minus_one, ◌≤ℤ◌}
use c_starter_projects.Dtmf.Args.{
  Text, FlagScan, Value, Options, Locals, Round, goes_on, returns_eof, undefined, Verdict, valid,
  invalid, undefined_run, generate_round, detect_round, noise_round, flag_loop, settle, finish,
  start, validargs, help_option, generate_option, detect_option, get_current_value,
  get_current_flag, ranged, rescanned, with_samples, with_level, with_block, out_of_range, and_then,
  number, malformed, overflows,
}

-- What holds of the local variables between the rounds of either loop.
pub record InRange (l : Locals) : Type 0 where
  pub samples :
      (l.temp_audio_samples ≡ minus_one)
      ⊎ ((pos 0 ≤ℤ l.temp_audio_samples) × (l.temp_audio_samples ≤ℤ pos 268435455))
  pub level_low : negsuc 29 ≤ℤ l.temp_noise_level
  pub level_high : l.temp_noise_level ≤ℤ pos 30
  pub block :
      (l.temp_block_size ≡ minus_one)
      ⊎ ((pos 10 ≤ℤ l.temp_block_size) × (l.temp_block_size ≤ℤ pos 1000))
  pub unnamed : l.n_flag_seen ≡ false → l.noise_file_len ≡ 0
  pub named :
      (l.noise_file_len ≡ 0) ⊎ ((name : Text) × (l.noise_file ≡ some name) × (4 ≤ length name))

abbrev Keeps : Round → Type 0
Keeps (goes_on l) = InRange l
Keeps (returns_eof l) = Unit {0}
Keeps undefined = Unit {0}

if-Keeps :
    (b : Bool) (x y : Round)
    → (b ≡ true → Keeps x)
    → (b ≡ false → Keeps y)
    → Keeps (if b then x else y)
if-Keeps true x y p q = p refl
if-Keeps false x y p q = q refl

ranged-Keeps :
    (lo hi : ℤ) (update : ℤ → Locals) (old : Locals) (v : Value)
    → ((n : ℤ) → lo ≤ℤ n → n ≤ℤ hi → InRange (update n))
    → Keeps (ranged lo hi update old v)
ranged-Keeps lo hi update old (number n) h =
    if-Keeps (out_of_range lo hi n) _ _ (λ _. tt)
      (λ e. h n (not_below lo hi n e) (not_above lo hi n e))
  where
    not_below : (lo hi n : ℤ) → out_of_range lo hi n ≡ false → lo ≤ℤ n
    not_below lo hi n e = ground arith

    not_above : (lo hi n : ℤ) → out_of_range lo hi n ≡ false → n ≤ℤ hi
    not_above lo hi n e = ground arith
ranged-Keeps lo hi update old malformed h = tt
ranged-Keeps lo hi update old overflows h = tt

-- Only the two characters of the flag are new.
rescan : (l : Locals) (a b : ℕ) → InRange l → InRange (record l { frst_char = a; scnd_char = b })
rescan l a b h = record {
  samples = h.samples;
  level_low = h.level_low;
  level_high = h.level_high;
  block = h.block;
  unnamed = h.unnamed;
  named = h.named;
}

noise_round-Keeps :
    (value : Option Text) (l : Locals)
    → InRange l
    → l.n_flag_seen ≡ false
    → Keeps (noise_round value l)
unfolding noise_round
noise_round-Keeps none l h e = tt
noise_round-Keeps (some name) l h e =
    if-Keeps (ltb (l.noise_file_len + length name) 4) _ _ (λ _. tt)
      (λ long. record {
        samples = h.samples;
        level_low = h.level_low;
        level_high = h.level_high;
        block = h.block;
        unnamed = λ f. absurd (seen f);
        named = inr (name, refl, ground (arith, h.unnamed e));
      })
  where
    seen : true ≡ false → ⊥
    seen f = cc

and_right : (a b : Bool) → (a && not b) ≡ true → b ≡ false
and_right a b e = ground arith

generate_round-Keeps :
    (flag : Text) (value : Option Text) (l : Locals)
    → InRange l
    → Keeps (generate_round flag value l)
unfolding generate_round
generate_round-Keeps flag value l h =
    let scan = get_current_flag flag l.frst_char l.scnd_char in
    let k = rescan l scan.frst_char scan.scnd_char h in
    let r = rescanned l scan in
    if-Keeps (ltb 3 scan.len) _ _ (λ _. tt)
      λ _.
        if-Keeps (not (scan.frst_char == b'-')) _ _ (λ _. tt)
          λ _.
            if-Keeps ((scan.scnd_char == b't') && not l.t_flag_seen) _ _
              (λ _.
                ranged-Keeps (pos 0) (pos 268435455) (with_samples r) r (get_current_value value)
                  λ n lo hi. record {
                    samples = inr (lo, hi);
                    level_low = h.level_low;
                    level_high = h.level_high;
                    block = h.block;
                    unnamed = h.unnamed;
                    named = h.named;
                  })
              λ _.
                if-Keeps ((scan.scnd_char == b'l') && not l.l_flag_seen) _ _
                  (λ _.
                    ranged-Keeps (negsuc 29) (pos 30) (with_level r) r (get_current_value value)
                      λ n lo hi. record {
                        samples = h.samples;
                        level_low = lo;
                        level_high = hi;
                        block = h.block;
                        unnamed = h.unnamed;
                        named = h.named;
                      })
                  λ _.
                    if-Keeps ((scan.scnd_char == b'n') && not l.n_flag_seen) _ _
                      (λ e.
                        noise_round-Keeps value r k
                          (and_right (scan.scnd_char == b'n') l.n_flag_seen e))
                      (λ _. tt)

detect_round-Keeps :
    (flag : Text) (value : Option Text) (l : Locals) → InRange l → Keeps (detect_round flag value l)
unfolding detect_round
detect_round-Keeps flag value l h =
    let scan = get_current_flag flag l.frst_char l.scnd_char in
    let r = rescanned l scan in
    if-Keeps (ltb 3 scan.len) _ _ (λ _. tt)
      λ _.
        if-Keeps (not (scan.frst_char == b'-')) _ _ (λ _. tt)
          λ _.
            if-Keeps ((scan.scnd_char == b'b') && not l.b_flag_seen) _ _
              (λ _.
                ranged-Keeps (pos 10) (pos 1000) (with_block r) r (get_current_value value)
                  λ n lo hi. record {
                    samples = h.samples;
                    level_low = h.level_low;
                    level_high = h.level_high;
                    block = inr (lo, hi);
                    unnamed = h.unnamed;
                    named = h.named;
                  })
              (λ _. tt)

and_then-Keeps :
    (r : Round) (k : Locals → Round)
    → Keeps r
    → ((l : Locals) → InRange l → Keeps (k l))
    → Keeps (and_then r k)
and_then-Keeps (goes_on l) k h f = f l h
and_then-Keeps (returns_eof l) k h f = tt
and_then-Keeps undefined k h f = tt

flag_loop-Keeps :
    (round : Text → Option Text → Locals → Round)
    → ((flag : Text) (value : Option Text) (l : Locals) → InRange l → Keeps (round flag value l))
    → (args : List Text) (l : Locals) → InRange l
    → Keeps (flag_loop round args l)
unfolding flag_loop
flag_loop-Keeps round keep [] l h = h
flag_loop-Keeps round keep (flag ∷ []) l h = keep flag none l h
flag_loop-Keeps round keep (flag ∷ value ∷ rest) l h =
    and_then-Keeps (round flag (some value) l) _ (keep flag (some value) l h)
      (λ l' h'. flag_loop-Keeps round keep rest l' h')

start-InRange : (old : Options) (scan : FlagScan) → InRange (start old scan)
unfolding start
start-InRange old scan = record {
  samples = inl refl;
  level_low = omega arith;
  level_high = omega arith;
  block = inl refl;
  unnamed = λ _. refl;
  named = inl refl;
}

-- The ranges of the settings, as the usage text gives them.
pub record IsInBounds (o : Options) : Type 0 where
  pub samples : (pos 0 ≤ℤ o.audio_samples) × (o.audio_samples ≤ℤ pos 268435455)
  pub level : (negsuc 29 ≤ℤ o.noise_level) × (o.noise_level ≤ℤ pos 30)
  pub block : (pos 10 ≤ℤ o.block_size) × (o.block_size ≤ℤ pos 1000)
  pub noise :
      (o.noise_file ≡ none) ⊎ ((name : Text) × (o.noise_file ≡ some name) × (4 ≤ length name))

settle-IsInBounds : (mode : ℕ) (l : Locals) → InRange l → IsInBounds (settle mode l)
unfolding settle
settle-IsInBounds mode l h = record {
  samples = ground (arith, h.samples);
  level = ground (arith, h.level_low, h.level_high);
  block = ground (arith, h.block);
  noise = ground (arith, h.named);
}

-- What each verdict says of the settings that were there before and of those that are left.
abbrev pub Sound : Options → Verdict → Type 0
Sound old (valid o) =
    (o ≡ record old { global_options = help_option })
    ⊎ (((o.global_options ≡ generate_option) ⊎ (o.global_options ≡ detect_option)) × IsInBounds o)
Sound old (invalid o) =
    (o.global_options ≡ 0)
    × (o.noise_level ≡ old.noise_level)
    × (o.block_size ≡ old.block_size)
    × (o.audio_samples ≡ old.audio_samples)
Sound old undefined_run = Unit {0}

finish-Sound :
    (mode : ℕ) (old : Options) (r : Round)
    → (mode ≡ generate_option) ⊎ (mode ≡ detect_option)
    → Keeps r
    → Sound old (finish mode old r)
unfolding finish
finish-Sound mode old (goes_on l) m h = inr (m, settle-IsInBounds mode l h)
finish-Sound mode old (returns_eof l) m h = (refl, refl, refl, refl)
finish-Sound mode old undefined m h = tt

if-Sound :
    (old : Options) (b : Bool) (x y : Verdict)
    → Sound old x
    → Sound old y
    → Sound old (if b then x else y)
if-Sound old true x y p q = p
if-Sound old false x y p q = q

-- A command line that `validargs` accepts asks for help and changes no other setting, or chooses one
-- of the two modes and leaves all settings within the ranges of the usage text. One that it refuses
-- leaves no mode set, and the level, the block size and the number of samples as they were.
pub validargs-Sound : (argv : List Text) (old : Options) → Sound old (validargs argv old)
unfolding validargs
validargs-Sound [] old = (refl, refl, refl, refl)
validargs-Sound (program ∷ []) old = (refl, refl, refl, refl)
validargs-Sound (program ∷ mode ∷ args) old =
    let scan = get_current_flag mode b'0' b'0' in
    let first = start-InRange old scan in
    if-Sound old (ltb 3 scan.len) _ _ (refl, refl, refl, refl)
      (if-Sound old ((scan.frst_char == b'-') && (scan.scnd_char == b'h')) _ _ (inl refl) (
        if-Sound old ((scan.frst_char == b'-') && (scan.scnd_char == b'g')) _ _
          (finish-Sound generate_option old _ (inl refl)
            (flag_loop-Keeps generate_round generate_round-Keeps args (start old scan) first))
          (if-Sound old ((scan.frst_char == b'-') && (scan.scnd_char == b'd')) _ _
            (finish-Sound detect_option old _ (inr refl)
              (flag_loop-Keeps detect_round detect_round-Keeps args (start old scan) first))
            (refl, refl, refl, refl))))
