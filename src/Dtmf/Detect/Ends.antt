-- ===== src/Dtmf/Detect/Ends.antt =====
-- The loop of dtmf_detect of hw1/src/dtmf.c ends.
use mathlib.Core.Bool.{false≢true}
use c_starter_projects.Prelude.{
  ℕ, zero, suc, ◌+◌, ◌-◌, ◌%◌, ◌^◌, ◌&&◌, ◌≤◌, ◌<◌, ◌≡◌, refl, ap, Bool, true, false, Option, none,
  some, List, [], ◌∷◌, length, arith, Bool-cases, inl, inr, map, if_elim, ltb, ◌==◌, if◌then◌else◌,
}
use c_starter_projects.Prelude.Int.{pos, ltb_ℤ, eq_ℤ, minus_one, ◌-ℤ◌}
use c_starter_projects.Prelude.Options.{After, After-weaken}
use c_starter_projects.Dtmf.Audio.{AudioHeader, audio_read_header, audio_read_sample}
use c_starter_projects.Dtmf.Goertzel.{ToneMath, goertzel_step, goertzel_strength}
use c_starter_projects.Dtmf.Detect.{
  Verdict, done, undefined, out_of_fuel, Found, Block, read_block, end_block, finish, finish_line,
  block_then, detect_loop, event_line, extend_event, has_tone, tones_of, scaled, same_tone,
  row_tone, column_tone, signed_16, appended, begin_block, after_block, nothing_found, dtmf_detect,
}

-- A read that does not give -1 takes a byte at least.
read_shrinks :
    (audio : List ℕ) (old : ℕ)
    → ((audio_read_sample audio old).1 == 0xffff) ≡ false
    → suc (length (audio_read_sample audio old).2) ≤ length audio
unfolding audio_read_sample
read_shrinks [] old e = ground arith
read_shrinks (b ∷ []) old e = omega arith
read_shrinks (b ∷ c ∷ audio) old e = omega arith

read_byte_or_none :
    (audio : List ℕ) (old : ℕ) → length (audio_read_sample audio old).2 ≤ length audio
unfolding audio_read_sample
read_byte_or_none [] old = omega arith
read_byte_or_none (b ∷ []) old = omega arith
read_byte_or_none (b ∷ c ∷ audio) old = omega arith

-- A loop that has not run out of fuel.
abbrev pub Ended {ℓ} : {A : Type ℓ} → Verdict A → Type 0
Ended (done a) = Unit
Ended undefined = Unit
Ended out_of_fuel = ⊥

module _ (math : ToneMath) where
  read_block-shrinks :
      (n : ℕ) (b : Block math)
      → (read_block math n b).eof_not_found ≡ true
      → n + length (read_block math n b).audio ≤ length b.audio
  unfolding read_block
  read_block-shrinks zero b = λ more. omega arith
  read_block-shrinks (suc n) b =
      let read = audio_read_sample b.audio b.sample in
      let counted = record b { sample = read.1; count = b.count + 1; audio = read.2 } in
      let further = record counted {
        filters = map (goertzel_step math (scaled math read.1)) b.filters;
      } in
      elim (Bool-cases (read.1 == 0xffff)) [
        | inl last ↦ rw last (λ more. absurd (false≢true more))
        | inr other ↦ rw other (λ more.
            omega (arith, read_shrinks b.audio b.sample other, read_block-shrinks n further more))
      ]

  finish_line-Ended : (f : Found) (line : Option (List ℕ)) → Ended (finish_line math f line)
  finish_line-Ended f none = tt
  finish_line-Ended f (some line) = tt

  finish-Ended : (f : Found) → Ended (finish math f)
  unfolding finish
  finish-Ended f =
      let last = finish_line math f (event_line f.start_idx f.end_idx f.cur_row f.cur_column) in
      if_elim Ended (ltb_ℤ (pos 0) (signed_16 f.end_idx)) last (done f.events_out)
        (finish_line-Ended f (event_line f.start_idx f.end_idx f.cur_row f.cur_column)) tt

  -- A block that is dealt with leaves no more of the stream than there was.
  abbrev ShrinksTo : Block math → Found → Type 0
  ShrinksTo b f = length f.audio_in ≤ length b.audio

  appended-audio :
      (f : Found) (line : Option (List ℕ))
      → After (λ t. t.audio_in ≡ f.audio_in) (appended math f line)
  appended-audio f none = tt
  appended-audio f (some line) = refl

  extend_event-audio :
      (n : ℕ) (f : Found) → After (λ t. t.audio_in ≡ f.audio_in) (extend_event math n f)
  unfolding extend_event
  extend_event-audio n f =
      let P : Option Found → Type 0 = After (λ t. t.audio_in ≡ f.audio_in) in
      let long =
        math.at_least
          (math.over (math.of_int (signed_16 f.end_idx -ℤ signed_16 f.start_idx))
            (math.of_int (pos 8000)))
          math.min_dtmf_duration in
      let renewed = record f {
        start_idx = (f.cur_idx + (2 ^ 16 - n)) % 2 ^ 16;
        end_idx = f.cur_idx;
        prev_row = f.cur_row;
        prev_column = f.cur_column;
      } in
      let line = event_line f.start_idx f.end_idx f.prev_row f.prev_column in
      let written = appended math renewed line in
      let first = record f { prev_row = f.cur_row; prev_column = f.cur_column } in
      let again = record f { end_idx = f.cur_idx } in
      let same = same_tone math f.cur_row f.prev_row && same_tone math f.cur_column f.prev_column in
      if_elim P (same_tone math f.prev_row none && same_tone math f.prev_column none) (some first)
        (if same then some again else if long then written else some renewed) refl
        (if_elim P same (some again) (if long then written else some renewed) refl
          (if_elim P long written (some renewed) (appended-audio renewed line) refl))

  end_block-ShrinksTo :
      (n : ℕ) (b : Block math) (f : Found) → After (ShrinksTo b) (end_block math n b f)
  unfolding end_block
  end_block-ShrinksTo n b f =
      let read = audio_read_sample b.audio b.sample in
      let tones = tones_of math (map (goertzel_strength math (scaled math read.1)) b.filters) in
      let heard = record f {
        audio_in = read.2;
        block_count = 1;
        cur_idx = (f.cur_idx + n) % 2 ^ 16;
        cur_row = row_tone math tones.0.1 f.cur_row;
        cur_column = column_tone math tones.1.1 f.cur_column;
      } in
      let shrinks : length heard.audio_in ≤ length b.audio = read_byte_or_none b.audio b.sample in
      if_elim (After (ShrinksTo b)) (has_tone math tones.0 tones.1) (extend_event math n heard)
        (some heard)
        (After-weaken (λ t. t.audio_in ≡ heard.audio_in) (ShrinksTo b) (extend_event math n heard)
          (λ t e. omega (arith, shrinks, ap length e)) (extend_event-audio n heard))
        shrinks

  block_then-Ended :
      (further : Found → Verdict (List ℕ)) (fuel : ℕ) (b : Block math) (more : Bool)
      (o : Option Found)
      → After (ShrinksTo b) o
      → (more ≡ true → length b.audio < fuel)
      → ((t : Found) → length t.audio_in < fuel → Ended (further t))
      → Ended (block_then math further more o)
  block_then-Ended further fuel b more none shrinks lt k = tt
  block_then-Ended further fuel b true (some t) shrinks lt k = k t (omega (arith, shrinks, lt refl))
  block_then-Ended further fuel b false (some t) shrinks lt k = finish-Ended t

  after_block-Ended :
      (fuel n : ℕ) (short : Bool) (b : Block math) (f : Found)
      → (b.eof_not_found ≡ true → length b.audio < fuel)
      → ((t : Found) → length t.audio_in < fuel → Ended (detect_loop math fuel n t))
      → Ended (after_block math (detect_loop math fuel n) n short b f)
  unfolding after_block
  after_block-Ended fuel n true b f lt k = finish-Ended f
  after_block-Ended fuel n false b f lt k =
      block_then-Ended (detect_loop math fuel n) fuel b b.eof_not_found (end_block math n b f)
        (end_block-ShrinksTo n b f) lt k

  detect_loop-Ended :
      (fuel n : ℕ) (f : Found)
      → length f.audio_in < fuel
      → 2 ≤ n
      → Ended (detect_loop math fuel n f)
  unfolding detect_loop begin_block
  detect_loop-Ended zero n f lt le = absurd (omega arith)
  detect_loop-Ended (suc fuel) n f lt le =
      let b = read_block math (n - 1) (begin_block math n f) in
      after_block-Ended fuel n (ltb b.count (n - 1)) b f
        (λ more. omega (arith, lt, le, read_block-shrinks (n - 1) (begin_block math n f) more))
        (λ t lt'. detect_loop-Ended fuel n t lt' le)

-- With blocks of two samples or more, and more fuel than the stream has bytes behind its header,
-- dtmf_detect is not out of fuel: it returns, or reads outside of a table.
pub dtmf_detect-Ended :
    (math : ToneMath) (fuel block_size : ℕ) (ah : AudioHeader) (audio : List ℕ)
    → length (audio_read_header (some audio) ah).2 < fuel
    → 2 ≤ block_size
    → After Ended (dtmf_detect math fuel block_size ah audio)
unfolding dtmf_detect
dtmf_detect-Ended math fuel n ah audio lt le =
    let header = audio_read_header (some audio) ah in
    if_elim (After Ended) (eq_ℤ header.0 minus_one) none
      (some (detect_loop math fuel n (nothing_found math header.2))) tt
      (detect_loop-Ended math fuel n (nothing_found math header.2) lt le)
