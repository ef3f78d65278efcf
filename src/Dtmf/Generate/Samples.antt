-- ===== src/Dtmf/Generate/Samples.antt =====
-- How many samples dtmf_generate of hw1/src/dtmf.c writes.
use mathlib.Core.Path.{subst}
use c_starter_projects.Prelude.{
  ℕ, zero, suc, ◌+◌, ◌-◌, ◌*◌, ◌^◌, ◌≤◌, ◌<◌, ◌≢◌, ◌≡◌, refl, sym, ap, ◌∙◌, true, false, Option,
  none, some, List, [], ◌∷◌, length, length-append, arith, ltb,
}
use c_starter_projects.Prelude.Int.{ℤ, pos}
use c_starter_projects.Dtmf.Audio.{
  audio_write_sample, audio_write_header, helper_audio_write_header, word_bytes,
}
use c_starter_projects.Dtmf.Generate.{
  SoundMath, Event, Progress, NoiseFile, unnamed, missing, opened, event_of, get_noise_w, write_one,
  write_with, write_gap, write_tone, play, play_all, fill_gap, settled, write_zeros, zeros_left,
  sample_total, begun, dtmf_generate, is_behind, tone_of,
}

sample_bytes : (out : List ℕ) (sample : ℕ) → length (audio_write_sample out sample) ≡ length out + 2
unfolding audio_write_sample
sample_bytes out sample = length-append out _

module _ (math : SoundMath) (w : math.Double) where
  write_with-length :
      (tone : math.Double) (clean : ℕ) (noise : Option (List ℕ)) (g : Progress)
      → length (write_with math w tone clean noise g).audio_out ≡ length g.audio_out + 2
  unfolding write_with
  write_with-length tone clean none g = sample_bytes g.audio_out clean
  write_with-length tone clean (some bytes) g = sample_bytes g.audio_out _

  write_gap-length :
      (n : ℕ) (g : Progress) → length (write_gap math w n g).audio_out ≡ length g.audio_out + 2 * n
  unfolding write_gap
  write_gap-length zero g = omega arith
  write_gap-length (suc n) g =
      let clean = write_one math w (math.of_int (pos 0)) 0 g in
      omega (
        arith,
        write_gap-length n clean,
        write_with-length (math.of_int (pos 0)) 0 g.noise_file_p g,
      )

  write_tone-length :
      (symbol i n : ℕ) (g : Progress)
      → length (write_tone math w symbol i n g).audio_out ≡ length g.audio_out + 2 * n
  unfolding write_tone
  write_tone-length symbol i zero g = omega arith
  write_tone-length symbol i (suc n) g =
      let tone = tone_of math symbol i in
      let clean = math.trunc_sample (math.times tone (math.of_int (pos 32767))) in
      omega (
        arith,
        write_tone-length symbol (i + 1) n (write_one math w tone clean g),
        write_with-length tone clean g.noise_file_p g,
      )

  write_zeros-length :
      (n : ℕ) (g : Progress) → length (write_zeros math n g).audio_out ≡ length g.audio_out + 2 * n
  unfolding write_zeros
  write_zeros-length zero g = omega arith
  write_zeros-length (suc n) g = omega (
    arith,
    write_zeros-length n (record g { audio_out = audio_write_sample g.audio_out 0 }),
    sample_bytes g.audio_out 0,
  )

  -- The end of the event before, which is 0 in front of the first event.
  abbrev Ends : Option ℕ → ℕ → Type 0
  Ends none p = p ≡ 0
  Ends (some q) p = q ≡ p

  fill_gap-length :
      (prev : Option ℕ) (p start : ℕ) (g : Progress)
      → Ends prev p
      → p ≤ start
      → length (fill_gap math w start (settled math prev start) g).audio_out + 2 * p
        ≡ length g.audio_out + 2 * start
  fill_gap-length none p zero g e le = omega (arith, e)
  fill_gap-length none p (suc n) g e le = omega (arith, e, write_gap-length (suc n - 0) g)
  fill_gap-length (some q) p start g e le = omega (arith, e, write_gap-length (start - q) g)

  is_behind-Ends :
      (prev : Option ℕ) (p start : ℕ) → Ends prev p → p ≤ start → is_behind math prev start ≡ true
  is_behind-Ends none p start e le = refl
  is_behind-Ends (some q) p start e le = ground (arith, e)

  play-length :
      (e : Event) (p : ℕ) (g : Progress)
      → Ends g.prev_end_idx p
      → p ≤ e.start_idx
      → e.start_idx ≤ e.end_idx
      → (left : Progress) × (play math w e g ≡ some left)
        × (left.prev_end_idx ≡ some e.end_idx)
        × (length left.audio_out + 2 * p ≡ length g.audio_out + 2 * e.end_idx)
  unfolding play
  play-length e p g ends le le' =
      let filled = fill_gap math w e.start_idx (settled math g.prev_end_idx e.start_idx) g in
      let played = write_tone math w e.symbol e.start_idx (e.end_idx - e.start_idx) filled in
      let forward : ltb e.end_idx e.start_idx ≡ false = ground (arith, le') in
      (
        record played { prev_end_idx = some e.end_idx },
        rw (forward, is_behind-Ends g.prev_end_idx p e.start_idx ends le) refl,
        refl,
        omega (
          arith,
          fill_gap-length g.prev_end_idx p e.start_idx g ends le,
          write_tone-length e.symbol e.start_idx (e.end_idx - e.start_idx) filled,
        ),
      )

-- Lines of events in their order, each behind the one before, and all within the length.
abbrev pub InOrder : (prev : ℕ) → (total : ℕ) → List (List ℕ) → Type 0
InOrder prev total [] = prev ≤ total
InOrder prev total (line ∷ rest) =
    (e : Event) × (event_of line ≡ some e)
    × (prev ≤ e.start_idx)
    × (e.start_idx ≤ e.end_idx)
    × InOrder e.end_idx total rest

module _ (math : SoundMath) (w : math.Double) (total : ℕ) where
  -- What the samples that are missing amount to.
  play_rest :
      (p : ℕ) (lines : List (List ℕ)) (g : Progress)
      → g.prev_end_idx ≡ some p
      → InOrder p total lines
      → (out : List ℕ) × (play_all math w (some total) lines g ≡ some (pos 0, out))
        × (length out + 2 * p ≡ length g.audio_out + 2 * total)
  unfolding play_all
  play_rest p [] g e le =
      let n = zeros_left math (some total) g.prev_end_idx in
      let left : n ≡ total - p = ap (zeros_left math (some total)) e in
      (
        (write_zeros math n g).audio_out,
        refl,
        omega (arith, left, le, write_zeros-length math w n g),
      )
  play_rest p (line ∷ rest) g e (ev, parsed, le, le', further) =
      let played = play-length math w ev p g (subst (λ o. Ends math w o p) (sym e) refl) le le' in
      let rest_played = play_rest ev.end_idx rest played.0 played.2 further in
      (rest_played.0, rw (parsed, played.1) rest_played.1, omega (arith, rest_played.2, played.3))

  -- The same from the start, where nothing has been played.
  play_lines :
      (line : List ℕ) (rest : List (List ℕ)) (g : Progress)
      → g.prev_end_idx ≡ none
      → InOrder 0 total (line ∷ rest)
      → (out : List ℕ) × (play_all math w (some total) (line ∷ rest) g ≡ some (pos 0, out))
        × (length out ≡ length g.audio_out + 2 * total)
  unfolding play_all
  play_lines line rest g e (ev, parsed, le, le', further) =
      let played = play-length math w ev 0 g (subst (λ o. Ends math w o 0) (sym e) refl) le le' in
      let rest_played = play_rest ev.end_idx rest played.0 played.2 further in
      (rest_played.0, rw (parsed, played.1) rest_played.1, omega (arith, rest_played.2, played.3))

header_bytes_24 :
    (math : SoundMath) (n : ℕ) (noise : Option (List ℕ))
    → length (begun math n noise).audio_out ≡ 24
unfolding audio_write_header helper_audio_write_header word_bytes
header_bytes_24 math n noise = refl

total_of : (math : SoundMath) (n : ℕ) → n < 2 ^ 30 → sample_total math n ≡ some n
total_of math n lt = ground arith

started :
    (math : SoundMath) (w : math.Double) (n : ℕ) (line : List ℕ) (rest : List (List ℕ))
    (noise : Option (List ℕ))
    → n < 2 ^ 30
    → InOrder 0 n (line ∷ rest)
    → (out : List ℕ) × (play_all math w (sample_total math n) (line ∷ rest) (begun math n noise)
        ≡ some (pos 0, out))
      × (length out ≡ 24 + 2 * n)
started math w n line rest noise lt order =
    let played = play_lines math w n line rest (begun math n noise) refl order in
    (
      played.0,
      ap (λ t. play_all math w t (line ∷ rest) (begun math n noise)) (total_of math n lt)
          ∙ played.1,
      omega (arith, played.2, header_bytes_24 math n noise),
    )

silent :
    (math : SoundMath) (w : math.Double) (n : ℕ) (noise : Option (List ℕ))
    → n < 2 ^ 30
    → (out : List ℕ) × (play_all math w (sample_total math n) [] (begun math n noise)
        ≡ some (pos 0, out))
      × (length out ≡ 24 + 2 * n + 2)
unfolding play_all
silent math w n noise lt =
    let g = begun math n noise in
    let zeros = zeros_left math (sample_total math n) none in
    let all : zeros ≡ n + 1 = ap (λ t. zeros_left math t none) (total_of math n lt) in
    (
      (write_zeros math zeros g).audio_out,
      refl,
      omega (arith, all, write_zeros-length math w zeros g, header_bytes_24 math n noise),
    )

-- With at least one event, events in their order and within the announced length, of less than
-- 2 ^ 30 samples, and a noise file that can be opened or none, dtmf_generate returns 0 and writes
-- the header of 24 bytes and exactly the announced number of samples of two bytes.
pub dtmf_generate-InOrder :
    (math : SoundMath) (noise_level : ℤ) (file : NoiseFile) (n : ℕ) (line : List ℕ)
    (rest : List (List ℕ))
    → file ≢ missing
    → n < 2 ^ 30
    → InOrder 0 n (line ∷ rest)
    → (out : List ℕ) × (dtmf_generate math noise_level file n (line ∷ rest) ≡ some (pos 0, out))
      × (length out ≡ 24 + 2 * n)
unfolding dtmf_generate
dtmf_generate-InOrder math noise_level missing n line rest there lt order = absurd (there refl)
dtmf_generate-InOrder math noise_level unnamed n line rest there lt order =
    started math (get_noise_w math noise_level) n line rest none lt order
dtmf_generate-InOrder math noise_level (opened bytes) n line rest there lt order =
    started math (get_noise_w math noise_level) n line rest (some bytes) lt order

-- Without an event, dtmf_generate writes one sample more than it announces.
pub dtmf_generate_empty :
    (math : SoundMath) (noise_level : ℤ) (file : NoiseFile) (n : ℕ)
    → file ≢ missing
    → n < 2 ^ 30
    → (out : List ℕ) × (dtmf_generate math noise_level file n [] ≡ some (pos 0, out))
      × (length out ≡ 24 + 2 * n + 2)
unfolding dtmf_generate
dtmf_generate_empty math noise_level missing n there lt = absurd (there refl)
dtmf_generate_empty math noise_level unnamed n there lt =
    silent math (get_noise_w math noise_level) n none lt
dtmf_generate_empty math noise_level (opened bytes) n there lt =
    silent math (get_noise_w math noise_level) n (some bytes) lt
