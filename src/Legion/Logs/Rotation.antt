-- ===== src/Legion/Logs/Rotation.antt =====
-- `legion_logrotate` of hw4/src/cli.c: which version is written next, and where the others go.
use mathlib.Core.Bool.{false≢true}
use c_starter_projects.Prelude.{
  ℕ, zero, suc, ◌+◌, ◌-◌, ◌≤◌, ◌<◌, ◌≡◌, refl, ap, sym, ◌∙◌, ◌≢◌, true, false, Option, none, some,
  [], ◌∷◌, All, arith, ◌==◌, Bool-cases, inl, inr, Option-cases, ltb, ltb→lt, ==_iff, ◌⊎◌,
}
use c_starter_projects.Prelude.Options.{◌>>=◌}
use c_starter_projects.Prelude.Strings.{Text}
use c_starter_projects.Legion.Logs.{
  Files, log_versions, exists, place_at, rename, rename_all, first_free, rotate_when, rotate_files,
}

place_at-same : (v : ℕ) (c : Option Text) (f : Files) → place_at v c f v ≡ c
place_at-same v c f = ground arith

place_at-other : (v i : ℕ) (c : Option Text) (f : Files) → i ≢ v → place_at v c f i ≡ f i
place_at-other v i c f h = ground (arith, h)

abbrev pub AllExist : ℕ → Files → Type 0
AllExist n f = (i : ℕ) → i < n → exists (f i) ≡ true

-- The versions below `n` have become the next ones.
pub record IsShifted (n : ℕ) (f g : Files) : Type 0 where
  pub freed : 0 < n → g 0 ≡ none
  pub unmoved : n ≡ 0 → g 0 ≡ f 0
  pub shifted : (i : ℕ) → i < n → g (suc i) ≡ f i
  pub beyond : (i : ℕ) → n < i → g i ≡ f i

abbrev moved : ℕ → Files → Files
moved n f = place_at n none (place_at (suc n) (f n) f)

moved_away : (n : ℕ) (f : Files) → moved n f n ≡ none
moved_away n f = place_at-same n none (place_at (suc n) (f n) f)

moved_to : (n : ℕ) (f : Files) → moved n f (suc n) ≡ f n
moved_to n f =
    place_at-other n (suc n) none (place_at (suc n) (f n) f) (omega arith)
    ∙ place_at-same (suc n) (f n) f

moved_other : (n i : ℕ) (f : Files) → i ≢ n → i ≢ suc n → moved n f i ≡ f i
moved_other n i f h k =
    place_at-other n i none (place_at (suc n) (f n) f) h ∙ place_at-other (suc n) i (f n) f k

rename-moved : (n : ℕ) (f : Files) → exists (f n) ≡ true → rename n f ≡ some (moved n f)
unfolding rename
rename-moved n f h = elim (Option-cases (f n)) [
  | inl e ↦ absurd (false≢true (sym (ap exists e) ∙ h))
  | inr (t, e) ↦ rw (rename, e) refl
]

moved-AllExist : (n : ℕ) (f : Files) → AllExist (suc n) f → AllExist n (moved n f)
moved-AllExist n f h i k =
    ap exists (moved_other n i f (omega (arith, k)) (omega (arith, k))) ∙ h i (omega (arith, k))

freed_by_last : (n : ℕ) (f g : Files) → IsShifted n (moved n f) g → g 0 ≡ none
freed_by_last zero f g h = h.unmoved refl ∙ moved_away 0 f
freed_by_last (suc n) f g h = h.freed (omega arith)

below_or_last : (i n : ℕ) → i < suc n → (i < n) ⊎ (i ≡ n)
below_or_last i n h = elim (Bool-cases (ltb i n)) [
  | inl e ↦ inl (ltb→lt i n e)
  | inr e ↦ inr (ground (arith, e, h))
]

shifted_by : (n i : ℕ) (f g : Files) → IsShifted n (moved n f) g → i < suc n → g (suc i) ≡ f i
shifted_by n i f g h k = elim (below_or_last i n k) [
  | inl lt ↦ h.shifted i lt ∙ moved_other n i f (omega (arith, lt)) (omega (arith, lt))
  | inr e ↦ rw e (h.beyond (suc n) (omega arith) ∙ moved_to n f)
]

beyond_by : (n i : ℕ) (f g : Files) → IsShifted n (moved n f) g → suc n < i → g i ≡ f i
beyond_by n i f g h k =
    h.beyond i (omega (arith, k)) ∙ moved_other n i f (omega (arith, k)) (omega (arith, k))

pub rename_all-IsShifted :
    (n : ℕ) (f : Files) → AllExist n f → (g : Files) × (rename_all n f ≡ some g) × IsShifted n f g
unfolding rename_all
rename_all-IsShifted zero f h = (
  f,
  refl,
  record {
    freed = λ k. absurd (omega (arith, k));
    unmoved = λ k. refl;
    shifted = λ i k. absurd (omega (arith, k));
    beyond = λ i k. refl;
  },
)
rename_all-IsShifted (suc n) f h =
    let rest = rename_all-IsShifted n (moved n f) (moved-AllExist n f h) in
    (
      rest.0,
      ap (λ o. o >>= rename_all n) (rename-moved n f (h n (omega arith))) ∙ rest.1,
      record {
        freed = λ k. freed_by_last n f rest.0 rest.2;
        unmoved = λ k. absurd (omega (arith, k));
        shifted = λ i k. shifted_by n i f rest.0 rest.2 k;
        beyond = λ i k. beyond_by n i f rest.0 rest.2 k;
      },
    )

-- The first version without a file, of those from `v` on.
pub record IsFirstFree (v w : ℕ) (f : Files) : Type 0 where
  pub is_free : exists (f w) ≡ false
  pub at_least : v ≤ w
  pub below_exist : (i : ℕ) → v ≤ i → i < w → exists (f i) ≡ true

later_free :
    (v w : ℕ) (f : Files) → exists (f v) ≡ true → IsFirstFree (v + 1) w f → IsFirstFree v w f
later_free v w f e h = record {
  is_free = h.is_free;
  at_least = omega (arith, h.at_least);
  below_exist = λ i k lt. elim (Bool-cases (i == v)) [
    | inl same ↦ rw ((==_iff i v).0 same) e
    | inr other ↦ h.below_exist i (ground (arith, other, k)) lt
  ];
}

not_last :
    (v last : ℕ) (f : Files)
    → exists (f v) ≡ true
    → exists (f last) ≡ false
    → v ≤ last
    → v + 1 ≤ last
not_last v last f used free h = elim (Bool-cases (v == last)) [
  | inl same ↦
      absurd (false≢true (sym free ∙ sym (ap (λ i. exists (f i)) ((==_iff v last).0 same)) ∙ used))
  | inr other ↦ ground (arith, other, h)
]

-- The search ends by a version that has no file.
first_free_found :
    (fuel v last : ℕ) (f : Files)
    → exists (f last) ≡ false
    → v ≤ last
    → last < v + fuel
    → (w : ℕ) × (first_free fuel v f ≡ some w) × (w ≤ last) × IsFirstFree v w f
unfolding first_free
first_free_found zero v last f e h k = absurd (omega (arith, h, k))
first_free_found (suc fuel) v last f e h k = elim (Bool-cases (exists (f v))) [
  | inl used ↦
      let before = not_last v last f used e h in
      let rest = first_free_found fuel (v + 1) last f e before (omega (arith, k)) in
      (rest.0, rw used rest.1, rest.2, later_free v rest.0 f used rest.3)
  | inr free ↦ (
    v,
    rw free refl,
    h,
    record {
      is_free = free;
      at_least = omega arith;
      below_exist = λ i p q. absurd (omega (arith, p, q));
    },
  )
]

when_free :
    (f : Files) (w : ℕ) → first_free log_versions 0 f ≡ some w → rotate_when false f ≡ some (w, f)
unfolding rotate_when
when_free f w e = ap (λ (o : Option ℕ). o >>= λ (v : ℕ). some (v, f)) e

when_full :
    (f g : Files)
    → rename_all (log_versions - 1) (place_at (log_versions - 1) none f) ≡ some g
    → rotate_when true f ≡ some (0, g)
unfolding rotate_when
when_full f g e = ap (λ (o : Option Files). o >>= λ (m : Files). some (zero, m)) e

-- If the oldest version does not exist, the version that is written next is the first of the seven
-- without a file, and no file is moved.
pub rotate_files_free :
    (f : Files)
    → exists (f (log_versions - 1)) ≡ false
    → (w : ℕ) × (rotate_files f ≡ some (w, f)) × (w < log_versions) × IsFirstFree 0 w f
unfolding rotate_files
rotate_files_free f e =
    let found =
      first_free_found log_versions 0 (log_versions - 1) f e (omega arith) (omega arith) in
    (
      found.0,
      ap (λ b. rotate_when b f) e ∙ when_free f found.0 found.1,
      omega (arith, found.2),
      found.3,
    )

-- If all seven versions exist, version 0 is written next and is free by then, and each version but
-- the oldest, which is lost, has become the next one.
pub rotate_files_full :
    (f : Files)
    → AllExist log_versions f
    → (g : Files) × (rotate_files f ≡ some (0, g))
      × (g 0 ≡ none)
      × All (λ (i : ℕ). g (suc i) ≡ f i) (0 ∷ 1 ∷ 2 ∷ 3 ∷ 4 ∷ 5 ∷ [])
unfolding rotate_files
rotate_files_full f all =
    let left = place_at (log_versions - 1) none f in
    let kept : (i : ℕ) → i < log_versions - 1 → left i ≡ f i =
      λ i k. place_at-other (log_versions - 1) i none f (omega (arith, k)) in
    let renamed =
      rename_all-IsShifted (log_versions - 1) left
        (λ i k. ap exists (kept i k) ∙ all i (omega (arith, k))) in
    let moves : (i : ℕ) → i < log_versions - 1 → renamed.0 (suc i) ≡ f i =
      λ i k. renamed.2.shifted i k ∙ kept i k in
    (
      renamed.0,
      ap (λ b. rotate_when b f) (all (log_versions - 1) (omega arith))
          ∙ when_full f renamed.0 renamed.1,
      renamed.2.freed (omega arith),
      (
        moves 0 (omega arith),
        (
          moves 1 (omega arith),
          (
            moves 2 (omega arith),
            (moves 3 (omega arith), (moves 4 (omega arith), (moves 5 (omega arith), tt))),
          ),
        ),
      ),
    )
