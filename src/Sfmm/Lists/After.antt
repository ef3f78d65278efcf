-- ===== src/Sfmm/Lists/After.antt =====
-- What `sf_coalesce` of hw3/src/sfmm.c leaves alone.
use c_starter_projects.Prelude.{◌≡◌, refl, Bool, true, false, Option, none, some, ℕ}
use c_starter_projects.Prelude.Options.{After}
use c_starter_projects.Sfmm.Memory.{Machine, Memory, State}
use c_starter_projects.Sfmm.Lists.{◌>>=◌, merge_which, sf_coalesce}

-- The quick lists of one state are those of another.
abbrev pub SameQuick : State → State → Type 0
SameQuick s t = (s.quick_length ≡ t.quick_length) × (s.quick_first ≡ t.quick_first)

abbrev pub KeepsQuick : State → Bool × State → Type 0
KeepsQuick s r = SameQuick r.1 s

-- A step that changes the memory only.
merging-SameQuick :
    (s : State) (o : Option Memory)
    → After (KeepsQuick s) (o >>= (λ mem'. some (true, record s { mem = mem' })))
merging-SameQuick s none = tt
merging-SameQuick s (some mem') = (refl, refl)

merge_which-SameQuick :
    (s : State) (p n : Bool) (a : Memory) (x y z : Option Memory)
    → After (KeepsQuick s) (merge_which p n a x y z s)
unfolding merge_which
merge_which-SameQuick s false false a x y z = (refl, refl)
merge_which-SameQuick s true false a x y z = merging-SameQuick s x
merge_which-SameQuick s false true a x y z = merging-SameQuick s y
merge_which-SameQuick s true true a x y z = merging-SameQuick s z

pub sf_coalesce-SameQuick :
    (m : Machine) (fuel middle size footer : ℕ) (large : Bool) (s : State)
    → After (KeepsQuick s) (sf_coalesce m fuel middle size footer large s)
unfolding sf_coalesce
sf_coalesce-SameQuick m fuel middle size footer large s = merge_which-SameQuick s _ _ _ _ _ _
