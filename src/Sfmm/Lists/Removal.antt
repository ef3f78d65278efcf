-- ===== src/Sfmm/Lists/Removal.antt =====
-- `sf_remove_from_free_list` of hw3/src/sfmm.c on the ten free lists.
use mathlib.Core.Path.{subst}
use c_starter_projects.Prelude.{
  ℕ, zero, suc, ◌+◌, ◌-◌, ◌<◌, ◌≤◌, ◌≡◌, refl, ◌≢◌, inl, inr, Bool-cases, true, false, some, List,
  ◌∷◌, ◌++◌, length, length-append, arith, All, ◌==◌,
}
use c_starter_projects.Sfmm.Memory.{Machine, Memory, sentinel}
use c_starter_projects.Sfmm.Lists.{unlink, walk_to, remove_from, sf_remove_from_free_list}
use c_starter_projects.Sfmm.Lists.Ring.{IsRing}
use c_starter_projects.Sfmm.Lists.Unlink.{All-at, walk_to_there, walk_to_absent}
use c_starter_projects.Sfmm.Lists.Table.{FreeLists, Away, set_list, unlinked-FreeLists}

-- More fuel than the longest list has blocks.
abbrev pub Enough : (ℕ → List ℕ) → ℕ → Type 0
Enough lists fuel = (i : ℕ) → i < 10 → length (lists i) < fuel

module _ (m : Machine) (mem : Memory) (lists : ℕ → List ℕ) (f : FreeLists m mem lists) (fuel : ℕ)
    (enough : Enough lists fuel) where
  walk_in_list :
      (x k : ℕ) (us vs : List ℕ)
      → k < 10
      → lists k ≡ us ++ x ∷ vs
      → walk_to fuel (sentinel m k) x (sentinel m k) mem ≡ some true
  walk_in_list x k us vs b e =
      let ring : IsRing mem (sentinel m k) (us ++ x ∷ vs) =
        subst (λ l. IsRing mem (sentinel m k) l) e (f.rings k b) in
      let long : length (us ++ x ∷ vs) < fuel = subst (λ l. length l < fuel) e (enough k b) in
      walk_to_there mem (sentinel m k) x (sentinel m k) us vs fuel ring.linked ring.distinct.0
        (omega (arith, long, length-append us (x ∷ vs)))

  walk_elsewhere :
      (x i : ℕ)
      → i < 10
      → All (λ y. y ≢ x) (lists i)
      → walk_to fuel (sentinel m i) x (sentinel m i) mem ≡ some false
  walk_elsewhere x i b other =
      let ring = f.rings i b in
      walk_to_absent mem (sentinel m i) x (sentinel m i) (lists i) fuel ring.linked ring.distinct.0
        other (enough i b)

  remove_from_there :
      (x k : ℕ) (us vs : List ℕ) (left i : ℕ)
      → k < 10
      → lists k ≡ us ++ x ∷ vs
      → left + i ≡ 10
      → i ≤ k
      → remove_from m fuel left x mem ≡ some (unlink x mem)
  unfolding remove_from
  remove_from_there x k us vs zero i b e n le = absurd (omega arith)
  remove_from_there x k us vs (suc left) i b e n le =
      let index : 10 - suc left ≡ i = omega arith in
      elim (Bool-cases (i == k)) [
        | inl here ↦
            let ik : i ≡ k = ground (arith, here) in rw (index, ik, walk_in_list x k us vs b e) refl
        | inr other ↦
            let ki : k ≢ i = ground (arith, other) in
            let away : All (Away (sentinel m i) (lists i)) (sentinel m k ∷ us ++ x ∷ vs) =
              subst (λ l. All (Away (sentinel m i) (lists i)) (sentinel m k ∷ l)) e
                (f.apart k i b (omega arith) ki) in
            let elsewhere =
              walk_elsewhere x i (omega arith)
                (All-at (Away (sentinel m i) (lists i)) us x vs away.1).0.1 in
            rw (index, elsewhere)
              (remove_from_there x k us vs left (suc i) b e (omega arith) (omega (arith, ki)))
      ]

  remove_from_nowhere :
      (x left i : ℕ)
      → ((j : ℕ) → j < 10 → All (λ y. y ≢ x) (lists j))
      → left + i ≡ 10
      → remove_from m fuel left x mem ≡ some mem
  unfolding remove_from
  remove_from_nowhere x zero i o n = refl
  remove_from_nowhere x (suc left) i o n =
      let index : 10 - suc left ≡ i = omega arith in
      rw (index, walk_elsewhere x i (omega arith) (o i (omega arith)))
        (remove_from_nowhere x left (suc i) o (omega arith))

-- With more fuel than any list has blocks, `sf_remove_from_free_list` takes a block that is in the
-- list `k` out of it, and leaves the rest of that list and the other lists as they are.
pub remove_from_free_list-FreeLists :
    (m : Machine) (mem : Memory) (lists : ℕ → List ℕ) (fuel x k : ℕ) (us vs : List ℕ)
    → FreeLists m mem lists
    → Enough lists fuel
    → k < 10
    → lists k ≡ us ++ x ∷ vs
    → (left : Memory) × (sf_remove_from_free_list m fuel x mem ≡ some left)
      × FreeLists m left (set_list lists k (us ++ vs))
unfolding sf_remove_from_free_list
remove_from_free_list-FreeLists m mem lists fuel x k us vs f enough b e = (
  unlink x mem,
  remove_from_there m mem lists f fuel enough x k us vs 10 0 b e refl (omega arith),
  unlinked-FreeLists m mem lists f us x vs k b
      (subst (λ l. IsRing mem (sentinel m k) l) e (f.rings k b)) e,
)

-- A block of none of the lists leaves the memory as it is.
pub remove_absent :
    (m : Machine) (mem : Memory) (lists : ℕ → List ℕ) (fuel x : ℕ)
    → FreeLists m mem lists
    → Enough lists fuel
    → ((i : ℕ) → i < 10 → All (λ y. y ≢ x) (lists i))
    → sf_remove_from_free_list m fuel x mem ≡ some mem
unfolding sf_remove_from_free_list
remove_absent m mem lists fuel x f enough o =
    remove_from_nowhere m mem lists f fuel enough x 10 0 o refl
