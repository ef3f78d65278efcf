-- ===== src/Sfmm/Release/Stack.antt =====
-- The quick lists of hw3/src/sfmm.c as lists of blocks: what `sf_put_in_quick_list_helper` puts into
-- one that is not full, `sf_malloc` takes out first.
use mathlib.Core.Path.{subst}
use c_starter_projects.Prelude.{
  ℕ, ◌+◌, ◌-◌, ◌<◌, ◌≡◌, ◌≢◌, refl, sym, ap, ◌∙◌, inl, inr, Bool, Bool-cases, true, false, some,
  List, [], ◌∷◌, length, All, arith, ◌==◌, if◌then◌else◌,
}
use c_starter_projects.Sfmm.Memory.{Machine, Memory, State, poke, next, payload, null}
use c_starter_projects.Sfmm.Alloc.{update, pop_quick}
use c_starter_projects.Sfmm.Release.{push_quick, sf_put_in_quick_list_helper}

-- The blocks that are linked from one on, up to NULL.
abbrev pub Linked : Memory → ℕ → List ℕ → Type 0
Linked mem first [] = first ≡ null
Linked mem first (b ∷ bs) = (first ≡ b) × (b ≢ null) × Linked mem (mem (next b)) bs

-- A quick list has these blocks, and its length is their number.
pub record IsQuick (s : State) (blocks : List ℕ) (i : ℕ) : Type 0 where
  pub linked : Linked s.mem (s.quick_first i) blocks
  pub counted : s.quick_length i ≡ length blocks

abbrev pub QuickLists : State → (ℕ → List ℕ) → Type 0
QuickLists s lists = (i : ℕ) → IsQuick s (lists i) i

abbrev pub with_block : (ℕ → List ℕ) → ℕ → ℕ → ℕ → List ℕ
with_block lists index block i = if i == index then block ∷ lists i else lists i

Linked-poke :
    (mem : Memory) (block v first : ℕ) (bs : List ℕ)
    → All (λ b. b ≢ block) bs
    → Linked mem first bs
    → Linked (poke (next block) v mem) first bs
Linked-poke mem block v first [] away h = h
Linked-poke mem block v first (b ∷ bs) away h =
    let same : poke (next block) v mem (next b) ≡ mem (next b) = ground (arith, away.0) in
    (
      h.0,
      h.1,
      subst (λ p. Linked (poke (next block) v mem) p bs) (sym same)
          (Linked-poke mem block v (mem (next b)) bs away.1 h.2),
    )

update_same : (f : ℕ → ℕ) (i v : ℕ) → update f i v i ≡ v
update_same f i v = ground arith

update_other : (f : ℕ → ℕ) (i v j : ℕ) → j ≢ i → update f i v j ≡ f j
update_other f i v j ne = ground arith

module _ (m : Machine) (block index : ℕ) (s : State) (lists : ℕ → List ℕ) (q : QuickLists s lists)
    (some_block : block ≢ null) (fresh : (i : ℕ) → All (λ b. b ≢ block) (lists i)) where
  pushed-Linked : (i : ℕ) → Linked (push_quick m block index s).mem (s.quick_first i) (lists i)
  unfolding push_quick
  pushed-Linked i = Linked-poke s.mem block _ (s.quick_first i) (lists i) (fresh i) (q i).linked

  pushed_link : (push_quick m block index s).mem (next block) ≡ s.quick_first index
  unfolding push_quick
  pushed_link = ground arith

  pushed-IsQuick : IsQuick (push_quick m block index s) (block ∷ lists index) index
  pushed-IsQuick =
      let after = push_quick m block index s in
      let first : after.quick_first index ≡ block =
        unfold push_quick in update_same s.quick_first index block in
      record {
        linked =
            subst (λ p. Linked after.mem p (block ∷ lists index)) (sym first)
              (
                refl,
                some_block,
                subst (λ p. Linked after.mem p (lists index)) (sym pushed_link)
                    (pushed-Linked index),
              );
        counted =
            unfold push_quick in
            update_same s.quick_length index (s.quick_length index + 1)
            ∙ omega (arith, (q index).counted);
      }

  kept-IsQuick : (i : ℕ) → i ≢ index → IsQuick (push_quick m block index s) (lists i) i
  kept-IsQuick i ne =
      let after = push_quick m block index s in
      let first : after.quick_first i ≡ s.quick_first i =
        unfold push_quick in update_other s.quick_first index block i ne in
      record {
        linked = subst (λ p. Linked after.mem p (lists i)) (sym first) (pushed-Linked i);
        counted =
            unfold push_quick in
            update_other s.quick_length index (s.quick_length index + 1) i ne ∙ (q i).counted;
      }

  pushed-QuickLists : QuickLists (push_quick m block index s) (with_block lists index block)
  pushed-QuickLists i = elim (Bool-cases (i == index)) [
    | inl here ↦
        let e : i ≡ index = ground (arith, here) in
        rw here (
          subst (λ j. IsQuick (push_quick m block index s) (block ∷ lists j) j) (sym e)
            pushed-IsQuick)
    | inr other ↦ rw other (kept-IsQuick i (ground (arith, other)))
  ]

-- Taking the first block out of a quick list leaves the others, and the other lists.
module _ (m : Machine) (index block : ℕ) (s : State) (lists : ℕ → List ℕ)
    (q : QuickLists s (with_block lists index block)) where
  first_list : IsQuick s (block ∷ lists index) index
  first_list =
      let here : (index == index) ≡ true = ground arith in
      subst (λ (b : Bool). IsQuick s (if b then block ∷ lists index else lists index) index) here
        (q index)

  other_list : (i : ℕ) → i ≢ index → IsQuick s (lists i) i
  other_list i ne =
      let there : (i == index) ≡ false = ground (arith, ne) in
      subst (λ (b : Bool). IsQuick s (if b then block ∷ lists i else lists i) i) there (q i)

  popped_payload : (pop_quick m index s).0 ≡ payload block
  unfolding pop_quick
  popped_payload = ap payload first_list.linked.0

  popped-IsQuick : IsQuick (pop_quick m index s).1 (lists index) index
  unfolding pop_quick
  popped-IsQuick = record {
    linked =
        subst (λ p. Linked s.mem p (lists index))
          (sym (
            update_same s.quick_first index (s.mem (next (s.quick_first index)))
            ∙ ap (λ p. s.mem (next p)) first_list.linked.0))
          first_list.linked.2;
    counted =
        update_same s.quick_length index (s.quick_length index - 1)
        ∙ omega (arith, first_list.counted);
  }

  left-IsQuick : (i : ℕ) → i ≢ index → IsQuick (pop_quick m index s).1 (lists i) i
  unfolding pop_quick
  left-IsQuick i ne = record {
    linked =
        subst (λ p. Linked s.mem p (lists i))
          (sym (update_other s.quick_first index (s.mem (next (s.quick_first index))) i ne))
          (other_list i ne).linked;
    counted =
        update_other s.quick_length index (s.quick_length index - 1) i ne
        ∙ (other_list i ne).counted;
  }

  popped-QuickLists : QuickLists (pop_quick m index s).1 lists
  popped-QuickLists i = elim (Bool-cases (i == index)) [
    | inl here ↦
        let e : i ≡ index = ground (arith, here) in
        subst (λ j. IsQuick (pop_quick m index s).1 (lists j) j) (sym e) popped-IsQuick
    | inr other ↦ left-IsQuick i (ground (arith, other))
  ]

-- Quick lists are stacks: `sf_put_in_quick_list_helper` puts a block that is in none of them first in
-- one that has fewer than five, the length included, and leaves the others; the next block that
-- `sf_malloc` takes out of that list is this one, and all lists are then as they were before.
pub put_in_quick_list-QuickLists :
    (m : Machine) (fuel block index : ℕ) (s : State) (lists : ℕ → List ℕ)
    → QuickLists s lists
    → length (lists index) < 5
    → block ≢ null
    → ((i : ℕ) → All (λ b. b ≢ block) (lists i))
    → (after : State) × (sf_put_in_quick_list_helper m fuel block index s ≡ some after)
      × QuickLists after (with_block lists index block)
      × ((pop_quick m index after).0 ≡ payload block)
      × QuickLists (pop_quick m index after).1 lists
unfolding sf_put_in_quick_list_helper
put_in_quick_list-QuickLists m fuel block index s lists q room some_block fresh =
    let after = push_quick m block index s in
    let pushed = pushed-QuickLists m block index s lists q some_block fresh in
    let not_full : (s.quick_length index == 5) ≡ false = ground (arith, (q index).counted, room) in
    (
      after,
      rw not_full refl,
      pushed,
      popped_payload m index block after lists pushed,
      popped-QuickLists m index block after lists pushed,
    )
