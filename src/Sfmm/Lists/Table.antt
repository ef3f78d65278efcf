-- ===== src/Sfmm/Lists/Table.antt =====
-- The ten free lists of hw3/src/sfmm.c as lists of blocks: what `sf_put_in_free_list` and
-- `sf_remove_from_free_list` make of them.
use mathlib.Core.Path.{subst}
use c_starter_projects.Prelude.{
  ℕ, zero, suc, ◌+◌, ◌-◌, ◌*◌, ◌^◌, ◌≤◌, ◌<◌, ◌≡◌, sym, ap, ◌∙◌, ◌≢◌, inl, inr, Bool-cases, List,
  [], ◌∷◌, ◌++◌, arith, All, ◌==◌, if◌then◌else◌,
}
use c_starter_projects.Sfmm.Memory.{Machine, Memory, poke, next, prev, sentinel}
use c_starter_projects.Sfmm.Lists.{
  free_list_index, insert_after, unlink, sf_put_in_free_list, sf_put_in_free_list_helper,
}
use c_starter_projects.Sfmm.Lists.Ring.{
  IsRow, IsRing, Apart-All, Chain-poke-next, Chain-poke-prev, first_of, first_link,
  insert_after-IsRing,
}
use c_starter_projects.Sfmm.Lists.Unlink.{
  All-at, All-before, All-without, before-Chain, behind-Chain, unlink-IsRing,
}

-- A block that is no sentinel and no block of a ring.
abbrev pub Away : ℕ → List ℕ → ℕ → Type 0
Away h ys y = All (λ z. z ≢ y) (h ∷ ys)

IsRing-poke-next :
    (mem : Memory) (h y v : ℕ) (ys : List ℕ)
    → IsRing mem h ys
    → IsRow y
    → Away h ys y
    → IsRing (poke (next y) v mem) h ys
IsRing-poke-next mem h y v ys ring r o = record {
  linked =
      Chain-poke-next mem y v h h ys r (Apart-All y (h ∷ ys) ring.rows o) ring.rows.0 ring.linked;
  distinct = ring.distinct;
  rows = ring.rows;
}

IsRing-poke-prev :
    (mem : Memory) (h y v : ℕ) (ys : List ℕ)
    → IsRing mem h ys
    → IsRow y
    → Away h ys y
    → IsRing (poke (prev y) v mem) h ys
IsRing-poke-prev mem h y v ys ring r o = record {
  distinct = ring.distinct;
  rows = ring.rows;
  linked =
      Chain-poke-prev mem y v h h ys r ring.rows.0 (Apart-All y ys ring.rows.1 o.1) o.0 ring.linked;
}

All-first {ℓ} : (P : ℕ → Type ℓ) (k : ℕ) (xs : List ℕ) → All P (k ∷ xs) → P (first_of xs k)
All-first P k [] h = h.0
All-first P k (x ∷ xs) h = h.1.0

-- An insertion into one ring leaves another one as it is, and so does a removal.
insert_after-keeps :
    (mem : Memory) (k x h : ℕ) (xs ys : List ℕ)
    → IsRing mem k xs
    → IsRing mem h ys
    → IsRow x
    → Away h ys x
    → All (Away h ys) (k ∷ xs)
    → IsRing (insert_after k x mem) h ys
unfolding insert_after
insert_after-keeps mem k x h xs ys ring other rx ax away =
    let o = mem (next k) in
    let e = sym (first_link mem k xs ring.linked) in
    let ro : IsRow o = subst IsRow e (All-first IsRow k xs ring.rows) in
    let ao : Away h ys o = subst (Away h ys) e (All-first (Away h ys) k xs away) in
    let m₁ = poke (prev o) x mem in
    let m₂ = poke (next x) o m₁ in
    let m₃ = poke (prev x) k m₂ in
    IsRing-poke-next m₃ h k x ys
      (IsRing-poke-prev m₂ h x k ys
        (IsRing-poke-next m₁ h x o ys (IsRing-poke-prev mem h o x ys other ro ao) rx ax) rx ax)
      ring.rows.0 away.0

unlink-keeps :
    (mem : Memory) (k x h : ℕ) (us vs ys : List ℕ)
    → IsRing mem k (us ++ x ∷ vs)
    → IsRing mem h ys
    → All (Away h ys) (k ∷ us ++ x ∷ vs)
    → IsRing (unlink x mem) h ys
unfolding unlink
unlink-keeps mem k x h us vs ys ring other away =
    let q = mem (next x) in
    let rq : IsRow q =
      behind-Chain IsRow mem k x k us vs ring.linked (All-at IsRow us x vs ring.rows.1).1
        ring.rows.0 in
    let aq : Away h ys q =
      behind-Chain (Away h ys) mem k x k us vs ring.linked (All-at (Away h ys) us x vs away.1).1
        away.0 in
    let m₁ = poke (prev q) (mem (prev x)) mem in
    let p = mem (prev x) in
    let rp : IsRow p =
      before-Chain IsRow mem k x k us vs ring.linked
        (ring.rows.0, All-before IsRow us x vs ring.rows.1) in
    let ap' : Away h ys p =
      before-Chain (Away h ys) mem k x k us vs ring.linked
        (away.0, All-before (Away h ys) us x vs away.1) in
    let same : p ≡ m₁ (prev x) = ground arith in
    subst (λ r. IsRing (poke (next r) q m₁) h ys) same
      (IsRing-poke-next m₁ h p q ys (IsRing-poke-prev mem h q p ys other rq aq) rp ap')

-- The ten lists are rings of their own, and have no block in common.
pub record FreeLists (m : Machine) (mem : Memory) (lists : ℕ → List ℕ) : Type 0 where
  pub rings : (i : ℕ) → i < 10 → IsRing mem (sentinel m i) (lists i)
  pub apart :
      (i j : ℕ)
      → i < 10
      → j < 10
      → i ≢ j
      → All (Away (sentinel m j) (lists j)) (sentinel m i ∷ lists i)

abbrev pub set_list : (ℕ → List ℕ) → ℕ → List ℕ → ℕ → List ℕ
set_list lists k xs i = if i == k then xs else lists i

pub by_index {ℓ} :
    (P : ℕ → List ℕ → Type ℓ) (lists : ℕ → List ℕ) (k : ℕ) (xs : List ℕ) (i : ℕ)
    → (i ≡ k → P k xs)
    → (i ≢ k → P i (lists i))
    → P i (set_list lists k xs i)
by_index P lists k xs i p q = elim (Bool-cases (i == k)) [
  | inl here ↦ let e : i ≡ k = ground (arith, here) in rw here (subst (λ j. P j xs) (sym e) (p e))
  | inr other ↦ rw other (q (ground (arith, other)))
]

-- A block that is put into a list is a row and a block of none of the lists.
abbrev pub IsNew : Machine → (ℕ → List ℕ) → ℕ → Type 0
IsNew m lists x = IsRow x × ((i : ℕ) → i < 10 → Away (sentinel m i) (lists i) x)

free_list_index-lt : (n : ℕ) → free_list_index n < 10
unfolding free_list_index
free_list_index-lt n = ground arith

Away-cons :
    (h x : ℕ) (ys zs : List ℕ) → All (Away h ys) zs → All (λ z. z ≢ x) zs → All (Away h (x ∷ ys)) zs
Away-cons h x ys [] a n = tt
Away-cons h x ys (z ∷ zs) a n = ((a.0.0, (λ e. n.0 (sym e), a.0.1)), Away-cons h x ys zs a.1 n.1)

Away-without :
    (h : ℕ) (us : List ℕ) (x : ℕ) (vs zs : List ℕ)
    → All (Away h (us ++ x ∷ vs)) zs
    → All (Away h (us ++ vs)) zs
Away-without h us x vs [] a = tt
Away-without h us x vs (z ∷ zs) a =
    ((a.0.0, All-without (λ y. y ≢ z) us x vs a.0.1), Away-without h us x vs zs a.1)

module _ (m : Machine) (mem : Memory) (lists : ℕ → List ℕ) (f : FreeLists m mem lists) where
  inserted-FreeLists :
      (x k : ℕ)
      → k < 10
      → IsNew m lists x
      → FreeLists m (insert_after (sentinel m k) x mem) (set_list lists k (x ∷ lists k))
  inserted-FreeLists x k lt new =
      let after = insert_after (sentinel m k) x mem in
      record {
        rings = λ i b.
            by_index (λ j ys. IsRing after (sentinel m j) ys) lists k (x ∷ lists k) i
              (λ e.
                insert_after-IsRing mem (sentinel m k) x (lists k) (f.rings k lt) new.0
                  (new.1 k lt))
              (λ ne.
                insert_after-keeps mem (sentinel m k) x (sentinel m i) (lists k) (lists i)
                  (f.rings k lt) (f.rings i b) new.0 (new.1 i b)
                  (f.apart k i lt b (λ e. ne (sym e))));
        apart = λ i j bi bj ne.
            by_index
              (λ i' ys.
                All (Away (sentinel m j) (set_list lists k (x ∷ lists k) j)) (sentinel m i' ∷ ys))
              lists k (x ∷ lists k) i
              (λ ei.
                by_index (λ j' zs. All (Away (sentinel m j') zs) (sentinel m k ∷ x ∷ lists k)) lists
                  k (x ∷ lists k) j (λ ej. absurd (ne (ei ∙ sym ej)))
                  (λ nj. let a = f.apart k j lt bj (λ e. nj (sym e)) in (a.0, (new.1 j bj, a.1))))
              (λ ni.
                by_index (λ j' zs. All (Away (sentinel m j') zs) (sentinel m i ∷ lists i)) lists k
                  (x ∷ lists k) j
                  (λ ej.
                    Away-cons (sentinel m k) x (lists k) (sentinel m i ∷ lists i)
                      (f.apart i k bi lt ni) (new.1 i bi))
                  (λ nj. f.apart i j bi bj ne));
      }

  pub unlinked-FreeLists :
      (us : List ℕ) (x : ℕ) (vs : List ℕ) (k : ℕ)
      → k < 10
      → IsRing mem (sentinel m k) (us ++ x ∷ vs)
      → lists k ≡ us ++ x ∷ vs
      → FreeLists m (unlink x mem) (set_list lists k (us ++ vs))
  unlinked-FreeLists us x vs k lt ring e =
      let after = unlink x mem in
      record {
        rings = λ i b.
            by_index (λ j ys. IsRing after (sentinel m j) ys) lists k (us ++ vs) i
              (λ ei. unlink-IsRing mem (sentinel m k) x us vs ring)
              (λ ne.
                unlink-keeps mem (sentinel m k) x (sentinel m i) us vs (lists i) ring (f.rings i b)
                  (subst (λ l. All (Away (sentinel m i) (lists i)) (sentinel m k ∷ l)) e
                    (f.apart k i lt b (λ e'. ne (sym e')))));
        apart = λ i j bi bj ne.
            by_index
              (λ i' ys.
                All (Away (sentinel m j) (set_list lists k (us ++ vs) j)) (sentinel m i' ∷ ys))
              lists k (us ++ vs) i
              (λ ei.
                by_index (λ j' zs. All (Away (sentinel m j') zs) (sentinel m k ∷ us ++ vs)) lists k
                  (us ++ vs) j (λ ej. absurd (ne (ei ∙ sym ej)))
                  (λ nj. All-without (Away (sentinel m j) (lists j)) (sentinel m k ∷ us) x vs (
                    subst (λ l. All (Away (sentinel m j) (lists j)) (sentinel m k ∷ l)) e
                      (f.apart k j lt bj (λ e'. nj (sym e'))))))
              (λ ni.
                by_index (λ j' zs. All (Away (sentinel m j') zs) (sentinel m i ∷ lists i)) lists k
                  (us ++ vs) j
                  (λ ej. Away-without (sentinel m k) us x vs (sentinel m i ∷ lists i) (
                    subst (λ l. All (Away (sentinel m k) l) (sentinel m i ∷ lists i)) e
                      (f.apart i k bi lt ni)))
                  (λ nj. f.apart i j bi bj ne));
      }

-- The sizes of list `k`: more than the half of `32 * 2 ^ k` bytes and no more than all of them, where
-- the first list has all smaller sizes, too, and the last one all greater ones.
pub record IsClass (size k : ℕ) : Type 0 where
  pub listed : k < 10
  pub above : 0 < k → 16 * 2 ^ k < size
  pub up_to : k < 9 → size ≤ 32 * 2 ^ k

free_list_index-IsClass : (size : ℕ) → IsClass size (free_list_index size)
free_list_index-IsClass size = record {
  listed = free_list_index-lt size;
  above = unfold free_list_index in ground arith;
  up_to = unfold free_list_index in ground arith;
}

power_suc : (n : ℕ) → 2 ^ suc n ≡ 2 * 2 ^ n
power_suc n = omega arith

doubled_by : (d j : ℕ) → 2 * 2 ^ j ≤ 2 ^ (d + suc j)
doubled_by zero j =
    let same : 0 + suc j ≡ suc j = omega arith in
    let e : 2 ^ (0 + suc j) ≡ 2 * 2 ^ j = ap (λ n. 2 ^ n) same ∙ power_suc j in omega (arith, e)
doubled_by (suc d) j =
    let same : suc d + suc j ≡ suc (d + suc j) = omega arith in
    let e : 2 ^ (suc d + suc j) ≡ 2 * 2 ^ (d + suc j) =
      ap (λ n. 2 ^ n) same ∙ power_suc (d + suc j) in
    omega (arith, doubled_by d j, e)

doubled : (j k : ℕ) → j < k → 2 * 2 ^ j ≤ 2 ^ k
doubled j k lt =
    let e : k - suc j + suc j ≡ k = omega (arith, lt) in
    subst (λ n. 2 * 2 ^ j ≤ 2 ^ n) e (doubled_by (k - suc j) j)

no_smaller : (size j k : ℕ) → IsClass size j → IsClass size k → ¬ (j < k)
no_smaller size j k a b lt =
    let most : size ≤ 32 * 2 ^ j = a.up_to (omega (arith, lt, b.listed)) in
    let least : 16 * 2 ^ k < size = b.above (omega (arith, lt)) in
    omega (arith, most, least, doubled j k lt)

IsClass-unique : (size j k : ℕ) → IsClass size j → IsClass size k → j ≡ k
IsClass-unique size j k a b = ground (arith, no_smaller size j k a b, no_smaller size k j b a)

-- `sf_put_in_free_list` puts a new block first in the list whose sizes its size is one of, and leaves
-- the other lists as they are. List `k` of the ten has the sizes up to `32 * 2 ^ k` that list `k - 1`
-- does not have, and the last one has all greater sizes.
pub put_in_free_list-FreeLists :
    (m : Machine) (mem : Memory) (lists : ℕ → List ℕ) (x size k : ℕ)
    → FreeLists m mem lists
    → IsNew m lists x
    → IsClass size k
    → FreeLists m (sf_put_in_free_list m x size mem) (set_list lists k (x ∷ lists k))
unfolding sf_put_in_free_list sf_put_in_free_list_helper
put_in_free_list-FreeLists m mem lists x size k f new c =
    subst
      (λ j.
        FreeLists m (insert_after (sentinel m (free_list_index size)) x mem)
          (set_list lists j (x ∷ lists j)))
      (IsClass-unique size (free_list_index size) k (free_list_index-IsClass size) c)
      (inserted-FreeLists m mem lists f x (free_list_index size) (free_list_index-lt size) new)
