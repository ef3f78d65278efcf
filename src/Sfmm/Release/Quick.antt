-- ===== src/Sfmm/Release/Quick.antt =====
-- The lengths that hw3/src/sfmm.c keeps with its quick lists are five at most.
use c_starter_projects.Prelude.{
  ℕ, ◌+◌, ◌-◌, ◌/◌, Bool, true, false, Option, none, some, List, [], ◌∷◌, arith, ◌==◌, Bool-cases,
  inl, inr,
}
use c_starter_projects.Sfmm.Memory.{
  Machine, Memory, State, back, poke, next, null, read_header, take_out_flags,
}
use c_starter_projects.Sfmm.Lists.{◌>>=◌}
use c_starter_projects.Prelude.Options.{After, After-bind, After-map}
use c_starter_projects.Sfmm.Lists.After.{KeepsQuick, sf_coalesce-SameQuick}
use c_starter_projects.Sfmm.Alloc.{update, sf_malloc}
use c_starter_projects.Sfmm.Alloc.Quick.{
  IsBounded, IsBounded-same, update-bounded, Behind, sf_malloc-IsBounded,
}
use c_starter_projects.Sfmm.Release.{
  Ending, returns, aborts, clear_blocks, coalesce_each, sf_flush_quick_list, push_quick,
  sf_put_in_quick_list_helper, free_block, free_to, sf_free, ended, after_free, copy_words,
  move_block, shrink_block, resize, Change, change_of, is_valid_block, past_is_consistent, frees,
  keeps, moves, shrinks, gives_up, sf_realloc, checked, quick_list_index,
}

module _ (m : Machine) where
  coalesce_each-IsBounded :
      (fuel : ℕ) (blocks : List ℕ) (s : State)
      → IsBounded s
      → After IsBounded (coalesce_each m fuel blocks s)
  unfolding coalesce_each
  coalesce_each-IsBounded fuel [] s b = b
  coalesce_each-IsBounded fuel (x ∷ xs) s b =
      After-bind (KeepsQuick s) IsBounded _ _ (sf_coalesce-SameQuick m fuel x _ (s.mem x) false s)
        (λ r e. coalesce_each-IsBounded fuel xs r.1 (IsBounded-same s r.1 e b))

  flush-IsBounded :
      (fuel block index : ℕ) (s : State)
      → IsBounded s
      → After IsBounded (sf_flush_quick_list m fuel block index s)
  unfolding sf_flush_quick_list
  flush-IsBounded fuel block index s b = elim (Bool-cases (s.quick_length index == 0)) [
    | inl empty ↦ rw empty b
    | inr full ↦ rw full (
        After-map {A = List ℕ × Memory} IsBounded (clear_blocks m fuel (s.quick_first index) s.mem)
          _
          (λ r.
            coalesce_each-IsBounded fuel r.0
              (record s {
                mem = poke (next block) null r.1;
                quick_length = update s.quick_length index 1;
                quick_first = update s.quick_first index block;
              })
              (update-bounded s.quick_length index 1 b (omega arith))))
  ]

  helper-IsBounded :
      (fuel block index : ℕ) (s : State)
      → IsBounded s
      → After IsBounded (sf_put_in_quick_list_helper m fuel block index s)
  unfolding sf_put_in_quick_list_helper
  helper-IsBounded fuel block index s b = elim (Bool-cases (s.quick_length index == 5)) [
    | inl full ↦ rw full (flush-IsBounded fuel block index s b)
    | inr room ↦ rw room (
        unfold push_quick in
        update-bounded s.quick_length index (s.quick_length index + 1) b
          (ground (arith, room, b index)))
  ]

  free_block-IsBounded :
      (fuel block : ℕ) (s : State) → IsBounded s → After IsBounded (free_block m fuel block s)
  unfolding free_block
  free_block-IsBounded fuel block s b =
      After-bind (KeepsQuick s) IsBounded _ _ (sf_coalesce-SameQuick m fuel block _ _ false _)
        (λ r e. IsBounded-same s r.1 e b)

  free_to-IsBounded :
      (fuel block : ℕ) (s : State) (index : Option ℕ)
      → IsBounded s
      → After IsBounded (free_to m fuel block s index)
  unfolding free_to
  free_to-IsBounded fuel block s none b = free_block-IsBounded fuel block s b
  free_to-IsBounded fuel block s (some i) b = helper-IsBounded fuel block i s b

-- The state that a call leaves.
abbrev pub Left {ℓ κ} : {A : Type ℓ} → (A → Type κ) → Ending A → Type κ
Left P (returns a) = P a
Left P aborts = Unit

ended-Left : (o : Option State) → After IsBounded o → After (Left IsBounded) (ended o)
ended-Left none b = tt
ended-Left (some s) b = b

checked-Left {ℓ κ} :
    {A : Type ℓ} (P : A → Type κ) (v c : Bool) (o : Option (Ending A))
    → After (Left P) o
    → After (Left P) (checked v c o)
unfolding checked
checked-Left P false c o b = tt
checked-Left P true false o b = tt
checked-Left P true true o b = b

sf_free-IsBounded :
    (m : Machine) (fuel pp : ℕ) (s : State)
    → IsBounded s
    → After (Left IsBounded) (sf_free m fuel pp s)
unfolding sf_free
sf_free-IsBounded m fuel pp s b =
    let size = take_out_flags (read_header m s.mem (back pp 16)) in
    let freed = free_to-IsBounded m fuel (back pp 16) s (quick_list_index size) b in
    checked-Left IsBounded _ _ _ (ended-Left _ freed)

after_free-Left :
    (result : ℕ) (o : Option (Ending State))
    → After (Left IsBounded) o
    → After (Left Behind) (after_free result o)
after_free-Left result none b = tt
after_free-Left result (some (returns s)) b = b
after_free-Left result (some aborts) b = tt

module _ (m : Machine) where
  move_block-IsBounded :
      (fuel block size : ℕ) (r : ℕ × State)
      → Behind r
      → After (Left Behind) (move_block m fuel block size r)
  unfolding move_block
  move_block-IsBounded fuel block size (new, s) b =
      let copied = record s { mem = copy_words ((size - 8) / 8) new block s.mem } in
      elim (Bool-cases (new == null)) [
        | inl failed ↦ rw failed b
        | inr given ↦ rw given (
            after_free-Left new (sf_free m fuel (block + 16) copied)
              (sf_free-IsBounded m fuel (block + 16) copied b))
      ]

  shrink_block-IsBounded :
      (fuel block size rsize : ℕ) (s : State)
      → IsBounded s
      → After (Left Behind) (shrink_block m fuel block size rsize s)
  unfolding shrink_block
  shrink_block-IsBounded fuel block size rsize s b =
      After-bind (KeepsQuick s) (Left Behind) _ _ (sf_coalesce-SameQuick m fuel _ _ _ false _)
        (λ r e. IsBounded-same s r.1 e b)

  resize-IsBounded :
      (c : Change) (fuel pp size rsize : ℕ) (s : State)
      → IsBounded s
      → After (Left Behind) (resize m c fuel pp size rsize s)
  unfolding resize
  resize-IsBounded frees fuel pp size rsize s b =
      after_free-Left null (sf_free m fuel pp s) (sf_free-IsBounded m fuel pp s b)
  resize-IsBounded keeps fuel pp size rsize s b = b
  resize-IsBounded moves fuel pp size rsize s b =
      After-bind Behind (Left Behind) (sf_malloc m fuel rsize s) _
        (sf_malloc-IsBounded m fuel rsize s b)
        (λ r b'. move_block-IsBounded fuel (back pp 16) size r b')
  resize-IsBounded shrinks fuel pp size rsize s b =
      shrink_block-IsBounded fuel (back pp 16) size rsize s b
  resize-IsBounded gives_up fuel pp size rsize s b = b

  sf_realloc-IsBounded :
      (fuel pp rsize : ℕ) (s : State)
      → IsBounded s
      → After (Left Behind) (sf_realloc m fuel pp rsize s)
  unfolding sf_realloc
  sf_realloc-IsBounded fuel pp rsize s b =
      let size = take_out_flags (read_header m s.mem (back pp 16)) in
      let change = change_of size rsize in
      checked-Left (Behind {A = ℕ}) (is_valid_block m pp s) (past_is_consistent m false pp s)
        (resize m change fuel pp size rsize s) (resize-IsBounded change fuel pp size rsize s b)

-- The calls of a program.
pub data Call : Type 0 where
  malloc : ℕ → Call
  free : ℕ → Call
  realloc : (pp rsize : ℕ) → Call

abbrev state_of : Ending (ℕ × State) → Ending State
state_of (returns r) = returns r.1
state_of aborts = aborts

-- The state behind one call, and behind a list of calls. A call that aborts is the last one.
unfoldable pub one_call : Machine → ℕ → Call → State → Option (Ending State)
one_call m fuel (malloc size) s = sf_malloc m fuel size s >>= λ r. some (returns r.1)
one_call m fuel (free pp) s = sf_free m fuel pp s
one_call m fuel (realloc pp rsize) s = sf_realloc m fuel pp rsize s >>= λ e. some (state_of e)

abbrev go_on : (State → Option (Ending State)) → Ending State → Option (Ending State)
go_on f (returns s) = f s
go_on f aborts = some aborts

unfoldable pub calls : Machine → ℕ → List Call → State → Option (Ending State)
calls m fuel [] s = some (returns s)
calls m fuel (c ∷ cs) s = one_call m fuel c s >>= go_on (calls m fuel cs)

state_of-Left : (e : Ending (ℕ × State)) → Left Behind e → Left IsBounded (state_of e)
state_of-Left (returns r) b = b
state_of-Left aborts b = tt

go_on-Left :
    (m : Machine) (fuel : ℕ) (cs : List Call)
    → ((s : State) → IsBounded s → After (Left IsBounded) (calls m fuel cs s))
    → (e : Ending State) → Left IsBounded e
    → After (Left IsBounded) (go_on (calls m fuel cs) e)
go_on-Left m fuel cs k (returns s) b = k s b
go_on-Left m fuel cs k aborts b = tt

one_call-IsBounded :
    (m : Machine) (fuel : ℕ) (c : Call) (s : State)
    → IsBounded s
    → After (Left IsBounded) (one_call m fuel c s)
unfolding one_call
one_call-IsBounded m fuel (malloc size) s b =
    After-bind Behind (Left IsBounded) (sf_malloc m fuel size s) _
      (sf_malloc-IsBounded m fuel size s b) (λ r b'. b')
one_call-IsBounded m fuel (free pp) s b = sf_free-IsBounded m fuel pp s b
one_call-IsBounded m fuel (realloc pp rsize) s b =
    After-bind (Left Behind) (Left IsBounded) (sf_realloc m fuel pp rsize s) _
      (sf_realloc-IsBounded m fuel pp rsize s b) state_of-Left

-- From a state where the `length` of each quick list is at most QUICK_LIST_MAX, which is 5, every list
-- of calls of `sf_malloc`, `sf_free` and `sf_realloc` that ends, and not by `abort`, leaves such a
-- state. The theorem is about these counters, not about the blocks that are linked.
pub calls-IsBounded :
    (m : Machine) (fuel : ℕ) (cs : List Call) (s : State)
    → IsBounded s
    → After (Left IsBounded) (calls m fuel cs s)
unfolding calls
calls-IsBounded m fuel [] s b = b
calls-IsBounded m fuel (c ∷ cs) s b =
    After-bind (Left IsBounded) (Left IsBounded) (one_call m fuel c s) _
      (one_call-IsBounded m fuel c s b) (go_on-Left m fuel cs (calls-IsBounded m fuel cs))
