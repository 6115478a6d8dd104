-- ===== src/Gc/Heap/Counts.antt =====
-- The counts of a heap and its objects, behind a sweep (`wah_gc_step_sweep`).
use wah.Base.{
  ℕ, ◌+◌, ◌≤◌, ◌<◌, Bool, not, ◌&&◌, ◌==◌, if◌then◌else◌, ◌≡◌, inl, inr, List, [], ◌∷◌, length,
  arith, Bool-cases, ==_iff,
}
use wah.Bulk.{budget_release}
use wah.Gc.{Objects}
use wah.Gc.Marks.{elem}
use wah.Gc.Heap.{GcState, Phase, is_exception, free_object, sweep_objects}

unfoldable pub total_bytes : Objects → List ℕ → ℕ
total_bytes objects [] = 0
total_bytes objects (a ∷ os) = (objects a).size_bytes + total_bytes objects os

unfoldable pub exceptions : Objects → List ℕ → ℕ
exceptions objects [] = 0
exceptions objects (a ∷ os) = (if is_exception (objects a) then 1 else 0) + exceptions objects os

-- The counts are those of the objects `os` and of `n` others with `e` exceptions and `b` bytes, none of
-- them wraps around, and the owner's budget is charged for exactly these bytes and `other` ones.
pub record Counted (other : ℕ) (objects : Objects) (n e b : ℕ) (os : List ℕ) (gc : GcState)
    : Type 0 where
  pub count : gc.object_count ≡ n + length os
  pub exns : gc.exception_count ≡ e + exceptions objects os
  pub bytes : gc.allocated_bytes ≡ b + total_bytes objects os
  pub charged : gc.owner_budget.memory_bytes_committed ≡ other + gc.allocated_bytes
  pub few : e ≤ n
  pub count_word : gc.object_count < 4294967296
  pub committed_word : gc.owner_budget.memory_bytes_committed < 18446744073709551616

-- The counts do not depend on the list that is stored, nor on the state of the collector.
pub Counted-with :
    {other : ℕ} {objects : Objects} {n e b : ℕ} {os : List ℕ} {gc : GcState} (os' : List ℕ)
    (p : Phase) (t x : ℕ)
    → Counted other objects n e b os gc
    → Counted other objects n e b os
        (record gc { all_objects = os'; phase = p; allocation_threshold = t; other_heap_bytes = x })
Counted-with os' p t x c = record {
  count = c.count;
  exns = c.exns;
  bytes = c.bytes;
  charged = c.charged;
  few = c.few;
  count_word = c.count_word;
  committed_word = c.committed_word;
}

pub exceptions-le : (objects : Objects) (os : List ℕ) → exceptions objects os ≤ length os
unfolding exceptions
exceptions-le objects [] = omega arith
exceptions-le objects (a ∷ os) = ground (arith, exceptions-le objects os)

module _ (objects : Objects) where
  skipped :
      {other n e b a : ℕ} {os : List ℕ} {gc : GcState}
      → Counted other objects n e b (a ∷ os) gc
      → Counted other objects
          (n + 1)
          (e + (if is_exception (objects a) then 1 else 0))
          (b + (objects a).size_bytes)
          os
          gc
  unfolding exceptions total_bytes
  skipped c = record {
    count = omega (arith, c.count);
    exns = omega (arith, c.exns);
    bytes = omega (arith, c.bytes);
    charged = c.charged;
    few = ground (arith, c.few);
    count_word = c.count_word;
    committed_word = c.committed_word;
  }

  unskipped :
      {other n e b a : ℕ} {os : List ℕ} {gc : GcState}
      → e ≤ n
      → Counted other objects
          (n + 1)
          (e + (if is_exception (objects a) then 1 else 0))
          (b + (objects a).size_bytes)
          os
          gc
      → Counted other objects n e b (a ∷ os) gc
  unfolding exceptions total_bytes
  unskipped h c = record {
    count = omega (arith, c.count);
    exns = omega (arith, c.exns);
    bytes = omega (arith, c.bytes);
    charged = c.charged;
    few = h;
    count_word = c.count_word;
    committed_word = c.committed_word;
  }

  freed :
      {other n e b a : ℕ} {os : List ℕ} {gc : GcState}
      → Counted other objects n e b (a ∷ os) gc
      → Counted other objects n e b os (free_object (objects a) gc)
  unfolding exceptions total_bytes free_object budget_release
  freed {os = os} c =
      let le = exceptions-le objects os in
      record {
        count = ground (arith, c.count, c.count_word);
        exns = ground (arith, c.exns, c.count, c.count_word, c.few, le);
        bytes = ground (arith, c.bytes, c.charged, c.committed_word);
        charged = ground (arith, c.bytes, c.charged, c.committed_word);
        few = c.few;
        count_word = ground (arith, c.count, c.count_word);
        committed_word = ground (arith, c.bytes, c.charged, c.committed_word);
      }

  pub sweep_objects-Counted :
      (frees : ℕ → Bool) (os : List ℕ) {other n e b : ℕ} (gc : GcState)
      → Counted other objects n e b os gc
      → Counted other objects n e b
          (sweep_objects objects frees os gc).0
          (sweep_objects objects frees os gc).1
  unfolding sweep_objects
  sweep_objects-Counted frees [] gc c = c
  sweep_objects-Counted frees (a ∷ os) gc c = elim (Bool-cases (frees a)) [
    | inl h ↦ rw h (sweep_objects-Counted frees os (free_object (objects a) gc) (freed c))
    | inr h ↦ rw h (unskipped c.few (sweep_objects-Counted frees os gc (skipped c)))
  ]

  -- What is kept is what the test does not free.
  pub elem-sweep_objects :
      (frees : ℕ → Bool) (os : List ℕ) (gc : GcState) (x : ℕ)
      → elem x (sweep_objects objects frees os gc).0 ≡ (elem x os && not (frees x))
  unfolding sweep_objects elem
  elem-sweep_objects frees [] gc x = ground arith
  elem-sweep_objects frees (a ∷ os) gc x = elim (Bool-cases (x == a)) [
    | inl h ↦
        let same = (==_iff x a).0 h in
        ground (
          arith,
          elem-sweep_objects frees os gc x,
          elem-sweep_objects frees os (free_object (objects a) gc) x,
        )
    | inr h ↦ ground (
      arith,
      elem-sweep_objects frees os gc x,
      elem-sweep_objects frees os (free_object (objects a) gc) x,
    )
  ]
