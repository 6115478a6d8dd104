-- ===== src/Gc/Heap/Ends.antt =====
-- The end of a heap (`wah_gc_end`), and what is allocated on top of `wah_gc_alloc`.
use wah.Base.{
  ℕ, ◌+◌, ◌*◌, ◌≡◌, Bool, ◌||◌, ltb, if◌then◌else◌, List, [], Option, none, some, u32_max, arith,
}
use wah.Base.Int.{negsuc}
use wah.Layout.{Repr}
use wah.Bulk.{budget_release}
use wah.Gc.{Objects, ObjectRepr}
use wah.Gc.Heap.{GcState, gc_alloc, set_object}
use wah.Gc.Heap.Counts.{Counted}

-- `wah_gc_alloc_struct`, whose layout has the given size.
unfoldable pub gc_alloc_struct :
    ℕ
    → Repr
    → List ObjectRepr
    → ObjectRepr
    → GcState × Objects
    → Option (ℕ × (GcState × Objects × Bool))
unfolding gc_alloc
gc_alloc_struct malloc repr_id infos info s = gc_alloc malloc repr_id infos info.size s

abbrev with_length :
    ℕ → Option (ℕ × (GcState × Objects × Bool)) → Option (ℕ × (GcState × Objects × Bool))
with_length length none = none
with_length length (some (at, (gc, objects, full))) =
    some (at, (gc, set_object objects at (record (objects at) { len = length }), full))

-- `wah_gc_alloc_array`
unfoldable pub gc_alloc_array :
    ℕ
    → Repr
    → List ObjectRepr
    → ObjectRepr
    → ℕ
    → GcState × Objects
    → Option (ℕ × (GcState × Objects × Bool))
unfolding gc_alloc
gc_alloc_array malloc repr_id infos info length s =
    if ltb u32_max (8 + info.size * length)
    then none
    else with_length length (gc_alloc malloc repr_id infos (8 + info.size * length) s)

-- `wah_gc_alloc_host`, of a context with a heap; WAH_REPR_HOST is -0x42.
unfoldable pub gc_alloc_host :
    Bool → ℕ → ℕ → GcState × Objects → Option (ℕ × (GcState × Objects × Bool))
unfolding gc_alloc
gc_alloc_host poisoned malloc size s =
    if poisoned || ltb u32_max size then none else gc_alloc malloc (negsuc 65) [] size s

-- `wah_gc_free_all_objects`
abbrev pub free_all_objects : GcState → GcState
free_all_objects gc = record gc {
  all_objects = [];
  object_count = 0;
  exception_count = 0;
  allocated_bytes = 0;
}

-- `wah_gc_end` for a context with a heap, up to freeing the heap itself.
unfoldable pub gc_end : GcState → GcState
unfolding budget_release
gc_end gc =
    free_all_objects
      (record gc { owner_budget = budget_release gc.owner_budget gc.allocated_bytes })

-- The end of a heap whose counts are right gives back the bytes of all its objects, and no others.
pub gc_end-released :
    (other : ℕ) (objects : Objects) (gc : GcState)
    → Counted other objects 0 0 0 gc.all_objects gc
    → (gc_end gc).owner_budget.memory_bytes_committed ≡ other
unfolding gc_end budget_release
gc_end-released other objects gc c = omega (arith, c.bytes, c.charged, c.committed_word)
