-- ===== src/Gc/Heap/Verify.antt =====
-- The check of a heap (`wah_gc_verify_heap`) against its counts, and allocation.
use wah.Base.{
  ℕ, ◌+◌, ◌-◌, ◌*◌, ◌≤◌, ◌<◌, Bool, true, false, ltb, ◌==◌, if◌then◌else◌, ◌≡◌, ◌↔◌, inl, inr, refl,
  List, [], ◌∷◌, length, Option, none, some, arith, Bool-cases, ==_iff, u32, u64, u64_max, u32_max,
  ◌^◌, ◌⊎◌, ltb→lt,
}
use wah.Layout.{Repr}
use wah.Bulk.{budget_check, budget_charge}
use wah.Gc.{Object, Objects, ObjectRepr, sizeof_gc_object}
use wah.Types.{exn}
use wah.Base.Int.{◌==ℤ◌}
use wah.Gc.Marks.{elem}
use wah.Gc.Heap.{
  GcState, is_exception, gc_alloc, gc_alloc_exception, exception_fields_size, set_object, zeroed,
  verify_heap, count_objects,
}
use wah.Gc.Heap.Counts.{Counted, exceptions-le, total_bytes, exceptions}

count_objects_lem :
    (objects : Objects) (limit : ℕ) (os : List ℕ) (n b : ℕ)
    → limit + 1 < 4294967296
    → n ≤ limit
    → b + total_bytes objects os < 18446744073709551616
    → count_objects objects limit os n b ≡ (
        if ltb limit (n + length os)
        then none
        else some (n + length os, b + total_bytes objects os))
unfolding count_objects total_bytes
count_objects_lem objects limit [] n b l h k = ground arith
count_objects_lem objects limit (a ∷ os) n b l h k =
    ground
      (arith, count_objects_lem objects limit os (u32 (n + 1)) (u64 (b + (objects a).size_bytes)))

-- The check of a heap accepts it exactly when its count and its bytes are those of its objects, where
-- the count is at most 2^32 - 3 and the bytes fit in 64 bits.
pub verify_heap_iff :
    (objects : Objects) (gc : GcState)
    → gc.object_count + 2 < 4294967296
    → total_bytes objects gc.all_objects < 18446744073709551616
    → (verify_heap objects gc ≡ true) ↔ (
        (gc.object_count ≡ length gc.all_objects)
        × (gc.allocated_bytes ≡ total_bytes objects gc.all_objects))
unfolding verify_heap
verify_heap_iff objects gc h k =
    let c =
      count_objects_lem objects (u32 (gc.object_count + 1)) gc.all_objects 0 0 (omega arith)
        (omega arith) (omega arith) in
    (λ v. ground (arith, c), λ e. ground (arith, c))

-- The heap behind an allocation that succeeds is counted.
abbrev pub Keeps : ℕ → Option (ℕ × (GcState × Objects × Bool)) → Type 0
Keeps other none = Unit
Keeps other (some (at, (gc', objects', full))) = Counted other objects' 0 0 0 gc'.all_objects gc'

-- An allocation of `size` bytes with the header: it fails where they do not fit in 32 bits or in the
-- budget, or where malloc fails; otherwise the new object is linked in, has its size and is counted.
abbrev pub IsAllocated : ℕ → GcState → ℕ → ℕ → Option (ℕ × (GcState × Objects × Bool)) → Type 0
IsAllocated other gc malloc size none =
    (2 ^ 32 ≤ size)
    ⊎ ((gc.owner_budget.max_memory_bytes < gc.owner_budget.memory_bytes_committed + size)
        ⊎ (malloc ≡ 0))
IsAllocated other gc malloc size (some (at, (gc', objects', full))) =
    (at ≡ malloc)
    × ((gc'.all_objects ≡ malloc ∷ gc.all_objects)
        × (((objects' malloc).size_bytes ≡ size)
            × Counted other objects' 0 0 0 gc'.all_objects gc'))

-- What is allocated at a new address, with a word's room for the counts.
module _ (other : ℕ) (objects : Objects) (gc : GcState) (malloc : ℕ)
    (fresh : elem malloc gc.all_objects ≡ false)
    (limited : gc.owner_budget.max_memory_bytes < u64_max) (room : gc.object_count + 1 < 4294967296)
    (counted : Counted other objects 0 0 0 gc.all_objects gc) where
  total_bytes-fresh :
      (o : Object) (os : List ℕ)
      → elem malloc os ≡ false
      → (total_bytes (set_object objects malloc o) os ≡ total_bytes objects os)
        × (exceptions (set_object objects malloc o) os ≡ exceptions objects os)
  unfolding total_bytes exceptions elem
  total_bytes-fresh o [] h = (refl, refl)
  total_bytes-fresh o (a ∷ os) h =
      let ih = total_bytes-fresh o os (ground arith) in
      (ground (arith, ih.0, ==_iff malloc a), ground (arith, ih.1, ==_iff malloc a))

  -- The new object is counted, and as an exception where it is one.
  allocated :
      (repr_id : Repr) (infos : List ObjectRepr) (total e : ℕ) (pending : Bool)
      → budget_check gc.owner_budget total ≡ true
      → e ≡ gc.exception_count + (if is_exception (zeroed repr_id total infos) then 1 else 0)
      → Counted other
          (set_object objects malloc (zeroed repr_id total infos))
          0
          0
          0
          (malloc ∷ gc.all_objects)
          (record gc {
            all_objects = malloc ∷ gc.all_objects;
            object_count = u32 (gc.object_count + 1);
            exception_count = e;
            gc_pending = pending;
            allocated_bytes = u64 (gc.allocated_bytes + total);
            owner_budget = budget_charge gc.owner_budget total;
          })
  unfolding total_bytes exceptions budget_check budget_charge
  allocated repr_id infos total e pending fits is_exn =
      let new = zeroed repr_id total infos in
      let self : (malloc == malloc) ≡ true = (==_iff malloc malloc).1 refl in
      let ih = total_bytes-fresh new gc.all_objects fresh in
      record {
        count = ground (arith, counted.count, room);
        exns = rw (self, ih.1) (omega (arith, counted.exns, is_exn));
        bytes = rw (self, ih.0) (ground (arith, counted.bytes, counted.charged, limited));
        charged = ground (arith, counted.charged, limited);
        few = omega arith;
        count_word = ground (arith, room);
        committed_word = omega arith;
      }

  refused :
      (total : ℕ)
      → budget_check gc.owner_budget total ≡ false
      → gc.owner_budget.max_memory_bytes < gc.owner_budget.memory_bytes_committed + total
  unfolding budget_check
  refused total b = ground (arith, limited)

  size_set :
      (repr_id : Repr) (total : ℕ) (infos : List ObjectRepr)
      → (set_object objects malloc (zeroed repr_id total infos) malloc).size_bytes ≡ total
  size_set repr_id total infos =
      let self : (malloc == malloc) ≡ true = (==_iff malloc malloc).1 refl in rw self refl

  -- An allocation at a new address of an object that is not an exception, where the budget is limited
  -- (below 2^64 - 1) and the objects with the new one are fewer than 2^32. It fails only where the bytes
  -- with the header do not fit in 32 bits or in the budget, or where malloc returns null. Otherwise the
  -- new object is the first of the heap, with those bytes as its size, the counts of the heap are those
  -- of its objects, and the budget of its owner is charged for exactly their bytes beside what else it
  -- was charged for.
  pub gc_alloc-Counted :
      (repr_id : Repr) (infos : List ObjectRepr) (payload_size : ℕ)
      → (repr_id ==ℤ exn) ≡ false
      → IsAllocated other gc malloc
          (24 + payload_size)
          (gc_alloc malloc repr_id infos payload_size (gc, objects))
  unfolding gc_alloc
  gc_alloc-Counted repr_id infos payload_size not_exn =
      let total = sizeof_gc_object + payload_size in
      elim (Bool-cases (ltb (u32_max - sizeof_gc_object) payload_size)) [
        | inl h ↦ rw h (inl (omega (arith, ltb→lt (u32_max - sizeof_gc_object) payload_size h)))
        | inr h ↦ elim (Bool-cases (budget_check gc.owner_budget total)) [
          | inr b ↦ rw (h, b) (inr (inl (refused total b)))
          | inl b ↦ elim (Bool-cases (malloc == 0)) [
            | inl m ↦ rw (h, b, m) (inr (inr ((==_iff malloc 0).0 m)))
            | inr m ↦
                rw (h, b, m)
                  (
                    refl,
                    (
                      refl,
                      (
                        size_set repr_id total infos,
                        allocated repr_id infos total gc.exception_count _ b
                            (ground (arith, not_exn)),
                      ),
                    ),
                  )
          ]
        ]
      ]

  pub gc_alloc_exception-Counted :
      (value_count : ℕ) → Keeps other (gc_alloc_exception malloc value_count (gc, objects))
  unfolding gc_alloc_exception gc_alloc
  gc_alloc_exception-Counted value_count =
      let payload = exception_fields_size + value_count * 20 in
      let total = sizeof_gc_object + payload in
      elim (Bool-cases (ltb u32_max payload)) [
        | inl o ↦ rw o tt
        | inr o ↦ elim (Bool-cases (ltb (u32_max - sizeof_gc_object) payload)) [
          | inl h ↦ rw (o, h) tt
          | inr h ↦ elim (Bool-cases (budget_check gc.owner_budget total)) [
            | inr b ↦ rw (o, h, b) tt
            | inl b ↦ elim (Bool-cases (malloc == 0)) [
              | inl m ↦ rw (o, h, b, m) tt
              | inr m ↦
                  rw (o, h, b, m)
                    (allocated exn [] total (u32 (gc.exception_count + 1)) _ b (
                      ground (
                        arith,
                        counted.exns,
                        exceptions-le objects gc.all_objects,
                        counted.count,
                        room,
                      )))
            ]
          ]
        ]
      ]
