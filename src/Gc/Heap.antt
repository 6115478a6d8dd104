-- ===== src/Gc/Heap.antt =====
-- One heap of the garbage collector (`wah_gc_state_t`): allocation, sweeping, and its check. The budget
-- of the heap's owner is kept with it, and the objects' contents in a function of their addresses.
pub mod Counts
pub mod Verify
pub mod Ends
use wah.Base.{
  ℕ, zero, suc, ◌+◌, ◌-◌, ◌*◌, ◌%◌, Bool, true, false, not, ◌&&◌, ◌||◌, ltb, leb, ◌==◌,
  if◌then◌else◌, List, [], ◌∷◌, Option, none, some, u32, u64, u32_max,
}
use wah.Base.Int.{◌==ℤ◌}
use wah.Types.{exn}
use wah.Layout.{Repr}
use wah.Bulk.{Budget, budget_check, budget_charge, budget_release}
use wah.Gc.{Object, Objects, sizeof_gc_object, ObjectRepr}

pub data Phase : Type 0 where
  idle mark sweep : Phase

pub record GcState : Type 0 where
  pub all_objects : List ℕ
  pub phase : Phase
  pub object_count : ℕ
  pub exception_count : ℕ
  pub allocated_bytes : ℕ
  pub allocation_threshold : ℕ
  pub other_heap_bytes : ℕ
  pub gc_pending : Bool
  pub owner_budget : Budget
  pub gc_dependents : List ℕ

abbrev pub gc_default_threshold : ℕ
gc_default_threshold = 262144

-- x - y of the machine's words
abbrev pub sub32 : ℕ → ℕ → ℕ
sub32 x y = u32 (x + 4294967296 - y)

abbrev pub sub64 : ℕ → ℕ → ℕ
sub64 x y = u64 (x + 18446744073709551616 - y)

-- `wah_gc_start`, whose allocation succeeds, for a context without a heap. `gc_dependents` has contexts.
abbrev pub gc_start : Budget → GcState
gc_start budget = record {
  all_objects = [];
  phase = idle;
  object_count = 0;
  exception_count = 0;
  allocated_bytes = 0;
  allocation_threshold = gc_default_threshold;
  other_heap_bytes = 0;
  gc_pending = false;
  owner_budget = budget;
  gc_dependents = [];
}

abbrev pub is_exception : Object → Bool
is_exception o = o.repr_id ==ℤ exn

abbrev pub zeroed : Repr → ℕ → List ObjectRepr → Object
zeroed repr_id total infos = record {
  repr_id = repr_id;
  size_bytes = total;
  repr_infos = infos;
  word = λ _. 0;
  len = 0;
  values = [];
}

abbrev pub set_object : Objects → ℕ → Object → Objects
set_object objects at o a = if a == at then o else objects a

-- The object is linked in and counted. At the threshold a collection is asked for; the last part is
-- whether the context's poll flag is set.
unfoldable pub add_object :
    Repr → List ObjectRepr → ℕ → ℕ → GcState × Objects → GcState × Objects × Bool
add_object repr_id infos total at (gc, objects) =
    let bytes = u64 (gc.allocated_bytes + total) in
    let full = leb gc.allocation_threshold bytes in
    (
      record gc {
        all_objects = at ∷ gc.all_objects;
        object_count = u32 (gc.object_count + 1);
        allocated_bytes = bytes;
        owner_budget = budget_charge gc.owner_budget total;
        gc_pending = full || gc.gc_pending;
      },
      set_object objects at (zeroed repr_id total infos),
      full,
    )

-- `wah_gc_alloc` with the address that malloc returns, 0 when it fails. The result is the address of the
-- object, whose payload the code returns.
unfoldable pub gc_alloc :
    ℕ → Repr → List ObjectRepr → ℕ → GcState × Objects → Option (ℕ × (GcState × Objects × Bool))
unfolding add_object
gc_alloc malloc repr_id infos payload_size (gc, objects) =
    let total = sizeof_gc_object + payload_size in
    if ltb (u32_max - sizeof_gc_object) payload_size
    then none
    else if not (budget_check gc.owner_budget total)
    then none
    else if malloc == 0
    then none
    else some (malloc, add_object repr_id infos total malloc (gc, objects))

abbrev count_exception :
    Option (ℕ × (GcState × Objects × Bool)) → Option (ℕ × (GcState × Objects × Bool))
count_exception none = none
count_exception (some (at, (gc, objects, full))) =
    some (at, (record gc { exception_count = u32 (gc.exception_count + 1) }, objects, full))

abbrev pub exception_fields_size : ℕ
exception_fields_size = 16

-- `wah_gc_alloc_exception`; each of the values takes 16 bytes, and its type 4.
unfoldable pub gc_alloc_exception :
    ℕ → ℕ → GcState × Objects → Option (ℕ × (GcState × Objects × Bool))
gc_alloc_exception malloc value_count s =
    if ltb u32_max (exception_fields_size + value_count * 20)
    then none
    else count_exception (gc_alloc malloc exn [] (exception_fields_size + value_count * 20) s)

-- An unmarked object is taken out of the counts and freed.
unfoldable pub free_object : Object → GcState → GcState
free_object o gc = record gc {
  allocated_bytes = sub64 gc.allocated_bytes o.size_bytes;
  object_count = sub32 gc.object_count 1;
  exception_count = if is_exception o then sub32 gc.exception_count 1 else gc.exception_count;
  owner_budget = budget_release gc.owner_budget o.size_bytes;
}

-- The loop of both sweeps, which keeps the objects that fail the test: what is kept, and the state.
unfoldable pub sweep_objects : Objects → (ℕ → Bool) → List ℕ → GcState → List ℕ × GcState
unfolding free_object
sweep_objects objects frees [] gc = ([], gc)
sweep_objects objects frees (a ∷ os) gc =
    let gc' = if frees a then free_object (objects a) gc else gc in
    let (kept, end) = sweep_objects objects frees os gc' in
    (if frees a then kept else a ∷ kept, end)

abbrev pub with_objects : List ℕ × GcState → GcState
with_objects (kept, gc) = record gc { all_objects = kept }

-- `wah_gc_step_sweep`
unfoldable pub step_sweep : Objects → (ℕ → Bool) → GcState → GcState
unfolding sweep_objects
step_sweep objects marked gc =
    let swept = with_objects (sweep_objects objects (λ a. not (marked a)) gc.all_objects gc) in
    let threshold = u64 (swept.allocated_bytes * 2 + swept.other_heap_bytes) in
    record swept {
      phase = idle;
      allocation_threshold =
          if ltb threshold gc_default_threshold then gc_default_threshold else threshold;
    }

-- `wah_gc_sweep_unreachable_exceptions` behind the mark phase.
unfoldable pub sweep_exceptions : Objects → (ℕ → Bool) → GcState → GcState
unfolding sweep_objects
sweep_exceptions objects marked gc =
    let swept =
      with_objects (
        sweep_objects objects (λ a. not (marked a) && is_exception (objects a)) gc.all_objects
          gc) in
    record swept { phase = idle }

-- The loop of `wah_gc_verify_heap`: the objects and the bytes that it counts, if it gets to the end.
unfoldable pub count_objects : Objects → ℕ → List ℕ → ℕ → ℕ → Option (ℕ × ℕ)
count_objects objects limit [] counted bytes = some (counted, bytes)
count_objects objects limit (a ∷ os) counted bytes =
    let rest =
      count_objects objects limit os (u32 (counted + 1)) (u64 (bytes + (objects a).size_bytes)) in
    if ltb limit (u32 (counted + 1)) then none else rest

abbrev counts_fit : GcState → Option (ℕ × ℕ) → Bool
counts_fit gc none = false
counts_fit gc (some (counted, bytes)) = counted == gc.object_count && bytes == gc.allocated_bytes

-- `wah_gc_verify_heap`
unfoldable pub verify_heap : Objects → GcState → Bool
unfolding count_objects
verify_heap objects gc =
    counts_fit gc (count_objects objects (u32 (gc.object_count + 1)) gc.all_objects 0 0)
