-- ===== src/Gc/Tests.antt =====
-- A link domain of two contexts, collected: the theorems at concrete heaps.
use wah.Base.{
  ℕ, ◌++◌, ◌<◌, Bool, true, false, ltb, ◌==◌, if◌then◌else◌, ◌≡◌, ◌↔◌, ◌⊎◌, inl, inr, refl, List,
  [], ◌∷◌, Option, none, some, length, arith, ==_iff,
}
use wah.Base.Int.{pos, negsuc}
use wah.Layout.{repr_ref, repr_none}
use wah.Bulk.{budget_release}
use wah.References.{ref_is_i31}
use wah.Gc.{
  Object, Objects, ObjectRepr, repr_struct, object_refs, Worklist, mark_phase, push_object,
  mark_object, mark_ref, mark_refs, scan_object, drain, rescan, mark_loop, clear_bits,
}
use wah.Types.{any, i32}
use wah.Gc.Roots.Locals.{local_types, frame_roots-exact}
use wah.Pins.{PinTable}
use wah.Lifecycle.State.{no_lifecycle}
use wah.Gc.Roots.{
  RootContext, enumerate_roots, global_roots, linked_roots, frames_roots, slot_roots, table_roots,
  owned_table_roots, typed_roots, value_roots, run_roots, node_roots, frame_roots, operand_roots,
  CallFrame, CodeBody,
}
use wah.Gc.Marks.{elem, leads_to}
use wah.Gc.Invariant.{Reach, root, follow}
use wah.Gc.Marking.{IsHeap, mark_phase_exact}
use wah.Gc.Heap.{GcState, idle, mark, verify_heap, gc_alloc, gc_default_threshold, step_sweep}
use wah.Gc.Heap.Counts.{total_bytes, exceptions}
use wah.Gc.Heap.Verify.{verify_heap_iff, IsAllocated, gc_alloc-Counted}
use wah.Gc.Domain.{
  World, Context, neighbours, collect_domain, domain_add, domain_add_all, domain_loop, gc_step,
  step_mark, set_phase, domain_heaps, heap_objects, domain_roots, other_bytes,
}
use wah.Gc.Domain.Closure.{Linked, self, link}
use wah.Gc.Domain.Failure.{IsShort}
use wah.Gc.Domain.Live.{Live, Owned}
use wah.Gc.Domain.Collection.{IsCollectible, IsCollected, gc_step_collects}

abbrev pair_repr : ObjectRepr
pair_repr = record {
  kind = repr_struct;
  size = 16;
  fields =
      (record { offset = 0; repr_id = repr_none })
      ∷ (record { offset = 8; repr_id = repr_ref })
      ∷ [];
}

-- A struct that refers to the payload of the object at 3000.
abbrev pair : Object
pair = record {
  repr_id = pos 0;
  size_bytes = 40;
  repr_infos = pair_repr ∷ [];
  word = λ p. if p == 8 then 3024 else 77;
  len = 0;
  values = [];
}

abbrev leaf : Object
leaf = record {
  repr_id = negsuc 65;
  size_bytes = 32;
  repr_infos = [];
  word = λ _. 0;
  len = 0;
  values = [];
}

abbrev sample_objects : Objects
sample_objects a = if a == 1000 then pair else leaf

-- A context that has nothing but a global and a pin.
abbrev resting : ℕ → Option PinTable → RootContext
resting global pins = record {
  lifecycle = no_lifecycle;
  sp = 64;
  frames = [];
  host_call = none;
  globals = 512;
  module_globals = (record { type = any; is_indirect = false }) ∷ [];
  linked = [];
  pins = pins;
  tables = [];
  pending_exception = 0;
  read = λ _. global;
}

abbrev one_pin : ℕ → PinTable
one_pin value = record {
  slots =
      (record { value = value; pin_module = 0; pin_type = any; generation = 0; next_free = 0 })
      ∷ [];
  slots_cap = 1;
  free_head = 0;
}

abbrev first_context : Context
first_context = record {
  gc = some 5;
  linked = 2 ∷ 0 ∷ [];
  dependents = [];
  is_instantiated = true;
  may_share_refs = true;
  state = resting 7 none;
}

-- It is being instantiated, and only a pin of it counts.
abbrev second_context : Context
second_context = record {
  gc = none;
  linked = [];
  dependents = 1 ∷ [];
  is_instantiated = false;
  may_share_refs = false;
  state = resting 2024 (some (one_pin 1024));
}

abbrev sample_heap : GcState
sample_heap = record {
  all_objects = 1000 ∷ 2000 ∷ 3000 ∷ [];
  phase = idle;
  object_count = 3;
  exception_count = 0;
  allocated_bytes = 104;
  allocation_threshold = gc_default_threshold;
  other_heap_bytes = 0;
  gc_pending = true;
  owner_budget = record { max_memory_bytes = 1000; memory_bytes_committed = 200 };
  gc_dependents = [];
}

abbrev sample : World
sample = record {
  contexts = λ c. if c == 1 then first_context else second_context;
  heaps = λ _. sample_heap;
  objects = sample_objects;
  marked = λ a. a == 2000;
  gray = λ _. false;
}

sample-Linked : {c : ℕ} → Linked sample 1 c → (c ≡ 1) ⊎ (c ≡ 2)
unfolding neighbours elem
sample-Linked self = inl refl
sample-Linked (link {c} {x} l e nz) = elim (sample-Linked l) [
  | inl h ↦ let e' : elem x (neighbours sample 1) ≡ true = rw h at e in inr (ground arith)
  | inr h ↦ let e' : elem x (neighbours sample 2) ≡ true = rw h at e in inl (ground arith)
]

nothing : {a : ℕ} → Reach sample_objects (7 ∷ []) a → ⊥
unfolding leads_to ref_is_i31
nothing (root h) = cc
nothing (follow r h) = nothing r

reached : {a : ℕ} → Reach sample_objects (1024 ∷ []) a → (a ≡ 1000) ⊎ (a ≡ 3000)
unfolding leads_to ref_is_i31 object_refs
reached (root {b} h) = inl (ground arith)
reached (follow {a} {b} r h) = elim (reached r) [
  | inl e ↦
      let h' : leads_to (object_refs (sample_objects 1000)) b ≡ true = rw e at h in
      inr (ground arith)
  | inr e ↦ let h' : leads_to (object_refs (sample_objects 3000)) b ≡ true = rw e at h in cc
]

owned : (a : ℕ) → elem a sample_heap.all_objects ≡ true → Owned sample 1 a
owned a h = (1, 5, self, refl, h)

Live-Owned : (a : ℕ) → Live sample 1 a → Owned sample 1 a
unfolding elem enumerate_roots global_roots linked_roots frames_roots slot_roots table_roots
    owned_table_roots
Live-Owned a (c, l, r) = elim (sample-Linked l) [
  | inl e ↦ absurd (nothing (rw e at r))
  | inr e ↦ elim (reached (rw e at r)) [ inl x ↦ owned a (rw x refl) | inr x ↦ owned a (rw x refl) ]
]

collectible : IsCollectible 96 (1 ∷ 2 ∷ []) 1 5 sample
unfolding elem total_bytes exceptions
collectible = record {
  context = refl;
  listed = λ c l. elim (sample-Linked l) [ inl e ↦ rw e | inr e ↦ rw e ];
  owned = record {
    live = Live-Owned;
    mark_bits = λ a h. owned a (rw ((==_iff a 2000).0 h) refl);
    gray_bits = λ a h. cc;
  };
  counted = record {
    count = refl;
    exns = refl;
    bytes = refl;
    charged = omega arith;
    few = omega arith;
    count_word = omega arith;
    committed_word = omega arith;
  };
}

-- Only the first reallocation of a worklist fails.
abbrev second_try : ℕ → Bool
second_try n = ltb 0 n

gc_step_collects_example :
    (v : World) × (gc_step second_try second_try 2 1 5 sample ≡ some v)
    × ((IsShort second_try × (v ≡ set_phase 5 idle (set_phase 5 mark sample)))
        ⊎ IsCollected 96 1 5 sample v)
gc_step_collects_example =
    gc_step_collects second_try second_try 96 (1 ∷ 2 ∷ []) 1 5 sample collectible refl

-- Both contexts are found, and the object at 2000 is freed although its mark bit was set.
abbrev kept_in : Option World → List ℕ
kept_in none = []
kept_in (some w) = (w.heaps 5).all_objects

sample_collected : kept_in (gc_step second_try second_try 2 1 5 sample) ≡ 1000 ∷ 3000 ∷ []
unfolding gc_step step_mark enumerate_roots global_roots linked_roots frames_roots slot_roots
    table_roots owned_table_roots collect_domain domain_loop domain_add domain_add_all neighbours
    domain_heaps heap_objects domain_roots other_bytes elem mark_phase push_object mark_object
    mark_ref mark_refs scan_object drain rescan mark_loop clear_bits object_refs ref_is_i31
    step_sweep budget_release
sample_collected = refl

reached-IsHeap : IsHeap sample_objects (1000 ∷ 3000 ∷ []) (1024 ∷ []) (λ _. false) (λ _. false)
unfolding elem
reached-IsHeap = record {
  listed = λ a r. elim (reached r) [ inl e ↦ rw e | inr e ↦ rw e ];
  mark_bits = λ a h. cc;
  gray_bits = λ a h. cc;
}

sample_bytes : total_bytes sample_objects sample_heap.all_objects < 18446744073709551616
unfolding total_bytes
sample_bytes = omega arith

sample_fresh : elem 4000 sample_heap.all_objects ≡ false
unfolding elem
sample_fresh = refl

mark_phase_exact_example :
    (v : Worklist) × (mark_phase second_try sample_objects
        (1000 ∷ 3000 ∷ [])
        (1024 ∷ [])
        (λ _. false)
        (λ _. false)
      ≡ some v)
    × ((a : ℕ) → (v.marked a ≡ true) ↔ ∥ Reach sample_objects (1024 ∷ []) a ∥₁)
mark_phase_exact_example =
    mark_phase_exact second_try sample_objects (1000 ∷ 3000 ∷ []) (1024 ∷ []) (λ _. false)
      (λ _. false) reached-IsHeap

verify_heap_iff_example : (verify_heap sample_objects sample_heap ≡ true) ↔ (
    (sample_heap.object_count ≡ length sample_heap.all_objects)
    × (sample_heap.allocated_bytes ≡ total_bytes sample_objects sample_heap.all_objects))
verify_heap_iff_example = verify_heap_iff sample_objects sample_heap (omega arith) sample_bytes

gc_alloc-Counted_example :
    IsAllocated 96 sample_heap 4000 40
      (gc_alloc 4000 (pos 0) (pair_repr ∷ []) 16 (sample_heap, sample_objects))
gc_alloc-Counted_example =
    gc_alloc-Counted 96 sample_objects sample_heap 4000 sample_fresh (omega arith) (omega arith)
      collectible.counted (pos 0) (pair_repr ∷ []) 16 refl

-- A reference in the first parameter, and one in the second run of locals.
abbrev sample_code : CodeBody
sample_code = record {
  local_runs = (record { end = 2; type = i32 }) ∷ (record { end = 3; type = any }) ∷ [];
  local_count = 3;
  poll_ref_tops = 1 ∷ [];
  ref_nodes = (record { parent = 0; pos = 0 }) ∷ [];
}

abbrev sample_frame : CallFrame
sample_frame = record {
  code = some sample_code;
  param_types = any ∷ i32 ∷ [];
  locals = 160;
  poll_idx = 0;
}

frame_roots-exact_example :
    frame_roots (λ a. a) 400 sample_frame
    ≡ typed_roots (λ a. a) 160 ((any ∷ i32 ∷ []) ++ local_types 0 sample_code.local_runs)
      ++ operand_roots (λ a. a) 400 sample_frame sample_code
frame_roots-exact_example =
    frame_roots-exact (λ a. a) 400 sample_frame sample_code refl (omega arith, (omega arith, refl))

sample_frame_roots : frame_roots (λ a. a) 400 sample_frame ≡ 160 ∷ 224 ∷ 240 ∷ []
unfolding frame_roots typed_roots run_roots value_roots operand_roots node_roots
sample_frame_roots = refl
