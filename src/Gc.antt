-- ===== src/Gc.antt =====
-- The marking phase of the garbage collector: objects, references, the worklist and its overflow.
-- An object is known by the address of its header. A list of objects linked by `next_tagged` is a list
-- of addresses, and the tag bits of that field are two functions of the address.
pub mod Marks
pub mod Costs
pub mod Invariant
pub mod Loop
pub mod Marking
pub mod Heap
pub mod Roots
pub mod Domain
mod Tests
use wah.Base.{
  ℕ, zero, suc, ◌+◌, ◌-◌, ◌*◌, ◌%◌, Bool, true, false, not, ◌&&◌, ◌||◌, ltb, leb, ◌==◌,
  if◌then◌else◌, List, [], ◌∷◌, Option, none, some, length, get_elem?,
}
use wah.Base.Int.{pos, negsuc, ◌==ℤ◌}
use wah.Types.{WahType, is_ref, exn}
use wah.Layout.{Repr, ReprField, repr_ref}
use wah.References.{ref_is_i31}

pub data ReprKind : Type 0 where
  repr_struct repr_array : ReprKind

-- `wah_repr_info_t`, whose count is the length of the fields.
pub record ObjectRepr : Type 0 where
  pub kind : ReprKind
  pub size : ℕ
  pub fields : List ReprField

-- `wah_gc_object_t` with its payload: `word` reads the pointer at an offset of the payload, and `len` is
-- the length of an array. `repr_infos` is the table of the object's module, or of the fallback module.
-- The values of an exception are kept with their types.
pub record Object : Type 0 where
  pub repr_id : Repr
  pub size_bytes : ℕ
  pub repr_infos : List ObjectRepr
  pub word : ℕ → ℕ
  pub len : ℕ
  pub values : List (WahType × ℕ)

abbrev pub Objects : Type 0
Objects = ℕ → Object

-- `wah_repr_info_get`
abbrev pub repr_info_get : List ObjectRepr → Repr → Option ObjectRepr
repr_info_get infos (pos n) = get_elem? infos n
repr_info_get infos (negsuc n) = none

-- `wah_repr_field_is_ref`
abbrev pub repr_field_is_ref : Repr → Bool
repr_field_is_ref (pos n) = true
repr_field_is_ref (negsuc n) = negsuc n ==ℤ repr_ref

abbrev pub sizeof_gc_object : ℕ
sizeof_gc_object = 24

-- `wah_gc_header`
abbrev pub gc_header : ℕ → ℕ
gc_header payload = payload - sizeof_gc_object

abbrev sizeof_array_body : ℕ
sizeof_array_body = 8

-- The references in an object, in the order in which `wah_gc_scan_object` marks them.
unfoldable pub exception_refs : List (WahType × ℕ) → List ℕ
exception_refs [] = []
exception_refs ((t, v) ∷ vs) =
    let rest = exception_refs vs in
    if is_ref t && not (v == 0) && not (ref_is_i31 v) then v ∷ rest else rest

unfoldable pub struct_refs : (ℕ → ℕ) → List ReprField → List ℕ
struct_refs word [] = []
struct_refs word (f ∷ fs) =
    let rest = struct_refs word fs in
    if repr_field_is_ref f.repr_id && not (word f.offset == 0) then word f.offset ∷ rest else rest

-- The elements from `i`, of which `left` are left.
unfoldable pub element_refs : (ℕ → ℕ) → ℕ → ℕ → ℕ → ℕ → List ℕ
element_refs word elem_size offset i zero = []
element_refs word elem_size offset i (suc left) =
    let at = word (sizeof_array_body + i * elem_size % 4294967296 + offset) in
    let rest = element_refs word elem_size offset (i + 1) left in
    if at == 0 then rest else at ∷ rest

abbrev pub array_refs : Object → ObjectRepr → List ReprField → List ℕ
array_refs o info [] = []
array_refs o info (f ∷ fs) =
    if repr_field_is_ref f.repr_id then element_refs o.word info.size f.offset 0 o.len else []

abbrev pub info_refs : Object → Option ObjectRepr → List ℕ
info_refs o none = []
info_refs o (some info) = elim info.kind [
  | repr_struct ↦ struct_refs o.word info.fields
  | repr_array ↦ array_refs o info info.fields
]

unfoldable pub object_refs : Object → List ℕ
unfolding exception_refs struct_refs element_refs ref_is_i31
object_refs o =
    if o.repr_id ==ℤ exn
    then exception_refs o.values
    else info_refs o (repr_info_get o.repr_infos o.repr_id)

-- `wah_gc_worklist_t`, top first, with the mark and gray bits of all objects. `tries` counts the
-- reallocations, since which of them succeed is a parameter.
pub record Worklist : Type 0 where
  pub marked : ℕ → Bool
  pub gray : ℕ → Bool
  pub items : List ℕ
  pub cap : ℕ
  pub overflow : Bool
  pub tries : ℕ

abbrev pub update : (ℕ → Bool) → ℕ → Bool → ℕ → Bool
update bits a b x = if x == a then b else bits x

abbrev pub u32_wrap : ℕ → ℕ
u32_wrap n = n % 4294967296

abbrev grown_cap : ℕ → ℕ
grown_cap cap = if cap == 0 then 256 else u32_wrap (cap * 2)

abbrev push_gray : ℕ → Worklist → Worklist
push_gray obj w = record w { gray = update w.gray obj true; overflow = true }

module _ (realloc_ok : ℕ → Bool) where
  -- The part of `wah_gc_mark_object` behind the mark: the object is pushed, or marked gray.
  unfoldable pub push_object : ℕ → Worklist → Worklist
  push_object obj w =
      if leb w.cap (length w.items)
      then (if ltb (grown_cap w.cap) w.cap
          then push_gray obj w
          else if realloc_ok w.tries
          then record w { items = obj ∷ w.items; cap = grown_cap w.cap; tries = w.tries + 1 }
          else push_gray obj (record w { tries = w.tries + 1 }))
      else record w { items = obj ∷ w.items }

  -- `wah_gc_mark_object`; a null pointer is 0.
  unfoldable pub mark_object : ℕ → Worklist → Worklist
  mark_object obj w =
      if obj == 0 || w.marked obj
      then w
      else push_object obj (record w { marked = update w.marked obj true })

  -- `wah_gc_mark_ref`
  unfoldable pub mark_ref : ℕ → Worklist → Worklist
  mark_ref ref w = if ref == 0 || ref_is_i31 ref then w else mark_object (gc_header ref) w

  unfoldable pub mark_refs : List ℕ → Worklist → Worklist
  mark_refs [] w = w
  mark_refs (r ∷ rs) w = mark_refs rs (mark_ref r w)

  module _ (objects : Objects) where
    -- `wah_gc_scan_object`
    unfoldable pub scan_object : ℕ → Worklist → Worklist
    unfolding mark_refs object_refs
    scan_object obj w = mark_refs (object_refs (objects obj)) w

    -- The loop that scans what is on the worklist, on fuel.
    unfoldable pub drain : ℕ → Worklist → Option Worklist
    unfolding scan_object
    drain zero w = elim w.items [ [] ↦ some w | _ ∷ _ ↦ none ]
    drain (suc fuel) w = elim w.items [
      | [] ↦ some w
      | obj ∷ rest ↦ drain fuel (scan_object obj (record w { items = rest }))
    ]

    -- The loop over all objects that scans the gray ones.
    unfoldable pub rescan : List ℕ → Worklist → Worklist
    unfolding scan_object
    rescan [] w = w
    rescan (obj ∷ all) w =
        rescan all
          (if w.gray obj then scan_object obj (record w { gray = update w.gray obj false }) else w)

    -- The outer loop over both, on fuel. The inner one gets fuel for all objects.
    unfoldable pub mark_loop : List ℕ → ℕ → Worklist → Option Worklist
    unfolding drain rescan
    mark_loop all zero w = none
    mark_loop all (suc fuel) w = elim (drain (length w.items + length all) w) [
      | none ↦ none
      | some w ↦ elim w.overflow [
        | false ↦ some w
        | true ↦ mark_loop all fuel (rescan all (record w { overflow = false }))
      ]
    ]

unfoldable pub clear_bits : List ℕ → (ℕ → Bool) → ℕ → Bool
clear_bits [] bits = bits
clear_bits (obj ∷ all) bits = clear_bits all (update bits obj false)

-- `wah_gc_step_mark` behind the computation of the domain: all its objects are unmarked, the roots are
-- marked in the order of `wah_gc_enumerate_roots`, and the worklist is emptied. It needs at most two
-- rounds more than there are objects.
unfoldable pub mark_phase :
    (ℕ → Bool) → Objects → List ℕ → List ℕ → (ℕ → Bool) → (ℕ → Bool) → Option Worklist
unfolding clear_bits mark_refs mark_loop
mark_phase realloc_ok objects all roots marked gray =
    mark_loop realloc_ok objects all (length all + 2) (
      mark_refs realloc_ok roots (record {
        marked = clear_bits all marked;
        gray = clear_bits all gray;
        items = [];
        cap = 0;
        overflow = false;
        tries = 0;
      }))
