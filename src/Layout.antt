-- ===== src/Layout.antt =====
-- The layout of struct types: `wah_build_struct_repr_info` with its lists of free slots.
-- Growing a list of slots succeeds here, and `void *` has 8 bytes.
pub mod FreeSlots
pub mod Place
pub mod Build
mod Tests
use wah.Base.{
  ℕ, zero, suc, ◌+◌, ◌-◌, ◌*◌, ◌/◌, ◌%◌, max, Bool, true, false, ◌&&◌, ◌||◌, not, ltb, leb, ◌==◌,
}
use wah.Base.{if◌then◌else◌, List, [], ◌∷◌, Option, none, some, length, map, u32_max}
use wah.Base.Int.{ℤ, pos, negsuc, ◌==ℤ◌}
use wah.Status.{Result, ok, err, ensure, ◌>>=◌, ◌>>◌, validation_failed, too_large, misuse}
use wah.Types.{WahType, TypeDef, Field, CompKind, comp_func, comp_struct, comp_array}
use wah.Types.{is_ref, i32, i64, f32, f64, v128, packed_i8, packed_i16}

-- `wah_repr_t`: an index, or one of the negative values.
abbrev pub Repr : Type 0
Repr = ℤ

abbrev pub repr_none : Repr
repr_none = negsuc 63

abbrev pub repr_ref : Repr
repr_ref = negsuc 64

abbrev pub sizeof_pointer : ℕ
sizeof_pointer = 8

-- The size and the representation of a field.
unfoldable pub field_type_layout : WahType → Result (ℕ × Repr)
field_type_layout ft =
    if ft ==ℤ packed_i8
    then ok (1, repr_none)
    else if ft ==ℤ packed_i16
    then ok (2, repr_none)
    else if ft ==ℤ i32 || ft ==ℤ f32
    then ok (4, repr_none)
    else if ft ==ℤ i64 || ft ==ℤ f64
    then ok (8, repr_none)
    else if ft ==ℤ v128
    then ok (16, repr_none)
    else if is_ref ft
    then ok (sizeof_pointer, repr_ref)
    else err validation_failed

-- `slots[4]`: the offsets of the free slots of each size.
pub record Slots : Type 0 where
  pub slots1 : List ℕ
  pub slots2 : List ℕ
  pub slots4 : List ℕ
  pub slots8 : List ℕ

abbrev pub no_slots : Slots
no_slots = record { slots1 = []; slots2 = []; slots4 = []; slots8 = [] }

-- `slots[wah_layout_slot_index(size)]`, where the assertion fails for any other size.
abbrev pub slot_list : Slots → ℕ → List ℕ
slot_list s size =
    if size == 1
    then s.slots1
    else if size == 2
    then s.slots2
    else if size == 4
    then s.slots4
    else if size == 8
    then s.slots8
    else s.slots1

abbrev pub set_slot_list : Slots → ℕ → List ℕ → Slots
set_slot_list s size os =
    if size == 1
    then record s { slots1 = os }
    else if size == 2
    then record s { slots2 = os }
    else if size == 4
    then record s { slots4 = os }
    else if size == 8
    then record s { slots8 = os }
    else record s { slots1 = os }

abbrev pub all_above : ℕ → List ℕ → Bool
all_above offset [] = true
all_above offset (o ∷ os) = ltb offset o && all_above offset os

-- The shifting loop moves up the offsets above the new one, from the end, until one is not above.
unfoldable pub insert_offset : ℕ → List ℕ → List ℕ
insert_offset offset [] = offset ∷ []
insert_offset offset (o ∷ os) =
    let rest = insert_offset offset os in
    if ltb offset o && all_above offset os then offset ∷ o ∷ os else o ∷ rest

unfoldable pub slot_push : Slots → ℕ → ℕ → Slots
unfolding insert_offset
slot_push s size offset = set_slot_list s size (insert_offset offset (slot_list s size))

abbrev pop_from : Slots → ℕ → List ℕ → Option (ℕ × Slots)
pop_from s size [] = none
pop_from s size (o ∷ os) = some (o, set_slot_list s size os)

unfoldable pub slot_pop : Slots → ℕ → Option (ℕ × Slots)
slot_pop s size = pop_from s size (slot_list s size)

-- The loop of `wah_layout_split_slot`, on fuel: slots have at most 8 bytes, so 4 is enough.
unfoldable pub split_slot : ℕ → Slots → ℕ → ℕ → ℕ → Slots
unfolding slot_push
split_slot zero s offset from_size used_size = s
split_slot (suc fuel) s offset from_size used_size =
    if leb used_size (from_size / 2)
    then split_slot fuel (slot_push s (from_size / 2) (offset + from_size / 2)) offset
        (from_size / 2) used_size
    else s

-- The rounds of `wah_layout_record_tail_slots` for sizes 8, 4, 2, 1.
unfoldable pub record_tail_slots : Slots → ℕ → ℕ → Slots
unfolding slot_push
record_tail_slots s base used_size =
    let s8 = if leb used_size 8 then slot_push s 8 (base + 8) else s in
    let s4 = if leb used_size 4 then slot_push s8 4 (base + 4) else s8 in
    let s2 = if leb used_size 2 then slot_push s4 2 (base + 2) else s4 in
    if leb used_size 1 then slot_push s2 1 (base + 1) else s2

pub record Layout : Type 0 where
  pub slots : Slots
  pub frontier : ℕ

abbrev pub pop_or : ℕ → Option (ℕ × Slots) → Option (ℕ × ℕ × Slots) → Option (ℕ × ℕ × Slots)
pop_or size none rest = rest
pop_or size (some (o, s)) rest = some (size, o, s)

-- The first larger slot, from `slot_size` on, with its size.
unfoldable pub pop_larger : ℕ → Slots → ℕ → Option (ℕ × ℕ × Slots)
unfolding slot_pop
pop_larger zero s slot_size = none
pop_larger (suc fuel) s slot_size =
    let rest = pop_larger fuel s (slot_size * 2) in
    if leb slot_size 8 then pop_or slot_size (slot_pop s slot_size) rest else none

-- A new chunk of 16 bytes.
abbrev pub bump : Layout → Result (ℕ × ℕ)
bump l = ensure (leb l.frontier (u32_max - 16)) too_large >> ok (l.frontier, l.frontier + 16)

abbrev pub place_larger : Layout → ℕ → Option (ℕ × ℕ × Slots) → Result (ℕ × Layout)
place_larger l size (some (slot_size, o, s)) =
    ok (o, record { slots = split_slot 4 s o slot_size size; frontier = l.frontier })
place_larger l size none =
    bump l >>= λ p. ok (p.0, record { slots = record_tail_slots l.slots p.0 size; frontier = p.1 })

abbrev pub place_small : Layout → ℕ → Option (ℕ × Slots) → Result (ℕ × Layout)
place_small l size (some (o, s)) = ok (o, record { slots = s; frontier = l.frontier })
place_small l size none = place_larger l size (pop_larger 4 l.slots (size * 2))

-- The offset of a field of the given size.
unfoldable pub place : Layout → ℕ → Result (ℕ × Layout)
unfolding slot_pop pop_larger split_slot record_tail_slots
place l size =
    if size == 16
    then (bump l >>= λ p. ok (p.0, record { slots = l.slots; frontier = p.1 }))
    else place_small l size (slot_pop l.slots size)

-- `wah_repr_field_t`
pub record ReprField : Type 0 where
  pub offset : ℕ
  pub repr_id : Repr

-- Positive, at most 16 and a power of two, that is `size & (size - 1)` is 0.
abbrev pub is_field_size : ℕ → Bool
is_field_size n = n == 1 || n == 2 || n == 4 || n == 8 || n == 16

-- The fields from one on, with `live_end` so far and at the end.
pub layout_fields : Layout → ℕ → List Field → Result (List ReprField × ℕ × Layout)
unfolding place field_type_layout
layout_fields l live_end [] = ok ([], live_end, l)
layout_fields l live_end (f ∷ fs) = field_type_layout f.field_type >>= λ t.
    ensure (is_field_size t.0) validation_failed
    >> (place l t.0 >>= λ p.
        ensure (leb p.0 (u32_max - t.0)) too_large
        >> (layout_fields p.1 (max live_end (p.0 + t.0)) fs >>= λ r.
            ok (record { offset = p.0; repr_id = t.1 } ∷ r.0, r.1, r.2)))

-- `wah_repr_info_t` of a struct, whose count is the length of the fields.
pub record ReprInfo : Type 0 where
  pub typeidx : ℕ
  pub size : ℕ
  pub repr_fields : List ReprField

abbrev pub is_struct : CompKind → Bool
is_struct comp_func = false
is_struct comp_struct = true
is_struct comp_array = false

unfoldable pub build_struct_repr_info : ℕ → TypeDef → Result ReprInfo
unfolding layout_fields
build_struct_repr_info typeidx td =
    ensure (is_struct td.kind) misuse
    >> (layout_fields (record { slots = no_slots; frontier = 0 }) 0 td.fields >>= λ r.
        ok (record { typeidx = typeidx; size = r.1; repr_fields = r.0 }))
