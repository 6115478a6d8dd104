-- ===== src/Layout/Tests.antt =====
-- Layouts of small structs.
use wah.Base.{true, false, ◌≡◌, refl, [], ◌∷◌, none}
use wah.Status.{ok}
use wah.Types.{TypeDef, comp_struct, i64, packed_i8, i32}
use wah.Layout.{
  build_struct_repr_info, layout_fields, field_type_layout, place, slot_pop, slot_push,
  insert_offset, split_slot, pop_larger, record_tail_slots, ReprInfo, repr_none,
}
use wah.Layout.Build.{ValidInfo, build_struct_repr_info-ValidInfo}

-- A byte, a word of 64 bits and one of 32 bits: the last goes into the gap.
abbrev mixed : TypeDef
mixed = record {
  kind = comp_struct;
  is_final = true;
  non_defaultable = false;
  supertype = none;
  fields =
      record { field_type = packed_i8; field_mutable = true }
      ∷ record { field_type = i64; field_mutable = false }
      ∷ record { field_type = i32; field_mutable = false }
      ∷ [];
  rec_group_start = 0;
  rec_group_size = 1;
}

abbrev mixed_info : ReprInfo
mixed_info = record {
  typeidx = 0;
  size = 16;
  repr_fields =
      record { offset = 0; repr_id = repr_none }
      ∷ record { offset = 8; repr_id = repr_none }
      ∷ record { offset = 4; repr_id = repr_none }
      ∷ [];
}

mixed-built : build_struct_repr_info 0 mixed ≡ ok mixed_info
unfolding build_struct_repr_info layout_fields field_type_layout place slot_pop slot_push
    insert_offset split_slot pop_larger record_tail_slots
mixed-built = refl

build_struct_repr_info-ValidInfo_example : ValidInfo mixed mixed_info
build_struct_repr_info-ValidInfo_example =
    build_struct_repr_info-ValidInfo 0 mixed mixed_info mixed-built
