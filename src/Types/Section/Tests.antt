-- ===== src/Types/Section/Tests.antt =====
-- A type section with an open struct type and a final subtype of it.
use wah.Base.{◌≡◌, refl, [], ◌∷◌}
use wah.Status.{ok}
use wah.Types.Parse.{ParseState, require_feature, require_type_features}
use wah.Types.Decode.{decode_val_type, decode_storage_type, decode_and_validate_count}
use wah.Leb128.{decode_uleb128, uleb128_loop, add_group}
use wah.Arrays.{grow_array, grow_loop}
use wah.Types.Section.{
  parse_type_defs, parse_rec_groups, parse_rec_group, parse_single_type, parse_sub_type,
  parse_supertype,
}
use wah.Types.Section.{
  parse_composite_type, parse_struct_type, parse_field, read_fields, ensure_capacity,
}
use wah.Types.Section.{check_types, check_type, check_refs, check_super, check_depth}
use wah.Types.Section.Groups.{ValidTypes, parse_type_defs-Valid}

abbrev start : ParseState
start = record {
  input = 2 ∷ 0x50 ∷ 0 ∷ 0x5f ∷ 1 ∷ 0x7f ∷ 1 ∷ 0x4f ∷ 1 ∷ 0 ∷ 0x5f ∷ 1 ∷ 0x7f ∷ 1 ∷ [];
  module_ = record {
    enabled_features = 65535;
    required_features = 0;
    types = [];
    type_defs = [];
    types_cap = 0;
    function_type_indices = [];
  };
}

abbrev parsed : ParseState
parsed = (parse_type_defs start).1

start-parsed : parse_type_defs start ≡ (ok tt, parsed)
unfolding parse_type_defs parse_rec_groups parse_rec_group parse_single_type parse_sub_type
    parse_supertype parse_composite_type parse_struct_type parse_field read_fields ensure_capacity
    check_types check_type check_refs check_super check_depth require_feature require_type_features
    decode_val_type decode_storage_type decode_and_validate_count decode_uleb128 uleb128_loop
    add_group grow_array grow_loop
start-parsed = refl

parse_type_defs-Valid_example : ValidTypes parsed.module_.types parsed.module_.type_defs
parse_type_defs-Valid_example = parse_type_defs-Valid start parsed start-parsed
