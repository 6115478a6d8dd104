-- ===== src/Sections/Tests.antt =====
-- A memory section with one memory, and the locals of a function.
use wah.Base.{ℕ, ◌≡◌, ◌≤◌, refl, List, [], ◌∷◌, All}
use wah.Status.{ok}
use wah.Types.{i32, i64}
use wah.Types.Parse.{ParseState, require_type_features, require_feature}
use wah.Types.Decode.{decode_and_validate_count, decode_val_type}
use wah.Leb128.{decode_uleb128, decode_uleb128_64, uleb128_loop, uleb128_64_loop, add_group}
use wah.Sections.{
  MemoryType, LocalRun, parse_memory_section, parse_memory_types, parse_memory_type,
  parse_local_decls, local_entries, local_entry, max_local_count,
}
use wah.Sections.Limits.{
  ValidLimits, parse_memory_section-ValidLimits, Runs, parse_local_decls-Runs,
}

abbrev with_input : List ℕ → ParseState
with_input bytes = record {
  input = bytes;
  module_ = record {
    enabled_features = 65535;
    required_features = 0;
    types = [];
    type_defs = [];
    types_cap = 0;
    function_type_indices = [];
  };
}

abbrev memories : List MemoryType
memories = record { addr_type = i32; min_pages = 1; max_pages = 2 } ∷ []

memories-parsed : (parse_memory_section 0 (with_input (1 ∷ 1 ∷ 1 ∷ 2 ∷ []))).0 ≡ ok memories
unfolding parse_memory_section parse_memory_types parse_memory_type decode_and_validate_count
    decode_uleb128 decode_uleb128_64 uleb128_loop uleb128_64_loop add_group require_feature
memories-parsed = refl

parse_memory_section-ValidLimits_example : All ValidLimits memories
parse_memory_section-ValidLimits_example =
    parse_memory_section-ValidLimits 0 memories (with_input (1 ∷ 1 ∷ 1 ∷ 2 ∷ [])) memories-parsed

abbrev runs : List LocalRun
runs = record { end = 2; type = i32 } ∷ record { end = 3; type = i64 } ∷ []

runs-parsed : (parse_local_decls (with_input (2 ∷ 2 ∷ 0x7f ∷ 1 ∷ 0x7e ∷ []))).0 ≡ ok (runs, 3)
unfolding parse_local_decls local_entries local_entry decode_val_type decode_and_validate_count
    decode_uleb128 uleb128_loop add_group require_type_features require_feature
runs-parsed = refl

parse_local_decls-Runs_example : Runs 0 runs 3 × (3 ≤ max_local_count)
parse_local_decls-Runs_example =
    parse_local_decls-Runs runs 3 (with_input (2 ∷ 2 ∷ 0x7f ∷ 1 ∷ 0x7e ∷ [])) runs-parsed
