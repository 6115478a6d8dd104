-- ===== src/Sections.antt =====
-- The memory and tag sections, the declarations of locals and the section headers. Allocations succeed.
pub mod Limits
mod Tests
use wah.Base.{
  ℕ, zero, suc, ◌+◌, ◌-◌, Bool, true, false, ◌&&◌, ◌||◌, not, ltb, leb, ◌==◌, if◌then◌else◌,
}
use wah.Base.{List, [], ◌∷◌, Option, none, some, length, get_elem?, u32, u32_max, u64_max}
use wah.Base.Int.{ℤ, pos, negsuc, ◌==ℤ◌}
use wah.Status.{Result, ok, err, malformed, too_large, validation_failed}
use wah.Leb128.{decode_uleb128, decode_uleb128_64}
use wah.Types.{WahType, FuncType, TypeDef, CompKind, comp_func, i32, i64}
use wah.Types.Parse.{Module, ParseState, Parse, pure, fail, ◌>>=◌, ◌>>◌, ensure, decode, next_byte}
use wah.Types.Parse.{require_feature, require_type_features, shift_multi_memory, shift_exception}
use wah.Types.Decode.{decode_val_type, decode_and_validate_count}
use wah.Types.Section.{in_scope, is_func, type_count}

abbrev pub shift_memory64 : ℕ
shift_memory64 = 12

-- `wah_read_section_header`: the id and the size.
unfoldable pub read_section_header : Parse (ℕ × ℕ)
read_section_header = do id ← next_byte; size ← decode decode_uleb128; pure (id, size)

-- `wah_memory_type_t`
pub record MemoryType : Type 0 where
  pub addr_type : WahType
  pub min_pages : ℕ
  pub max_pages : ℕ

abbrev pub page_limit : WahType → ℕ
page_limit t = if t ==ℤ i32 then 65536 else 281474976710656

abbrev pub check_limits : Bool → MemoryType → Parse MemoryType
check_limits has_max m = do
  ensure (leb m.min_pages (page_limit m.addr_type)) validation_failed
  ensure (not has_max || leb m.max_pages (page_limit m.addr_type)) validation_failed
  ensure (leb m.min_pages m.max_pages) validation_failed
  pure m

abbrev pub memory_addr_type : ℕ → Parse WahType
memory_addr_type flags =
    if flags == 0 || flags == 1
    then pure i32
    else if flags == 4 || flags == 5
    then (require_feature shift_memory64 >> pure i64)
    else fail malformed

-- One round of the loop: both branches on the address type read the limits in the same way.
unfoldable pub parse_memory_type : Parse MemoryType
parse_memory_type = do
  flags ← next_byte
  t ← memory_addr_type flags
  min ← decode decode_uleb128_64
  max ← (if flags == 1 || flags == 5 then decode decode_uleb128_64 else pure u64_max)
  check_limits (flags == 1 || flags == 5)
      (record { addr_type = t; min_pages = min; max_pages = max })

unfoldable pub parse_memory_types : ℕ → Parse (List MemoryType)
unfolding parse_memory_type
parse_memory_types zero = pure []
parse_memory_types (suc n) = do m ← parse_memory_type; ms ← parse_memory_types n; pure (m ∷ ms)

-- `wah_parse_memory_section`, with the number of imported memories: the memories of the module.
unfoldable pub parse_memory_section : ℕ → Parse (List MemoryType)
unfolding parse_memory_types
parse_memory_section import_memory_count = do
  count ← decode_and_validate_count 2
  if ltb 1 (import_memory_count + count) then require_feature shift_multi_memory else pure tt
  parse_memory_types count

abbrev pub func_type_at : Module → ℕ → Option FuncType
func_type_at m i = elim (get_elem? m.type_defs i) [
  | none ↦ none
  | some td ↦ if is_func td.kind then get_elem? m.types i else none
]

abbrev check_tag : Option FuncType → Parse (Unit {0})
check_tag none = fail validation_failed
check_tag (some ft) = ensure (length ft.result_types == 0) validation_failed

abbrev pub get_module : Parse Module
get_module s = (ok s.module_, s)

-- One tag: a function type without results.
unfoldable pub parse_tag : Parse ℕ
parse_tag = do
  attribute ← next_byte
  ensure (attribute == 0) malformed
  type_index ← decode decode_uleb128
  m ← get_module
  ensure (ltb type_index (type_count m)) validation_failed
  check_tag (func_type_at m type_index)
  pure type_index

unfoldable pub parse_tags : ℕ → Parse (List ℕ)
unfolding parse_tag
parse_tags zero = pure []
parse_tags (suc n) = do t ← parse_tag; ts ← parse_tags n; pure (t ∷ ts)

-- `wah_parse_tag_section`: the type indices of the tags.
unfoldable pub parse_tag_section : Parse (List ℕ)
unfolding parse_tags
parse_tag_section = do
  require_feature shift_exception
  count ← decode_and_validate_count 2
  parse_tags count

-- `wah_local_run_t`: locals of one type, up to index `end`.
pub record LocalRun : Type 0 where
  pub end : ℕ
  pub type : WahType

-- WAH_MAX_LOCAL_COUNT, which is WAH_DEFAULT_VALUE_STACK_SIZE
abbrev pub max_local_count : ℕ
max_local_count = 65536

abbrev pub add_run : ℕ → LocalRun → List LocalRun → List LocalRun
add_run n r rs = if ltb 0 n then r ∷ rs else rs

abbrev pub check_scope : WahType → Parse (Unit {0})
check_scope t s = ensure (in_scope (type_count s.module_) t) validation_failed s

-- One entry, with the total so far: the total behind it, and its number of locals with their type.
unfoldable pub local_entry : ℕ → Parse (ℕ × (ℕ × WahType))
local_entry total = do
  n ← decode decode_uleb128
  t ← decode_val_type
  ensure (leb n (u32_max - total)) too_large
  ensure (leb (u32 (total + n)) max_local_count) too_large
  check_scope t
  require_type_features t
  pure (u32 (total + n), (n, t))

-- The loop over entries: the runs and the total.
unfoldable pub local_entries : ℕ → ℕ → Parse (List LocalRun × ℕ)
unfolding local_entry
local_entries zero total = pure ([], total)
local_entries (suc k) total = do
  p ← local_entry total
  r ← local_entries k p.0
  pure (add_run p.1.0 (record { end = p.0; type = p.1.1 }) r.0, r.1)

-- `wah_parse_local_decls`
unfoldable pub parse_local_decls : Parse (List LocalRun × ℕ)
unfolding local_entries
parse_local_decls = do num_entries ← decode_and_validate_count 2; local_entries num_entries 0
