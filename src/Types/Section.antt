-- ===== src/Types/Section.antt =====
-- The type and function sections. Allocations succeed here; their failure is `Arrays.grow_array`'s.
mod Added
mod Decodes
pub mod Groups
pub mod Keeps
mod Tests
pub mod Valid
use wah.Base.{
  ℕ, zero, suc, ◌+◌, ◌-◌, ◌*◌, ◌/◌, ◌%◌, Bool, true, false, ◌&&◌, ◌||◌, not, ltb, leb, ◌==◌,
  if◌then◌else◌,
}
use wah.Base.{List, [], ◌∷◌, ◌++◌, map, Option, none, some, length, get_elem?, take, drop}
use wah.Base.Int.{ℤ, pos, negsuc}
use wah.Status.{Result, ok, err, malformed, too_large, unexpected_eof, validation_failed}
use wah.Arrays.{grow_array}
use wah.Leb128.{decode_uleb128}
use wah.Types.{WahType, FuncType, TypeDef, Field, CompKind, comp_func, comp_struct, comp_array}
use wah.Types.{is_ref, is_nullable, tyidx, max_type_index}
use wah.Types.Parse.{
  Module, ParseState, Parse, pure, fail, ◌>>=◌, ◌>>◌, ensure, advance, decode, next_byte, peek_byte,
}
use wah.Types.Parse.{require_feature, require_type_features, shift_gc}
use wah.Types.Decode.{decode_val_type, decode_storage_type, decode_and_validate_count}

-- WAH_MAX_TYPE_STACK_SIZE
abbrev pub max_type_stack_size : ℕ
max_type_stack_size = 1024

-- WAH_MAX_SUBTYPE_DEPTH
abbrev pub max_subtype_depth : ℕ
max_subtype_depth = 63

pub read_val_types : ℕ → Parse (List WahType)
read_val_types zero = pure []
read_val_types (suc n) = do t ← decode_val_type; ts ← read_val_types n; pure (t ∷ ts)

pub parse_func_type : Parse FuncType
parse_func_type = do
  param_count ← decode_and_validate_count 1
  ensure (leb param_count max_type_stack_size) too_large
  params ← read_val_types param_count
  result_count ← decode_and_validate_count 1
  ensure (leb result_count max_type_stack_size) too_large
  results ← read_val_types result_count
  pure (record { param_types = params; result_types = results })

pub parse_field : Parse Field
parse_field = do
  t ← decode_storage_type
  mut ← next_byte
  ensure (leb mut 1) malformed
  pure (record { field_type = t; field_mutable = mut == 1 })

pub read_fields : ℕ → Parse (List Field)
read_fields zero = pure []
read_fields (suc n) = do f ← parse_field; fs ← read_fields n; pure (f ∷ fs)

-- `non_defaultable` is set by any field that is a non-nullable reference.
abbrev pub has_non_defaultable : List Field → Bool
has_non_defaultable [] = false
has_non_defaultable (f ∷ fs) =
    (is_ref f.field_type && not (is_nullable f.field_type)) || has_non_defaultable fs

pub parse_struct_type : TypeDef → Parse TypeDef
unfolding read_fields
parse_struct_type td = do
  field_count ← decode_and_validate_count 2
  fs ← read_fields field_count
  pure (record td { fields = fs; non_defaultable = td.non_defaultable || has_non_defaultable fs })

pub parse_array_type : TypeDef → Parse TypeDef
parse_array_type td = do f ← parse_field; pure (record td { fields = f ∷ [] })

-- `*ft` and `*td` after the call.
pub parse_composite_type : FuncType → TypeDef → Parse (FuncType × TypeDef)
unfolding parse_func_type parse_struct_type parse_array_type
parse_composite_type ft td = do
  tag ← next_byte
  if tag == 0x60
      then (do ft' ← parse_func_type; pure (ft', record td { kind = comp_func }))
      else if tag == 0x5f
      then (do td' ← parse_struct_type (record td { kind = comp_struct }); pure (ft, td'))
      else if tag == 0x5e
      then (do td' ← parse_array_type (record td { kind = comp_array }); pure (ft, td'))
      else fail malformed

pub parse_supertype : ℕ → TypeDef → Parse TypeDef
parse_supertype current td = do
  super_count ← decode decode_uleb128
  ensure (leb super_count 1) malformed
  if super_count == 1
      then (do
        super_idx ← decode decode_uleb128
        ensure (ltb super_idx current) validation_failed
        pure (record td { supertype = some super_idx }))
      else pure td

pub parse_sub_type : ℕ → FuncType → TypeDef → Parse (FuncType × TypeDef)
unfolding parse_supertype parse_composite_type
parse_sub_type current ft td = do
  tag ← peek_byte
  if tag == 0x50 || tag == 0x4f
      then (do
        next_byte
        td' ← parse_supertype current (record td { is_final = tag == 0x4f })
        parse_composite_type ft td')
      else parse_composite_type ft (record td { is_final = true; supertype = none })

-- `module->type_count`
abbrev pub type_count : Module → ℕ
type_count m = length m.type_defs

abbrev pub set_types_cap : Result ℕ → Parse (Unit {0})
set_types_cap (ok n) s = (ok tt, record s { module_ = record s.module_ { types_cap = n } })
set_types_cap (err e) s = (err e, s)

-- The check and the growth of `wah_type_section_ensure_capacity`.
pub ensure_capacity : ℕ → Parse (Unit {0})
ensure_capacity needed s =
    if leb needed s.module_.types_cap
    then (ok tt, s)
    else if leb (needed - 1) max_type_index
    then set_types_cap (grow_array (λ n. true) needed s.module_.types_cap) s
    else (err too_large, s)

-- `wah_type_section_init_slot`
abbrev pub fresh_func : FuncType
fresh_func = record { param_types = []; result_types = [] }

abbrev pub fresh_def : TypeDef
fresh_def = record {
  kind = comp_func;
  is_final = true;
  non_defaultable = false;
  supertype = none;
  fields = [];
  rec_group_start = 0;
  rec_group_size = 0;
}

-- `++type_count` with the slot's final contents; the slot is not read while it is parsed.
abbrev pub append_type : FuncType → TypeDef → Parse (Unit {0})
append_type ft td s =
    let m = s.module_ in
    (
      ok tt,
      record s {
        module_ = record m { types = m.types ++ (ft ∷ []); type_defs = m.type_defs ++ (td ∷ []) };
      },
    )

abbrev pub get_count : Parse ℕ
get_count s = (ok (type_count s.module_), s)

abbrev pub has_super : TypeDef → Bool
has_super td = elim td.supertype [ none ↦ false | some t ↦ true ]

abbrev pub is_func : CompKind → Bool
is_func comp_func = true
is_func comp_struct = false
is_func comp_array = false

-- One round of the loop over a group.
pub parse_group_member : Parse (Unit {0})
parse_group_member = do
  idx ← get_count
  ensure_capacity (idx + 1)
  p ← parse_sub_type idx fresh_func fresh_def
  append_type p.0 p.1
  if not (is_func p.1.kind) || has_super p.1 || not p.1.is_final
      then require_feature shift_gc
      else pure tt

pub parse_group_members : ℕ → Parse (Unit {0})
parse_group_members zero = pure tt
parse_group_members (suc g) = do parse_group_member; parse_group_members g

abbrev pub with_group : ℕ → ℕ → TypeDef → TypeDef
with_group start size td = record td { rec_group_start = start; rec_group_size = size }

-- Sets the group of the definitions from `start` on, which are `size` in number.
abbrev pub set_group : ℕ → ℕ → Parse (Unit {0})
set_group start size s =
    let m = s.module_ in
    (
      ok tt,
      record s {
        module_ = record m {
          type_defs =
              take start m.type_defs ++ map (with_group start size) (drop start m.type_defs);
        };
      },
    )

pub parse_rec_group : Parse (Unit {0})
unfolding parse_group_members
parse_rec_group = do
  require_feature shift_gc
  next_byte
  group_count ← decode_and_validate_count 1
  group_start ← get_count
  parse_group_members group_count
  set_group group_start group_count

pub parse_single_type : ℕ → Parse (Unit {0})
parse_single_type tag = do
  idx ← get_count
  ensure_capacity (idx + 1)
  p ← parse_sub_type idx fresh_func fresh_def
  append_type p.0 (with_group idx 1 p.1)
  if not (is_func p.1.kind) || tag == 0x50 || tag == 0x4f then require_feature shift_gc else pure tt

pub parse_rec_groups : ℕ → Parse (Unit {0})
unfolding parse_rec_group parse_single_type
parse_rec_groups zero = pure tt
parse_rec_groups (suc r) = do
  tag ← peek_byte
  if tag == 0x4e then parse_rec_group else parse_single_type tag
  parse_rec_groups r

-- WAH_VALIDATE_HEAP_TYPE_IDX and the features of each type.
abbrev pub in_scope : ℕ → WahType → Bool
in_scope limit (pos n) = ltb (tyidx n) limit
in_scope limit (negsuc n) = true

pub check_refs : ℕ → List WahType → Parse (Unit {0})
check_refs limit [] = pure tt
check_refs limit (t ∷ ts) = do
  ensure (in_scope limit t) validation_failed
  require_type_features t
  check_refs limit ts

abbrev pub supertype_of : List TypeDef → ℕ → Option ℕ
supertype_of defs t = elim (get_elem? defs t) [ none ↦ none | some td ↦ td.supertype ]

-- The walk up from `t`, with the increments of `depth` that are still allowed.
pub check_depth : List TypeDef → ℕ → ℕ → Bool
check_depth defs zero t = elim (supertype_of defs t) [ none ↦ true | some u ↦ false ]
check_depth defs (suc n) t = elim (supertype_of defs t) [
  | none ↦ true
  | some u ↦ check_depth defs n u
]

abbrev pub same_kind : CompKind → CompKind → Bool
same_kind comp_func comp_func = true
same_kind comp_struct comp_struct = true
same_kind comp_array comp_array = true
same_kind _ _ = false

-- `super_td` is read at an index below `i`, which is within the array.
abbrev check_super_def : List TypeDef → TypeDef → ℕ → Option TypeDef → Parse (Unit {0})
check_super_def defs td super none = fail validation_failed
check_super_def defs td super (some super_td) = do
  ensure (not super_td.is_final) validation_failed
  ensure (same_kind td.kind super_td.kind) validation_failed
  ensure (check_depth defs (max_subtype_depth - 1) super) too_large

pub check_super : List TypeDef → ℕ → TypeDef → Option ℕ → Parse (Unit {0})
unfolding check_depth
check_super defs i td none = pure tt
check_super defs i td (some super) = do
  ensure (ltb super i) validation_failed
  check_super_def defs td super (get_elem? defs super)

pub check_type : List TypeDef → ℕ → FuncType → TypeDef → Parse (Unit {0})
unfolding check_refs check_super
check_type defs i ft td = do
  check_refs (td.rec_group_start + td.rec_group_size) ft.param_types
  check_refs (td.rec_group_start + td.rec_group_size) ft.result_types
  check_super defs i td td.supertype
  if is_func td.kind
      then pure tt
      else check_refs (td.rec_group_start + td.rec_group_size) (map (λ f. f.field_type) td.fields)

-- `types[i]` and `type_defs[i]` from `i` on; either array has `type_count` elements.
pub check_types : List TypeDef → ℕ → List FuncType → List TypeDef → Parse (Unit {0})
check_types defs i [] tds = pure tt
check_types defs i (ft ∷ fts) [] = pure tt
check_types defs i (ft ∷ fts) (td ∷ tds) = do
  check_type defs i ft td
  check_types defs (i + 1) fts tds

abbrev pub reset_types : Parse (Unit {0})
reset_types s =
    (ok tt, record s { module_ = record s.module_ { types = []; type_defs = []; types_cap = 0 } })

abbrev pub check_all_types : Parse (Unit {0})
check_all_types s = check_types s.module_.type_defs 0 s.module_.types s.module_.type_defs s

-- The type section up to the building of the layouts and canonical indices.
pub parse_type_defs : Parse (Unit {0})
parse_type_defs = do
  rec_count ← decode_and_validate_count 1
  reset_types
  parse_rec_groups rec_count
  check_all_types

abbrev type_kind : List TypeDef → ℕ → Option CompKind
type_kind defs i = elim (get_elem? defs i) [ none ↦ none | some td ↦ some td.kind ]

abbrev check_func_kind : Option CompKind → Parse (Unit {0})
check_func_kind (some comp_func) = pure tt
check_func_kind _ = fail validation_failed

abbrev append_function : ℕ → Parse (Unit {0})
append_function idx s =
    let m = s.module_ in
    (
      ok tt,
      record s {
        module_ = record m { function_type_indices = m.function_type_indices ++ (idx ∷ []) };
      },
    )

pub parse_function_index : Parse (Unit {0})
parse_function_index = do
  idx ← decode decode_uleb128
  append_function idx
  λ s.
      (do
        ensure (ltb idx (type_count s.module_)) validation_failed
        check_func_kind (type_kind s.module_.type_defs idx))
        s

pub parse_function_indices : ℕ → Parse (Unit {0})
parse_function_indices zero = pure tt
parse_function_indices (suc n) = do parse_function_index; parse_function_indices n

abbrev reset_functions : Parse (Unit {0})
reset_functions s = (ok tt, record s { module_ = record s.module_ { function_type_indices = [] } })

pub parse_function_section : Parse (Unit {0})
unfolding parse_function_indices
parse_function_section = do
  count ← decode_and_validate_count 1
  reset_functions
  parse_function_indices count
