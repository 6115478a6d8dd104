-- ===== src/Types/Decode.antt =====
-- Decoding of value types and counts.
use wah.Base.{ℕ, ◌+◌, ◌-◌, ◌*◌, ◌/◌, false, ◌&&◌, ◌||◌, ltb, leb, ◌==◌, if◌then◌else◌}
use wah.Base.{Option, none, some, u32_max, length, u16}
use wah.Base.Int.{ℤ, pos, negsuc}
use wah.Status.{ok, err, malformed, too_large, validation_failed}
use wah.Leb128.{decode_uleb128, decode_uleb128_64, decode_sleb128_32}
use wah.Types.{
  WahType, i32, i64, f32, f64, v128, packed_i8, packed_i16, func, extern, any, eq, i31, struct,
}
use wah.Types.{
  array, exn, nofunc, noextern, none_type, noexn, as_nullable, type_from_idx, max_type_index,
}
use wah.Types.Parse.{Parse, pure, fail, ◌>>=◌, ◌>>◌, ensure, decode, next_byte, peek_byte}
use wah.Types.Parse.{require_feature, shift_typed_funcref, shift_multi_memory}

unfoldable pub abstract_heap_byte : ℕ → Option WahType
abstract_heap_byte b =
    if b == 0x70
    then some func
    else if b == 0x6f
    then some extern
    else if b == 0x6e
    then some any
    else if b == 0x6d
    then some eq
    else if b == 0x6c
    then some i31
    else if b == 0x6b
    then some struct
    else if b == 0x6a
    then some array
    else if b == 0x69
    then some exn
    else if b == 0x74
    then some noexn
    else if b == 0x73
    then some nofunc
    else if b == 0x72
    then some noextern
    else if b == 0x71
    then some none_type
    else none

-- An index of at most WAH_MAX_TYPE_INDEX as a non-nullable type.
abbrev pub heap_index : ℤ → Parse WahType
heap_index (negsuc n) = fail malformed
heap_index (pos n) = if leb n max_type_index then pure (type_from_idx n false) else fail too_large

abbrev pub heap_type_at : Option WahType → Parse WahType
heap_type_at (some t) = do next_byte; pure t
heap_type_at none = do idx ← decode decode_sleb128_32; heap_index idx

unfoldable pub decode_heap_type : Parse WahType
unfolding abstract_heap_byte
decode_heap_type = do b ← peek_byte; heap_type_at (abstract_heap_byte b)

abbrev pub ref_type_at : ℕ → Option WahType → Parse WahType
ref_type_at b (some t) = pure (as_nullable t)
ref_type_at b none = do
  if b == 0x63 || b == 0x64 then require_feature shift_typed_funcref else pure tt
  if b == 0x63
      then (do t ← decode_heap_type; pure (as_nullable t))
      else if b == 0x64
      then decode_heap_type
      else fail malformed

unfoldable pub decode_ref_type : Parse WahType
unfolding abstract_heap_byte
decode_ref_type = do b ← next_byte; ref_type_at b (abstract_heap_byte b)

abbrev pub skip : WahType → Parse WahType
skip t = do next_byte; pure t

unfoldable pub decode_val_type : Parse WahType
decode_val_type = do
  b ← peek_byte
  if b == 0x7f
      then skip i32
      else if b == 0x7e
      then skip i64
      else if b == 0x7d
      then skip f32
      else if b == 0x7c
      then skip f64
      else if b == 0x7b
      then skip v128
      else decode_ref_type

unfoldable pub decode_storage_type : Parse WahType
decode_storage_type = do
  b ← peek_byte
  if b == 0x78 then skip packed_i8 else if b == 0x77 then skip packed_i16 else decode_val_type

abbrev pub check_count : ℕ → ℕ → Parse ℕ
check_count min_bytes count s =
    if ltb 0 min_bytes && ltb (u32_max / min_bytes) count
    then (err too_large, s)
    else if ltb (length s.input) (count * min_bytes)
    then (err malformed, s)
    else (ok count, s)

-- A count, which the bytes left must be able to hold.
unfoldable pub decode_and_validate_count : ℕ → Parse ℕ
decode_and_validate_count min_bytes = do count ← decode decode_uleb128; check_count min_bytes count

-- `wah_memarg_t`
pub record Memarg : Type 0 where
  pub align : ℕ
  pub memidx : ℕ
  pub offset : ℕ

abbrev memarg_offset : ℕ → ℕ → Parse Memarg
memarg_offset align memidx = do
  offset ← decode decode_uleb128_64
  pure (record { align = align; memidx = memidx; offset = offset })

unfoldable pub decode_memarg : Parse Memarg
decode_memarg = do
  align ← decode decode_uleb128
  ensure (ltb align 128) malformed
  if leb 64 align
      then (do
        require_feature shift_multi_memory
        memidx ← decode decode_uleb128
        memarg_offset (align - 64) memidx)
      else memarg_offset align 0

-- The remapped opcodes of the prefixes 0xFB, 0xFC and 0xFD, and the end of the table.
abbrev pub base_fb : ℕ
base_fb = 0xd7

abbrev pub base_fc : ℕ
base_fc = 0xf6

abbrev pub base_fd : ℕ
base_fd = 0x108

abbrev pub base_fe : ℕ
base_fe = 0x21c

abbrev prefixed : ℕ → ℕ → Parse ℕ
prefixed base next = do
  sub ← decode decode_uleb128
  ensure (ltb sub (next - base)) validation_failed
  pure (u16 (base + u16 sub))

unfoldable pub decode_opcode : Parse ℕ
decode_opcode = do
  b ← next_byte
  if b == 0xfb
      then prefixed base_fb base_fc
      else if b == 0xfc
      then prefixed base_fc base_fd
      else if b == 0xfd
      then prefixed base_fd base_fe
      else do ensure (ltb b base_fb) malformed; pure b
