-- ===== src/Types/Section/Decodes.antt =====
-- The decoding of one type of the type section, and the arrays of types.
use wah.Base.{
  ℕ, zero, suc, ◌-◌, ◌≡◌, refl, Bool, true, false, ◌||◌, ltb, leb, ◌==◌, if◌then◌else◌, arith, List,
  [], ◌∷◌, Option, none, some,
}
use wah.Base.Int.{ℤ, pos, negsuc}
use wah.Status.{Error, Result, ok, err, malformed, too_large, validation_failed}
use wah.Arrays.{grow_array}
use wah.Leb128.{Decoded, decode_uleb128, decode_sleb128_32}
use wah.Types.{WahType, FuncType, TypeDef, Field, comp_func, comp_struct, comp_array, as_nullable}
use wah.Types.{i32, i64, f32, f64, v128, packed_i8, packed_i16, type_from_idx, max_type_index}
use wah.Types.Parse.{
  ParseState, pure, fail, advance, decode, next_byte, peek_byte, first_byte, peeked,
  require_feature, shift_typed_funcref,
}
use wah.Types.Decode.{
  decode_heap_type, decode_ref_type, decode_val_type, decode_storage_type, abstract_heap_byte,
  decode_and_validate_count, skip, heap_index, heap_type_at, ref_type_at, check_count,
}
use wah.Types.Section.{
  read_val_types, parse_func_type, parse_field, read_fields, parse_struct_type, parse_array_type,
  parse_composite_type, parse_supertype, parse_sub_type, ensure_capacity, set_types_cap,
  max_type_stack_size, has_non_defaultable,
}
use wah.Types.Section.Keeps.{
  Same, Keeps, Keeps-bind, Keeps-then, Keeps-pure, Keeps-ensure-then, Keeps-if,
  Keeps-require_feature,
}

Keeps-decode : {A : Type 0} (d : List ℕ → Decoded A) → Keeps (decode d)
Keeps-decode {A} d s = go (d s.input)
  where
    go :
        (r : Decoded A)
        → ((advance r s).1.module_.types ≡ s.module_.types)
          × ((advance r s).1.module_.type_defs ≡ s.module_.type_defs)
    go (ok (a, rest)) = (refl, refl)
    go (err e) = (refl, refl)

pub Keeps-next_byte : Keeps next_byte
Keeps-next_byte = Keeps-decode first_byte

pub Keeps-peek_byte : Keeps peek_byte
Keeps-peek_byte = Keeps-decode peeked

Keeps-fail : (A : Type 0) (e : Error) → Keeps (fail {A = A} e)
Keeps-fail A e s = (refl, refl)

Keeps-skip : (t : WahType) → Keeps (skip t)
Keeps-skip t = Keeps-then next_byte (pure t) Keeps-next_byte (Keeps-pure t)

Keeps-heap_type_at : (o : Option WahType) → Keeps (heap_type_at o)
Keeps-heap_type_at (some t) = Keeps-skip t
Keeps-heap_type_at none = Keeps-bind (decode decode_sleb128_32) heap_index (Keeps-decode _) index
  where
    index : (n : ℤ) → Keeps (heap_index n)
    index (negsuc n) = Keeps-fail WahType malformed
    index (pos n) =
        Keeps-if (leb n max_type_index) (pure (type_from_idx n false)) (fail too_large)
          (Keeps-pure (type_from_idx n false)) (Keeps-fail WahType too_large)

Keeps-decode_heap_type : Keeps decode_heap_type
unfolding decode_heap_type
Keeps-decode_heap_type =
    Keeps-bind peek_byte (λ b. heap_type_at (abstract_heap_byte b)) Keeps-peek_byte
      (λ b. Keeps-heap_type_at (abstract_heap_byte b))

Keeps-ref_type_at : (b : ℕ) (o : Option WahType) → Keeps (ref_type_at b o)
Keeps-ref_type_at b (some t) = Keeps-pure (as_nullable t)
Keeps-ref_type_at b none =
    Keeps-then _ _
      (Keeps-if (b == 0x63 || b == 0x64) (require_feature shift_typed_funcref) (pure tt)
        (Keeps-require_feature _) (Keeps-pure tt))
      (Keeps-if (b == 0x63) _ _
        (Keeps-bind decode_heap_type (λ t. pure (as_nullable t)) Keeps-decode_heap_type
          (λ t. Keeps-pure (as_nullable t)))
        (Keeps-if (b == 0x64) _ _ Keeps-decode_heap_type (Keeps-fail WahType malformed)))

Keeps-decode_ref_type : Keeps decode_ref_type
unfolding decode_ref_type
Keeps-decode_ref_type =
    Keeps-bind next_byte (λ b. ref_type_at b (abstract_heap_byte b)) Keeps-next_byte
      (λ b. Keeps-ref_type_at b (abstract_heap_byte b))

Keeps-decode_val_type : Keeps decode_val_type
unfolding decode_val_type
Keeps-decode_val_type = Keeps-bind peek_byte _ Keeps-peek_byte (λ b.
    Keeps-if (b == 0x7f) _ _ (Keeps-skip i32) (
      Keeps-if (b == 0x7e) _ _ (Keeps-skip i64) (
        Keeps-if (b == 0x7d) _ _ (Keeps-skip f32) (
          Keeps-if (b == 0x7c) _ _ (Keeps-skip f64)
            (Keeps-if (b == 0x7b) _ _ (Keeps-skip v128) Keeps-decode_ref_type)))))

Keeps-decode_storage_type : Keeps decode_storage_type
unfolding decode_storage_type
Keeps-decode_storage_type = Keeps-bind peek_byte _ Keeps-peek_byte (λ b.
    Keeps-if (b == 0x78) _ _ (Keeps-skip packed_i8)
      (Keeps-if (b == 0x77) _ _ (Keeps-skip packed_i16) Keeps-decode_val_type))

Keeps-check_count : (min count : ℕ) → Keeps (check_count min count)
Keeps-check_count min count s = ground arith

pub Keeps-decode_and_validate_count : (min : ℕ) → Keeps (decode_and_validate_count min)
unfolding decode_and_validate_count
Keeps-decode_and_validate_count min =
    Keeps-bind (decode decode_uleb128) (check_count min) (Keeps-decode _) (Keeps-check_count min)

Keeps-read_val_types : (n : ℕ) → Keeps (read_val_types n)
unfolding read_val_types
Keeps-read_val_types zero = Keeps-pure {A = List WahType} []
Keeps-read_val_types (suc n) =
    Keeps-bind decode_val_type _ Keeps-decode_val_type
      (λ t. Keeps-bind (read_val_types n) _ (Keeps-read_val_types n) (λ ts. Keeps-pure (t ∷ ts)))

Keeps-parse_func_type : Keeps parse_func_type
unfolding parse_func_type
Keeps-parse_func_type =
    Keeps-bind (decode_and_validate_count 1) _ (Keeps-decode_and_validate_count 1) (λ n.
      Keeps-ensure-then (leb n max_type_stack_size) too_large _ (
        Keeps-bind (read_val_types n) _ (Keeps-read_val_types n) (λ ps.
          Keeps-bind (decode_and_validate_count 1) _ (Keeps-decode_and_validate_count 1) (λ k.
            Keeps-ensure-then (leb k max_type_stack_size) too_large _ (
              Keeps-bind (read_val_types k) _ (Keeps-read_val_types k) (λ rs.
                Keeps-pure {A = FuncType} (record { param_types = ps; result_types = rs })))))))

Keeps-parse_field : Keeps parse_field
unfolding parse_field
Keeps-parse_field = Keeps-bind decode_storage_type _ Keeps-decode_storage_type (λ t.
    Keeps-bind next_byte _ Keeps-next_byte (λ b.
      Keeps-ensure-then (leb b 1) malformed _
        (Keeps-pure {A = Field} (record { field_type = t; field_mutable = b == 1 }))))

Keeps-read_fields : (n : ℕ) → Keeps (read_fields n)
unfolding read_fields
Keeps-read_fields zero = Keeps-pure {A = List Field} []
Keeps-read_fields (suc n) =
    Keeps-bind parse_field _ Keeps-parse_field
      (λ f. Keeps-bind (read_fields n) _ (Keeps-read_fields n) (λ fs. Keeps-pure (f ∷ fs)))

Keeps-parse_struct_type : (td : TypeDef) → Keeps (parse_struct_type td)
unfolding parse_struct_type
Keeps-parse_struct_type td =
    Keeps-bind (decode_and_validate_count 2) _ (Keeps-decode_and_validate_count 2) (λ n.
      Keeps-bind (read_fields n) _ (Keeps-read_fields n) (λ fs.
        Keeps-pure {A = TypeDef} (record td {
          fields = fs;
          non_defaultable = td.non_defaultable || has_non_defaultable fs;
        })))

Keeps-parse_array_type : (td : TypeDef) → Keeps (parse_array_type td)
unfolding parse_array_type
Keeps-parse_array_type td =
    Keeps-bind parse_field _ Keeps-parse_field
      (λ f. Keeps-pure {A = TypeDef} (record td { fields = f ∷ [] }))

Keeps-parse_composite_type : (ft : FuncType) (td : TypeDef) → Keeps (parse_composite_type ft td)
unfolding parse_composite_type
Keeps-parse_composite_type ft td =
    let struct_td : TypeDef = record td { kind = comp_struct } in
    let array_td : TypeDef = record td { kind = comp_array } in
    Keeps-bind next_byte _ Keeps-next_byte (λ b.
      Keeps-if (b == 0x60) _ _
        (Keeps-bind parse_func_type (λ ft'. pure (ft', record td { kind = comp_func }))
          Keeps-parse_func_type
          (λ ft'. Keeps-pure {A = FuncType × TypeDef} (ft', record td { kind = comp_func })))
        (Keeps-if (b == 0x5f) _ _
          (Keeps-bind (parse_struct_type struct_td) (λ td'. pure (ft, td'))
            (Keeps-parse_struct_type struct_td)
            (λ td'. Keeps-pure {A = FuncType × TypeDef} (ft, td')))
          (Keeps-if (b == 0x5e) _ _
            (Keeps-bind (parse_array_type array_td) (λ td'. pure (ft, td'))
              (Keeps-parse_array_type array_td)
              (λ td'. Keeps-pure {A = FuncType × TypeDef} (ft, td')))
            (Keeps-fail (FuncType × TypeDef) malformed))))

Keeps-parse_supertype : (current : ℕ) (td : TypeDef) → Keeps (parse_supertype current td)
unfolding parse_supertype
Keeps-parse_supertype current td = Keeps-bind (decode decode_uleb128) _ (Keeps-decode _) (λ n.
    Keeps-ensure-then (leb n 1) malformed _ (
      Keeps-if (n == 1) _ _
        (Keeps-bind (decode decode_uleb128) _ (Keeps-decode _) (λ i.
          Keeps-ensure-then (ltb i current) validation_failed _
            (Keeps-pure (record td { supertype = some i }))))
        (Keeps-pure td)))

pub Keeps-parse_sub_type :
    (current : ℕ) (ft : FuncType) (td : TypeDef) → Keeps (parse_sub_type current ft td)
unfolding parse_sub_type
Keeps-parse_sub_type current ft td = Keeps-bind peek_byte _ Keeps-peek_byte (λ b.
    Keeps-if (b == 0x50 || b == 0x4f) _ _
      (Keeps-then next_byte _ Keeps-next_byte (
        Keeps-bind (parse_supertype current (record td { is_final = b == 0x4f })) _
          (Keeps-parse_supertype current (record td { is_final = b == 0x4f }))
          (λ td'. Keeps-parse_composite_type ft td')))
      (Keeps-parse_composite_type ft (record td { is_final = true; supertype = none })))

Same-set_types_cap : (r : Result ℕ) (s : ParseState) → Same s (set_types_cap r s).1
Same-set_types_cap (ok n) s = (refl, refl)
Same-set_types_cap (err e) s = (refl, refl)

pub Keeps-ensure_capacity : (needed : ℕ) → Keeps (ensure_capacity needed)
unfolding ensure_capacity
Keeps-ensure_capacity needed s =
    go (leb needed s.module_.types_cap) (leb (needed - 1) max_type_index)
      (grow_array (λ n. true) needed s.module_.types_cap)
  where
    go :
        (b c : Bool) (r : Result ℕ)
        → Same s
            (if b then (ok (tt {0}), s) else if c then set_types_cap r s else (err too_large, s)).1
    go true c r = (refl, refl)
    go false true r = Same-set_types_cap r s
    go false false r = (refl, refl)
