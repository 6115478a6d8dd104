-- ===== src/Types/Equal.antt =====
-- Structural equality of type definitions, up to the canonical map and the position of their groups.
pub mod Laws
use wah.Base.{
  ℕ, zero, suc, ◌+◌, ◌-◌, ◌*◌, ◌/◌, ◌%◌, ◌^◌, Bool, true, false, ◌&&◌, ◌||◌, not, ltb, leb, ◌==◌,
  if◌then◌else◌,
}
use wah.Base.{List, [], ◌∷◌, Option, none, some, length, get_or, bit_xor, bit_or}
use wah.Base.Int.{ℤ, pos, negsuc, ◌==ℤ◌}
use wah.Types.{
  WahType, TypeDef, FuncType, Field, CompKind, comp_func, comp_struct, comp_array, is_nullable,
  tyidx, type_from_idx,
}
use wah.Types.Section.{same_kind, is_func}

-- `idx >= rec_start && idx < rec_start + rec_size`, for the index of a type.
abbrev pub in_group : ℕ → ℕ → WahType → Bool
in_group start size (pos n) = leb start (tyidx n) && ltb (tyidx n) (start + size)
in_group start size (negsuc n) = false

-- `wah_canonicalize_type_ref`, where `type_count` is the length of the map.
abbrev pub canonicalize_type_ref : ℕ → ℕ → List ℕ → WahType → WahType
canonicalize_type_ref start size canonical_map (negsuc n) = negsuc n
canonicalize_type_ref start size canonical_map (pos n) =
    if in_group start size (pos n)
    then pos n
    else if leb (length canonical_map) (tyidx n)
    then pos n
    else type_from_idx (get_or canonical_map (tyidx n) 0) (is_nullable (pos n))

abbrev same_nullable : WahType → WahType → Bool
same_nullable a b = if is_nullable a then is_nullable b else not (is_nullable b)

abbrev pub offset_in : ℕ → WahType → ℕ
offset_in start (pos n) = tyidx n - start
offset_in start (negsuc n) = 0

-- `wah_canon_ref_eq`
unfoldable pub canon_ref_eq : WahType → ℕ → ℕ → WahType → ℕ → ℕ → Bool
canon_ref_eq ta rga_s rga_n tb rgb_s rgb_n =
    if not (same_nullable ta tb)
    then false
    else if in_group rga_s rga_n ta
    then (if in_group rgb_s rgb_n tb then offset_in rga_s ta == offset_in rgb_s tb else false)
    else if in_group rgb_s rgb_n tb
    then false
    else ta ==ℤ tb

-- A definition with its function type.
pub record Definition : Type 0 where
  pub func_type : FuncType
  pub type_def : TypeDef

abbrev pub ref_eq : List ℕ → TypeDef → TypeDef → WahType → WahType → Bool
ref_eq cmap a b ta tb =
    canon_ref_eq (canonicalize_type_ref a.rec_group_start a.rec_group_size cmap ta)
      a.rec_group_start a.rec_group_size
      (canonicalize_type_ref b.rec_group_start b.rec_group_size cmap tb) b.rec_group_start
      b.rec_group_size

unfoldable pub refs_eq : List ℕ → TypeDef → TypeDef → List WahType → List WahType → Bool
unfolding canon_ref_eq
refs_eq cmap a b [] [] = true
refs_eq cmap a b [] (u ∷ us) = false
refs_eq cmap a b (t ∷ ts) [] = false
refs_eq cmap a b (t ∷ ts) (u ∷ us) = ref_eq cmap a b t u && refs_eq cmap a b ts us

abbrev pub same_bool : Bool → Bool → Bool
same_bool true b = b
same_bool false b = not b

unfoldable pub fields_eq : List ℕ → TypeDef → TypeDef → List Field → List Field → Bool
unfolding canon_ref_eq
fields_eq cmap a b [] [] = true
fields_eq cmap a b [] (g ∷ gs) = false
fields_eq cmap a b (f ∷ fs) [] = false
fields_eq cmap a b (f ∷ fs) (g ∷ gs) =
    ref_eq cmap a b f.field_type g.field_type
    && (same_bool f.field_mutable g.field_mutable && fields_eq cmap a b fs gs)

unfoldable pub supers_eq : List ℕ → TypeDef → TypeDef → Option ℕ → Option ℕ → Bool
unfolding canon_ref_eq
supers_eq cmap a b none none = true
supers_eq cmap a b none (some t) = false
supers_eq cmap a b (some s) none = false
supers_eq cmap a b (some s) (some t) =
    ref_eq cmap a b (type_from_idx s false) (type_from_idx t false)

-- `wah_types_structurally_equal`; lists of different lengths are unequal before their elements are read.
unfoldable pub structurally_equal : List ℕ → Definition → Definition → Bool
unfolding refs_eq fields_eq supers_eq
structurally_equal cmap x y =
    let a = x.type_def in
    let b = y.type_def in
    if not (same_kind a.kind b.kind)
    then false
    else if not (same_bool a.is_final b.is_final)
    then false
    else if not (supers_eq cmap a b a.supertype b.supertype)
    then false
    else if is_func a.kind
    then refs_eq cmap a b x.func_type.param_types y.func_type.param_types
      && refs_eq cmap a b x.func_type.result_types y.func_type.result_types
    else fields_eq cmap a b a.fields b.fields
