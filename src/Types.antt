-- ===== src/Types.antt =====
-- `wah_type_t` and the type definitions of a module.
-- A type is the integer that wah.h stores: below 0 a built-in type, from 0 on an index doubled,
-- and odd when the reference is nullable.
pub mod Parse
pub mod Decode
pub mod Section
pub mod Subtype
pub mod Equal
mod Tests
use wah.Base.{ℕ, zero, suc, ◌+◌, ◌-◌, ◌*◌, ◌/◌, ◌%◌, Bool, true, false, ◌&&◌, ◌||◌, List}
use wah.Base.{leb, ltb, ◌==◌, Option}
use wah.Base.Int.{ℤ, pos, negsuc, ◌==ℤ◌}

abbrev pub WahType : Type 0
WahType = ℤ

-- WAH_TYPE_*: the number n stands for -(n + 1).
abbrev pub i32 : WahType
i32 = negsuc 1

abbrev pub i64 : WahType
i64 = negsuc 3

abbrev pub f32 : WahType
f32 = negsuc 5

abbrev pub f64 : WahType
f64 = negsuc 7

abbrev pub v128 : WahType
v128 = negsuc 9

abbrev pub packed_i8 : WahType
packed_i8 = negsuc 15

abbrev pub packed_i16 : WahType
packed_i16 = negsuc 17

abbrev pub func : WahType
func = negsuc 31

abbrev pub extern : WahType
extern = negsuc 33

abbrev pub any : WahType
any = negsuc 35

abbrev pub eq : WahType
eq = negsuc 37

abbrev pub i31 : WahType
i31 = negsuc 39

abbrev pub struct : WahType
struct = negsuc 41

abbrev pub array : WahType
array = negsuc 43

abbrev pub exn : WahType
exn = negsuc 45

abbrev pub nofunc : WahType
nofunc = negsuc 47

abbrev pub noextern : WahType
noextern = negsuc 49

abbrev pub none_type : WahType
none_type = negsuc 51

abbrev pub noexn : WahType
noexn = negsuc 53

abbrev pub bot : WahType
bot = negsuc 98

-- `t & 1`, where the bit pattern of -(n + 1) is odd exactly when n is even.
abbrev pub is_nullable : WahType → Bool
is_nullable (pos n) = n % 2 == 1
is_nullable (negsuc n) = n % 2 == 0

-- `t | 1`
abbrev pub as_nullable : WahType → WahType
as_nullable (pos n) = pos (n - n % 2 + 1)
as_nullable (negsuc n) = negsuc (n - n % 2)

-- `t & ~1`
abbrev pub as_non_null : WahType → WahType
as_non_null (pos n) = pos (n - n % 2)
as_non_null (negsuc n) = negsuc (n - n % 2 + 1)

abbrev pub is_packed : WahType → Bool
is_packed t = t ==ℤ packed_i8 || t ==ℤ packed_i16

-- `(t <= -31 && t >= -54) || t >= 0`
abbrev pub is_ref : WahType → Bool
is_ref (pos n) = true
is_ref (negsuc n) = leb 30 n && leb n 53

-- WAH_TYIDX, on types that are not negative.
abbrev pub tyidx : ℕ → ℕ
tyidx n = n / 2

-- WAH_TYPE_FROM_IDX
abbrev pub type_from_idx : ℕ → Bool → WahType
type_from_idx i true = pos (i * 2 + 1)
type_from_idx i false = pos (i * 2)

-- WAH_MAX_TYPE_INDEX
abbrev pub max_type_index : ℕ
max_type_index = 1073741823

-- `wah_comp_type_kind_t`
pub data CompKind : Type 0 where
  comp_func comp_struct comp_array : CompKind

-- `wah_func_type_t`; the counts are the lengths.
pub record FuncType : Type 0 where
  pub param_types : List WahType
  pub result_types : List WahType

pub record Field : Type 0 where
  pub field_type : WahType
  pub field_mutable : Bool

-- `wah_type_def_t`; WAH_NO_SUPERTYPE is `none`, and the arrays of fields are one list.
pub record TypeDef : Type 0 where
  pub kind : CompKind
  pub is_final : Bool
  pub non_defaultable : Bool
  pub supertype : Option ℕ
  pub fields : List Field
  pub rec_group_start : ℕ
  pub rec_group_size : ℕ
