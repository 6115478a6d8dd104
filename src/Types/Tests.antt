-- ===== src/Types/Tests.antt =====
-- A struct type with a subtype, and the relations on types.
use wah.Base.{zero, suc, ◌≡◌, ◌↔◌, ◌⊎◌, refl, true, false, [], ◌∷◌, none, some, arith}
use wah.Base.Int.{negsuc}
use wah.Types.{TypeDef, FuncType, comp_struct}
use wah.Types.Subtype.{
  TypeTable, is_subtype, non_null_subtype, abstract_subtype, concrete_subtype, same_canonical,
}
use wah.Types.Subtype.Chains.{Earlier, Above, concrete_subtype_iff}
use wah.Types.Subtype.Tops.{is_subtype_trans}
use wah.Types.Equal.{Definition, structurally_equal}
use wah.Types.Equal.Laws.{structurally_equal_sym}

abbrev base : TypeDef
base = record {
  kind = comp_struct;
  is_final = false;
  non_defaultable = false;
  supertype = none;
  fields = [];
  rec_group_start = 0;
  rec_group_size = 1;
}

abbrev derived : TypeDef
derived = record {
  kind = comp_struct;
  is_final = true;
  non_defaultable = false;
  supertype = some 0;
  fields = [];
  rec_group_start = 1;
  rec_group_size = 1;
}

abbrev table : TypeTable
table = record { type_defs = base ∷ derived ∷ []; canonical_map = none }

table-Earlier : Earlier table.type_defs
table-Earlier zero st e = cc
table-Earlier (suc zero) st e = ground arith
table-Earlier (suc (suc t)) st e = cc

concrete_subtype_iff_example :
    (concrete_subtype table 1 0 ≡ true) ↔ ((same_canonical none 1 0 ≡ true) ⊎ Above table 1 0)
concrete_subtype_iff_example =
    concrete_subtype_iff table 1 0 table-Earlier (omega arith) (omega arith)

null_is_eq : is_subtype table (negsuc 50) (negsuc 36) ≡ true
unfolding is_subtype non_null_subtype abstract_subtype
null_is_eq = refl

eq_is_any : is_subtype table (negsuc 36) (negsuc 34) ≡ true
unfolding is_subtype non_null_subtype abstract_subtype
eq_is_any = refl

is_subtype_trans_example : is_subtype table (negsuc 50) (negsuc 34) ≡ true
is_subtype_trans_example = is_subtype_trans table 50 36 34 (λ e. ground arith) null_is_eq eq_is_any

abbrev no_func : FuncType
no_func = record { param_types = []; result_types = [] }

abbrev x : Definition
x = record { func_type = no_func; type_def = base }

abbrev y : Definition
y = record { func_type = no_func; type_def = derived }

structurally_equal_sym_example :
    structurally_equal (0 ∷ 1 ∷ []) x y ≡ structurally_equal (0 ∷ 1 ∷ []) y x
structurally_equal_sym_example = structurally_equal_sym (0 ∷ 1 ∷ []) x y
