-- ===== src/Types/Subtype.antt =====
-- Subtyping of value types within one module: `wah_type_is_subtype` and what uses it.
pub mod Chains
pub mod Tops
use wah.Base.{ℕ, zero, suc, ◌/◌, Bool, true, false, ◌&&◌, ◌||◌, not, ltb, ◌==◌, if◌then◌else◌}
use wah.Base.{List, Option, none, some, length, get_elem?, get_or}
use wah.Base.Int.{ℤ, pos, negsuc, ◌==ℤ◌}
use wah.Status.{Result, ok, err, ensure, ◌>>◌, validation_failed}
use wah.Types.{WahType, TypeDef, CompKind, comp_func, comp_struct, comp_array}
use wah.Types.{
  is_ref, is_nullable, as_non_null, tyidx, bot, any, eq, i31, struct, array, func, extern, exn,
}
use wah.Types.{none_type, nofunc, noextern, noexn}

-- What `wah_type_is_subtype` reads of a module; `canonical_map` may be NULL.
pub record TypeTable : Type 0 where
  pub type_defs : List TypeDef
  pub canonical_map : Option (List ℕ)

-- `wah_type_def_kind`, whose 0 is no kind.
abbrev pub type_def_kind : TypeTable → ℕ → Option CompKind
type_def_kind m n = elim (get_elem? m.type_defs (tyidx n)) [ none ↦ none | some td ↦ some td.kind ]

abbrev pub is_func_kind : Option CompKind → Bool
is_func_kind none = false
is_func_kind (some comp_func) = true
is_func_kind (some comp_struct) = false
is_func_kind (some comp_array) = false

abbrev pub is_struct_kind : Option CompKind → Bool
is_struct_kind none = false
is_struct_kind (some comp_func) = false
is_struct_kind (some comp_struct) = true
is_struct_kind (some comp_array) = false

abbrev pub is_array_kind : Option CompKind → Bool
is_array_kind none = false
is_array_kind (some comp_func) = false
is_array_kind (some comp_struct) = false
is_array_kind (some comp_array) = true

-- Whether the map, when there is one, sends both indices to the same type.
abbrev pub same_canonical : Option (List ℕ) → ℕ → ℕ → Bool
same_canonical none a b = false
same_canonical (some map) a b = get_or map a 0 == get_or map b 0

abbrev pub supertype_at : List TypeDef → ℕ → Option ℕ
supertype_at defs t = elim (get_elem? defs t) [ none ↦ none | some td ↦ td.supertype ]

-- The loop up the chain of supertypes, on fuel.
unfoldable pub walk : TypeTable → ℕ → ℕ → ℕ → Bool
walk m sup zero t = false
walk m sup (suc fuel) t = elim (supertype_at m.type_defs t) [
  | none ↦ false
  | some st ↦ st == sup || (same_canonical m.canonical_map st sup || walk m sup fuel st)
]

-- concrete sub, concrete sup
unfoldable pub concrete_subtype : TypeTable → ℕ → ℕ → Bool
unfolding walk
concrete_subtype m sub_idx sup_idx =
    if not (ltb sub_idx (length m.type_defs)) || not (ltb sup_idx (length m.type_defs))
    then false
    else if same_canonical m.canonical_map sub_idx sup_idx
    then true
    else walk m sup_idx (length m.type_defs) sub_idx

-- concrete sub, abstract sup
unfoldable pub concrete_to_abstract : Option CompKind → WahType → Bool
concrete_to_abstract kind sup =
    if sup ==ℤ any || sup ==ℤ eq
    then is_struct_kind kind || is_array_kind kind
    else if sup ==ℤ struct
    then is_struct_kind kind
    else if sup ==ℤ array
    then is_array_kind kind
    else if sup ==ℤ func
    then is_func_kind kind
    else false

-- abstract sub, concrete sup
unfoldable pub abstract_to_concrete : Option CompKind → WahType → Bool
abstract_to_concrete kind sub =
    if sub ==ℤ none_type
    then is_struct_kind kind || is_array_kind kind
    else if sub ==ℤ nofunc
    then is_func_kind kind
    else false

-- abstract sub, abstract sup
unfoldable pub abstract_subtype : WahType → WahType → Bool
abstract_subtype sub sup =
    if not (is_ref sub) || not (is_ref sup)
    then false
    else if sup ==ℤ any
    then not (sub ==ℤ extern)
      && not (sub ==ℤ exn)
      && not (sub ==ℤ noextern)
      && not (sub ==ℤ noexn)
      && not (sub ==ℤ func)
      && not (sub ==ℤ nofunc)
    else if sup ==ℤ eq
    then sub ==ℤ i31 || sub ==ℤ struct || sub ==ℤ array || sub ==ℤ none_type
    else if sup ==ℤ struct || sup ==ℤ array || sup ==ℤ i31
    then sub ==ℤ none_type
    else if sup ==ℤ func
    then sub ==ℤ nofunc
    else if sup ==ℤ extern
    then sub ==ℤ noextern
    else if sup ==ℤ exn
    then sub ==ℤ noexn
    else false

-- The cases of `wah_type_is_subtype` after nullability is taken off.
unfoldable pub non_null_subtype : TypeTable → WahType → WahType → Bool
unfolding concrete_subtype concrete_to_abstract abstract_to_concrete abstract_subtype
non_null_subtype m (pos a) (pos b) = concrete_subtype m (tyidx a) (tyidx b)
non_null_subtype m (pos a) (negsuc b) = concrete_to_abstract (type_def_kind m a) (negsuc b)
non_null_subtype m (negsuc a) (pos b) = abstract_to_concrete (type_def_kind m b) (negsuc a)
non_null_subtype m (negsuc a) (negsuc b) = abstract_subtype (negsuc a) (negsuc b)

unfoldable pub is_subtype : TypeTable → WahType → WahType → Bool
unfolding non_null_subtype
is_subtype m sub sup =
    if sub ==ℤ sup || sub ==ℤ bot
    then true
    else if is_nullable sub && not (is_nullable sup)
    then false
    else if as_non_null sub ==ℤ as_non_null sup
    then true
    else non_null_subtype m (as_non_null sub) (as_non_null sup)

abbrev pub kind_top : Option CompKind → WahType
kind_top none = bot
kind_top (some comp_func) = func
kind_top (some comp_struct) = any
kind_top (some comp_array) = any

unfoldable pub abstract_top : WahType → WahType
abstract_top t =
    if t ==ℤ any || t ==ℤ eq || t ==ℤ i31 || t ==ℤ struct || t ==ℤ array || t ==ℤ none_type
    then any
    else if t ==ℤ func || t ==ℤ nofunc
    then func
    else if t ==ℤ extern || t ==ℤ noextern
    then extern
    else if t ==ℤ exn || t ==ℤ noexn
    then exn
    else bot

abbrev top_of : TypeTable → WahType → WahType
top_of m (pos n) = kind_top (type_def_kind m n)
top_of m (negsuc n) = abstract_top (negsuc n)

-- `wah_type_hierarchy_top`
unfoldable pub hierarchy_top : TypeTable → WahType → WahType
unfolding abstract_top
hierarchy_top m t = top_of m (as_non_null t)

-- `wah_validate_type_match`
unfoldable pub validate_type_match : TypeTable → WahType → WahType → Result (Unit {0})
unfolding is_subtype
validate_type_match m actual expected =
    if actual ==ℤ bot
    then ok tt
    else ensure (is_subtype m (as_non_null actual) (as_non_null expected)) validation_failed
      >> (if is_nullable expected
          then ok tt
          else ensure (not (is_nullable actual)) validation_failed)
