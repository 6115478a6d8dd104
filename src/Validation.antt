-- ===== src/Validation.antt =====
-- The operand stack of the validator, and its record of initialized locals. An error ends the
-- validation of the module, so the context after an error is left out.
pub mod Stack
pub mod Locals
pub mod Control
pub mod RefMap
pub mod Tables
mod Tests
use wah.Base.{
  ℕ, zero, suc, ◌+◌, ◌-◌, max, Bool, true, false, ◌&&◌, not, ltb, leb, ◌==◌, if◌then◌else◌,
}
use wah.Base.{List, [], ◌∷◌, Option, none, some, length, drop, set, get_or}
use wah.Status.{Result, ok, err, ensure, ◌>>=◌, ◌>>◌, too_large, validation_failed}
use wah.Types.{WahType, FuncType, is_ref, is_nullable, is_packed, bot, i32}
use wah.Types.Section.{max_type_stack_size}
use wah.Types.Subtype.{TypeTable, validate_type_match}

-- The opcodes of control instructions.
pub data Opcode : Type 0 where
  op_unreachable op_block op_loop op_if op_else op_end op_br op_br_if op_return op_try_table :
      Opcode

-- `wah_validation_control_frame_t`, whose block type is decoded.
pub record Frame : Type 0 where
  pub opcode : Opcode
  pub type_stack_sp : ℕ
  pub block_type : FuncType
  pub else_found : Bool
  pub is_unreachable : Bool
  pub stack_height : ℕ
  pub local_init_undo_base : ℕ

-- `wah_local_inits_t`: the undo list has its last entry first.
pub record LocalInits : Type 0 where
  pub inits : List Bool
  pub undo : List ℕ

-- `wah_validation_context_t`. The type stack and the control stack are lists, the top first, so `sp`
-- and `control_sp` are lengths.
pub record Context : Type 0 where
  pub type_stack : List WahType
  pub lwm : ℕ
  pub current_stack_depth : ℕ
  pub max_stack_depth : ℕ
  pub is_unreachable : Bool
  pub control_stack : List Frame
  pub local_inits : Option LocalInits
  pub func_type : FuncType
  pub module_ : TypeTable

abbrev lower_lwm : ℕ → ℕ → ℕ
lower_lwm sp lwm = if ltb sp lwm then sp else lwm

-- `wah_type_stack_push`
abbrev pub type_stack_push : Context → WahType → Result Context
type_stack_push v t =
    ensure (ltb (length v.type_stack) max_type_stack_size) too_large
    >> ok (record v { type_stack = t ∷ v.type_stack })

-- `wah_type_stack_pop`, on the stack's list.
abbrev pub pop_stack : Context → List WahType → Result (WahType × Context)
pop_stack v [] = err validation_failed
pop_stack v (t ∷ ts) = ok (t, record v { type_stack = ts; lwm = lower_lwm (length ts) v.lwm })

-- `wah_type_stack_truncate`
abbrev pub type_stack_truncate : ℕ → Context → Context
type_stack_truncate sp v = record v {
  type_stack = drop (length v.type_stack - sp) v.type_stack;
  lwm = lower_lwm sp v.lwm;
}

abbrev pub height_of : List Frame → ℕ
height_of [] = 0
height_of (f ∷ fs) = f.stack_height

-- `wah_validation_block_base_height`
abbrev pub block_base_height : Context → ℕ
block_base_height v = height_of v.control_stack

-- `wah_validation_push_type`
unfoldable pub push_type : Context → WahType → Result Context
push_type v t = type_stack_push v t >>= λ v. ok (record v {
  current_stack_depth = v.current_stack_depth + 1;
  max_stack_depth =
      if ltb v.max_stack_depth (v.current_stack_depth + 1)
      then v.current_stack_depth + 1
      else v.max_stack_depth;
})

abbrev pub pop_bottom : Context → Result (WahType × Context)
pop_bottom v = ensure v.is_unreachable validation_failed >> ok (bot, v)

abbrev pub pop_top : Context → List WahType → Result (WahType × Context)
pop_top v ts = pop_stack v ts >>= λ p.
    ok (p.0, record p.1 { current_stack_depth = p.1.current_stack_depth - 1 })

-- `wah_validation_pop_type`
unfoldable pub pop_type : Context → Result (WahType × Context)
pop_type v =
    if leb v.current_stack_depth (block_base_height v) then pop_bottom v else pop_top v v.type_stack

-- `wah_validation_at_unreachable_base`
abbrev pub at_unreachable_base : Context → Bool
at_unreachable_base v = v.is_unreachable && leb v.current_stack_depth (block_base_height v)

-- `wah_validation_pop_and_match_type`
unfoldable pub pop_and_match_type : Context → WahType → Result Context
unfolding pop_type validate_type_match
pop_and_match_type v expected =
    pop_type v >>= λ p. validate_type_match p.1.module_ p.0 expected >> ok p.1

-- `wah_validation_pop_field_value`
abbrev pub pop_field_value : Context → WahType → Result Context
pop_field_value v field_type =
    pop_and_match_type v (if is_packed field_type then i32 else field_type)

-- The loop over parameters, the last one first.
unfoldable pub pop_types : Context → List WahType → Result Context
unfolding pop_and_match_type
pop_types v [] = ok v
pop_types v (t ∷ ts) = pop_types v ts >>= λ v. pop_and_match_type v t

-- `wah_validation_pop_func_params`
abbrev pub pop_func_params : Context → FuncType → Result Context
pop_func_params v ft = pop_types v ft.param_types

unfoldable pub push_types : Context → List WahType → Result Context
unfolding push_type
push_types v [] = ok v
push_types v (t ∷ ts) = push_type v t >>= λ v. push_types v ts

-- `wah_validation_push_func_results`
abbrev pub push_func_results : Context → FuncType → Result Context
push_func_results v ft = push_types v ft.result_types

abbrev match_all : TypeTable → List WahType → List WahType → Result (Unit {0})
match_all m [] _ = ok tt
match_all m (t ∷ ts) [] = err validation_failed
match_all m (t ∷ ts) (u ∷ us) = validate_type_match m t u >> match_all m ts us

-- `wah_validation_check_return_types`
unfoldable pub check_return_types : Context → FuncType → Result (Unit {0})
unfolding validate_type_match
check_return_types v ft =
    ensure (length ft.result_types == length v.func_type.result_types) validation_failed
    >> match_all v.module_ ft.result_types v.func_type.result_types

-- `wah_validation_mark_unreachable`
unfoldable pub mark_unreachable : Context → Context
mark_unreachable v =
    let base = block_base_height v in
    if ltb base v.current_stack_depth
    then record (type_stack_truncate (length v.type_stack - (v.current_stack_depth - base)) v) {
      current_stack_depth = base;
      is_unreachable = true;
    }
    else record v { is_unreachable = true }

abbrev pub undo_length : Option LocalInits → ℕ
undo_length none = 0
undo_length (some li) = length li.undo

-- `wah_validation_save_local_inits`
abbrev pub save_local_inits : Context → Frame → Frame
save_local_inits v frame = record frame { local_init_undo_base = undo_length v.local_inits }

-- `wah_local_inits_revert`, with the undo list of the state.
abbrev revert_undo : ℕ → List Bool → List ℕ → LocalInits
revert_undo base inits [] = record { inits = inits; undo = [] }
revert_undo base inits (i ∷ is) =
    let rest = revert_undo base (set inits i false) is in
    if ltb base (suc (length is)) then rest else record { inits = inits; undo = i ∷ is }

unfoldable pub revert : LocalInits → ℕ → LocalInits
revert li undo_base = revert_undo undo_base li.inits li.undo

abbrev pub reverted : ℕ → Option LocalInits → Option LocalInits
reverted base none = none
reverted base (some li) = some (revert li base)

-- `wah_validation_restore_local_inits`
abbrev pub restore_local_inits : Context → Frame → Context
restore_local_inits v frame = record v {
  local_inits = reverted frame.local_init_undo_base v.local_inits;
}

-- `wah_validation_local_needs_init`, where there are `local_inits`.
abbrev pub local_needs_init : FuncType → ℕ → WahType → Bool
local_needs_init ft local_idx type =
    leb (length ft.param_types) local_idx && (is_ref type && not (is_nullable type))

-- `wah_validation_init_local` on the inits, where growing the undo list succeeds.
unfoldable pub init_local : FuncType → LocalInits → ℕ → WahType → LocalInits
init_local ft li local_idx type =
    if not (local_needs_init ft local_idx type)
    then li
    else if get_or li.inits local_idx false
    then li
    else record { inits = set li.inits local_idx true; undo = local_idx ∷ li.undo }
