-- ===== src/Validation/Control.antt =====
-- Blocks of the validator (`wah_validate_opcode`). The instruction that is handed on to the lowering is
-- left out; the block type is decoded.
pub mod Moves
pub mod Nested
pub mod Steps
pub mod Opening
pub mod Invariant
pub mod Blocks
pub mod Within
pub mod Restores
pub mod Branches
mod Tests
use wah.Base.{
  ℕ, zero, suc, ◌-◌, Bool, true, false, not, ◌&&◌, ltb, ◌==◌, if◌then◌else◌, List, [], ◌∷◌, length,
}
use wah.Status.{Result, ok, err, ensure, ◌>>=◌, ◌>>◌, too_large, validation_failed}
use wah.Types.{FuncType, i32}
use wah.Types.Subtype.{validate_type_match}
use wah.Validation.{
  Opcode, op_if, Frame, Context, pop_types, push_types, pop_and_match_type, block_base_height,
  save_local_inits, restore_local_inits, type_stack_truncate, match_all,
}

-- WAH_MAX_CONTROL_DEPTH
abbrev pub max_control_depth : ℕ
max_control_depth = 256

abbrev pub is_if : Opcode → Bool
is_if op_if = true
is_if _ = false

-- The frame while the parameters are popped, against the base of the parent. What is not set yet is 0.
abbrev pub new_frame : Opcode → FuncType → Context → Frame
new_frame op bt v = record {
  opcode = op;
  type_stack_sp = 0;
  block_type = bt;
  else_found = false;
  is_unreachable = v.is_unreachable;
  stack_height = block_base_height v;
  local_init_undo_base = 0;
}

-- Behind the parameters, the frame begins where the stack and the undo list are.
abbrev pub begun : Frame → Context → Frame
begun f v =
    save_local_inits v
      (record f { stack_height = v.current_stack_depth; type_stack_sp = length v.type_stack })

abbrev pub opened : Frame → List Frame → Context → Context
opened f fs v = record v { control_stack = begun f v ∷ fs }

abbrev pub reachable : Context → Context
reachable v = record v { is_unreachable = false }

abbrev pub open_block : Opcode → FuncType → Context → Result Context
open_block op bt v =
    let f = new_frame op bt v in
    pop_types (record v { control_stack = f ∷ v.control_stack }) bt.param_types >>= λ u.
    push_types (opened f v.control_stack u) bt.param_types >>= λ w. ok (reachable w)

-- An if has a condition.
abbrev pub test_condition : Opcode → Context → Result Context
test_condition op v = if is_if op then pop_and_match_type v i32 else ok v

-- A block, a loop or an if.
unfoldable pub enter_block : Opcode → FuncType → Context → Result Context
unfolding pop_types push_types pop_and_match_type
enter_block op bt v = test_condition op v >>= λ v.
    ensure (ltb (length v.control_stack) max_control_depth) too_large >> open_block op bt v

-- Behind the results of a block: the stack is cut down to its beginning, and the locals that it
-- initialized are reverted.
abbrev pub close_block : Frame → Context → Context
close_block f v =
    restore_local_inits
      (record (type_stack_truncate f.type_stack_sp v) { current_stack_depth = f.type_stack_sp }) f

abbrev else_at : Context → List Frame → Result Context
else_at v [] = err validation_failed
else_at v (f ∷ fs) =
    ensure (is_if f.opcode && not f.else_found) validation_failed
    >> (pop_types (record v { control_stack = record f { else_found = true } ∷ fs })
          f.block_type.result_types
        >>= λ u.
            ensure (u.current_stack_depth == f.stack_height) validation_failed
            >> (push_types (close_block f u) f.block_type.param_types >>= λ w. ok (reachable w)))

unfoldable pub else_block : Context → Result Context
unfolding pop_types push_types
else_block v = else_at v v.control_stack

-- An if without an else passes its parameters on.
abbrev pub check_implicit_else : Context → Frame → Result (Unit {0})
check_implicit_else v f =
    if is_if f.opcode && not f.else_found
    then ensure (length f.block_type.param_types == length f.block_type.result_types)
        validation_failed
      >> match_all v.module_ f.block_type.param_types f.block_type.result_types
    else ok tt

abbrev pub left : Frame → List Frame → Context → Context
left f fs v = record v { control_stack = fs; is_unreachable = f.is_unreachable }

abbrev end_at : Context → List Frame → Result Context
end_at v [] = err validation_failed
end_at v (f ∷ fs) =
    check_implicit_else v f
    >> (pop_types v f.block_type.result_types >>= λ u.
        ensure (u.current_stack_depth == f.stack_height) validation_failed
        >> push_types (left f fs (close_block f u)) f.block_type.result_types)

-- An end that is not the last one of the function.
unfoldable pub end_block : Context → Result Context
unfolding validate_type_match pop_types push_types
end_block v = end_at v v.control_stack
