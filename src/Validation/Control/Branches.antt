-- ===== src/Validation/Control/Branches.antt =====
-- Branches and returns (`wah_validation_resolve_br_target`, `wah_validate_opcode`).
pub mod Runs
pub mod Operands
use wah.Base.{
  ℕ, suc, ◌+◌, ◌-◌, Bool, true, false, not, ◌||◌, leb, ◌==◌, if◌then◌else◌, List, Option, none,
  some, length, get_elem?,
}
use wah.Status.{Result, ok, ensure, ◌>>=◌, ◌>>◌, validation_failed}
use wah.Types.{WahType, FuncType, i32}
use wah.Validation.{
  Opcode, op_loop, Frame, Context, pop_types, push_types, pop_and_match_type, block_base_height,
  at_unreachable_base, mark_unreachable,
}

-- What a branch goes to: the types that it takes along, and the height that they are put on.
pub record Target : Type 0 where
  pub types : List WahType
  pub stack_height : ℕ

abbrev pub is_loop : Opcode → Bool
is_loop op_loop = true
is_loop _ = false

abbrev pub label_types : Frame → List WahType
label_types f = if is_loop f.opcode then f.block_type.param_types else f.block_type.result_types

abbrev pub frame_target : Context → Option Frame → Target
frame_target v none = record { types = v.func_type.result_types; stack_height = 0 }
frame_target v (some f) = record { types = label_types f; stack_height = f.stack_height }

-- `wah_validation_resolve_br_target`, for a label of at most `control_sp`, which stands for the function.
abbrev pub resolve_br_target : Context → ℕ → Target
resolve_br_target v label_idx = frame_target v (get_elem? v.control_stack label_idx)

-- The operands that are kept on top when a branch is taken, and those that are dropped below them.
pub record Adjustment : Type 0 where
  pub keep : ℕ
  pub dropped : ℕ

abbrev pub adjustment : Context → Target → Adjustment
adjustment v t = if v.is_unreachable then record { keep = 0; dropped = 0 } else record {
  keep = length t.types;
  dropped = v.current_stack_depth - t.stack_height - length t.types;
}

-- The operands that a branch needs, in reachable code.
abbrev pub check_operands : Bool → Context → Target → Result (Unit {0})
check_operands is_br_if v t =
    ensure (v.is_unreachable || leb (t.stack_height + length t.types) v.current_stack_depth)
      validation_failed
    >> ensure
        (v.is_unreachable
          || (is_br_if || leb (block_base_height v + length t.types) v.current_stack_depth))
        validation_failed

abbrev pub pop_unless_base : Context → List WahType → Result Context
pop_unless_base v ts = if at_unreachable_base v then ok v else pop_types v ts

abbrev pub condition : Bool → Context → Result Context
condition is_br_if v = if is_br_if then pop_and_match_type v i32 else ok v

-- What follows a conditional branch has the operands again; nothing follows another one.
abbrev pub after_branch : Bool → Context → List WahType → Result Context
after_branch is_br_if v ts = if is_br_if then push_types v ts else ok (mark_unreachable v)

abbrev pub branch_to : Bool → Context → Target → Result (Context × Adjustment)
branch_to is_br_if v t =
    check_operands is_br_if v t
    >> (pop_unless_base v t.types >>= λ u.
        after_branch is_br_if u t.types >>= λ w. ok (w, adjustment v t))

-- A branch or a conditional branch, whose label is decoded.
unfoldable pub branch : Bool → ℕ → Context → Result (Context × Adjustment)
unfolding pop_types push_types pop_and_match_type mark_unreachable
branch is_br_if label_idx v =
    ensure (leb label_idx (length v.control_stack)) validation_failed
    >> (condition is_br_if v >>= λ v. branch_to is_br_if v (resolve_br_target v label_idx))

unfoldable pub return_ : Context → Result Context
unfolding pop_types mark_unreachable
return_ v =
    ensure
      (v.is_unreachable
        || leb (block_base_height v + length v.func_type.result_types) v.current_stack_depth)
      validation_failed
    >> (pop_unless_base v v.func_type.result_types >>= λ u. ok (mark_unreachable u))
