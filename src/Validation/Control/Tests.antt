-- ===== src/Validation/Control/Tests.antt =====
-- Runs of the control blocks on concrete states.
use wah.Base.{
  ◌≤◌, ◌≡◌, refl, false, true, List, [], ◌∷◌, none, some, length, drop, if◌then◌else◌, arith,
}
use wah.Status.{ok}
use wah.Types.{FuncType, WahType, i32, i64, struct}
use wah.Validation.{
  Context, Frame, op_block, op_loop, LocalInits, pop_type, push_type, init_local, revert,
}
use wah.Validation.Control.{enter_block, end_block}
use wah.Validation.Control.Moves.{on_top}
use wah.Validation.Control.Nested.{IsNested}
use wah.Validation.Control.Steps.{pops, pushes, inits, enters}
use wah.Validation.Control.Invariant.{Step-IsNested}
use wah.Validation.Control.Restores.{Run, start, next, block_restores}
use wah.Validation.Control.Branches.{branch, condition, is_loop, Adjustment}
use wah.Validation.Control.Branches.Operands.{branch-operands}

abbrev widen : FuncType
widen = record { param_types = i32 ∷ []; result_types = i64 ∷ [] }

abbrev nothing : FuncType
nothing = record { param_types = []; result_types = [] }

abbrev fresh : LocalInits
fresh = record { inits = false ∷ false ∷ []; undo = [] }

abbrev touched : LocalInits
touched = record { inits = false ∷ true ∷ []; undo = 1 ∷ [] }

abbrev frame : Frame
frame = record {
  opcode = op_block;
  type_stack_sp = 1;
  block_type = widen;
  else_found = false;
  is_unreachable = false;
  stack_height = 1;
  local_init_undo_base = 0;
}

abbrev state : List WahType → List Frame → LocalInits → Context
state ts fs li = record {
  type_stack = ts;
  lwm = 0;
  current_stack_depth = length ts;
  max_stack_depth = 2;
  is_unreachable = false;
  control_stack = fs;
  local_inits = some li;
  func_type = nothing;
  module_ = record { type_defs = []; canonical_map = none };
}

-- Before the block, with its parameter on another operand.
before-IsNested : IsNested (state (i32 ∷ i64 ∷ []) [] fresh)
before-IsNested = record {
  steady = record {
    in_step = refl;
    floor = omega arith;
    seen = omega arith;
    bounded = omega arith;
  };
  nested = tt;
}

begins :
    enter_block op_block widen (state (i32 ∷ i64 ∷ []) [] fresh)
    ≡ ok (state (i32 ∷ i64 ∷ []) (frame ∷ []) fresh)
unfolding enter_block
begins = refl

abbrev in_loop : Frame
in_loop = record frame { opcode = op_loop }

loop_begins :
    enter_block op_loop widen (state (i32 ∷ i64 ∷ []) [] fresh)
    ≡ ok (state (i32 ∷ i64 ∷ []) (in_loop ∷ []) fresh)
unfolding enter_block
loop_begins = refl

popping :
    pop_type (state (i32 ∷ i64 ∷ []) (frame ∷ []) fresh)
    ≡ ok (i32, state (i64 ∷ []) (frame ∷ []) fresh)
unfolding pop_type
popping = refl

initialized : init_local nothing fresh 1 struct ≡ touched
unfolding init_local
initialized = refl

pushing :
    push_type (state (i64 ∷ []) (frame ∷ []) (init_local nothing fresh 1 struct)) i64
    ≡ ok (state (i64 ∷ i64 ∷ []) (frame ∷ []) (init_local nothing fresh 1 struct))
unfolding push_type
pushing = refl

finishes :
    end_block (state (i64 ∷ i64 ∷ []) (frame ∷ []) (init_local nothing fresh 1 struct))
    ≡ ok (state (i64 ∷ i64 ∷ []) [] fresh)
unfolding end_block init_local revert
finishes = refl

-- The parameter is popped, a local initialized, and the result pushed.
body :
    Run 0
      (state (i32 ∷ i64 ∷ []) (frame ∷ []) fresh)
      (state (i64 ∷ i64 ∷ []) (frame ∷ []) (init_local nothing fresh 1 struct))
body =
    next
      (next (next start (pops i32 popping) (omega arith)) (inits fresh 1 struct refl) (omega arith))
      (pushes i64 pushing) (omega arith)

Step-IsNested_example : IsNested (state (i32 ∷ i64 ∷ []) (frame ∷ []) fresh)
Step-IsNested_example = Step-IsNested (enters op_block widen begins) before-IsNested

block_restores_example :
    (rest : List WahType) × (i32 ∷ i64 ∷ [] ≡ on_top (i32 ∷ []) rest)
    × (i64 ∷ i64 ∷ [] ≡ on_top (i64 ∷ []) rest)
    × ((state (i64 ∷ i64 ∷ []) [] fresh).control_stack ≡ [])
    × ((state (i64 ∷ i64 ∷ []) [] fresh).local_inits ≡ some fresh)
    × ((state (i64 ∷ i64 ∷ []) [] fresh).is_unreachable ≡ false)
block_restores_example =
    block_restores op_block widen (state (i32 ∷ i64 ∷ []) [] fresh)
      (state (i32 ∷ i64 ∷ []) (frame ∷ []) fresh)
      (state (i64 ∷ i64 ∷ []) (frame ∷ []) (init_local nothing fresh 1 struct))
      (state (i64 ∷ i64 ∷ []) [] fresh) before-IsNested begins body finishes refl

abbrev back : Context × Adjustment
back = (
  record (state (i64 ∷ []) (in_loop ∷ []) fresh) { is_unreachable = true },
  record { keep = 1; dropped = 0 },
)

jumps : branch false 0 (state (i32 ∷ i64 ∷ []) (in_loop ∷ []) fresh) ≡ ok back
unfolding branch
jumps = refl

branch-operands_example :
    (rest : List WahType) × (u : Context) × (i32 ∷ i64 ∷ [] ≡ on_top (i32 ∷ []) rest)
    × (condition false (state (i32 ∷ i64 ∷ []) (in_loop ∷ []) fresh) ≡ ok u)
    × (back.1.keep ≡ length (if is_loop op_loop then i32 ∷ [] else i64 ∷ []))
    × (1 ≤ length u.type_stack)
    × (drop 1 u.type_stack ≡ rest)
branch-operands_example =
    branch-operands op_loop widen false 0 (state (i32 ∷ i64 ∷ []) [] fresh)
      (state (i32 ∷ i64 ∷ []) (in_loop ∷ []) fresh) (state (i32 ∷ i64 ∷ []) (in_loop ∷ []) fresh)
      back before-IsNested loop_begins start refl (omega arith) jumps
