-- ===== src/Validation/Tables/Tests.antt =====
-- A br_table in a loop, to the loop, the function and the loop again.
use wah.Base.{
  zero, suc, ℕ, ◌+◌, ◌≤◌, ◌<◌, ◌≡◌, refl, false, true, List, [], ◌∷◌, none, some, length, drop,
  get_elem?, set, replicate, arith, All, if◌then◌else◌,
}
use wah.Status.{ok}
use wah.Types.{FuncType, WahType, i32, i64}
use wah.Validation.{Context, Frame, op_loop, push_type, pop_and_match_type}
use wah.Validation.Control.{enter_block}
use wah.Validation.Control.Moves.{on_top}
use wah.Validation.Control.Nested.{IsNested}
use wah.Validation.Control.Steps.{pushes}
use wah.Validation.Control.Restores.{Run, start, next}
use wah.Validation.Control.Branches.{is_loop}
use wah.Validation.Tables.{Labels, BrTable, br_table, record_cap}
use wah.Validation.Tables.Records.{Named}
use wah.Validation.Tables.Stamps.{IsStamped}
use wah.Validation.Tables.Operands.{br_table-records, br_table-operands}

abbrev repeat : FuncType
repeat = record { param_types = i32 ∷ []; result_types = [] }

abbrev number : FuncType
number = record { param_types = []; result_types = i32 ∷ [] }

abbrev frame : Frame
frame = record {
  opcode = op_loop;
  type_stack_sp = 1;
  block_type = repeat;
  else_found = false;
  is_unreachable = false;
  stack_height = 1;
  local_init_undo_base = 0;
}

abbrev state : List WahType → List Frame → ℕ → Context
state ts fs n = record {
  type_stack = ts;
  lwm = 0;
  current_stack_depth = length ts;
  max_stack_depth = n;
  is_unreachable = false;
  control_stack = fs;
  local_inits = none;
  func_type = number;
  module_ = record { type_defs = []; canonical_map = none };
}

before-IsNested : IsNested (state (i32 ∷ i64 ∷ []) [] 2)
before-IsNested = record {
  steady = record {
    in_step = refl;
    floor = omega arith;
    seen = omega arith;
    bounded = omega arith;
  };
  nested = tt;
}

begins :
    enter_block op_loop repeat (state (i32 ∷ i64 ∷ []) [] 2)
    ≡ ok (state (i32 ∷ i64 ∷ []) (frame ∷ []) 2)
unfolding enter_block
begins = refl

index_pushed :
    push_type (state (i32 ∷ i64 ∷ []) (frame ∷ []) 2) i32
    ≡ ok (state (i32 ∷ i32 ∷ i64 ∷ []) (frame ∷ []) 3)
unfolding push_type
index_pushed = refl

body : Run 0 (state (i32 ∷ i64 ∷ []) (frame ∷ []) 2) (state (i32 ∷ i32 ∷ i64 ∷ []) (frame ∷ []) 3)
body = next start (pushes i32 index_pushed) (omega arith)

abbrev unused : Labels
unused = record { stamps = replicate 257 0; records = replicate 257 0; serial = 0 }

zeros_below : (n : ℕ) → All (λ x. x < 1) (replicate n 0)
zeros_below zero = tt
zeros_below (suc n) = (omega arith, zeros_below n)

unused-IsStamped : IsStamped unused
unused-IsStamped = record {
  room = refl;
  room_records = refl;
  word = omega arith;
  earlier = zeros_below 257;
}

abbrev table : BrTable
table = record { keep = 1; symbols = 0 ∷ 1 ∷ []; drops = 0 ∷ 1 ∷ []; targets = 0 ∷ 1 ∷ 0 ∷ [] }

abbrev used : Labels
used = record {
  stamps = set (set (replicate 257 0) 0 1) 1 1;
  records = set (set (replicate 257 0) 0 0) 1 1;
  serial = 1;
}

abbrev result : Context × (BrTable × Labels)
result = (record (state (i64 ∷ []) (frame ∷ []) 3) { is_unreachable = true }, (table, used))

jumps : br_table 2 (0 ∷ 1 ∷ 0 ∷ []) unused (state (i32 ∷ i32 ∷ i64 ∷ []) (frame ∷ []) 3) ≡ ok result
unfolding br_table
jumps = refl

br_table-records_example :
    Named (0 ∷ 1 ∷ []) (0 ∷ 1 ∷ 0 ∷ []) (0 ∷ 1 ∷ 0 ∷ [])
    × (length table.symbols ≤ record_cap 2 1)
    × IsStamped used
br_table-records_example =
    br_table-records 2 (0 ∷ 1 ∷ 0 ∷ []) unused (state (i32 ∷ i32 ∷ i64 ∷ []) (frame ∷ []) 3) result
      refl (omega arith) unused-IsStamped jumps

br_table-operands_example :
    (rest : List WahType) × (u : Context) × (index : ℕ) × (dropped : ℕ) × (i32 ∷ i64 ∷ []
      ≡ on_top (i32 ∷ []) rest)
    × (pop_and_match_type (state (i32 ∷ i32 ∷ i64 ∷ []) (frame ∷ []) 3) i32 ≡ ok u)
    × (get_elem? table.targets 2 ≡ some index)
    × (get_elem? table.drops index ≡ some dropped)
    × (table.keep ≡ length (if is_loop op_loop then i32 ∷ [] else []))
    × (drop (table.keep + dropped) u.type_stack ≡ rest)
br_table-operands_example =
    br_table-operands op_loop repeat 2 (0 ∷ 1 ∷ 0 ∷ []) unused (state (i32 ∷ i64 ∷ []) [] 2)
      (state (i32 ∷ i64 ∷ []) (frame ∷ []) 2) (state (i32 ∷ i32 ∷ i64 ∷ []) (frame ∷ []) 3) result 2
      0 before-IsNested begins body refl refl (omega arith) unused-IsStamped refl (omega arith)
      jumps
