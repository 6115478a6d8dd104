-- ===== src/Validation/Tests.antt =====
-- A call at the beginning of a function, and a local initialized in a block.
use wah.Base.{ℕ, ◌≡◌, refl, false, [], ◌∷◌, List, none, length, arith}
use wah.Status.{ok}
use wah.Types.{FuncType, i32, i64, bot, WahType}
use wah.Validation.{
  Context, op_block, LocalInits, push_type, push_types, push_func_results, pop_func_params,
  pop_types, pop_type, mark_unreachable,
}
use wah.Validation.Stack.{Inv, SameStack, pop_func_params-push_func_results, mark_unreachable-lem}

abbrev producer : FuncType
producer = record { param_types = []; result_types = i32 ∷ i64 ∷ [] }

abbrev consumer : FuncType
consumer = record { param_types = i32 ∷ i64 ∷ []; result_types = [] }

abbrev with_operands : List WahType → ℕ → Context
with_operands ts n = record {
  type_stack = ts;
  lwm = 0;
  current_stack_depth = length ts;
  max_stack_depth = n;
  is_unreachable = false;
  control_stack =
      (record {
        opcode = op_block;
        type_stack_sp = 0;
        block_type = consumer;
        else_found = false;
        is_unreachable = false;
        stack_height = 0;
        local_init_undo_base = 0;
      })
      ∷ [];
  local_inits = none;
  func_type = consumer;
  module_ = record { type_defs = []; canonical_map = none };
}

with_operands-Inv : Inv (with_operands [] 0)
with_operands-Inv = record {
  in_step = refl;
  above_base = omega arith;
  seen = omega arith;
  bounded = omega arith;
}

results_pushed :
    push_func_results (with_operands [] 0) producer ≡ ok (with_operands (i64 ∷ i32 ∷ []) 2)
unfolding push_types push_type
results_pushed = refl

params_popped : pop_func_params (with_operands [] 0) producer ≡ ok (with_operands [] 0)
unfolding pop_types
params_popped = refl

pop_func_params-push_func_results_example :
    (w : Context) × (pop_func_params (with_operands (i64 ∷ i32 ∷ []) 2) consumer ≡ ok w)
    × SameStack (with_operands [] 0) w
pop_func_params-push_func_results_example =
    pop_func_params-push_func_results producer consumer (with_operands [] 0)
      (with_operands (i64 ∷ i32 ∷ []) 2) with_operands-Inv refl results_pushed

two_operands-Inv : Inv (with_operands (i64 ∷ i32 ∷ []) 2)
two_operands-Inv = record {
  in_step = refl;
  above_base = omega arith;
  seen = omega arith;
  bounded = omega arith;
}

mark_unreachable-lem_example :
    Inv (mark_unreachable (with_operands (i64 ∷ i32 ∷ []) 2))
    × ((mark_unreachable (with_operands (i64 ∷ i32 ∷ []) 2)).current_stack_depth ≡ 0)
    × (pop_type (mark_unreachable (with_operands (i64 ∷ i32 ∷ []) 2))
        ≡ ok (bot, mark_unreachable (with_operands (i64 ∷ i32 ∷ []) 2)))
mark_unreachable-lem_example =
    mark_unreachable-lem (with_operands (i64 ∷ i32 ∷ []) 2) two_operands-Inv

abbrev no_inits : LocalInits
no_inits = record { inits = false ∷ false ∷ []; undo = [] }
