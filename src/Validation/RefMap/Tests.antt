-- ===== src/Validation/RefMap/Tests.antt =====
-- The ref maps of a function that pushes a reference and a number.
use wah.Base.{ℕ, ◌-◌, ◌/◌, ◌≡◌, refl, false, List, [], ◌∷◌, length, none, some, take, arith}
use wah.Status.{ok}
use wah.Types.{FuncType, WahType, i32, struct}
use wah.Lifecycle.State.{sizeof_value}
use wah.Gc.Roots.{CodeBody, CallFrame, typed_roots, operands, operand_roots}
use wah.Validation.{Context, push_type}
use wah.Validation.Control.Steps.{pushes}
use wah.Validation.RefMap.{RefMaps, no_maps, capture_ref_map, onto}
use wah.Validation.RefMap.Unchanged.{Unchanged}
use wah.Validation.RefMap.Lowering.{Step-Unchanged}
use wah.Validation.RefMap.Polls.{Analysis, begins, validates, captures, operand_roots-exact}

abbrev nothing : FuncType
nothing = record { param_types = []; result_types = [] }

abbrev stack : List WahType → ℕ → Context
stack ts lwm = record {
  type_stack = ts;
  lwm = lwm;
  current_stack_depth = length ts;
  max_stack_depth = 2;
  is_unreachable = false;
  control_stack = [];
  local_inits = none;
  func_type = nothing;
  module_ = record { type_defs = []; canonical_map = none };
}

abbrev first_maps : RefMaps
first_maps = record {
  captured_types = struct ∷ [];
  captured_tops = 0 ∷ 1 ∷ [];
  ref_nodes = (record { parent = 0; pos = 0 }) ∷ [];
  poll_ref_tops = 1 ∷ [];
}

abbrev second_maps : RefMaps
second_maps = record {
  captured_types = struct ∷ i32 ∷ [];
  captured_tops = 0 ∷ 1 ∷ 1 ∷ [];
  ref_nodes = (record { parent = 0; pos = 0 }) ∷ [];
  poll_ref_tops = 1 ∷ 1 ∷ [];
}

reference_pushed : push_type (stack [] 0) struct ≡ ok (stack (struct ∷ []) 0)
unfolding push_type
reference_pushed = refl

number_pushed : push_type (stack (struct ∷ []) 1) i32 ≡ ok (stack (i32 ∷ struct ∷ []) 1)
unfolding push_type
number_pushed = refl

first : capture_ref_map (stack (struct ∷ []) 0) no_maps ≡ (stack (struct ∷ []) 1, first_maps)
unfolding capture_ref_map
first = refl

second :
    capture_ref_map (stack (i32 ∷ struct ∷ []) 1) first_maps
    ≡ (stack (i32 ∷ struct ∷ []) 2, second_maps)
unfolding capture_ref_map
second = refl

analysis :
    Analysis (stack (i32 ∷ struct ∷ []) 2) second_maps ((struct ∷ []) ∷ (struct ∷ i32 ∷ []) ∷ [])
unfolding capture_ref_map
analysis = captures (
    validates
      (captures (validates (begins (stack [] 0) refl refl) (pushes struct reference_pushed)))
      (pushes i32 number_pushed))

abbrev code : CodeBody
code = record {
  local_runs = [];
  local_count = 0;
  poll_ref_tops = 1 ∷ 1 ∷ [];
  ref_nodes = (record { parent = 0; pos = 0 }) ∷ [];
}

abbrev frame : CallFrame
frame = record { code = some code; param_types = []; locals = 160; poll_idx = 1 }

operand_roots-exact_example :
    operand_roots (λ address. address) 192 frame code
    ≡ onto
        (typed_roots
          (λ address. address)
          (operands frame code)
          (take ((192 - operands frame code) / sizeof_value) (struct ∷ i32 ∷ [])))
        []
operand_roots-exact_example =
    operand_roots-exact analysis (struct ∷ i32 ∷ []) (λ address. address) 192 frame code refl refl
      refl

captured-Unchanged : Unchanged (struct ∷ []) (stack (struct ∷ []) 1)
captured-Unchanged = record { mark = omega arith; same = refl }

Step-Unchanged_example : Unchanged (struct ∷ []) (stack (i32 ∷ struct ∷ []) 1)
Step-Unchanged_example = Step-Unchanged (pushes i32 number_pushed) captured-Unchanged
