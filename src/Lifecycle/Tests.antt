-- ===== src/Lifecycle/Tests.antt =====
-- A context with one function, started, stopped and cancelled.
use wah.Base.{ℕ, ◌+◌, true, false, List, [], ◌∷◌, ◌≡◌, refl, none, some}
use wah.Status.{fuel_exhausted}
use wah.Types.{i32}
use wah.Polling.{outside}
use wah.Pins.{load_host_params, load_host_param}
use wah.Lifecycle.State.{Context, suspended, Function, no_lifecycle}
use wah.Lifecycle.{
  Runtime, Call, start_call, resume_call, finish_call, host_call, host_calls, start_internal,
  resume_internal, cancel, call_module_multi, push_frame, start_ready,
}
use wah.Lifecycle.Balance.{IsBalanced, KeepsLifecycle, call_module_multi-IsBalanced}
use wah.Lifecycle.Calls.{host_calls-cancel}

-- The interpreter runs out of fuel after it has moved the stack pointer.
abbrev sample_runtime : Runtime ℕ
sample_runtime = record {
  cross_module_subtype = λ _ _ _ _. false;
  bind_frame = λ _. none;
  run_interpreter = λ c. (some fuel_exhausted, record c { sp = c.sp + 32 });
  call_host = λ _ c. (none, c);
  is_host_object = λ _ _. false;
  sweep_exceptions = λ c. c.heap;
  malloc_ok = true;
  realloc = λ _. true;
}

keeps_lifecycle : KeepsLifecycle sample_runtime
keeps_lifecycle = record { interpreter = λ _. refl; host = λ _ _. refl }

abbrev increment : Function
increment = record {
  is_host = false;
  fn_module = 0;
  param_types = i32 ∷ [];
  result_types = i32 ∷ [];
  max_frame_slots = 4;
  local_count = 1;
}

abbrev fresh_context : Context ℕ
fresh_context = record {
  lifecycle = no_lifecycle;
  sp = 160;
  call_depth = 0;
  frame_ptr = 4096;
  exception_handler_depth = 0;
  stack = λ _. 0;
  function_table = increment ∷ [];
  own_module = 1;
  pins = none;
  flags = record {
    interrupt_flag = false;
    poll_flag = false;
    gc_pending = false;
    runner = outside;
    pending = 0;
  };
  pending_exception = false;
  poisoned = false;
  heap = 0;
}

abbrev interrupted_calls : List Call
interrupted_calls =
    start_call (some increment) (41 ∷ []) ∷ resume_call ∷ finish_call (some 1) false ∷ []

-- The activation is suspended, its frame on the stack.
interrupted :
    ((host_calls sample_runtime interrupted_calls fresh_context).lifecycle.state ≡ suspended)
    × ((host_calls sample_runtime interrupted_calls fresh_context).sp ≡ 224)
unfolding host_calls host_call start_internal resume_internal start_ready push_frame
    load_host_params load_host_param
interrupted = (refl, refl)

not_poisoned : (host_calls sample_runtime interrupted_calls fresh_context).poisoned ≡ false
unfolding host_calls host_call start_internal resume_internal start_ready push_frame
    load_host_params load_host_param
not_poisoned = refl

host_calls-cancel_example :
    IsBalanced fresh_context
      (cancel sample_runtime (host_calls sample_runtime interrupted_calls fresh_context))
host_calls-cancel_example =
    host_calls-cancel sample_runtime keeps_lifecycle interrupted_calls fresh_context refl
      not_poisoned

call_module_multi-IsBalanced_example :
    IsBalanced fresh_context
      (call_module_multi sample_runtime (some increment) (41 ∷ []) (some 1) false fresh_context).0.1
call_module_multi-IsBalanced_example =
    call_module_multi-IsBalanced sample_runtime keeps_lifecycle (some increment) (41 ∷ []) (some 1)
      false fresh_context refl
