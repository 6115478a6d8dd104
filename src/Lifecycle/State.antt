-- ===== src/Lifecycle/State.antt =====
-- The state of an activation, and the parts of its operations that call nothing else.
use wah.Base.{
  ℕ, zero, suc, ◌+◌, ◌*◌, Bool, true, false, ◌||◌, ◌==◌, if◌then◌else◌, List, [], ◌∷◌, ◌++◌, Option,
  none, some, length,
}
use wah.Base.Int.{◌==ℤ◌}
use wah.Status.{Result, ok, err, Error, fuel_exhausted, yielded}
use wah.Types.{WahType, is_ref, v128, i64, f64}
use wah.Polling.{Flags, recompute_poll_flag}
use wah.Pins.{PinTable, unpin}

-- `wah_exec_state_t`
pub data ExecState : Type 0 where
  ready running suspended finished trapped : ExecState

-- `wah_function_t`, with the counts of its code where it is not a host function.
pub record Function : Type 0 where
  pub is_host : Bool
  pub fn_module : ℕ
  pub param_types : List WahType
  pub result_types : List WahType
  pub max_frame_slots : ℕ
  pub local_count : ℕ

-- `struct wah_exec_lifecycle_s`; `none` as a stop reason is WAH_OK.
pub record ExecLifecycle : Type 0 where
  pub state : ExecState
  pub stop_reason : Option Error
  pub entry_result_count : ℕ
  pub entry_param_count : ℕ
  pub entry_fn : Option Function
  pub base_sp : ℕ
  pub base_call_depth : ℕ
  pub base_handler_depth : ℕ
  pub base_frame_ptr : ℕ

-- The part of `wah_exec_context_t` that an activation uses; a value of the stack is a number of 128 bits.
pub record Context (Heap : Type 0) : Type 0 where
  pub lifecycle : ExecLifecycle
  pub sp : ℕ
  pub call_depth : ℕ
  pub frame_ptr : ℕ
  pub exception_handler_depth : ℕ
  pub stack : ℕ → ℕ
  pub function_table : List Function
  pub own_module : ℕ
  pub pins : Option PinTable
  pub flags : Flags
  pub pending_exception : Bool
  pub poisoned : Bool
  pub heap : Heap

abbrev pub no_lifecycle : ExecLifecycle
no_lifecycle = record {
  state = ready;
  stop_reason = none;
  entry_result_count = 0;
  entry_param_count = 0;
  entry_fn = none;
  base_sp = 0;
  base_call_depth = 0;
  base_handler_depth = 0;
  base_frame_ptr = 0;
}

abbrev pub sizeof_value : ℕ
sizeof_value = 16

abbrev pub sizeof_frame : ℕ
sizeof_frame = 80

-- Values written to the stack, from the address `dst` on.
abbrev pub store_values : (ℕ → ℕ) → ℕ → List ℕ → ℕ → ℕ
store_values stack dst [] = stack
store_values stack dst (v ∷ vs) =
    store_values (λ a. if a == dst then v else stack a) (dst + sizeof_value) vs

abbrev pub zeros : ℕ → List ℕ
zeros zero = []
zeros (suc n) = 0 ∷ zeros n

abbrev pub is_ready : ExecState → Bool
is_ready ready = true
is_ready _ = false

abbrev pub is_suspended : ExecState → Bool
is_suspended suspended = true
is_suspended _ = false

abbrev pub is_running : ExecState → Bool
is_running running = true
is_running _ = false

abbrev pub is_finished : ExecState → Bool
is_finished finished = true
is_finished _ = false

-- `err > 0`
abbrev pub is_stop : Error → Bool
is_stop fuel_exhausted = true
is_stop yielded = true
is_stop _ = false

-- An operation's error, or `none` for WAH_OK, and the context.
abbrev pub Outcome : Type 0 → Type 0
Outcome Heap = Option Error × Context Heap

-- Releases the results copied so far, the last one first.
unfoldable pub unpin_results : List (WahType × ℕ) → Option PinTable → Option PinTable
unpin_results [] pins = pins
unpin_results ((t, r) ∷ done) pins =
    unpin_results done (if is_ref t then (unpin r pins).1 else pins)

-- The state after what ran has stopped.
abbrev pub stopped : Option Error → ExecState
stopped none = finished
stopped (some e) = if is_stop e then suspended else trapped

-- The bytes of a value of a type.
abbrev pub value_size : WahType → ℕ
value_size t =
    if is_ref t then 8 else if t ==ℤ v128 then 16 else if t ==ℤ i64 || t ==ℤ f64 then 8 else 4

abbrev pub entry_types : Option Function → List WahType
entry_types none = []
entry_types (some fn) = fn.result_types

module _ {Heap : Type 0} where
  abbrev pub set_state : ExecState → Context Heap → Context Heap
  set_state s c = record c { lifecycle = record c.lifecycle { state = s } }

  abbrev pub save_bases : Context Heap → Context Heap
  save_bases c = record c {
    lifecycle = record c.lifecycle {
      base_sp = c.sp;
      base_call_depth = c.call_depth;
      base_frame_ptr = c.frame_ptr;
      base_handler_depth = c.exception_handler_depth;
    };
  }

  -- What `wah_finish`, `wah_cancel` and a failed start have in common.
  abbrev pub restore_bases : Context Heap → Context Heap
  restore_bases c = record c {
    sp = c.lifecycle.base_sp;
    call_depth = c.lifecycle.base_call_depth;
    frame_ptr = c.lifecycle.base_frame_ptr;
    lifecycle = no_lifecycle;
  }

  abbrev pub restore_handlers : Context Heap → Context Heap
  restore_handlers c = record c { exception_handler_depth = c.lifecycle.base_handler_depth }

  abbrev pub fn_module_of : Context Heap → Function → ℕ
  fn_module_of c fn = if fn.fn_module == 0 then c.own_module else fn.fn_module

  abbrev pub start_host : Function → ℕ → Context Heap → Result (List ℕ) → Outcome Heap
  start_host fn param_count c (err e) = (some e, c)
  start_host fn param_count c (ok values) = (
    none,
    record c {
      stack = store_values c.stack c.sp (values ++ zeros (length fn.result_types));
      sp = c.sp + (param_count + length fn.result_types) * sizeof_value;
      lifecycle = record c.lifecycle {
        entry_param_count = param_count;
        entry_result_count = length fn.result_types;
        entry_fn = some fn;
        state = suspended;
        stop_reason = none;
      };
    },
  )

  abbrev pub start_pushed : Function → Outcome Heap → Outcome Heap
  start_pushed fn (some e, c) = (some e, restore_bases c)
  start_pushed fn (none, c) = (
    none,
    record c {
      stack = store_values c.stack c.sp (zeros fn.local_count);
      sp = c.sp + fn.local_count * sizeof_value;
      lifecycle = record c.lifecycle { state = suspended; stop_reason = none };
    },
  )

  abbrev pub set_stopped : Outcome Heap → Outcome Heap
  set_stopped (e, c) =
      (e, record c { lifecycle = record c.lifecycle { state = stopped e; stop_reason = e } })

  -- A host function that returns leaves its results on top of the stack.
  abbrev pub host_returned : Outcome Heap → Outcome Heap
  host_returned (some e, c) = (some e, c)
  host_returned (none, c) = (
    none,
    record c {
      sp =
          c.lifecycle.base_sp
          + (c.lifecycle.entry_param_count + c.lifecycle.entry_result_count) * sizeof_value;
    },
  )

  -- `wah_cancel_internal`
  abbrev pub clear_stop : Context Heap → Context Heap
  clear_stop c = record c {
    flags = recompute_poll_flag (record c.flags { interrupt_flag = false });
    pending_exception = false;
  }

  abbrev pub entry_module : Context Heap → Option Function → ℕ
  entry_module c none = 0
  entry_module c (some fn) = if fn.is_host then fn.fn_module else fn_module_of c fn

  abbrev pub finished_with :
      Context Heap
      → Option Error × List (WahType × ℕ) × Option PinTable
      → Outcome Heap × List (WahType × ℕ)
  finished_with c (e, done, pins) =
      ((e, restore_bases (restore_handlers (record c { pins = pins }))), done)
