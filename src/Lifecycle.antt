-- ===== src/Lifecycle.antt =====
-- A context's activation from `wah_start` to `wah_finish` or `wah_cancel`. Addresses are in bytes: the
-- stack of values grows up and that of frames down. `Heap` is the collector's state, of any type. The timer
-- is left out, and so is what a refused list of parameters leaves above the stack pointer.
pub mod State
pub mod Balance
pub mod Calls
mod Tests
use wah.Base.{
  ℕ, zero, suc, ◌+◌, ◌-◌, ◌*◌, ◌%◌, ◌^◌, Bool, true, false, not, ◌&&◌, ◌||◌, ltb, leb, ◌==◌,
  if◌then◌else◌, List, [], ◌∷◌, ◌++◌, Option, none, some, length, min, take,
}
use wah.Base.Int.{◌==ℤ◌}
use wah.Status.{
  Result, ok, err, Error, fuel_exhausted, yielded, misuse, not_found, validation_failed,
  stack_overflow, out_of_memory,
}
use wah.Types.{WahType, is_ref, as_non_null, v128, i64, f64}
use wah.Polling.{Flags, recompute_poll_flag}
use wah.Pins.{PinTable, pin, unpin, load_host_params}
use wah.Lifecycle.State.{
  ready, running, suspended, finished, trapped, ExecState, Function, ExecLifecycle, Context,
  no_lifecycle, sizeof_value, sizeof_frame, store_values, zeros, is_ready, is_suspended, is_running,
  is_finished, is_stop, Outcome, unpin_results, stopped, value_size, entry_types, set_state,
  save_bases, restore_bases, restore_handlers, fn_module_of, start_host, start_pushed, set_stopped,
  host_returned, clear_stop, entry_module, finished_with,
}

-- What an activation relies on: the binding of a frame to another context (`wah_bind_frame_module`), the
-- subtyping of types of two modules, what runs, the objects of the host, the sweep of exceptions, and
-- whether the allocations of `wah_pin` succeed.
pub record Runtime (Heap : Type 0) : Type 0 where
  pub cross_module_subtype : ℕ → WahType → ℕ → WahType → Bool
  pub bind_frame : Function → Option Error
  pub run_interpreter : Context Heap → Outcome Heap
  pub call_host : Function → Context Heap → Outcome Heap
  pub is_host_object : Heap → ℕ → Bool
  pub sweep_exceptions : Context Heap → Heap
  pub malloc_ok : Bool
  pub realloc : ℕ → Bool

-- The calls that a host makes, on a context that is instantiated.
pub data Call : Type 0 where
  start_call : Option Function → List ℕ → Call
  resume_call cancel_call : Call
  finish_call : Option ℕ → Bool → Call

module _ {Heap : Type 0} (runtime : Runtime Heap) where
  open runtime use {
    cross_module_subtype, bind_frame, run_interpreter, call_host, is_host_object, sweep_exceptions,
    malloc_ok, realloc,
  }

  -- `wah_push_frame`
  unfoldable pub push_frame : Function → ℕ → Context Heap → Outcome Heap
  push_frame fn value_top c =
      if ltb (c.frame_ptr - sizeof_frame) value_top then (some stack_overflow, c) else (
        bind_frame fn,
        record c { frame_ptr = c.frame_ptr - sizeof_frame; call_depth = c.call_depth + 1 },
      )

  abbrev pub start_wasm : Function → ℕ → ℕ → Context Heap → Result (List ℕ) → Outcome Heap
  start_wasm fn param_count preflight_top c (err e) = (some e, c)
  start_wasm fn param_count preflight_top c (ok values) = start_pushed fn (
      push_frame fn preflight_top (record c {
        stack = store_values c.stack c.sp values;
        sp = c.sp + param_count * sizeof_value;
      }))

  abbrev pub load_params : Function → List ℕ → Context Heap → Result (List ℕ)
  load_params fn params c =
      load_host_params cross_module_subtype c.pins (fn_module_of c fn) fn.param_types params

  -- `wah_start_function_internal` behind the check of the state.
  unfoldable pub start_ready : Function → List ℕ → Context Heap → Outcome Heap
  unfolding push_frame
  start_ready fn params c =
      let param_count = length params in
      let c1 = save_bases c in
      if not (param_count == length fn.param_types)
      then (some validation_failed, c1)
      else if fn.is_host
      then (if ltb c1.frame_ptr (c1.sp + (param_count + length fn.result_types) * sizeof_value)
          then (some stack_overflow, c1)
          else start_host fn param_count c1 (load_params fn params c1))
      else (let c2 = record c1 {
        lifecycle = record c1.lifecycle {
          entry_result_count = length fn.result_types;
          entry_fn = some fn;
        };
      } in
          let preflight_top = c2.sp + (param_count + fn.max_frame_slots) * sizeof_value in
          if ltb (c2.frame_ptr - sizeof_frame) preflight_top
          then (some stack_overflow, c2)
          else start_wasm fn param_count preflight_top c2 (load_params fn params c2))

  abbrev pub start_at : Option Function → List ℕ → Context Heap → Outcome Heap
  start_at none params c = (some not_found, c)
  start_at (some fn) params c = start_ready fn params c

  -- `wah_start_internal`
  unfoldable pub start_internal : Option Function → List ℕ → Context Heap → Outcome Heap
  unfolding start_ready
  start_internal fn params c =
      if is_ready c.lifecycle.state then start_at fn params c else (some misuse, c)

  abbrev pub run_entry : Option Function → Context Heap → Outcome Heap
  run_entry none c = run_interpreter c
  run_entry (some fn) c = if fn.is_host then host_returned (call_host fn c) else run_interpreter c

  -- `wah_resume_internal`
  unfoldable pub resume_internal : Context Heap → Outcome Heap
  resume_internal c =
      if is_suspended c.lifecycle.state
      then set_stopped (run_entry c.lifecycle.entry_fn (set_state running c))
      else (some misuse, c)

  abbrev pub sweep : Context Heap → Context Heap
  sweep c = record c { heap = sweep_exceptions c }

  unfoldable pub cancel_internal : Context Heap → Context Heap
  cancel_internal c =
      let c1 = clear_stop c in
      if is_ready c1.lifecycle.state then sweep c1 else sweep (restore_bases (restore_handlers c1))

  -- `wah_cancel`
  unfoldable pub cancel : Context Heap → Context Heap
  unfolding cancel_internal
  cancel c = if c.poisoned || is_running c.lifecycle.state then c else cancel_internal c

  -- `wah_sanitize_host_ref`
  abbrev pub sanitize_host_ref : Heap → ℕ → ℕ
  sanitize_host_ref heap ref =
      if not (ref == 0) && (ref % 2 == 1 || not (is_host_object heap ref)) then 2 ^ 64 - 1 else ref

  -- Results are pinned, or sanitized; the values copied so far come last first.
  unfoldable pub copy_results :
      Bool
      → Heap
      → ℕ
      → (ℕ → ℕ)
      → ℕ
      → List WahType
      → List (WahType × ℕ)
      → Option PinTable
      → Option Error × List (WahType × ℕ) × Option PinTable
  copy_results pinning heap result_module stack src [] done pins = (none, done, pins)
  copy_results pinning heap result_module stack src (t ∷ ts) done pins =
      let value = stack src % 2 ^ (8 * value_size t) in
      let next = copy_results pinning heap result_module stack (src + sizeof_value) ts in
      if not (is_ref t && not (value == 0))
      then next ((t, value) ∷ done) pins
      else if pinning
      then elim (pin malloc_ok realloc value result_module (as_non_null t) pins).0 [
        | err e ↦ (
          some e,
          done,
          unpin_results done (pin malloc_ok realloc value result_module (as_non_null t) pins).1,
        )
        | ok ref ↦
            next ((t, ref) ∷ done)
              (pin malloc_ok realloc value result_module (as_non_null t) pins).1
      ]
      else next ((t, sanitize_host_ref heap value) ∷ done) pins

  abbrev pub copied : Context Heap → ℕ → Bool → Option Error × List (WahType × ℕ) × Option PinTable
  copied c max_result_count pinning =
      let result_count = c.lifecycle.entry_result_count in
      if result_count == 0 && ltb 0 max_result_count
      then (none, (v128, 0) ∷ [], c.pins)
      else if ltb 0 (min result_count max_result_count)
          && leb (c.lifecycle.base_sp + result_count * sizeof_value) c.sp
      then copy_results pinning c.heap (entry_module c c.lifecycle.entry_fn) c.stack
          (c.sp - result_count * sizeof_value)
          (take (min result_count max_result_count) (entry_types c.lifecycle.entry_fn)) [] c.pins
      else (none, [], c.pins)

  -- `wah_finish_internal`: the results that are stored, last first, and the outcome. A result that is
  -- not asked for (`results` is NULL) has `none`.
  unfoldable pub finish_internal :
      Option ℕ → Bool → Context Heap → Outcome Heap × List (WahType × ℕ)
  unfolding copy_results
  finish_internal max_result_count pinning c =
      if is_finished c.lifecycle.state
      then finished_with c
          (elim max_result_count [ none ↦ (none, [], c.pins) | some n ↦ copied c n pinning ])
      else ((some misuse, c), [])

  abbrev pub finish_or_cancel : Option ℕ → Bool → Outcome Heap → Outcome Heap × List (WahType × ℕ)
  finish_or_cancel results pinning (none, c) = finish_internal results pinning c
  finish_or_cancel results pinning (some e, c) = ((some e, cancel_internal c), [])

  abbrev pub resume_started : Option ℕ → Bool → Outcome Heap → Outcome Heap × List (WahType × ℕ)
  resume_started results pinning (some e, c) = ((some e, c), [])
  resume_started results pinning (none, c) = finish_or_cancel results pinning (resume_internal c)

  -- `wah_call_module_multi`
  unfoldable pub call_module_multi :
      Option Function → List ℕ → Option ℕ → Bool → Context Heap → Outcome Heap × List (WahType × ℕ)
  unfolding start_internal resume_internal finish_internal cancel_internal
  call_module_multi fn params results pinning c =
      resume_started results pinning (start_internal fn params c)

  -- `wah_start`, `wah_resume`, `wah_finish` with `wah_finish_pin`, and `wah_cancel`
  unfoldable pub host_call : Call → Context Heap → Outcome Heap
  unfolding start_internal resume_internal finish_internal cancel
  host_call call c = elim call [
    | start_call fn params ↦ if c.poisoned then (some misuse, c) else start_internal fn params c
    | resume_call ↦ if c.poisoned then (some misuse, c) else resume_internal c
    | finish_call results pinning ↦
        if c.poisoned then (some misuse, c) else (finish_internal results pinning c).0
    | cancel_call ↦ (none, cancel c)
  ]

  unfoldable pub host_calls : List Call → Context Heap → Context Heap
  unfolding host_call
  host_calls [] c = c
  host_calls (call ∷ calls) c = host_calls calls (host_call call c).1
