-- ===== src/Lifecycle/Balance.antt =====
-- The stack pointers behind `wah_call_module_multi` and the operations that it is made of.
use wah.Base.{
  ℕ, ◌+◌, ◌-◌, ◌*◌, Bool, false, not, ltb, ◌==◌, List, ◌≡◌, refl, ap, ◌∙◌, Option, none, some,
  length, arith, if_rule,
}
use wah.Status.{Result, ok, err, Error}
use wah.Lifecycle.State.{
  Context, ready, running, suspended, finished, Function, ExecLifecycle, Outcome, is_ready,
  is_suspended, set_state, save_bases, start_host, start_pushed, stopped, set_stopped, sizeof_value,
  sizeof_frame,
}
use wah.Lifecycle.{
  Runtime, start_wasm, load_params, push_frame, start_ready, start_internal, run_entry,
  resume_internal, cancel_internal, finish_internal, call_module_multi, finish_or_cancel,
  resume_started,
}

module _ {Heap : Type 0} where
  -- `c'` is ready, with the stack as in `c`.
  pub record IsBalanced (c c' : Context Heap) : Type 0 where
    pub state : c'.lifecycle.state ≡ ready
    pub sp : c'.sp ≡ c.sp
    pub call_depth : c'.call_depth ≡ c.call_depth
    pub frame_ptr : c'.frame_ptr ≡ c.frame_ptr
    pub handlers : c'.exception_handler_depth ≡ c.exception_handler_depth

  -- The lifecycle of an activation that was started in `c`.
  pub record IsActive (c : Context Heap) (l : ExecLifecycle) : Type 0 where
    pub base_sp : l.base_sp ≡ c.sp
    pub base_call_depth : l.base_call_depth ≡ c.call_depth
    pub base_frame_ptr : l.base_frame_ptr ≡ c.frame_ptr
    pub base_handlers : l.base_handler_depth ≡ c.exception_handler_depth

  abbrev pub StartOutcome : Context Heap → Outcome Heap → Type 0
  StartOutcome c (some e, c') = IsBalanced c c'
  StartOutcome c (none, c') = IsActive c c'.lifecycle × (c'.lifecycle.state ≡ suspended)

  pub unchanged :
      (c : Context Heap) (l : ExecLifecycle)
      → l.state ≡ ready
      → IsBalanced c (record c { lifecycle = l })
  unchanged c l h = record {
    state = h;
    sp = refl;
    call_depth = refl;
    frame_ptr = refl;
    handlers = refl;
  }

  start_host-outcome :
      (fn : Function) (n : ℕ) (c c1 : Context Heap) (r : Result (List ℕ))
      → IsBalanced c c1
      → IsActive c c1.lifecycle
      → StartOutcome c (start_host fn n c1 r)
  start_host-outcome fn n c c1 (err e) b a = b
  start_host-outcome fn n c c1 (ok values) b a = (
    record {
      base_sp = a.base_sp;
      base_call_depth = a.base_call_depth;
      base_frame_ptr = a.base_frame_ptr;
      base_handlers = a.base_handlers;
    },
    refl,
  )

  start_pushed-outcome :
      (fn : Function) (c : Context Heap) (o : Outcome Heap)
      → IsActive c o.1.lifecycle
      → o.1.exception_handler_depth ≡ c.exception_handler_depth
      → StartOutcome c (start_pushed fn o)
  start_pushed-outcome fn c (some e, c1) a h = record {
    state = refl;
    sp = a.base_sp;
    call_depth = a.base_call_depth;
    frame_ptr = a.base_frame_ptr;
    handlers = h;
  }
  start_pushed-outcome fn c (none, c1) a h = (
    record {
      base_sp = a.base_sp;
      base_call_depth = a.base_call_depth;
      base_frame_ptr = a.base_frame_ptr;
      base_handlers = a.base_handlers;
    },
    refl,
  )

  module _ (rt : Runtime Heap) where
    push_frame-lifecycle :
        (fn : Function) (top : ℕ) (c : Context Heap)
        → ((push_frame rt fn top c).1.lifecycle ≡ c.lifecycle)
          × ((push_frame rt fn top c).1.exception_handler_depth ≡ c.exception_handler_depth)
    unfolding push_frame
    push_frame-lifecycle fn top c = ground arith

    start_wasm-outcome :
        (fn : Function) (n top : ℕ) (c c1 : Context Heap) (r : Result (List ℕ))
        → IsBalanced c c1
        → IsActive c c1.lifecycle
        → StartOutcome c (start_wasm rt fn n top c1 r)
    start_wasm-outcome fn n top c c1 (err e) b a = b
    start_wasm-outcome fn n top c c1 (ok values) b a =
        let pushed = push_frame-lifecycle fn top _ in
        start_pushed-outcome fn c _ (rw pushed.0 a) (pushed.1 ∙ b.handlers)

    start_ready-outcome :
        (fn : Function) (params : List ℕ) (c : Context Heap)
        → c.lifecycle.state ≡ ready
        → StartOutcome c (start_ready rt fn params c)
    unfolding start_ready
    start_ready-outcome fn params c h =
        let n = length params in
        let c1 = save_bases c in
        let c2 = record c1 {
          lifecycle = record c1.lifecycle {
            entry_result_count = length fn.result_types;
            entry_fn = some fn;
          };
        } in
        let top = c.sp + (n + fn.max_frame_slots) * sizeof_value in
        let active : IsActive c c1.lifecycle = record {
          base_sp = refl;
          base_call_depth = refl;
          base_frame_ptr = refl;
          base_handlers = refl;
        } in
        let active' : IsActive c c2.lifecycle = record {
          base_sp = refl;
          base_call_depth = refl;
          base_frame_ptr = refl;
          base_handlers = refl;
        } in
        let P = StartOutcome c in
        if_rule P (not (n == length fn.param_types)) (λ _. unchanged c c1.lifecycle h)
          (λ _.
            if_rule P fn.is_host
              (λ _.
                if_rule P (ltb c.frame_ptr (c.sp + (n + length fn.result_types) * sizeof_value))
                  (λ _. unchanged c c1.lifecycle h)
                  (λ _.
                    start_host-outcome fn n c c1 (load_params rt fn params c1)
                      (unchanged c c1.lifecycle h) active))
              (λ _.
                if_rule P (ltb (c.frame_ptr - sizeof_frame) top) (λ _. unchanged c c2.lifecycle h)
                  (λ _.
                    start_wasm-outcome fn n top c c2 (load_params rt fn params c2)
                      (unchanged c c2.lifecycle h) active')))

    pub start_internal-outcome :
        (fn : Option Function) (params : List ℕ) (c : Context Heap)
        → c.lifecycle.state ≡ ready
        → StartOutcome c (start_internal rt fn params c)
    unfolding start_internal
    start_internal-outcome none params c h =
        if_rule (StartOutcome c) (is_ready c.lifecycle.state) (λ _. unchanged c c.lifecycle h)
          (λ _. unchanged c c.lifecycle h)
    start_internal-outcome (some fn) params c h =
        if_rule (StartOutcome c) (is_ready c.lifecycle.state)
          (λ _. start_ready-outcome fn params c h) (λ _. unchanged c c.lifecycle h)

    -- What runs leaves the lifecycle of the activation alone.
    pub record KeepsLifecycle : Type 0 where
      pub interpreter : (c : Context Heap) → (rt.run_interpreter c).1.lifecycle ≡ c.lifecycle
      pub host : (fn : Function) (c : Context Heap) → (rt.call_host fn c).1.lifecycle ≡ c.lifecycle

    run_entry-lifecycle :
        KeepsLifecycle
        → (fn : Option Function) (c : Context Heap) → (run_entry rt fn c).1.lifecycle ≡ c.lifecycle
    run_entry-lifecycle k none c = k.interpreter c
    run_entry-lifecycle k (some fn) c = ground (arith, k.interpreter c, k.host fn c)

    pub finish_internal-IsBalanced :
        (c0 c : Context Heap) (results : Option ℕ) (pinning : Bool)
        → IsActive c0 c.lifecycle
        → c.lifecycle.state ≡ finished
        → IsBalanced c0 (finish_internal rt results pinning c).0.1
    unfolding finish_internal
    finish_internal-IsBalanced c0 c results pinning a h = rw h (record {
      state = refl;
      sp = a.base_sp;
      call_depth = a.base_call_depth;
      frame_ptr = a.base_frame_ptr;
      handlers = a.base_handlers;
    })

    pub cancel_internal-IsBalanced :
        (c0 c : Context Heap)
        → IsActive c0 c.lifecycle
        → is_ready c.lifecycle.state ≡ false
        → IsBalanced c0 (cancel_internal rt c)
    unfolding cancel_internal
    cancel_internal-IsBalanced c0 c a h = rw h (record {
      state = refl;
      sp = a.base_sp;
      call_depth = a.base_call_depth;
      frame_ptr = a.base_frame_ptr;
      handlers = a.base_handlers;
    })

    -- What a resumed activation is left with.
    abbrev pub Stopped : Context Heap → Outcome Heap → Type 0
    Stopped c0 (e, c) = IsActive c0 c.lifecycle × (c.lifecycle.state ≡ stopped e)

    set_stopped-Stopped :
        (c0 : Context Heap) (o : Outcome Heap)
        → IsActive c0 o.1.lifecycle
        → Stopped c0 (set_stopped o)
    set_stopped-Stopped c0 (e, c) a = (
      record {
        base_sp = a.base_sp;
        base_call_depth = a.base_call_depth;
        base_frame_ptr = a.base_frame_ptr;
        base_handlers = a.base_handlers;
      },
      refl,
    )

    pub resume_internal-Stopped :
        KeepsLifecycle
        → (c0 c : Context Heap) → IsActive c0 c.lifecycle
        → c.lifecycle.state ≡ suspended
        → Stopped c0 (resume_internal rt c)
    unfolding resume_internal
    resume_internal-Stopped k c0 c a h =
        if_rule (Stopped c0) (is_suspended c.lifecycle.state)
          (λ _. set_stopped-Stopped c0 (run_entry rt c.lifecycle.entry_fn (set_state running c)) (
            rw (run_entry-lifecycle k c.lifecycle.entry_fn (set_state running c)) (record {
              base_sp = a.base_sp;
              base_call_depth = a.base_call_depth;
              base_frame_ptr = a.base_frame_ptr;
              base_handlers = a.base_handlers;
            })))
          (λ no. cc (ap is_suspended h))

    pub is_ready-stopped : (e : Error) → is_ready (stopped (some e)) ≡ false
    is_ready-stopped e = ground arith

    finish_or_cancel-IsBalanced :
        (c0 : Context Heap) (results : Option ℕ) (pinning : Bool) (o : Outcome Heap)
        → Stopped c0 o
        → IsBalanced c0 (finish_or_cancel rt results pinning o).0.1
    finish_or_cancel-IsBalanced c0 results pinning (none, c) s =
        finish_internal-IsBalanced c0 c results pinning s.0 s.1
    finish_or_cancel-IsBalanced c0 results pinning (some e, c) s =
        cancel_internal-IsBalanced c0 c s.0 (ap is_ready s.1 ∙ is_ready-stopped e)

    resume_started-IsBalanced :
        KeepsLifecycle
        → (c0 : Context Heap) (results : Option ℕ) (pinning : Bool) (o : Outcome Heap)
        → StartOutcome c0 o
        → IsBalanced c0 (resume_started rt results pinning o).0.1
    resume_started-IsBalanced k c0 results pinning (some e, c) s = s
    resume_started-IsBalanced k c0 results pinning (none, c) s =
        finish_or_cancel-IsBalanced c0 results pinning (resume_internal rt c)
          (resume_internal-Stopped k c0 c s.0 s.1)

    -- A call from the host in a ready context leaves it ready, with the stack pointer, the frames and the
    -- exception handlers as before, whether it is refused, fails to start, traps, is stopped or returns.
    -- What runs must leave the record of the activation alone.
    pub call_module_multi-IsBalanced :
        KeepsLifecycle
        → (fn : Option Function) (params : List ℕ) (results : Option ℕ) (pinning : Bool)
          (c : Context Heap)
        → c.lifecycle.state ≡ ready
        → IsBalanced c (call_module_multi rt fn params results pinning c).0.1
    unfolding call_module_multi
    call_module_multi-IsBalanced k fn params results pinning c h =
        resume_started-IsBalanced k c results pinning (start_internal rt fn params c)
          (start_internal-outcome fn params c h)
