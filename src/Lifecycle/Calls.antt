-- ===== src/Lifecycle/Calls.antt =====
-- Sequences of calls of the host (`wah_start`, `wah_resume`, `wah_finish`, `wah_cancel`).
use wah.Base.{
  ℕ, Bool, true, false, List, [], ◌∷◌, ◌≡◌, ◌⊎◌, inl, inr, refl, ap, ◌∙◌, ◌||◌, Option, none, some,
  arith, Bool-cases, if_rule,
}
use wah.Status.{Error}
use wah.Types.{WahType}
use wah.Lifecycle.State.{
  Context, ExecState, ready, suspended, finished, Function, Outcome, is_ready, is_suspended,
  is_running, is_finished, stopped,
}
use wah.Lifecycle.{
  Runtime, Call, start_call, resume_call, finish_call, cancel_call, host_call, host_calls,
  start_internal, resume_internal, finish_internal, cancel, cancel_internal,
}
use wah.Lifecycle.Balance.{
  IsBalanced, IsActive, KeepsLifecycle, StartOutcome, Stopped, unchanged, start_internal-outcome,
  resume_internal-Stopped, finish_internal-IsBalanced, cancel_internal-IsBalanced,
}

module _ {Heap : Type 0} (rt : Runtime Heap) (k : KeepsLifecycle rt) (c0 : Context Heap) where
  -- Between calls, the context is ready with the stack as in `c0`, or has an activation that knows it.
  abbrev Kept : Context Heap → Type 0
  Kept c =
      IsBalanced c0 c
      ⊎ (IsActive c0 c.lifecycle
          × (is_ready c.lifecycle.state ≡ false)
          × (is_running c.lifecycle.state ≡ false))

  ready_again : {c c' : Context Heap} → IsBalanced c0 c → IsBalanced c c' → IsBalanced c0 c'
  ready_again b d = record {
    state = d.state;
    sp = d.sp ∙ b.sp;
    call_depth = d.call_depth ∙ b.call_depth;
    frame_ptr = d.frame_ptr ∙ b.frame_ptr;
    handlers = d.handlers ∙ b.handlers;
  }

  started : {c : Context Heap} (o : Outcome Heap) → IsBalanced c0 c → StartOutcome c o → Kept o.1
  started (some e, c') b s = inl (ready_again b s)
  started (none, c') b s = inr (
    record {
      base_sp = s.0.base_sp ∙ b.sp;
      base_call_depth = s.0.base_call_depth ∙ b.call_depth;
      base_frame_ptr = s.0.base_frame_ptr ∙ b.frame_ptr;
      base_handlers = s.0.base_handlers ∙ b.handlers;
    },
    ap is_ready s.1,
    ap is_running s.1,
  )

  stopped-rests :
      (e : Option Error) → (is_ready (stopped e) ≡ false) × (is_running (stopped e) ≡ false)
  stopped-rests none = (refl, refl)
  stopped-rests (some e) = (ground arith, ground arith)

  start-Kept :
      (fn : Option Function) (params : List ℕ) (c : Context Heap)
      → Kept c
      → Kept (start_internal rt fn params c).1
  unfolding start_internal
  start-Kept fn params c (inl b) =
      started (start_internal rt fn params c) b (start_internal-outcome rt fn params c b.state)
  start-Kept fn params c (inr a) =
      if_rule (λ (o : Outcome Heap). Kept o.1) (is_ready c.lifecycle.state) (λ yes. cc) (λ _. inr a)

  suspended_state : (s : ExecState) → is_suspended s ≡ true → s ≡ suspended
  suspended_state s h = ground arith

  finished_state : (s : ExecState) → is_finished s ≡ true → s ≡ finished
  finished_state s h = ground arith

  resumed : (o : Outcome Heap) → Stopped rt c0 o → Kept o.1
  resumed (e, c) s =
      let rests = stopped-rests e in
      inr (s.0, ap is_ready s.1 ∙ rests.0, ap is_running s.1 ∙ rests.1)

  resume-Kept : (c : Context Heap) → Kept c → Kept (resume_internal rt c).1
  unfolding resume_internal
  resume-Kept c (inl b) =
      if_rule (λ (o : Outcome Heap). Kept o.1) (is_suspended c.lifecycle.state)
        (λ yes. cc (ap is_suspended b.state)) (λ _. inl b)
  resume-Kept c (inr a) = elim (Bool-cases (is_suspended c.lifecycle.state)) [
    | inl held ↦
        resumed (resume_internal rt c)
          (resume_internal-Stopped rt k c0 c a.0 (suspended_state c.lifecycle.state held))
    | inr other ↦
        if_rule (λ (o : Outcome Heap). Kept o.1) (is_suspended c.lifecycle.state) (λ yes. cc)
          (λ _. inr a)
  ]

  finish-Kept :
      (results : Option ℕ) (pinning : Bool) (c : Context Heap)
      → Kept c
      → Kept (finish_internal rt results pinning c).0.1
  unfolding finish_internal
  finish-Kept results pinning c (inl b) =
      if_rule (λ (o : Outcome Heap × List (WahType × ℕ)). Kept o.0.1)
        (is_finished c.lifecycle.state) (λ yes. cc (ap is_finished b.state)) (λ _. inl b)
  finish-Kept results pinning c (inr a) = elim (Bool-cases (is_finished c.lifecycle.state)) [
    | inl held ↦ inl (
        finish_internal-IsBalanced rt c0 c results pinning a.0
          (finished_state c.lifecycle.state held))
    | inr other ↦
        if_rule (λ (o : Outcome Heap × List (WahType × ℕ)). Kept o.0.1)
          (is_finished c.lifecycle.state) (λ yes. cc) (λ _. inr a)
  ]

  cancel_ready : (c : Context Heap) → IsBalanced c0 c → IsBalanced c0 (cancel_internal rt c)
  unfolding cancel_internal
  cancel_ready c b =
      if_rule (IsBalanced c0) (is_ready c.lifecycle.state)
        (λ _. record {
          state = b.state;
          sp = b.sp;
          call_depth = b.call_depth;
          frame_ptr = b.frame_ptr;
          handlers = b.handlers;
        })
        (λ no. cc (ap is_ready b.state))

  -- A cancelled context is ready, unless it is poisoned.
  cancelled : (c : Context Heap) → Kept c → c.poisoned ≡ false → IsBalanced c0 (cancel rt c)
  unfolding cancel
  cancelled c (inl b) p =
      if_rule (IsBalanced c0) (c.poisoned || is_running c.lifecycle.state)
        (λ yes. cc (ap is_running b.state, p)) (λ _. cancel_ready c b)
  cancelled c (inr a) p =
      if_rule (IsBalanced c0) (c.poisoned || is_running c.lifecycle.state) (λ yes. cc (a.2, p))
        (λ _. cancel_internal-IsBalanced rt c0 c a.0 a.1)

  poisoned-Kept : (c : Context Heap) → Kept c → c.poisoned ≡ true → Kept (cancel rt c)
  unfolding cancel
  poisoned-Kept c h p =
      if_rule Kept (c.poisoned || is_running c.lifecycle.state) (λ _. h) (λ no. cc)

  Kept-ready : (c : Context Heap) → Kept c → c.lifecycle.state ≡ ready → IsBalanced c0 c
  Kept-ready c (inl b) h = b
  Kept-ready c (inr a) h = cc (ap is_ready h, a.1)

  cancel-Kept : (c : Context Heap) → Kept c → Kept (cancel rt c)
  cancel-Kept c h = elim (Bool-cases c.poisoned) [
    | inr p ↦ inl (cancelled c h p)
    | inl p ↦ poisoned-Kept c h p
  ]

  host_call-Kept : (call : Call) (c : Context Heap) → Kept c → Kept (host_call rt call c).1
  unfolding host_call
  host_call-Kept (start_call fn params) c h =
      if_rule (λ (o : Outcome Heap). Kept o.1) c.poisoned (λ _. h) (λ _. start-Kept fn params c h)
  host_call-Kept resume_call c h =
      if_rule (λ (o : Outcome Heap). Kept o.1) c.poisoned (λ _. h) (λ _. resume-Kept c h)
  host_call-Kept (finish_call results pinning) c h =
      if_rule (λ (o : Outcome Heap). Kept o.1) c.poisoned (λ _. h)
        (λ _. finish-Kept results pinning c h)
  host_call-Kept cancel_call c h = cancel-Kept c h

  host_calls-Kept : (calls : List Call) (c : Context Heap) → Kept c → Kept (host_calls rt calls c)
  unfolding host_calls
  host_calls-Kept [] c h = h
  host_calls-Kept (call ∷ calls) c h =
      host_calls-Kept calls (host_call rt call c).1 (host_call-Kept call c h)

module _ {Heap : Type 0} (rt : Runtime Heap) where
  -- From a ready context, whatever sequence of calls to start, resume, finish and cancel the host makes,
  -- if the context is not poisoned, cancelling it then makes it ready, with the stack pointer, the
  -- frames and the exception handlers as at the beginning. What runs must leave the record of the
  -- activation alone.
  pub host_calls-cancel :
      KeepsLifecycle rt
      → (calls : List Call) (c : Context Heap) → c.lifecycle.state ≡ ready
      → (host_calls rt calls c).poisoned ≡ false
      → IsBalanced c (cancel rt (host_calls rt calls c))
  host_calls-cancel k calls c r p =
      cancelled rt k c (host_calls rt calls c)
        (host_calls-Kept rt k c calls c (inl (unchanged c c.lifecycle r))) p

  pub host_calls-IsBalanced :
      KeepsLifecycle rt
      → (calls : List Call) (c : Context Heap) → c.lifecycle.state ≡ ready
      → (host_calls rt calls c).lifecycle.state ≡ ready
      → IsBalanced c (host_calls rt calls c)
  host_calls-IsBalanced k calls c r h =
      Kept-ready rt k c (host_calls rt calls c)
        (host_calls-Kept rt k c calls c (inl (unchanged c c.lifecycle r))) h
