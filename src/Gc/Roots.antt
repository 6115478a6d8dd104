-- ===== src/Gc/Roots.antt =====
-- The references that a context holds (`wah_gc_enumerate_roots`). Addresses are in bytes, and `read` is
-- the reference in the value at an address; a null pointer is 0.
pub mod Locals
use wah.Base.{
  ℕ, zero, suc, ◌+◌, ◌-◌, ◌*◌, ◌/◌, Bool, true, false, not, ◌&&◌, ◌||◌, ltb, ◌==◌, if◌then◌else◌,
  List, [], ◌∷◌, ◌++◌, Option, none, some, length, get_elem?,
}
use wah.Types.{WahType, is_ref}
use wah.Sections.{LocalRun}
use wah.Gc.{sizeof_gc_object}
use wah.Pins.{PinTable, PinSlot}
use wah.Lifecycle.State.{
  ExecState, ready, running, suspended, finished, trapped, Function, ExecLifecycle, sizeof_value,
  is_finished, is_running, is_suspended, entry_types,
}

-- `wah_ref_node_t`
pub record RefNode : Type 0 where
  pub parent : ℕ
  pub pos : ℕ

-- The part of `wah_code_body_t` that is read here.
pub record CodeBody : Type 0 where
  pub local_runs : List LocalRun
  pub local_count : ℕ
  pub poll_ref_tops : List ℕ
  pub ref_nodes : List RefNode

-- `wah_call_frame_t`, with the types of the function's parameters.
pub record CallFrame : Type 0 where
  pub code : Option CodeBody
  pub param_types : List WahType
  pub locals : ℕ
  pub poll_idx : ℕ

-- A global of a module; `is_indirect` is whether it is imported and mutable.
pub record GlobalVar : Type 0 where
  pub type : WahType
  pub is_indirect : Bool

pub record TableInst : Type 0 where
  pub is_imported : Bool
  pub elem_type : WahType
  pub entries : ℕ
  pub size : ℕ

-- `wah_linked_module_t`, with the tables of its context.
pub record LinkedModule : Type 0 where
  pub globals : List GlobalVar
  pub has_ctx : Bool
  pub owns_ctx : Bool
  pub tables : List TableInst

-- The part of `wah_exec_context_t` that is read here. The frames are those of `WAH_FRAME` from depth 0
-- on, and `host_call` is what the heap notes of a host function that its owner, this context, calls.
pub record RootContext : Type 0 where
  pub lifecycle : ExecLifecycle
  pub sp : ℕ
  pub frames : List CallFrame
  pub host_call : Option (Function × ℕ)
  pub globals : ℕ
  pub module_globals : List GlobalVar
  pub linked : List LinkedModule
  pub pins : Option PinTable
  pub tables : List TableInst
  pub pending_exception : ℕ
  pub read : ℕ → ℕ

-- The values from an address on whose types are references.
unfoldable pub typed_roots : (ℕ → ℕ) → ℕ → List WahType → List ℕ
typed_roots read base [] = []
typed_roots read base (t ∷ ts) =
    let rest = typed_roots read (base + sizeof_value) ts in
    if is_ref t then read base ∷ rest else rest

-- The values from an address on, `n` of them.
unfoldable pub value_roots : (ℕ → ℕ) → ℕ → ℕ → List ℕ
value_roots read base zero = []
value_roots read base (suc n) = read base ∷ value_roots read (base + sizeof_value) n

-- The declared locals, run by run; `start` is where the run starts.
unfoldable pub run_roots : (ℕ → ℕ) → ℕ → ℕ → List LocalRun → List ℕ
unfolding value_roots
run_roots read base start [] = []
run_roots read base start (r ∷ rs) =
    let rest = run_roots read base r.end rs in
    if is_ref r.type
    then value_roots read (base + start * sizeof_value) (r.end - start) ++ rest
    else rest

-- The operands of a ref map, from the node `n` - 1 on, on fuel.
unfoldable pub node_roots : (ℕ → ℕ) → ℕ → ℕ → List RefNode → ℕ → ℕ → List ℕ
node_roots read base depth nodes zero n = []
node_roots read base depth nodes (suc fuel) n =
    if n == 0 then [] else elim (get_elem? nodes (n - 1)) [
      | none ↦ []
      | some node ↦
          let rest = node_roots read base depth nodes fuel node.parent in
          if ltb node.pos depth then read (base + node.pos * sizeof_value) ∷ rest else rest
    ]

abbrev pub operands : CallFrame → CodeBody → ℕ
operands f code = f.locals + length f.param_types * sizeof_value + code.local_count * sizeof_value

-- The operands of the frame below `next_base`, by the ref map of its poll. A node's parent is before it,
-- so that fuel for all nodes is enough.
unfoldable pub operand_roots : (ℕ → ℕ) → ℕ → CallFrame → CodeBody → List ℕ
unfolding node_roots
operand_roots read next_base f code = elim (get_elem? code.poll_ref_tops f.poll_idx) [
  | none ↦ []
  | some top ↦
      node_roots read (operands f code) ((next_base - operands f code) / sizeof_value)
        code.ref_nodes (length code.ref_nodes) top
]

unfoldable pub frame_roots : (ℕ → ℕ) → ℕ → CallFrame → List ℕ
unfolding typed_roots run_roots operand_roots
frame_roots read next_base f = elim f.code [
  | none ↦ []
  | some code ↦
      typed_roots read f.locals f.param_types
      ++ (run_roots read (f.locals + length f.param_types * sizeof_value) 0 code.local_runs
          ++ operand_roots read next_base f code)
]

abbrev pub next_frame_base : ℕ → List CallFrame → ℕ
next_frame_base sp [] = sp
next_frame_base sp (f ∷ fs) = f.locals

-- The first `live` frames.
unfoldable pub frames_roots : (ℕ → ℕ) → ℕ → ℕ → List CallFrame → List ℕ
unfolding frame_roots
frames_roots read sp zero fs = []
frames_roots read sp (suc live) [] = []
frames_roots read sp (suc live) (f ∷ fs) =
    frame_roots read (next_frame_base sp fs) f ++ frames_roots read sp live fs

abbrev pub entry_roots : (ℕ → ℕ) → ExecLifecycle → Option Function → List ℕ
entry_roots read l none = []
entry_roots read l (some fn) =
    if fn.is_host && (is_suspended l.state || is_running l.state)
    then typed_roots read l.base_sp fn.param_types
      ++ typed_roots read (l.base_sp + length fn.param_types * sizeof_value) fn.result_types
    else []

abbrev pub host_call_roots : (ℕ → ℕ) → Option (Function × ℕ) → List ℕ
host_call_roots read none = []
host_call_roots read (some (fn, results)) = typed_roots read results fn.result_types

abbrev pub finished_roots : (ℕ → ℕ) → ℕ → ExecLifecycle → List ℕ
finished_roots read sp l =
    if is_finished l.state
    then typed_roots read (sp - l.entry_result_count * sizeof_value) (entry_types l.entry_fn)
    else []

-- `wah_gc_visit_module_globals`
unfoldable pub global_roots : (ℕ → ℕ) → ℕ → List GlobalVar → List ℕ
global_roots read at [] = []
global_roots read at (g ∷ gs) =
    let rest = global_roots read (at + sizeof_value) gs in
    if not (is_ref g.type)
    then rest
    else if g.is_indirect
    then (if read at == 0 then rest else read (read at) ∷ rest)
    else read at ∷ rest

unfoldable pub linked_roots : (ℕ → ℕ) → ℕ → List LinkedModule → List ℕ
unfolding global_roots
linked_roots read at [] = []
linked_roots read at (m ∷ ms) =
    let rest = linked_roots read (at + length m.globals * sizeof_value) ms in
    if not m.has_ctx || m.owns_ctx then global_roots read at m.globals ++ rest else rest

unfoldable pub slot_roots : List PinSlot → List ℕ
slot_roots [] = []
slot_roots (s ∷ ss) = let rest = slot_roots ss in if s.value == 0 then rest else s.value ∷ rest

-- `wah_gc_visit_pins`
abbrev pub pinned_roots : Option PinTable → List ℕ
pinned_roots none = []
pinned_roots (some t) = slot_roots t.slots

unfoldable pub table_roots : (ℕ → ℕ) → List TableInst → List ℕ
unfolding value_roots
table_roots read [] = []
table_roots read (t ∷ ts) =
    let rest = table_roots read ts in
    if not t.is_imported && is_ref t.elem_type
    then value_roots read t.entries t.size ++ rest
    else rest

unfoldable pub owned_table_roots : (ℕ → ℕ) → List LinkedModule → List ℕ
unfolding table_roots
owned_table_roots read [] = []
owned_table_roots read (m ∷ ms) =
    let rest = owned_table_roots read ms in
    if m.has_ctx && m.owns_ctx then table_roots read m.tables ++ rest else rest

abbrev pub exception_root : ℕ → List ℕ
exception_root exc = if exc == 0 then [] else (exc + sizeof_gc_object) ∷ []

abbrev pub live_depth : RootContext → ℕ
live_depth c = elim c.lifecycle.state [
  | trapped ↦ c.lifecycle.base_call_depth
  | ready ↦ length c.frames
  | running ↦ length c.frames
  | suspended ↦ length c.frames
  | finished ↦ length c.frames
]

-- `wah_gc_enumerate_roots`
unfoldable pub enumerate_roots : RootContext → List ℕ
unfolding typed_roots frames_roots global_roots linked_roots slot_roots table_roots
    owned_table_roots
enumerate_roots c =
    frames_roots c.read c.sp (live_depth c) c.frames
    ++ (entry_roots c.read c.lifecycle c.lifecycle.entry_fn
        ++ (host_call_roots c.read c.host_call
            ++ (finished_roots c.read c.sp c.lifecycle
                ++ (global_roots c.read c.globals c.module_globals
                    ++ (linked_roots c.read (c.globals + length c.module_globals * sizeof_value)
                          c.linked
                        ++ (pinned_roots c.pins
                            ++ (table_roots c.read c.tables
                                ++ (owned_table_roots c.read c.linked
                                    ++ exception_root c.pending_exception))))))))
