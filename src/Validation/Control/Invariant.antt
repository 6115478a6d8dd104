-- ===== src/Validation/Control/Invariant.antt =====
-- The stacks of the validator over all of its steps.
use mathlib.Core.Path.{subst}
use wah.Base.{ℕ, ◌≡◌, refl, sym, ap, ◌∙◌, List, ◌∷◌, arith, true, false, some, List-cases, inl, inr}
use wah.Status.{ok}
use wah.Types.{WahType}
use wah.Validation.{Context, Frame, LocalInits, block_base_height, undo_length, init_local}
use wah.Validation.Locals.{undo_grows}
use wah.Validation.Control.{else_block, end_block, close_block, left}
use wah.Validation.Control.Moves.{Moves, pop_type-Moves, push_types-Moves, push_type-Moves}
use wah.Validation.Control.Nested.{
  IsNested, Nested-mono, Moves-IsNested, mark_unreachable-Moves, Closed,
}
use wah.Validation.Control.Steps.{
  Step, pops, pushes, leaves, inits, enters, elses, ends, Elsed, enter_block-Entered,
  else_block-Elsed, end_block-Ended,
}
use wah.Validation.Control.Opening.{
  enters-IsNested, IsNested-reach, closing, left-IsNested, Within-IsNested, IsNested-Within,
}

-- The beginning of the second branch of an if.
pub elses-Closed :
    {f : Frame} {fs : List Frame} {v w : Context}
    → v.control_stack ≡ f ∷ fs
    → IsNested v
    → (e : Elsed f fs v w)
    → Moves f.stack_height
        (record v { control_stack = (record f { else_found = true }) ∷ fs })
        e.popped
      × Closed f e.popped (close_block f e.popped)
      × (e.popped.control_stack ≡ (record f { else_found = true }) ∷ fs)
      × IsNested (close_block f e.popped)
elses-Closed {f} {fs} {v} {w} c n e =
    let divided : Context = record v { control_stack = (record f { else_found = true }) ∷ fs } in
    let (s, k) = IsNested-Within c n in
    let n' : IsNested divided = record {
      steady = record { in_step = s.in_step; floor = s.floor; seen = s.seen; bounded = s.bounded };
      nested = k;
    } in
    let (m, d, q) =
      closing {f = record f { else_found = true }} {fs = fs} {v = divided} refl n' e.pop in
    let d' : Closed f e.popped (close_block f e.popped) = record {
      types = d.types;
      depth = d.depth;
      in_step = d.in_step;
      undo = d.undo;
      inits = d.inits;
      control = d.control;
      table = d.table;
      function = d.function;
      seen = d.seen;
      bounded = d.bounded;
    } in
    (
      m,
      d',
      m.control,
      Within-IsNested {v = close_block f e.popped} (d.control ∙ m.control) (
        record {
          in_step = d.in_step;
          floor = omega (arith, d.depth);
          seen = d.seen;
          bounded = d.bounded;
        },
        (omega (arith, d.depth), k.1, omega (arith, d.undo), q),
      ),
    )

elses-IsNested : (v w : Context) → else_block v ≡ ok w → IsNested v → IsNested w
unfolding else_block
elses-IsNested v w h n = elim (List-cases v.control_stack) [
  | inl empty ↦ cc (rw empty at h)
  | inr (f, fs, c) ↦
      let e = else_block-Elsed f fs v w c h in
      let (_, _, _, k) = elses-Closed c n e in
      let (m, _) =
        push_types-Moves (block_base_height (close_block f e.popped)) f.block_type.param_types
          (close_block f e.popped) e.pushed k.steady e.push in
      subst IsNested (sym e.result) (IsNested-reach false e.pushed (Moves-IsNested k m))
]

ends-IsNested : (v w : Context) → end_block v ≡ ok w → IsNested v → IsNested w
unfolding end_block
ends-IsNested v w h n = elim (List-cases v.control_stack) [
  | inl empty ↦ cc (rw empty at h)
  | inr (f, fs, c) ↦
      let e = end_block-Ended f fs v w c h in
      let k = left-IsNested c n e in
      let (m, _) =
        push_types-Moves (block_base_height (left f fs (close_block f e.popped)))
          f.block_type.result_types (left f fs (close_block f e.popped)) w k.steady e.push in
      Moves-IsNested k m
]

inits-IsNested :
    (li : LocalInits) (i : ℕ) (t : WahType) (v : Context)
    → v.local_inits ≡ some li
    → IsNested v
    → IsNested (record v { local_inits = some (init_local v.func_type li i t) })
inits-IsNested li i t v e n = record {
  steady = record {
    in_step = n.steady.in_step;
    floor = n.steady.floor;
    seen = n.steady.seen;
    bounded = n.steady.bounded;
  };
  nested =
      Nested-mono v.control_stack v.current_stack_depth v.current_stack_depth
        (undo_length v.local_inits) _ n.nested n.steady.floor
        (omega (arith, ap undo_length e, undo_grows v.func_type li i t));
}

-- Whatever operand is popped or pushed, wherever the reachable code is left, a local is initialized,
-- and a block begins, is divided by an else or ends: the operand stack stays in step with its depth,
-- at or above the height of the innermost block and within the limit, and each open block keeps
-- beginning at or above the operands and the undo list with which the block around it began.
pub Step-IsNested : {v w : Context} → Step v w → IsNested v → IsNested w
Step-IsNested {v} {w} (pops t h) n = Moves-IsNested n (pop_type-Moves t v w n.steady h)
Step-IsNested {v} {w} (pushes t h) n =
    Moves-IsNested n (push_type-Moves (block_base_height v) t v w n.steady h).0
Step-IsNested {v} leaves n =
    Moves-IsNested (IsNested-reach true v n) (mark_unreachable-Moves v n.steady)
Step-IsNested {v} (inits li i t e) n = inits-IsNested li i t v e n
Step-IsNested {v} {w} (enters op bt h) n = enters-IsNested (enter_block-Entered op bt v w h) n
Step-IsNested {v} {w} (elses h) n = elses-IsNested v w h n
Step-IsNested {v} {w} (ends h) n = ends-IsNested v w h n
