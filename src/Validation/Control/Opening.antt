-- ===== src/Validation/Control/Opening.antt =====
-- The states in which a block is opened or closed.
use mathlib.Core.Path.{subst}
use wah.Base.{ℕ, ◌≤◌, ◌≡◌, sym, ap, ◌∙◌, Bool, false, List, [], ◌∷◌, arith, Bool-cases, inl, inr}
use wah.Status.{ok, ok-inj}
use wah.Types.{FuncType, i32}
use wah.Validation.{Context, Frame, Opcode, pop_types, block_base_height, height_of, undo_length}
use wah.Validation.Control.{test_condition, new_frame, opened, close_block, left, is_if}
use wah.Validation.Control.Moves.{
  Moves, Moves-refl, Steady, pop_types-Moves, push_types-Moves, pop_and_match_type-Moves,
}
use wah.Validation.Control.Nested.{
  Nested, IsNested, Nested-mono, Moves-IsNested, opened-Nested, Closed, close_block-Closed,
}
use wah.Validation.Control.Steps.{Entered, Ended}

pub IsNested-reach :
    (b : Bool) (v : Context) → IsNested v → IsNested (record v { is_unreachable = b })
IsNested-reach b v n = record {
  steady = record {
    in_step = n.steady.in_step;
    floor = n.steady.floor;
    seen = n.steady.seen;
    bounded = n.steady.bounded;
  };
  nested = n.nested;
}

-- What is nested, with the control stack written out.
abbrev pub Within : List Frame → Context → Type 0
Within fs v = Steady (height_of fs) v × Nested fs v.current_stack_depth (undo_length v.local_inits)

pub IsNested-Within :
    {fs : List Frame} {v : Context} → v.control_stack ≡ fs → IsNested v → Within fs v
IsNested-Within {fs} {v} c n = subst (λ s. Within s v) c (n.steady, n.nested)

pub Within-IsNested :
    {fs : List Frame} {v : Context} → v.control_stack ≡ fs → Within fs v → IsNested v
Within-IsNested {fs} {v} c n =
    let (s, k) = subst (λ s. Within s v) (sym c) n in record { steady = s; nested = k }

pub height_of-Nested : (fs : List Frame) (d u : ℕ) → Nested fs d u → height_of fs ≤ d
height_of-Nested [] d u n = omega arith
height_of-Nested (f ∷ fs) d u n = n.0

pub test_condition-Moves :
    (op : Opcode) (v w : Context)
    → Steady (block_base_height v) v
    → test_condition op v ≡ ok w
    → Moves (block_base_height v) v w
test_condition-Moves op v w s h = elim (Bool-cases (is_if op)) [
  | inl tests ↦ pop_and_match_type-Moves i32 v w s (rw tests at h)
  | inr passes ↦
      subst (Moves (block_base_height v) v) (ok-inj (rw passes at h))
        (Moves-refl (block_base_height v) v s)
]

-- The state in which a block's parameters are pushed.
pub Entered-opened :
    {op : Opcode} {bt : FuncType} {v w : Context}
    → (e : Entered op bt v w) → IsNested v
    → Moves (block_base_height v) v e.tested
      × Moves
          (block_base_height v)
          (record e.tested { control_stack = new_frame op bt e.tested ∷ e.tested.control_stack })
          e.popped
      × IsNested (opened (new_frame op bt e.tested) e.tested.control_stack e.popped)
Entered-opened {op} {bt} {v} {w} e n =
    let m = test_condition-Moves op v e.tested n.steady e.test in
    let base : block_base_height e.tested ≡ block_base_height v = ap height_of m.control in
    let t = Moves-IsNested n m in
    let inner : Context = record e.tested {
      control_stack = new_frame op bt e.tested ∷ e.tested.control_stack;
    } in
    let s : Steady (block_base_height e.tested) inner = record {
      in_step = t.steady.in_step;
      floor = t.steady.floor;
      seen = t.steady.seen;
      bounded = t.steady.bounded;
    } in
    let p = pop_types-Moves bt.param_types inner e.popped s e.pop in
    let (k, h) =
      opened-Nested (new_frame op bt e.tested) e.tested.control_stack e.popped
        (Nested-mono e.tested.control_stack e.tested.current_stack_depth
          e.popped.current_stack_depth (undo_length e.tested.local_inits)
          (undo_length e.popped.local_inits) t.nested p.floor
          (omega (arith, ap undo_length p.inits)))
        p.in_step in
    (
      m,
      subst (λ b. Moves b inner e.popped) base p,
      record {
        steady = record {
          in_step = p.in_step;
          floor = omega arith;
          seen = p.seen;
          bounded = p.bounded;
        };
        nested = k;
      },
    )

pub enters-IsNested :
    {op : Opcode} {bt : FuncType} {v w : Context} → Entered op bt v w → IsNested v → IsNested w
enters-IsNested {op} {bt} {v} {w} e n =
    let (_, _, o) = Entered-opened e n in
    let (p, _) =
      push_types-Moves e.popped.current_stack_depth bt.param_types
        (opened (new_frame op bt e.tested) e.tested.control_stack e.popped) e.pushed o.steady
        e.push in
    subst IsNested (sym e.result) (IsNested-reach false e.pushed (Moves-IsNested o p))

-- What an else or an end leaves of the state, behind its results.
pub closing :
    {f : Frame} {fs : List Frame} {v u : Context}
    → v.control_stack ≡ f ∷ fs
    → IsNested v
    → pop_types v f.block_type.result_types ≡ ok u
    → Moves f.stack_height v u
      × Closed f u (close_block f u)
      × Nested fs f.stack_height f.local_init_undo_base
closing {f} {fs} {v} {u} c n h =
    let m = pop_types-Moves f.block_type.result_types v u n.steady h in
    let (s, k) = IsNested-Within {v = u} (m.control ∙ c) (Moves-IsNested n m) in
    (subst (λ b. Moves b v u) (ap height_of c) m, close_block-Closed f fs u s k, k.3)

pub left-IsNested :
    {f : Frame} {fs : List Frame} {v w : Context}
    → v.control_stack ≡ f ∷ fs
    → IsNested v
    → (e : Ended f fs v w) → IsNested (left f fs (close_block f e.popped))
left-IsNested {f} {fs} {v} {w} c n e =
    let (m, d, k) = closing c n e.pop in
    let s = height_of-Nested fs f.stack_height f.local_init_undo_base k in
    record {
      steady = record {
        in_step = d.in_step;
        floor = omega (arith, s, d.depth);
        seen = d.seen;
        bounded = d.bounded;
      };
      nested =
          Nested-mono fs f.stack_height _ f.local_init_undo_base _ k (omega (arith, s, d.depth))
            (omega (arith, d.undo));
    }
