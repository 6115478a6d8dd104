-- ===== src/Validation/Control/Branches/Operands.antt =====
-- Operands of a branch to a block.
use mathlib.Core.Path.{subst}
use wah.Base.{
  get_elem?_middle, ℕ, suc, ◌+◌, ◌-◌, ◌≤◌, ◌≡◌, refl, sym, ap, ◌∙◌, Bool, true, false, leb, ◌||◌,
  if◌then◌else◌, List, ◌∷◌, length, length-append, drop, Option, some, get_elem?, arith,
}
use wah.Status.{ok, ok-inj, validation_failed}
use wah.Types.{WahType, FuncType, i32}
use wah.Validation.{Context, Frame, Opcode, LocalInits, block_base_height}
use wah.Validation.Control.{enter_block}
use wah.Validation.Control.Moves.{Moves, Moves-refl, Steady, pop_and_match_type-Moves, on_top}
use wah.Validation.Control.Nested.{IsNested}
use wah.Validation.Control.Steps.{ensure-ok, enter_block-Entered}
use wah.Validation.Control.Blocks.{Inside, Moves-Inside}
use wah.Validation.Control.Restores.{Run, enter_block-Inside, Run-Inside}
use wah.Validation.Control.Branches.{
  Target, Adjustment, adjustment, check_operands, condition, branch, resolve_br_target, label_types,
  is_loop, frame_target,
}
use wah.Validation.Control.Branches.Runs.{branch-Branched}

condition-Moves :
    (is_br_if : Bool) (v w : Context)
    → Steady (block_base_height v) v
    → condition is_br_if v ≡ ok w
    → Moves (block_base_height v) v w
condition-Moves false v w s h =
    subst (Moves (block_base_height v) v) (ok-inj h) (Moves-refl (block_base_height v) v s)
condition-Moves true v w s h = pop_and_match_type-Moves i32 v w s h

-- In reachable code, what is kept and what is dropped reach down to the height of the target.
adjustment-reach :
    (is_br_if : Bool) (v : Context) (t : Target)
    → v.is_unreachable ≡ false
    → check_operands is_br_if v t ≡ ok tt
    → ((adjustment v t).keep ≡ length t.types)
      × ((adjustment v t).keep + (adjustment v t).dropped ≡ v.current_stack_depth - t.stack_height)
      × (t.stack_height + length t.types ≤ v.current_stack_depth)
adjustment-reach is_br_if v t live h =
    let (fits, _) =
      ensure-ok (v.is_unreachable || leb (t.stack_height + length t.types) v.current_stack_depth)
        validation_failed _ h in
    let enough : t.stack_height + length t.types ≤ v.current_stack_depth =
      ground (arith, live, fits) in
    simp live (refl, omega (arith, enough), enough)

-- A branch to a block from the code in it.
module _ {f : Frame} {fs : List Frame} {ts : List WahType} {o : Option LocalInits} where
  -- The label that counts the blocks within a block stands for it.
  pub Inside-target :
      (label_idx : ℕ) (u : Context) (j : Inside f fs ts o u)
      → label_idx + suc (length fs) ≡ length u.control_stack
      → resolve_br_target u label_idx ≡ frame_target u (some (record f { else_found = j.divided }))
  Inside-target label_idx u j at =
      let f' : Frame = record f { else_found = j.divided } in
      let labels : label_idx ≡ length j.inner =
        omega (arith, at, ap length j.control, length-append j.inner (f' ∷ fs)) in
      ap (λ l. frame_target u (get_elem? u.control_stack l)) labels
      ∙ ap (λ c. frame_target u (get_elem? c (length j.inner))) j.control
      ∙ ap (frame_target u) (get_elem?_middle j.inner f' fs)

  branch-Inside :
      (is_br_if : Bool) (label_idx : ℕ) (x : Context) (r : Context × Adjustment)
      → IsNested x
      → Inside f fs ts o x
      → x.is_unreachable ≡ false
      → label_idx + suc (length fs) ≡ length x.control_stack
      → branch is_br_if label_idx x ≡ ok r
      → (u : Context) × (condition is_br_if x ≡ ok u)
        × (r.1.keep ≡ length (label_types f))
        × (r.1.keep + r.1.dropped ≤ length u.type_stack)
        × (drop (r.1.keep + r.1.dropped) u.type_stack ≡ ts)
  branch-Inside is_br_if label_idx x r n i live at h =
      let b = branch-Branched is_br_if label_idx x r h in
      let m = condition-Moves is_br_if x b.tested n.steady b.test in
      let j = Moves-Inside n m i in
      let f' : Frame = record f { else_found = j.divided } in
      let target : resolve_br_target b.tested label_idx ≡ frame_target b.tested (some f') =
        Inside-target label_idx b.tested j (omega (arith, at, ap length m.control)) in
      let (k, d, l) =
        adjustment-reach is_br_if b.tested (frame_target b.tested (some f')) (m.reach ∙ live)
          (subst (λ t. check_operands is_br_if b.tested t ≡ ok tt) target b.checked) in
      let a : r.1 ≡ adjustment b.tested (frame_target b.tested (some f')) =
        b.adjusted ∙ ap (adjustment b.tested) target in
      let down : r.1.keep + r.1.dropped ≡ length b.tested.type_stack - f.stack_height =
        ap (λ (q : Adjustment). q.keep + q.dropped) a
        ∙ d
        ∙ ap (λ q. q - f.stack_height) (sym m.in_step) in
      (
        b.tested,
        b.test,
        ap (λ (q : Adjustment). q.keep) a ∙ k,
        omega (arith, down),
        ap (λ q. drop q b.tested.type_stack) down ∙ j.operands,
      )

-- A branch in reachable code to a block, a loop or an if around it, behind any number of steps in it:
-- it keeps as many operands as its label takes, which are the parameters of a loop and the results of
-- another block; and what it keeps and drops of the operands, behind its condition, leaves the ones
-- that were below the parameters at the beginning of the block.
pub branch-operands :
    (op : Opcode) (bt : FuncType) (is_br_if : Bool) (label_idx : ℕ) (v w x : Context)
    (r : Context × Adjustment)
    → IsNested v
    → enter_block op bt v ≡ ok w
    → Run (length v.control_stack) w x
    → x.is_unreachable ≡ false
    → label_idx + suc (length v.control_stack) ≡ length x.control_stack
    → branch is_br_if label_idx x ≡ ok r
    → (rest : List WahType) × (u : Context) × (w.type_stack ≡ on_top bt.param_types rest)
      × (condition is_br_if x ≡ ok u)
      × (r.1.keep ≡ length (if is_loop op then bt.param_types else bt.result_types))
      × (r.1.keep + r.1.dropped ≤ length u.type_stack)
      × (drop (r.1.keep + r.1.dropped) u.type_stack ≡ rest)
branch-operands op bt is_br_if label_idx v w x r n h s live at b =
    let e = enter_block-Entered op bt v w h in
    let (i, begins, m) = enter_block-Inside e n in
    let (m', i') = Run-Inside s m i in
    let (u, c, k, l, d) = branch-Inside is_br_if label_idx x r m' i' live at b in
    (e.popped.type_stack, u, begins, c, k, l, d)
