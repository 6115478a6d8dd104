-- ===== src/Validation/Control/Restores.antt =====
-- A whole block of the validator, from its beginning to its end.
use mathlib.Core.Path.{subst}
use wah.Base.{
  ℕ, ◌<◌, ◌≡◌, sym, ap, ◌∙◌, false, List, [], ◌∷◌, ◌++◌, length, length-append, Option, arith,
}
use wah.Status.{ok}
use wah.Types.{WahType, FuncType}
use wah.Validation.{Context, Frame, Opcode, LocalInits, height_of, reverted}
use wah.Validation.Control.{enter_block, end_block, close_block, left, opened, begun, new_frame}
use wah.Validation.Control.Moves.{push_types-Moves, on_top, bottom, bottom_all}
use wah.Validation.Control.Nested.{IsNested, Moves-IsNested}
use wah.Validation.Control.Steps.{Step, Entered, enter_block-Entered, end_block-Ended}
use wah.Validation.Control.Opening.{Entered-opened, IsNested-reach, closing, left-IsNested}
use wah.Validation.Control.Invariant.{Step-IsNested}
use wah.Validation.Control.Blocks.{Inside, reverted-own_length}
use wah.Validation.Control.Within.{end_block-Same, Step-Inside}

-- Steps within a block: more than `n` blocks are open behind each.
pub data Run (n : ℕ) : Context → Context → Type 0 where
  start : {v : Context} → Run n v v
  next : {v w x : Context} → Run n v w → Step w x → n < length x.control_stack → Run n v x

-- A block that is entered begins with its parameters popped and pushed again.
pub enter_block-Inside :
    {op : Opcode} {bt : FuncType} {v w : Context}
    → (e : Entered op bt v w) → IsNested v
    → Inside
        (begun (new_frame op bt e.tested) e.popped)
        v.control_stack
        e.popped.type_stack
        v.local_inits
        w
      × (w.type_stack ≡ on_top bt.param_types e.popped.type_stack)
      × IsNested w
enter_block-Inside {op} {bt} {v} {w} e n =
    let (m, p, k) = Entered-opened e n in
    let at : Context = opened (new_frame op bt e.tested) e.tested.control_stack e.popped in
    let (x, all) =
      push_types-Moves e.popped.current_stack_depth bt.param_types at e.pushed k.steady e.push in
    let d : e.popped.current_stack_depth ≡ length e.popped.type_stack = sym p.in_step in
    let f : Frame = begun (new_frame op bt e.tested) e.popped in
    subst
      (λ y.
        Inside f v.control_stack e.popped.type_stack v.local_inits y
        × (y.type_stack ≡ on_top bt.param_types e.popped.type_stack)
        × IsNested y)
      (sym e.result)
      (
        record {
          inner = [];
          divided = false;
          control = x.control ∙ ap (λ l. f ∷ l) m.control;
          operands =
              x.below ∙ ap (λ i. bottom i e.popped.type_stack) d ∙ bottom_all e.popped.type_stack;
          inits =
              ap (reverted f.local_init_undo_base) x.inits
              ∙ reverted-own_length e.popped.local_inits
              ∙ p.inits
              ∙ m.inits;
        },
        all,
        IsNested-reach false e.pushed (Moves-IsNested k x),
      )

module _ {f : Frame} {fs : List Frame} {ts : List WahType} {o : Option LocalInits} where
  pub Run-Inside :
      {v w : Context}
      → Run (length fs) v w
      → IsNested v
      → Inside f fs ts o v
      → IsNested w × Inside f fs ts o w
  Run-Inside start n i = (n, i)
  Run-Inside (next r s within) n i =
      let (n', i') = Run-Inside r n i in (Step-IsNested s n', Step-Inside s within n' i')

  -- The end that closes the block.
  end_block-closes :
      (v w : Context)
      → end_block v ≡ ok w
      → length w.control_stack ≡ length fs
      → IsNested v
      → Inside f fs ts o v
      → (w.control_stack ≡ fs)
        × (w.type_stack ≡ on_top f.block_type.result_types ts)
        × (w.local_inits ≡ o)
        × (w.is_unreachable ≡ f.is_unreachable)
  end_block-closes v w r closed n i = go i.inner i.control
    where
      go :
          (inner : List Frame)
          → v.control_stack ≡ inner ++ (record f { else_found = i.divided }) ∷ fs
          → (w.control_stack ≡ fs)
            × (w.type_stack ≡ on_top f.block_type.result_types ts)
            × (w.local_inits ≡ o)
            × (w.is_unreachable ≡ f.is_unreachable)
      go (g ∷ gs) c =
          let (d, _) = end_block-Same 0 0 c (omega arith) (omega arith) n r in
          absurd (
            omega (
              arith,
              closed,
              ap length d,
              length-append gs ((record f { else_found = i.divided }) ∷ fs),
            ))
      go [] c =
          let f' : Frame = record f { else_found = i.divided } in
          let e = end_block-Ended f' fs v w c r in
          let (m, d, t) = closing c n e.pop in
          let s = left-IsNested c n e in
          let (x, all) =
            push_types-Moves (height_of fs) f.block_type.result_types
              (left f' fs (close_block f' e.popped)) w s.steady e.push in
          (
            x.control,
            all ∙ ap (on_top f.block_type.result_types) (d.types ∙ m.below ∙ i.operands),
            x.inits ∙ d.inits ∙ ap (reverted f.local_init_undo_base) m.inits ∙ i.inits,
            x.reach,
          )

-- A block, a loop or an if is entered, and ends behind any number of steps in it: operands popped and
-- pushed, unreachable code, locals initialized, an else, further blocks begun and ended. Then its end
-- leaves the results on the operands that were below the parameters at its beginning, and the open
-- blocks, the record of initialized locals and the reachability are those from before it.
pub block_restores :
    (op : Opcode) (bt : FuncType) (v w x y : Context)
    → IsNested v
    → enter_block op bt v ≡ ok w
    → Run (length v.control_stack) w x
    → end_block x ≡ ok y
    → length y.control_stack ≡ length v.control_stack
    → (rest : List WahType) × (w.type_stack ≡ on_top bt.param_types rest)
      × (y.type_stack ≡ on_top bt.result_types rest)
      × (y.control_stack ≡ v.control_stack)
      × (y.local_inits ≡ v.local_inits)
      × (y.is_unreachable ≡ v.is_unreachable)
block_restores op bt v w x y n h r k closed =
    let e = enter_block-Entered op bt v w h in
    let (i, begins, m) = enter_block-Inside e n in
    let (m', i') = Run-Inside r m i in
    let (c, result, l, u) = end_block-closes x y k closed m' i' in
    let (tested, _, _) = Entered-opened e n in
    (e.popped.type_stack, begins, result, c, l, u ∙ tested.reach)
