-- ===== src/Validation/Control/Within.antt =====
-- The steps of the validator within a block.
use mathlib.Core.Path.{subst}
use wah.Base.{ℕ, ◌≤◌, ◌<◌, ◌≡◌, sym, ap, ◌∙◌, true, List, [], ◌∷◌, ◌++◌, length, Option, arith}
use wah.Status.{ok}
use wah.Types.{WahType}
use wah.Validation.{Context, Frame, LocalInits, block_base_height, height_of, reverted}
use wah.Validation.Control.{else_block, end_block, close_block, left}
use wah.Validation.Control.Moves.{pop_type-Moves, push_type-Moves, push_types-Moves, bottom}
use wah.Validation.Control.Nested.{IsNested, mark_unreachable-Moves}
use wah.Validation.Control.Steps.{
  Step, pops, pushes, leaves, inits, enters, elses, ends, enter_block-Entered, else_block-Elsed,
  end_block-Ended,
}
use wah.Validation.Control.Opening.{
  IsNested-reach, closing, left-IsNested, IsNested-Within, height_of-Nested,
}
use wah.Validation.Control.Invariant.{elses-Closed}
use wah.Validation.Control.Blocks.{
  Inside, Moves-Inside, inits-Inside, enters-Inside, Closed-lower, below-Moves, Nested-++,
  height_of-++,
}

-- What is below a height, and what is left of the locals below a length of the undo list, is the same.
abbrev Same : ℕ → ℕ → Context → Context → Type 0
Same low undo_low v w =
    (bottom low w.type_stack ≡ bottom low v.type_stack)
    × (reverted undo_low w.local_inits ≡ reverted undo_low v.local_inits)

else_block-Same :
    (low undo_low : ℕ) {g : Frame} {gs : List Frame} {v w : Context}
    → v.control_stack ≡ g ∷ gs
    → low ≤ g.stack_height
    → undo_low ≤ g.local_init_undo_base
    → IsNested v
    → else_block v ≡ ok w
    → (w.control_stack ≡ (record g { else_found = true }) ∷ gs) × Same low undo_low v w
else_block-Same low undo_low {g} {gs} {v} {w} c h k n r =
    let e = else_block-Elsed g gs v w c r in
    let (m, d, t, i) = elses-Closed c n e in
    let (s, _) = IsNested-Within c n in
    let (o, l) = Closed-lower low undo_low h k (omega (arith, s.in_step, s.floor)) m d in
    let (x, _) =
      push_types-Moves g.stack_height g.block_type.param_types (close_block g e.popped) e.pushed
        (record {
          in_step = d.in_step;
          floor = omega (arith, d.depth);
          seen = d.seen;
          bounded = d.bounded;
        })
        e.push in
    let b = below-Moves low g.stack_height h (omega (arith, d.in_step, d.depth)) x in
    subst (λ y. (y.control_stack ≡ (record g { else_found = true }) ∷ gs) × Same low undo_low v y)
      (sym e.result) (x.control ∙ t, (b ∙ o, ap (reverted undo_low) x.inits ∙ l))

pub end_block-Same :
    (low undo_low : ℕ) {g : Frame} {gs : List Frame} {v w : Context}
    → v.control_stack ≡ g ∷ gs
    → low ≤ height_of gs
    → undo_low ≤ g.local_init_undo_base
    → IsNested v
    → end_block v ≡ ok w
    → (w.control_stack ≡ gs) × Same low undo_low v w
end_block-Same low undo_low {g} {gs} {v} {w} c h k n r =
    let e = end_block-Ended g gs v w c r in
    let (m, d, t) = closing c n e.pop in
    let (s, _) = IsNested-Within c n in
    let base = height_of-Nested gs g.stack_height g.local_init_undo_base t in
    let (o, l) =
      Closed-lower low undo_low (omega (arith, h, base)) k (omega (arith, s.in_step, s.floor)) m
        d in
    let (x, _) =
      push_types-Moves (height_of gs) g.block_type.result_types (left g gs (close_block g e.popped))
        w (left-IsNested c n e).steady e.push in
    let b = below-Moves low (height_of gs) h (omega (arith, d.in_step, d.depth, base)) x in
    (x.control, (b ∙ o, ap (reverted undo_low) x.inits ∙ l))

module _ {f : Frame} {fs : List Frame} {ts : List WahType} {o : Option LocalInits} where
  else_block-Inside :
      (v w : Context) → else_block v ≡ ok w → IsNested v → Inside f fs ts o v → Inside f fs ts o w
  else_block-Inside v w r n i = go i.inner i.control
    where
      go :
          (inner : List Frame)
          → v.control_stack ≡ inner ++ (record f { else_found = i.divided }) ∷ fs
          → Inside f fs ts o w
      go [] c =
          let (d, (p, l)) =
            else_block-Same f.stack_height f.local_init_undo_base c (omega arith) (omega arith) n
              r in
          record {
            inner = [];
            divided = true;
            control = d;
            operands = p ∙ i.operands;
            inits = l ∙ i.inits;
          }
      go (g ∷ gs) c =
          let (_, k) = IsNested-Within c n in
          let (h, u) =
            Nested-++ gs (record f { else_found = i.divided }) fs g.stack_height
              g.local_init_undo_base k.3 in
          let (d, (p, l)) = else_block-Same f.stack_height f.local_init_undo_base c h u n r in
          record {
            inner = (record g { else_found = true }) ∷ gs;
            divided = i.divided;
            control = d;
            operands = p ∙ i.operands;
            inits = l ∙ i.inits;
          }

  end_block-Inside :
      (v w : Context)
      → end_block v ≡ ok w
      → length fs < length w.control_stack
      → IsNested v
      → Inside f fs ts o v
      → Inside f fs ts o w
  end_block-Inside v w r within n i = go i.inner i.control
    where
      go :
          (inner : List Frame)
          → v.control_stack ≡ inner ++ (record f { else_found = i.divided }) ∷ fs
          → Inside f fs ts o w
      go [] c =
          let (d, _) = end_block-Same 0 0 c (omega arith) (omega arith) n r in
          absurd (omega (arith, within, ap length d))
      go (g ∷ gs) c =
          let f' : Frame = record f { else_found = i.divided } in
          let (_, k) = IsNested-Within c n in
          let (_, u) = Nested-++ gs f' fs g.stack_height g.local_init_undo_base k.3 in
          let h = height_of-++ gs f' fs g.stack_height g.local_init_undo_base k.3 in
          let (d, (p, l)) = end_block-Same f.stack_height f.local_init_undo_base c h u n r in
          record {
            inner = gs;
            divided = i.divided;
            control = d;
            operands = p ∙ i.operands;
            inits = l ∙ i.inits;
          }

  pub Step-Inside :
      {v w : Context}
      → Step v w
      → length fs < length w.control_stack
      → IsNested v
      → Inside f fs ts o v
      → Inside f fs ts o w
  Step-Inside {v} {w} (pops t h) within n i = Moves-Inside n (pop_type-Moves t v w n.steady h) i
  Step-Inside {v} {w} (pushes t h) within n i =
      Moves-Inside n (push_type-Moves (block_base_height v) t v w n.steady h).0 i
  Step-Inside {v} leaves within n i =
      Moves-Inside (IsNested-reach true v n) (mark_unreachable-Moves v n.steady) (record {
        inner = i.inner;
        divided = i.divided;
        control = i.control;
        operands = i.operands;
        inits = i.inits;
      })
  Step-Inside {v} (inits li j t e) within n i = inits-Inside li j t v e n i
  Step-Inside {v} {w} (enters op bt h) within n i =
      enters-Inside (enter_block-Entered op bt v w h) n i
  Step-Inside {v} {w} (elses h) within n i = else_block-Inside v w h n i
  Step-Inside {v} {w} (ends h) within n i = end_block-Inside v w h within n i
