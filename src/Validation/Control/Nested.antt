-- ===== src/Validation/Control/Nested.antt =====
-- The control stack against the operand stack and the undo list of locals.
use mathlib.Core.Path.{subst}
use wah.Base.{
  ℕ, ◌-◌, ◌≤◌, ◌<◌, ◌≡◌, refl, sym, ap, ◌∙◌, Bool, true, false, ltb, List, [], ◌∷◌, length,
  length-drop, drop, Option, none, some, arith, Bool-cases, inl, inr, set,
}
use wah.Types.Section.{max_type_stack_size}
use wah.Validation.{
  Context, Frame, LocalInits, block_base_height, height_of, mark_unreachable, undo_length, reverted,
  revert, revert_undo,
}
use wah.Validation.Control.{opened, close_block}
use wah.Validation.Control.Moves.{Moves, Moves-refl, Moves-Steady, Steady, bottom, bottom-bottom}

-- Each block begins at or above the beginning of the one around it, with the operands and the undo list
-- of then.
abbrev pub Nested : List Frame → ℕ → ℕ → Type 0
Nested [] depth undo = Unit {0}
Nested (f ∷ fs) depth undo =
    (f.stack_height ≤ depth)
    × (f.type_stack_sp ≡ f.stack_height)
    × (f.local_init_undo_base ≤ undo)
    × Nested fs f.stack_height f.local_init_undo_base

pub record IsNested (v : Context) : Type 0 where
  pub steady : Steady (block_base_height v) v
  pub nested : Nested v.control_stack v.current_stack_depth (undo_length v.local_inits)

pub Nested-mono :
    (fs : List Frame) (d d' u u' : ℕ) → Nested fs d u → height_of fs ≤ d' → u ≤ u' → Nested fs d' u'
Nested-mono [] d d' u u' n h k = tt
Nested-mono (f ∷ fs) d d' u u' n h k = (h, n.1, omega (arith, n.2, k), n.3)

pub Moves-IsNested : {v w : Context} → IsNested v → Moves (block_base_height v) v w → IsNested w
Moves-IsNested {v} {w} n m =
    let base : block_base_height w ≡ block_base_height v = ap height_of m.control in
    record {
      steady = subst (λ b. Steady b w) (sym base) (Moves-Steady m);
      nested =
          subst (λ fs. Nested fs w.current_stack_depth (undo_length w.local_inits)) (sym m.control)
            (subst (λ i. Nested v.control_stack w.current_stack_depth (undo_length i)) (sym m.inits)
              (Nested-mono v.control_stack v.current_stack_depth w.current_stack_depth
                (undo_length v.local_inits) (undo_length v.local_inits) n.nested m.floor
                (omega arith)));
    }

-- Leaving the reachable code cuts the operands off.
pub mark_unreachable-Moves :
    (v : Context)
    → Steady (block_base_height v) v
    → Moves (block_base_height v) (record v { is_unreachable = true }) (mark_unreachable v)
unfolding mark_unreachable
mark_unreachable-Moves v s = elim (Bool-cases (ltb (block_base_height v) v.current_stack_depth)) [
  | inr at_base ↦ simp at_base (
      Moves-refl (block_base_height v) (record v { is_unreachable = true })
        (record { in_step = s.in_step; floor = s.floor; seen = s.seen; bounded = s.bounded }))
  | inl above ↦
      let cut =
        length v.type_stack
        - (length v.type_stack - (v.current_stack_depth - block_base_height v)) in
      let e : cut ≡ length v.type_stack - block_base_height v = omega (arith, s.in_step, s.floor) in
      let lt : block_base_height v < v.current_stack_depth = ground arith in
      simp above (record {
        control = refl;
        inits = refl;
        reach = refl;
        function = refl;
        table = refl;
        in_step = omega (arith, length-drop cut v.type_stack, e, s.in_step, s.floor);
        floor = omega arith;
        below =
            ap (λ k. bottom (block_base_height v) (drop k v.type_stack)) e
            ∙ bottom-bottom (block_base_height v) (block_base_height v) v.type_stack (omega arith)
                (omega (arith, s.in_step, s.floor));
        seen = omega (arith, s.seen, s.floor);
        bounded = s.bounded;
      })
]

-- What is opened begins where the stack and the undo list are.
pub opened-Nested :
    (f : Frame) (fs : List Frame) (u : Context)
    → Nested fs u.current_stack_depth (undo_length u.local_inits)
    → length u.type_stack ≡ u.current_stack_depth
    → Nested (opened f fs u).control_stack u.current_stack_depth (undo_length u.local_inits)
      × (height_of (opened f fs u).control_stack ≡ u.current_stack_depth)
opened-Nested f fs u n s = ((omega arith, s, omega arith, n), refl)

revert-length :
    (li : LocalInits) (base : ℕ) → base ≤ length li.undo → length (revert li base).undo ≡ base
unfolding revert
revert-length li base h = go li.inits li.undo h
  where
    go :
        (bs : List Bool) (is : List ℕ)
        → base ≤ length is
        → length (revert_undo base bs is).undo ≡ base
    go bs [] h = omega arith
    go bs (i ∷ is) h = ground (arith, go (set bs i false) is)

pub reverted-length :
    (o : Option LocalInits) (base : ℕ) → base ≤ undo_length o → undo_length (reverted base o) ≡ base
reverted-length none base h = omega arith
reverted-length (some li) base h = revert-length li base h

-- What closing a block leads to, behind its results.
pub record Closed (f : Frame) (u c : Context) : Type 0 where
  pub types : c.type_stack ≡ bottom f.stack_height u.type_stack
  pub depth : c.current_stack_depth ≡ f.stack_height
  pub in_step : length c.type_stack ≡ c.current_stack_depth
  pub undo : undo_length c.local_inits ≡ f.local_init_undo_base
  pub inits : c.local_inits ≡ reverted f.local_init_undo_base u.local_inits
  pub control : c.control_stack ≡ u.control_stack
  pub table : c.module_ ≡ u.module_
  pub function : c.func_type ≡ u.func_type
  pub seen : c.current_stack_depth ≤ c.max_stack_depth
  pub bounded : c.max_stack_depth ≤ max_type_stack_size

pub close_block-Closed :
    (f : Frame) (fs : List Frame) (u : Context)
    → Steady f.stack_height u
    → Nested (f ∷ fs) u.current_stack_depth (undo_length u.local_inits)
    → Closed f u (close_block f u)
close_block-Closed f fs u s n =
    let at : length u.type_stack - f.type_stack_sp ≡ length u.type_stack - f.stack_height =
      omega (arith, n.1) in
    record {
      types = ap (λ k. drop k u.type_stack) at;
      depth = n.1;
      in_step = omega (
        arith,
        length-drop (length u.type_stack - f.type_stack_sp) u.type_stack,
        n.1,
        s.in_step,
        s.floor,
      );
      undo = reverted-length u.local_inits f.local_init_undo_base n.2;
      inits = refl;
      control = refl;
      table = refl;
      function = refl;
      seen = omega (arith, n.1, s.floor, s.seen);
      bounded = s.bounded;
    }
