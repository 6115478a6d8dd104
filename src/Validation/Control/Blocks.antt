-- ===== src/Validation/Control/Blocks.antt =====
-- A block against the code around it.
use mathlib.Core.Path.{subst}
use wah.Base.{
  ℕ, suc, ◌≤◌, ◌≡◌, refl, sym, ap, ◌∙◌, Bool, true, false, ltb, List, [], ◌∷◌, ◌++◌, length, set,
  Option, none, some, arith, Bool-cases, inl, inr,
}
use wah.Types.{WahType, FuncType}
use wah.Validation.{
  Context, Frame, Opcode, LocalInits, block_base_height, height_of, undo_length, reverted, revert,
  revert_undo, init_local,
}
use wah.Validation.Locals.{revert-init_local, revert-own_length}
use wah.Validation.Control.{new_frame, opened, begun}
use wah.Validation.Control.Moves.{Moves, push_types-Moves, bottom, bottom-bottom, bottom_lower}
use wah.Validation.Control.Nested.{Nested, IsNested, Closed}
use wah.Validation.Control.Steps.{Entered}
use wah.Validation.Control.Opening.{IsNested-Within, Entered-opened}

-- A block of the control stack begins at or below what the blocks within it hold.
pub Nested-++ :
    (inner : List Frame) (f : Frame) (fs : List Frame) (d u : ℕ)
    → Nested (inner ++ f ∷ fs) d u
    → (f.stack_height ≤ d) × (f.local_init_undo_base ≤ u)
Nested-++ [] f fs d u n = (n.0, n.2)
Nested-++ (g ∷ inner) f fs d u n =
    let (h, k) = Nested-++ inner f fs g.stack_height g.local_init_undo_base n.3 in
    (omega (arith, h, n.0), omega (arith, k, n.2))

pub height_of-++ :
    (inner : List Frame) (f : Frame) (fs : List Frame) (d u : ℕ)
    → Nested (inner ++ f ∷ fs) d u
    → f.stack_height ≤ height_of (inner ++ f ∷ fs)
height_of-++ [] f fs d u n = omega arith
height_of-++ (g ∷ inner) f fs d u n =
    (Nested-++ inner f fs g.stack_height g.local_init_undo_base n.3).0

revert-revert : (li : LocalInits) (b b' : ℕ) → b ≤ b' → revert (revert li b') b ≡ revert li b
unfolding revert
revert-revert li b b' h = go li.inits li.undo
  where
    go :
        (bs : List Bool) (is : List ℕ)
        → revert_undo b (revert_undo b' bs is).inits (revert_undo b' bs is).undo
          ≡ revert_undo b bs is
    go bs [] = refl
    go bs (i ∷ is) = elim (Bool-cases (ltb b' (suc (length is)))) [
      | inl more ↦
          let less : ltb b (suc (length is)) ≡ true = ground arith in
          simp (more, less) (go (set bs i false) is)
      | inr enough ↦ simp enough refl
    ]

pub reverted-reverted :
    (o : Option LocalInits) (b b' : ℕ) → b ≤ b' → reverted b (reverted b' o) ≡ reverted b o
reverted-reverted none b b' h = refl
reverted-reverted (some li) b b' h = ap some (revert-revert li b b' h)

pub reverted-own_length : (o : Option LocalInits) → reverted (undo_length o) o ≡ o
reverted-own_length none = refl
reverted-own_length (some li) = ap some (revert-own_length li)

-- In a block that began with the given operands and locals: its frame is on the control stack, below the
-- frames of the blocks within it, and the operands and the locals of its beginning are still there.
pub record Inside (f : Frame) (fs : List Frame) (ts : List WahType) (o : Option LocalInits)
    (x : Context) : Type 0 where
  pub inner : List Frame
  pub divided : Bool
  pub control : x.control_stack ≡ inner ++ (record f { else_found = divided }) ∷ fs
  pub operands : bottom f.stack_height x.type_stack ≡ ts
  pub inits : reverted f.local_init_undo_base x.local_inits ≡ o

pub below-Moves :
    (low base : ℕ) {v w : Context}
    → low ≤ base
    → base ≤ length v.type_stack
    → Moves base v w
    → bottom low w.type_stack ≡ bottom low v.type_stack
below-Moves low base {v} {w} h k m =
    bottom_lower low base w.type_stack v.type_stack h (omega (arith, m.in_step, m.floor)) k m.below

-- Closing a block that begins at or above some operands and locals.
pub Closed-lower :
    (low undo_low : ℕ) {g : Frame} {v u c : Context}
    → low ≤ g.stack_height
    → undo_low ≤ g.local_init_undo_base
    → g.stack_height ≤ length v.type_stack
    → Moves g.stack_height v u
    → Closed g u c
    → (bottom low c.type_stack ≡ bottom low v.type_stack)
      × (reverted undo_low c.local_inits ≡ reverted undo_low v.local_inits)
Closed-lower low undo_low {g} {v} {u} {c} h k l m d = (
  ap (bottom low) d.types
      ∙ bottom-bottom low g.stack_height u.type_stack h (omega (arith, m.in_step, m.floor))
      ∙ below-Moves low g.stack_height h l m,
  ap (reverted undo_low) d.inits
      ∙ reverted-reverted u.local_inits undo_low g.local_init_undo_base k
      ∙ ap (reverted undo_low) m.inits,
)

module _ {f : Frame} {fs : List Frame} {ts : List WahType} {o : Option LocalInits} where
  pub Inside-bounds :
      {x : Context}
      → IsNested x
      → Inside f fs ts o x
      → (f.stack_height ≤ block_base_height x)
        × (f.stack_height ≤ x.current_stack_depth)
        × (f.local_init_undo_base ≤ undo_length x.local_inits)
  Inside-bounds {x} n i =
      let f' : Frame = record f { else_found = i.divided } in
      let (_, k) = IsNested-Within i.control n in
      let (h, l) = Nested-++ i.inner f' fs x.current_stack_depth (undo_length x.local_inits) k in
      let b = height_of-++ i.inner f' fs x.current_stack_depth (undo_length x.local_inits) k in
      (subst (λ s. f.stack_height ≤ height_of s) (sym i.control) b, h, l)

  pub Moves-Inside :
      {v w : Context}
      → IsNested v
      → Moves (block_base_height v) v w
      → Inside f fs ts o v
      → Inside f fs ts o w
  Moves-Inside {v} {w} n m i = record {
    inner = i.inner;
    divided = i.divided;
    control = m.control ∙ i.control;
    operands =
        below-Moves f.stack_height (block_base_height v) (Inside-bounds n i).0
          (omega (arith, n.steady.in_step, n.steady.floor)) m
        ∙ i.operands;
    inits = ap (reverted f.local_init_undo_base) m.inits ∙ i.inits;
  }

  pub inits-Inside :
      (li : LocalInits) (i : ℕ) (t : WahType) (v : Context)
      → v.local_inits ≡ some li
      → IsNested v
      → Inside f fs ts o v
      → Inside f fs ts o (record v { local_inits = some (init_local v.func_type li i t) })
  inits-Inside li i t v e n s = record {
    inner = s.inner;
    divided = s.divided;
    control = s.control;
    operands = s.operands;
    inits =
        ap some (
          revert-init_local v.func_type li i t f.local_init_undo_base
            (omega (arith, (Inside-bounds n s).2, ap undo_length e)))
        ∙ ap (reverted f.local_init_undo_base) (sym e)
        ∙ s.inits;
  }

  pub enters-Inside :
      {op : Opcode} {bt : FuncType} {v w : Context}
      → Entered op bt v w
      → IsNested v
      → Inside f fs ts o v
      → Inside f fs ts o w
  enters-Inside {op} {bt} {v} {w} e n s =
      let (m, p, k) = Entered-opened e n in
      let t = Moves-Inside n m s in
      let at : Context = opened (new_frame op bt e.tested) e.tested.control_stack e.popped in
      let (x, _) =
        push_types-Moves e.popped.current_stack_depth bt.param_types at e.pushed k.steady e.push in
      let (h, d, _) = Inside-bounds n s in
      let g : Frame = begun (new_frame op bt e.tested) e.popped in
      subst (Inside f fs ts o) (sym e.result) (record {
        inner = g ∷ t.inner;
        divided = t.divided;
        control = x.control ∙ ap (λ l. g ∷ l) t.control;
        operands =
            below-Moves f.stack_height e.popped.current_stack_depth (omega (arith, h, p.floor))
              (omega (arith, p.in_step)) x
            ∙ below-Moves f.stack_height (block_base_height v) h (omega (arith, m.in_step, m.floor))
                p
            ∙ t.operands;
        inits = ap (reverted f.local_init_undo_base) (x.inits ∙ p.inits) ∙ t.inits;
      })
