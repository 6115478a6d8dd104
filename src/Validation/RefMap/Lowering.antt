-- ===== src/Validation/RefMap/Lowering.antt =====
-- What the steps of the validator do to the low-water mark of the operand stack.
use mathlib.Core.Path.{subst}
use wah.Base.{
  ℕ, ◌-◌, ◌≤◌, ◌≡◌, refl, sym, ap, ◌∙◌, ltb, leb, true, List, [], ◌∷◌, length, take, drop,
  length-drop, arith, Bool-cases, List-cases, inl, inr,
}
use wah.Status.{ok, >>=-eq-ok, ok-inj}
use wah.Types.{WahType, FuncType, i32}
use wah.Types.Section.{max_type_stack_size}
use wah.Types.Subtype.{validate_type_match}
use wah.Validation.{
  Context, Frame, Opcode, push_type, pop_type, pop_and_match_type, pop_types, push_types,
  block_base_height, mark_unreachable,
}
use wah.Validation.Control.{
  close_block, left, opened, new_frame, reachable, is_if, test_condition, else_block, end_block,
}
use wah.Validation.Control.Steps.{
  Step, pops, pushes, leaves, inits, enters, elses, ends, Entered, enter_block-Entered,
  else_block-Elsed, end_block-Ended,
}
use wah.Validation.RefMap.{data_of}
use wah.Validation.RefMap.Unchanged.{
  Lowered, Lowered-trans, Unchanged, Lowered-Unchanged, take-data_of-drop, take-data_of-cons,
}

cut-Lowered :
    (k : ℕ) (v w : Context)
    → w.type_stack ≡ drop k v.type_stack
    → w.lwm ≤ v.lwm
    → w.lwm ≤ length v.type_stack - k
    → Lowered v w
cut-Lowered k v w e h l = record {
  mark = omega (arith, ap length e, length-drop k v.type_stack, l);
  less = h;
  kept = ap (λ s. take w.lwm (data_of s)) e ∙ take-data_of-drop w.lwm k v.type_stack l;
}

same-Lowered :
    (v w : Context)
    → w.type_stack ≡ v.type_stack
    → w.lwm ≡ v.lwm
    → v.lwm ≤ length v.type_stack
    → Lowered v w
same-Lowered v w e h l = cut-Lowered 0 v w e (omega (arith, h)) (omega (arith, h, l))

push_type-Lowered :
    (t : WahType) (v w : Context) → v.lwm ≤ length v.type_stack → push_type v t ≡ ok w → Lowered v w
unfolding push_type
push_type-Lowered t v w l h = elim (Bool-cases (ltb (length v.type_stack) max_type_stack_size)) [
  | inr full ↦ cc (rw full at h)
  | inl fits ↦ subst (Lowered v) (ok-inj (rw fits at h)) (record {
    mark = omega (arith, l);
    less = omega arith;
    kept = take-data_of-cons v.lwm t v.type_stack l;
  })
]

pop_type-Lowered :
    (t : WahType) (v w : Context)
    → v.lwm ≤ length v.type_stack
    → pop_type v ≡ ok (t, w)
    → Lowered v w
unfolding pop_type
pop_type-Lowered t v w l h = elim (Bool-cases (leb v.current_stack_depth (block_base_height v))) [
  | inl at_base ↦ elim (Bool-cases v.is_unreachable) [
    | inl dead ↦
        let same = ap (λ (p : WahType × Context). p.1) (ok-inj (simp (at_base, dead) at h)) in
        subst (Lowered v) same (same-Lowered v v refl refl l)
    | inr live ↦ cc (simp (at_base, live) at h)
  ]
  | inr above ↦ elim (List-cases v.type_stack) [
    | inl e ↦ cc (simp (above, e) at h)
    | inr (x, xs, e) ↦
        let same = ap (λ (p : WahType × Context). p.1) (ok-inj (simp (above, e) at h)) in
        subst (Lowered v) same
          (cut-Lowered 1 v _ (sym (ap (drop 1) e)) (ground arith) (ground (arith, ap length e)))
  ]
]

pop_and_match_type-Lowered :
    (t : WahType) (v w : Context)
    → v.lwm ≤ length v.type_stack
    → pop_and_match_type v t ≡ ok w
    → Lowered v w
unfolding pop_and_match_type
pop_and_match_type-Lowered t v w l h =
    let ((x, u), e, k) = >>=-eq-ok (pop_type v) _ h in
    let (_, _, m) = >>=-eq-ok (validate_type_match u.module_ x t) _ k in
    subst (Lowered v) (ok-inj m) (pop_type-Lowered x v u l e)

pop_types-Lowered :
    (ts : List WahType) (v w : Context)
    → v.lwm ≤ length v.type_stack
    → pop_types v ts ≡ ok w
    → Lowered v w
unfolding pop_types
pop_types-Lowered [] v w l h = subst (Lowered v) (ok-inj h) (same-Lowered v v refl refl l)
pop_types-Lowered (t ∷ ts) v w l h =
    let (u, e, k) = >>=-eq-ok (pop_types v ts) _ h in
    let first = pop_types-Lowered ts v u l e in
    Lowered-trans first (pop_and_match_type-Lowered t u w first.mark k)

push_types-Lowered :
    (ts : List WahType) (v w : Context)
    → v.lwm ≤ length v.type_stack
    → push_types v ts ≡ ok w
    → Lowered v w
unfolding push_types
push_types-Lowered [] v w l h = subst (Lowered v) (ok-inj h) (same-Lowered v v refl refl l)
push_types-Lowered (t ∷ ts) v w l h =
    let (u, e, k) = >>=-eq-ok (push_type v t) _ h in
    let first = push_type-Lowered t v u l e in
    Lowered-trans first (push_types-Lowered ts u w first.mark k)

mark_unreachable-Lowered :
    (v : Context) → v.lwm ≤ length v.type_stack → Lowered v (mark_unreachable v)
unfolding mark_unreachable
mark_unreachable-Lowered v l =
    let k : ℕ =
      length v.type_stack - (length v.type_stack - (v.current_stack_depth - block_base_height v)) in
    elim (Bool-cases (ltb (block_base_height v) v.current_stack_depth)) [
      | inl above ↦ simp above (cut-Lowered k v _ refl (ground arith) (ground (arith, l)))
      | inr at_base ↦ simp at_base (same-Lowered v (record v { is_unreachable = true }) refl refl l)
    ]

close_block-Lowered :
    (f : Frame) (v : Context) → v.lwm ≤ length v.type_stack → Lowered v (close_block f v)
close_block-Lowered f v l =
    cut-Lowered (length v.type_stack - f.type_stack_sp) v (close_block f v) refl (ground arith)
      (ground (arith, l))

test_condition-Lowered :
    (op : Opcode) (v w : Context)
    → v.lwm ≤ length v.type_stack
    → test_condition op v ≡ ok w
    → Lowered v w
test_condition-Lowered op v w l h = elim (Bool-cases (is_if op)) [
  | inl tests ↦ pop_and_match_type-Lowered i32 v w l (rw tests at h)
  | inr passes ↦ subst (Lowered v) (ok-inj (rw passes at h)) (same-Lowered v v refl refl l)
]

enter_block-Lowered :
    {op : Opcode} {bt : FuncType} {v w : Context}
    → Entered op bt v w
    → v.lwm ≤ length v.type_stack
    → Lowered v w
enter_block-Lowered {op} {bt} {v} {w} e l =
    let t = test_condition-Lowered op v e.tested l e.test in
    let inner : Context = record e.tested {
      control_stack = new_frame op bt e.tested ∷ e.tested.control_stack;
    } in
    let p = pop_types-Lowered bt.param_types inner e.popped t.mark e.pop in
    let at : Context = opened (new_frame op bt e.tested) e.tested.control_stack e.popped in
    let x = push_types-Lowered bt.param_types at e.pushed p.mark e.push in
    subst (Lowered v) (sym e.result) (
      Lowered-trans t (
        Lowered-trans (same-Lowered e.tested inner refl refl t.mark) (
          Lowered-trans p (
            Lowered-trans (same-Lowered e.popped at refl refl p.mark)
              (Lowered-trans x (same-Lowered e.pushed (reachable e.pushed) refl refl x.mark))))))

else_block-Lowered :
    (v w : Context) → v.lwm ≤ length v.type_stack → else_block v ≡ ok w → Lowered v w
unfolding else_block
else_block-Lowered v w l h = elim (List-cases v.control_stack) [
  | inl empty ↦ cc (rw empty at h)
  | inr (f, fs, c) ↦
      let e = else_block-Elsed f fs v w c h in
      let inner : Context = record v { control_stack = (record f { else_found = true }) ∷ fs } in
      let p = pop_types-Lowered f.block_type.result_types inner e.popped l e.pop in
      let d = close_block-Lowered f e.popped p.mark in
      let x =
        push_types-Lowered f.block_type.param_types (close_block f e.popped) e.pushed d.mark
          e.push in
      subst (Lowered v) (sym e.result) (
        Lowered-trans (same-Lowered v inner refl refl l) (
          Lowered-trans p (
            Lowered-trans d
              (Lowered-trans x (same-Lowered e.pushed (reachable e.pushed) refl refl x.mark)))))
]

end_block-Lowered : (v w : Context) → v.lwm ≤ length v.type_stack → end_block v ≡ ok w → Lowered v w
unfolding end_block
end_block-Lowered v w l h = elim (List-cases v.control_stack) [
  | inl empty ↦ cc (rw empty at h)
  | inr (f, fs, c) ↦
      let e = end_block-Ended f fs v w c h in
      let p = pop_types-Lowered f.block_type.result_types v e.popped l e.pop in
      let d = close_block-Lowered f e.popped p.mark in
      let at : Context = left f fs (close_block f e.popped) in
      let x = push_types-Lowered f.block_type.result_types at w d.mark e.push in
      Lowered-trans p (
        Lowered-trans d
          (Lowered-trans (same-Lowered (close_block f e.popped) at refl refl d.mark) x))
]

Step-Lowered : {v w : Context} → Step v w → v.lwm ≤ length v.type_stack → Lowered v w
Step-Lowered {v} {w} (pops t h) l = pop_type-Lowered t v w l h
Step-Lowered {v} {w} (pushes t h) l = push_type-Lowered t v w l h
Step-Lowered {v} leaves l = mark_unreachable-Lowered v l
Step-Lowered {v} {w} (inits li i t e) l = same-Lowered v w refl refl l
Step-Lowered {v} {w} (enters op bt h) l = enter_block-Lowered (enter_block-Entered op bt v w h) l
Step-Lowered {v} {w} (elses h) l = else_block-Lowered v w l h
Step-Lowered {v} {w} (ends h) l = end_block-Lowered v w l h

-- Every step of the validator keeps the operands below the low-water mark those that the last ref map
-- captured, and the mark within the stack.
pub Step-Unchanged :
    {captured : List WahType} {v w : Context}
    → Step v w
    → Unchanged captured v
    → Unchanged captured w
Step-Unchanged s u = Lowered-Unchanged (Step-Lowered s u.mark) u
