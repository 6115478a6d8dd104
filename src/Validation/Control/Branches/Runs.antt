-- ===== src/Validation/Control/Branches/Runs.antt =====
-- Branches and returns as steps of the validator.
use mathlib.Core.Path.{subst}
use wah.Base.{
  ℕ, ◌+◌, ◌≤◌, ◌<◌, ◌≡◌, sym, ap, ◌∙◌, Bool, true, false, leb, ◌||◌, List, [], ◌∷◌, length, arith,
  Bool-cases, inl, inr,
}
use wah.Status.{ok, >>=-eq-ok, ok-inj, validation_failed}
use wah.Types.{WahType, i32}
use wah.Types.Subtype.{validate_type_match}
use wah.Validation.{
  Context, push_type, pop_type, pop_and_match_type, pop_types, push_types, block_base_height,
  at_unreachable_base, mark_unreachable,
}
use wah.Validation.Control.Moves.{pop_type-Moves, push_type-Moves}
use wah.Validation.Control.Nested.{IsNested}
use wah.Validation.Control.Steps.{Step, pops, pushes, leaves, ensure-ok}
use wah.Validation.Control.Invariant.{Step-IsNested}
use wah.Validation.Control.Restores.{Run, start, next}
use wah.Validation.Control.Branches.{
  Adjustment, adjustment, check_operands, pop_unless_base, condition, after_branch, branch, return_,
  resolve_br_target,
}

pub Run-trans : {n : ℕ} {u v w : Context} → Run n u v → Run n v w → Run n u w
Run-trans r start = r
Run-trans r (next s t within) = next (Run-trans r s) t within

pub Run-IsNested : {n : ℕ} {v w : Context} → Run n v w → IsNested v → IsNested w
Run-IsNested start i = i
Run-IsNested (next r s within) i = Step-IsNested s (Run-IsNested r i)

-- Steps from a nested state with more than `n` open blocks to another one.
abbrev pub Inner : ℕ → Context → Context → Type 0
Inner n v w = Run n v w × IsNested w × (n < length w.control_stack)

pub Moves-Inner :
    {n : ℕ} {v w : Context}
    → IsNested v
    → n < length v.control_stack
    → Step v w
    → w.control_stack ≡ v.control_stack
    → Inner n v w
Moves-Inner {n} {v} {w} i h s c =
    let k : n < length w.control_stack = omega (arith, ap length c, h) in
    (next start s k, Step-IsNested s i, k)

pub Inner-trans : {n : ℕ} {u v w : Context} → Inner n u v → Inner n v w → Inner n u w
Inner-trans (r, i, h) (s, k, l) = (Run-trans r s, k, l)

pub pop_and_match_type-Inner :
    {n : ℕ} (t : WahType) (v w : Context)
    → IsNested v
    → n < length v.control_stack
    → pop_and_match_type v t ≡ ok w
    → Inner n v w
unfolding pop_and_match_type
pop_and_match_type-Inner {n} t v w i h e =
    let ((x, u), p, k) = >>=-eq-ok (pop_type v) _ e in
    let (_, _, l) = >>=-eq-ok (validate_type_match u.module_ x t) _ k in
    subst (Inner n v) (ok-inj l)
      (Moves-Inner i h (pops x p) (pop_type-Moves x v u i.steady p).control)

pop_types-Inner :
    {n : ℕ} (ts : List WahType) (v w : Context)
    → IsNested v
    → n < length v.control_stack
    → pop_types v ts ≡ ok w
    → Inner n v w
unfolding pop_types
pop_types-Inner {n} [] v w i h e = subst (Inner n v) (ok-inj e) (start, i, h)
pop_types-Inner (t ∷ ts) v w i h e =
    let (u, p, k) = >>=-eq-ok (pop_types v ts) _ e in
    let (r, j, l) = pop_types-Inner ts v u i h p in
    Inner-trans (r, j, l) (pop_and_match_type-Inner t u w j l k)

push_types-Inner :
    {n : ℕ} (ts : List WahType) (v w : Context)
    → IsNested v
    → n < length v.control_stack
    → push_types v ts ≡ ok w
    → Inner n v w
unfolding push_types
push_types-Inner {n} [] v w i h e = subst (Inner n v) (ok-inj e) (start, i, h)
push_types-Inner (t ∷ ts) v w i h e =
    let (u, p, k) = >>=-eq-ok (push_type v t) _ e in
    let (m, _) = push_type-Moves (block_base_height v) t v u i.steady p in
    let (r, j, l) = Moves-Inner i h (pushes t p) m.control in
    Inner-trans (r, j, l) (push_types-Inner ts u w j l k)

pub mark_unreachable-Inner :
    {n : ℕ} (v : Context) → IsNested v → n < length v.control_stack → Inner n v (mark_unreachable v)
unfolding mark_unreachable
mark_unreachable-Inner v i h = Moves-Inner i h leaves (ground arith)

pop_unless_base-Inner :
    {n : ℕ} (ts : List WahType) (v w : Context)
    → IsNested v
    → n < length v.control_stack
    → pop_unless_base v ts ≡ ok w
    → Inner n v w
pop_unless_base-Inner {n} ts v w i h e = elim (Bool-cases (at_unreachable_base v)) [
  | inl at_base ↦ subst (Inner n v) (ok-inj (rw at_base at e)) (start, i, h)
  | inr above ↦ pop_types-Inner ts v w i h (rw above at e)
]

pub condition-Inner :
    {n : ℕ} (is_br_if : Bool) (v w : Context)
    → IsNested v
    → n < length v.control_stack
    → condition is_br_if v ≡ ok w
    → Inner n v w
condition-Inner {n} false v w i h e = subst (Inner n v) (ok-inj e) (start, i, h)
condition-Inner true v w i h e = pop_and_match_type-Inner i32 v w i h e

after_branch-Inner :
    {n : ℕ} (is_br_if : Bool) (ts : List WahType) (v w : Context)
    → IsNested v
    → n < length v.control_stack
    → after_branch is_br_if v ts ≡ ok w
    → Inner n v w
after_branch-Inner {n} false ts v w i h e =
    subst (Inner n v) (ok-inj e) (mark_unreachable-Inner v i h)
after_branch-Inner true ts v w i h e = push_types-Inner ts v w i h e

-- What a branch goes through behind its condition.
pub record Branched (is_br_if : Bool) (label_idx : ℕ) (v : Context) (r : Context × Adjustment)
    : Type 0 where
  pub label : label_idx ≤ length v.control_stack
  pub tested : Context
  pub test : condition is_br_if v ≡ ok tested
  pub popped : Context
  pub checked : check_operands is_br_if tested (resolve_br_target tested label_idx) ≡ ok tt
  pub pop : pop_unless_base tested (resolve_br_target tested label_idx).types ≡ ok popped
  pub follows : after_branch is_br_if popped (resolve_br_target tested label_idx).types ≡ ok r.0
  pub adjusted : r.1 ≡ adjustment tested (resolve_br_target tested label_idx)

pub branch-Branched :
    (is_br_if : Bool) (label_idx : ℕ) (v : Context) (r : Context × Adjustment)
    → branch is_br_if label_idx v ≡ ok r
    → Branched is_br_if label_idx v r
unfolding branch
branch-Branched is_br_if label_idx v r h =
    let (l, k) = ensure-ok (leb label_idx (length v.control_stack)) validation_failed _ h in
    let (t, e, m) = >>=-eq-ok (condition is_br_if v) _ k in
    let at = resolve_br_target t label_idx in
    let (_, c, o) = >>=-eq-ok (check_operands is_br_if t at) _ m in
    let (u, p, q) = >>=-eq-ok (pop_unless_base t at.types) _ o in
    let (w, a, z) = >>=-eq-ok (after_branch is_br_if u at.types) _ q in
    record {
      label = ground (arith, l);
      tested = t;
      test = e;
      popped = u;
      checked = c;
      pop = p;
      follows = a ∙ ap (λ (s : Context × Adjustment). ok s.0) (ok-inj z);
      adjusted = sym (ap (λ (s : Context × Adjustment). s.1) (ok-inj z));
    }

pub branch-Inner :
    {n : ℕ} (is_br_if : Bool) (label_idx : ℕ) (v : Context) (r : Context × Adjustment)
    → IsNested v
    → n < length v.control_stack
    → branch is_br_if label_idx v ≡ ok r
    → Inner n v r.0
branch-Inner is_br_if label_idx v r i h e =
    let b = branch-Branched is_br_if label_idx v r e in
    let types = (resolve_br_target b.tested label_idx).types in
    let (s, j, k) = condition-Inner is_br_if v b.tested i h b.test in
    let (t, l, m) = pop_unless_base-Inner types b.tested b.popped j k b.pop in
    Inner-trans (s, j, k)
      (Inner-trans (t, l, m) (after_branch-Inner is_br_if types b.popped r.0 l m b.follows))

pub return-Inner :
    {n : ℕ} (v w : Context)
    → IsNested v
    → n < length v.control_stack
    → return_ v ≡ ok w
    → Inner n v w
unfolding return_
return-Inner {n} v w i h e =
    let (_, k) =
      ensure-ok
        (v.is_unreachable
          || leb (block_base_height v + length v.func_type.result_types) v.current_stack_depth)
        validation_failed _ e in
    let (u, p, q) = >>=-eq-ok (pop_unless_base v v.func_type.result_types) _ k in
    let (r, j, l) = pop_unless_base-Inner v.func_type.result_types v u i h p in
    Inner-trans (r, j, l) (subst (Inner n u) (ok-inj q) (mark_unreachable-Inner u j l))
