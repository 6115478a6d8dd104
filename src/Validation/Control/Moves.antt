-- ===== src/Validation/Control/Moves.antt =====
-- Popping and pushing operands, and the rest of the validator.
use wah.Base.{
  ℕ, zero, suc, ◌+◌, ◌-◌, ◌≤◌, ◌<◌, ◌≡◌, inl, inr, refl, sym, ap, ◌∙◌, ltb, leb, List, [], ◌∷◌,
  length, drop, length-drop, arith, Bool-cases, List-cases,
}
use mathlib.Core.Path.{subst}
use wah.Validation.Stack.{popped, pop_type-cons}
use wah.Status.{ok, >>=-eq-ok, ok-inj}
use wah.Types.{WahType}
use wah.Types.Section.{max_type_stack_size}
use wah.Types.Subtype.{validate_type_match}
use wah.Validation.{
  Context, push_type, pop_type, pop_and_match_type, pop_types, push_types, block_base_height,
  height_of,
}

drop-nil : (i : ℕ) → drop {A = WahType} i [] ≡ []
drop-nil zero = refl
drop-nil (suc i) = refl

pub drop-drop : (i j : ℕ) (xs : List WahType) → drop i (drop j xs) ≡ drop (j + i) xs
drop-drop i zero xs = let e : 0 + i ≡ i = omega arith in rw e refl
drop-drop i (suc j) [] = let e : suc j + i ≡ suc (j + i) = omega arith in rw e (drop-nil i)
drop-drop i (suc j) (x ∷ xs) =
    let e : suc j + i ≡ suc (j + i) = omega arith in rw e (drop-drop i j xs)

-- The bottom of the stack, with `n` operands.
abbrev pub bottom : ℕ → List WahType → List WahType
bottom n ts = drop (length ts - n) ts

pub bottom-cons :
    (n : ℕ) (t : WahType) (ts : List WahType) → n ≤ length ts → bottom n (t ∷ ts) ≡ bottom n ts
bottom-cons n t ts h = let e : length (t ∷ ts) - n ≡ suc (length ts - n) = omega arith in rw e refl

pub bottom_all : (ts : List WahType) → bottom (length ts) ts ≡ ts
bottom_all ts = let e : length ts - length ts ≡ 0 = omega arith in rw e refl

-- The bottom of the bottom.
pub bottom-bottom :
    (m n : ℕ) (ts : List WahType) → m ≤ n → n ≤ length ts → bottom m (bottom n ts) ≡ bottom m ts
bottom-bottom m n ts h k =
    let len : length (bottom n ts) ≡ n = omega (arith, length-drop (length ts - n) ts) in
    let e : length ts - n + (n - m) ≡ length ts - m = omega arith in
    rw len (drop-drop (n - m) (length ts - n) ts ∙ ap (λ i. drop i ts) e)

-- Two states whose bottoms from a height on agree agree from every lower height on.
pub bottom_lower :
    (m n : ℕ) (ts us : List WahType)
    → m ≤ n
    → n ≤ length ts
    → n ≤ length us
    → bottom n ts ≡ bottom n us
    → bottom m ts ≡ bottom m us
bottom_lower m n ts us h k l e =
    sym (bottom-bottom m n ts h k) ∙ ap (bottom m) e ∙ bottom-bottom m n us h l

-- `w` is `v` with other operands on the part of the stack from `base` on.
pub record Moves (base : ℕ) (v w : Context) : Type 0 where
  pub control : w.control_stack ≡ v.control_stack
  pub inits : w.local_inits ≡ v.local_inits
  pub reach : w.is_unreachable ≡ v.is_unreachable
  pub function : w.func_type ≡ v.func_type
  pub table : w.module_ ≡ v.module_
  pub in_step : length w.type_stack ≡ w.current_stack_depth
  pub floor : base ≤ w.current_stack_depth
  pub below : bottom base w.type_stack ≡ bottom base v.type_stack
  pub seen : w.current_stack_depth ≤ w.max_stack_depth
  pub bounded : w.max_stack_depth ≤ max_type_stack_size

-- A stack that is in step, at or above a height.
pub record Steady (base : ℕ) (v : Context) : Type 0 where
  pub in_step : length v.type_stack ≡ v.current_stack_depth
  pub floor : base ≤ v.current_stack_depth
  pub seen : v.current_stack_depth ≤ v.max_stack_depth
  pub bounded : v.max_stack_depth ≤ max_type_stack_size

pub Moves-refl : (base : ℕ) (v : Context) → Steady base v → Moves base v v
Moves-refl base v s = record {
  control = refl;
  inits = refl;
  reach = refl;
  function = refl;
  table = refl;
  in_step = s.in_step;
  floor = s.floor;
  below = refl;
  seen = s.seen;
  bounded = s.bounded;
}

pub Moves-trans : {base : ℕ} {u v w : Context} → Moves base u v → Moves base v w → Moves base u w
Moves-trans m n = record {
  control = n.control ∙ m.control;
  inits = n.inits ∙ m.inits;
  reach = n.reach ∙ m.reach;
  function = n.function ∙ m.function;
  table = n.table ∙ m.table;
  in_step = n.in_step;
  floor = n.floor;
  below = n.below ∙ m.below;
  seen = n.seen;
  bounded = n.bounded;
}

pub Moves-Steady : {base : ℕ} {v w : Context} → Moves base v w → Steady base w
Moves-Steady m = record { in_step = m.in_step; floor = m.floor; seen = m.seen; bounded = m.bounded }

pub push_type-Moves :
    (base : ℕ) (t : WahType) (v w : Context)
    → Steady base v
    → push_type v t ≡ ok w
    → Moves base v w × (w.type_stack ≡ t ∷ v.type_stack)
unfolding push_type
push_type-Moves base t v w s h = elim (Bool-cases (ltb (length v.type_stack) max_type_stack_size)) [
  | inr full ↦ cc (rw full at h)
  | inl fits ↦ rw (← (ok-inj (rw fits at h))) (
    record {
      control = refl;
      inits = refl;
      reach = refl;
      function = refl;
      table = refl;
      in_step = omega (arith, s.in_step);
      floor = omega (arith, s.floor);
      below = bottom-cons base t v.type_stack (omega (arith, s.floor, s.in_step));
      seen = ground arith;
      bounded = ground (arith, s.bounded, s.in_step);
    },
    refl,
  )
]

popped-Moves :
    (v : Context) (x : WahType) (xs : List WahType)
    → Steady (block_base_height v) v
    → v.type_stack ≡ x ∷ xs
    → block_base_height v < v.current_stack_depth
    → Moves (block_base_height v) v (popped v xs)
popped-Moves v x xs s e lt =
    let len : length xs + 1 ≡ v.current_stack_depth = omega (arith, ap length e, s.in_step) in
    record {
      control = refl;
      inits = refl;
      reach = refl;
      function = refl;
      table = refl;
      in_step = omega (arith, len);
      floor = omega (arith, lt);
      below = sym (
          ap (bottom (block_base_height v)) e
          ∙ bottom-cons (block_base_height v) x xs (omega (arith, len, lt)));
      seen = omega (arith, s.seen);
      bounded = s.bounded;
    }

pub pop_type-Moves :
    (t : WahType) (v w : Context)
    → Steady (block_base_height v) v
    → pop_type v ≡ ok (t, w)
    → Moves (block_base_height v) v w
unfolding pop_type
pop_type-Moves t v w s h = elim (Bool-cases (leb v.current_stack_depth (block_base_height v))) [
  | inl at_base ↦ elim (Bool-cases v.is_unreachable) [
    | inl dead ↦
        let same : v ≡ w =
          ap (λ (p : WahType × Context). p.1) (ok-inj (simp (at_base, dead) at h)) in
        subst (Moves (block_base_height v) v) same (Moves-refl (block_base_height v) v s)
    | inr live ↦ cc (simp (at_base, live) at h)
  ]
  | inr above ↦ elim (List-cases v.type_stack) [
    | inl e ↦ absurd (ground (arith, ap length e, s.in_step))
    | inr (x, xs, e) ↦
        let lt : block_base_height v < v.current_stack_depth = ground arith in
        let same : popped v xs ≡ w =
          ap (λ (p : WahType × Context). p.1) (ok-inj (sym (pop_type-cons v x xs e lt) ∙ h)) in
        subst (Moves (block_base_height v) v) same (popped-Moves v x xs s e lt)
  ]
]

pub pop_and_match_type-Moves :
    (t : WahType) (v w : Context)
    → Steady (block_base_height v) v
    → pop_and_match_type v t ≡ ok w
    → Moves (block_base_height v) v w
unfolding pop_and_match_type
pop_and_match_type-Moves t v w s h =
    let ((x, u), e, k) = >>=-eq-ok (pop_type v) _ h in
    let (_, _, l) = >>=-eq-ok (validate_type_match u.module_ x t) _ k in
    subst (Moves (block_base_height v) v) (ok-inj l) (pop_type-Moves x v u s e)

-- The base is that of the innermost block, which popping leaves alone.
pub pop_types-Moves :
    (ts : List WahType) (v w : Context)
    → Steady (block_base_height v) v
    → pop_types v ts ≡ ok w
    → Moves (block_base_height v) v w
unfolding pop_types
pop_types-Moves [] v w s h =
    subst (Moves (block_base_height v) v) (ok-inj h) (Moves-refl (block_base_height v) v s)
pop_types-Moves (t ∷ ts) v w s h =
    let (u, e, k) = >>=-eq-ok (pop_types v ts) _ h in
    let first = pop_types-Moves ts v u s e in
    let base : block_base_height u ≡ block_base_height v = ap height_of first.control in
    let second =
      pop_and_match_type-Moves t u w (subst (λ b. Steady b u) (sym base) (Moves-Steady first)) k in
    Moves-trans first (subst (λ b. Moves b u w) base second)

-- The last type is on top.
unfoldable pub on_top : List WahType → List WahType → List WahType
on_top [] stack = stack
on_top (t ∷ ts) stack = on_top ts (t ∷ stack)

pub push_types-Moves :
    (base : ℕ) (ts : List WahType) (v w : Context)
    → Steady base v
    → push_types v ts ≡ ok w
    → Moves base v w × (w.type_stack ≡ on_top ts v.type_stack)
unfolding push_types on_top
push_types-Moves base [] v w s h =
    subst (λ x. Moves base v x × (x.type_stack ≡ v.type_stack)) (ok-inj h)
      (Moves-refl base v s, refl)
push_types-Moves base (t ∷ ts) v w s h =
    let (u, e, k) = >>=-eq-ok (push_type v t) _ h in
    let (first, pushed) = push_type-Moves base t v u s e in
    let (rest, all) = push_types-Moves base ts u w (Moves-Steady first) k in
    (Moves-trans first rest, all ∙ ap (on_top ts) pushed)
