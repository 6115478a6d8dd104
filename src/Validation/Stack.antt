-- ===== src/Validation/Stack.antt =====
-- The operand stack of the validator and its depth.
use mathlib.Core.Path.{subst}
use wah.Base.{◌+◌, ◌-◌, ◌≤◌, ◌<◌, ◌≡◌, refl, ap, ◌∙◌, Bool, true, false, not, ltb, leb, arith}
use wah.Base.{List, [], ◌∷◌, length, drop, length-drop, if◌then◌else◌}
use wah.Base.Int.{◌==ℤ◌, ==ℤ_iff}
use wah.Status.{ok, ensure, ◌>>=◌, ◌>>◌, >>=-eq-ok, ok-inj, too_large, validation_failed}
use wah.Types.{WahType, FuncType, bot, is_nullable, as_non_null}
use wah.Types.Section.{max_type_stack_size}
use wah.Types.Subtype.{TypeTable, is_subtype, validate_type_match}
use wah.Validation.{
  Context, push_type, pop_type, pop_and_match_type, pop_types, push_types, mark_unreachable,
}
use wah.Validation.{
  block_base_height, pop_top, pop_bottom, height_of, pop_func_params, push_func_results,
}

-- The depth is the length of the stack, at least the height of the innermost block and at most the
-- greatest depth seen, which the limit bounds.
pub record Inv (v : Context) : Type 0 where
  pub in_step : length v.type_stack ≡ v.current_stack_depth
  pub above_base : block_base_height v ≤ v.current_stack_depth
  pub seen : v.current_stack_depth ≤ v.max_stack_depth
  pub bounded : v.max_stack_depth ≤ max_type_stack_size

-- The operands, the blocks and the code's reachability are the same.
pub record SameStack (v w : Context) : Type 0 where
  pub types : w.type_stack ≡ v.type_stack
  pub depth : w.current_stack_depth ≡ v.current_stack_depth
  pub blocks : w.control_stack ≡ v.control_stack
  pub reachable : w.is_unreachable ≡ v.is_unreachable
  pub table : w.module_ ≡ v.module_

pub is_subtype_refl : (m : TypeTable) (t : WahType) → is_subtype m t t ≡ true
unfolding is_subtype
is_subtype_refl m t = let h = (==ℤ_iff t t).1 refl in ground arith

pub validate_type_match_refl : (m : TypeTable) (t : WahType) → validate_type_match m t t ≡ ok tt
unfolding validate_type_match
validate_type_match_refl m t = go (t ==ℤ bot) _ (is_nullable t) (is_subtype_refl m (as_non_null t))
  where
    go :
        (b s n : Bool)
        → s ≡ true
        → (if b
            then ok (tt {0})
            else ensure s validation_failed
              >> (if n then ok tt else ensure (not n) validation_failed))
          ≡ ok tt
    go true s n h = refl
    go false true true h = refl
    go false true false h = refl
    go false false n h = cc

-- What `push_type` does when it succeeds.
abbrev Pushed : WahType → Context → Context → Type 0
Pushed t v w =
    (w.type_stack ≡ t ∷ v.type_stack)
    × (w.current_stack_depth ≡ v.current_stack_depth + 1)
    × (w.control_stack ≡ v.control_stack)
    × (w.is_unreachable ≡ v.is_unreachable)
    × (w.module_ ≡ v.module_)
    × (Inv v → Inv w)

push_type-Pushed : (t : WahType) (v w : Context) → push_type v t ≡ ok w → Pushed t v w
unfolding push_type
push_type-Pushed t v w h = go (ltb (length v.type_stack) max_type_stack_size) refl h
  where
    pushed : Context
    pushed = record v {
      type_stack = t ∷ v.type_stack;
      current_stack_depth = v.current_stack_depth + 1;
      max_stack_depth =
          if ltb v.max_stack_depth (v.current_stack_depth + 1)
          then v.current_stack_depth + 1
          else v.max_stack_depth;
    }

    inv : ltb (length v.type_stack) max_type_stack_size ≡ true → Inv v → Inv pushed
    inv c i = record {
      in_step = omega (arith, i.in_step);
      above_base = omega (arith, i.above_base);
      seen = ground (arith, i.seen);
      bounded = ground (arith, i.bounded, i.in_step, i.seen);
    }

    go :
        (b : Bool)
        → ltb (length v.type_stack) max_type_stack_size ≡ b
        → (ensure b too_large >> ok (record v { type_stack = t ∷ v.type_stack }) >>= λ u.
            ok (record u {
              current_stack_depth = u.current_stack_depth + 1;
              max_stack_depth =
                  if ltb u.max_stack_depth (u.current_stack_depth + 1)
                  then u.current_stack_depth + 1
                  else u.max_stack_depth;
            }))
          ≡ ok w
        → Pushed t v w
    go true c k = subst (Pushed t v) (ok-inj k) (refl, refl, refl, refl, refl, inv c)
    go false c k = cc

abbrev pub popped : Context → List WahType → Context
popped u ts = record u {
  type_stack = ts;
  lwm = if ltb (length ts) u.lwm then length ts else u.lwm;
  current_stack_depth = u.current_stack_depth - 1;
}

pub pop_type-cons :
    (u : Context) (t : WahType) (ts : List WahType)
    → u.type_stack ≡ t ∷ ts
    → block_base_height u < u.current_stack_depth
    → pop_type u ≡ ok (t, popped u ts)
unfolding pop_type
pop_type-cons u t ts e h = go (leb u.current_stack_depth (block_base_height u)) refl
  where
    go :
        (b : Bool)
        → leb u.current_stack_depth (block_base_height u) ≡ b
        → (if b then pop_bottom u else pop_top u u.type_stack) ≡ ok (t, popped u ts)
    go true c = ground arith
    go false c = ap (pop_top u) e

pop_and_match_type-cons :
    (u : Context) (t : WahType) (ts : List WahType)
    → u.type_stack ≡ t ∷ ts
    → block_base_height u < u.current_stack_depth
    → pop_and_match_type u t ≡ ok (popped u ts)
unfolding pop_and_match_type
pop_and_match_type-cons u t ts e h =
    ap (λ r. r >>= λ p. validate_type_match p.1.module_ p.0 t >> ok p.1) (pop_type-cons u t ts e h)
    ∙ ap (λ r. r >> ok (popped u ts)) (validate_type_match_refl u.module_ t)

-- A code's operands of the given types, pushed and popped: the stack is as it was before.
pop_types-push_types :
    (ts : List WahType) (v u : Context)
    → Inv v
    → push_types v ts ≡ ok u
    → (w : Context) × (pop_types u ts ≡ ok w) × SameStack v w
unfolding push_types pop_types
pop_types-push_types [] v u i h = (u, refl, subst (SameStack v) (ok-inj h) same)
  where
    same : SameStack v v
    same = record { types = refl; depth = refl; blocks = refl; reachable = refl; table = refl }
pop_types-push_types (t ∷ ts) v u i h =
    let (v1, e1, h1) = >>=-eq-ok (push_type v t) _ h in
    let (p, d, c, r, m, k) = push_type-Pushed t v v1 e1 in
    let (w1, ew, s) = pop_types-push_types ts v1 u (k i) h1 in
    (
      popped w1 v.type_stack,
      ap (λ r. r >>= λ x. pop_and_match_type x t) ew
          ∙ pop_and_match_type-cons w1 t v.type_stack (s.types ∙ p)
              (omega (arith, ap height_of (s.blocks ∙ c), i.above_base, s.depth, d)),
      record {
        types = refl;
        depth = omega (arith, s.depth, d);
        blocks = s.blocks ∙ c;
        reachable = s.reachable ∙ r;
        table = s.table ∙ m;
      },
    )

-- After a call's results are pushed, a function that takes them as its parameters can be called: its
-- parameters are popped, and the operands, the blocks and the reachability are those before.
pub pop_func_params-push_func_results :
    (ft gt : FuncType) (v u : Context)
    → Inv v
    → gt.param_types ≡ ft.result_types
    → push_func_results v ft ≡ ok u
    → (w : Context) × (pop_func_params u gt ≡ ok w) × SameStack v w
pop_func_params-push_func_results ft gt v u i e h =
    let (w, k, s) = pop_types-push_types ft.result_types v u i h in (w, ap (pop_types u) e ∙ k, s)

abbrev Kept : Context → WahType × Context → Type 0
Kept v (t, u) = Inv u × (u.module_ ≡ v.module_)

pop_bottom-Kept : (v : Context) (r : WahType × Context) → Inv v → pop_bottom v ≡ ok r → Kept v r
pop_bottom-Kept v r i h = go v.is_unreachable h
  where
    go :
        (b : Bool)
        → (◌>>◌ {Next = WahType × Context} (ensure b validation_failed) (ok (bot, v))) ≡ ok r
        → Kept v r
    go true k = subst (Kept v) (ok-inj k) (i, refl)
    go false k = cc

pop_top-Kept :
    (v : Context) (ts : List WahType) (r : WahType × Context)
    → Inv v
    → v.type_stack ≡ ts
    → block_base_height v < v.current_stack_depth
    → pop_top v ts ≡ ok r
    → Kept v r
pop_top-Kept v [] r i e hb h = cc
pop_top-Kept v (t ∷ ts) r i e hb h = subst (Kept v) (ok-inj h) (
  record {
    in_step = omega (arith, i.in_step, ap length e);
    above_base = omega (arith, hb);
    seen = omega (arith, i.seen);
    bounded = i.bounded;
  },
  refl,
)

pop_type-Kept : (v : Context) (r : WahType × Context) → Inv v → pop_type v ≡ ok r → Kept v r
unfolding pop_type
pop_type-Kept v r i h = go (leb v.current_stack_depth (block_base_height v)) refl h
  where
    go :
        (b : Bool)
        → leb v.current_stack_depth (block_base_height v) ≡ b
        → (if b then pop_bottom v else pop_top v v.type_stack) ≡ ok r
        → Kept v r
    go true c k = pop_bottom-Kept v r i k
    go false c k = pop_top-Kept v v.type_stack r i refl (ground arith) k

pop_and_match_type-Inv :
    (v u : Context) (t : WahType) → Inv v → pop_and_match_type v t ≡ ok u → Inv u
unfolding pop_and_match_type
pop_and_match_type-Inv v u t i h =
    let ((a, w), e, k) = >>=-eq-ok (pop_type v) _ h in
    let (_, _, k') = >>=-eq-ok (validate_type_match w.module_ a t) _ k in
    subst Inv (ok-inj k') (pop_type-Kept v (a, w) i e).0

pop_types-Inv : (ts : List WahType) (v u : Context) → Inv v → pop_types v ts ≡ ok u → Inv u
unfolding pop_types
pop_types-Inv [] v u i h = subst Inv (ok-inj h) i
pop_types-Inv (t ∷ ts) v u i h =
    let (w, e, k) = >>=-eq-ok (pop_types v ts) _ h in
    pop_and_match_type-Inv w u t (pop_types-Inv ts v w i e) k

push_types-Inv : (ts : List WahType) (v u : Context) → Inv v → push_types v ts ≡ ok u → Inv u
unfolding push_types
push_types-Inv [] v u i h = subst Inv (ok-inj h) i
push_types-Inv (t ∷ ts) v u i h =
    let (w, e, k) = >>=-eq-ok (push_type v t) _ h in
    let (_, _, _, _, _, inv) = push_type-Pushed t v w e in push_types-Inv ts w u (inv i) k

-- A call of a function keeps the operand stack in step with its depth, at or above the height of the
-- innermost block, and within the limit of 1024 operands.
pub call-Inv :
    (ft : FuncType) (v u w : Context)
    → Inv v
    → pop_func_params v ft ≡ ok u
    → push_func_results u ft ≡ ok w
    → Inv w
call-Inv ft v u w i h k =
    push_types-Inv ft.result_types u w (pop_types-Inv ft.param_types v u i h) k

pop_type-bot :
    (v : Context)
    → v.current_stack_depth ≡ block_base_height v
    → v.is_unreachable ≡ true
    → pop_type v ≡ ok (bot, v)
unfolding pop_type
pop_type-bot v e h = go (leb v.current_stack_depth (block_base_height v)) v.is_unreachable refl h
  where
    go :
        (b r : Bool)
        → leb v.current_stack_depth (block_base_height v) ≡ b
        → r ≡ true
        → (if b
            then (◌>>◌ {Next = WahType × Context} (ensure r validation_failed) (ok (bot, v)))
            else pop_top v v.type_stack)
          ≡ ok (bot, v)
    go true true c h = refl
    go true false c h = cc
    go false r c h = ground arith

-- Leaving the reachable code keeps the stack in step with its depth, takes the depth down to the
-- height of the innermost block, and makes the next pop yield the bottom type and change nothing.
pub mark_unreachable-lem :
    (v : Context)
    → Inv v
    → Inv (mark_unreachable v)
      × ((mark_unreachable v).current_stack_depth ≡ block_base_height v)
      × (pop_type (mark_unreachable v) ≡ ok (bot, mark_unreachable v))
unfolding mark_unreachable pop_type
mark_unreachable-lem v i = go (ltb (block_base_height v) v.current_stack_depth) refl
  where
    left : Bool → Context
    left b =
        if b
        then record v {
          type_stack =
              drop
                (length v.type_stack
                  - (length v.type_stack - (v.current_stack_depth - block_base_height v)))
                v.type_stack;
          lwm =
              if ltb (length v.type_stack - (v.current_stack_depth - block_base_height v)) v.lwm
              then length v.type_stack - (v.current_stack_depth - block_base_height v)
              else v.lwm;
          current_stack_depth = block_base_height v;
          is_unreachable = true;
        }
        else record v { is_unreachable = true }

    go :
        (b : Bool)
        → ltb (block_base_height v) v.current_stack_depth ≡ b
        → Inv (left b)
          × ((left b).current_stack_depth ≡ block_base_height v)
          × (pop_type (left b) ≡ ok (bot, left b))
    go true c = (
      record {
        in_step = ground (
          arith,
          i.in_step,
          length-drop
              (length v.type_stack
                - (length v.type_stack - (v.current_stack_depth - block_base_height v)))
              v.type_stack,
        );
        above_base = omega arith;
        seen = omega (arith, i.seen, i.above_base);
        bounded = i.bounded;
      },
      refl,
      pop_type-bot (left true) refl refl,
    )
    go false c =
        let e : v.current_stack_depth ≡ block_base_height v = ground (arith, i.above_base) in
        (
          record {
            in_step = i.in_step;
            above_base = i.above_base;
            seen = i.seen;
            bounded = i.bounded;
          },
          e,
          pop_type-bot (left false) e refl,
        )
