-- ===== src/Validation/Control/Steps.antt =====
-- The steps of the validator that touch its stacks, one by one.
use mathlib.Core.Path.{subst}
use wah.Base.{
  ℕ, ◌≡◌, refl, sym, Bool, true, false, not, ltb, ◌==◌, ◌&&◌, List, ◌∷◌, length, some, ==_iff,
}
use wah.Status.{Error, Result, ok, ensure, ◌>>◌, >>=-eq-ok, ok-inj, validation_failed, too_large}
use wah.Types.{WahType, FuncType}
use wah.Validation.{
  Context, Frame, Opcode, LocalInits, push_type, pop_type, pop_types, push_types, mark_unreachable,
  init_local,
}
use wah.Validation.Control.{
  enter_block, else_block, end_block, open_block, test_condition, new_frame, opened, close_block,
  left, is_if, reachable, check_implicit_else, else_at, end_at, max_control_depth,
}

-- What an instruction does to the stacks: it pops an operand, pushes one, leaves the reachable code,
-- initializes a local, or begins, divides or ends a block.
pub data Step : Context → Context → Type 0 where
  pops : (t : WahType) {v w : Context} → pop_type v ≡ ok (t, w) → Step v w
  pushes : (t : WahType) {v w : Context} → push_type v t ≡ ok w → Step v w
  leaves : {v : Context} → Step v (mark_unreachable v)
  inits :
      (li : LocalInits) (i : ℕ) (t : WahType) {v : Context}
      → v.local_inits ≡ some li
      → Step v (record v { local_inits = some (init_local v.func_type li i t) })
  enters : (op : Opcode) (bt : FuncType) {v w : Context} → enter_block op bt v ≡ ok w → Step v w
  elses : {v w : Context} → else_block v ≡ ok w → Step v w
  ends : {v w : Context} → end_block v ≡ ok w → Step v w

pub ensure-ok :
    {A : Type 0} (b : Bool) (e : Error) (m : Result A) {a : A}
    → (ensure b e >> m) ≡ ok a
    → (b ≡ true) × (m ≡ ok a)
ensure-ok true e m h = (refl, h)
ensure-ok false e m h = cc

-- What entering a block goes through.
pub record Entered (op : Opcode) (bt : FuncType) (v w : Context) : Type 0 where
  pub tested : Context
  pub test : test_condition op v ≡ ok tested
  pub popped : Context
  pub pop :
      pop_types
        (record tested { control_stack = new_frame op bt tested ∷ tested.control_stack })
        bt.param_types
      ≡ ok popped
  pub pushed : Context
  pub push :
      push_types (opened (new_frame op bt tested) tested.control_stack popped) bt.param_types
      ≡ ok pushed
  pub result : w ≡ reachable pushed

pub enter_block-Entered :
    (op : Opcode) (bt : FuncType) (v w : Context) → enter_block op bt v ≡ ok w → Entered op bt v w
unfolding enter_block
enter_block-Entered op bt v w h =
    let (t, d, l) = >>=-eq-ok (test_condition op v) _ h in
    let (_, m) =
      ensure-ok (ltb (length t.control_stack) max_control_depth) too_large (open_block op bt t) l in
    let (u, e, k) =
      >>=-eq-ok
        (pop_types (record t { control_stack = new_frame op bt t ∷ t.control_stack })
          bt.param_types)
        _ m in
    let (x, e', k') =
      >>=-eq-ok (push_types (opened (new_frame op bt t) t.control_stack u) bt.param_types) _ k in
    record {
      tested = t;
      test = d;
      popped = u;
      pop = e;
      pushed = x;
      push = e';
      result = sym (ok-inj k');
    }

-- What an else goes through, behind its guard.
pub record Elsed (f : Frame) (fs : List Frame) (v w : Context) : Type 0 where
  pub popped : Context
  pub pop :
      pop_types
        (record v { control_stack = (record f { else_found = true }) ∷ fs })
        f.block_type.result_types
      ≡ ok popped
  pub emptied : popped.current_stack_depth ≡ f.stack_height
  pub pushed : Context
  pub push : push_types (close_block f popped) f.block_type.param_types ≡ ok pushed
  pub result : w ≡ reachable pushed

-- What an end goes through.
pub record Ended (f : Frame) (fs : List Frame) (v w : Context) : Type 0 where
  pub popped : Context
  pub pop : pop_types v f.block_type.result_types ≡ ok popped
  pub emptied : popped.current_stack_depth ≡ f.stack_height
  pub push : push_types (left f fs (close_block f popped)) f.block_type.result_types ≡ ok w

pub else_block-Elsed :
    (f : Frame) (fs : List Frame) (v w : Context)
    → v.control_stack ≡ f ∷ fs
    → else_block v ≡ ok w
    → Elsed f fs v w
unfolding else_block
else_block-Elsed f fs v w c h =
    let (_, h1) =
      ensure-ok (is_if f.opcode && not f.else_found) validation_failed _
        (subst (λ s. else_at v s ≡ ok w) c h) in
    let (u, e, h2) =
      >>=-eq-ok
        (pop_types (record v { control_stack = (record f { else_found = true }) ∷ fs })
          f.block_type.result_types)
        _ h1 in
    let (at, h3) = ensure-ok (u.current_stack_depth == f.stack_height) validation_failed _ h2 in
    let (x, e', h4) = >>=-eq-ok (push_types (close_block f u) f.block_type.param_types) _ h3 in
    record {
      popped = u;
      pop = e;
      emptied = (==_iff _ _).0 at;
      pushed = x;
      push = e';
      result = sym (ok-inj h4);
    }

pub end_block-Ended :
    (f : Frame) (fs : List Frame) (v w : Context)
    → v.control_stack ≡ f ∷ fs
    → end_block v ≡ ok w
    → Ended f fs v w
unfolding end_block
end_block-Ended f fs v w c h =
    let (_, _, h1) = >>=-eq-ok (check_implicit_else v f) _ (subst (λ s. end_at v s ≡ ok w) c h) in
    let (u, e, h2) = >>=-eq-ok (pop_types v f.block_type.result_types) _ h1 in
    let (at, h3) = ensure-ok (u.current_stack_depth == f.stack_height) validation_failed _ h2 in
    record { popped = u; pop = e; emptied = (==_iff _ _).0 at; push = h3 }
