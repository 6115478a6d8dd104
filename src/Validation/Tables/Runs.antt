-- ===== src/Validation/Tables/Runs.antt =====
-- A br_table as steps of the validator.
use mathlib.Core.Path.{subst}
use wah.Base.{ℕ, ◌<◌, ◌≡◌, not, ◌&&◌, ltb, List, [], ◌∷◌, length, get_or, Bool-cases, inl, inr}
use wah.Status.{ok, >>=-eq-ok, ok-inj}
use wah.Types.{WahType, i32}
use wah.Types.Subtype.{validate_type_match}
use wah.Validation.{Context, pop_type, pop_and_match_type, at_unreachable_base, mark_unreachable}
use wah.Validation.Control.Moves.{pop_type-Moves}
use wah.Validation.Control.Nested.{IsNested}
use wah.Validation.Control.Steps.{pops}
use wah.Validation.Control.Restores.{start}
use wah.Validation.Control.Branches.{resolve_br_target}
use wah.Validation.Control.Branches.Runs.{
  Inner, Inner-trans, Moves-Inner, pop_and_match_type-Inner, mark_unreachable-Inner,
}
use wah.Validation.Tables.{
  Labels, BrTable, group_targets, no_groups, check_counts, drops_of, pop_each, match_records,
  pop_table, table_at, br_table,
}

pop_each-Inner :
    {n : ℕ} (ts : List WahType) (v : Context) (r : List WahType × Context)
    → IsNested v
    → n < length v.control_stack
    → pop_each v ts ≡ ok r
    → Inner n v r.1
unfolding pop_each
pop_each-Inner {n} [] v r i h e =
    subst (λ (q : List WahType × Context). Inner n v q.1) (ok-inj e) (start, i, h)
pop_each-Inner {n} (t ∷ ts) v r i h e =
    let ((ps, u), p, k) = >>=-eq-ok (pop_each v ts) _ e in
    let (s, j, l) = pop_each-Inner {n = n} ts v (ps, u) i h p in
    let ((x, w), q, m) = >>=-eq-ok (pop_type u) _ k in
    let (_, _, o) = >>=-eq-ok (validate_type_match w.module_ x t) _ m in
    let last : Inner n u w = Moves-Inner j l (pops x q) (pop_type-Moves x u w j.steady q).control in
    subst (λ (q : List WahType × Context). Inner n v q.1) (ok-inj o) (Inner-trans (s, j, l) last)

pop_table-Inner :
    {n : ℕ} (types : List WahType) (symbols : List ℕ) (v w : Context)
    → IsNested v
    → n < length v.control_stack
    → pop_table v types symbols ≡ ok w
    → Inner n v w
pop_table-Inner {n} types symbols v w i h e =
    elim (Bool-cases (ltb 0 (length types) && not (at_unreachable_base v))) [
      | inr nothing_popped ↦ subst (Inner n v) (ok-inj (rw nothing_popped at e)) (start, i, h)
      | inl popped ↦
          let (r, p, k) = >>=-eq-ok (pop_each v types) _ (rw popped at e) in
          let (_, _, m) = >>=-eq-ok (match_records r.1 r.0 symbols) _ k in
          subst (Inner n v) (ok-inj m) (pop_each-Inner types v r i h p)
    ]

pub br_table-Inner :
    {n : ℕ} (num_targets : ℕ) (labels : List ℕ) (l : Labels) (v : Context)
    (r : Context × (BrTable × Labels))
    → IsNested v
    → n < length v.control_stack
    → br_table num_targets labels l v ≡ ok r
    → Inner n v r.0
unfolding br_table
br_table-Inner {n} num_targets labels l v r i h e =
    let (g, _, k) = >>=-eq-ok (group_targets (length v.control_stack) labels (no_groups l)) _ e in
    let (u, t, m) = >>=-eq-ok (pop_and_match_type v i32) _ k in
    let at = resolve_br_target u (get_or g.symbols (get_or g.targets num_targets 0) 0) in
    let (q, o, z) = >>=-eq-ok (table_at u g at) _ m in
    let (_, _, o1) = >>=-eq-ok (check_counts u (length at.types) g.symbols) _ o in
    let (_, _, o2) = >>=-eq-ok (drops_of u (length at.types) g.symbols) _ o1 in
    let (w, p, o3) = >>=-eq-ok (pop_table u at.types g.symbols) _ o2 in
    let (s, j, a) = pop_and_match_type-Inner {n = n} i32 v u i h t in
    let (s', j', a') = pop_table-Inner {n = n} at.types g.symbols u w j a p in
    let all : Inner n v (mark_unreachable w) =
      Inner-trans (s, j, a) (Inner-trans (s', j', a') (mark_unreachable-Inner w j' a')) in
    let left_at : Inner n v q.0 =
      subst (λ (y : Context × BrTable). Inner n v y.0) (ok-inj o3) all in
    subst (λ (y : Context × (BrTable × Labels)). Inner n v y.0) (ok-inj z) left_at
