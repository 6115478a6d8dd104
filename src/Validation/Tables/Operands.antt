-- ===== src/Validation/Tables/Operands.antt =====
-- A br_table in a block.
use mathlib.Core.Path.{subst}
use wah.Base.{
  ℕ, zero, suc, ◌+◌, ◌-◌, ◌≤◌, ◌≡◌, refl, sym, ap, ◌∙◌, false, ◌||◌, leb, ◌==◌, if◌then◌else◌, List,
  [], ◌∷◌, length, drop, get_or, get_elem?, some, arith, ==_iff,
}
use wah.Status.{ok, >>=-eq-ok, ok-inj, validation_failed}
use wah.Types.{WahType, FuncType, i32}
use wah.Validation.{Context, Opcode, pop_and_match_type}
use wah.Validation.Control.{enter_block}
use wah.Validation.Control.Moves.{pop_and_match_type-Moves, on_top}
use wah.Validation.Control.Nested.{IsNested}
use wah.Validation.Control.Steps.{ensure-ok, enter_block-Entered}
use wah.Validation.Control.Blocks.{Moves-Inside}
use wah.Validation.Control.Restores.{Run, enter_block-Inside, Run-Inside}
use wah.Validation.Control.Branches.{Target, resolve_br_target, is_loop}
use wah.Validation.Control.Branches.Operands.{Inside-target}
use wah.Validation.Tables.{
  Labels, Grouping, group_targets, no_groups, check_counts, drop_of, drops_of, pop_table, BrTable,
  table_at, br_table, record_cap,
}
use wah.Validation.Tables.Records.{Named, group_targets-Named}
use wah.Validation.Tables.Stamps.{IsStamped}

-- What a br_table goes through.
pub record Tabled (labels : List ℕ) (l : Labels) (v : Context) (r : Context × (BrTable × Labels))
    : Type 0 where
  pub grouped : Grouping
  pub group : group_targets (length v.control_stack) labels (no_groups l) ≡ ok grouped
  pub tested : Context
  pub test : pop_and_match_type v i32 ≡ ok tested
  pub count : ℕ
  pub counts : check_counts tested count grouped.symbols ≡ ok tt
  pub drops : drops_of tested count grouped.symbols ≡ ok r.1.0.drops
  pub keeps : r.1.0.keep ≡ (if tested.is_unreachable then 0 else count)
  pub symbols : r.1.0.symbols ≡ grouped.symbols
  pub targets : r.1.0.targets ≡ grouped.targets
  pub labels_after : r.1.1 ≡ grouped.labels

br_table-Tabled :
    (num_targets : ℕ) (labels : List ℕ) (l : Labels) (v : Context)
    (r : Context × (BrTable × Labels))
    → br_table num_targets labels l v ≡ ok r
    → Tabled labels l v r
unfolding br_table
br_table-Tabled num_targets labels l v r h =
    let (g, e, k) = >>=-eq-ok (group_targets (length v.control_stack) labels (no_groups l)) _ h in
    let (u, t, m) = >>=-eq-ok (pop_and_match_type v i32) _ k in
    let at = resolve_br_target u (get_or g.symbols (get_or g.targets num_targets 0) 0) in
    let (q, o, z) = >>=-eq-ok (table_at u g at) _ m in
    let (_, c, o1) = >>=-eq-ok (check_counts u (length at.types) g.symbols) _ o in
    let (ds, d, o2) = >>=-eq-ok (drops_of u (length at.types) g.symbols) _ o1 in
    let (w, _, o3) = >>=-eq-ok (pop_table u at.types g.symbols) _ o2 in
    let table : q.1 ≡ r.1.0 = ap (λ (s : Context × (BrTable × Labels)). s.1.0) (ok-inj z) in
    let made = ap (λ (s : Context × BrTable). s.1) (ok-inj o3) ∙ table in
    record {
      grouped = g;
      group = e;
      tested = u;
      test = t;
      count = length at.types;
      counts = c;
      drops = d ∙ ap (λ (b : BrTable). ok b.drops) made;
      keeps = sym (ap (λ (b : BrTable). b.keep) made);
      symbols = sym (ap (λ (b : BrTable). b.symbols) made);
      targets = sym (ap (λ (b : BrTable). b.targets) made);
      labels_after = sym (ap (λ (s : Context × (BrTable × Labels)). s.1.1) (ok-inj z));
    }

drops_of-cons :
    (v : Context) (count x : ℕ) (symbols drops : List ℕ)
    → drops_of v count (x ∷ symbols) ≡ ok drops
    → v.is_unreachable ≡ false
    → ((resolve_br_target v x).stack_height + count ≤ v.current_stack_depth)
      × (rest : List ℕ) × (drops_of v count symbols ≡ ok rest)
      × (drops ≡ (v.current_stack_depth - (resolve_br_target v x).stack_height - count) ∷ rest)
drops_of-cons v count x symbols drops h live =
    let (fits, k) =
      ensure-ok
        (v.is_unreachable
          || leb ((resolve_br_target v x).stack_height + count) v.current_stack_depth)
        validation_failed _ h in
    let (rest, d, m) = >>=-eq-ok (drops_of v count symbols) _ k in
    let here : drop_of v count x
        ≡ v.current_stack_depth - (resolve_br_target v x).stack_height - count =
      simp live refl in
    (ground (arith, fits, live), rest, d, sym (ok-inj m) ∙ ap (λ q. q ∷ rest) here)

-- Each record of the table has the drop of its label.
drops_of-at :
    (v : Context) (count : ℕ) (symbols drops : List ℕ) (i label : ℕ)
    → drops_of v count symbols ≡ ok drops
    → v.is_unreachable ≡ false
    → get_elem? symbols i ≡ some label
    → (get_elem? drops i
        ≡ some (v.current_stack_depth - (resolve_br_target v label).stack_height - count))
      × ((resolve_br_target v label).stack_height + count ≤ v.current_stack_depth)
drops_of-at v count [] drops i label h live e = cc
drops_of-at v count (x ∷ symbols) drops zero label h live e =
    let (fits, rest, _, all) = drops_of-cons v count x symbols drops h live in
    let same : x ≡ label = cc in
    subst
      (λ y.
        (get_elem? drops zero
          ≡ some (v.current_stack_depth - (resolve_br_target v y).stack_height - count))
        × ((resolve_br_target v y).stack_height + count ≤ v.current_stack_depth))
      same (ap (λ l. get_elem? l 0) all, fits)
drops_of-at v count (x ∷ symbols) drops (suc i) label h live e =
    let (_, rest, d, all) = drops_of-cons v count x symbols drops h live in
    let (found, fits) = drops_of-at v count symbols rest i label d live e in
    (ap (λ l. get_elem? l (suc i)) all ∙ found, fits)

check_counts-at :
    (v : Context) (count : ℕ) (symbols : List ℕ) (i label : ℕ)
    → check_counts v count symbols ≡ ok tt
    → get_elem? symbols i ≡ some label
    → length (resolve_br_target v label).types ≡ count
check_counts-at v count [] i label h e = cc
check_counts-at v count (x ∷ symbols) zero label h e =
    let (same, _) =
      ensure-ok (length (resolve_br_target v x).types == count) validation_failed
        (check_counts v count symbols) h in
    let equal : x ≡ label = cc in
    subst (λ y. length (resolve_br_target v y).types ≡ count) equal ((==_iff _ _).0 same)
check_counts-at v count (x ∷ symbols) (suc i) label h e =
    let (_, k) =
      ensure-ok (length (resolve_br_target v x).types == count) validation_failed
        (check_counts v count symbols) h in
    check_counts-at v count symbols i label k e

Named-at :
    (symbols targets labels : List ℕ) (i label : ℕ)
    → Named symbols targets labels
    → get_elem? labels i ≡ some label
    → (r : ℕ) × (get_elem? targets i ≡ some r) × (get_elem? symbols r ≡ some label)
Named-at symbols [] [] i label n e = cc
Named-at symbols [] (x ∷ labels) i label n e = absurd n
Named-at symbols (y ∷ targets) [] i label n e = absurd n
Named-at symbols (y ∷ targets) (x ∷ labels) zero label n e =
    let same : x ≡ label = cc in (y, refl, n.0 ∙ ap some same)
Named-at symbols (y ∷ targets) (x ∷ labels) (suc i) label n e =
    Named-at symbols targets labels i label n.1 e

-- A br_table with `num_targets` targets and a default, where at most 256 blocks are open and no stamp
-- of the labels is later than their serial: each target's record has the target's label, there are no
-- more records than there is room for, and the labels are fit for the next table, also when the serial
-- wraps around.
pub br_table-records :
    (num_targets : ℕ) (labels : List ℕ) (l : Labels) (v : Context)
    (r : Context × (BrTable × Labels))
    → length labels ≡ suc num_targets
    → length v.control_stack ≤ 256
    → IsStamped l
    → br_table num_targets labels l v ≡ ok r
    → Named r.1.0.symbols r.1.0.targets labels
      × (length r.1.0.symbols ≤ record_cap num_targets (length v.control_stack))
      × IsStamped r.1.1
br_table-records num_targets labels l v r n sp s h =
    let t = br_table-Tabled num_targets labels l v r h in
    let (named, few, stamped) =
      group_targets-Named num_targets (length v.control_stack) labels l t.grouped n sp s t.group in
    (
      subst (λ symbols. Named symbols r.1.0.targets labels) (sym t.symbols)
          (subst (λ targets. Named t.grouped.symbols targets labels) (sym t.targets) named),
      omega (arith, few, ap length t.symbols),
      subst IsStamped (sym t.labels_after) stamped,
    )

-- A br_table in reachable code whose target or default `i` is a block, a loop or an if around it,
-- behind any number of steps in that block: the target has a record, whose drop, with the operands
-- that are kept, leaves of the operands behind the index the ones that were below the block's
-- parameters at its beginning. As many are kept as the block's label takes. At most 256 blocks are
-- open, and no stamp of the labels is later than their serial.
pub br_table-operands :
    (op : Opcode) (bt : FuncType) (num_targets : ℕ) (labels : List ℕ) (l : Labels) (v w x : Context)
    (r : Context × (BrTable × Labels)) (i label : ℕ)
    → IsNested v
    → enter_block op bt v ≡ ok w
    → Run (length v.control_stack) w x
    → x.is_unreachable ≡ false
    → length labels ≡ suc num_targets
    → length x.control_stack ≤ 256
    → IsStamped l
    → get_elem? labels i ≡ some label
    → label + suc (length v.control_stack) ≡ length x.control_stack
    → br_table num_targets labels l x ≡ ok r
    → (rest : List WahType) × (u : Context) × (index : ℕ) × (dropped : ℕ) × (w.type_stack
        ≡ on_top bt.param_types rest)
      × (pop_and_match_type x i32 ≡ ok u)
      × (get_elem? r.1.0.targets i ≡ some index)
      × (get_elem? r.1.0.drops index ≡ some dropped)
      × (r.1.0.keep ≡ length (if is_loop op then bt.param_types else bt.result_types))
      × (drop (r.1.0.keep + dropped) u.type_stack ≡ rest)
br_table-operands op bt num_targets labels l v w x r i label n h s live len sp stamped e at b =
    let d = enter_block-Entered op bt v w h in
    let (inside, begins, nested) = enter_block-Inside d n in
    let (n', i') = Run-Inside s nested inside in
    let t = br_table-Tabled num_targets labels l x r b in
    let m = pop_and_match_type-Moves i32 x t.tested n'.steady t.test in
    let j = Moves-Inside n' m i' in
    let target = Inside-target label t.tested j (omega (arith, at, ap length m.control)) in
    let (named, _, _) =
      group_targets-Named num_targets (length x.control_stack) labels l t.grouped len sp stamped
        t.group in
    let (index, found, symbol) =
      Named-at t.grouped.symbols t.grouped.targets labels i label named e in
    let alive : t.tested.is_unreachable ≡ false = m.reach ∙ live in
    let (dropped, fits) =
      drops_of-at t.tested t.count t.grouped.symbols r.1.0.drops index label t.drops alive symbol in
    let count = check_counts-at t.tested t.count t.grouped.symbols index label t.counts symbol in
    let height = ap (λ (q : Target). q.stack_height) target in
    let keeps : r.1.0.keep ≡ t.count = t.keeps ∙ simp alive refl in
    let down : r.1.0.keep
          + (t.tested.current_stack_depth
              - (resolve_br_target t.tested label).stack_height
              - t.count)
        ≡ length t.tested.type_stack - (resolve_br_target t.tested label).stack_height =
      omega (arith, keeps, fits, m.in_step) in
    (
      d.popped.type_stack,
      t.tested,
      index,
      _,
      begins,
      t.test,
      ap (λ q. get_elem? q i) t.targets ∙ found,
      dropped,
      keeps ∙ sym count ∙ ap (λ (q : Target). length q.types) target,
      ap (λ q. drop q t.tested.type_stack) down
          ∙ ap (λ q. drop (length t.tested.type_stack - q) t.tested.type_stack) height
          ∙ j.operands,
    )
