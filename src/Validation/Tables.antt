-- ===== src/Validation/Tables.antt =====
-- br_table in the validator (`wah_validate_opcode`). Its labels are decoded; a table has the record of each
-- target in a list, which wah_br_table_set_target packs two per word. Allocations succeed.
pub mod Stamps
pub mod Records
pub mod Operands
pub mod Runs
mod Tests
use wah.Base.{
  ℕ, zero, suc, ◌+◌, ◌-◌, ◌%◌, ◌^◌, Bool, true, false, not, ◌&&◌, ◌||◌, ltb, leb, ◌==◌,
  if◌then◌else◌, List, [], ◌∷◌, ◌++◌, length, get_or, set, replicate,
}
use wah.Status.{Result, ok, ensure, ◌>>=◌, ◌>>◌, validation_failed}
use wah.Types.{WahType, i32}
use wah.Types.Subtype.{TypeTable, validate_type_match}
use wah.Validation.{
  Context, pop_type, pop_and_match_type, match_all, at_unreachable_base, mark_unreachable,
}
use wah.Validation.Control.Branches.{Target, resolve_br_target}

-- `wah_br_table_labels_t`
pub record Labels : Type 0 where
  pub stamps : List ℕ
  pub records : List ℕ
  pub serial : ℕ

-- The serial of the next table; when it wraps around, the stamps are cleared.
abbrev pub next_serial : Labels → Labels
next_serial l =
    let serial = (l.serial + 1) % 2 ^ 32 in
    if serial == 0
    then record l { stamps = replicate (length l.stamps) 0; serial = 1 }
    else record l { serial = serial }

-- The label of each record, and the record of each target.
pub record Grouping : Type 0 where
  pub labels : Labels
  pub symbols : List ℕ
  pub targets : List ℕ

abbrev pub new_record : Grouping → ℕ → Grouping
new_record g label = record g {
  labels = record g.labels {
    stamps = set g.labels.stamps label g.labels.serial;
    records = set g.labels.records label (length g.symbols % 2 ^ 16);
  };
  symbols = g.symbols ++ label ∷ [];
}

abbrev pub recorded : Grouping → ℕ → Grouping
recorded g label =
    if get_or g.labels.stamps label 0 == g.labels.serial then g else new_record g label

abbrev pub add_target : Grouping → ℕ → Grouping
add_target g label =
    let g = recorded g label in
    record g { targets = g.targets ++ get_or g.labels.records label 0 ∷ [] }

-- The loop over the targets and the default.
unfoldable pub group_targets : ℕ → List ℕ → Grouping → Result Grouping
group_targets control_sp [] g = ok g
group_targets control_sp (label ∷ labels) g =
    ensure (leb label control_sp) validation_failed
    >> group_targets control_sp labels (add_target g label)

abbrev pub record_cap : (num_targets control_sp : ℕ) → ℕ
record_cap num_targets control_sp =
    if ltb num_targets control_sp then num_targets + 1 else control_sp + 1

abbrev pub no_groups : Labels → Grouping
no_groups l = record { labels = next_serial l; symbols = []; targets = [] }

-- All labels take as many operands as the default.
abbrev pub check_counts : Context → ℕ → List ℕ → Result (Unit {0})
check_counts v count [] = ok tt
check_counts v count (label ∷ labels) =
    ensure (length (resolve_br_target v label).types == count) validation_failed
    >> check_counts v count labels

abbrev pub drop_of : Context → ℕ → ℕ → ℕ
drop_of v count label =
    if v.is_unreachable
    then 0
    else v.current_stack_depth - (resolve_br_target v label).stack_height - count

-- The operands that each record drops.
abbrev pub drops_of : Context → ℕ → List ℕ → Result (List ℕ)
drops_of v count [] = ok []
drops_of v count (label ∷ labels) =
    ensure
      (v.is_unreachable
        || leb ((resolve_br_target v label).stack_height + count) v.current_stack_depth)
      validation_failed
    >> (drops_of v count labels >>= λ drops. ok (drop_of v count label ∷ drops))

-- The operands that the default takes, with their types.
unfoldable pub pop_each : Context → List WahType → Result (List WahType × Context)
unfolding pop_type validate_type_match
pop_each v [] = ok ([], v)
pop_each v (t ∷ ts) = pop_each v ts >>= λ r.
    pop_type r.1 >>= λ p. validate_type_match p.1.module_ p.0 t >> ok (p.0 ∷ r.0, p.1)

-- The popped operands against each record.
abbrev pub match_records : Context → List WahType → List ℕ → Result (Unit {0})
match_records v popped [] = ok tt
match_records v popped (label ∷ labels) =
    match_all v.module_ popped (resolve_br_target v label).types >> match_records v popped labels

-- Nothing is popped, and nothing matched, at an unreachable base or where no operand is taken.
abbrev pub pop_table : Context → List WahType → List ℕ → Result Context
pop_table v types symbols =
    if ltb 0 (length types) && not (at_unreachable_base v)
    then (pop_each v types >>= λ r. match_records r.1 r.0 symbols >> ok r.1)
    else ok v

-- `wah_br_table_imm_t`
pub record BrTable : Type 0 where
  pub keep : ℕ
  pub symbols : List ℕ
  pub drops : List ℕ
  pub targets : List ℕ

abbrev pub table_at : Context → Grouping → Target → Result (Context × BrTable)
table_at v g default_ =
    let count = length default_.types in
    check_counts v count g.symbols
    >> (drops_of v count g.symbols >>= λ drops. pop_table v default_.types g.symbols >>= λ u. ok (
      mark_unreachable u,
      record {
        keep = if v.is_unreachable then 0 else count;
        symbols = g.symbols;
        drops = drops;
        targets = g.targets;
      },
    ))

-- A br_table with `num_targets` targets, whose labels come with the one of the default.
unfoldable pub br_table : ℕ → List ℕ → Labels → Context → Result (Context × (BrTable × Labels))
unfolding group_targets pop_each mark_unreachable pop_and_match_type
br_table num_targets labels l v =
    group_targets (length v.control_stack) labels (no_groups l) >>= λ g.
    pop_and_match_type v i32 >>= λ v.
    table_at v g (resolve_br_target v (get_or g.symbols (get_or g.targets num_targets 0) 0))
    >>= λ r. ok (r.0, (r.1, g.labels))
