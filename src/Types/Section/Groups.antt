-- ===== src/Types/Section/Groups.antt =====
-- The recursion groups of the type section (`wah_parse_type_section`).
use wah.Base.{
  ℕ, zero, suc, ◌+◌, ◌≡◌, refl, sym, ap, ◌∙◌, true, false, not, ◌||◌, ◌==◌, if◌then◌else◌, Bool,
  arith, All, List, [], ◌∷◌, ◌++◌, map, length, take, drop,
}
use mathlib.Core.Path.{subst, subst₂}
use wah.Status.{ok}
use wah.Types.{FuncType, TypeDef}
use wah.Types.Parse.{ParseState, pure, require_feature, shift_gc, next_byte, peek_byte}
use wah.Types.Decode.{decode_and_validate_count}
use wah.Types.Section.{
  parse_type_defs, parse_rec_groups, parse_rec_group, parse_single_type, parse_group_member,
  parse_group_members, check_all_types, reset_types, set_group, with_group,
}
use wah.Types.Section.{type_count, has_super, is_func}
use wah.Types.Section.Valid.{ValidFrom}
use wah.Types.Section.Keeps.{Keeps-pure, Keeps-require_feature, bind-eq, check_all_types-Valid}
use wah.Types.Section.Decodes.{Keeps-next_byte, Keeps-peek_byte, Keeps-decode_and_validate_count}
use wah.Types.Section.Added.{
  Added, length-++, append_nil, length-map, kept, Added-then, one_definition, take-append,
  drop-append,
}

parse_group_members-Added :
    (g : ℕ) (s t : ParseState)
    → parse_group_members g s ≡ (ok tt, t)
    → (news : List TypeDef) × (length news ≡ g) × Added news s t
unfolding parse_group_members parse_group_member
parse_group_members-Added zero s t h = ([], refl, kept (pure tt) (Keeps-pure tt) s h)
parse_group_members-Added (suc g) s t h =
    let (_, s1, e1, h1) = bind-eq parse_group_member (λ _. parse_group_members g) s h in
    let (p, x) =
      one_definition (λ p. p.1) (λ p. not (is_func p.1.kind) || has_super p.1 || not p.1.is_final)
        (type_count s.module_) s s1 e1 in
    let (news, l, y) = parse_group_members-Added g s1 t h1 in (p.1 ∷ news, ap suc l, Added-then x y)

abbrev pub InGroup : ℕ → ℕ → List TypeDef → Type 0
InGroup start size tds = All (λ td. (td.rec_group_start ≡ start) × (td.rec_group_size ≡ size)) tds

with_group-InGroup :
    (start size : ℕ) (tds : List TypeDef) → InGroup start size (map (with_group start size) tds)
with_group-InGroup start size [] = tt
with_group-InGroup start size (td ∷ tds) = ((refl, refl), with_group-InGroup start size tds)

-- The definitions from index `i` on are groups, one behind the other, and each definition records
-- where its group starts and how many it has.
pub data Grouped : ℕ → List TypeDef → Type 0 where
  no_group : {i : ℕ} → Grouped i []
  group :
      {i : ℕ} (members rest : List TypeDef)
      → InGroup i (length members) members
      → Grouped (i + length members) rest
      → Grouped i (members ++ rest)

set_group-Added :
    (news : List TypeDef) (s t u : ParseState)
    → Added news s t
    → set_group (type_count s.module_) (length news) t ≡ (ok tt, u)
    → Added (map (with_group (type_count s.module_) (length news)) news) s u
set_group-Added news s t u x h =
    let start : ℕ = type_count s.module_ in
    let size : ℕ = length news in
    let e : take start t.module_.type_defs
          ++ map (with_group start size) (drop start t.module_.type_defs)
        ≡ s.module_.type_defs ++ map (with_group start size) news =
      subst
        (λ ds.
          take start ds ++ map (with_group start size) (drop start ds)
          ≡ s.module_.type_defs ++ map (with_group start size) news)
        (sym x.defs)
        (rw (take-append s.module_.type_defs news, drop-append s.module_.type_defs news) refl) in
    let l : length t.module_.types ≡ length u.module_.types =
      ap (λ p. length p.1.module_.types) h in
    record {
      defs = sym (ap (λ p. p.1.module_.type_defs) h) ∙ e;
      lengths = omega (arith, x.lengths, l, length-map (with_group start size) news);
    }

type_count-kept : (s t : ParseState) → Added [] s t → type_count t.module_ ≡ type_count s.module_
type_count-kept s t k = ap length (k.defs ∙ sym (append_nil s.module_.type_defs))

-- What a group of the section adds.
abbrev OneGroup : ParseState → ParseState → Type 0
OneGroup s t =
    (members : List TypeDef) × InGroup (type_count s.module_) (length members) members
    × Added members s t

parse_rec_group-OneGroup : (s t : ParseState) → parse_rec_group s ≡ (ok tt, t) → OneGroup s t
unfolding parse_rec_group
parse_rec_group-OneGroup s t h =
    let (_, s1, e1, h1) = bind-eq (require_feature shift_gc) _ s h in
    let (_, s2, e2, h2) = bind-eq next_byte _ s1 h1 in
    let (g, s3, e3, h3) = bind-eq (decode_and_validate_count 1) _ s2 h2 in
    let (_, s4, e4, h4) =
      bind-eq (parse_group_members g) (λ _. set_group (type_count s3.module_) g) s3 h3 in
    let (news, l, x) = parse_group_members-Added g s3 s4 e4 in
    let k = Added-then (kept (require_feature shift_gc) (Keeps-require_feature shift_gc) s e1) (
      Added-then (kept next_byte Keeps-next_byte s1 e2)
        (kept (decode_and_validate_count 1) (Keeps-decode_and_validate_count 1) s2 e3)) in
    let y =
      set_group-Added news s3 s4 t x
        (subst (λ n. set_group (type_count s3.module_) n s4 ≡ (ok tt, t)) (sym l) h4) in
    let members : List TypeDef = map (with_group (type_count s3.module_) (length news)) news in
    (
      members,
      subst₂ (λ i n. InGroup i n members) (type_count-kept s s3 k)
          (sym (length-map (with_group (type_count s3.module_) (length news)) news))
          (with_group-InGroup (type_count s3.module_) (length news) news),
      Added-then k y,
    )

parse_single_type-OneGroup :
    (tag : ℕ) (s t : ParseState) → parse_single_type tag s ≡ (ok tt, t) → OneGroup s t
unfolding parse_single_type
parse_single_type-OneGroup tag s t h =
    let (p, x) =
      one_definition (λ p. with_group (type_count s.module_) 1 p.1)
        (λ p. not (is_func p.1.kind) || tag == 0x50 || tag == 0x4f) (type_count s.module_) s t h in
    (with_group (type_count s.module_) 1 p.1 ∷ [], ((refl, refl), tt), x)

one_round :
    (tag : ℕ) (s t : ParseState)
    → (if tag == 0x4e then parse_rec_group else parse_single_type tag) s ≡ (ok tt, t)
    → OneGroup s t
one_round tag s t h = go (tag == 0x4e) h
  where
    go :
        (b : Bool)
        → (if b then parse_rec_group else parse_single_type tag) s ≡ (ok tt, t)
        → OneGroup s t
    go true h = parse_rec_group-OneGroup s t h
    go false h = parse_single_type-OneGroup tag s t h

OneGroup-after : (s t u : ParseState) → Added [] s t → OneGroup t u → OneGroup s u
OneGroup-after s t u k (members, g, x) = (
  members,
  subst (λ i. InGroup i (length members) members) (type_count-kept s t k) g,
  Added-then k x,
)

parse_rec_groups-Grouped :
    (r : ℕ) (s t : ParseState)
    → parse_rec_groups r s ≡ (ok tt, t)
    → (news : List TypeDef) × Grouped (type_count s.module_) news × Added news s t
unfolding parse_rec_groups
parse_rec_groups-Grouped zero s t h = ([], no_group, kept (pure tt) (Keeps-pure tt) s h)
parse_rec_groups-Grouped (suc r) s t h =
    let (tag, s1, e1, h1) = bind-eq peek_byte _ s h in
    let (_, s2, e2, h2) =
      bind-eq (if tag == 0x4e then parse_rec_group else parse_single_type tag)
        (λ _. parse_rec_groups r) s1 h1 in
    let (members, g, x) =
      OneGroup-after s s1 s2 (kept peek_byte Keeps-peek_byte s e1) (one_round tag s1 s2 e2) in
    let (rest, gs, y) = parse_rec_groups-Grouped r s2 t h2 in
    let next : type_count s2.module_ ≡ type_count s.module_ + length members =
      ap length x.defs ∙ length-++ s.module_.type_defs members in
    (members ++ rest, group members rest g (subst (λ i. Grouped i rest) next gs), Added-then x y)

-- What a module's types satisfy: the definitions are groups one behind the other, and each of them is
-- valid at its index with its function type.
pub record ValidTypes (types : List FuncType) (defs : List TypeDef) : Type 0 where
  pub grouped : Grouped 0 defs
  pub valid : ValidFrom defs 0 types defs

-- When the type section is accepted, the definitions that the module then holds are recursion groups
-- one behind the other, each definition records where its group starts and how many it has, and there
-- are as many function types as definitions. Each definition is valid at its index: what its function
-- type and its fields refer to is in its group or before it; its supertype comes before it, is open
-- and of its kind, and at most 62 further supertypes are above that one.
pub parse_type_defs-Valid :
    (s t : ParseState)
    → parse_type_defs s ≡ (ok tt, t)
    → ValidTypes t.module_.types t.module_.type_defs
unfolding parse_type_defs
parse_type_defs-Valid s t h =
    let (n, s1, e1, h1) = bind-eq (decode_and_validate_count 1) _ s h in
    let s2 : ParseState = (reset_types s1).1 in
    let (_, s3, e3, h3) = bind-eq (parse_rec_groups n) (λ _. check_all_types) s2 h1 in
    let (news, gs, x) = parse_rec_groups-Grouped n s2 s3 e3 in
    let l : length s3.module_.types ≡ length s3.module_.type_defs =
      even s3 news x.lengths (ap length x.defs) in
    let ((ht, hd), v) = check_all_types-Valid s3 t l h3 in
    record { grouped = subst (λ ds. Grouped 0 ds) (sym (hd ∙ x.defs)) gs; valid = v }
  where
    even :
        (u : ParseState) (news : List TypeDef)
        → length u.module_.types ≡ 0 + length news
        → length u.module_.type_defs ≡ length news
        → length u.module_.types ≡ length u.module_.type_defs
    even u news e e' = omega (arith, e, e')
