-- ===== src/Layout/Build.antt =====
-- The layout of a whole struct (`wah_build_struct_repr_info`).
use wah.Base.{
  ℕ, suc, ◌+◌, ◌-◌, ◌%◌, max, ◌≤◌, ◌<◌, ◌≡◌, ◌⊎◌, inl, inr, refl, Bool, true, false, arith,
}
use mathlib.Core.Path.{subst}
use wah.Base.{leb, if◌then◌else◌, List, [], ◌∷◌, u32_max, Bool-cases, ap, sym, ◌∙◌}
use wah.Status.{Result, ok, err, ensure, >>=-eq-ok, ok-inj, too_large, validation_failed, misuse}
use wah.Types.{WahType, Field, TypeDef}
use wah.Layout.{
  Layout, Repr, ReprField, ReprInfo, field_type_layout, place, layout_fields,
  build_struct_repr_info, is_field_size, no_slots, is_struct, repr_none, repr_ref, sizeof_pointer,
}
use wah.Layout.FreeSlots.{covers, free_covers, free_bytes, list_covers}
use wah.Layout.Place.{
  IsFieldSize, one, two, four, eight, sixteen, Valid, Placed, PlacedOk, place_one, place_two,
  place_four, place_eight, place_sixteen,
}

place-Placed : (l : Layout) (n : ℕ) → IsFieldSize n → Valid l → PlacedOk l n (place l n)
place-Placed l n one v =
    place_one l.slots.slots1 l.slots.slots2 l.slots.slots4 l.slots.slots8 l.frontier v
place-Placed l n two v =
    place_two l.slots.slots1 l.slots.slots2 l.slots.slots4 l.slots.slots8 l.frontier v
place-Placed l n four v =
    place_four l.slots.slots1 l.slots.slots2 l.slots.slots4 l.slots.slots8 l.frontier v
place-Placed l n eight v =
    place_eight l.slots.slots1 l.slots.slots2 l.slots.slots4 l.slots.slots8 l.frontier v
place-Placed l n sixteen v =
    place_sixteen l.slots.slots1 l.slots.slots2 l.slots.slots4 l.slots.slots8 l.frontier v

Placed-at :
    (l : Layout) (n o : ℕ) (l' : Layout)
    → IsFieldSize n
    → Valid l
    → place l n ≡ ok (o, l')
    → Placed l l' o n
Placed-at l n o l' hn v e = subst (PlacedOk l n) e (place-Placed l n hn v)

abbrev SizeOk : Result (ℕ × Repr) → Type 0
SizeOk (ok (n, r)) = IsFieldSize n
SizeOk (err e) = Unit

-- One clause for each case of the switch.
SizeOk-switch :
    (b1 b2 b4 b8 b16 b : Bool)
    → SizeOk (
        if b1
        then ok (1, repr_none)
        else if b2
        then ok (2, repr_none)
        else if b4
        then ok (4, repr_none)
        else if b8
        then ok (8, repr_none)
        else if b16
        then ok (16, repr_none)
        else if b
        then ok (sizeof_pointer, repr_ref)
        else err validation_failed)
SizeOk-switch true b2 b4 b8 b16 b = one
SizeOk-switch false true b4 b8 b16 b = two
SizeOk-switch false false true b8 b16 b = four
SizeOk-switch false false false true b16 b = eight
SizeOk-switch false false false false true b = sixteen
SizeOk-switch false false false false false true = eight
SizeOk-switch false false false false false false = tt

field_type_layout-SizeOk : (t : WahType) → SizeOk (field_type_layout t)
unfolding field_type_layout
field_type_layout-SizeOk t = SizeOk-switch _ _ _ _ _ _

abbrev size_in : Result (ℕ × Repr) → ℕ
size_in (ok (n, r)) = n
size_in (err e) = 0

-- The size of a field's type, 0 for a type that is no field type.
abbrev pub field_size : Field → ℕ
field_size f = size_in (field_type_layout f.field_type)

abbrev pub fields_bytes : List Field → ℕ
fields_bytes [] = 0
fields_bytes (f ∷ fs) = field_size f + fields_bytes fs

-- The number of fields that have byte `p`.
abbrev pub fields_cover : List Field → List ReprField → ℕ → ℕ
fields_cover [] rs p = 0
fields_cover (f ∷ fs) [] p = 0
fields_cover (f ∷ fs) (r ∷ rs) p = covers r.offset (field_size f) p + fields_cover fs rs p

-- Each field is aligned to its size, ends by `size` and has its type's representation.
abbrev pub FieldsWithin : ℕ → List Field → List ReprField → Type 0
FieldsWithin size [] [] = Unit
FieldsWithin size [] (r ∷ rs) = ⊥
FieldsWithin size (f ∷ fs) [] = ⊥
FieldsWithin size (f ∷ fs) (r ∷ rs) =
    ((field_type_layout f.field_type ≡ ok (field_size f, r.repr_id))
      × (r.offset % field_size f ≡ 0)
      × (r.offset + field_size f ≤ size))
    × FieldsWithin size fs rs

record Laid (l : Layout) (live : ℕ) (fs : List Field) (rs : List ReprField) (live' : ℕ)
    (l' : Layout) : Type 0 where
  pub bytes_used :
      (p : ℕ)
      → covers 0 l'.frontier p + free_covers l.slots p
        ≡ covers 0 l.frontier p + free_covers l'.slots p + fields_cover fs rs p
  pub count_used :
      l'.frontier + free_bytes l.slots ≡ l.frontier + free_bytes l'.slots + fields_bytes fs
  pub after : Valid l'
  pub live_grows : live ≤ live'
  pub live_reached : (live' ≡ live) ⊎ ((p : ℕ) × (live' ≡ suc p) × (1 ≤ fields_cover fs rs p))
  pub within : FieldsWithin live' fs rs

-- What a round that succeeds did.
record Round (l : Layout) (live : ℕ) (f : Field) (fs : List Field) (rs : List ReprField) (live' : ℕ)
    (l' : Layout) : Type 0 where
  pub size : ℕ
  pub repr : Repr
  pub offset : ℕ
  pub next : Layout
  pub rest : List ReprField
  pub type_layout : field_type_layout f.field_type ≡ ok (size, repr)
  pub placed : place l size ≡ ok (offset, next)
  pub recursive : layout_fields next (max live (offset + size)) fs ≡ ok (rest, live', l')
  pub result : rs ≡ record { offset = offset; repr_id = repr } ∷ rest

layout_fields-Round :
    (l : Layout) (live : ℕ) (f : Field) (fs : List Field) (rs : List ReprField) (live' : ℕ)
    (l' : Layout)
    → layout_fields l live (f ∷ fs) ≡ ok (rs, live', l')
    → Round l live f fs rs live' l'
unfolding layout_fields
layout_fields-Round l live f fs rs live' l' h =
    let ((n, repr), et, h1) = >>=-eq-ok (field_type_layout f.field_type) _ h in
    let (_, _, h2) = >>=-eq-ok (ensure (is_field_size n) validation_failed) _ h1 in
    let ((o, next), eq, h3) = >>=-eq-ok (place l n) _ h2 in
    let (_, _, h4) = >>=-eq-ok (ensure (leb o (u32_max - n)) too_large) _ h3 in
    let ((rest, live2, l2), er, h5) = >>=-eq-ok (layout_fields next (max live (o + n)) fs) _ h4 in
    record {
      size = n;
      repr = repr;
      offset = o;
      next = next;
      rest = rest;
      type_layout = et;
      placed = eq;
      recursive = er ∙ ap (λ p. ok (rest, p.1, p.2)) (ok-inj h5);
      result = sym (ap (λ p. p.0) (ok-inj h5));
    }

reached_cons :
    (live live' o n size : ℕ) (fs : List Field) (rs : List ReprField)
    → 1 ≤ n
    → size ≡ n
    → (live' ≡ max live (o + n)) ⊎ ((p : ℕ) × (live' ≡ suc p) × (1 ≤ fields_cover fs rs p))
    → (live' ≡ live) ⊎ ((p : ℕ) × (live' ≡ suc p) × (1 ≤ covers o size p + fields_cover fs rs p))
reached_cons live live' o n size fs rs hn es (inr (p, e, h)) = inr (p, e, omega (arith, h))
reached_cons live live' o n size fs rs hn es (inl e) = elim (Bool-cases (leb (o + n) live)) [
  | inl c ↦ inl (ground arith)
  | inr c ↦ inr (o + n - 1, ground arith, ground arith)
]

Laid-cons :
    (l : Layout) (live : ℕ) (f : Field) (fs : List Field) (rs : List ReprField) (live' : ℕ)
    (l' : Layout)
    → (r : Round l live f fs rs live' l') → Placed l r.next r.offset r.size
    → Laid r.next (max live (r.offset + r.size)) fs r.rest live' l'
    → field_size f ≡ r.size
    → 1 ≤ r.size
    → Laid l live (f ∷ fs) (record { offset = r.offset; repr_id = r.repr } ∷ r.rest) live' l'
Laid-cons l live f fs rs live' l' r pl ih es hn = record {
  bytes_used =
      λ p. omega (arith, pl.bytes_used p, ih.bytes_used p, ap (λ n. covers r.offset n p) es);
  count_used = omega (arith, pl.count_used, ih.count_used, es);
  after = ih.after;
  live_grows = ground (arith, ih.live_grows);
  live_reached =
      reached_cons live live' r.offset r.size (field_size f) fs r.rest hn es ih.live_reached;
  within = (
    (
      r.type_layout ∙ ap (λ n. ok (n, r.repr)) (sym es),
      ap (λ n. r.offset % n) es ∙ pl.field_aligned,
      ground (arith, ih.live_grows, es),
    ),
    ih.within,
  );
}

size_positive : (n : ℕ) → IsFieldSize n → 1 ≤ n
size_positive n one = omega arith
size_positive n two = omega arith
size_positive n four = omega arith
size_positive n eight = omega arith
size_positive n sixteen = omega arith

abbrev Outcome : Layout → ℕ → List Field → List ReprField × ℕ × Layout → Type 0
Outcome l live fs (rs, live', l') = Laid l live fs rs live' l'

Laid-nil :
    (l : Layout) (live : ℕ) (r : List ReprField × ℕ × Layout)
    → Valid l
    → layout_fields l live [] ≡ ok r
    → Outcome l live [] r
unfolding layout_fields
Laid-nil l live r v h = subst (Outcome l live []) (ok-inj h) (record {
  bytes_used = λ p. omega arith;
  count_used = omega arith;
  after = v;
  live_grows = omega arith;
  live_reached = inl refl;
  within = tt;
})

layout_fields-Laid :
    (l : Layout) (live : ℕ) (fs : List Field) (rs : List ReprField) (live' : ℕ) (l' : Layout)
    → Valid l
    → layout_fields l live fs ≡ ok (rs, live', l')
    → Laid l live fs rs live' l'
layout_fields-Laid l live [] rs live' l' v h = Laid-nil l live (rs, live', l') v h
layout_fields-Laid l live (f ∷ fs) rs live' l' v h =
    let r = layout_fields-Round l live f fs rs live' l' h in
    let hn = subst SizeOk r.type_layout (field_type_layout-SizeOk f.field_type) in
    let pl = Placed-at l r.size r.offset r.next hn v r.placed in
    let ih =
      layout_fields-Laid r.next (max live (r.offset + r.size)) fs r.rest live' l' pl.after
        r.recursive in
    subst (λ rs. Laid l live (f ∷ fs) rs live' l') (sym r.result)
      (Laid-cons l live f fs rs live' l' r pl ih (ap size_in r.type_layout)
        (size_positive r.size hn))

-- What the rest of the program relies on: fields are aligned, inside the struct and disjoint, and at
-- most 15 bytes are lost.
pub record ValidInfo (td : TypeDef) (info : ReprInfo) : Type 0 where
  pub within : FieldsWithin info.size td.fields info.repr_fields
  pub disjoint : (p : ℕ) → fields_cover td.fields info.repr_fields p ≤ 1
  pub waste : info.size ≤ fields_bytes td.fields + 15

abbrev start : Layout
start = record { slots = no_slots; frontier = 0 }

start-Valid : Valid start
start-Valid = record {
  aligned = (tt, tt, tt, tt);
  at_most_one = (omega arith, omega arith, omega arith, omega arith);
  whole_chunks = omega arith;
}

cover_once :
    (fs : List Field) (rs : List ReprField) (live : ℕ) (l : Layout)
    → Laid start 0 fs rs live l
    → (p : ℕ) → (fields_cover fs rs p ≤ 1) × (1 ≤ fields_cover fs rs p → p < l.frontier)
unfolding list_covers
cover_once fs rs live l laid p = let h = laid.bytes_used p in (ground arith, λ k. ground arith)

Laid-ValidInfo :
    (typeidx : ℕ) (td : TypeDef) (rs : List ReprField) (live : ℕ) (l : Layout)
    → Laid start 0 td.fields rs live l
    → ValidInfo td (record { typeidx = typeidx; size = live; repr_fields = rs })
Laid-ValidInfo typeidx td rs live l laid = record {
  within = laid.within;
  disjoint = λ p. (cover_once td.fields rs live l laid p).0;
  waste = wasted laid.live_reached;
}
  where
    wasted :
        (live ≡ 0) ⊎ ((p : ℕ) × (live ≡ suc p) × (1 ≤ fields_cover td.fields rs p))
        → live ≤ fields_bytes td.fields + 15
    wasted (inl e) = omega (arith, e)
    wasted (inr (p, e, k)) =
        let b = (cover_once td.fields rs live l laid p).1 k in
        omega (arith, e, b, laid.count_used, laid.after.at_most_one)

-- Whenever a struct layout is built, it has every field aligned to its size, inside the struct and
-- with its type's representation, no byte belongs to two fields, and at most 15 bytes of the struct
-- are unused.
pub build_struct_repr_info-ValidInfo :
    (typeidx : ℕ) (td : TypeDef) (info : ReprInfo)
    → build_struct_repr_info typeidx td ≡ ok info
    → ValidInfo td info
unfolding build_struct_repr_info
build_struct_repr_info-ValidInfo typeidx td info h =
    let (_, _, h1) = >>=-eq-ok (ensure (is_struct td.kind) misuse) _ h in
    let ((rs, live, l), e, h2) = >>=-eq-ok (layout_fields start 0 td.fields) _ h1 in
    let laid = layout_fields-Laid start 0 td.fields rs live l start-Valid e in
    subst (ValidInfo td) (ok-inj h2) (Laid-ValidInfo typeidx td rs live l laid)
