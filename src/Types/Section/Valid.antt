-- ===== src/Types/Section/Valid.antt =====
-- The checks at the end of the type section (`wah_parse_type_section`), and what they ask of a type.
use wah.Base.{ℕ, ◌+◌, ◌<◌, ◌≡◌, ◌≢◌, refl, Bool, true, false, not, ltb, if◌then◌else◌, arith, All}
use wah.Base.{List, [], ◌∷◌, map, Option, none, some, get_elem?, ap, ltb→lt, zero, suc, length}
use wah.Status.{Error, Result, ok, err, validation_failed, too_large}
use wah.Base.Int.{pos, negsuc}
use wah.Types.{tyidx, WahType, FuncType, TypeDef, CompKind, comp_func, comp_struct, comp_array}
use wah.Types.Parse.{ParseState, Parse, ◌>>=◌, ◌>>◌, pure, and_then, ensure, require_type_features}
use wah.Types.Section.{
  supertype_of, in_scope, check_refs, check_super, check_super_def, check_depth, check_type,
  check_types,
}
use wah.Types.Section.{same_kind, is_func}

-- A step that succeeded, as the success of its parts.
pub bind-ok :
    {A B : Type 0} (m : Parse A) (f : A → Parse B) (s : ParseState) {b : B}
    → ((m >>= f) s).0 ≡ ok b
    → (a : A) × (t : ParseState) × (m s ≡ (ok a, t)) × ((f a t).0 ≡ ok b)
bind-ok {A} {B} m f s {b} e = go (m s) refl e
  where
    go :
        (r : Result A × ParseState)
        → m s ≡ r
        → (and_then r f).0 ≡ ok b
        → (a : A) × (t : ParseState) × (m s ≡ (ok a, t)) × ((f a t).0 ≡ ok b)
    go (ok a, t) h e = (a, t, h, e)
    go (err x, t) h e = cc

-- A type that refers to a definition refers to one below the limit.
abbrev pub RefersBelow : ℕ → WahType → Type 0
RefersBelow limit (pos n) = tyidx n < limit
RefersBelow limit (negsuc n) = Unit

abbrev pub InScope : ℕ → List WahType → Type 0
InScope limit ts = All (RefersBelow limit) ts

in_scope-RefersBelow : (limit : ℕ) (t : WahType) → in_scope limit t ≡ true → RefersBelow limit t
in_scope-RefersBelow limit (pos n) h = ltb→lt (tyidx n) limit h
in_scope-RefersBelow limit (negsuc n) h = tt

same_kind-equal : (j k : CompKind) → same_kind j k ≡ true → j ≡ k
same_kind-equal comp_func comp_func h = refl
same_kind-equal comp_struct comp_struct h = refl
same_kind-equal comp_array comp_array h = refl
same_kind-equal comp_func comp_struct h = cc
same_kind-equal comp_func comp_array h = cc
same_kind-equal comp_struct comp_func h = cc
same_kind-equal comp_struct comp_array h = cc
same_kind-equal comp_array comp_func h = cc
same_kind-equal comp_array comp_struct h = cc

-- The supertypes above definition `t`, up to one without a supertype, are at most `n`.
pub data ChainAtMost (defs : List TypeDef) : ℕ → ℕ → Type 0 where
  root : {n t : ℕ} → supertype_of defs t ≡ none → ChainAtMost defs n t
  above :
      {n t u : ℕ} → supertype_of defs t ≡ some u → ChainAtMost defs n u → ChainAtMost defs (suc n) t

pub check_depth-ChainAtMost :
    (defs : List TypeDef) (n t : ℕ) → check_depth defs n t ≡ true → ChainAtMost defs n t
unfolding check_depth
check_depth-ChainAtMost defs zero t h = zero_case (supertype_of defs t) refl h
  where
    zero_case :
        (o : Option ℕ)
        → supertype_of defs t ≡ o
        → (elim o [ none ↦ true | some u ↦ false ]) ≡ true
        → ChainAtMost defs zero t
    zero_case none e h = root e
    zero_case (some u) e h = cc
check_depth-ChainAtMost defs (suc n) t h =
    suc_case (supertype_of defs t) refl h (λ u. check_depth-ChainAtMost defs n u)
  where
    suc_case :
        (o : Option ℕ)
        → supertype_of defs t ≡ o
        → (elim o [ none ↦ true | some u ↦ check_depth defs n u ]) ≡ true
        → ((u : ℕ) → check_depth defs n u ≡ true → ChainAtMost defs n u)
        → ChainAtMost defs (suc n) t
    suc_case none e h rest = root e
    suc_case (some u) e h rest = above e (rest u h)

-- The supertype of definition `i` comes before it, is open and of the same kind, and at most 62 more
-- are above it.
pub record ValidSuper (defs : List TypeDef) (i : ℕ) (td : TypeDef) (super : ℕ) : Type 0 where
  pub before : super < i
  pub def : TypeDef
  pub found : get_elem? defs super ≡ some def
  pub is_open : def.is_final ≡ false
  pub kind_same : td.kind ≡ def.kind
  pub depth : ChainAtMost defs 62 super

abbrev pub HasValidSuper : List TypeDef → ℕ → TypeDef → Option ℕ → Type 0
HasValidSuper defs i td none = Unit
HasValidSuper defs i td (some super) = ValidSuper defs i td super

-- References go to the definition's own group or earlier ones.
pub record ValidDef (defs : List TypeDef) (i : ℕ) (ft : FuncType) (td : TypeDef) : Type 0 where
  pub params : InScope (td.rec_group_start + td.rec_group_size) ft.param_types
  pub results : InScope (td.rec_group_start + td.rec_group_size) ft.result_types
  pub super : HasValidSuper defs i td td.supertype
  pub fields :
      td.kind ≢ comp_func
      → InScope (td.rec_group_start + td.rec_group_size) (map (λ f. f.field_type) td.fields)

abbrev pub ValidFrom : List TypeDef → ℕ → List FuncType → List TypeDef → Type 0
ValidFrom defs i [] [] = Unit
ValidFrom defs i [] (td ∷ tds) = ⊥
ValidFrom defs i (ft ∷ fts) [] = ⊥
ValidFrom defs i (ft ∷ fts) (td ∷ tds) = ValidDef defs i ft td × ValidFrom defs (i + 1) fts tds

pub ensure-ok :
    {B : Type 0} (c : Bool) (e : Error) (k : Parse B) (s : ParseState) {b : B}
    → ((ensure c e >> k) s).0 ≡ ok b
    → (c ≡ true) × ((k s).0 ≡ ok b)
ensure-ok true e k s h = (refl, h)
ensure-ok false e k s h = cc

check_refs-ok :
    (limit : ℕ) (ts : List WahType) (s : ParseState)
    → (check_refs limit ts s).0 ≡ ok tt
    → InScope limit ts
unfolding check_refs
check_refs-ok limit [] s h = tt
check_refs-ok limit (t ∷ ts) s h =
    let (c, h1) = ensure-ok (in_scope limit t) validation_failed _ s h in
    let (_, s', _, h2) = bind-ok (require_type_features t) _ s h1 in
    (in_scope-RefersBelow limit t c, check_refs-ok limit ts s' h2)

super_def-ok :
    (defs : List TypeDef) (i : ℕ) (td : TypeDef) (super : ℕ) (o : Option TypeDef) (s : ParseState)
    → super < i
    → get_elem? defs super ≡ o
    → (check_super_def defs td super o s).0 ≡ ok tt
    → ValidSuper defs i td super
super_def-ok defs i td super none s hi e h = cc
super_def-ok defs i td super (some d) s hi e h =
    let (c1, h1) = ensure-ok (not d.is_final) validation_failed _ s h in
    let (c2, h2) = ensure-ok (same_kind td.kind d.kind) validation_failed _ s h1 in
    record {
      before = hi;
      def = d;
      found = e;
      is_open = ground arith;
      kind_same = same_kind-equal td.kind d.kind c2;
      depth = check_depth-ChainAtMost defs 62 super (deep (check_depth defs 62 super) h2);
    }
  where
    deep : (c : Bool) → (ensure c too_large s).0 ≡ ok tt → c ≡ true
    deep true h = refl
    deep false h = cc

check_super-ok :
    (defs : List TypeDef) (i : ℕ) (td : TypeDef) (o : Option ℕ) (s : ParseState)
    → (check_super defs i td o s).0 ≡ ok tt
    → HasValidSuper defs i td o
unfolding check_super
check_super-ok defs i td none s h = tt
check_super-ok defs i td (some super) s h =
    let (c, h1) = ensure-ok (ltb super i) validation_failed _ s h in
    super_def-ok defs i td super (get_elem? defs super) s (ltb→lt super i c) refl h1

check_type-ok :
    (defs : List TypeDef) (i : ℕ) (ft : FuncType) (td : TypeDef) (s : ParseState)
    → (check_type defs i ft td s).0 ≡ ok tt
    → ValidDef defs i ft td
unfolding check_type
check_type-ok defs i ft td s h =
    let limit : ℕ = td.rec_group_start + td.rec_group_size in
    let (_, s1, e1, h1) = bind-ok (check_refs limit ft.param_types) _ s h in
    let (_, s2, e2, h2) = bind-ok (check_refs limit ft.result_types) _ s1 h1 in
    let (_, s3, e3, h3) = bind-ok (check_super defs i td td.supertype) _ s2 h2 in
    record {
      params = check_refs-ok limit ft.param_types s (ap (λ p. p.0) e1);
      results = check_refs-ok limit ft.result_types s1 (ap (λ p. p.0) e2);
      super = check_super-ok defs i td td.supertype s2 (ap (λ p. p.0) e3);
      fields = fields_ok td.kind s3 h3;
    }
  where
    fields_ok :
        (k : CompKind) (t : ParseState)
        → ((if is_func k
              then pure tt
              else check_refs
                  (td.rec_group_start + td.rec_group_size)
                  (map (λ f. f.field_type) td.fields))
            t).0
          ≡ ok tt
        → k ≢ comp_func
        → InScope (td.rec_group_start + td.rec_group_size) (map (λ f. f.field_type) td.fields)
    fields_ok comp_func t h ne = absurd (ne refl)
    fields_ok comp_struct t h ne = check_refs-ok _ _ t h
    fields_ok comp_array t h ne = check_refs-ok _ _ t h

pub check_types-ok :
    (defs : List TypeDef) (i : ℕ) (fts : List FuncType) (tds : List TypeDef) (s : ParseState)
    → length fts ≡ length tds
    → (check_types defs i fts tds s).0 ≡ ok tt
    → ValidFrom defs i fts tds
unfolding check_types
check_types-ok defs i [] [] s l h = tt
check_types-ok defs i [] (td ∷ tds) s l h = absurd (omega (arith, l))
check_types-ok defs i (ft ∷ fts) [] s l h = absurd (omega (arith, l))
check_types-ok defs i (ft ∷ fts) (td ∷ tds) s l h =
    let (_, s', e, h') = bind-ok (check_type defs i ft td) _ s h in
    (
      check_type-ok defs i ft td s (ap (λ p. p.0) e),
      check_types-ok defs (i + 1) fts tds s' (omega (arith, l)) h',
    )
