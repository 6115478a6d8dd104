-- ===== src/Types/Section/Keeps.antt =====
-- The checks at the end of the type section (`wah_parse_type_section`), and the arrays of types.
use wah.Base.{ℕ, ◌+◌, ◌-◌, ap, sym, ◌≡◌, refl, ◌∙◌, Bool, true, false, not, if◌then◌else◌, arith}
use wah.Base.{List, [], ◌∷◌, map, Option, none, some, get_elem?, ltb, length}
use mathlib.Core.Path.{subst₂}
use wah.Status.{Error, Result, ok, err, validation_failed, too_large}
use wah.Types.{WahType, FuncType, TypeDef}
use wah.Types.Parse.{
  ParseState, Parse, pure, ◌>>=◌, ◌>>◌, and_then, ensure, require_feature, require_type_features,
}
use wah.Types.Section.{
  check_refs, check_super, check_super_def, check_type, check_types, check_all_types,
}
use wah.Types.Section.{check_depth, max_subtype_depth, same_kind, is_func, in_scope}
use wah.Types.Section.Valid.{ValidFrom, check_types-ok}

-- The arrays of types are as they were.
abbrev pub Same : ParseState → ParseState → Type 0
Same s t = (t.module_.types ≡ s.module_.types) × (t.module_.type_defs ≡ s.module_.type_defs)

abbrev pub Keeps : {A : Type 0} → Parse A → Type 0
Keeps m = (s : ParseState) → Same s (m s).1

pub Keeps-bind :
    {A B : Type 0} (m : Parse A) (f : A → Parse B)
    → Keeps m
    → ((a : A) → Keeps (f a))
    → Keeps (m >>= f)
Keeps-bind {A} {B} m f km kf s = go (m s) (km s)
  where
    go : (r : Result A × ParseState) → Same s r.1 → Same s (and_then r f).1
    go (ok a, t) (h, k) = let (h', k') = kf a t in (h' ∙ h, k' ∙ k)
    go (err e, t) h = h

pub Keeps-pure : {A : Type 0} (a : A) → Keeps (pure a)
Keeps-pure a s = (refl, refl)

pub Keeps-ensure : (b : Bool) (e : Error) → Keeps (ensure b e)
Keeps-ensure true e s = (refl, refl)
Keeps-ensure false e s = (refl, refl)

pub Keeps-if :
    {A : Type 0} (b : Bool) (m k : Parse A) → Keeps m → Keeps k → Keeps (if b then m else k)
Keeps-if true m k hm hk = hm
Keeps-if false m k hm hk = hk

pub Keeps-require_feature : (shift : ℕ) → Keeps (require_feature shift)
unfolding require_feature
Keeps-require_feature shift s = ground arith

Keeps-require_type_features : (t : WahType) → Keeps (require_type_features t)
unfolding require_feature require_type_features
Keeps-require_type_features t s = ground arith

pub Keeps-ensure-then :
    {A : Type 0} (b : Bool) (e : Error) (k : Parse A) → Keeps k → Keeps (ensure b e >> k)
Keeps-ensure-then true e k h s = h s
Keeps-ensure-then false e k h s = (refl, refl)

pub Keeps-then : {A B : Type 0} (m : Parse A) (k : Parse B) → Keeps m → Keeps k → Keeps (m >> k)
Keeps-then m k hm hk = Keeps-bind m (λ _. k) hm (λ _. hk)

Keeps-check_refs : (limit : ℕ) (ts : List WahType) → Keeps (check_refs limit ts)
unfolding check_refs
Keeps-check_refs limit [] = Keeps-pure tt
Keeps-check_refs limit (t ∷ ts) =
    Keeps-ensure-then (in_scope limit t) validation_failed
      (require_type_features t >> check_refs limit ts)
      (Keeps-then (require_type_features t) (check_refs limit ts) (Keeps-require_type_features t)
        (Keeps-check_refs limit ts))

Keeps-check_super_def :
    (defs : List TypeDef) (td : TypeDef) (super : ℕ) (o : Option TypeDef)
    → Keeps (check_super_def defs td super o)
Keeps-check_super_def defs td super none = λ s. (refl, refl)
Keeps-check_super_def defs td super (some d) =
    let deep : Parse (Unit {0}) =
      ensure (check_depth defs (max_subtype_depth - 1) super) too_large in
    Keeps-ensure-then (not d.is_final) validation_failed
      (ensure (same_kind td.kind d.kind) validation_failed >> deep)
      (Keeps-ensure-then (same_kind td.kind d.kind) validation_failed deep (Keeps-ensure _ _))

Keeps-check_super :
    (defs : List TypeDef) (i : ℕ) (td : TypeDef) (o : Option ℕ) → Keeps (check_super defs i td o)
unfolding check_super
Keeps-check_super defs i td none = Keeps-pure tt
Keeps-check_super defs i td (some super) =
    Keeps-ensure-then (ltb super i) validation_failed
      (check_super_def defs td super (get_elem? defs super))
      (Keeps-check_super_def defs td super (get_elem? defs super))

Keeps-check_type :
    (defs : List TypeDef) (i : ℕ) (ft : FuncType) (td : TypeDef) → Keeps (check_type defs i ft td)
unfolding check_type
Keeps-check_type defs i ft td =
    let limit : ℕ = td.rec_group_start + td.rec_group_size in
    let fields : Parse (Unit {0}) =
      if is_func td.kind then pure tt else check_refs limit (map (λ f. f.field_type) td.fields) in
    Keeps-then (check_refs limit ft.param_types)
      (check_refs limit ft.result_types >> (check_super defs i td td.supertype >> fields))
      (Keeps-check_refs limit ft.param_types)
      (Keeps-then (check_refs limit ft.result_types) (check_super defs i td td.supertype >> fields)
        (Keeps-check_refs limit ft.result_types)
        (Keeps-then (check_super defs i td td.supertype) fields
          (Keeps-check_super defs i td td.supertype)
          (Keeps-if (is_func td.kind) (pure tt)
            (check_refs limit (map (λ f. f.field_type) td.fields)) (Keeps-pure tt)
            (Keeps-check_refs limit _))))

Keeps-check_types :
    (defs : List TypeDef) (i : ℕ) (fts : List FuncType) (tds : List TypeDef)
    → Keeps (check_types defs i fts tds)
unfolding check_types
Keeps-check_types defs i [] tds = Keeps-pure tt
Keeps-check_types defs i (ft ∷ fts) [] = Keeps-pure tt
Keeps-check_types defs i (ft ∷ fts) (td ∷ tds) =
    Keeps-then (check_type defs i ft td) (check_types defs (i + 1) fts tds)
      (Keeps-check_type defs i ft td) (Keeps-check_types defs (i + 1) fts tds)

pub check_all_types-Valid :
    (s t : ParseState)
    → length s.module_.types ≡ length s.module_.type_defs
    → check_all_types s ≡ (ok tt, t)
    → Same s t × ValidFrom t.module_.type_defs 0 t.module_.types t.module_.type_defs
check_all_types-Valid s t l h =
    let (ht, hd) = Keeps-check_types s.module_.type_defs 0 s.module_.types s.module_.type_defs s in
    let v =
      check_types-ok s.module_.type_defs 0 s.module_.types s.module_.type_defs s l
        (ap (λ p. p.0) h) in
    let et : t.module_.types ≡ s.module_.types = sym (ap (λ p. p.1.module_.types) h) ∙ ht in
    let ed : t.module_.type_defs ≡ s.module_.type_defs =
      sym (ap (λ p. p.1.module_.type_defs) h) ∙ hd in
    ((et, ed), subst₂ (λ a b. ValidFrom b 0 a b) (sym et) (sym ed) v)

-- A step's whole result, when it succeeded.
pub bind-eq :
    {A B : Type 0} (m : Parse A) (f : A → Parse B) (s : ParseState) {b : B} {u : ParseState}
    → (m >>= f) s ≡ (ok b, u)
    → (a : A) × (t : ParseState) × (m s ≡ (ok a, t)) × (f a t ≡ (ok b, u))
bind-eq {A} {B} m f s {b} {u} e = go (m s) refl e
  where
    go :
        (r : Result A × ParseState)
        → m s ≡ r
        → and_then r f ≡ (ok b, u)
        → (a : A) × (t : ParseState) × (m s ≡ (ok a, t)) × (f a t ≡ (ok b, u))
    go (ok a, t) h e = (a, t, h, e)
    go (err x, t) h e = cc
