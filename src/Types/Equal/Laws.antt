-- ===== src/Types/Equal/Laws.antt =====
-- Laws of the structural equality of type definitions.
use wah.Base.{ℕ, ◌≡◌, refl, ap, ◌∙◌, Bool, true, false, ◌&&◌, not, ◌==◌, if◌then◌else◌, arith}
use wah.Base.{List, [], ◌∷◌, Option, none, some}
use wah.Base.Int.{ℤ, pos, negsuc, ◌==ℤ◌, ==ℤ_iff}
use wah.Types.{
  WahType, TypeDef, Field, CompKind, comp_func, comp_struct, comp_array, is_nullable, type_from_idx,
}
use wah.Types.Section.{same_kind, is_func}
use wah.Types.Equal.{
  canonicalize_type_ref, in_group, offset_in, canon_ref_eq, ref_eq, refs_eq, fields_eq, supers_eq,
  same_bool, structurally_equal, Definition,
}

eq_sym : (a b : ℤ) → (a ==ℤ b) ≡ (b ==ℤ a)
eq_sym (pos a) (pos b) = ground arith
eq_sym (pos a) (negsuc b) = refl
eq_sym (negsuc a) (pos b) = refl
eq_sym (negsuc a) (negsuc b) = ground arith

canon_ref_eq_sym :
    (a b : WahType) (sa la sb lb : ℕ) → canon_ref_eq a sa la b sb lb ≡ canon_ref_eq b sb lb a sa la
unfolding canon_ref_eq
canon_ref_eq_sym a b sa la sb lb =
    let e = eq_sym a b in
    go (is_nullable a) (is_nullable b) (in_group sa la a) (in_group sb lb b) (a ==ℤ b) (b ==ℤ a) e
  where
    go :
        (na nb ia ib x y : Bool)
        → x ≡ y
        → (if not (if na then nb else not nb)
            then false
            else if ia
            then (if ib then offset_in sa a == offset_in sb b else false)
            else if ib
            then false
            else x)
          ≡ (if not (if nb then na else not na)
              then false
              else if ib
              then (if ia then offset_in sb b == offset_in sa a else false)
              else if ia
              then false
              else y)
    go na nb ia ib x y e = ground arith

canon_ref_eq_refl : (a : WahType) (s n : ℕ) → canon_ref_eq a s n a s n ≡ true
unfolding canon_ref_eq
canon_ref_eq_refl a s n = let e = (==ℤ_iff a a).1 refl in ground arith

and_eq : {a b c d : Bool} → a ≡ c → b ≡ d → (a && b) ≡ (c && d)
and_eq {a} {b} {c} {d} e f = ap (λ x. x && b) e ∙ ap (λ y. c && y) f

same_bool_sym : (a b : Bool) → same_bool a b ≡ same_bool b a
same_bool_sym true true = refl
same_bool_sym true false = refl
same_bool_sym false true = refl
same_bool_sym false false = refl

same_bool_refl : (a : Bool) → same_bool a a ≡ true
same_bool_refl true = refl
same_bool_refl false = refl

ref_eq_sym :
    (cmap : List ℕ) (a b : TypeDef) (t u : WahType) → ref_eq cmap a b t u ≡ ref_eq cmap b a u t
ref_eq_sym cmap a b t u =
    canon_ref_eq_sym (canonicalize_type_ref a.rec_group_start a.rec_group_size cmap t)
      (canonicalize_type_ref b.rec_group_start b.rec_group_size cmap u) a.rec_group_start
      a.rec_group_size b.rec_group_start b.rec_group_size

ref_eq_refl : (cmap : List ℕ) (a : TypeDef) (t : WahType) → ref_eq cmap a a t t ≡ true
ref_eq_refl cmap a t =
    canon_ref_eq_refl (canonicalize_type_ref a.rec_group_start a.rec_group_size cmap t)
      a.rec_group_start a.rec_group_size

module _ (cmap : List ℕ) where
  refs_eq_sym :
      (a b : TypeDef) (ts us : List WahType) → refs_eq cmap a b ts us ≡ refs_eq cmap b a us ts
  unfolding refs_eq
  refs_eq_sym a b [] [] = refl
  refs_eq_sym a b [] (u ∷ us) = refl
  refs_eq_sym a b (t ∷ ts) [] = refl
  refs_eq_sym a b (t ∷ ts) (u ∷ us) = and_eq (ref_eq_sym cmap a b t u) (refs_eq_sym a b ts us)

  fields_eq_sym :
      (a b : TypeDef) (fs gs : List Field) → fields_eq cmap a b fs gs ≡ fields_eq cmap b a gs fs
  unfolding fields_eq
  fields_eq_sym a b [] [] = refl
  fields_eq_sym a b [] (g ∷ gs) = refl
  fields_eq_sym a b (f ∷ fs) [] = refl
  fields_eq_sym a b (f ∷ fs) (g ∷ gs) =
      and_eq (ref_eq_sym cmap a b f.field_type g.field_type)
        (and_eq (same_bool_sym f.field_mutable g.field_mutable) (fields_eq_sym a b fs gs))

  supers_eq_sym : (a b : TypeDef) (s t : Option ℕ) → supers_eq cmap a b s t ≡ supers_eq cmap b a t s
  unfolding supers_eq
  supers_eq_sym a b none none = refl
  supers_eq_sym a b none (some t) = refl
  supers_eq_sym a b (some s) none = refl
  supers_eq_sym a b (some s) (some t) =
      ref_eq_sym cmap a b (type_from_idx s false) (type_from_idx t false)

  refs_eq_refl : (a : TypeDef) (ts : List WahType) → refs_eq cmap a a ts ts ≡ true
  unfolding refs_eq
  refs_eq_refl a [] = refl
  refs_eq_refl a (t ∷ ts) = and_eq (ref_eq_refl cmap a t) (refs_eq_refl a ts)

  fields_eq_refl : (a : TypeDef) (fs : List Field) → fields_eq cmap a a fs fs ≡ true
  unfolding fields_eq
  fields_eq_refl a [] = refl
  fields_eq_refl a (f ∷ fs) =
      and_eq (ref_eq_refl cmap a f.field_type)
        (and_eq (same_bool_refl f.field_mutable) (fields_eq_refl a fs))

  supers_eq_refl : (a : TypeDef) (s : Option ℕ) → supers_eq cmap a a s s ≡ true
  unfolding supers_eq
  supers_eq_refl a none = refl
  supers_eq_refl a (some s) = ref_eq_refl cmap a (type_from_idx s false)

-- Structural equality of two definitions does not depend on their order.
pub structurally_equal_sym :
    (cmap : List ℕ) (x y : Definition) → structurally_equal cmap x y ≡ structurally_equal cmap y x
unfolding structurally_equal
structurally_equal_sym cmap x y =
    let a = x.type_def in
    let b = y.type_def in
    go a.kind b.kind _ _ _ _ _ _ _ _ _ _ (same_bool_sym a.is_final b.is_final)
      (supers_eq_sym cmap a b a.supertype b.supertype)
      (refs_eq_sym cmap a b x.func_type.param_types y.func_type.param_types)
      (refs_eq_sym cmap a b x.func_type.result_types y.func_type.result_types)
      (fields_eq_sym cmap a b a.fields b.fields)
  where
    go :
        (k l : CompKind) (f f' s s' p p' r r' d d' : Bool)
        → f ≡ f'
        → s ≡ s'
        → p ≡ p'
        → r ≡ r'
        → d ≡ d'
        → (if not (same_kind k l)
            then false
            else if not f
            then false
            else if not s
            then false
            else if is_func k
            then p && r
            else d)
          ≡ (if not (same_kind l k)
              then false
              else if not f'
              then false
              else if not s'
              then false
              else if is_func l
              then p' && r'
              else d')
    go comp_func comp_func f f' s s' p p' r r' d d' ef es ep er ed = cc
    go comp_func comp_struct f f' s s' p p' r r' d d' ef es ep er ed = refl
    go comp_func comp_array f f' s s' p p' r r' d d' ef es ep er ed = refl
    go comp_struct comp_func f f' s s' p p' r r' d d' ef es ep er ed = refl
    go comp_struct comp_struct f f' s s' p p' r r' d d' ef es ep er ed = cc
    go comp_struct comp_array f f' s s' p p' r r' d d' ef es ep er ed = refl
    go comp_array comp_func f f' s s' p p' r r' d d' ef es ep er ed = refl
    go comp_array comp_struct f f' s s' p p' r r' d d' ef es ep er ed = refl
    go comp_array comp_array f f' s s' p p' r r' d d' ef es ep er ed = cc

-- Every definition is structurally equal to itself.
pub structurally_equal_refl : (cmap : List ℕ) (x : Definition) → structurally_equal cmap x x ≡ true
unfolding structurally_equal
structurally_equal_refl cmap x =
    let a = x.type_def in
    go a.kind _ _ _ _ _ (same_bool_refl a.is_final) (supers_eq_refl cmap a a.supertype)
      (refs_eq_refl cmap a x.func_type.param_types) (refs_eq_refl cmap a x.func_type.result_types)
      (fields_eq_refl cmap a a.fields)
  where
    go :
        (k : CompKind) (f s p r d : Bool)
        → f ≡ true
        → s ≡ true
        → p ≡ true
        → r ≡ true
        → d ≡ true
        → (if not (same_kind k k)
            then false
            else if not f
            then false
            else if not s
            then false
            else if is_func k
            then p && r
            else d)
          ≡ true
    go comp_func f s p r d ef es ep er ed = ground arith
    go comp_struct f s p r d ef es ep er ed = ground arith
    go comp_array f s p r d ef es ep er ed = ground arith
