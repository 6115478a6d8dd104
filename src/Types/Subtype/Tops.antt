-- ===== src/Types/Subtype/Tops.antt =====
-- Subtyping of the built-in types (`wah_type_is_subtype`).
use wah.Base.{ℕ, ◌≡◌, ◌≢◌, ◌⊎◌, ◌%◌, ◌-◌, ◌+◌, Bool, true, false, arith}
use wah.Base.{inl, inr, not, ◌&&◌, ◌||◌, if◌then◌else◌, refl, ap, sym, ◌∙◌}
use wah.Base.Int.{negsuc, ◌==ℤ◌, ==ℤ_iff}
use wah.Types.{WahType, bot, as_non_null, is_nullable}
use wah.Types.Subtype.{
  TypeTable, is_subtype, hierarchy_top, abstract_top, abstract_subtype, non_null_subtype,
}

abstract_subtype-top :
    (a b : ℕ)
    → a % 2 ≡ 1
    → abstract_subtype (negsuc a) (negsuc b) ≡ true
    → abstract_top (negsuc a) ≡ abstract_top (negsuc b)
unfolding abstract_subtype abstract_top
abstract_subtype-top a b ha h = ground arith

-- The built-in types below which there is nothing.
abbrev IsLeast : ℕ → Type 0
IsLeast b = (b ≡ 51) ⊎ (b ≡ 47) ⊎ (b ≡ 49) ⊎ (b ≡ 53)

least-below : (a b : ℕ) → IsLeast b → abstract_subtype (negsuc a) (negsuc b) ≡ false
unfolding abstract_subtype
least-below a b h = ground arith

abstract_subtype-cases :
    (b c : ℕ)
    → b % 2 ≡ 1
    → abstract_subtype (negsuc b) (negsuc c) ≡ true
    → (c ≡ 35) ⊎ (c ≡ 37) ⊎ IsLeast b
unfolding abstract_subtype
abstract_subtype-cases b c hb h = ground arith

abstract_subtype-any :
    (a b c : ℕ)
    → a % 2 ≡ 1
    → b % 2 ≡ 1
    → abstract_subtype (negsuc a) (negsuc b) ≡ true
    → abstract_subtype (negsuc b) (negsuc c) ≡ true
    → c ≡ 35
    → abstract_subtype (negsuc a) (negsuc c) ≡ true
unfolding abstract_subtype
abstract_subtype-any a b c ha hb h k e = ground arith

abstract_subtype-eq :
    (a b c : ℕ)
    → a % 2 ≡ 1
    → b % 2 ≡ 1
    → abstract_subtype (negsuc a) (negsuc b) ≡ true
    → abstract_subtype (negsuc b) (negsuc c) ≡ true
    → c ≡ 37
    → abstract_subtype (negsuc a) (negsuc c) ≡ true
unfolding abstract_subtype
abstract_subtype-eq a b c ha hb h k e = ground arith

abstract_subtype_trans :
    (a b c : ℕ)
    → a % 2 ≡ 1
    → b % 2 ≡ 1
    → abstract_subtype (negsuc a) (negsuc b) ≡ true
    → abstract_subtype (negsuc b) (negsuc c) ≡ true
    → abstract_subtype (negsuc a) (negsuc c) ≡ true
abstract_subtype_trans a b c ha hb h k = by_cases (abstract_subtype-cases b c hb k)
  where
    by_cases : (c ≡ 35) ⊎ (c ≡ 37) ⊎ IsLeast b → abstract_subtype (negsuc a) (negsuc c) ≡ true
    by_cases (inl e) = abstract_subtype-any a b c ha hb h k e
    by_cases (inr (inl e)) = abstract_subtype-eq a b c ha hb h k e
    by_cases (inr (inr l)) = ground (arith, least-below a b l)

is_subtype-cases :
    (m : TypeTable) (s t : WahType)
    → is_subtype m s t ≡ true
    → (s ≡ bot)
      ⊎ (as_non_null s ≡ as_non_null t)
      ⊎ ((non_null_subtype m (as_non_null s) (as_non_null t)) ≡ true)
unfolding is_subtype
is_subtype-cases m s t h =
    go (s ==ℤ t) (s ==ℤ bot) (as_non_null s ==ℤ as_non_null t) refl refl refl h
  where
    go :
        (x y z : Bool)
        → (s ==ℤ t) ≡ x
        → (s ==ℤ bot) ≡ y
        → (as_non_null s ==ℤ as_non_null t) ≡ z
        → (if x || y
            then true
            else if is_nullable s && not (is_nullable t)
            then false
            else if z
            then true
            else non_null_subtype m (as_non_null s) (as_non_null t))
          ≡ true
        → (s ≡ bot)
          ⊎ (as_non_null s ≡ as_non_null t)
          ⊎ ((non_null_subtype m (as_non_null s) (as_non_null t)) ≡ true)
    go true y z ex ey ez h = inr (inl (ap as_non_null ((==ℤ_iff s t).0 ex)))
    go false true z ex ey ez h = inl ((==ℤ_iff s bot).0 ey)
    go false false true ex ey ez h = inr (inl ((==ℤ_iff _ _).0 ez))
    go false false false ex ey ez h = ground arith

-- A built-in type's subtypes among the built-in types have its top type, except for the bottom type.
pub is_subtype-top :
    (m : TypeTable) (a b : ℕ)
    → is_subtype m (negsuc a) (negsuc b) ≡ true
    → (negsuc a ≡ bot) ⊎ (hierarchy_top m (negsuc a) ≡ hierarchy_top m (negsuc b))
unfolding non_null_subtype hierarchy_top
is_subtype-top m a b h = go (is_subtype-cases m (negsuc a) (negsuc b) h)
  where
    go :
        (negsuc a ≡ bot)
          ⊎ (as_non_null (negsuc a) ≡ as_non_null (negsuc b))
          ⊎ (non_null_subtype m (as_non_null (negsuc a)) (as_non_null (negsuc b)) ≡ true)
        → (negsuc a ≡ bot) ⊎ (hierarchy_top m (negsuc a) ≡ hierarchy_top m (negsuc b))
    go (inl e) = inl e
    go (inr (inl e)) = inr (ap abstract_top e)
    go (inr (inr k)) = inr (abstract_subtype-top (a - a % 2 + 1) (b - b % 2 + 1) (omega arith) k)

and_not : (b : Bool) → (b && not b) ≡ false
and_not true = refl
and_not false = refl

is_subtype-nullable :
    (m : TypeTable) (s t : WahType)
    → is_subtype m s t ≡ true
    → (s ≡ bot) ⊎ ((is_nullable s && not (is_nullable t)) ≡ false)
unfolding is_subtype
is_subtype-nullable m s t h = go (s ==ℤ t) (s ==ℤ bot) refl refl h
  where
    go :
        (x y : Bool)
        → (s ==ℤ t) ≡ x
        → (s ==ℤ bot) ≡ y
        → (if x || y
            then true
            else if is_nullable s && not (is_nullable t)
            then false
            else if as_non_null s ==ℤ as_non_null t
            then true
            else non_null_subtype m (as_non_null s) (as_non_null t))
          ≡ true
        → (s ≡ bot) ⊎ ((is_nullable s && not (is_nullable t)) ≡ false)
    go true y ex ey h = inr (
        ap (λ u. is_nullable s && not (is_nullable u)) (sym ((==ℤ_iff s t).0 ex))
        ∙ and_not (is_nullable s))
    go false true ex ey h = inl ((==ℤ_iff s bot).0 ey)
    go false false ex ey h = inr (ground arith)

is_subtype-intro :
    (m : TypeTable) (s t : WahType)
    → (is_nullable s && not (is_nullable t)) ≡ false
    → (as_non_null s ≡ as_non_null t) ⊎ (non_null_subtype m (as_non_null s) (as_non_null t) ≡ true)
    → is_subtype m s t ≡ true
unfolding is_subtype
is_subtype-intro m s t hn (inl e) = let c = (==ℤ_iff _ _).1 e in ground arith
is_subtype-intro m s t hn (inr k) = ground arith

is_subtype-bot :
    (m : TypeTable) (a : ℕ) (t : WahType) → negsuc a ≡ bot → is_subtype m (negsuc a) t ≡ true
unfolding is_subtype
is_subtype-bot m a t e = ground (arith, (==ℤ_iff (negsuc a) bot).1 e)

non_null_trans :
    (m : TypeTable) (a b c : ℕ)
    → (as_non_null (negsuc a) ≡ as_non_null (negsuc b))
      ⊎ (non_null_subtype m (as_non_null (negsuc a)) (as_non_null (negsuc b)) ≡ true)
    → (as_non_null (negsuc b) ≡ as_non_null (negsuc c))
      ⊎ (non_null_subtype m (as_non_null (negsuc b)) (as_non_null (negsuc c)) ≡ true)
    → (as_non_null (negsuc a) ≡ as_non_null (negsuc c))
      ⊎ (non_null_subtype m (as_non_null (negsuc a)) (as_non_null (negsuc c)) ≡ true)
unfolding non_null_subtype
non_null_trans m a b c (inl e) (inl e') = inl (e ∙ e')
non_null_trans m a b c (inl e) (inr k) =
    inr (ap (λ t. non_null_subtype m t (as_non_null (negsuc c))) e ∙ k)
non_null_trans m a b c (inr k) (inl e) =
    inr (sym (ap (non_null_subtype m (as_non_null (negsuc a))) e) ∙ k)
non_null_trans m a b c (inr h) (inr k) = inr (
    abstract_subtype_trans (a - a % 2 + 1) (b - b % 2 + 1) (c - c % 2 + 1) (omega arith)
      (omega arith) h k)

-- Subtyping of the built-in types is transitive, through any type but the bottom type.
pub is_subtype_trans :
    (m : TypeTable) (a b c : ℕ)
    → b ≢ 98
    → is_subtype m (negsuc a) (negsuc b) ≡ true
    → is_subtype m (negsuc b) (negsuc c) ≡ true
    → is_subtype m (negsuc a) (negsuc c) ≡ true
is_subtype_trans m a b c hb h k =
    go (is_subtype-nullable m _ _ h) (is_subtype-nullable m _ _ k) (is_subtype-cases m _ _ h)
      (is_subtype-cases m _ _ k)
  where
    not_bot : negsuc b ≡ bot → is_subtype m (negsuc a) (negsuc c) ≡ true
    not_bot e = ground arith

    go :
        (negsuc a ≡ bot) ⊎ ((is_nullable (negsuc a) && not (is_nullable (negsuc b))) ≡ false)
        → (negsuc b ≡ bot) ⊎ ((is_nullable (negsuc b) && not (is_nullable (negsuc c))) ≡ false)
        → (negsuc a ≡ bot)
          ⊎ (as_non_null (negsuc a) ≡ as_non_null (negsuc b))
          ⊎ (non_null_subtype m (as_non_null (negsuc a)) (as_non_null (negsuc b)) ≡ true)
        → (negsuc b ≡ bot)
          ⊎ (as_non_null (negsuc b) ≡ as_non_null (negsuc c))
          ⊎ (non_null_subtype m (as_non_null (negsuc b)) (as_non_null (negsuc c)) ≡ true)
        → is_subtype m (negsuc a) (negsuc c) ≡ true
    go (inl e) _ _ _ = is_subtype-bot m a (negsuc c) e
    go _ (inl e) _ _ = not_bot e
    go _ _ (inl e) _ = is_subtype-bot m a (negsuc c) e
    go _ _ _ (inl e) = not_bot e
    go (inr n) (inr n') (inr s) (inr t) =
        is_subtype-intro m _ _ (ground arith) (non_null_trans m a b c s t)
