-- ===== src/Types/Subtype/Chains.antt =====
-- The walk up the supertypes (`wah_type_is_subtype`) and the types above.
use wah.Base.{ℕ, zero, suc, ◌<◌, ◌≡◌, ◌↔◌, ◌⊎◌, refl, true, false, ◌||◌, ◌==◌, arith}
use wah.Base.{List, Option, none, some, length, Bool-cases, inl, inr}
use wah.Types.{TypeDef}
use wah.Types.Subtype.{TypeTable, walk, supertype_at, same_canonical, concrete_subtype}

-- `u` is `t` or one of its supertypes.
pub data Chain (defs : List TypeDef) : ℕ → ℕ → Type 0 where
  here : {t : ℕ} → Chain defs t t
  up : {t st u : ℕ} → supertype_at defs t ≡ some st → Chain defs st u → Chain defs t u

-- Supertypes come before their subtypes.
abbrev pub Earlier : List TypeDef → Type 0
Earlier defs = (t st : ℕ) → supertype_at defs t ≡ some st → st < t

abbrev pub Same : TypeTable → ℕ → ℕ → Type 0
Same m u sup = ((u == sup) || same_canonical m.canonical_map u sup) ≡ true

-- A proper supertype that is, or is equivalent to, `sup`.
abbrev pub Above : TypeTable → ℕ → ℕ → Type 0
Above m t sup =
    (st : ℕ) × (u : ℕ) × (supertype_at m.type_defs t ≡ some st)
    × Chain m.type_defs st u
    × Same m u sup

walk_sound : (m : TypeTable) (sup fuel t : ℕ) → walk m sup fuel t ≡ true → Above m t sup
unfolding walk
walk_sound m sup zero t h = cc
walk_sound m sup (suc fuel) t h = at (supertype_at m.type_defs t) refl h (walk_sound m sup fuel)
  where
    at :
        (o : Option ℕ)
        → supertype_at m.type_defs t ≡ o
        → elim o [
          | none ↦ false
          | some st ↦ st == sup || (same_canonical m.canonical_map st sup || walk m sup fuel st)
        ]
          ≡ true
        → ((t' : ℕ) → walk m sup fuel t' ≡ true → Above m t' sup)
        → Above m t sup
    at none e h ih = cc
    at (some st) e h ih = found (Bool-cases (st == sup || same_canonical m.canonical_map st sup))
      where
        found :
            ((st == sup || same_canonical m.canonical_map st sup) ≡ true)
              ⊎ ((st == sup || same_canonical m.canonical_map st sup) ≡ false)
            → Above m t sup
        found (inl c) = (st, st, e, here, c)
        found (inr c) = let (st', u, e', ch, s) = ih st (ground arith) in (st, u, e, up e' ch, s)

walk_complete :
    (m : TypeTable) (sup fuel t : ℕ)
    → Earlier m.type_defs
    → t < fuel
    → Above m t sup
    → walk m sup fuel t ≡ true
unfolding walk
walk_complete m sup zero t we ht a = ground arith
walk_complete m sup (suc fuel) t we ht (st, u, e, here, c) = ground arith
walk_complete m sup (suc fuel) t we ht (st, u, e, up e' ch, c) =
    let ih = walk_complete m sup fuel st we (omega (arith, ht, we t st e)) (_, u, e', ch, c) in
    ground arith

-- For two types of the module, whose supertypes come before their subtypes, the test is exactly this:
-- the types are equivalent, or a proper supertype of the first is the second or is equivalent to it.
pub concrete_subtype_iff :
    (m : TypeTable) (sub sup : ℕ)
    → Earlier m.type_defs
    → sub < length m.type_defs
    → sup < length m.type_defs
    → (concrete_subtype m sub sup ≡ true)
      ↔ ((same_canonical m.canonical_map sub sup ≡ true) ⊎ Above m sub sup)
unfolding concrete_subtype
concrete_subtype_iff m sub sup we hsub hsup = (to, from)
  where
    to :
        concrete_subtype m sub sup ≡ true
        → (same_canonical m.canonical_map sub sup ≡ true) ⊎ Above m sub sup
    to h = elim (Bool-cases (same_canonical m.canonical_map sub sup)) [
      | inl e ↦ inl e
      | inr e ↦ inr (walk_sound m sup (length m.type_defs) sub (ground arith))
    ]

    from :
        (same_canonical m.canonical_map sub sup ≡ true) ⊎ Above m sub sup
        → concrete_subtype m sub sup ≡ true
    from (inl e) = ground arith
    from (inr a) = let w = walk_complete m sup (length m.type_defs) sub we hsub a in ground arith
