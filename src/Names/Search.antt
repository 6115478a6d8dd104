-- ===== src/Names/Search.antt =====
-- The binary search of exports by name (`wah_export_lower_bound`).
use wah.Base.{
  ℕ, zero, suc, ◌+◌, ◌-◌, ◌/◌, ◌≤◌, ◌<◌, ◌≡◌, inl, inr, refl, sym, ◌∙◌, Bool, true, false, not, ltb,
  arith, Bool-cases,
}
use wah.Base.{if◌then◌else◌, List, [], ◌∷◌, length, All}
use wah.Names.{memcmp_less, export_name_less, lower_bound, less_at, export_lower_bound}

-- The names go up: what is less at a position is less before it.
abbrev pub Upward : (ℕ → Bool) → ℕ → Type 0
Upward less count = (i j : ℕ) → i ≤ j → j < count → less j ≡ true → less i ≡ true

-- `p` splits the positions below `count`.
abbrev pub Splits : (ℕ → Bool) → ℕ → ℕ → Type 0
Splits less count p =
    (p ≤ count) × ((i : ℕ) → i < p → less i ≡ true) × ((i : ℕ) → p ≤ i → i < count → less i ≡ false)

abbrev Below : (ℕ → Bool) → ℕ → Type 0
Below less lo = (i : ℕ) → i < lo → less i ≡ true

abbrev From : (ℕ → Bool) → ℕ → ℕ → Type 0
From less count hi = (i : ℕ) → hi ≤ i → i < count → less i ≡ false

not_less :
    (less : ℕ → Bool) (count mid i : ℕ)
    → Upward less count
    → less mid ≡ false
    → mid ≤ i
    → i < count
    → less i ≡ false
not_less less count mid i up e h k = elim (Bool-cases (less i)) [
  | inl c ↦ ground (arith, up mid i h k c)
  | inr c ↦ c
]

lower_bound-Splits :
    (less : ℕ → Bool) (count fuel lo hi : ℕ)
    → Upward less count
    → hi ≤ count
    → lo ≤ hi
    → hi - lo ≤ fuel
    → Below less lo
    → From less count hi
    → Splits less count (lower_bound less fuel lo hi)
unfolding lower_bound
lower_bound-Splits less count zero lo hi up hc hl hf b f =
    (omega (arith, hc, hl), b, λ i h k. f i (omega (arith, h, hf, hl)) k)
lower_bound-Splits less count (suc fuel) lo hi up hc hl hf b f =
    go (ltb lo hi) (less mid) refl refl
      (λ h e.
        lower_bound-Splits less count fuel (mid + 1) hi up hc (omega (arith, h))
          (omega (arith, hf, h)) (λ i k. up i mid (omega (arith, k)) (omega (arith, h, hc)) e) f)
      (λ h e.
        lower_bound-Splits less count fuel lo mid up (omega (arith, h, hc)) (omega (arith, h))
          (omega (arith, h, hf)) b (λ i k l. not_less less count mid i up e k l))
  where
    mid : ℕ
    mid = lo + (hi - lo) / 2

    go :
        (c d : Bool)
        → ltb lo hi ≡ c
        → less mid ≡ d
        → (lo < hi → less mid ≡ true → Splits less count (lower_bound less fuel (mid + 1) hi))
        → (lo < hi → less mid ≡ false → Splits less count (lower_bound less fuel lo mid))
        → Splits less count (
            if not c
            then lo
            else if d
            then lower_bound less fuel (mid + 1) hi
            else lower_bound less fuel lo mid)
    go true true ec ed right left = right (ground arith) ed
    go true false ec ed right left = left (ground arith) ed
    go false d ec ed right left = (omega (arith, hl, hc), b, λ i h k. f i (ground arith) k)

Splits-less : (less : ℕ → Bool) (count p i : ℕ) → Splits less count p → i < count → less i ≡ ltb i p
Splits-less less count p i (h, b, f) k = elim (Bool-cases (ltb i p)) [
  | inl c ↦ b i (ground arith) ∙ sym c
  | inr c ↦ f i (ground arith) k ∙ sym c
]

memcmp_less_trans :
    (xs ys zs : List ℕ)
    → memcmp_less xs ys ≡ true
    → memcmp_less ys zs ≡ true
    → memcmp_less xs zs ≡ true
unfolding memcmp_less
memcmp_less_trans [] ys zs h k = cc
memcmp_less_trans (x ∷ xs) [] zs h k = cc
memcmp_less_trans (x ∷ xs) (y ∷ ys) [] h k = cc
memcmp_less_trans (x ∷ xs) (y ∷ ys) (z ∷ zs) h k = elim (Bool-cases (memcmp_less xs ys)) [
  | inr a ↦ ground arith
  | inl a ↦ elim (Bool-cases (memcmp_less ys zs)) [
    | inr b ↦ ground arith
    | inl b ↦ ground (arith, memcmp_less_trans xs ys zs a b)
  ]
]

export_name_less_trans :
    (x y z : List ℕ)
    → export_name_less x y ≡ true
    → export_name_less y z ≡ true
    → export_name_less x z ≡ true
unfolding export_name_less
export_name_less_trans x y z h k = elim (Bool-cases (memcmp_less x y)) [
  | inr a ↦ ground arith
  | inl a ↦ elim (Bool-cases (memcmp_less y z)) [
    | inr b ↦ ground arith
    | inl b ↦ ground (arith, memcmp_less_trans x y z a b)
  ]
]

-- Each name is less than all that come behind it.
abbrev pub IsSorted : List (List ℕ) → Type 0
IsSorted [] = Unit
IsSorted (x ∷ names) = All (λ y. export_name_less x y ≡ true) names × IsSorted names

first_less :
    (x name : List ℕ) (names : List (List ℕ)) (j : ℕ)
    → All (λ y. export_name_less x y ≡ true) names
    → less_at names name j ≡ true
    → export_name_less x name ≡ true
first_less x name [] j a h = cc
first_less x name (y ∷ names) zero a h = export_name_less_trans x y name a.0 h
first_less x name (y ∷ names) (suc j) a h = first_less x name names j a.1 h

IsSorted-Upward :
    (names : List (List ℕ)) (name : List ℕ)
    → IsSorted names
    → Upward (less_at names name) (length names)
IsSorted-Upward [] name s i j h k e = absurd (omega (arith, k))
IsSorted-Upward (x ∷ names) name s zero zero h k e = e
IsSorted-Upward (x ∷ names) name s zero (suc j) h k e = first_less x name names j s.0 e
IsSorted-Upward (x ∷ names) name s (suc i) zero h k e = absurd (omega (arith, h))
IsSorted-Upward (x ∷ names) name s (suc i) (suc j) h k e =
    IsSorted-Upward names name s.1 i j (omega (arith, h)) (omega (arith, k)) e

-- When each name is less, by length and then byte by byte, than all that come behind it, a name is
-- less than the one looked up exactly where its position is before the one that the search returns.
pub export_lower_bound-less :
    (names : List (List ℕ)) (name : List ℕ) (i : ℕ)
    → IsSorted names
    → i < length names
    → less_at names name i ≡ ltb i (export_lower_bound names name)
unfolding export_lower_bound
export_lower_bound-less names name i sorted h =
    Splits-less (less_at names name) (length names) _ i
      (lower_bound-Splits (less_at names name) (length names) (length names) 0 (length names)
        (IsSorted-Upward names name sorted) (omega arith) (omega arith) (omega arith)
        (λ i h. ground arith) (λ i h k. ground arith))
      h
