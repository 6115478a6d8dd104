-- ===== src/Dependents/Keeps.antt =====
-- How often a context is listed by `wah_gc_register_dependent` and its inverse.
use wah.Base.{
  ℕ, ◌+◌, ◌-◌, ◌≡◌, inl, inr, refl, Bool, true, false, ◌==◌, if◌then◌else◌, List, [], ◌∷◌, ◌++◌,
  length, arith, Bool-cases, ==_iff,
}
use wah.Status.{Result, ok, err}
use wah.Arrays.{grow_array}
use wah.Gc.Marks.{elem}
use wah.Dependents.{
  Dependents, added, register_dependent, last, all_but_last, last_first, unregister,
}

-- How often a context is listed.
unfoldable pub occurrences : ℕ → List ℕ → ℕ
occurrences x [] = 0
occurrences x (y ∷ ys) = (if y == x then 1 else 0) + occurrences x ys

occurrences-append :
    (x : ℕ) (xs ys : List ℕ) → occurrences x (xs ++ ys) ≡ occurrences x xs + occurrences x ys
unfolding occurrences
occurrences-append x [] ys = omega arith
occurrences-append x (y ∷ xs) ys = omega (arith, occurrences-append x xs ys)

occurrences-elem : (x : ℕ) (xs : List ℕ) → elem x xs ≡ false → occurrences x xs ≡ 0
unfolding occurrences elem
occurrences-elem x [] h = refl
occurrences-elem x (y ∷ ys) h = ground (arith, occurrences-elem x ys, ==_iff x y, ==_iff y x)

-- What registering leads to: an error, or a list with the context in it once that lists the others as
-- before.
abbrev pub Registered : ℕ → List ℕ → Result Dependents → Type 0
Registered dep xs (err e) = elem dep xs ≡ false
Registered dep xs (ok d) =
    (elem dep d.list ≡ true)
    × ((x : ℕ)
        → occurrences x d.list
          ≡ occurrences x xs + (if elem dep xs then 0 else if x == dep then 1 else 0))

occurrences-last :
    (x y : ℕ) (ys : List ℕ) → occurrences x (last y ys ∷ all_but_last y ys) ≡ occurrences x (y ∷ ys)
unfolding occurrences last all_but_last
occurrences-last x y [] = refl
occurrences-last x y (z ∷ zs) = omega (arith, occurrences-last x z zs)

occurrences-last_first : (x : ℕ) (ys : List ℕ) → occurrences x (last_first ys) ≡ occurrences x ys
occurrences-last_first x [] = refl
occurrences-last_first x (y ∷ ys) = occurrences-last x y ys

-- Taking a context off takes away one occurrence of it, and leaves the others.
pub occurrences-unregister :
    (dep x : ℕ) (xs : List ℕ)
    → occurrences x (unregister dep xs) ≡ occurrences x xs - (if x == dep then 1 else 0)
unfolding occurrences unregister
occurrences-unregister dep x [] = ground arith
occurrences-unregister dep x (y ∷ ys) = ground (
  arith,
  occurrences-unregister dep x ys,
  occurrences-last_first x ys,
  ==_iff y dep,
  ==_iff x dep,
  ==_iff y x,
)

elem-append_one : (dep : ℕ) (xs : List ℕ) → elem dep (xs ++ dep ∷ []) ≡ true
unfolding elem
elem-append_one dep [] = ground (arith, ==_iff dep dep)
elem-append_one dep (x ∷ xs) = ground (arith, elem-append_one dep xs)

occurrences-append_one :
    (dep x : ℕ) (xs : List ℕ)
    → occurrences x (xs ++ dep ∷ []) ≡ occurrences x xs + (if x == dep then 1 else 0)
unfolding occurrences
occurrences-append_one dep x xs =
    ground (arith, occurrences-append x xs (dep ∷ []), ==_iff x dep, ==_iff dep x)

added-Registered :
    (dep : ℕ) (d : Dependents) (r : Result ℕ)
    → elem dep d.list ≡ false
    → Registered dep d.list (added dep d r)
added-Registered dep d (err e) h = h
added-Registered dep d (ok cap) h =
    (elem-append_one dep d.list, λ x. rw h (occurrences-append_one dep x d.list))

-- Registering a context fails only where it is new; otherwise it is listed, once more only where it was
-- not listed, and all others as before.
pub register_dependent-Registered :
    (realloc : ℕ → Bool) (dep : ℕ) (d : Dependents)
    → Registered dep d.list (register_dependent realloc dep d)
unfolding register_dependent
register_dependent-Registered realloc dep d = elim (Bool-cases (elem dep d.list)) [
  | inl h ↦ rw h (h, λ x. rw h (omega arith))
  | inr h ↦ rw h (added-Registered dep d (grow_array realloc (length d.list + 1) d.cap) h)
]
