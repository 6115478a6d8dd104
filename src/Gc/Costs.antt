-- ===== src/Gc/Costs.antt =====
-- The cost of marking: objects that are not marked, against pushes and overflows.
use wah.Base.{
  ℕ, ◌+◌, ◌≤◌, Bool, true, false, ◌||◌, ◌==◌, ◌≡◌, List, [], ◌∷◌, inl, inr, length, arith,
  Bool-cases, ==_iff,
}
use wah.References.{ref_is_i31}
use wah.Gc.{Worklist, update, gc_header, push_object, mark_object, mark_ref, mark_refs}
use wah.Gc.Marks.{elem, leads_to, unmarked}

abbrev pub overflows : Bool → ℕ
overflows true = 1
overflows false = 0

unmarked-le :
    (all : List ℕ) (bits : ℕ → Bool) (a : ℕ) → unmarked all (update bits a true) ≤ unmarked all bits
unfolding unmarked
unmarked-le [] bits a = omega arith
unmarked-le (x ∷ all) bits a = ground (arith, unmarked-le all bits a)

pub unmarked-lt :
    (all : List ℕ) (bits : ℕ → Bool) (a : ℕ)
    → elem a all ≡ true
    → bits a ≡ false
    → unmarked all (update bits a true) + 1 ≤ unmarked all bits
unfolding unmarked elem
unmarked-lt [] bits a h f = ground arith
unmarked-lt (x ∷ all) bits a h f = elim (Bool-cases (a == x)) [
  | inl e ↦ let same = (==_iff a x).0 e in ground (arith, unmarked-le all bits a)
  | inr n ↦ ground (arith, unmarked-lt all bits a, unmarked-le all bits a)
]

module _ (realloc_ok : ℕ → Bool) (all : List ℕ) where
  pub record Paid (w v : Worklist) : Type 0 where
    pub cost : length v.items + unmarked all v.marked ≤ length w.items + unmarked all w.marked
    pub credit :
        unmarked all v.marked + overflows v.overflow ≤ unmarked all w.marked + overflows w.overflow

  mark_object-Paid :
      (obj : ℕ) (w : Worklist)
      → (obj == 0 ≡ false → elem obj all ≡ true)
      → Paid w (mark_object realloc_ok obj w)
  unfolding mark_object push_object
  mark_object-Paid obj w listed = elim (Bool-cases (obj == 0 || w.marked obj)) [
    | inl h ↦ rw h (omega arith)
    | inr h ↦ rw h (
        let less = unmarked-lt all w.marked obj (listed (ground arith)) (ground arith) in
        record { cost = ground arith; credit = ground arith })
  ]

  mark_ref-Paid :
      (r : ℕ) (w : Worklist)
      → ((a : ℕ) → leads_to (r ∷ []) a ≡ true → elem a all ≡ true)
      → Paid w (mark_ref realloc_ok r w)
  unfolding mark_ref leads_to
  mark_ref-Paid r w listed = elim (Bool-cases (r == 0 || ref_is_i31 r)) [
    | inl h ↦ rw h (omega arith)
    | inr h ↦ rw h (mark_object-Paid (gc_header r) w (λ n. listed (gc_header r) (ground arith)))
  ]

  pub mark_refs-Paid :
      (rs : List ℕ) (w : Worklist)
      → ((a : ℕ) → leads_to rs a ≡ true → elem a all ≡ true)
      → Paid w (mark_refs realloc_ok rs w)
  unfolding mark_refs leads_to
  mark_refs-Paid [] w listed = omega arith
  mark_refs-Paid (r ∷ rs) w listed =
      let first = mark_ref-Paid r w (λ a h. listed a (ground arith)) in
      let rest = mark_refs-Paid rs (mark_ref realloc_ok r w) (λ a h. listed a (ground arith)) in
      omega arith
