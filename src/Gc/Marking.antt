-- ===== src/Gc/Marking.antt =====
-- The marking phase as a whole, and the objects that the roots reach.
use wah.Base.{
  ℕ, ◌+◌, Bool, true, false, if◌then◌else◌, ◌≡◌, ◌↔◌, refl, inl, inr, List, [], ◌∷◌, length, some,
  arith,
}
use mathlib.Core.Logic.{∥∥₁_elim}
use mathlib.Core.Bool.{So-prop}
use wah.Gc.{Worklist, Objects, update, mark_refs, clear_bits, mark_phase}
use wah.Gc.Marks.{elem, pending, mark_refs-Extends, marked-mark_refs}
use wah.Gc.Costs.{mark_refs-Paid}
use wah.Gc.Invariant.{Reach, root, follow, Marking}
use wah.Gc.Loop.{Marked, GrayNoted, mark_loop_ends, unmarked-le-length}

clear_bits_lem :
    (all : List ℕ) (bits : ℕ → Bool) (a : ℕ)
    → clear_bits all bits a ≡ (if elem a all then false else bits a)
unfolding clear_bits elem
clear_bits_lem [] bits a = ground arith
clear_bits_lem (x ∷ all) bits a = ground (arith, clear_bits_lem all (update bits x false) a)

-- What holds of the objects of a link domain between collections: everything reachable is in the list
-- of its heap, and only objects have tag bits.
pub record IsHeap (objects : Objects) (all roots : List ℕ) (marked gray : ℕ → Bool) : Type 0 where
  pub listed : (a : ℕ) → Reach objects roots a → elem a all ≡ true
  pub mark_bits : (a : ℕ) → marked a ≡ true → elem a all ≡ true
  pub gray_bits : (a : ℕ) → gray a ≡ true → elem a all ≡ true

module _ (realloc_ok : ℕ → Bool) (objects : Objects) (all roots : List ℕ) where
  -- The worklist before the roots are marked.
  record IsBlank (w : Worklist) : Type 0 where
    unmarked_all : (a : ℕ) → w.marked a ≡ false
    idle : (a : ℕ) → pending w a ≡ false
    gray_none : (a : ℕ) → w.gray a ≡ false
    no_overflow : w.overflow ≡ false

  roots-Marking : (w : Worklist) → IsBlank w → Marking objects roots (mark_refs realloc_ok roots w)
  roots-Marking w b =
      let e = mark_refs-Extends realloc_ok roots w in
      let exact = marked-mark_refs realloc_ok roots w in
      record {
        rooted = λ a h. ground (arith, exact a);
        sound = λ a h. root (ground (arith, exact a, b.unmarked_all a));
        waiting = λ a h. ground (arith, e.waiting_marked a h, b.idle a);
        closed = λ a c h edge. ground (arith, e.new_waits a h, b.unmarked_all a);
      }

  roots-GrayNoted : (w : Worklist) → IsBlank w → GrayNoted [] (mark_refs realloc_ok roots w)
  roots-GrayNoted w b a h =
      let e = mark_refs-Extends realloc_ok roots w in
      ground (arith, e.gray_noted a h, b.gray_none a)

  module _ (marked gray : ℕ → Bool) (heap : IsHeap objects all roots marked gray) where
    abbrev blank : Worklist
    blank = record {
      marked = clear_bits all marked;
      gray = clear_bits all gray;
      items = [];
      cap = 0;
      overflow = false;
      tries = 0;
    }

    blank-IsBlank : IsBlank blank
    unfolding pending elem
    blank-IsBlank = record {
      unmarked_all = λ a. ground (arith, clear_bits_lem all marked a, heap.mark_bits a);
      idle = λ a. ground (arith, clear_bits_lem all gray a, heap.gray_bits a);
      gray_none = λ a. ground (arith, clear_bits_lem all gray a, heap.gray_bits a);
      no_overflow = refl;
    }

    mark_phase-Marked :
        (v : Worklist) × (mark_phase realloc_ok objects all roots marked gray ≡ some v)
        × Marked realloc_ok objects all roots heap.listed v
    unfolding mark_phase
    mark_phase-Marked =
        let b = blank-IsBlank in
        mark_loop_ends realloc_ok objects all roots heap.listed (length all + 2)
          (mark_refs realloc_ok roots blank) (roots-Marking blank b) (roots-GrayNoted blank b)
          (omega (
            arith,
            (mark_refs-Paid realloc_ok all roots blank (λ a h. heap.listed a (root h))).credit,
            unmarked-le-length all (clear_bits all marked),
          ))

    closed_marks :
        {v : Worklist}
        → Marked realloc_ok objects all roots heap.listed v
        → {a : ℕ} → Reach objects roots a
        → v.marked a ≡ true
    closed_marks m (root h) = m.marking.rooted _ h
    closed_marks m (follow {a} {b} r edge) = elim (m.marking.closed a b (closed_marks m r) edge) [
      | inl wait ↦ cc (m.idle a)
      | inr done ↦ done
    ]

-- Whatever reallocations of the worklist fail, marking ends, and then exactly the objects that can be
-- reached from the roots are marked. All reachable, marked and gray objects must be among the objects
-- of the heap.
pub mark_phase_exact :
    (realloc_ok : ℕ → Bool) (objects : Objects) (all roots : List ℕ) (marked gray : ℕ → Bool)
    → IsHeap objects all roots marked gray
    → (v : Worklist) × (mark_phase realloc_ok objects all roots marked gray ≡ some v)
      × ((a : ℕ) → (v.marked a ≡ true) ↔ ∥ Reach objects roots a ∥₁)
mark_phase_exact realloc_ok objects all roots marked gray heap =
    let (v, ends, m) = mark_phase-Marked realloc_ok objects all roots marked gray heap in
    (
      v,
      ends,
      λ a. (
        λ h. ∣ m.marking.sound a h ∣₁,
        λ r. ∥∥₁_elim r (So-prop _) (closed_marks realloc_ok objects all roots marked gray heap m),
      ),
    )
