-- ===== src/Gc/Loop.antt =====
-- The loops of the marking phase (`wah_gc_step_mark`): their invariant and their end.
use wah.Base.{
  ℕ, zero, suc, ◌+◌, ◌≤◌, ◌<◌, Bool, true, false, ◌≡◌, ◌⊎◌, inl, inr, refl, ap, ◌∙◌, List, [], ◌∷◌,
  List-cases, length, some, arith, Bool-cases, ==_iff,
}
use wah.Gc.{Worklist, Objects, object_refs, update, scan_object, drain, rescan, mark_loop}
use wah.Gc.Marks.{elem, pending, unmarked, mark_refs-Extends}
use wah.Gc.Costs.{overflows, Paid, mark_refs-Paid}
use wah.Gc.Invariant.{Reach, follow, Marking, Taken, scan_object-Marking}

-- Gray objects are announced by the overflow flag, or are yet to come in the scan of all objects.
abbrev pub GrayNoted : List ℕ → Worklist → Type 0
GrayNoted rest w = (a : ℕ) → w.gray a ≡ true → (w.overflow ≡ true) ⊎ (elem a rest ≡ true)

pub unmarked-le-length : (all : List ℕ) (bits : ℕ → Bool) → unmarked all bits ≤ length all
unfolding unmarked
unmarked-le-length [] bits = omega arith
unmarked-le-length (x ∷ all) bits = ground (arith, unmarked-le-length all bits)

module _ (realloc_ok : ℕ → Bool) (objects : Objects) (all roots : List ℕ)
    (listed : (a : ℕ) → Reach objects roots a → elem a all ≡ true) where
  scan_object-Paid :
      {obj : ℕ} (w : Worklist)
      → Reach objects roots obj
      → Paid realloc_ok all w (scan_object realloc_ok objects obj w)
  unfolding scan_object
  scan_object-Paid {obj} w r =
      mark_refs-Paid realloc_ok all (object_refs (objects obj)) w (λ a h. listed a (follow r h))

  scan_object-GrayNoted :
      (obj : ℕ) (rest : List ℕ) (w : Worklist)
      → GrayNoted rest w
      → GrayNoted rest (scan_object realloc_ok objects obj w)
  unfolding scan_object
  scan_object-GrayNoted obj rest w g a h =
      let e = mark_refs-Extends realloc_ok (object_refs (objects obj)) w in
      ground (arith, e.gray_noted a h, g a, e.overflow_stays)

  -- A popped object, and a gray one that is gray no more.
  popped :
      {w : Worklist} (obj : ℕ) (rest : List ℕ)
      → w.items ≡ obj ∷ rest
      → Taken objects roots obj w (record w { items = rest })
  unfolding pending elem
  popped obj rest e = record {
    bits = refl;
    waits = λ a h. ground (arith, ==_iff a obj, ap (elem a) e);
    waited = λ a h. ground (arith, ap (elem a) e);
  }

  ungrayed :
      (w : Worklist) (obj : ℕ)
      → w.gray obj ≡ true
      → Taken objects roots obj w (record w { gray = update w.gray obj false })
  unfolding pending
  ungrayed w obj g = record {
    bits = refl;
    waits = λ a h. ground (arith, ==_iff a obj);
    waited = λ a h. ground (arith, ==_iff a obj);
  }

  record Drained (w v : Worklist) : Type 0 where
    marking : Marking objects roots v
    empty : v.items ≡ []
    noted : GrayNoted [] v
    paid :
        unmarked all v.marked + overflows v.overflow ≤ unmarked all w.marked + overflows w.overflow

  drain_ends :
      (fuel : ℕ) (w : Worklist)
      → Marking objects roots w
      → GrayNoted [] w
      → length w.items + unmarked all w.marked ≤ fuel
      → (v : Worklist) × (drain realloc_ok objects fuel w ≡ some v) × Drained w v
  unfolding drain pending elem
  drain_ends zero w m g enough = elim (List-cases w.items) [
    | inl e ↦ (w, simp (e, drain), record { marking = m; empty = e; noted = g; paid = omega arith })
    | inr (obj, rest, e) ↦ absurd (omega (arith, ap length e))
  ]
  drain_ends (suc fuel) w m g enough = elim (List-cases w.items) [
    | inl e ↦ (w, simp (e, drain), record { marking = m; empty = e; noted = g; paid = omega arith })
    | inr (obj, rest, e) ↦
        let w' : Worklist = record w { items = rest } in
        let seen = m.waiting obj (ground (arith, ap (elem obj) e)) in
        let paid = scan_object-Paid w' (m.sound obj seen) in
        let (v, ends, d) =
          drain_ends fuel (scan_object realloc_ok objects obj w')
            (scan_object-Marking objects roots realloc_ok m seen (popped obj rest e))
            (scan_object-GrayNoted obj [] w' g) (omega (arith, ap length e, paid)) in
        (
          v,
          rw (e, drain) ends,
          record {
            marking = d.marking;
            empty = d.empty;
            noted = d.noted;
            paid = omega (arith, d.paid, paid.credit);
          },
        )
  ]

  record Rescanned (w v : Worklist) : Type 0 where
    marking : Marking objects roots v
    noted : GrayNoted [] v
    paid :
        unmarked all v.marked + overflows v.overflow ≤ unmarked all w.marked + overflows w.overflow

  rescan-Rescanned :
      (rest : List ℕ) (w : Worklist)
      → Marking objects roots w
      → GrayNoted rest w
      → Rescanned w (rescan realloc_ok objects rest w)
  unfolding rescan pending elem
  rescan-Rescanned [] w m g = record { marking = m; noted = g; paid = omega arith }
  rescan-Rescanned (obj ∷ rest) w m g = elim (Bool-cases (w.gray obj)) [
    | inl h ↦
        let w' : Worklist = record w { gray = update w.gray obj false } in
        let seen = m.waiting obj (ground arith) in
        let paid = scan_object-Paid w' (m.sound obj seen) in
        let r =
          rescan-Rescanned rest (scan_object realloc_ok objects obj w')
            (scan_object-Marking objects roots realloc_ok m seen (ungrayed w obj h))
            (scan_object-GrayNoted obj rest w' (λ a y. ground (arith, g a, ==_iff a obj))) in
        rw h (record {
          marking = r.marking;
          noted = r.noted;
          paid = omega (arith, r.paid, paid.credit);
        })
    | inr h ↦ rw h (rescan-Rescanned rest w m (λ a y. ground (arith, g a, ==_iff a obj)))
  ]

  gray-pending : (v : Worklist) {a : ℕ} → v.gray a ≡ true → pending v a ≡ true
  unfolding pending
  gray-pending v h = ground arith

  Marking-no_overflow :
      {v : Worklist}
      → Marking objects roots v
      → Marking objects roots (record v { overflow = false })
  unfolding pending
  Marking-no_overflow m = record {
    rooted = m.rooted;
    sound = m.sound;
    waiting = m.waiting;
    closed = m.closed;
  }

  -- What is left when marking is over.
  pub record Marked (v : Worklist) : Type 0 where
    pub marking : Marking objects roots v
    pub idle : (a : ℕ) → pending v a ≡ false

  Drained-Marked : {w v : Worklist} → Drained w v → v.overflow ≡ false → Marked v
  unfolding pending elem
  Drained-Marked d o = record {
    marking = d.marking;
    idle = λ a. ground (arith, d.noted a, ap (elem a) d.empty);
  }

  Ends : ℕ → Worklist → Type 0
  Ends fuel w = (v : Worklist) × (mark_loop realloc_ok objects all fuel w ≡ some v) × Marked v

  next_round :
      (fuel : ℕ) (w v : Worklist)
      → drain realloc_ok objects (length w.items + length all) w ≡ some v
      → v.overflow ≡ true
      → mark_loop realloc_ok objects all (suc fuel) w
        ≡ mark_loop realloc_ok objects all fuel
            (rescan realloc_ok objects all (record v { overflow = false }))
  unfolding mark_loop
  next_round fuel w v ends o = simp (ends, o, mark_loop)

  -- One round, whose worklist is empty in the end.
  mark_round :
      (fuel : ℕ) (w v : Worklist)
      → drain realloc_ok objects (length w.items + length all) w ≡ some v
      → Drained w v
      → unmarked all w.marked + overflows w.overflow ≤ fuel
      → ((u : Worklist)
          → Marking objects roots u
          → GrayNoted [] u
          → unmarked all u.marked + overflows u.overflow < fuel
          → Ends fuel u)
      → Ends (suc fuel) w
  unfolding mark_loop Ends
  mark_round fuel w v ends d enough again = elim (Bool-cases v.overflow) [
    | inr o ↦ (v, simp (ends, o, mark_loop), Drained-Marked d o)
    | inl o ↦
        let m = d.marking in
        let v' : Worklist = record v { overflow = false } in
        let listed_gray : GrayNoted all v' =
          λ a h. inr (listed a (m.sound a (m.waiting a (gray-pending v h)))) in
        let r = rescan-Rescanned all v' (Marking-no_overflow m) listed_gray in
        let (u, e, f) =
          again (rescan realloc_ok objects all v') r.marking r.noted
            (ground (arith, r.paid, d.paid)) in
        (u, next_round fuel w v ends o ∙ e, f)
  ]

  pub mark_loop_ends :
      (fuel : ℕ) (w : Worklist)
      → Marking objects roots w
      → GrayNoted [] w
      → unmarked all w.marked + overflows w.overflow < fuel
      → (v : Worklist) × (mark_loop realloc_ok objects all fuel w ≡ some v) × Marked v
  unfolding Ends
  mark_loop_ends zero w m g enough = elim enough [ ]
  mark_loop_ends (suc fuel) w m g enough =
      let (v, ends, d) =
        drain_ends (length w.items + length all) w m g
          (omega (arith, unmarked-le-length all w.marked)) in
      mark_round fuel w v ends d (omega arith) (mark_loop_ends fuel)
