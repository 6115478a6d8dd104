-- ===== src/Gc/Invariant.antt =====
-- The invariant of marking, for `wah_gc_scan_object`.
use wah.Base.{ℕ, Bool, true, ◌≡◌, ◌⊎◌, inl, inr, List, ap, arith, Bool-cases}
use wah.Gc.{Worklist, Objects, object_refs, scan_object}
use wah.Gc.Marks.{leads_to, pending, mark_refs-Extends, marked-mark_refs}

module _ (objects : Objects) (roots : List ℕ) where
  -- What the program can still reach.
  pub data Reach : ℕ → Type 0 where
    root : {b : ℕ} → leads_to roots b ≡ true → Reach b
    follow : {a b : ℕ} → Reach a → leads_to (object_refs (objects a)) b ≡ true → Reach b

  pub record Marking (w : Worklist) : Type 0 where
    pub rooted : (b : ℕ) → leads_to roots b ≡ true → w.marked b ≡ true
    pub sound : (a : ℕ) → w.marked a ≡ true → Reach a
    pub waiting : (a : ℕ) → pending w a ≡ true → w.marked a ≡ true
    pub closed :
        (a b : ℕ)
        → w.marked a ≡ true
        → leads_to (object_refs (objects a)) b ≡ true
        → (pending w a ≡ true) ⊎ (w.marked b ≡ true)

  -- A worklist that differs in one object, which no longer waits.
  pub record Taken (obj : ℕ) (w v : Worklist) : Type 0 where
    pub bits : v.marked ≡ w.marked
    pub waits : (a : ℕ) → pending w a ≡ true → (a ≡ obj) ⊎ (pending v a ≡ true)
    pub waited : (a : ℕ) → pending v a ≡ true → pending w a ≡ true

  module _ (realloc_ok : ℕ → Bool) where
    pub scan_object-Marking :
        {obj : ℕ} {w v : Worklist}
        → Marking w
        → w.marked obj ≡ true
        → Taken obj w v
        → Marking (scan_object realloc_ok objects obj v)
    unfolding scan_object
    scan_object-Marking {obj} {w} {v} m seen t =
        let rs = object_refs (objects obj) in
        let e = mark_refs-Extends realloc_ok rs v in
        let exact = marked-mark_refs realloc_ok rs v in
        let stays = λ (a : ℕ) (h : w.marked a ≡ true). e.marked_stays a (rw t.bits h) in
        record {
          rooted = λ b h. stays b (m.rooted b h);
          sound = λ a h. elim (Bool-cases (w.marked a)) [
            | inl old ↦ m.sound a old
            | inr new ↦
                follow (m.sound obj seen)
                  (ground (arith, exact a, (ap (λ (f : ℕ → Bool). f a) t.bits)))
          ];
          waiting = λ a h. elim (e.waiting_marked a h) [
            | inl old ↦ stays a (m.waiting a (t.waited a old))
            | inr new ↦ new
          ];
          closed = λ a b h edge. elim (Bool-cases (w.marked a)) [
            | inr new ↦ elim (e.new_waits a h) [
              | inl old ↦ ground (arith, ap (λ (f : ℕ → Bool). f a) t.bits)
              | inr wait ↦ inl wait
            ]
            | inl old ↦ elim (m.closed a b old edge) [
              | inr done ↦ inr (stays b done)
              | inl wait ↦ elim (t.waits a wait) [
                | inr wait' ↦ inl (e.pending_stays a wait')
                | inl same ↦ inr (ground (arith, exact b))
              ]
            ]
          ];
        }
