-- ===== src/Gc/Marks.antt =====
-- One marking of references (`wah_gc_mark_ref`), with the worklist growing or not: what is marked, what
-- waits to be scanned, and what it costs.
use wah.Base.{
  ℕ, ◌+◌, Bool, true, false, not, ◌&&◌, ◌||◌, ◌==◌, if◌then◌else◌, ◌≡◌, ◌⊎◌, inl, inr, List, [],
  ◌∷◌, arith, Bool-cases,
}
use wah.References.{ref_is_i31}
use wah.Gc.{Worklist, update, gc_header, push_object, mark_object, mark_ref, mark_refs}

unfoldable pub elem : ℕ → List ℕ → Bool
elem a [] = false
elem a (x ∷ xs) = a == x || elem a xs

-- Whether some of the references leads to the object: it is not null and no integer.
unfoldable pub leads_to : List ℕ → ℕ → Bool
leads_to [] b = false
leads_to (r ∷ rs) b =
    (not (r == 0) && not (ref_is_i31 r) && not (gc_header r == 0) && b == gc_header r)
    || leads_to rs b

-- An object that is still to be scanned.
unfoldable pub pending : Worklist → ℕ → Bool
unfolding elem
pending w a = elem a w.items || w.gray a

-- The objects that are not marked.
unfoldable pub unmarked : List ℕ → (ℕ → Bool) → ℕ
unmarked [] marked = 0
unmarked (a ∷ all) marked = (if marked a then 0 else 1) + unmarked all marked

-- What marking does to the worklist.
pub record Extends (w v : Worklist) : Type 0 where
  pub marked_stays : (a : ℕ) → w.marked a ≡ true → v.marked a ≡ true
  pub pending_stays : (a : ℕ) → pending w a ≡ true → pending v a ≡ true
  pub new_waits : (a : ℕ) → v.marked a ≡ true → (w.marked a ≡ true) ⊎ (pending v a ≡ true)
  pub waiting_marked : (a : ℕ) → pending v a ≡ true → (pending w a ≡ true) ⊎ (v.marked a ≡ true)
  pub gray_noted : (a : ℕ) → v.gray a ≡ true → (w.gray a ≡ true) ⊎ (v.overflow ≡ true)
  pub overflow_stays : w.overflow ≡ true → v.overflow ≡ true

pub Extends-refl : (w : Worklist) → Extends w w
Extends-refl w = record {
  marked_stays = λ a h. h;
  pending_stays = λ a h. h;
  new_waits = λ a h. inl h;
  waiting_marked = λ a h. inl h;
  gray_noted = λ a h. inl h;
  overflow_stays = λ h. h;
}

pub Extends-trans : {u v w : Worklist} → Extends u v → Extends v w → Extends u w
Extends-trans e f = record {
  marked_stays = λ a h. f.marked_stays a (e.marked_stays a h);
  pending_stays = λ a h. f.pending_stays a (e.pending_stays a h);
  new_waits = λ a h. ground (arith, f.new_waits a h, e.new_waits a, f.pending_stays a);
  waiting_marked =
      λ a h. ground (arith, f.waiting_marked a h, e.waiting_marked a, f.marked_stays a);
  gray_noted = λ a h. ground (arith, f.gray_noted a h, e.gray_noted a, f.overflow_stays);
  overflow_stays = λ h. f.overflow_stays (e.overflow_stays h);
}

module _ (realloc_ok : ℕ → Bool) where
  -- Behind a push, the object waits and nothing else has changed.
  record Pushed (obj : ℕ) (w v : Worklist) : Type 0 where
    bits : v.marked ≡ w.marked
    waits : (a : ℕ) → pending v a ≡ (a == obj || pending w a)
    noted : (a : ℕ) → v.gray a ≡ true → (w.gray a ≡ true) ⊎ (v.overflow ≡ true)
    stays : w.overflow ≡ true → v.overflow ≡ true

  push_object-Pushed : (obj : ℕ) (w : Worklist) → Pushed obj w (push_object realloc_ok obj w)
  unfolding push_object pending elem
  push_object-Pushed obj w = record {
    bits = ground arith;
    waits = λ a. ground arith;
    noted = λ a. ground arith;
    stays = ground arith;
  }

  -- What a mark of one object does, if it is not marked yet.
  marked-Extends :
      {obj : ℕ} {w v : Worklist}
      → Pushed obj (record w { marked = update w.marked obj true }) v
      → Extends w v
  unfolding pending
  marked-Extends {obj} {w} {v} p = record {
    marked_stays = λ a h. rw p.bits (ground arith);
    pending_stays = λ a h. ground (arith, p.waits a);
    new_waits = λ a h. ground (arith, p.waits a, (rw p.bits at h));
    waiting_marked = λ a h. rw p.bits (ground (arith, p.waits a));
    gray_noted = p.noted;
    overflow_stays = p.stays;
  }

  pub mark_object-Extends : (obj : ℕ) (w : Worklist) → Extends w (mark_object realloc_ok obj w)
  unfolding mark_object
  mark_object-Extends obj w = elim (Bool-cases (obj == 0 || w.marked obj)) [
    | inl h ↦ rw h (Extends-refl w)
    | inr h ↦ rw h (marked-Extends (push_object-Pushed obj _))
  ]

  -- Exactly the object is marked as well.
  pub marked-mark_object :
      (obj : ℕ) (w : Worklist) (a : ℕ)
      → (mark_object realloc_ok obj w).marked a ≡ (w.marked a || (not (obj == 0) && a == obj))
  unfolding mark_object
  marked-mark_object obj w a = elim (Bool-cases (obj == 0 || w.marked obj)) [
    | inl h ↦ rw h (ground arith)
    | inr h ↦ rw h (rw (push_object-Pushed obj _).bits (ground arith))
  ]

  pub mark_ref-Extends : (r : ℕ) (w : Worklist) → Extends w (mark_ref realloc_ok r w)
  unfolding mark_ref
  mark_ref-Extends r w = elim (Bool-cases (r == 0 || ref_is_i31 r)) [
    | inl h ↦ rw h (Extends-refl w)
    | inr h ↦ rw h (mark_object-Extends (gc_header r) w)
  ]

  pub mark_refs-Extends : (rs : List ℕ) (w : Worklist) → Extends w (mark_refs realloc_ok rs w)
  unfolding mark_refs
  mark_refs-Extends [] w = Extends-refl w
  mark_refs-Extends (r ∷ rs) w =
      Extends-trans (mark_ref-Extends r w) (mark_refs-Extends rs (mark_ref realloc_ok r w))

  marked-mark_ref :
      (r : ℕ) (w : Worklist) (a : ℕ)
      → (mark_ref realloc_ok r w).marked a ≡ (w.marked a || leads_to (r ∷ []) a)
  unfolding mark_ref leads_to
  marked-mark_ref r w a = ground (arith, marked-mark_object (gc_header r) w a)

  -- Marking references marks exactly what they lead to as well.
  pub marked-mark_refs :
      (rs : List ℕ) (w : Worklist) (a : ℕ)
      → (mark_refs realloc_ok rs w).marked a ≡ (w.marked a || leads_to rs a)
  unfolding mark_refs leads_to
  marked-mark_refs [] w a = ground arith
  marked-mark_refs (r ∷ rs) w a =
      ground (arith, marked-mark_refs rs (mark_ref realloc_ok r w) a, marked-mark_ref r w a)
