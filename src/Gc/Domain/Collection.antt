-- ===== src/Gc/Domain/Collection.antt =====
-- A whole step of the collector (`wah_gc_step`).
use wah.Base.{
  ℕ, Bool, true, false, not, ◌&&◌, ◌==◌, ◌≡◌, ◌⊎◌, ◌↔◌, inl, inr, refl, ◌∙◌, List, [], some, length,
  arith, ==_iff,
}
use mathlib.Core.Logic.{∥∥₁_map}
use wah.Gc.Domain.Live.{Live, Owned, IsOwned, IsOwned-IsHeap, Live-of, Reach-of}
use wah.Gc.{Objects, Worklist}
use wah.Gc.Marks.{elem}
use wah.Gc.Invariant.{Reach}
use wah.Gc.Marking.{mark_phase_exact}
use wah.Gc.Heap.{GcState, Phase, idle, mark, sweep, step_sweep}
use wah.Gc.Heap.Counts.{Counted, Counted-with, sweep_objects-Counted, elem-sweep_objects}
use wah.Gc.Domain.{
  World, Domain, neighbours, domain_heaps, domain_objects, domain_roots, context_roots, step_mark,
  gc_step, set_heap, set_phase, other_bytes, sweep_heap, after_step_mark,
}
use wah.Gc.Domain.Closure.{Linked, self, link, IsDomain, collect_domain_ends}
use wah.Gc.Domain.Failure.{IsShort, collect_domain-IsShort}

-- What a collection that starts at context `ctx` with heap `h` relies on.
pub record IsCollectible (other : ℕ) (universe : List ℕ) (ctx h : ℕ) (w : World) : Type 0 where
  pub context : (ctx == 0) ≡ false
  pub listed : (c : ℕ) → Linked w ctx c → elem c universe ≡ true
  pub owned : IsOwned w ctx
  pub counted : Counted other w.objects 0 0 0 (w.heaps h).all_objects (w.heaps h)

module _ (objects : Objects) (marked : ℕ → Bool) (gc : GcState) where
  pub step_sweep-Counted :
      {other : ℕ}
      → Counted other objects 0 0 0 gc.all_objects gc
      → Counted other objects 0 0 0
          (step_sweep objects marked gc).all_objects
          (step_sweep objects marked gc)
  unfolding step_sweep
  step_sweep-Counted c =
      Counted-with _ idle _ _
        (sweep_objects-Counted objects (λ a. not (marked a)) gc.all_objects gc c)

  step_sweep-idle : (step_sweep objects marked gc).phase ≡ idle
  unfolding step_sweep
  step_sweep-idle = refl

  pub elem-step_sweep :
      (a : ℕ)
      → elem a (step_sweep objects marked gc).all_objects ≡ (elem a gc.all_objects && marked a)
  unfolding step_sweep
  elem-step_sweep a =
      ground (arith, elem-sweep_objects objects (λ x. not (marked x)) gc.all_objects gc a)

-- Behind a collection of the heap `h` that starts in `w` and ends in `v`: exactly the objects that some
-- linked context can reach are kept.
pub record IsCollected (other ctx h : ℕ) (w v : World) : Type 0 where
  pub kept :
      (a : ℕ)
      → (elem a (v.heaps h).all_objects ≡ true)
        ↔ ((elem a (w.heaps h).all_objects ≡ true) × ∥ Live w ctx a ∥₁)
  pub counted : Counted other w.objects 0 0 0 (v.heaps h).all_objects (v.heaps h)
  pub over : (v.heaps h).phase ≡ idle

same : (h : ℕ) → (h == h) ≡ true
same h = (==_iff h h).1 refl

-- The phase of a heap matters to none of these.
module _ (h : ℕ) (p : Phase) (w : World) where
  neighbours-set_phase : (c : ℕ) → neighbours (set_phase h p w) c ≡ neighbours w c
  unfolding neighbours
  neighbours-set_phase c = ground arith

  Linked-set_phase : {ctx c : ℕ} → Linked (set_phase h p w) ctx c → Linked w ctx c
  Linked-set_phase self = self
  Linked-set_phase (link {c} {x} l e nz) =
      link (Linked-set_phase l) (rw (neighbours-set_phase c) at e) nz

  Linked-of_set_phase : {ctx c : ℕ} → Linked w ctx c → Linked (set_phase h p w) ctx c
  Linked-of_set_phase self = self
  Linked-of_set_phase (link {c} {x} l e nz) =
      link (Linked-of_set_phase l) (rw (neighbours-set_phase c) e) nz

  context_roots-set_phase :
      (ctx c : ℕ) → context_roots (set_phase h p w) ctx c ≡ context_roots w ctx c
  context_roots-set_phase ctx c = refl

  Live-set_phase : {ctx a : ℕ} → Live (set_phase h p w) ctx a → Live w ctx a
  Live-set_phase (c, l, r) = (c, Linked-set_phase l, r)

  Live-of_set_phase : {ctx a : ℕ} → Live w ctx a → Live (set_phase h p w) ctx a
  Live-of_set_phase (c, l, r) = (c, Linked-of_set_phase l, r)

  Owned-of_set_phase : {ctx : ℕ} (a : ℕ) → Owned w ctx a → Owned (set_phase h p w) ctx a
  Owned-of_set_phase a (c, x, l, g, e) = (c, x, Linked-of_set_phase l, g, ground arith)

  IsOwned-set_phase : {ctx : ℕ} → IsOwned w ctx → IsOwned (set_phase h p w) ctx
  IsOwned-set_phase o = record {
    live = λ a l. Owned-of_set_phase a (o.live a (Live-set_phase l));
    mark_bits = λ a b. Owned-of_set_phase a (o.mark_bits a b);
    gray_bits = λ a b. Owned-of_set_phase a (o.gray_bits a b);
  }

IsCollectible-set_phase :
    {other : ℕ} {universe : List ℕ} {ctx h : ℕ} {w : World} (p : Phase)
    → IsCollectible other universe ctx h w
    → IsCollectible other universe ctx h (set_phase h p w)
IsCollectible-set_phase {other} {universe} {ctx} {h} {w} p c = record {
  context = c.context;
  listed = λ x l. c.listed x (Linked-set_phase h p w l);
  owned = IsOwned-set_phase h p w c.owned;
  counted = rw (same h) (Counted-with _ p _ _ c.counted);
}

module _ (domain_realloc_ok realloc_ok : ℕ → Bool) (other : ℕ) (universe : List ℕ) (ctx h : ℕ) where
  -- The end of a step: an allocation failed and nothing is freed, or the heap is collected.
  abbrev Outcome : World → World → Type 0
  Outcome w v = (IsShort domain_realloc_ok × (v ≡ set_phase h idle w)) ⊎ IsCollected other ctx h w v

  abbrev ended : World → Worklist → ℕ → World
  ended w v others = sweep_heap h (
      set_heap h (record (w.heaps h) { phase = sweep; other_heap_bytes = others })
        (record w { marked = v.marked; gray = v.gray }))

  swept :
      (w : World) (d : Domain) (v : Worklist) (others : ℕ)
      → IsCollectible other universe ctx h w
      → IsDomain w ctx d
      → ((a : ℕ) → (v.marked a ≡ true) ↔ ∥ Reach w.objects (domain_roots w ctx d.list) a ∥₁)
      → IsCollected other ctx h w (ended w v others)
  swept w d v others c domain exact =
      let gc = record (w.heaps h) { phase = sweep; other_heap_bytes = others } in
      let kept = elem-step_sweep w.objects v.marked gc in
      record {
        kept = λ a. (
          λ e.
              let e' = rw (same h) at e in
              (
                ground (arith, kept a),
                ∥∥₁_map ((exact a).0 (ground (arith, kept a))) (Live-of w ctx domain),
              ),
          λ r.
              rw (same h)
                (ground (arith, kept a, r.0, (exact a).1 (∥∥₁_map r.1 (Reach-of w ctx domain)))),
        );
        counted =
            rw (same h)
              (step_sweep-Counted w.objects v.marked gc (Counted-with _ sweep _ others c.counted));
        over = rw (same h) (step_sweep-idle w.objects v.marked gc);
      }

  mark_and_sweep :
      (w : World)
      → IsCollectible other universe ctx h w
      → (v : World) × (after_step_mark h
            (step_mark domain_realloc_ok realloc_ok (length universe) ctx h w)
          ≡ some v)
        × Outcome w v
  unfolding step_mark
  mark_and_sweep w c =
      elim (collect_domain_ends domain_realloc_ok universe w ctx c.listed c.context) [
        | inl e ↦ (
          set_phase h idle w,
          simp e,
          inl (collect_domain-IsShort domain_realloc_ok w (length universe) ctx e, refl),
        )
        | inr (d, e, domain) ↦
            let (v, marks, exact) =
              mark_phase_exact realloc_ok w.objects (domain_objects w d) (domain_roots w ctx d.list)
                w.marked w.gray (IsOwned-IsHeap c.owned domain) in
            let others = other_bytes w h (domain_heaps w d.list []) 0 in
            (ended w v others, simp (e, marks), inr (swept w d v others c domain exact))
      ]

  IsCollected-before :
      (p : Phase) (w v : World)
      → IsCollected other ctx h (set_phase h p w) v
      → IsCollected other ctx h w v
  IsCollected-before p w v c = record {
    kept = λ a.
        let k = rw (same h) at (c.kept a) in
        (
          λ e. ((k.0 e).0, ∥∥₁_map (k.0 e).1 (Live-set_phase h p w)),
          λ r. k.1 (r.0, ∥∥₁_map r.1 (Live-of_set_phase h p w)),
        );
    counted = c.counted;
    over = c.over;
  }

starts_idle :
    (domain_realloc_ok realloc_ok : ℕ → Bool) (contexts ctx h : ℕ) (w : World)
    → (w.heaps h).phase ≡ idle
    → gc_step domain_realloc_ok realloc_ok contexts ctx h w
      ≡ after_step_mark h
          (step_mark domain_realloc_ok realloc_ok contexts ctx h (set_phase h mark w))
unfolding gc_step
starts_idle domain_realloc_ok realloc_ok contexts ctx h w e = rw (e, gc_step)

-- A collection of a heap that is idle always ends. Either one of the reallocations of the list of
-- linked contexts fails, and the heap is as before; or the objects that it keeps are exactly those of
-- its objects that can be reached from the roots of the linked contexts, its counts are theirs, and
-- the owner's budget is charged for exactly their bytes beside what else it was charged for. This
-- holds for a heap whose counts and whose charge to the budget are right, in a world whose reachable,
-- marked and gray objects are in the heaps of the linked contexts.
pub gc_step_collects :
    (domain_realloc_ok realloc_ok : ℕ → Bool) (other : ℕ) (universe : List ℕ) (ctx h : ℕ)
    (w : World)
    → IsCollectible other universe ctx h w
    → (w.heaps h).phase ≡ idle
    → (v : World) × (gc_step domain_realloc_ok realloc_ok (length universe) ctx h w ≡ some v)
      × ((IsShort domain_realloc_ok × (v ≡ set_phase h idle (set_phase h mark w)))
          ⊎ IsCollected other ctx h w v)
unfolding gc_step
gc_step_collects domain_realloc_ok realloc_ok other universe ctx h w c e =
    let (v, ends, outcome) =
      mark_and_sweep domain_realloc_ok realloc_ok other universe ctx h (set_phase h mark w)
        (IsCollectible-set_phase mark c) in
    (
      v,
      starts_idle domain_realloc_ok realloc_ok (length universe) ctx h w e ∙ ends,
      elim outcome [
        | inl same_heap ↦ inl same_heap
        | inr done ↦
            inr (IsCollected-before domain_realloc_ok realloc_ok other universe ctx h mark w v done)
      ],
    )
