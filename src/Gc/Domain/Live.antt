-- ===== src/Gc/Domain/Live.antt =====
-- Roots and heaps of a link domain, one context at a time.
use wah.Base.{
  ℕ, true, ◌||◌, ◌==◌, ◌≡◌, inl, inr, refl, List, [], ◌∷◌, ◌++◌, Option, none, some, arith,
  Bool-cases, ==_iff,
}
use wah.Gc.Marks.{elem, leads_to}
use wah.Gc.Invariant.{Reach, root, follow}
use wah.Gc.Marking.{IsHeap}
use wah.Gc.Domain.{
  World, Domain, add_heap, domain_heaps, heap_objects, domain_objects, domain_roots, context_roots,
}
use wah.Gc.Domain.Closure.{Linked, IsDomain}

-- An object that some linked context can still reach.
abbrev pub Live : World → ℕ → ℕ → Type 0
Live w ctx a = (c : ℕ) × Linked w ctx c × Reach w.objects (context_roots w ctx c) a

-- An object in the heap of some linked context.
abbrev pub Owned : World → ℕ → ℕ → Type 0
Owned w ctx a =
    (c : ℕ) × (h : ℕ) × Linked w ctx c
    × ((w.contexts c).gc ≡ some h)
    × (elem a (w.heaps h).all_objects ≡ true)

elem-append : (xs ys : List ℕ) (a : ℕ) → elem a (xs ++ ys) ≡ (elem a xs || elem a ys)
unfolding elem
elem-append [] ys a = refl
elem-append (x ∷ xs) ys a = ground (arith, elem-append xs ys a)

leads_to-append :
    (xs ys : List ℕ) (b : ℕ) → leads_to (xs ++ ys) b ≡ (leads_to xs b || leads_to ys b)
unfolding leads_to
leads_to-append [] ys b = refl
leads_to-append (x ∷ xs) ys b = ground (arith, leads_to-append xs ys b)

elem-add_heap :
    (hs : List ℕ) (g : Option ℕ) (h : ℕ) → elem h hs ≡ true → elem h (add_heap hs g) ≡ true
unfolding elem
elem-add_heap hs none h e = e
elem-add_heap hs (some k) h e = ground (arith, elem-append hs (k ∷ []) h)

elem-add_heap_self : (hs : List ℕ) (h : ℕ) → elem h (add_heap hs (some h)) ≡ true
unfolding elem
elem-add_heap_self hs h = ground (arith, elem-append hs (h ∷ []) h)

module _ (w : World) (ctx : ℕ) where
  roots_of :
      (cs : List ℕ) (b : ℕ)
      → leads_to (domain_roots w ctx cs) b ≡ true
      → (c : ℕ) × (elem c cs ≡ true) × (leads_to (context_roots w ctx c) b ≡ true)
  unfolding domain_roots leads_to elem
  roots_of [] b h = cc
  roots_of (c ∷ cs) b h = elim (Bool-cases (leads_to (context_roots w ctx c) b)) [
    | inl here ↦ (c, ground (arith, ==_iff c c), here)
    | inr there ↦
        let (c', e, l) =
          roots_of cs b
            (ground (arith, leads_to-append (context_roots w ctx c) (domain_roots w ctx cs) b)) in
        (c', ground arith, l)
  ]

  roots_in :
      (cs : List ℕ) (c b : ℕ)
      → elem c cs ≡ true
      → leads_to (context_roots w ctx c) b ≡ true
      → leads_to (domain_roots w ctx cs) b ≡ true
  unfolding domain_roots elem
  roots_in [] c b h l = cc
  roots_in (x ∷ cs) c b h l =
      rw (leads_to-append (context_roots w ctx x) (domain_roots w ctx cs) b)
        (elim (Bool-cases (c == x)) [
          | inl e ↦
              let same = (==_iff c x).0 e in
              let here : leads_to (context_roots w ctx x) b ≡ true = rw same at l in ground arith
          | inr n ↦ ground (arith, roots_in cs c b)
        ])

  heaps_stay : (cs hs : List ℕ) (h : ℕ) → elem h hs ≡ true → elem h (domain_heaps w cs hs) ≡ true
  unfolding domain_heaps
  heaps_stay [] hs h e = e
  heaps_stay (c ∷ cs) hs h e =
      heaps_stay cs (add_heap hs (w.contexts c).gc) h (elem-add_heap hs (w.contexts c).gc h e)

  heaps_in :
      (cs hs : List ℕ) (c h : ℕ)
      → elem c cs ≡ true
      → (w.contexts c).gc ≡ some h
      → elem h (domain_heaps w cs hs) ≡ true
  unfolding domain_heaps elem
  heaps_in [] hs c h e g = cc
  heaps_in (x ∷ cs) hs c h e g = elim (Bool-cases (c == x)) [
    | inl s ↦
        let same = (==_iff c x).0 s in
        let here : (w.contexts x).gc ≡ some h = rw same at g in
        heaps_stay cs (add_heap hs (w.contexts x).gc) h (rw here (elem-add_heap_self hs h))
    | inr n ↦ heaps_in cs (add_heap hs (w.contexts x).gc) c h (ground arith) g
  ]

  objects_in :
      (hs : List ℕ) (h a : ℕ)
      → elem h hs ≡ true
      → elem a (w.heaps h).all_objects ≡ true
      → elem a (heap_objects w hs) ≡ true
  unfolding heap_objects elem
  objects_in [] h a e m = cc
  objects_in (x ∷ hs) h a e m = elim (Bool-cases (h == x)) [
    | inl s ↦
        let same = (==_iff h x).0 s in
        let here : elem a (w.heaps x).all_objects ≡ true = rw same at m in
        ground (arith, elem-append (w.heaps x).all_objects (heap_objects w hs) a)
    | inr n ↦
        ground (arith, elem-append (w.heaps x).all_objects (heap_objects w hs) a, objects_in hs h a)
  ]

  pub Live-of :
      {d : Domain}
      → IsDomain w ctx d
      → {a : ℕ} → Reach w.objects (domain_roots w ctx d.list) a
      → Live w ctx a
  Live-of {d} i (root {b} h) = let (c, e, l) = roots_of d.list b h in (c, i.sound c e, root l)
  Live-of i (follow r h) = let (c, l, s) = Live-of i r in (c, l, follow s h)

  Reach-within :
      (cs : List ℕ) (c : ℕ)
      → elem c cs ≡ true
      → {a : ℕ} → Reach w.objects (context_roots w ctx c) a
      → Reach w.objects (domain_roots w ctx cs) a
  Reach-within cs c e (root {b} h) = root (roots_in cs c b e h)
  Reach-within cs c e (follow r h) = follow (Reach-within cs c e r) h

  pub Reach-of :
      {d : Domain}
      → IsDomain w ctx d
      → {a : ℕ} → Live w ctx a
      → Reach w.objects (domain_roots w ctx d.list) a
  Reach-of {d} i (c, l, r) = Reach-within d.list c (i.full c l) r

  pub Owned-listed :
      {d : Domain} → IsDomain w ctx d → (a : ℕ) → Owned w ctx a → elem a (domain_objects w d) ≡ true
  Owned-listed {d} i a (c, h, l, g, e) =
      objects_in (domain_heaps w d.list []) h a (heaps_in d.list [] c h (i.full c l) g) e

-- What holds of the heaps of a link domain between collections: what a context can reach is in the heap
-- of some linked context, and only objects have tag bits.
pub record IsOwned (w : World) (ctx : ℕ) : Type 0 where
  pub live : (a : ℕ) → Live w ctx a → Owned w ctx a
  pub mark_bits : (a : ℕ) → w.marked a ≡ true → Owned w ctx a
  pub gray_bits : (a : ℕ) → w.gray a ≡ true → Owned w ctx a

pub IsOwned-IsHeap :
    {w : World} {ctx : ℕ} {d : Domain}
    → IsOwned w ctx
    → IsDomain w ctx d
    → IsHeap w.objects (domain_objects w d) (domain_roots w ctx d.list) w.marked w.gray
IsOwned-IsHeap {w} {ctx} o i = record {
  listed = λ a r. Owned-listed w ctx i a (o.live a (Live-of w ctx i r));
  mark_bits = λ a h. Owned-listed w ctx i a (o.mark_bits a h);
  gray_bits = λ a h. Owned-listed w ctx i a (o.gray_bits a h);
}
