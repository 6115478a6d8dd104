-- ===== src/Gc/Domain.antt =====
-- The contexts that are collected together, and a whole step of the collector (`wah_gc_step`).
-- Contexts and heaps are known by numbers, and a null pointer to a context is 0.
pub mod Closure
pub mod Failure
pub mod Live
pub mod Collection
use wah.Base.{
  ℕ, zero, suc, ◌+◌, ◌*◌, Bool, true, false, not, ◌&&◌, ◌||◌, leb, ◌==◌, if◌then◌else◌, List, [],
  ◌∷◌, ◌++◌, Option, none, some, length, get_elem?, u32, u64,
}
use wah.Gc.{Objects, Worklist, mark_phase}
use wah.Gc.Roots.{RootContext, enumerate_roots, pinned_roots}
use wah.Gc.Marks.{elem}
use wah.Gc.Heap.{GcState, Phase, idle, mark, sweep, step_sweep}

-- The part of `wah_exec_context_t` that the collector reads; what it enumerates roots from is `state`.
pub record Context : Type 0 where
  pub gc : Option ℕ
  pub linked : List ℕ
  pub dependents : List ℕ
  pub is_instantiated : Bool
  pub may_share_refs : Bool
  pub state : RootContext

pub record World : Type 0 where
  pub contexts : ℕ → Context
  pub heaps : ℕ → GcState
  pub objects : Objects
  pub marked : ℕ → Bool
  pub gray : ℕ → Bool

-- `wah_gc_domain_t`, with the number of reallocations so far
pub record Domain : Type 0 where
  pub list : List ℕ
  pub cap : ℕ
  pub tries : ℕ

abbrev pub gc_inline_domain_size : ℕ
gc_inline_domain_size = 8

abbrev appended : ℕ → Domain → Domain
appended c d = record d { list = d.list ++ c ∷ [] }

abbrev heap_dependents : World → Option ℕ → List ℕ
heap_dependents w none = []
heap_dependents w (some h) = (w.heaps h).gc_dependents

-- The contexts that one context leads to, in the order of the three loops.
unfoldable pub neighbours : World → ℕ → List ℕ
neighbours w c =
    (w.contexts c).linked ++ ((w.contexts c).dependents ++ heap_dependents w (w.contexts c).gc)

-- The outcome of the search: `failed` is an error of the allocator.
pub data Search : Type 0 where
  out_of_fuel failed : Search
  collected : Domain → Search

module _ (realloc_ok : ℕ → Bool) where
  -- `wah_gc_domain_add`, where `none` is an error of the allocator
  unfoldable pub domain_add : ℕ → Domain → Option Domain
  domain_add c d =
      if c == 0 || elem c d.list
      then some d
      else if leb d.cap (length d.list)
      then (if realloc_ok d.tries
          then some (appended c (record d { cap = u32 (d.cap * 2); tries = d.tries + 1 }))
          else none)
      else some (appended c d)

  unfoldable pub domain_add_all : List ℕ → Domain → Option Domain
  domain_add_all [] d = some d
  domain_add_all (c ∷ cs) d = elim (domain_add c d) [ none ↦ none | some d ↦ domain_add_all cs d ]

  module _ (w : World) where
    -- The loop over the contexts found so far, on fuel.
    unfoldable pub domain_loop : ℕ → ℕ → Domain → Search
    domain_loop zero i d = out_of_fuel
    domain_loop (suc fuel) i d = elim (get_elem? d.list i) [
      | none ↦ collected d
      | some c ↦ elim (domain_add_all (neighbours w c) d) [
        | none ↦ failed
        | some d ↦ domain_loop fuel (i + 1) d
      ]
    ]

    abbrev no_domain : Domain
    no_domain = record { list = []; cap = gc_inline_domain_size; tries = 0 }

    abbrev collect_from : ℕ → Option Domain → Search
    collect_from fuel none = failed
    collect_from fuel (some d) = domain_loop fuel 0 d

    -- `wah_gc_collect_domain`, with fuel for one round more than there are contexts.
    unfoldable pub collect_domain : ℕ → ℕ → Search
    collect_domain contexts ctx = collect_from (contexts + 1) (domain_add ctx no_domain)

-- The heaps of the domain, each at the first context that has it (`wah_gc_domain_first_heap`).
abbrev pub add_heap : List ℕ → Option ℕ → List ℕ
add_heap hs none = hs
add_heap hs (some h) = if elem h hs then hs else hs ++ h ∷ []

unfoldable pub domain_heaps : World → List ℕ → List ℕ → List ℕ
domain_heaps w [] hs = hs
domain_heaps w (c ∷ cs) hs = domain_heaps w cs (add_heap hs (w.contexts c).gc)

unfoldable pub heap_objects : World → List ℕ → List ℕ
heap_objects w [] = []
heap_objects w (h ∷ hs) = (w.heaps h).all_objects ++ heap_objects w hs

-- All objects of the domain, heap by heap.
abbrev pub domain_objects : World → Domain → List ℕ
domain_objects w d = heap_objects w (domain_heaps w d.list [])

-- The roots of a context: contexts whose instantiation has not shared anything have pins only.
abbrev pub context_roots : World → ℕ → ℕ → List ℕ
context_roots w ctx c =
    if not (c == ctx) && not (w.contexts c).is_instantiated && not (w.contexts c).may_share_refs
    then pinned_roots (w.contexts c).state.pins
    else enumerate_roots (w.contexts c).state

unfoldable pub domain_roots : World → ℕ → List ℕ → List ℕ
domain_roots w ctx [] = []
domain_roots w ctx (c ∷ cs) = context_roots w ctx c ++ domain_roots w ctx cs

-- The bytes in the heaps of the domain but `own`.
unfoldable pub other_bytes : World → ℕ → List ℕ → ℕ → ℕ
other_bytes w own [] sum = sum
other_bytes w own (h ∷ hs) sum =
    other_bytes w own hs (if h == own then sum else u64 (sum + (w.heaps h).allocated_bytes))

abbrev pub set_heap : ℕ → GcState → World → World
set_heap h g w = record w { heaps = λ x. if x == h then g else w.heaps x }

abbrev pub set_phase : ℕ → Phase → World → World
set_phase h p w = set_heap h (record (w.heaps h) { phase = p }) w

abbrev pub sweep_heap : ℕ → World → World
sweep_heap h w = set_heap h (step_sweep w.objects w.marked (w.heaps h)) w

abbrev pub after_step_mark : ℕ → Option (World × Bool) → Option World
after_step_mark h none = none
after_step_mark h (some (w, done)) = some (if done then sweep_heap h w else w)

module _ (domain_realloc_ok realloc_ok : ℕ → Bool) (contexts ctx h : ℕ) where
  abbrev after_marks : World → Domain → Option Worklist → Option (World × Bool)
  after_marks w d none = none
  after_marks w d (some v) = some (
    set_heap h
        (record (w.heaps h) {
          phase = sweep;
          other_heap_bytes = other_bytes w h (domain_heaps w d.list []) 0;
        })
        (record w { marked = v.marked; gray = v.gray }),
    true,
  )

  abbrev mark_domain : World → Search → Option (World × Bool)
  mark_domain w out_of_fuel = none
  mark_domain w failed = some (set_phase h idle w, false)
  mark_domain w (collected d) = after_marks w d (
      mark_phase realloc_ok w.objects (domain_objects w d) (domain_roots w ctx d.list) w.marked
        w.gray)

  -- `wah_gc_step_mark` for the context `ctx` with heap `h`; `none` is out of fuel.
  unfoldable pub step_mark : World → Option (World × Bool)
  step_mark w = mark_domain w (collect_domain domain_realloc_ok w contexts ctx)

  -- `wah_gc_step`
  unfoldable pub gc_step : World → Option World
  gc_step w = elim (w.heaps h).phase [
    | idle ↦ after_step_mark h (step_mark (set_phase h mark w))
    | mark ↦ after_step_mark h (step_mark w)
    | sweep ↦ some (sweep_heap h w)
  ]
