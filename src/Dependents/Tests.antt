-- ===== src/Dependents/Tests.antt =====
-- A chain of contexts: 1 and 3 link 2.
use wah.Base.{ℕ, true, false, ◌==◌, if◌then◌else◌, ◌≡◌, ◌⊎◌, ◌↔◌, refl, List, [], ◌∷◌, none, arith}
use wah.Base.Int.{negsuc}
use wah.Lifecycle.State.{no_lifecycle}
use wah.Gc.{Object}
use wah.Gc.Marks.{elem}
use wah.Gc.Roots.{RootContext}
use wah.Gc.Heap.{gc_start}
use wah.Gc.Domain.{World, Context}
use wah.Dependents.Poison.{links, poison_contexts, poison_link_domain, free_context}
use wah.Dependents.Poison.Domain.{Joined, free_context-poisons}

abbrev no_roots : RootContext
no_roots = record {
  lifecycle = no_lifecycle;
  sp = 0;
  frames = [];
  host_call = none;
  globals = 0;
  module_globals = [];
  linked = [];
  pins = none;
  tables = [];
  pending_exception = 0;
  read = λ _. 0;
}

abbrev context : List ℕ → List ℕ → Context
context linked dependents = record {
  gc = none;
  linked = linked;
  dependents = dependents;
  is_instantiated = true;
  may_share_refs = true;
  state = no_roots;
}

abbrev empty_object : Object
empty_object = record {
  repr_id = negsuc 65;
  size_bytes = 24;
  repr_infos = [];
  word = λ _. 0;
  len = 0;
  values = [];
}

abbrev chain : World
chain = record {
  contexts = λ c.
      if c == 1
      then context (2 ∷ 0 ∷ []) []
      else if c == 2
      then context [] (1 ∷ 3 ∷ [])
      else context (2 ∷ []) [];
  heaps = λ _. gc_start (record { max_memory_bytes = 1000; memory_bytes_committed = 0 });
  objects = λ _. empty_object;
  marked = λ _. false;
  gray = λ _. false;
}

chain-within :
    (a x : ℕ)
    → elem a (1 ∷ 2 ∷ 3 ∷ []) ≡ true
    → elem x (links chain a) ≡ true
    → (x == 0) ≡ false
    → elem x (1 ∷ 2 ∷ 3 ∷ []) ≡ true
unfolding elem
chain-within a x h e nz = ground arith

free_context-poisons_example :
    (free_context chain 3 1 (λ _. false) 3 ≡ true) ↔ ((false ≡ true) ⊎ ∥ Joined chain 1 3 ∥₁)
unfolding elem
free_context-poisons_example =
    free_context-poisons chain (1 ∷ 2 ∷ 3 ∷ []) chain-within 1 (λ _. false) refl refl
      (λ a x h e nz. h) refl refl 3

-- The third context is poisoned when the first one is freed.
third_poisoned : free_context chain 3 1 (λ _. false) 3 ≡ true
unfolding free_context poison_link_domain poison_contexts
third_poisoned = refl
