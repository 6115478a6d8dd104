-- ===== src/Gc/Domain/Failure.antt =====
-- The failures of the search for the contexts of a link domain (`wah_gc_collect_domain`).
use wah.Base.{ℕ, zero, suc, ◌+◌, ◌≡◌, false, List, [], ◌∷◌, none, arith, get_elem?, inl, inr, Bool}
use wah.Base.{Option-cases}
use wah.Gc.Domain.{
  Domain, World, failed, domain_add, domain_add_all, domain_loop, collect_domain, no_domain,
  neighbours,
}

module _ (realloc_ok : ℕ → Bool) where
  -- One of the reallocations fails.
  abbrev pub IsShort : Type 0
  IsShort = (n : ℕ) × (realloc_ok n ≡ false)

  domain_add-IsShort : (c : ℕ) (d : Domain) → domain_add realloc_ok c d ≡ none → IsShort
  unfolding domain_add
  domain_add-IsShort c d h = (d.tries, ground arith)

  domain_add_all-IsShort :
      (cs : List ℕ) (d : Domain) → domain_add_all realloc_ok cs d ≡ none → IsShort
  unfolding domain_add_all
  domain_add_all-IsShort [] d h = cc
  domain_add_all-IsShort (c ∷ cs) d h = elim (Option-cases (domain_add realloc_ok c d)) [
    | inl e ↦ domain_add-IsShort c d e
    | inr (m, e) ↦ domain_add_all-IsShort cs m (rw (e, domain_add_all) at h)
  ]

  domain_loop-IsShort :
      (w : World) (fuel i : ℕ) (d : Domain) → domain_loop realloc_ok w fuel i d ≡ failed → IsShort
  unfolding domain_loop
  domain_loop-IsShort w zero i d h = cc
  domain_loop-IsShort w (suc fuel) i d h = elim (Option-cases (get_elem? d.list i)) [
    | inl e ↦ cc (rw (e, domain_loop) at h)
    | inr (c, e) ↦ elim (Option-cases (domain_add_all realloc_ok (neighbours w c) d)) [
      | inl none_added ↦ domain_add_all-IsShort (neighbours w c) d none_added
      | inr (m, added) ↦ domain_loop-IsShort w fuel (i + 1) m (rw (e, added, domain_loop) at h)
    ]
  ]

  pub collect_domain-IsShort :
      (w : World) (contexts ctx : ℕ) → collect_domain realloc_ok w contexts ctx ≡ failed → IsShort
  unfolding collect_domain
  collect_domain-IsShort w contexts ctx h =
      elim (Option-cases (domain_add realloc_ok ctx (no_domain realloc_ok w))) [
        | inl e ↦ domain_add-IsShort ctx (no_domain realloc_ok w) e
        | inr (m, e) ↦ domain_loop-IsShort w (contexts + 1) 0 m (rw (e, collect_domain) at h)
      ]
