-- ===== src/Dependents/Poison.antt =====
-- Poisoning the link domain of a context that is freed (`wah_poison_link_domain`).
pub mod Domain
use wah.Base.{
  ℕ, zero, suc, ◌+◌, Bool, true, false, ◌||◌, ◌==◌, if◌then◌else◌, List, [], ◌∷◌, ◌++◌, Option,
  none, some, not, ◌&&◌,
}
use wah.Gc.{update}
use wah.Gc.Domain.{World}

-- The contexts that one context leads to: those that it links, and its dependents.
abbrev pub links : World → ℕ → List ℕ
links w c = (w.contexts c).linked ++ (w.contexts c).dependents

-- `wah_poison_context` for each context of a list, by whether contexts are poisoned. The recursion is as
-- deep as there are contexts that are not poisoned.
unfoldable pub poison_contexts : World → ℕ → List ℕ → (ℕ → Bool) → ℕ → Bool
poison_contexts w fuel [] poisoned = poisoned
poison_contexts w zero (c ∷ cs) poisoned = poisoned
poison_contexts w (suc fuel) (c ∷ cs) poisoned =
    let inner = poison_contexts w fuel (links w c) (update poisoned c true) in
    poison_contexts w (suc fuel) cs (if c == 0 || poisoned c then poisoned else inner)

-- `wah_poison_link_domain`, with fuel for all contexts.
unfoldable pub poison_link_domain : World → ℕ → ℕ → (ℕ → Bool) → ℕ → Bool
unfolding poison_contexts
poison_link_domain w contexts ctx poisoned = poison_contexts w contexts (links w ctx) poisoned

abbrev pub is_empty : List ℕ → Bool
is_empty [] = true
is_empty (_ ∷ _) = false

abbrev pub has_objects : World → Option ℕ → Bool
has_objects w none = false
has_objects w (some h) = not (is_empty (w.heaps h).all_objects)

-- Whether other contexts may have references into this one.
abbrev pub shares : World → ℕ → Bool
shares w ctx =
    (w.contexts ctx).is_instantiated
    || (w.contexts ctx).may_share_refs
    || has_objects w (w.contexts ctx).gc

-- The part of `wah_free_exec_context` that poisons other contexts.
unfoldable pub free_context : World → ℕ → ℕ → (ℕ → Bool) → ℕ → Bool
unfolding poison_link_domain
free_context w contexts ctx poisoned =
    if not (poisoned ctx) && shares w ctx
    then poison_link_domain w contexts ctx (update poisoned ctx true)
    else poisoned
