-- ===== src/Dependents/Poison/Domain.antt =====
-- The contexts that `wah_poison_link_domain` gets to.
use wah.Base.{
  ℕ, zero, suc, ◌≤◌, ◌≡◌, ◌⊎◌, ◌↔◌, inl, inr, Bool, true, false, ◌||◌, ◌==◌, List, [], ◌∷◌, length,
  arith, Bool-cases, ==_iff,
}
use mathlib.Core.Logic.{∥∥₁_elim}
use mathlib.Core.Bool.{So-prop}
use wah.Gc.{update}
use wah.Gc.Marks.{elem, unmarked}
use wah.Gc.Costs.{unmarked-lt}
use wah.Gc.Domain.{World}
use wah.Gc.Loop.{unmarked-le-length}
use wah.Dependents.Poison.{links, poison_contexts, poison_link_domain, free_context, shares}

unmarked_mono :
    (all : List ℕ) (p q : ℕ → Bool)
    → ((a : ℕ) → p a ≡ true → q a ≡ true)
    → unmarked all q ≤ unmarked all p
unfolding unmarked
unmarked_mono [] p q h = omega arith
unmarked_mono (x ∷ all) p q h = ground (arith, unmarked_mono all p q h, h x)

unmarked_none :
    (all : List ℕ) (p : ℕ → Bool) (a : ℕ) → unmarked all p ≤ 0 → elem a all ≡ true → p a ≡ true
unfolding unmarked elem
unmarked_none [] p a h e = cc
unmarked_none (x ∷ all) p a h e = elim (Bool-cases (a == x)) [
  | inl s ↦ let same = (==_iff a x).0 s in ground arith
  | inr n ↦ ground (arith, unmarked_none all p a)
]

-- Contexts that links and dependents lead to.
pub data Joined (w : World) : ℕ → ℕ → Type 0 where
  self : {c : ℕ} → Joined w c c
  via : {c x a : ℕ} → elem x (links w c) ≡ true → (x == 0) ≡ false → Joined w x a → Joined w c a

-- A poisoned context leads to poisoned contexts only.
abbrev pub IsClosed : World → (ℕ → Bool) → Type 0
IsClosed w p = (a x : ℕ) → p a ≡ true → elem x (links w a) ≡ true → (x == 0) ≡ false → p x ≡ true

Joined-poisoned :
    (w : World) (q : ℕ → Bool) {c a : ℕ} → IsClosed w q → Joined w c a → q c ≡ true → q a ≡ true
Joined-poisoned w q h self y = y
Joined-poisoned w q h (via {c} {x} {a} e nz j) y = Joined-poisoned w q h j (h c x y e nz)

module _ (w : World) (universe : List ℕ)
    (within : (a x : ℕ)
      → elem a universe ≡ true
      → elem x (links w a) ≡ true
      → (x == 0) ≡ false
      → elem x universe ≡ true) where
  -- What poisoning the contexts of a list does.
  pub record Poisons (cs : List ℕ) (p q : ℕ → Bool) : Type 0 where
    pub grows : (a : ℕ) → p a ≡ true → q a ≡ true
    pub listed : (c : ℕ) → elem c cs ≡ true → (c == 0) ≡ false → q c ≡ true
    pub closed :
        (a x : ℕ)
        → q a ≡ true
        → p a ≡ false
        → elem x (links w a) ≡ true
        → (x == 0) ≡ false
        → q x ≡ true
    pub only :
        (a : ℕ)
        → q a ≡ true
        → (p a ≡ true) ⊎ ((c : ℕ) × (elem c cs ≡ true) × ((c == 0) ≡ false) × Joined w c a)

  abbrev InUniverse : List ℕ → Type 0
  InUniverse cs = (c : ℕ) → elem c cs ≡ true → (c == 0) ≡ false → elem c universe ≡ true

  Poisons-next :
      (c : ℕ) (cs : List ℕ) (p m q : ℕ → Bool)
      → Poisons (c ∷ []) p m
      → Poisons cs m q
      → Poisons (c ∷ cs) p q
  unfolding elem
  Poisons-next c cs p m q first rest = record {
    grows = λ a h. rest.grows a (first.grows a h);
    listed = λ a e nz. elim (Bool-cases (a == c)) [
      | inl s ↦ rest.grows a (first.listed a (ground arith) nz)
      | inr n ↦ rest.listed a (ground arith) nz
    ];
    closed = λ a x h n e nz. elim (Bool-cases (m a)) [
      | inl y ↦ rest.grows x (first.closed a x y n e nz)
      | inr z ↦ rest.closed a x h z e nz
    ];
    only = λ a y. elim (rest.only a y) [
      | inr (x, e, nz, j) ↦ inr (x, ground arith, nz, j)
      | inl m_a ↦ elim (first.only a m_a) [
        | inl old ↦ inl old
        | inr (x, e, nz, j) ↦ inr (x, ground arith, nz, j)
      ]
    ];
  }

  Poisons-here :
      (c : ℕ) (p q : ℕ → Bool)
      → (c == 0) ≡ false
      → Poisons (links w c) (update p c true) q
      → Poisons (c ∷ []) p q
  unfolding elem
  Poisons-here c p q nonzero h = record {
    grows = λ a y. h.grows a (ground arith);
    listed = λ a e nz. h.grows a (ground arith);
    closed = λ a x y n e nz. elim (Bool-cases (a == c)) [
      | inl s ↦ let same = (==_iff a c).0 s in h.listed x (ground arith) nz
      | inr other ↦ h.closed a x y (ground arith) e nz
    ];
    only = λ a y. elim (h.only a y) [
      | inr (x, e, nz, j) ↦ inr (c, ground (arith, ==_iff c c), nonzero, via e nz j)
      | inl before ↦ elim (Bool-cases (a == c)) [
        | inl s ↦
            let same = (==_iff a c).0 s in
            inr (c, ground (arith, ==_iff c c), nonzero, rw same self)
        | inr other ↦ inl (ground arith)
      ]
    ];
  }

  Poisons-same : (c : ℕ) (p : ℕ → Bool) → (c == 0 || p c) ≡ true → Poisons (c ∷ []) p p
  unfolding elem
  Poisons-same c p h = record {
    grows = λ a y. y;
    listed = λ a e nz. elim (Bool-cases (a == c)) [
      | inl s ↦ let same = (==_iff a c).0 s in ground arith
      | inr n ↦ cc
    ];
    closed = λ a x y n e nz. cc;
    only = λ a y. inl y;
  }

  Poisons-none : (p : ℕ → Bool) → Poisons [] p p
  unfolding elem
  Poisons-none p = record {
    grows = λ a y. y;
    listed = λ c e nz. cc;
    closed = λ a x y n e nz. cc;
    only = λ a y. inl y;
  }

  poison_contexts-Poisons :
      (fuel : ℕ) (cs : List ℕ) (p : ℕ → Bool)
      → InUniverse cs
      → unmarked universe p ≤ fuel
      → Poisons cs p (poison_contexts w fuel cs p)
  unfolding poison_contexts elem
  poison_contexts-Poisons zero [] p u h = Poisons-none p
  poison_contexts-Poisons zero (c ∷ cs) p u h = record {
    grows = λ a y. y;
    listed = λ a e nz. unmarked_none universe p a h (u a e nz);
    closed = λ a x y n e nz. cc;
    only = λ a y. inl y;
  }
  poison_contexts-Poisons (suc fuel) [] p u h = Poisons-none p
  poison_contexts-Poisons (suc fuel) (c ∷ cs) p u h = elim (Bool-cases (c == 0 || p c)) [
    | inl done ↦
        rw (done, poison_contexts)
          (Poisons-next c cs p p _ (Poisons-same c p done)
            (poison_contexts-Poisons (suc fuel) cs p (λ a e nz. u a (ground arith) nz) h))
    | inr new ↦
        let m = poison_contexts w fuel (links w c) (update p c true) in
        let nz : (c == 0) ≡ false = ground arith in
        let in_universe : elem c universe ≡ true = u c (ground (arith, ==_iff c c)) nz in
        let less = unmarked-lt universe p c in_universe (ground arith) in
        let first : Poisons (c ∷ []) p m = Poisons-here c p m nz (
          poison_contexts-Poisons fuel (links w c) (update p c true)
            (λ x e x_nz. within c x in_universe e x_nz) (omega (arith, less, h))) in
        let fewer = unmarked_mono universe p m first.grows in
        rw (new, poison_contexts)
          (Poisons-next c cs p m _ first (
            poison_contexts-Poisons (suc fuel) cs m (λ a e a_nz. u a (ground arith) a_nz)
              (omega (arith, fewer, h))))
  ]

  free_context-Poisons :
      (ctx : ℕ) (p : ℕ → Bool)
      → elem ctx universe ≡ true
      → (ctx == 0) ≡ false
      → p ctx ≡ false
      → shares w ctx ≡ true
      → Poisons (ctx ∷ []) p (free_context w (length universe) ctx p)
  unfolding free_context poison_link_domain
  free_context-Poisons ctx p e nz fresh s =
      rw (fresh, s)
        (Poisons-here ctx p _ nz (
          poison_contexts-Poisons (length universe) (links w ctx) (update p ctx true)
            (λ x e_x x_nz. within ctx x e e_x x_nz)
            (unmarked-le-length universe (update p ctx true))))

  -- When a context is freed that others may have references into, exactly the contexts that were
  -- poisoned before and those that links and dependents lead to from it are poisoned, if poisoned
  -- contexts led to poisoned contexts only.
  pub free_context-poisons :
      (ctx : ℕ) (p : ℕ → Bool)
      → elem ctx universe ≡ true
      → (ctx == 0) ≡ false
      → IsClosed w p
      → p ctx ≡ false
      → shares w ctx ≡ true
      → (a : ℕ)
      → (free_context w (length universe) ctx p a ≡ true) ↔ ((p a ≡ true) ⊎ ∥ Joined w ctx a ∥₁)
  unfolding elem
  free_context-poisons ctx p e nz before fresh s a =
      let q = free_context w (length universe) ctx p in
      let h = free_context-Poisons ctx p e nz fresh s in
      let after : IsClosed w q = λ b x y e_x x_nz. elim (Bool-cases (p b)) [
        | inl old ↦ h.grows x (before b x old e_x x_nz)
        | inr new ↦ h.closed b x y new e_x x_nz
      ] in
      let q_ctx : q ctx ≡ true = h.listed ctx (ground (arith, ==_iff ctx ctx)) nz in
      (
        λ y. elim (h.only a y) [
          | inl old ↦ inl old
          | inr (c, e_c, c_nz, j) ↦
              let same : c ≡ ctx = ground (arith, ==_iff c ctx) in inr ∣ rw same at j ∣₁
        ],
        λ r. elim r [
          | inl old ↦ h.grows a old
          | inr j ↦ ∥∥₁_elim j (So-prop _) (λ k. Joined-poisoned w q after k q_ctx)
        ],
      )
