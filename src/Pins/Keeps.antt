-- ===== src/Pins/Keeps.antt =====
-- Pinning a value (`wah_pin`), and the table behind it.
use wah.Base.{
  ℕ, ◌+◌, ◌-◌, ◌<◌, ◌≡◌, ◌≢◌, ◌==◌, Bool, ltb, List, [], ◌∷◌, ◌++◌, length, get_or, set, length-set,
  length-append, ap, refl, inl, inr, arith, Bool-cases, ==_iff,
}
use wah.Status.{Result, ok, err}
use wah.Arrays.{grow_array}
use wah.Types.{WahType}
use wah.Gc.Marks.{elem}
use wah.Pins.{PinTable, PinSlot, no_slot, pin_into, new_slot, reuse_slot, fill}
use wah.Pins.Table.{Chain, IsTable, Chain-set, Chain-append, get_or-set, get_or-append}
use wah.Pins.Slots.{set-HasSlot, append-HasSlot, IsPinned, taken-IsPinned}

-- What a pin leads to: an error changes nothing, and otherwise the reference, which was not valid
-- before, names the value with its type, and all other references are as before.
abbrev pub PinOutcome : PinTable → ℕ → ℕ → WahType → Result ℕ × PinTable → Type 0
PinOutcome t value pin_module pin_type (err e, t') = t' ≡ t
PinOutcome t value pin_module pin_type (ok ref, t') =
    IsTable t'
    × (i : ℕ) × (v : PinSlot) × IsPinned t ref i v t'
    × (v.value ≡ value)
    × (v.pin_module ≡ pin_module)
    × (v.pin_type ≡ pin_type)

module _ (value pin_module : ℕ) (pin_type : WahType) (nz : value ≢ 0) (t : PinTable) where
  appended-IsTable :
      (cap : ℕ)
      → IsTable t
      → length t.slots < 4294967296
      → IsTable (record t {
        slots = t.slots ++ fill value pin_module pin_type no_slot ∷ [];
        slots_cap = cap;
      })
  appended-IsTable cap h lt =
      let v = fill value pin_module pin_type no_slot in
      record {
        free = h.free;
        chain = Chain-append t.slots v t.free_head h.free h.chain;
        all_free = λ j l z. ground (
          arith,
          get_or-append t.slots v no_slot j,
          h.all_free j,
          length-append t.slots (v ∷ []),
          nz,
        );
        generations = λ j. ground (arith, get_or-append t.slots v no_slot j, h.generations j);
        count = omega (arith, length-append t.slots (v ∷ []));
      }

  reused-IsTable :
      (h : IsTable t) (i : ℕ) (free : List ℕ)
      → h.free ≡ i ∷ free
      → Chain t.slots t.free_head (i ∷ free)
      → IsTable (record t {
        slots = set t.slots i (fill value pin_module pin_type (get_or t.slots i no_slot));
        free_head = (get_or t.slots i no_slot).next_free;
      })
  unfolding elem
  reused-IsTable h i free e c =
      let v = fill value pin_module pin_type (get_or t.slots i no_slot) in
      record {
        free = free;
        chain = Chain-set t.slots v i (get_or t.slots i no_slot).next_free free c.3 c.4;
        all_free = λ j l z. ground (
          arith,
          get_or-set t.slots i j v no_slot,
          h.all_free j,
          ap (elem j) e,
          length-set t.slots i v,
          ==_iff i j,
          ==_iff j i,
          c.1,
          nz,
        );
        generations =
            λ j. ground (arith, get_or-set t.slots i j v no_slot, h.generations j, h.generations i);
        count = omega (arith, length-set t.slots i v, h.count);
      }

  new_slot-outcome :
      (r : Result ℕ)
      → IsTable t
      → length t.slots < 4294967296
      → PinOutcome t value pin_module pin_type (new_slot value pin_module pin_type t r)
  new_slot-outcome (err e) h lt = refl
  new_slot-outcome (ok cap) h lt =
      let v = fill value pin_module pin_type no_slot in
      (
        appended-IsTable cap h lt,
        length t.slots,
        v,
        taken-IsPinned (length t.slots) v (append-HasSlot t v t.free_head cap)
            (λ l. absurd (omega arith)) nz (omega arith) lt,
        refl,
        refl,
        refl,
      )

  reuse_slot-outcome :
      (h : IsTable t) (free : List ℕ)
      → h.free ≡ free
      → Chain t.slots t.free_head free
      → t.free_head ≢ 0
      → PinOutcome t value pin_module pin_type (
          reuse_slot value pin_module pin_type t
            (t.free_head - 1)
            (get_or t.slots (t.free_head - 1) no_slot))
  reuse_slot-outcome h [] e c head = absurd (head c)
  reuse_slot-outcome h (i ∷ free) e c head =
      let v = fill value pin_module pin_type (get_or t.slots i no_slot) in
      let first : t.free_head - 1 ≡ i = omega (arith, c.0) in
      rw first (
        reused-IsTable h i free e c,
        i,
        v,
        taken-IsPinned i v (set-HasSlot t i v (get_or t.slots i no_slot).next_free t.slots_cap c.1)
            (λ _. c.2) nz (h.generations i) (omega (arith, h.count, c.1)),
        refl,
        refl,
        refl,
      )

  -- Pinning a value that is not null in a well-formed table fails and changes nothing, or makes one
  -- reference valid that was not valid before and that names the value with its module and type. All
  -- other references are as before, and the table stays well-formed.
  pub pin_into-outcome :
      (realloc : ℕ → Bool)
      → IsTable t
      → PinOutcome t value pin_module pin_type (pin_into realloc value pin_module pin_type t)
  unfolding pin_into
  pin_into-outcome realloc h = elim (Bool-cases (t.free_head == 0)) [
    | inr f ↦ rw f (reuse_slot-outcome h h.free refl h.chain (ground arith))
    | inl f ↦ elim (Bool-cases (ltb (length t.slots) 4294967296)) [
      | inl lt ↦
          rw (f, lt)
            (new_slot-outcome (grow_array realloc (length t.slots + 1) t.slots_cap) h
              (ground arith))
      | inr ge ↦ rw (f, ge) refl
    ]
  ]
