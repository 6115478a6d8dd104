-- ===== src/Pins/Tests.antt =====
-- A table of two slots, one of them free.
use wah.Base.{
  ℕ, zero, suc, ◌<◌, ◌≡◌, ◌≢◌, true, false, Bool, [], ◌∷◌, none, some, get_or, refl, arith,
}
use wah.Types.{any, extern}
use wah.Gc.Marks.{elem}
use wah.Pins.{PinTable, no_slot, pinned_slot, pin_into, unpin, release}
use wah.Pins.Table.{IsTable}
use wah.Pins.Keeps.{PinOutcome, pin_into-outcome}
use wah.Pins.Release.{UnpinOutcome, unpin-outcome, release-pin_fresh}

abbrev two_slots : PinTable
two_slots = record {
  slots =
      (record { value = 7000; pin_module = 9; pin_type = any; generation = 3; next_free = 0 })
      ∷ (record { value = 0; pin_module = 9; pin_type = extern; generation = 5; next_free = 0 })
      ∷ [];
  slots_cap = 4;
  free_head = 2;
}

-- The reference to the first slot.
abbrev first_ref : ℕ
first_ref = 51539607554

listed : (i : ℕ) → i < 2 → (get_or two_slots.slots i no_slot).value ≡ 0 → elem i (1 ∷ []) ≡ true
unfolding elem
listed zero l z = absurd (omega (arith, z))
listed (suc zero) l z = refl
listed (suc (suc i)) l z = absurd (omega (arith, l))

generation : (i : ℕ) → (get_or two_slots.slots i no_slot).generation < 1073741824
generation zero = omega arith
generation (suc zero) = omega arith
generation (suc (suc i)) = omega arith

two_slots-IsTable : IsTable two_slots
unfolding elem
two_slots-IsTable = record {
  free = 1 ∷ [];
  chain = (refl, omega arith, refl, refl, refl);
  all_free = listed;
  generations = generation;
  count = omega arith;
}

first_valid : pinned_slot (some two_slots) first_ref ≢ none
unfolding pinned_slot
first_valid e = cc

pin_into-outcome_example :
    PinOutcome two_slots 8000 9 extern (pin_into (λ _. false) 8000 9 extern two_slots)
pin_into-outcome_example =
    pin_into-outcome 8000 9 extern (omega arith) two_slots (λ _. false) two_slots-IsTable

unpin-outcome_example :
    (done : Bool) × (t' : PinTable) × (unpin first_ref (some two_slots) ≡ (done, some t'))
    × UnpinOutcome two_slots first_ref (done, t')
unpin-outcome_example = unpin-outcome two_slots first_ref two_slots-IsTable (omega arith)

release-pin_fresh_example :
    pinned_slot
      (some
        (pin_into
          (λ _. true)
          8000
          9
          extern
          (release two_slots (pinned_slot (some two_slots) first_ref)).1).1)
      first_ref
    ≡ none
release-pin_fresh_example =
    release-pin_fresh (λ _. true) 8000 9 extern two_slots first_ref two_slots-IsTable first_valid
