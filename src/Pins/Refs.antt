-- ===== src/Pins/Refs.antt =====
-- A pinned reference as a number, and the slot that it names (`wah_pinned_slot`).
use wah.Base.{
  ℕ, ◌+◌, ◌*◌, ◌/◌, ◌%◌, ◌<◌, ◌≡◌, ◌==◌, not, if◌then◌else◌, Option, none, some, get_elem?, refl,
  bit_and, bit_or, arith,
}
use wah.Base.Bits.{or_shifted, and_mask}
use wah.Pins.{PinTable, PinSlot, pin_ref, pinned_slot, live_slot}

pub pin_ref_lem :
    (g i : ℕ) → g < 1073741824 → i < 4294967296 → pin_ref g i ≡ 2 + (i + g * 4294967296) * 4
unfolding pin_ref
pin_ref_lem g i hg hi =
    let fits : g * 4294967296 % 18446744073709551616 ≡ g * 4294967296 = omega arith in
    let word : bit_or i (g * 4294967296) ≡ i + g * 4294967296 = or_shifted 32 i g hi in
    let high : (i + g * 4294967296) * 4 % 18446744073709551616 ≡ (i + g * 4294967296) * 4 =
      omega arith in
    rw (fits, word, high) (or_shifted 2 2 (i + g * 4294967296) (omega arith))

-- The same as `pinned_slot`, in the parts of the reference.
unfoldable pub slot_of : PinTable → ℕ → Option (ℕ × PinSlot)
slot_of t r =
    if not (r % 4 == 2)
    then none
    else live_slot (r / 4 % 4294967296) (r / 4 / 4294967296)
        (get_elem? t.slots (r / 4 % 4294967296))

pub pinned_slot_lem : (t : PinTable) (r : ℕ) → pinned_slot (some t) r ≡ slot_of t r
unfolding pinned_slot slot_of
pinned_slot_lem t r =
    let tag : bit_and r 3 ≡ r % 4 = and_mask 2 r in
    let index : bit_and (r / 4) 4294967295 ≡ r / 4 % 4294967296 = and_mask 32 (r / 4) in
    rw (tag, index) refl
