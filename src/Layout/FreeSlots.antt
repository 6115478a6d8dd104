-- ===== src/Layout/FreeSlots.antt =====
-- How many free slots cover a byte.
use wah.Base.{ℕ, suc, ◌+◌, ◌*◌, ◌%◌, ◌≤◌, ◌≡◌, refl, Bool, true, false, ◌&&◌, arith}
use wah.Base.{ltb, leb, if◌then◌else◌, List, [], ◌∷◌, length, All}
use wah.Layout.{Slots, insert_offset, slot_push}

-- 1 for a byte of the block at `offset`, 0 for any other.
abbrev pub covers : ℕ → ℕ → ℕ → ℕ
covers offset size p = if leb offset p && ltb p (offset + size) then 1 else 0

unfoldable pub list_covers : List ℕ → ℕ → ℕ → ℕ
list_covers [] size p = 0
list_covers (o ∷ os) size p = covers o size p + list_covers os size p

-- The number of free slots with byte `p`.
abbrev pub free_covers : Slots → ℕ → ℕ
free_covers s p =
    list_covers s.slots1 1 p
    + list_covers s.slots2 2 p
    + list_covers s.slots4 4 p
    + list_covers s.slots8 8 p

abbrev pub free_bytes : Slots → ℕ
free_bytes s = length s.slots1 + 2 * length s.slots2 + 4 * length s.slots4 + 8 * length s.slots8

-- Slots are aligned to their size.
abbrev pub Aligned : Slots → Type 0
Aligned s =
    All (λ o. o % 1 ≡ 0) s.slots1
    × All (λ o. o % 2 ≡ 0) s.slots2
    × All (λ o. o % 4 ≡ 0) s.slots4
    × All (λ o. o % 8 ≡ 0) s.slots8

-- There is at most one slot of each size.
abbrev pub AtMostOne : Slots → Type 0
AtMostOne s =
    (length s.slots1 ≤ 1) × (length s.slots2 ≤ 1) × (length s.slots4 ≤ 1) × (length s.slots8 ≤ 1)

pub list_covers-insert :
    (o : ℕ) (os : List ℕ) (size p : ℕ)
    → list_covers (insert_offset o os) size p ≡ covers o size p + list_covers os size p
unfolding insert_offset list_covers
list_covers-insert o [] size p = refl
list_covers-insert o (x ∷ os) size p = let ih = list_covers-insert o os size p in ground arith

pub length-insert : (o : ℕ) (os : List ℕ) → length (insert_offset o os) ≡ suc (length os)
unfolding insert_offset
length-insert o [] = refl
length-insert o (x ∷ os) = let ih = length-insert o os in ground arith

All-pick :
    (P : ℕ → Type 0) (b : Bool) (o x : ℕ) (os rest : List ℕ)
    → P o
    → All P (x ∷ os)
    → All P rest
    → All P (if b then o ∷ x ∷ os else x ∷ rest)
All-pick P true o x os rest h hs hr = (h, hs)
All-pick P false o x os rest h hs hr = (hs.0, hr)

pub All-insert :
    (P : ℕ → Type 0) (o : ℕ) (os : List ℕ) → P o → All P os → All P (insert_offset o os)
unfolding insert_offset
All-insert P o [] h hs = (h, tt)
All-insert P o (x ∷ os) h hs = All-pick P _ o x os _ h hs (All-insert P o os h hs.1)

pub data IsSlotSize : ℕ → Type 0 where
  one : IsSlotSize 1
  two : IsSlotSize 2
  four : IsSlotSize 4
  eight : IsSlotSize 8

-- `s'` has the free slots of `s` and one more.
pub record Gains (s s' : Slots) (o n : ℕ) : Type 0 where
  pub bytes_covered : (p : ℕ) → free_covers s' p ≡ free_covers s p + covers o n p
  pub bytes_free : free_bytes s' ≡ free_bytes s + n

pub slot_push-Gains : (s : Slots) (n o : ℕ) → IsSlotSize n → Gains s (slot_push s n o) o n
unfolding slot_push
slot_push-Gains s n o one = record {
  bytes_covered = λ p. omega (arith, list_covers-insert o s.slots1 1 p);
  bytes_free = omega (arith, length-insert o s.slots1);
}
slot_push-Gains s n o two = record {
  bytes_covered = λ p. omega (arith, list_covers-insert o s.slots2 2 p);
  bytes_free = omega (arith, length-insert o s.slots2);
}
slot_push-Gains s n o four = record {
  bytes_covered = λ p. omega (arith, list_covers-insert o s.slots4 4 p);
  bytes_free = omega (arith, length-insert o s.slots4);
}
slot_push-Gains s n o eight = record {
  bytes_covered = λ p. omega (arith, list_covers-insert o s.slots8 8 p);
  bytes_free = omega (arith, length-insert o s.slots8);
}

pub slot_push-Aligned :
    (s : Slots) (n o : ℕ) → IsSlotSize n → o % n ≡ 0 → Aligned s → Aligned (slot_push s n o)
unfolding slot_push
slot_push-Aligned s n o one h (a, b, c, d) = (All-insert (λ o. o % 1 ≡ 0) o s.slots1 h a, b, c, d)
slot_push-Aligned s n o two h (a, b, c, d) = (a, All-insert (λ o. o % 2 ≡ 0) o s.slots2 h b, c, d)
slot_push-Aligned s n o four h (a, b, c, d) = (a, b, All-insert (λ o. o % 4 ≡ 0) o s.slots4 h c, d)
slot_push-Aligned s n o eight h (a, b, c, d) = (a, b, c, All-insert (λ o. o % 8 ≡ 0) o s.slots8 h d)
