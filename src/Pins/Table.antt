-- ===== src/Pins/Table.antt =====
-- The free list of the table (`wah_pin_table_t`), and all references to its slots.
use wah.Base.{
  ℕ, zero, suc, ◌+◌, ◌<◌, ◌≤◌, ◌≡◌, ◌==◌, true, false, ltb, ◌&&◌, if◌then◌else◌, List, [], ◌∷◌,
  ◌++◌, none, some, length, get_elem?, get_or, set, length-set, length-append, arith, ==_iff,
}
use wah.Gc.Marks.{elem}
use wah.Pins.{PinTable, PinSlot, no_slot}

-- The slots of the free list from `head` on.
abbrev pub Chain : List PinSlot → ℕ → List ℕ → Type 0
Chain slots head [] = head ≡ 0
Chain slots head (i ∷ free) =
    (head ≡ i + 1)
    × (i < length slots)
    × ((get_or slots i no_slot).value ≡ 0)
    × (elem i free ≡ false)
    × Chain slots (get_or slots i no_slot).next_free free

-- The slots whose value is null are those of the free list, each once.
pub record IsTable (t : PinTable) : Type 0 where
  pub free : List ℕ
  pub chain : Chain t.slots t.free_head free
  pub all_free :
      (i : ℕ) → i < length t.slots → (get_or t.slots i no_slot).value ≡ 0 → elem i free ≡ true
  pub generations : (i : ℕ) → (get_or t.slots i no_slot).generation < 1073741824
  pub count : length t.slots ≤ 4294967296

pub get_or-set :
    (xs : List PinSlot) (i j : ℕ) (v d : PinSlot)
    → get_or (set xs i v) j d ≡ (if i == j && ltb i (length xs) then v else get_or xs j d)
get_or-set [] i j v d = ground arith
get_or-set (x ∷ xs) zero zero v d = ground arith
get_or-set (x ∷ xs) zero (suc j) v d = ground arith
get_or-set (x ∷ xs) (suc i) zero v d = ground arith
get_or-set (x ∷ xs) (suc i) (suc j) v d = ground (arith, get_or-set xs i j v d)

pub get_or-append :
    (xs : List PinSlot) (v d : PinSlot) (j : ℕ)
    → get_or (xs ++ v ∷ []) j d ≡ (if j == length xs then v else get_or xs j d)
get_or-append [] v d zero = ground arith
get_or-append [] v d (suc j) = ground arith
get_or-append (x ∷ xs) v d zero = ground arith
get_or-append (x ∷ xs) v d (suc j) = ground (arith, get_or-append xs v d j)

pub get_elem?-get_or :
    (xs : List PinSlot) (i : ℕ) (d : PinSlot)
    → get_elem? xs i ≡ (if ltb i (length xs) then some (get_or xs i d) else none)
get_elem?-get_or [] i d = ground arith
get_elem?-get_or (x ∷ xs) zero d = ground arith
get_elem?-get_or (x ∷ xs) (suc i) d = ground (arith, get_elem?-get_or xs i d)

-- A slot that is not on the free list can change.
pub Chain-set :
    (slots : List PinSlot) (v : PinSlot) (i head : ℕ) (free : List ℕ)
    → elem i free ≡ false
    → Chain slots head free
    → Chain (set slots i v) head free
unfolding elem
Chain-set slots v i head [] h c = c
Chain-set slots v i head (x ∷ free) h c =
    let same : get_or (set slots i v) x no_slot ≡ get_or slots x no_slot =
      ground (arith, get_or-set slots i x v no_slot, ==_iff i x, ==_iff x i) in
    rw same (
      c.0,
      omega (arith, length-set slots i v, c.1),
      c.2,
      c.3,
      Chain-set slots v i (get_or slots x no_slot).next_free free (ground arith) c.4,
    )

pub Chain-append :
    (slots : List PinSlot) (v : PinSlot) (head : ℕ) (free : List ℕ)
    → Chain slots head free
    → Chain (slots ++ v ∷ []) head free
Chain-append slots v head [] c = c
Chain-append slots v head (x ∷ free) c =
    let same : get_or (slots ++ v ∷ []) x no_slot ≡ get_or slots x no_slot =
      ground (arith, get_or-append slots v no_slot x, c.1) in
    rw same (
      c.0,
      omega (arith, length-append slots (v ∷ []), c.1),
      c.2,
      c.3,
      Chain-append slots v (get_or slots x no_slot).next_free free c.4,
    )
