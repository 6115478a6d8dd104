-- ===== src/Pins/Slots.antt =====
-- The references to one slot of the table, and to all others.
use wah.Base.{
  ℕ, zero, suc, ◌+◌, ◌*◌, ◌/◌, ◌%◌, ◌<◌, ◌≡◌, ◌≢◌, ◌==◌, true, false, Bool, ltb, ◌&&◌,
  if◌then◌else◌, List, [], ◌∷◌, ◌++◌, none, some, length, get_elem?, get_or, set, sym, refl, ◌∙◌,
  inl, inr, arith, Bool-cases,
}
use wah.Pins.{PinTable, PinSlot, no_slot, pin_ref, pinned_slot, live_slot}
use wah.Pins.Refs.{pin_ref_lem, slot_of, pinned_slot_lem}
use wah.Pins.Table.{get_elem?-get_or}

abbrev pub names : ℕ → ℕ → Bool
names r i = r % 4 == 2 && r / 4 % 4294967296 == i

-- `t'` is `t` with `v` at slot `i`.
pub record HasSlot (t : PinTable) (i : ℕ) (v : PinSlot) (t' : PinTable) : Type 0 where
  pub there : (r : ℕ) → names r i ≡ true → slot_of t' r ≡ live_slot i (r / 4 / 4294967296) (some v)
  pub elsewhere : (r : ℕ) → names r i ≡ false → slot_of t' r ≡ slot_of t r

get_elem?-set :
    (xs : List PinSlot) (i j : ℕ) (v : PinSlot)
    → i < length xs
    → get_elem? (set xs i v) j ≡ (if j == i then some v else get_elem? xs j)
get_elem?-set [] i j v h = elim h [ ]
get_elem?-set (x ∷ xs) zero zero v h = ground arith
get_elem?-set (x ∷ xs) zero (suc j) v h = ground arith
get_elem?-set (x ∷ xs) (suc i) zero v h = ground arith
get_elem?-set (x ∷ xs) (suc i) (suc j) v h = ground (arith, get_elem?-set xs i j v)

get_elem?-append_one :
    (xs : List PinSlot) (v : PinSlot) (j : ℕ)
    → get_elem? (xs ++ v ∷ []) j ≡ (if j == length xs then some v else get_elem? xs j)
get_elem?-append_one [] v zero = ground arith
get_elem?-append_one [] v (suc j) = ground arith
get_elem?-append_one (x ∷ xs) v zero = ground arith
get_elem?-append_one (x ∷ xs) v (suc j) = ground (arith, get_elem?-append_one xs v j)

changed-HasSlot :
    (t t' : PinTable) (i : ℕ) (v : PinSlot)
    → ((j : ℕ) → get_elem? t'.slots j ≡ (if j == i then some v else get_elem? t.slots j))
    → HasSlot t i v t'
unfolding slot_of
changed-HasSlot t t' i v h = record {
  there = λ r n.
      let e : r / 4 % 4294967296 ≡ i = ground arith in
      let tag : (r % 4 == 2) ≡ true = ground arith in
      let at : get_elem? t'.slots i ≡ some v = ground (arith, h i) in rw (tag, e, at) refl;
  elsewhere = λ r n. elim (Bool-cases (r % 4 == 2)) [
    | inr tag ↦ rw tag refl
    | inl tag ↦
        let at : get_elem? t'.slots (r / 4 % 4294967296) ≡ get_elem? t.slots (r / 4 % 4294967296) =
          ground (arith, h (r / 4 % 4294967296)) in
        rw at refl
  ];
}

pub set-HasSlot :
    (t : PinTable) (i : ℕ) (v : PinSlot) (head cap : ℕ)
    → i < length t.slots
    → HasSlot t i v (record { slots = set t.slots i v; slots_cap = cap; free_head = head })
set-HasSlot t i v head cap h = changed-HasSlot t _ i v (λ j. get_elem?-set t.slots i j v h)

pub append-HasSlot :
    (t : PinTable) (v : PinSlot) (head cap : ℕ)
    → HasSlot t
        (length t.slots)
        v
        (record { slots = t.slots ++ v ∷ []; slots_cap = cap; free_head = head })
append-HasSlot t v head cap = changed-HasSlot t _ _ v (λ j. get_elem?-append_one t.slots v j)

-- A slot whose value is null, or that is not there, has no references.
pub free-none :
    (t : PinTable) (i r : ℕ)
    → (i < length t.slots → (get_or t.slots i no_slot).value ≡ 0)
    → names r i ≡ true
    → slot_of t r ≡ none
unfolding slot_of
free-none t i r h n =
    let e : r / 4 % 4294967296 ≡ i = ground arith in
    let tag : (r % 4 == 2) ≡ true = ground arith in
    rw (tag, e, get_elem?-get_or t.slots i no_slot)
      (elim (Bool-cases (ltb i (length t.slots))) [
        | inr l ↦ rw l refl
        | inl l ↦ rw l (ground (arith, h (ground arith)))
      ])

-- What pinning does to the references.
pub record IsPinned (t : PinTable) (ref i : ℕ) (v : PinSlot) (t' : PinTable) : Type 0 where
  pub fresh : pinned_slot (some t) ref ≡ none
  pub found : pinned_slot (some t') ref ≡ some (i, v)
  pub others : (r : ℕ) → r ≢ ref → pinned_slot (some t') r ≡ pinned_slot (some t) r

pub taken-IsPinned :
    {t t' : PinTable} (i : ℕ) (v : PinSlot)
    → HasSlot t i v t'
    → (i < length t.slots → (get_or t.slots i no_slot).value ≡ 0)
    → v.value ≢ 0
    → v.generation < 1073741824
    → i < 4294967296
    → IsPinned t (pin_ref v.generation i) i v t'
taken-IsPinned {t} {t'} i v h was_free nz g w =
    let ref : ℕ = 2 + (i + v.generation * 4294967296) * 4 in
    rw (pin_ref_lem v.generation i g w) (record {
      fresh = pinned_slot_lem t ref ∙ free-none t i ref was_free (ground arith);
      found = pinned_slot_lem t' ref ∙ h.there ref (ground arith) ∙ ground (arith, nz);
      others = λ r ne. elim (Bool-cases (names r i)) [
        | inr n ↦ pinned_slot_lem t' r ∙ h.elsewhere r n ∙ sym (pinned_slot_lem t r)
        | inl n ↦
            let stale : live_slot i (r / 4 / 4294967296) (some v) ≡ none = ground arith in
            pinned_slot_lem t' r
            ∙ h.there r n
            ∙ stale
            ∙ sym (pinned_slot_lem t r ∙ free-none t i r was_free n)
      ];
    })

-- What releasing a slot does.
pub record IsReleased (t : PinTable) (ref : ℕ) (t' : PinTable) : Type 0 where
  pub gone : pinned_slot (some t') ref ≡ none
  pub others : (r : ℕ) → r ≢ ref → pinned_slot (some t') r ≡ pinned_slot (some t) r

pub emptied-IsReleased :
    {t t' : PinTable} (i : ℕ) (v : PinSlot) (ref : ℕ)
    → HasSlot t i v t'
    → v.value ≡ 0
    → i < length t.slots
    → names ref i ≡ true
    → (get_or t.slots i no_slot).generation ≡ ref / 4 / 4294967296
    → IsReleased t ref t'
unfolding slot_of
emptied-IsReleased {t} {t'} i v ref h zero_value lt n g = record {
  gone = pinned_slot_lem t' ref ∙ h.there ref n ∙ ground arith;
  others = λ r ne. elim (Bool-cases (names r i)) [
    | inr m ↦ pinned_slot_lem t' r ∙ h.elsewhere r m ∙ sym (pinned_slot_lem t r)
    | inl m ↦
        let emptied : live_slot i (r / 4 / 4294967296) (some v) ≡ none = ground arith in
        let e : r / 4 % 4294967296 ≡ i = ground arith in
        let tag : (r % 4 == 2) ≡ true = ground arith in
        let before : slot_of t r ≡ none =
          rw (tag, e, get_elem?-get_or t.slots i no_slot) (ground arith) in
        pinned_slot_lem t' r ∙ h.there r m ∙ emptied ∙ sym (pinned_slot_lem t r ∙ before)
  ];
}
