-- ===== src/Pins/Release.antt =====
-- Releasing a reference (`wah_unpin`), and the table behind it.
use wah.Base.{
  ℕ, ◌+◌, ◌-◌, ◌/◌, ◌%◌, ◌<◌, ◌≡◌, ◌≢◌, ◌==◌, true, false, Bool, List, [], ◌∷◌, none, some, length,
  get_or, set, length-set, ap, sym, refl, ◌∙◌, inl, inr, arith, Bool-cases, ==_iff, bit_and,
  Option-cases,
}
use wah.Base.Bits.{and_mask}
use wah.Types.{WahType}
use wah.Gc.Marks.{elem}
use wah.Pins.{PinTable, PinSlot, no_slot, pinned_slot, pin_into, reuse_slot, fill, unpin, release}
use wah.Pins.Refs.{slot_of, pinned_slot_lem}
use wah.Pins.Table.{Chain, IsTable, Chain-set, get_or-set, get_elem?-get_or}
use wah.Pins.Slots.{set-HasSlot, IsReleased, emptied-IsReleased, names}

-- A slot with a value is not on the free list.
not_listed :
    (t : PinTable) (i : ℕ) (free : List ℕ) (head : ℕ)
    → Chain t.slots head free
    → (get_or t.slots i no_slot).value ≢ 0
    → elem i free ≡ false
unfolding elem
not_listed t i [] head c nz = refl
not_listed t i (x ∷ free) head c nz = elim (Bool-cases (i == x)) [
  | inl e ↦
      let same = (==_iff i x).0 e in
      absurd (nz (ap (λ (j : ℕ). (get_or t.slots j no_slot).value) same ∙ c.2))
  | inr n ↦ rw n (not_listed t i free (get_or t.slots x no_slot).next_free c.4 nz)
]

set_self :
    (slots : List PinSlot) (i : ℕ) (v : PinSlot)
    → i < length slots
    → get_or (set slots i v) i no_slot ≡ v
set_self slots i v h = ground (arith, get_or-set slots i i v no_slot)

released-IsTable :
    (t : PinTable) (i g : ℕ)
    → IsTable t
    → i < length t.slots
    → (get_or t.slots i no_slot).value ≢ 0
    → g < 1073741824
    → IsTable (record t {
      slots = set t.slots i (record (get_or t.slots i no_slot) {
        value = 0;
        generation = g;
        next_free = t.free_head;
      });
      free_head = i + 1;
    })
unfolding elem
released-IsTable t i g h lt nz gen =
    let v = record (get_or t.slots i no_slot) {
      value = 0;
      generation = g;
      next_free = t.free_head;
    } in
    let not_free : elem i h.free ≡ false = not_listed t i h.free t.free_head h.chain nz in
    record {
      free = i ∷ h.free;
      chain = rw (set_self t.slots i v lt) (
        refl,
        omega (arith, length-set t.slots i v),
        refl,
        not_free,
        Chain-set t.slots v i t.free_head h.free not_free h.chain,
      );
      all_free = λ j l z. ground (
        arith,
        get_or-set t.slots i j v no_slot,
        h.all_free j,
        length-set t.slots i v,
        ==_iff i j,
        ==_iff j i,
      );
      generations = λ j. ground (arith, get_or-set t.slots i j v no_slot, h.generations j);
      count = omega (arith, length-set t.slots i v, h.count);
    }

-- What a release leads to: a reference that is not valid is refused and nothing changes, and otherwise
-- it alone is not valid any more.
abbrev pub UnpinOutcome : PinTable → ℕ → Bool × PinTable → Type 0
UnpinOutcome t ref (false, t') = (t' ≡ t) × (pinned_slot (some t) ref ≡ none)
UnpinOutcome t ref (true, t') = IsTable t' × IsReleased t ref t' × (pinned_slot (some t) ref ≢ none)

record IsFound (t : PinTable) (r i : ℕ) (s : PinSlot) : Type 0 where
  named : names r i ≡ true
  within : i < length t.slots
  slot : get_or t.slots i no_slot ≡ s
  filled : s.value ≢ 0
  current : s.generation ≡ r / 4 / 4294967296

slot_of-IsFound :
    (t : PinTable) (r i : ℕ) (s : PinSlot) → slot_of t r ≡ some (i, s) → IsFound t r i s
unfolding slot_of
slot_of-IsFound t r i s h =
    let at = get_elem?-get_or t.slots (r / 4 % 4294967296) no_slot in
    let index : r / 4 % 4294967296 ≡ i = ground (arith, at) in
    record {
      named = ground (arith, at);
      within = ground (arith, at);
      slot = rw (← index) (ground (arith, at));
      filled = ground (arith, at);
      current = ground (arith, at);
    }

release_found :
    (t : PinTable) (ref i : ℕ) (s : PinSlot)
    → IsTable t
    → pinned_slot (some t) ref ≡ some (i, s)
    → IsFound t ref i s
    → UnpinOutcome t ref (release t (some (i, s)))
release_found t ref i s h e f =
    let wraps : bit_and (s.generation + 1) 1073741823 ≡ (s.generation + 1) % 1073741824 =
      and_mask 30 (s.generation + 1) in
    let v = record s {
      value = 0;
      generation = bit_and (s.generation + 1) 1073741823;
      next_free = t.free_head;
    } in
    (
      (rw f.slot at (
          released-IsTable t i (bit_and (s.generation + 1) 1073741823) h f.within
            (λ z. f.filled (sym (ap (λ (x : PinSlot). x.value) f.slot) ∙ z))
            (rw wraps (omega arith)))),
      emptied-IsReleased i v ref (set-HasSlot t i v (i + 1) t.slots_cap f.within) refl f.within
          f.named (ap (λ (x : PinSlot). x.generation) f.slot ∙ f.current),
      λ z. cc,
    )

release-outcome :
    (t : PinTable) (ref : ℕ) → IsTable t → UnpinOutcome t ref (release t (pinned_slot (some t) ref))
release-outcome t ref h = elim (Option-cases (pinned_slot (some t) ref)) [
  | inl e ↦ rw e (refl, e)
  | inr (p, e) ↦
      let found = slot_of-IsFound t ref p.0 p.1 (sym (pinned_slot_lem t ref) ∙ e) in
      rw e (release_found t ref p.0 p.1 h e found)
]

-- Releasing a reference that is not null: if it is not valid, it is refused and nothing changes;
-- otherwise it is not valid any more, all other references are as before, and the table stays well-
-- formed.
pub unpin-outcome :
    (t : PinTable) (ref : ℕ)
    → IsTable t
    → ref ≢ 0
    → (done : Bool) × (t' : PinTable) × (unpin ref (some t) ≡ (done, some t'))
      × UnpinOutcome t ref (done, t')
unfolding unpin
unpin-outcome t ref h nz =
    let r = release t (pinned_slot (some t) ref) in
    let not_null : (ref == 0) ≡ false = ground arith in
    (r.0, r.1, rw not_null refl, release-outcome t ref h)

-- The next pin takes the slot that was released last.
repin :
    (realloc : ℕ → Bool) (value pin_module : ℕ) (pin_type : WahType) (t : PinTable) (i : ℕ)
    (v : PinSlot)
    → t.free_head ≡ i + 1
    → get_or t.slots i no_slot ≡ v
    → pin_into realloc value pin_module pin_type t ≡ reuse_slot value pin_module pin_type t i v
unfolding pin_into
repin realloc value pin_module pin_type t i v head at =
    let free : (t.free_head == 0) ≡ false = ground arith in
    let first : t.free_head - 1 ≡ i = omega (arith, head) in simp (free, first, at)

repin_stale :
    (realloc : ℕ → Bool) (value pin_module : ℕ) (pin_type : WahType) (t : PinTable) (ref i : ℕ)
    (s : PinSlot)
    → IsTable t
    → IsFound t ref i s
    → pinned_slot
        (some (pin_into realloc value pin_module pin_type (release t (some (i, s))).1).1)
        ref
      ≡ none
repin_stale realloc value pin_module pin_type t ref i s h f =
    let wraps : bit_and (s.generation + 1) 1073741823 ≡ (s.generation + 1) % 1073741824 =
      and_mask 30 (s.generation + 1) in
    let v = record s {
      value = 0;
      generation = bit_and (s.generation + 1) 1073741823;
      next_free = t.free_head;
    } in
    let t' = (release t (some (i, s))).1 in
    let v' = fill value pin_module pin_type v in
    let small : s.generation < 1073741824 = rw f.slot at (h.generations i) in
    rw (repin realloc value pin_module pin_type t' i v refl (set_self t.slots i v f.within)) (
      let has =
        set-HasSlot t' i v' t.free_head t.slots_cap
          (omega (arith, length-set t.slots i v, f.within)) in
      pinned_slot_lem _ ref ∙ has.there ref f.named ∙ ground (arith, f.current, wraps, small))

-- A reference that was released stays invalid when the next pin uses its slot again.
pub release-pin_fresh :
    (realloc : ℕ → Bool) (value pin_module : ℕ) (pin_type : WahType) (t : PinTable) (ref : ℕ)
    → IsTable t
    → pinned_slot (some t) ref ≢ none
    → pinned_slot
        (some
          (pin_into realloc value pin_module pin_type (release t (pinned_slot (some t) ref)).1).1)
        ref
      ≡ none
release-pin_fresh realloc value pin_module pin_type t ref h valid =
    elim (Option-cases (pinned_slot (some t) ref)) [
      | inl e ↦ absurd (valid e)
      | inr (p, e) ↦
          let found = slot_of-IsFound t ref p.0 p.1 (sym (pinned_slot_lem t ref) ∙ e) in
          rw e (repin_stale realloc value pin_module pin_type t ref p.0 p.1 h found)
    ]
