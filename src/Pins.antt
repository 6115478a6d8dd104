-- ===== src/Pins.antt =====
-- References that the host keeps (`wah_pin_table_t`): a reference names a slot and its generation.
-- On a 64-bit target, slots take 32 bits and generations 30.
pub mod Refs
pub mod Table
pub mod Slots
pub mod Keeps
pub mod Release
mod Tests
use wah.Base.{
  ℕ, ◌+◌, ◌-◌, ◌*◌, ◌/◌, ◌%◌, ◌^◌, Bool, true, false, not, ◌&&◌, ◌||◌, ltb, ◌==◌, if◌then◌else◌,
  List, [], ◌∷◌, ◌++◌, Option, none, some, length, get_elem?, get_or, set, bit_and, bit_or,
}
use wah.Base.Int.{◌==ℤ◌}
use wah.Status.{Result, ok, err, Error, too_large, out_of_memory, misuse, ensure, ◌>>=◌, ◌>>◌}
use wah.Arrays.{grow_array}
use wah.Types.{WahType, is_ref, is_nullable, as_non_null, extern, any}

pub record PinSlot : Type 0 where
  pub value : ℕ
  pub pin_module : ℕ
  pub pin_type : WahType
  pub generation : ℕ
  pub next_free : ℕ

-- `slot_count` is the length of the list; `free_head` is an index + 1, or 0.
pub record PinTable : Type 0 where
  pub slots : List PinSlot
  pub slots_cap : ℕ
  pub free_head : ℕ

abbrev pub pin_tag : ℕ
pin_tag = 2

abbrev pub no_slot : PinSlot
no_slot = record { value = 0; pin_module = 0; pin_type = any; generation = 0; next_free = 0 }

-- The reference that `wah_pin` makes.
unfoldable pub pin_ref : ℕ → ℕ → ℕ
pin_ref generation slot =
    bit_or pin_tag (bit_or slot (generation * 2 ^ 32 % 2 ^ 64) * 2 ^ 2 % 2 ^ 64)

abbrev pub live_slot : ℕ → ℕ → Option PinSlot → Option (ℕ × PinSlot)
live_slot slot generation none = none
live_slot slot generation (some s) =
    if not (s.value == 0) && s.generation == generation then some (slot, s) else none

-- `wah_pinned_slot`, which returns the slot with its index; a context without a table has `none`.
unfoldable pub pinned_slot : Option PinTable → ℕ → Option (ℕ × PinSlot)
pinned_slot none pinned_ref = none
pinned_slot (some t) pinned_ref =
    if not (bit_and pinned_ref (2 ^ 2 - 1) == pin_tag)
    then none
    else (let bits = pinned_ref / 2 ^ 2 in
        let slot = bit_and bits (2 ^ 32 - 1) in
        live_slot slot (bits / 2 ^ 32) (get_elem? t.slots slot))

abbrev pub fill : ℕ → ℕ → WahType → PinSlot → PinSlot
fill value pin_module pin_type s = record s {
  value = value;
  pin_module = pin_module;
  pin_type = pin_type;
  next_free = 0;
}

-- A slot at the end of the table, whose array has grown to `cap`.
abbrev pub new_slot : ℕ → ℕ → WahType → PinTable → Result ℕ → Result ℕ × PinTable
new_slot value pin_module pin_type t (err e) = (err e, t)
new_slot value pin_module pin_type t (ok cap) = (
  ok (pin_ref 0 (length t.slots)),
  record t { slots = t.slots ++ fill value pin_module pin_type no_slot ∷ []; slots_cap = cap },
)

-- The first free slot.
abbrev pub reuse_slot : ℕ → ℕ → WahType → PinTable → ℕ → PinSlot → Result ℕ × PinTable
reuse_slot value pin_module pin_type t slot s = (
  ok (pin_ref s.generation slot),
  record t { slots = set t.slots slot (fill value pin_module pin_type s); free_head = s.next_free },
)

-- `wah_pin` for a context with a table: the reference or an error, and the table.
unfoldable pub pin_into : (ℕ → Bool) → ℕ → ℕ → WahType → PinTable → Result ℕ × PinTable
pin_into realloc value pin_module pin_type t =
    if t.free_head == 0
    then (if ltb (length t.slots) (2 ^ 32)
        then new_slot value pin_module pin_type t
            (grow_array realloc (length t.slots + 1) t.slots_cap)
        else (err too_large, t))
    else reuse_slot value pin_module pin_type t (t.free_head - 1)
        (get_or t.slots (t.free_head - 1) no_slot)

abbrev pub no_pins : PinTable
no_pins = record { slots = []; slots_cap = 0; free_head = 0 }

abbrev with_table : Result ℕ × PinTable → Result ℕ × Option PinTable
with_table (r, t) = (r, some t)

-- `wah_pin`; the table is allocated at the first pin.
unfoldable pub pin :
    Bool → (ℕ → Bool) → ℕ → ℕ → WahType → Option PinTable → Result ℕ × Option PinTable
unfolding pin_into
pin malloc_ok realloc value pin_module pin_type (some t) =
    with_table (pin_into realloc value pin_module pin_type t)
pin malloc_ok realloc value pin_module pin_type none =
    if malloc_ok
    then with_table (pin_into realloc value pin_module pin_type no_pins)
    else (err out_of_memory, none)

abbrev pub release : PinTable → Option (ℕ × PinSlot) → Bool × PinTable
release t none = (false, t)
release t (some (slot, s)) = (
  true,
  record t {
    slots = set t.slots slot (record s {
      value = 0;
      generation = bit_and (s.generation + 1) (2 ^ 30 - 1);
      next_free = t.free_head;
    });
    free_head = slot + 1;
  },
)

abbrev unpin_table : ℕ → Option PinTable → Bool × Option PinTable
unpin_table pinned_ref none = (false, none)
unpin_table pinned_ref (some t) =
    let (done, t') = release t (pinned_slot (some t) pinned_ref) in (done, some t')

-- `wah_unpin`
unfoldable pub unpin : ℕ → Option PinTable → Bool × Option PinTable
unfolding pinned_slot
unpin pinned_ref pins = if pinned_ref == 0 then (true, pins) else unpin_table pinned_ref pins

-- `wah_host_object_accepts`
unfoldable pub host_object_accepts : WahType → Bool
host_object_accepts t = as_non_null t ==ℤ extern || as_non_null t ==ℤ any

-- The subtyping of types of two modules is a parameter here.
module _ (cross_module_subtype : ℕ → WahType → ℕ → WahType → Bool) where
  -- `wah_pin_accepts`
  unfoldable pub pin_accepts : PinSlot → ℕ → WahType → Bool
  pin_accepts s wanted_module t =
      if s.pin_module == 0
      then host_object_accepts t
      else cross_module_subtype s.pin_module s.pin_type wanted_module t

  abbrev load_pinned : Option (ℕ × PinSlot) → ℕ → WahType → Result ℕ
  load_pinned none wanted_module t = err misuse
  load_pinned (some (i, s)) wanted_module t =
      if pin_accepts s wanted_module t then ok s.value else err misuse

  -- One round of the loop of `wah_load_host_params`.
  unfoldable pub load_host_param : Option PinTable → ℕ → WahType → ℕ → Result ℕ
  load_host_param pins wanted_module t value =
      ensure (not (is_ref t) || not (value == 0) || is_nullable t) misuse
      >> (if is_ref t && not (value == 0)
          then ensure (bit_and value 1 == 0) misuse
            >> (if bit_and value (2 ^ 2 - 1) == pin_tag
                then load_pinned (pinned_slot pins value) wanted_module t
                else ensure (host_object_accepts t) misuse >> ok value)
          else ok value)

  -- `wah_load_host_params`: the values stored, from the first on.
  unfoldable pub load_host_params : Option PinTable → ℕ → List WahType → List ℕ → Result (List ℕ)
  load_host_params pins wanted_module [] values = ok []
  load_host_params pins wanted_module (t ∷ ts) [] = ok []
  load_host_params pins wanted_module (t ∷ ts) (v ∷ vs) =
      load_host_param pins wanted_module t v >>= λ value.
      load_host_params pins wanted_module ts vs >>= λ rest. ok (value ∷ rest)
