-- ===== src/Bulk.antt =====
-- Bounds checks of memory accesses, fuel, and the chunked bulk operations on a memory.
-- A memory is the function from addresses to bytes; the operations run after their bounds check. The
-- interrupt flag, which a timer or another thread may set, is the argument `interrupted`, by progress.
pub mod Bounds
pub mod Loop
pub mod Fill
pub mod Copy
mod Tests
use wah.Base.{
  ℕ, zero, suc, ◌+◌, ◌-◌, ◌*◌, ◌/◌, ◌%◌, min, Bool, true, false, ◌&&◌, ◌||◌, not, ltb, leb,
  if◌then◌else◌, u64_max, Option, none, some,
}
use wah.Base.Int.{ℤ, pos, negsuc, sub_ℕ}
use wah.Status.{Result, ok, err, ensure, ◌>>=◌, ◌>>◌, memory_out_of_bounds, too_large}

-- `wah_check_effective_addr`, whose sum wraps around.
unfoldable pub check_effective_addr : ℕ → ℕ → ℕ → ℕ → Result ℕ
check_effective_addr addr offset size memory_size =
    let ea = (addr + offset) % 18446744073709551616 in
    if ltb ea addr || ltb memory_size size || ltb (memory_size - size) ea
    then err memory_out_of_bounds
    else ok ea

-- `wah_u64_range_in_bounds`
unfoldable pub u64_range_in_bounds : ℕ → ℕ → ℕ → Bool
u64_range_in_bounds offset size limit = leb offset limit && leb size (limit - offset)

-- The part of `wah_exec_context_t` that accounts for memory.
pub record Budget : Type 0 where
  pub max_memory_bytes : ℕ
  pub memory_bytes_committed : ℕ

-- `wah_budget_check`
unfoldable pub budget_check : Budget → ℕ → Bool
budget_check b additional =
    if ltb b.max_memory_bytes u64_max
    then (if ltb b.max_memory_bytes b.memory_bytes_committed
        then false
        else leb additional (b.max_memory_bytes - b.memory_bytes_committed))
    else true

-- `wah_budget_charge`
unfoldable pub budget_charge : Budget → ℕ → Budget
budget_charge b bytes = record b {
  memory_bytes_committed = (b.memory_bytes_committed + bytes) % 18446744073709551616;
}

-- `wah_budget_release`
unfoldable pub budget_release : Budget → ℕ → Budget
budget_release b bytes = record b {
  memory_bytes_committed =
      (b.memory_bytes_committed + 18446744073709551616 - bytes) % 18446744073709551616;
}

-- `wah_table_byte_size`; a value has 16 bytes.
unfoldable pub table_byte_size : ℕ → Result ℕ
table_byte_size elements = ensure (leb elements (u64_max / 16)) too_large >> ok (elements * 16)

-- WAH_BULK_CHECK_INTERVAL and WAH_BULK_ITEMS_PER_FUEL, at their defaults
abbrev pub bulk_check_interval : ℕ
bulk_check_interval = 16777216

abbrev pub bulk_items_per_fuel : ℕ
bulk_items_per_fuel = 4096

-- The fuel of a context, where its module has fuel metering.
pub record Meter : Type 0 where
  pub fuel_metering : Bool
  pub fuel : ℤ

abbrev pub is_spent : ℤ → Bool
is_spent (pos n) = false
is_spent (negsuc n) = true

abbrev limit_of : ℤ → ℕ → ℕ
limit_of (negsuc n) chunk = 0
limit_of (pos n) chunk =
    if ltb (u64_max / bulk_items_per_fuel) (n + 1)
    then chunk
    else if ltb chunk ((n + 1) * bulk_items_per_fuel)
    then chunk
    else (n + 1) * bulk_items_per_fuel

-- `wah_bulk_fuel_limit`
unfoldable pub bulk_fuel_limit : Meter → ℕ → ℕ
bulk_fuel_limit m chunk = if m.fuel_metering then limit_of m.fuel chunk else chunk

abbrev pub minus : ℤ → ℕ → ℤ
minus (pos n) k = sub_ℕ n k
minus (negsuc n) k = negsuc (n + k)

-- `wah_bulk_fuel_charge`
unfoldable pub bulk_fuel_charge : Meter → ℕ → Meter
bulk_fuel_charge m chunk =
    if m.fuel_metering && ltb 0 chunk
    then record m { fuel = minus m.fuel ((chunk + bulk_items_per_fuel - 1) / bulk_items_per_fuel) }
    else m

-- `wah_bulk_should_stop`
unfoldable pub bulk_should_stop : Bool → Meter → Bool
bulk_should_stop flag m = flag || (m.fuel_metering && is_spent m.fuel)

abbrev pub Memory : Type 0
Memory = ℕ → ℕ

-- memset and memmove, the latter as if through a copy.
abbrev pub memset : Memory → ℕ → ℕ → ℕ → Memory
memset mem dst val n p = if leb dst p && ltb p (dst + n) then val else mem p

abbrev pub memmove : Memory → ℕ → Memory → ℕ → ℕ → Memory
memmove mem dst from src n p =
    if leb dst p && ltb p (dst + n) then from (src + (p - dst)) else mem p

-- The size of the next chunk.
abbrev pub next_chunk : Meter → ℕ → ℕ → ℕ
next_chunk m size done =
    bulk_fuel_limit m
      (if ltb (size - done) bulk_check_interval then size - done else bulk_check_interval)

-- The loop of all bulk operations: `chunk_at done n mem` moves `n` items. The result is the progress, the
-- memory and the fuel, or nothing where the rounds do not suffice.
module _ (interrupted : ℕ → Bool) (size : ℕ) (chunk_at : ℕ → ℕ → Memory → Memory) where
  unfoldable pub bulk_loop : ℕ → Meter → ℕ → Memory → Option (ℕ × Memory × Meter)
  unfolding bulk_fuel_limit bulk_fuel_charge bulk_should_stop
  bulk_loop zero m done mem = none
  bulk_loop (suc rounds) m done mem =
      let n = next_chunk m size done in
      let m' = bulk_fuel_charge m n in
      let rest = bulk_loop rounds m' (done + n) (chunk_at done n mem) in
      if not (ltb done size)
      then some (size, mem, m)
      else if ltb (done + n) size && bulk_should_stop (interrupted (done + n)) m'
      then some (done + n, chunk_at done n mem, m')
      else rest

-- `wah_memory_fill_internal`
unfoldable pub memory_fill : (ℕ → Bool) → Meter → Memory → ℕ → ℕ → ℕ → Option (ℕ × Memory × Meter)
unfolding bulk_loop
memory_fill interrupted m mem dst val size =
    bulk_loop interrupted size (λ done n mem. memset mem (dst + done) val n) (size + 2) m 0 mem

-- `wah_memory_init_internal`, from the bytes of a data segment.
unfoldable pub memory_init :
    (ℕ → Bool) → Meter → Memory → ℕ → Memory → ℕ → ℕ → Option (ℕ × Memory × Meter)
unfolding bulk_loop
memory_init interrupted m mem dest_offset src_data src_offset size =
    bulk_loop interrupted size
      (λ done n mem. memmove mem (dest_offset + done) src_data (src_offset + done) n) (size + 2) m 0
      mem

abbrev pub copy_chunk : ℕ → ℕ → ℕ → Bool → ℕ → ℕ → Memory → Memory
copy_chunk dest src size backward done n mem =
    if backward
    then memmove mem (dest + (size - done) - n) mem (src + (size - done) - n) n
    else memmove mem (dest + done) mem (src + done) n

-- `wah_memory_copy_internal` within one memory.
unfoldable pub memory_copy :
    (ℕ → Bool) → Meter → Memory → ℕ → ℕ → ℕ → Bool → Option (ℕ × Memory × Meter)
unfolding bulk_loop
memory_copy interrupted m mem dest src size backward =
    bulk_loop interrupted size (copy_chunk dest src size backward) (size + 2) m 0 mem
