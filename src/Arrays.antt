-- ===== src/Arrays.antt =====
-- Growable arrays: `wah_grow_array` and `wah_grow_array_pow2`. Whether `wah_realloc` succeeds for a
-- number of elements is a parameter, since the allocator is the host's.
pub mod Growth
mod Tests
use wah.Base.{
  ℕ, zero, suc, ◌-◌, ◌*◌, ◌/◌, Bool, true, false, leb, ltb, ◌==◌, if◌then◌else◌, bit_and, u32_max,
}
use wah.Status.{Result, ok, err, too_large, out_of_memory, ◌>>=◌, ◌>>◌, ensure}

-- `while (new_cap < needed)`; the first number is the rounds that may be left.
unfoldable pub grow_loop : ℕ → ℕ → ℕ → Result ℕ
grow_loop zero new_cap needed = ok new_cap
grow_loop (suc fuel) new_cap needed =
    let again = grow_loop fuel (new_cap * 2) needed in
    if ltb new_cap needed
    then (if leb new_cap (u32_max / 2) then again else err too_large)
    else ok new_cap

-- The new capacity. A capacity is at least 1 once set, so 32 doublings pass UINT32_MAX.
unfoldable pub grow_array : (ℕ → Bool) → ℕ → ℕ → Result ℕ
unfolding grow_loop
grow_array realloc needed cap = if leb needed cap then ok cap else do
  ensure (leb needed u32_max) too_large
  new_cap ← grow_loop 32 (if cap == 0 then 8 else cap) needed
  ensure (realloc new_cap) out_of_memory
  ok new_cap

-- The capacity after making room for element `count`, given the capacity before.
pub grow_array_pow2 : (ℕ → Bool) → ℕ → ℕ → Result ℕ
grow_array_pow2 realloc count cap =
    if bit_and count (count - 1) == 0
    then (if leb count (u32_max / 2)
        then (let new_cap = (if count == 0 then 1 else count * 2) in
            if realloc new_cap then ok new_cap else err out_of_memory)
        else err too_large)
    else ok cap
