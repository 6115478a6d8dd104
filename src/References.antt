-- ===== src/References.antt =====
-- References to 31-bit integers, on a 64-bit target.
pub mod RoundTrip
mod Tests
use wah.Base.{
  ℕ, ◌+◌, ◌-◌, ◌*◌, ◌/◌, ◌%◌, ◌^◌, Bool, true, false, not, ◌==◌, ltb, if◌then◌else◌, bit_and,
  bit_or,
}
use wah.Base.Int.{ℤ, pos, negsuc}

abbrev pub i31_tag : ℕ
i31_tag = 1

-- `wah_ref_is_i31`
unfoldable pub ref_is_i31 : ℕ → Bool
ref_is_i31 ref = not (bit_and ref i31_tag == 0)

-- The bit pattern of an `int32_t`.
abbrev pub bits32 : ℤ → ℕ
bits32 (pos n) = n % 4294967296
bits32 (negsuc n) = (4294967296 - (n + 1)) % 4294967296

-- `wah_ref_make_i31`
unfoldable pub ref_make_i31 : ℤ → ℕ
ref_make_i31 value = bit_or (bit_and (bits32 value) (2 ^ 31 - 1) * 2) i31_tag

-- `wah_ref_i31_get_u`
unfoldable pub ref_i31_get_u : ℕ → ℕ
ref_i31_get_u ref = bit_and (ref / 2 % 4294967296) (2 ^ 31 - 1)

-- `wah_ref_i31_get_s`; a pattern with its top bit is negative as an `int32_t`.
unfoldable pub ref_i31_get_s : ℕ → ℤ
unfolding ref_i31_get_u
ref_i31_get_s ref =
    let val = ref_i31_get_u ref in
    if bit_and val (2 ^ 30) == 0 then pos val else negsuc (2147483647 - val)
