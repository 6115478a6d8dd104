-- ===== src/Leb128.antt =====
-- The LEB128 decoders of wah.h. `*ptr` and `end` are one list, the bytes not yet read: `*ptr < end`
-- is a nonempty list, and `*(*ptr)++` takes its head. A decoder returns the value and the rest.
pub mod Groups
pub mod Unsigned
pub mod Signed
pub mod Signed64
pub mod Encode
mod Tests
use wah.Base.{ℕ, zero, suc, ◌+◌, ◌-◌, ◌*◌, ◌^◌, bit_and, bit_or, List, [], ◌∷◌, ◌&&◌, ◌||◌}
use wah.Base.{ltb, leb, ◌==◌, if◌then◌else◌, u64, u32_max, signed64}
use wah.Base.Int.{ℤ, pos, negsuc, leb_ℤ}
use wah.Status.{Result, ok, err, unexpected_eof, too_large, ◌>>=◌, ◌>>◌, ensure}

abbrev pub Decoded : Type 0 → Type 0
Decoded A = Result (A × List ℕ)

-- `val |= (uint64_t)(byte & 0x7F) << shift`
unfoldable pub add_group : ℕ → ℕ → ℕ → ℕ
add_group val b shift = bit_or val (u64 (bit_and b 0x7f * 2 ^ shift))

-- The number is the rounds left of `for (int i = 0; i < 5; ++i)`.
unfoldable pub uleb128_loop : ℕ → List ℕ → ℕ → ℕ → Decoded ℕ
uleb128_loop zero bs val shift = err too_large
uleb128_loop (suc k) [] val shift = err unexpected_eof
uleb128_loop (suc k) (b ∷ bs) val shift =
    let val' = add_group val b shift in
    let more = uleb128_loop k bs val' (shift + 7) in
    if bit_and b 0x80 == 0
    then (if leb val' u32_max then ok (val', bs) else err too_large)
    else more

unfoldable pub decode_uleb128 : List ℕ → Decoded ℕ
decode_uleb128 bs = uleb128_loop 5 bs 0 0

-- With `suc k` rounds left of ten, `i` is `9 - k`.
unfoldable pub uleb128_64_loop : ℕ → List ℕ → ℕ → ℕ → Decoded ℕ
uleb128_64_loop zero bs val shift = err too_large
uleb128_64_loop (suc k) [] val shift = err unexpected_eof
uleb128_64_loop (suc k) (b ∷ bs) val shift =
    let val' = add_group val b shift in
    let more = uleb128_64_loop k bs val' (shift + 7) in
    if bit_and b 0x80 == 0
    then (if k == 0 && ltb 1 b then err too_large else ok (val', bs))
    else more

unfoldable pub decode_uleb128_64 : List ℕ → Decoded ℕ
decode_uleb128_64 bs = uleb128_64_loop 10 bs 0 0

-- `if (val & (1ULL << (shift - 1))) val |= ~0ULL << shift`, where the shift is below 64.
pub sign_extend : ℕ → ℕ → ℕ
sign_extend val shift =
    if ltb shift 64
    then (if bit_and val (2 ^ (shift - 1)) == 0
        then val
        else bit_or val (u64 ((2 ^ 64 - 1) * 2 ^ shift)))
    else val

abbrev pub i32_min : ℤ
i32_min = negsuc (2 ^ 31 - 1)

abbrev pub i32_max : ℤ
i32_max = pos (2 ^ 31 - 1)

pub sleb128_32_loop : ℕ → List ℕ → ℕ → ℕ → Decoded ℤ
sleb128_32_loop zero bs val shift = err too_large
sleb128_32_loop (suc k) [] val shift = err unexpected_eof
sleb128_32_loop (suc k) (b ∷ bs) val shift =
    let val' = add_group val b shift in
    let more = sleb128_32_loop k bs val' (shift + 7) in
    let extended = sign_extend val' (shift + 7) in
    if bit_and b 0x80 == 0
    then (if leb_ℤ i32_min (signed64 extended) && leb_ℤ (signed64 extended) i32_max
        then ok (signed64 extended, bs)
        else err too_large)
    else more

pub decode_sleb128_32 : List ℕ → Decoded ℤ
decode_sleb128_32 bs = sleb128_32_loop 5 bs 0 0

-- The `do … while` loop: the value, the shift and the last byte when it stops. Each round takes a byte.
pub sleb128_64_loop : List ℕ → ℕ → ℕ → Decoded (ℕ × ℕ × ℕ)
sleb128_64_loop [] val shift = err unexpected_eof
sleb128_64_loop (b ∷ bs) val shift =
    let val' = add_group val b shift in
    let more = sleb128_64_loop bs val' (shift + 7) in
    if ltb shift 64
    then (if bit_and b 0x80 == 0 then ok ((val', shift + 7, b), bs) else more)
    else err too_large

pub sleb128_64_end : ℕ → ℕ → ℕ → List ℕ → Decoded ℤ
sleb128_64_end val shift b bs =
    if shift == 70
    then (if b == 0x00 || b == 0x7f then ok (signed64 val, bs) else err too_large)
    else ok (signed64 (sign_extend val shift), bs)

pub decode_sleb128_64 : List ℕ → Decoded ℤ
decode_sleb128_64 bs = do
  ((val, shift, b), rest) ← sleb128_64_loop bs 0 0
  sleb128_64_end val shift b rest
