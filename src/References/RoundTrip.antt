-- ===== src/References/RoundTrip.antt =====
-- A reference to a 31-bit integer, and both readings of it.
use wah.Base.{ℕ, ◌+◌, ◌*◌, ◌/◌, ◌%◌, ◌<◌, ◌≡◌, ap, ◌∙◌, true, arith, bit_and, bit_or}
use wah.Base.Int.{ℤ, pos, negsuc}
use wah.Base.Bits.{or_step, or_shifted, and_mask, and_bit}
use wah.References.{bits32, ref_is_i31, ref_make_i31, ref_i31_get_u, ref_i31_get_s}

abbrev low : ℤ → ℕ
low v = bits32 v % 2147483648

odd_or : (x : ℕ) → x < 2147483648 → bit_or (x * 2) 1 ≡ x * 2 + 1
odd_or x h =
    let s = or_step (x * 2) 1 in
    let e : x * 2 / 2 ≡ x = omega arith in
    let f = ap (λ y. bit_or y 0) e in let z = or_shifted 31 x 0 h in omega (arith, s, f, z)

make-sum : (v : ℤ) → ref_make_i31 v ≡ low v * 2 + 1
unfolding ref_make_i31
make-sum v = ap (λ x. bit_or (x * 2) 1) (and_mask 31 (bits32 v)) ∙ odd_or (low v) (omega arith)

ref_is_i31-make : (v : ℤ) → ref_is_i31 (ref_make_i31 v) ≡ true
unfolding ref_is_i31
ref_is_i31-make v = ground (arith, make-sum v, and_bit 0 (ref_make_i31 v))

get_u-make : (v : ℤ) → ref_i31_get_u (ref_make_i31 v) ≡ low v
unfolding ref_i31_get_u
get_u-make v = ground (arith, make-sum v, and_mask 31 (ref_make_i31 v / 2 % 4294967296))

-- The integers of 31 bits with a sign.
abbrev pub InI31 : ℤ → Type 0
InI31 (pos n) = n < 1073741824
InI31 (negsuc n) = n < 1073741824

get_s-value : (u : ℕ) → bit_and u 1073741824 ≡ u / 1073741824 % 2 * 1073741824
get_s-value u = and_bit 30 u

-- An integer of 31 bits made into a reference is recognized as such, and is read back, with its sign
-- or as its 31 bits.
pub ref_i31-round_trip :
    (v : ℤ)
    → InI31 v
    → (ref_is_i31 (ref_make_i31 v) ≡ true)
      × (ref_i31_get_s (ref_make_i31 v) ≡ v)
      × (ref_i31_get_u (ref_make_i31 v) ≡ bits32 v % 2147483648)
unfolding ref_i31_get_s
ref_i31-round_trip (pos n) h =
    let u = get_u-make (pos n) in
    let b = get_s-value (ref_i31_get_u (ref_make_i31 (pos n))) in
    (ref_is_i31-make (pos n), ground arith, u)
ref_i31-round_trip (negsuc n) h =
    let u = get_u-make (negsuc n) in
    let b = get_s-value (ref_i31_get_u (ref_make_i31 (negsuc n))) in
    (ref_is_i31-make (negsuc n), ground arith, u)
