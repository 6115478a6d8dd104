-- ===== src/Leb128/Signed.antt =====
-- The signed decoders against the meaning of the groups: two's complement over all bits read.
use native.Mathlib.Nat.{pow-le-pow_right, one-le-pow, pow-suc}
use wah.Base.{
  ℕ, zero, suc, ◌+◌, ◌-◌, ◌*◌, ◌/◌, ◌%◌, ◌^◌, ◌≤◌, ◌<◌, List, [], ◌∷◌, ◌≡◌, refl, ◌∙◌, arith,
}
use wah.Base.{ltb, ◌==◌, if◌then◌else◌, Bool-cases, inl, inr, signed64, ◌&&◌}
use mathlib.Core.Path.{ap₂}
use wah.Base.Bits.{top_bit, or_high_ones}
use wah.Base.Int.{ℤ, pos, negsuc, leb_ℤ}
use wah.Status.{Result, ok, err, too_large, ◌>>=◌}
use wah.Leb128.{
  Decoded, add_group, sign_extend, i32_min, i32_max, sleb128_32_loop, decode_sleb128_32,
}
use wah.Leb128.Groups.{Groups, read_groups, stop_bit, add_group_lem, regroup, below_group}

-- The integer that `bits` bits stand for in two's complement.
abbrev pub twos : ℕ → ℕ → ℤ
twos bits v = if ltb v (2 ^ (bits - 1)) then pos v else negsuc (2 ^ bits - v - 1)

-- Sign extension to 64 bits keeps the integer.
pub signed64-sign_extend :
    (s v : ℕ) → 0 < s → s < 64 → v < 2 ^ s → signed64 (sign_extend v s) ≡ twos s v
unfolding sign_extend
signed64-sign_extend zero v h0 h64 hv = absurd (omega arith)
signed64-sign_extend (suc t) v h0 h64 hv = ground (
  arith,
  top_bit t v hv,
  or_high_ones (suc t) v (omega arith) hv,
  pow-suc 2 t,
  one-le-pow t 2,
  pow-le-pow_right {n = 2} (omega arith) {i = suc t} {j = 63} (omega arith),
)

-- What a decoder answers with integers from `lo` to `hi`, given the groups from bit `s` on.
module _ (lo hi : ℤ) where
  abbrev pub in_range : ℤ → List ℕ → Decoded ℤ
  in_range v rest = if leb_ℤ lo v && leb_ℤ v hi then ok (v, rest) else err too_large

  abbrev pub signed_from : ℕ → ℕ → Result Groups → Decoded ℤ
  signed_from val s (err e) = err e
  signed_from val s (ok g) = in_range (twos (s + 7 * g.count) (val + g.value * 2 ^ s)) g.rest

  signed_below :
      (val b s : ℕ) (r : Result Groups)
      → signed_from (val + b % 128 * 2 ^ s) (s + 7) r
        ≡ signed_from val s (r >>= λ g. ok (below_group b g))
  signed_below val b s (err e) = refl
  signed_below val b s (ok g) =
      let bits : s + 7 + 7 * g.count ≡ s + 7 * (g.count + 1) = omega arith in
      let sum : val + b % 128 * 2 ^ s + g.value * 2 ^ (s + 7)
          ≡ val + (b % 128 + 128 * g.value) * 2 ^ s =
        omega (arith, regroup b g.value s) in
      ap₂ (λ (n : ℕ) (v : ℕ). in_range (twos n v) g.rest) bits sum

  signed_zero :
      (r : Result Groups)
      → signed_from 0 0 r ≡ (r >>= λ g. in_range (twos (7 * g.count) g.value) g.rest)
  signed_zero (err e) = refl
  signed_zero (ok g) =
      let bits : 0 + 7 * g.count ≡ 7 * g.count = omega arith in
      let sum : 0 + g.value * 2 ^ 0 ≡ g.value = omega arith in
      ap₂ (λ (n : ℕ) (v : ℕ). in_range (twos n v) g.rest) bits sum

sleb128_32_loop-read_groups :
    (k : ℕ) (bs : List ℕ) (val s : ℕ)
    → val < 2 ^ s
    → s + 7 * k ≤ 35
    → sleb128_32_loop k bs val s ≡ signed_from i32_min i32_max val s (read_groups k bs)
unfolding sleb128_32_loop read_groups
sleb128_32_loop-read_groups zero bs val s h hs = refl
sleb128_32_loop-read_groups (suc k) [] val s h hs = refl
sleb128_32_loop-read_groups (suc k) (b ∷ bs) val s h hs =
    let (e, small) = add_group_lem val b s h (omega arith) in
    let value =
      signed64-sign_extend (s + 7) (add_group val b s) (omega arith) (omega arith) small in
    elim (Bool-cases (b / 128 % 2 == 0)) [
      | inl last ↦ rw (stop_bit b, last, value, e) refl
      | inr more ↦
          rw (stop_bit b, more)
            (sleb128_32_loop-read_groups k bs (add_group val b s) (s + 7) small (omega arith)
              ∙ rw e (signed_below i32_min i32_max val b s (read_groups k bs)))
    ]

-- The 32-bit decoder returns the integer of up to five groups if it is an int32_t, and TOO_LARGE or
-- UNEXPECTED_EOF otherwise.
pub decode_sleb128_32_lem :
    (bs : List ℕ)
    → decode_sleb128_32 bs
      ≡ (read_groups 5 bs >>= λ g. in_range i32_min i32_max (twos (7 * g.count) g.value) g.rest)
unfolding decode_sleb128_32
decode_sleb128_32_lem bs =
    sleb128_32_loop-read_groups 5 bs 0 0 (omega arith) (omega arith)
    ∙ signed_zero i32_min i32_max (read_groups 5 bs)
