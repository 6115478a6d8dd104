-- ===== src/Leb128/Unsigned.antt =====
-- The unsigned decoders against the meaning of the groups.
use wah.Base.{ℕ, zero, suc, ◌+◌, ◌*◌, ◌/◌, ◌%◌, ◌^◌, ◌≤◌, ◌<◌, List, [], ◌∷◌, ◌≡◌, refl, ◌∙◌, arith}
use wah.Base.{leb, ◌==◌, if◌then◌else◌, u32_max, u64_max, Bool-cases, inl, inr, IsByte, All}
use native.Mathlib.Nat.{pow-le-pow_right}
use wah.Status.{Result, ok, err, too_large, ◌>>=◌}
use wah.Leb128.{
  Decoded, add_group, uleb128_loop, decode_uleb128, uleb128_64_loop, decode_uleb128_64,
}
use wah.Leb128.Groups.{Groups, read_groups, stop_bit, add_group_lem, add_group_tenth, regroup}
use wah.Leb128.Groups.{below_group}

-- What a decoder of unsigned numbers up to `limit` answers, given the groups.
abbrev pub bounded : ℕ → ℕ → ℕ → Result Groups → Decoded ℕ
bounded limit val s (err e) = err e
bounded limit val s (ok g) =
    if leb (val + g.value * 2 ^ s) limit then ok (val + g.value * 2 ^ s, g.rest) else err too_large

from_zero :
    (limit : ℕ) (r : Result Groups)
    → bounded limit 0 0 r
      ≡ (r >>= λ g. if leb g.value limit then ok (g.value, g.rest) else err too_large)
from_zero limit (err e) = refl
from_zero limit (ok g) = ground arith

bounded_below :
    (limit val b s : ℕ) (r : Result Groups)
    → bounded limit (val + b % 128 * 2 ^ s) (s + 7) r
      ≡ bounded limit val s (r >>= λ g. ok (below_group b g))
bounded_below limit val b s (err e) = refl
bounded_below limit val b s (ok g) = ground (arith, regroup b g.value s)

uleb128_loop-read_groups :
    (k : ℕ) (bs : List ℕ) (val s : ℕ)
    → val < 2 ^ s
    → s + 7 * k ≤ 35
    → uleb128_loop k bs val s ≡ bounded u32_max val s (read_groups k bs)
unfolding uleb128_loop read_groups
uleb128_loop-read_groups zero bs val s h hs = refl
uleb128_loop-read_groups (suc k) [] val s h hs = refl
uleb128_loop-read_groups (suc k) (b ∷ bs) val s h hs =
    let (e, small) = add_group_lem val b s h (omega arith) in
    elim (Bool-cases (b / 128 % 2 == 0)) [
      | inl last ↦ rw (stop_bit b, last, e)
      | inr more ↦
          rw (stop_bit b, more)
            (uleb128_loop-read_groups k bs (add_group val b s) (s + 7) small (omega arith)
              ∙ rw e (bounded_below u32_max val b s (read_groups k bs)))
    ]

-- The tenth round of the 64-bit decoder: any bit above the lowest is too large.
tenth_round :
    (b : ℕ) (bs : List ℕ) (val : ℕ)
    → IsByte b
    → val < 2 ^ 63
    → uleb128_64_loop 1 (b ∷ bs) val 63 ≡ bounded u64_max val 63 (read_groups 1 (b ∷ bs))
unfolding uleb128_64_loop read_groups
tenth_round b bs val hb h = rw (stop_bit b) (ground (arith, add_group_tenth val b h))

fits_64 : (s n : ℕ) → n < 2 ^ (s + 7) → s + 7 ≤ 64 → n ≤ u64_max
fits_64 s n h hs = let top : 2 ^ (s + 7) ≤ 2 ^ 64 = pow-le-pow_right (omega arith) hs in omega arith

-- The loop of the 64-bit decoder has one round left exactly when the shift is 63.
uleb128_64_loop-read_groups :
    (k : ℕ) (bs : List ℕ) (val s : ℕ)
    → All IsByte bs
    → val < 2 ^ s
    → s + 7 * k ≡ 70
    → uleb128_64_loop k bs val s ≡ bounded u64_max val s (read_groups k bs)
unfolding uleb128_64_loop read_groups
uleb128_64_loop-read_groups zero bs val s hb h hs = refl
uleb128_64_loop-read_groups (suc k) [] val s hb h hs = refl
uleb128_64_loop-read_groups (suc zero) (b ∷ bs) val s hb h hs =
    let e : s ≡ 63 = omega arith in
    let h63 : val < 2 ^ 63 = rw e at h in rw e (tenth_round b bs val hb.0 h63)
uleb128_64_loop-read_groups (suc (suc k)) (b ∷ bs) val s hb h hs =
    let (e, small) = add_group_lem val b s h (omega arith) in
    let ih =
      uleb128_64_loop-read_groups (suc k) bs (add_group val b s) (s + 7) hb.1 small (omega arith) in
    elim (Bool-cases (b / 128 % 2 == 0)) [
      | inl last ↦
          rw (stop_bit b, last, e)
            (ground (arith, fits_64 s (val + b % 128 * 2 ^ s) (rw e at small) (omega arith)))
      | inr more ↦
          rw (stop_bit b, more) (ih ∙ rw e (bounded_below u64_max val b s (read_groups (suc k) bs)))
    ]

-- The 32-bit decoder returns the number that up to five groups stand for, if it is at most UINT32_MAX,
-- with the bytes behind them; TOO_LARGE above that or without an end within five bytes; UNEXPECTED_EOF
-- if the input ends first.
pub decode_uleb128_lem :
    (bs : List ℕ)
    → decode_uleb128 bs ≡ (
        read_groups 5 bs >>= λ g.
        if leb g.value u32_max then ok (g.value, g.rest) else err too_large)
unfolding decode_uleb128
decode_uleb128_lem bs =
    uleb128_loop-read_groups 5 bs 0 0 (omega arith) (omega arith)
    ∙ from_zero u32_max (read_groups 5 bs)

-- On bytes, the 64-bit decoder returns the number that up to ten groups stand for, if it is at most
-- UINT64_MAX, with the bytes behind them; TOO_LARGE above that or without an end within ten bytes;
-- UNEXPECTED_EOF if the input ends first.
pub decode_uleb128_64_lem :
    (bs : List ℕ)
    → All IsByte bs
    → decode_uleb128_64 bs ≡ (
        read_groups 10 bs >>= λ g.
        if leb g.value u64_max then ok (g.value, g.rest) else err too_large)
unfolding decode_uleb128_64
decode_uleb128_64_lem bs hb =
    uleb128_64_loop-read_groups 10 bs 0 0 hb (omega arith) (omega arith)
    ∙ from_zero u64_max (read_groups 10 bs)
