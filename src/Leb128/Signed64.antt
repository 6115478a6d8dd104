-- ===== src/Leb128/Signed64.antt =====
-- The 64-bit signed decoder, whose `do … while` loop has no bound of its own on the rounds.
use wah.Base.{
  ℕ, zero, suc, ◌+◌, ◌-◌, ◌*◌, ◌/◌, ◌%◌, ◌^◌, ◌≤◌, ◌<◌, List, [], ◌∷◌, ◌≡◌, refl, ◌∙◌, arith, sym,
  ap, false, lt→ltb,
}
use wah.Base.{leb, ◌==◌, if◌then◌else◌, Bool-cases, inl, inr, IsByte, All}
use wah.Base.Int.{ℤ, pos, negsuc}
use wah.Base.Bits.{or_shifted}
use mathlib.Core.Path.{ap₂}
use native.Mathlib.Nat.{pow-le-pow_right, one-le-pow}
use wah.Status.{Result, ok, err, too_large, ◌>>=◌}
use wah.Leb128.{Decoded, add_group, sleb128_64_loop, sleb128_64_end, decode_sleb128_64}
use wah.Leb128.Groups.{
  Groups, read_groups, stop_bit, add_group_lem, regroup, below_group, low_group,
}
use wah.Leb128.Signed.{twos, in_range, signed64-sign_extend}

abbrev pub i64_min : ℤ
i64_min = negsuc (2 ^ 63 - 1)

abbrev pub i64_max : ℤ
i64_max = pos (2 ^ 63 - 1)

-- More than ten groups are too large whatever their integer is.
abbrev pub in_i64 : ℕ → ℕ → List ℕ → Decoded ℤ
in_i64 bits v rest =
    if leb bits 70 then in_range i64_min i64_max (twos bits v) rest else err too_large

abbrev pub i64_from : ℕ → ℕ → Result Groups → Decoded ℤ
i64_from val s (err e) = err e
i64_from val s (ok g) = in_i64 (s + 7 * g.count) (val + g.value * 2 ^ s) g.rest

abbrev finish : Decoded (ℕ × ℕ × ℕ) → Decoded ℤ
finish r = r >>= λ p. sleb128_64_end p.0.0 p.0.1 p.0.2 p.1

i64_below :
    (val b s : ℕ) (r : Result Groups)
    → i64_from (val + b % 128 * 2 ^ s) (s + 7) r ≡ i64_from val s (r >>= λ g. ok (below_group b g))
i64_below val b s (err e) = refl
i64_below val b s (ok g) =
    let bits : s + 7 + 7 * g.count ≡ s + 7 * (g.count + 1) = omega arith in
    let sum : val + b % 128 * 2 ^ s + g.value * 2 ^ (s + 7)
        ≡ val + (b % 128 + 128 * g.value) * 2 ^ s =
      omega (arith, regroup b g.value s) in
    ap₂ (λ (n : ℕ) (v : ℕ). in_i64 n v g.rest) bits sum

i64_zero : (r : Result Groups) → i64_from 0 0 r ≡ (r >>= λ g. in_i64 (7 * g.count) g.value g.rest)
i64_zero (err e) = refl
i64_zero (ok g) =
    let bits : 0 + 7 * g.count ≡ 7 * g.count = omega arith in
    let sum : 0 + g.value * 2 ^ 0 ≡ g.value = omega arith in
    ap₂ (λ (n : ℕ) (v : ℕ). in_i64 n v g.rest) bits sum

twos-in_i64 :
    (bits v : ℕ) (rest : List ℕ)
    → bits ≤ 63
    → v < 2 ^ bits
    → in_i64 bits v rest ≡ ok (twos bits v, rest)
twos-in_i64 bits v rest hb hv =
    let top : 2 ^ bits ≤ 2 ^ 63 = pow-le-pow_right (omega arith) hb in
    ground (arith, one-le-pow bits 2)

-- A last byte with at most 63 bits in all.
early_end :
    (val b s : ℕ) (bs : List ℕ)
    → val < 2 ^ s
    → s + 7 ≤ 63
    → sleb128_64_end (add_group val b s) (s + 7) b bs
      ≡ in_i64 (s + 7 * 1) (val + b % 128 * 2 ^ s) bs
unfolding sleb128_64_end
early_end val b s bs h hs =
    let (e, small) = add_group_lem val b s h (omega arith) in
    let small' : val + b % 128 * 2 ^ s < 2 ^ (s + 7) = rw e at small in
    let value =
      signed64-sign_extend (s + 7) (add_group val b s) (omega arith) (omega arith) small in
    let not_ten : (s + 7 == 70) ≡ false = ground arith in
    rw (not_ten, value, e) (sym (twos-in_i64 (s + 7) _ bs hs small'))

-- The eleventh round stops on the shift, after its check for the end of the input.
eleventh_round :
    (bs : List ℕ) (val val' : ℕ)
    → finish (sleb128_64_loop bs val' 70) ≡ i64_from val 70 (read_groups 1 bs)
unfolding sleb128_64_loop read_groups
eleventh_round [] val val' = refl
eleventh_round (b ∷ bs) val val' = ground arith

-- The tenth group has bits 63 to 69, which must all be copies of the sign.
tenth_end :
    (b : ℕ) (bs : List ℕ) (val : ℕ)
    → b < 128
    → val < 2 ^ 63
    → sleb128_64_end (add_group val b 63) 70 b bs ≡ in_i64 70 (val + b * 2 ^ 63) bs
unfolding sleb128_64_end add_group
tenth_end b bs val hb h = rw (low_group b) (ground (arith, or_shifted 63 val (b % 2)))

tenth_round :
    (b : ℕ) (bs : List ℕ) (val : ℕ)
    → IsByte b
    → val < 2 ^ 63
    → finish (sleb128_64_loop (b ∷ bs) val 63) ≡ i64_from val 63 (read_groups 2 (b ∷ bs))
unfolding sleb128_64_loop read_groups
tenth_round b bs val hb h = elim (Bool-cases (b / 128 % 2 == 0)) [
  | inl last ↦
      let small : b < 128 = ground arith in
      let same : b ≡ b % 128 = omega arith in
      rw (stop_bit b, last)
        (tenth_end b bs val small h ∙ ap (λ (g : ℕ). in_i64 70 (val + g * 2 ^ 63) bs) same)
  | inr more ↦
      rw (stop_bit b, more)
        (eleventh_round bs (val + b % 128 * 2 ^ 63) (add_group val b 63)
          ∙ i64_below val b 63 (read_groups 1 bs))
]

sleb128_64_loop-read_groups :
    (k : ℕ) (bs : List ℕ) (val s : ℕ)
    → All IsByte bs
    → val < 2 ^ s
    → s + 7 * k ≡ 63
    → finish (sleb128_64_loop bs val s) ≡ i64_from val s (read_groups (suc (suc k)) bs)
unfolding sleb128_64_loop read_groups
sleb128_64_loop-read_groups k [] val s hb h hs = refl
sleb128_64_loop-read_groups zero (b ∷ bs) val s hb h hs =
    let e : s ≡ 63 = omega arith in
    let h63 : val < 2 ^ 63 = rw e at h in rw e (tenth_round b bs val hb.0 h63)
sleb128_64_loop-read_groups (suc k) (b ∷ bs) val s hb h hs =
    let (e, small) = add_group_lem val b s h (omega arith) in
    elim (Bool-cases (b / 128 % 2 == 0)) [
      | inl last ↦
          rw (lt→ltb s 64 (omega arith), stop_bit b, last) (early_end val b s bs h (omega arith))
      | inr more ↦
          rw (lt→ltb s 64 (omega arith), stop_bit b, more)
            (sleb128_64_loop-read_groups k bs (add_group val b s) (s + 7) hb.1 small (omega arith)
              ∙ rw e (i64_below val b s (read_groups (suc (suc k)) bs)))
    ]

-- On bytes, the 64-bit decoder returns the integer of up to ten groups if it is an int64_t, and
-- TOO_LARGE or UNEXPECTED_EOF otherwise; it looks for an eleventh byte before it answers TOO_LARGE.
pub decode_sleb128_64_lem :
    (bs : List ℕ)
    → All IsByte bs
    → decode_sleb128_64 bs ≡ (read_groups 11 bs >>= λ g. in_i64 (7 * g.count) g.value g.rest)
unfolding decode_sleb128_64
decode_sleb128_64_lem bs hb =
    sleb128_64_loop-read_groups 9 bs 0 0 hb (omega arith) (omega arith)
    ∙ i64_zero (read_groups 11 bs)
