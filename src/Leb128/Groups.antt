-- ===== src/Leb128/Groups.antt =====
-- What a LEB128 number means, in plain arithmetic: groups of seven bits, lowest first.
use native.Mathlib.Numerals.{towards_suc}
use native.Mathlib.Nat.{pow-le-pow_right}
use wah.Base.{ℕ, zero, suc, ◌+◌, ◌*◌, ◌/◌, ◌%◌, ◌^◌, ◌≤◌, ◌<◌, bit_and}
use wah.Base.{List, [], ◌∷◌, ◌==◌, if◌then◌else◌, ◌≡◌, arith, ap}
use wah.Base.Bits.{and_mask, and_bit, or_shifted}
use wah.Status.{Result, ok, err, unexpected_eof, too_large, ◌>>=◌}
use wah.Leb128.{add_group}

pub record Groups : Type 0 where
  pub value : ℕ
  pub count : ℕ
  pub rest : List ℕ

abbrev pub below_group : ℕ → Groups → Groups
below_group b g = record { value = b % 128 + 128 * g.value; count = g.count + 1; rest = g.rest }

-- At most `k` groups; a byte with its top bit clear is the last.
unfoldable pub read_groups : ℕ → List ℕ → Result Groups
read_groups zero bs = err too_large
read_groups (suc k) [] = err unexpected_eof
read_groups (suc k) (b ∷ bs) =
    let more = read_groups k bs in
    if b / 128 % 2 == 0
    then ok (record { value = b % 128; count = 1; rest = bs })
    else (more >>= λ g. ok (below_group b g))

pub low_group : (b : ℕ) → bit_and b 0x7f ≡ b % 128
low_group b = and_mask 7 b

pub last_group : (b : ℕ) → bit_and b 0x80 ≡ b / 128 % 2 * 128
last_group b = and_bit 7 b

-- The top bit of a byte says that another one follows.
pub stop_bit : (b : ℕ) → (bit_and b 0x80 == 0) ≡ (b / 128 % 2 == 0)
stop_bit b = rw (last_group b) (ground arith)

pub shift_seven : (s : ℕ) → 2 ^ (s + 7) ≡ 128 * 2 ^ s
shift_seven s = simp towards_suc (omega arith)

-- Where the shift cannot push bits out, adding a group adds its number.
pub add_group_lem :
    (val b s : ℕ)
    → val < 2 ^ s
    → s + 7 ≤ 64
    → (add_group val b s ≡ val + b % 128 * 2 ^ s) × (add_group val b s < 2 ^ (s + 7))
unfolding add_group
add_group_lem val b s h fits =
    let top : 2 ^ (s + 7) ≤ 2 ^ 64 = pow-le-pow_right (omega arith) fits in
    let small : b % 128 * 2 ^ s + 2 ^ s ≤ 128 * 2 ^ s = grind arith in
    let e : add_group val b s ≡ val + b % 128 * 2 ^ s =
      rw (low_group b) (ground (arith, shift_seven s, or_shifted s val (b % 128))) in
    (e, omega (arith, shift_seven s))

-- The next group's number, and those above it, from `s` bits on.
pub regroup : (b v s : ℕ) → b % 128 * 2 ^ s + v * 2 ^ (s + 7) ≡ (b % 128 + 128 * v) * 2 ^ s
regroup b v s = omega (arith, ap (λ (t : ℕ). v * t) (shift_seven s))

-- A tenth byte of 0 or 1 still fits 64 bits.
pub add_group_tenth :
    (val b : ℕ) → val < 2 ^ 63 → b ≤ 1 → add_group val b 63 ≡ val + b % 128 * 2 ^ 63
unfolding add_group
add_group_tenth val b h hb = rw (low_group b) (ground (arith, or_shifted 63 val (b % 128)))
