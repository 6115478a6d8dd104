-- ===== src/Base/Bits.antt =====
-- Laws of `&` and `|` for every width, from the digit recursion that the native operations stand for.
use Prim.Native.Nat.{ℕ, zero, suc, ◌+◌, ◌-◌, ◌*◌, ◌/◌, ◌%◌, ◌^◌, ◌≤◌, ◌<◌, min, max}
use Prim.Native.Nat.{bit_and, bit_or, digits, bit_and-bitwise, bit_or-bitwise}
use mathlib.Core.Path.{◌≡◌, refl, sym, ap, ◌∙◌}
use wah.Base.Tests.{ltb, ◌==◌}
use native.Mathlib.Nat.{pow-suc, one-le-pow, div-add-mod, add-zero, add-suc}
use native.Mathlib.Omega.{arith}

module _ (z : ℕ → ℕ) (f : ℕ → ℕ → ℕ) where
  -- Fuel above the first number changes nothing.
  digits_enough : (n m a b : ℕ) → a ≤ n → a ≤ m → digits z f n a b ≡ digits z f m a b
  digits_enough zero zero a b hn hm = refl
  digits_enough zero (suc m) zero b hn hm = refl
  digits_enough zero (suc m) (suc a) b hn hm = absurd (omega arith)
  digits_enough (suc n) zero zero b hn hm = refl
  digits_enough (suc n) zero (suc a) b hn hm = absurd (omega arith)
  digits_enough (suc n) (suc m) zero b hn hm = refl
  digits_enough (suc n) (suc m) (suc a) b hn hm =
      rw (digits_enough n m (suc a / 2) (b / 2) (omega arith) (omega arith))

  digits-suc :
      (a b : ℕ)
      → digits z f (suc a) (suc a) b
        ≡ digits z f (suc a / 2) (suc a / 2) (b / 2) * 2 + f (suc a % 2) (b % 2)
  digits-suc a b =
      omega (arith, digits_enough a (suc a / 2) (suc a / 2) (b / 2) (omega arith) (omega arith))

pub or_step : (a b : ℕ) → bit_or a b ≡ bit_or (a / 2) (b / 2) * 2 + max (a % 2) (b % 2)
or_step zero b = simp bit_or-bitwise (omega arith)
or_step (suc a) b = simp bit_or-bitwise (digits-suc (λ y. y) max a b)

pub and_step : (a b : ℕ) → bit_and a b ≡ bit_and (a / 2) (b / 2) * 2 + min (a % 2) (b % 2)
and_step zero b = simp bit_and-bitwise (omega arith)
and_step (suc a) b = simp bit_and-bitwise (digits-suc (λ y. 0) min a b)

zero-or : (b : ℕ) → bit_or 0 b ≡ b
zero-or b = bit_or-bitwise 0 b

and_zero_below : (k a : ℕ) → a ≤ k → bit_and a 0 ≡ 0
and_zero_below k zero h = bit_and-bitwise 0 0
and_zero_below zero (suc a) h = absurd (omega arith)
and_zero_below (suc k) (suc a) h =
    omega (arith, and_step (suc a) 0, and_zero_below k (suc a / 2) (omega arith))

and_zero : (a : ℕ) → bit_and a 0 ≡ 0
and_zero a = and_zero_below a a (omega arith)

-- `low | (high << k)` is a sum if `low` has at most `k` bits.
pub or_shifted : (k low high : ℕ) → low < 2 ^ k → bit_or low (high * 2 ^ k) ≡ low + high * 2 ^ k
or_shifted zero low high h =
    let e : low ≡ 0 = omega arith in rw e (omega (arith, zero-or (high * 2 ^ 0)))
or_shifted (suc k) low high h = ground (
  arith,
  or_step low (high * 2 ^ suc k),
  pow-suc 2 k,
  ap (λ (t : ℕ). high * t) (pow-suc 2 k),
  or_shifted k (low / 2) high (omega (arith, pow-suc 2 k)),
)

double_shift : (k q : ℕ) → q * 2 ^ suc k ≡ q * 2 ^ k * 2
double_shift k q = omega (arith, ap (λ (t : ℕ). q * t) (pow-suc 2 k))

-- Of `high : low`, with `k` bits below, a mask of `k` ones keeps `low`.
and_ones : (k low high : ℕ) → low < 2 ^ k → bit_and (low + high * 2 ^ k) (2 ^ k - 1) ≡ low
and_ones zero low high h = omega (arith, and_zero (low + high * 2 ^ 0))
and_ones (suc k) low high h = ground (
  arith,
  and_step (low + high * 2 ^ suc k) (2 ^ suc k - 1),
  double_shift k high,
  pow-suc 2 k,
  one-le-pow k 2,
  and_ones k (low / 2) high (omega (arith, pow-suc 2 k)),
)

-- And the single bit above `low` keeps the lowest bit of `high`.
and_single :
    (k low high : ℕ) → low < 2 ^ k → bit_and (low + high * 2 ^ k) (2 ^ k) ≡ high % 2 * 2 ^ k
and_single zero low high h =
    omega (arith, and_step (low + high * 2 ^ 0) 1, and_zero ((low + high * 2 ^ 0) / 2))
and_single (suc k) low high h = ground (
  arith,
  and_step (low + high * 2 ^ suc k) (2 ^ suc k),
  double_shift k high,
  double_shift k (high % 2),
  pow-suc 2 k,
  one-le-pow k 2,
  and_single k (low / 2) high (omega (arith, pow-suc 2 k)),
)

-- A mask of the lowest `k` bits.
pub and_mask : (k a : ℕ) → bit_and a (2 ^ k - 1) ≡ a % 2 ^ k
and_mask k a =
    ground (arith, one-le-pow k 2, and_ones k (a % 2 ^ k) (a / 2 ^ k), div-add-mod a (2 ^ k))

-- The test of bit `k`.
pub and_bit : (k a : ℕ) → bit_and a (2 ^ k) ≡ a / 2 ^ k % 2 * 2 ^ k
and_bit k a =
    ground (arith, one-le-pow k 2, and_single k (a % 2 ^ k) (a / 2 ^ k), div-add-mod a (2 ^ k))

-- The test of the top bit of a number of `t + 1` bits.
pub top_bit : (t v : ℕ) → v < 2 ^ suc t → (bit_and v (2 ^ t) == 0) ≡ ltb v (2 ^ t)
top_bit t v h =
    ground (arith, one-le-pow t 2, pow-suc 2 t, and_single t v 0, and_single t (v - 2 ^ t) 1)

two_pow_add : (a b : ℕ) → 2 ^ (a + b) ≡ 2 ^ a * 2 ^ b
two_pow_add a zero = rw add-zero (omega arith)
two_pow_add a (suc b) =
    rw add-suc
      (omega (arith, pow-suc 2 (a + b), two_pow_add a b, ap (λ (t : ℕ). 2 ^ a * t) (pow-suc 2 b)))

ones_above :
    (p a : ℕ)
    → 1 ≤ p
    → p * suc a ≡ 2 ^ 64
    → ((2 ^ 64 - 1) * p % 2 ^ 64 ≡ a * p) × (a * p ≡ 2 ^ 64 - p)
ones_above p a hp e = (omega arith, omega arith)

-- `low | (~0 << s)` at 64 bits sets every bit from `s` on.
pub or_high_ones :
    (s low : ℕ)
    → s ≤ 64
    → low < 2 ^ s
    → bit_or low ((2 ^ 64 - 1) * 2 ^ s % 2 ^ 64) ≡ low + (2 ^ 64 - 2 ^ s)
or_high_ones s low hs h =
    let a : ℕ = 2 ^ (64 - s) - 1 in
    let above : suc a ≡ 2 ^ (64 - s) = omega (arith, one-le-pow (64 - s) 2) in
    let sum : s + (64 - s) ≡ 64 = omega arith in
    let split : 2 ^ s * suc a ≡ 2 ^ 64 =
      rw above (sym (two_pow_add s (64 - s)) ∙ ap (λ (t : ℕ). 2 ^ t) sum) in
    let (ones, total) = ones_above (2 ^ s) a (one-le-pow s 2 (omega arith)) split in
    rw ones (omega (arith, or_shifted s low a h, total))
