-- ===== src/Arrays/Growth.antt =====
-- The size of a grown array (`wah_grow_array`).
use wah.Base.{
  ℕ, zero, suc, ◌*◌, ◌/◌, ◌^◌, ◌≤◌, ◌≡◌, refl, ap, sym, ◌∙◌, Bool, true, false, leb, ltb, ◌==◌,
  if◌then◌else◌, u32_max, arith, leb→le,
}
use native.Mathlib.Nat.{pow-succ', mul_assoc}
use wah.Status.{Result, ok, err, ensure, ◌>>=◌, ◌>>◌, >>=-eq-ok, ok-inj, too_large, out_of_memory}
use wah.Arrays.{grow_loop, grow_array}

-- With rounds enough to pass UINT32_MAX, the loop ends with room for the elements.
grow_loop-enough :
    (fuel capacity needed c : ℕ)
    → 4294967296 ≤ capacity * 2 ^ fuel
    → needed ≤ u32_max
    → grow_loop fuel capacity needed ≡ ok c
    → (needed ≤ c) × (capacity ≤ c)
unfolding grow_loop
grow_loop-enough zero capacity needed c hf hn h =
    let e = ok-inj h in (omega (arith, hf, hn, e), omega (arith, e))
grow_loop-enough (suc fuel) capacity needed c hf hn h =
    go (ltb capacity needed) (leb capacity (u32_max / 2)) refl h
      (grow_loop-enough fuel (capacity * 2) needed c (omega (arith, hf, twice)) hn)
  where
    twice : capacity * 2 ^ suc fuel ≡ capacity * 2 * 2 ^ fuel
    twice = ap (λ x. capacity * x) (pow-succ' 2 fuel) ∙ sym (mul_assoc capacity 2 (2 ^ fuel))

    go :
        (a b : Bool)
        → ltb capacity needed ≡ a
        → (if a
            then (if b then grow_loop fuel (capacity * 2) needed else err too_large)
            else ok capacity)
          ≡ ok c
        → (grow_loop fuel (capacity * 2) needed ≡ ok c → (needed ≤ c) × (capacity * 2 ≤ c))
        → (needed ≤ c) × (capacity ≤ c)
    go true true ea k ih = let (a, b) = ih k in (a, omega (arith, b))
    go true false ea k ih = cc
    go false b ea k ih = let e = ok-inj k in (ground (arith, e), omega (arith, e))

ensured : (b : Bool) {u : Unit {0}} → ensure b too_large ≡ ok u → b ≡ true
ensured true h = refl
ensured false h = cc

-- A grown array has room for the elements needed and is never made smaller.
pub grow_array-enough :
    (realloc : ℕ → Bool) (needed capacity c : ℕ)
    → grow_array realloc needed capacity ≡ ok c
    → (needed ≤ c) × (capacity ≤ c)
unfolding grow_array
grow_array-enough realloc needed capacity c h = go (leb needed capacity) refl h
  where
    start : ℕ
    start = if capacity == 0 then 8 else capacity

    grow : Result ℕ
    grow =
        ensure (leb needed u32_max) too_large
        >> (grow_loop 32 start needed >>= λ n. ensure (realloc n) out_of_memory >> ok n)

    go :
        (b : Bool)
        → leb needed capacity ≡ b
        → (if b then ok capacity else grow) ≡ ok c
        → (needed ≤ c) × (capacity ≤ c)
    go true e k = let i = ok-inj k in (ground (arith, i), omega (arith, i))
    go false e k =
        let (_, a, k1) = >>=-eq-ok (ensure (leb needed u32_max) too_large) _ k in
        let (n, l, k2) = >>=-eq-ok (grow_loop 32 start needed) _ k1 in
        let (_, _, k3) = >>=-eq-ok (ensure (realloc n) out_of_memory) _ k2 in
        let i = ok-inj k3 in
        let (x, y) =
          grow_loop-enough 32 start needed n (ground arith)
            (leb→le needed u32_max (ensured (leb needed u32_max) a)) l in
        (omega (arith, x, i), ground (arith, y, i))
