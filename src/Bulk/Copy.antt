-- ===== src/Bulk/Copy.antt =====
-- Copies within one memory, whose ranges may overlap.
use wah.Base.{ℕ, ◌+◌, ◌-◌, ◌≤◌, ◌≡◌, ◌⊎◌, refl, ap, Bool, true, false, ◌&&◌, ltb, arith}
use mathlib.Core.Path.{subst}
use wah.Base.{Option, none, some}
use wah.Bulk.{Memory, Meter, memmove, memory_copy, copy_chunk, bulk_should_stop}
use wah.Bulk.Loop.{Ended, bulk_loop-Ended}

-- The bytes at `dst` are those that were at `src`, `d` of them, and all others are as before.
abbrev Copied : Memory → ℕ → ℕ → ℕ → Memory → Type 0
Copied before dst src d after = (p : ℕ) → after p ≡ memmove before dst before src d p

at_equal : (f : Memory) (a b : ℕ) → a ≡ b → f a ≡ f b
at_equal f a b e = ap f e

forward_step :
    (before : Memory) (dst src size done n : ℕ) (mem : Memory)
    → (dst ≤ src) ⊎ (src + size ≤ dst)
    → done + n ≤ size
    → Copied before dst src done mem
    → Copied before dst src (done + n) (memmove mem (dst + done) mem (src + done) n)
forward_step before dst src size done n mem o h f p =
    let here = f p in
    let there = f (src + done + (p - (dst + done))) in
    let same = at_equal before (src + done + (p - (dst + done))) (src + (p - dst)) in ground arith

-- The last `d` of `size` bytes.
abbrev CopiedTail : Memory → ℕ → ℕ → ℕ → ℕ → Memory → Type 0
CopiedTail before dst src size d after =
    (p : ℕ) → after p ≡ memmove before (dst + (size - d)) before (src + (size - d)) d p

backward_step :
    (before : Memory) (dst src size done n : ℕ) (mem : Memory)
    → src ≤ dst
    → done + n ≤ size
    → CopiedTail before dst src size done mem
    → CopiedTail before dst src size
        (done + n)
        (memmove mem (dst + (size - done) - n) mem (src + (size - done) - n) n)
backward_step before dst src size done n mem o h f p =
    let here = f p in
    let there = f (src + (size - done) - n + (p - (dst + (size - done) - n))) in
    let same =
      at_equal before (src + (size - done) - n + (p - (dst + (size - done) - n)))
        (src + (size - (done + n)) + (p - (dst + (size - (done + n))))) in
    let same2 =
      at_equal before (src + (size - done) + (p - (dst + (size - done))))
        (src + (size - (done + n)) + (p - (dst + (size - (done + n))))) in
    ground arith

-- The direction that the instruction chooses for one memory.
abbrev pub is_backward : ℕ → ℕ → ℕ → Bool
is_backward dst src size = ltb src dst && ltb dst (src + size)

abbrev Outcome : Memory → ℕ → ℕ → ℕ → Bool → ℕ → Memory → Type 0
Outcome before dst src size true d after = CopiedTail before dst src size d after
Outcome before dst src size false d after = Copied before dst src d after

step_of :
    (before : Memory) (dst src size : ℕ) (b : Bool)
    → is_backward dst src size ≡ b
    → (done n : ℕ) (mem : Memory) → done + n ≤ size
    → Outcome before dst src size b done mem
    → Outcome before dst src size b (done + n) (copy_chunk dst src size b done n mem)
step_of before dst src size true e done n mem h f =
    backward_step before dst src size done n mem (ground arith) h f
step_of before dst src size false e done n mem h f =
    forward_step before dst src size done n mem (ground arith) h f

start_of : (before : Memory) (dst src size : ℕ) (b : Bool) → Outcome before dst src size b 0 before
start_of before dst src size true = λ p. ground arith
start_of before dst src size false = λ p. ground arith

abbrev CopyEnded : Memory → ℕ → ℕ → ℕ → (ℕ → Bool) → Option (ℕ × Memory × Meter) → Type 0
CopyEnded mem dst src size interrupted r =
    Ended interrupted size (copy_chunk dst src size (is_backward dst src size))
      (Outcome mem dst src size (is_backward dst src size))
      (step_of mem dst src size (is_backward dst src size) refl) 0 r

copied :
    (interrupted : ℕ → Bool) (m : Meter) (mem : Memory) (dst src size : ℕ)
    → CopyEnded mem dst src size interrupted
        (memory_copy interrupted m mem dst src size (is_backward dst src size))
unfolding memory_copy
copied interrupted m mem dst src size =
    bulk_loop-Ended interrupted size (copy_chunk dst src size (is_backward dst src size))
      (Outcome mem dst src size (is_backward dst src size))
      (step_of mem dst src size (is_backward dst src size) refl) (size + 2) m 0 mem (omega arith)
      (omega arith) (start_of mem dst src size (is_backward dst src size))

whole :
    (mem : Memory) (dst src size : ℕ) (b : Bool) (d : ℕ) (after : Memory) (p : ℕ)
    → Outcome mem dst src size b d after
    → d ≡ size
    → after p ≡ memmove mem dst mem src size p
whole mem dst src size true d after p f e =
    ground
      (arith, f p, at_equal mem (src + (size - d) + (p - (dst + (size - d)))) (src + (p - dst)))
whole mem dst src size false d after p f e = ground (arith, f p)

-- A copy within one memory, in the direction that the instruction chooses, always ends, and short of
-- its whole size only when it is told to stop.
pub memory_copy-ends :
    (interrupted : ℕ → Bool) (m : Meter) (mem : Memory) (dst src size : ℕ)
    → (d : ℕ) × (after : Memory) × (m' : Meter) × (memory_copy interrupted m mem dst src size
          (is_backward dst src size)
        ≡ some (d, after, m'))
      × (d ≤ size)
      × ((d ≡ size) ⊎ (bulk_should_stop (interrupted d) m' ≡ true))
memory_copy-ends interrupted m mem dst src size = go _ refl (copied interrupted m mem dst src size)
  where
    go :
        (r : Option (ℕ × Memory × Meter))
        → memory_copy interrupted m mem dst src size (is_backward dst src size) ≡ r
        → CopyEnded mem dst src size interrupted r
        → (d : ℕ) × (after : Memory) × (m' : Meter) × (memory_copy interrupted m mem dst src size
              (is_backward dst src size)
            ≡ some (d, after, m'))
          × (d ≤ size)
          × ((d ≡ size) ⊎ (bulk_should_stop (interrupted d) m' ≡ true))
    go (some (d, after, m')) e (f, _, k, s) = (d, after, m', e, k, s)
    go none e h = elim h [ ]

-- After a copy within one memory that was not cut short, every byte of the destination is the byte
-- that was in the source before the copy, even where the ranges overlap, and all other bytes are as
-- before.
pub memory_copy-memmove :
    (interrupted : ℕ → Bool) (m m' : Meter) (mem after : Memory) (dst src size p : ℕ)
    → memory_copy interrupted m mem dst src size (is_backward dst src size) ≡ some (size, after, m')
    → after p ≡ memmove mem dst mem src size p
memory_copy-memmove interrupted m m' mem after dst src size p e =
    let c =
      subst (CopyEnded mem dst src size interrupted) e (copied interrupted m mem dst src size) in
    whole mem dst src size (is_backward dst src size) size after p c.0 refl
