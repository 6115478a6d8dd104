-- ===== src/Bulk/Fill.antt =====
-- Fills of a memory (`wah_memory_fill_internal`).
use wah.Base.{ℕ, ◌+◌, ◌≤◌, ◌≡◌, ◌⊎◌, refl, Bool, true, arith}
use wah.Base.{Option, none, some}
use wah.Bulk.{Memory, Meter, memset, memory_fill, bulk_should_stop}
use wah.Bulk.Loop.{Ended, bulk_loop-Ended}

-- Exactly `d` bytes from `dst` on have the value, and all others are as before.
abbrev pub Filled : Memory → ℕ → ℕ → ℕ → Memory → Type 0
Filled before dst val d after = (p : ℕ) → after p ≡ memset before dst val d p

Filled-step :
    (before : Memory) (dst val size done n : ℕ) (mem : Memory)
    → done + n ≤ size
    → Filled before dst val done mem
    → Filled before dst val (done + n) (memset mem (dst + done) val n)
Filled-step before dst val size done n mem h f p = ground (arith, f p)

-- A fill always ends, and however it is interrupted, exactly the bytes of the progress it reports have
-- the value and all others are as before. It stops short only when it is told to stop.
pub memory_fill-Ended :
    (interrupted : ℕ → Bool) (m : Meter) (mem : Memory) (dst val size : ℕ)
    → (d : ℕ) × (after : Memory) × (m' : Meter) × (memory_fill interrupted m mem dst val size
        ≡ some (d, after, m'))
      × (d ≤ size)
      × Filled mem dst val d after
      × ((d ≡ size) ⊎ (bulk_should_stop (interrupted d) m' ≡ true))
unfolding memory_fill
memory_fill-Ended interrupted m mem dst val size = go _ refl (
    bulk_loop-Ended interrupted size (λ done n mem. memset mem (dst + done) val n)
      (Filled mem dst val) (Filled-step mem dst val size) (size + 2) m 0 mem (omega arith)
      (omega arith) (λ p. ground arith))
  where
    go :
        (r : Option (ℕ × Memory × Meter))
        → memory_fill interrupted m mem dst val size ≡ r
        → Ended interrupted size
            (λ done n mem. memset mem (dst + done) val n)
            (Filled mem dst val)
            (Filled-step mem dst val size)
            0
            r
        → (d : ℕ) × (after : Memory) × (m' : Meter) × (memory_fill interrupted m mem dst val size
            ≡ some (d, after, m'))
          × (d ≤ size)
          × Filled mem dst val d after
          × ((d ≡ size) ⊎ (bulk_should_stop (interrupted d) m' ≡ true))
    go (some (d, after, m')) e (f, _, k, s) = (d, after, m', e, k, f, s)
    go none e h = elim h [ ]
