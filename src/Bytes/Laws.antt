-- ===== src/Bytes/Laws.antt =====
-- Reads and writes of byte arrays together.
use wah.Base.{
  ℕ, zero, suc, ◌+◌, ◌/◌, ◌%◌, ◌^◌, ◌≤◌, ◌<◌, List, [], ◌∷◌, ◌≡◌, ◌⊎◌, inl, refl, ap, ◌∙◌, arith,
}
use wah.Base.{get_or, set, length, length-set, get_or-set_self, get_or-set_ne}
use wah.Base.Bits.{or_shifted}
use wah.Bytes.{load, store, le_value, le_bytes, read_u16_le, write_u16_le}
use wah.Bytes.{read_u32_le, write_u32_le, read_u64_le, write_u64_le}
use mathlib.Core.Path.{ap₂, subst}

pub length-store : (m : List ℕ) (p : ℕ) (bs : List ℕ) → length (store m p bs) ≡ length m
unfolding store
length-store m p [] = refl
length-store m p (b ∷ bs) = length-store (set m p b) (p + 1) bs ∙ length-set m p b

-- A byte outside the range keeps its value.
pub store_frame :
    (m : List ℕ) (p : ℕ) (bs : List ℕ) (j : ℕ)
    → (j < p) ⊎ (p + length bs ≤ j)
    → get_or (store m p bs) j 0 ≡ get_or m j 0
unfolding store
store_frame m p [] j h = refl
store_frame m p (b ∷ bs) j h =
    store_frame (set m p b) (p + 1) bs j (grind arith) ∙ get_or-set_ne m p j b 0 (grind arith)

pub load-store :
    (m : List ℕ) (p : ℕ) (bs : List ℕ)
    → p + length bs ≤ length m
    → load (store m p bs) p (length bs) ≡ bs
unfolding load store
load-store m p [] h = refl
load-store m p (b ∷ bs) h =
    ap₂ ◌∷◌
      (store_frame (set m p b) (p + 1) bs p (inl (omega arith))
        ∙ get_or-set_self m p b 0 (omega arith))
      (load-store (set m p b) (p + 1) bs (omega (arith, length-set m p b)))

value_2 : (v : ℕ) → v < 2 ^ 16 → le_value (le_bytes 2 0 v) ≡ v
unfolding le_value le_bytes
value_2 v h = ground (arith, or_shifted 8 (v % 256) (v / 256 % 256))

value_4 : (v : ℕ) → v < 2 ^ 32 → le_value (le_bytes 4 0 v) ≡ v
unfolding le_value le_bytes
value_4 v h = ground (
  arith,
  or_shifted 8 (v % 2 ^ 8) (v / 2 ^ 8 % 256),
  or_shifted 16 (v % 2 ^ 16) (v / 2 ^ 16 % 256),
  or_shifted 24 (v % 2 ^ 24) (v / 2 ^ 24 % 256),
)

value_8 : (v : ℕ) → v < 2 ^ 64 → le_value (le_bytes 8 0 v) ≡ v
unfolding le_value le_bytes
value_8 v h = ground (
  arith,
  or_shifted 8 (v % 2 ^ 8) (v / 2 ^ 8 % 256),
  or_shifted 16 (v % 2 ^ 16) (v / 2 ^ 16 % 256),
  or_shifted 24 (v % 2 ^ 24) (v / 2 ^ 24 % 256),
  or_shifted 32 (v % 2 ^ 32) (v / 2 ^ 32 % 256),
  or_shifted 40 (v % 2 ^ 40) (v / 2 ^ 40 % 256),
  or_shifted 48 (v % 2 ^ 48) (v / 2 ^ 48 % 256),
  or_shifted 56 (v % 2 ^ 56) (v / 2 ^ 56 % 256),
)

length-le_bytes : (n s v : ℕ) → length (le_bytes n s v) ≡ n
unfolding le_bytes
length-le_bytes zero s v = refl
length-le_bytes (suc n) s v = ap suc (length-le_bytes n (s + 8) v)

load-store_le :
    (n : ℕ) (m : List ℕ) (p v : ℕ)
    → p + n ≤ length m
    → load (store m p (le_bytes n 0 v)) p n ≡ le_bytes n 0 v
load-store_le n m p v h =
    let len = length-le_bytes n 0 v in
    subst (λ (k : ℕ). load (store m p (le_bytes n 0 v)) p k ≡ le_bytes n 0 v) len
      (load-store m p (le_bytes n 0 v) (omega arith))

-- A value of 16 bits written inside the array is read back from there.
pub read_u16_le-write :
    (m : List ℕ) (p v : ℕ) → p + 2 ≤ length m → v < 2 ^ 16 → read_u16_le (write_u16_le m p v) p ≡ v
read_u16_le-write m p v h hv =
    unfold read_u16_le write_u16_le in ap le_value (load-store_le 2 m p v h) ∙ value_2 v hv

pub read_u32_le-write :
    (m : List ℕ) (p v : ℕ) → p + 4 ≤ length m → v < 2 ^ 32 → read_u32_le (write_u32_le m p v) p ≡ v
read_u32_le-write m p v h hv =
    unfold read_u32_le write_u32_le in ap le_value (load-store_le 4 m p v h) ∙ value_4 v hv

-- A value of 64 bits written inside the array is read back from there.
pub read_u64_le-write :
    (m : List ℕ) (p v : ℕ) → p + 8 ≤ length m → v < 2 ^ 64 → read_u64_le (write_u64_le m p v) p ≡ v
read_u64_le-write m p v h hv =
    unfold read_u64_le write_u64_le in ap le_value (load-store_le 8 m p v h) ∙ value_8 v hv

-- A write of 64 bits keeps the length of the array and every byte outside its range.
pub write_u64_le-frame :
    (m : List ℕ) (p v j : ℕ)
    → (j < p) ⊎ (p + 8 ≤ j)
    → (get_or (write_u64_le m p v) j 0 ≡ get_or m j 0) × (length (write_u64_le m p v) ≡ length m)
write_u64_le-frame m p v j h =
    unfold write_u64_le in (store_frame m p (le_bytes 8 0 v) j h, length-store m p (le_bytes 8 0 v))
