-- ===== src/Bytes.antt =====
-- Little-endian access to byte arrays: the portable branches of wah_read_u16_le to wah_write_u64_le.
-- A pointer is an array with an offset into it.
pub mod Laws
mod Tests
use wah.Base.{ℕ, zero, suc, ◌+◌, ◌*◌, ◌/◌, ◌^◌, bit_or, List, [], ◌∷◌, get_or, set, u8}

-- `ptr[0]`, `ptr[1]`, … up to `n` bytes.
pub load : List ℕ → ℕ → ℕ → List ℕ
load m p zero = []
load m p (suc n) = get_or m p 0 ∷ load m (p + 1) n

-- `ptr[0] = b; ptr[1] = …` in this order.
pub store : List ℕ → ℕ → List ℕ → List ℕ
store m p [] = m
store m p (b ∷ bs) = store (set m p b) (p + 1) bs

-- `acc | (b << s) | …`, eight bits further each time.
pub or_bytes : ℕ → ℕ → List ℕ → ℕ
or_bytes acc s [] = acc
or_bytes acc s (b ∷ bs) = or_bytes (bit_or acc (b * 2 ^ s)) (s + 8) bs

-- `(b0 << 0) | (b1 << 8) | …`
pub le_value : List ℕ → ℕ
unfolding or_bytes
le_value [] = 0
le_value (b ∷ bs) = or_bytes (b * 2 ^ 0) 8 bs

-- `(uint8_t)(val >> s)`, `(uint8_t)(val >> (s + 8))`, …
pub le_bytes : ℕ → ℕ → ℕ → List ℕ
le_bytes zero s val = []
le_bytes (suc n) s val = u8 (val / 2 ^ s) ∷ le_bytes n (s + 8) val

abbrev pub read_u8_le : List ℕ → ℕ → ℕ
read_u8_le m p = get_or m p 0

abbrev pub write_u8_le : List ℕ → ℕ → ℕ → List ℕ
write_u8_le m p val = set m p val

pub read_u16_le : List ℕ → ℕ → ℕ
unfolding le_value load
read_u16_le m p = le_value (load m p 2)

pub write_u16_le : List ℕ → ℕ → ℕ → List ℕ
unfolding le_bytes store
write_u16_le m p val = store m p (le_bytes 2 0 val)

pub read_u32_le : List ℕ → ℕ → ℕ
unfolding le_value load
read_u32_le m p = le_value (load m p 4)

pub write_u32_le : List ℕ → ℕ → ℕ → List ℕ
unfolding le_bytes store
write_u32_le m p val = store m p (le_bytes 4 0 val)

pub read_u64_le : List ℕ → ℕ → ℕ
unfolding le_value load
read_u64_le m p = le_value (load m p 8)

pub write_u64_le : List ℕ → ℕ → ℕ → List ℕ
unfolding le_bytes store
write_u64_le m p val = store m p (le_bytes 8 0 val)
