-- ===== src/Leb128/Encode.antt =====
-- The shortest unsigned encoding, and how much of its input a decoder takes.
use wah.Base.{ℕ, zero, suc, ◌+◌, ◌/◌, ◌%◌, ◌^◌, ◌≤◌, ◌<◌, List, [], ◌∷◌, ◌++◌, ◌≡◌, ◌∙◌, arith}
use wah.Base.{ltb, if◌then◌else◌, u32_max, u64_max, IsByte, All, length, Bool-cases, inl, inr}
use wah.Base.Int.{ℤ}
use wah.Status.{ok, Result-cases}
use wah.Leb128.{decode_uleb128, decode_uleb128_64, decode_sleb128_32}
use wah.Leb128.Groups.{Groups, read_groups}
use wah.Leb128.Unsigned.{decode_uleb128_lem, decode_uleb128_64_lem}
use wah.Leb128.Signed.{decode_sleb128_32_lem}

-- Groups of seven bits, lowest first, for `v` below 128 ^ (k + 1).
unfoldable pub encode_uleb128 : ℕ → ℕ → List ℕ
encode_uleb128 zero v = v ∷ []
encode_uleb128 (suc k) v =
    let more = encode_uleb128 k (v / 128) in if ltb v 128 then v ∷ [] else (v % 128 + 128) ∷ more

-- Reading back an encoding, from as many rounds as it may need or more.
read_groups-encode :
    (k j v : ℕ) (rest : List ℕ)
    → k < j
    → v < 128 ^ suc k
    → (n : ℕ) × (read_groups j (encode_uleb128 k v ++ rest)
        ≡ ok (record { value = v; count = n; rest = rest }))
unfolding read_groups encode_uleb128
read_groups-encode k zero v rest hj h = absurd (omega arith)
read_groups-encode zero (suc j) v rest hj h = (1, ground arith)
read_groups-encode (suc k) (suc j) v rest hj h = elim (Bool-cases (ltb v 128)) [
  | inl one ↦ (1, rw one (ground arith))
  | inr more ↦
      let (n, ih) = read_groups-encode k j (v / 128) rest (omega arith) (omega arith) in
      (n + 1, rw more (ground (arith, ih)))
]

-- Decoding the shortest encoding of a uint32_t gives the number back and leaves what follows.
pub decode_uleb128-encode :
    (v : ℕ) (rest : List ℕ)
    → v ≤ u32_max
    → decode_uleb128 (encode_uleb128 4 v ++ rest) ≡ ok (v, rest)
decode_uleb128-encode v rest h =
    let (n, e) = read_groups-encode 4 5 v rest (omega arith) (omega arith) in
    decode_uleb128_lem (encode_uleb128 4 v ++ rest) ∙ rw e (ground arith)

encode-IsByte : (k v : ℕ) → v < 128 ^ suc k → All IsByte (encode_uleb128 k v)
unfolding encode_uleb128
encode-IsByte zero v h = omega arith
encode-IsByte (suc k) v h = ground (arith, encode-IsByte k (v / 128) (omega arith))

All-append : (xs ys : List ℕ) → All IsByte xs → All IsByte ys → All IsByte (xs ++ ys)
All-append [] ys hx hy = hy
All-append (x ∷ xs) ys hx hy = (hx.0, All-append xs ys hx.1 hy)

-- Decoding the shortest encoding of a uint64_t, followed by bytes, gives the number back and leaves
-- what follows.
pub decode_uleb128_64-encode :
    (v : ℕ) (rest : List ℕ)
    → v ≤ u64_max
    → All IsByte rest
    → decode_uleb128_64 (encode_uleb128 9 v ++ rest) ≡ ok (v, rest)
decode_uleb128_64-encode v rest h hb =
    let (n, e) = read_groups-encode 9 10 v rest (omega arith) (omega arith) in
    let bytes = All-append (encode_uleb128 9 v) rest (encode-IsByte 9 v (omega arith)) hb in
    decode_uleb128_64_lem (encode_uleb128 9 v ++ rest) bytes ∙ rw e (ground arith)

-- Groups take one byte each, and `count` groups have `7 * count` bits.
pub read_groups_takes :
    (k : ℕ) (bs : List ℕ) (g : Groups)
    → read_groups k bs ≡ ok g
    → (length g.rest + g.count ≡ length bs) × (1 ≤ g.count) × (g.count ≤ k)
unfolding read_groups
read_groups_takes zero bs g e = cc
read_groups_takes (suc k) [] g e = cc
read_groups_takes (suc k) (b ∷ bs) g e = elim (Result-cases (read_groups k bs)) [
  | inl (g', e') ↦ ground (arith, read_groups_takes k bs g' e')
  | inr (x, e') ↦ ground arith
]

-- A successful 32-bit decoding takes one to five bytes and returns a uint32_t.
pub decode_uleb128_takes :
    (bs : List ℕ) (v : ℕ) (rest : List ℕ)
    → decode_uleb128 bs ≡ ok (v, rest)
    → (v ≤ u32_max) × (length rest < length bs) × (length bs ≤ length rest + 5)
decode_uleb128_takes bs v rest e = elim (Result-cases (read_groups 5 bs)) [
  | inl (g, e') ↦ ground (arith, decode_uleb128_lem bs, read_groups_takes 5 bs g e')
  | inr (x, e') ↦ ground (arith, decode_uleb128_lem bs)
]

pub decode_sleb128_32_takes :
    (bs : List ℕ) (v : ℤ) (rest : List ℕ)
    → decode_sleb128_32 bs ≡ ok (v, rest)
    → (length rest < length bs) × (length bs ≤ length rest + 5)
decode_sleb128_32_takes bs v rest e = elim (Result-cases (read_groups 5 bs)) [
  | inl (g, e') ↦ ground (arith, decode_sleb128_32_lem bs, read_groups_takes 5 bs g e')
  | inr (x, e') ↦ ground (arith, decode_sleb128_32_lem bs)
]
