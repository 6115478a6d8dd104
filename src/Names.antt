-- ===== src/Names.antt =====
-- Names in the binary format, and the binary search of exports by name.
pub mod Search
mod Tests
use wah.Base.{
  ℕ, zero, suc, ◌+◌, ◌-◌, ◌/◌, Bool, true, false, ◌&&◌, ◌||◌, not, ltb, leb, ◌==◌, if◌then◌else◌,
}
use wah.Base.{bit_and, List, [], ◌∷◌, Option, none, some, length, get_elem?, take, drop}
use wah.Status.{Result, ok, err, malformed, unexpected_eof}
use wah.Types.Parse.{ParseState, Parse, pure, ◌>>=◌, ◌>>◌, ensure, decode}
use wah.Leb128.{decode_uleb128}

abbrev pub is_cont : ℕ → Bool
is_cont b = bit_and b 0xc0 == 0x80

-- The bytes after a first byte of 2, 3 and 4 bytes; nothing where the code returns false.
abbrev pub utf8_2 : ℕ → List ℕ → Option (List ℕ)
utf8_2 b [] = none
utf8_2 b (c ∷ bs) = if not (is_cont c) || bit_and b 0xfe == 0xc0 then none else some bs

abbrev pub utf8_3 : ℕ → List ℕ → Option (List ℕ)
utf8_3 b [] = none
utf8_3 b (c ∷ []) = none
utf8_3 b (c ∷ d ∷ bs) =
    if not (is_cont c) || not (is_cont d) || (b == 0xe0 && ltb c 0xa0) || (b == 0xed && leb 0xa0 c)
    then none
    else some bs

abbrev pub utf8_4 : ℕ → List ℕ → Option (List ℕ)
utf8_4 b [] = none
utf8_4 b (c ∷ []) = none
utf8_4 b (c ∷ d ∷ []) = none
utf8_4 b (c ∷ d ∷ e ∷ bs) =
    if ltb 0xf4 b
      || not (is_cont c)
      || not (is_cont d)
      || not (is_cont e)
      || (b == 0xf0 && ltb c 0x90)
      || (b == 0xf4 && leb 0x90 c)
    then none
    else some bs

-- One round of the loop.
abbrev pub utf8_step : ℕ → List ℕ → Option (List ℕ)
utf8_step b bs =
    if ltb b 0x80
    then some bs
    else if bit_and b 0xe0 == 0xc0
    then utf8_2 b bs
    else if bit_and b 0xf0 == 0xe0
    then utf8_3 b bs
    else if bit_and b 0xf8 == 0xf0
    then utf8_4 b bs
    else none

-- The loop of `wah_is_valid_utf8`; every round moves on, so the length is enough fuel.
unfoldable pub valid_utf8_from : ℕ → List ℕ → Bool
valid_utf8_from fuel [] = true
valid_utf8_from zero (b ∷ bs) = false
valid_utf8_from (suc fuel) (b ∷ bs) = elim (utf8_step b bs) [
  | none ↦ false
  | some rest ↦ valid_utf8_from fuel rest
]

unfoldable pub is_valid_utf8 : List ℕ → Bool
unfolding valid_utf8_from
is_valid_utf8 bs = valid_utf8_from (length bs) bs

abbrev take_name : ℕ → Parse (List ℕ)
take_name name_len s = (ok (take name_len s.input), record s { input = drop name_len s.input })

abbrev ensure_name : ℕ → Parse (Unit {0})
ensure_name name_len s =
    (ensure (leb name_len (length s.input)) unexpected_eof
        >> ensure (is_valid_utf8 (take name_len s.input)) malformed)
      s

-- `wah_parse_name`, where the copy is made.
unfoldable pub parse_name : Parse (List ℕ)
unfolding is_valid_utf8
parse_name = do name_len ← decode decode_uleb128; ensure_name name_len; take_name name_len

-- The sign of memcmp: the first differing bytes decide.
unfoldable pub memcmp_less : List ℕ → List ℕ → Bool
memcmp_less [] ys = false
memcmp_less (x ∷ xs) [] = false
memcmp_less (x ∷ xs) (y ∷ ys) = let rest = memcmp_less xs ys in ltb x y || (x == y && rest)

-- Whether `wah_export_name_cmp_len` is negative: shorter names come first.
unfoldable pub export_name_less : List ℕ → List ℕ → Bool
unfolding memcmp_less
export_name_less exp name =
    if not (length exp == length name) then ltb (length exp) (length name) else memcmp_less exp name

-- The loop of `wah_export_lower_bound` on fuel, where `less mid` compares the export at `mid` with the name.
unfoldable pub lower_bound : (ℕ → Bool) → ℕ → ℕ → ℕ → ℕ
lower_bound less zero lo hi = lo
lower_bound less (suc fuel) lo hi =
    let mid = lo + (hi - lo) / 2 in
    let right = lower_bound less fuel (mid + 1) hi in
    let left = lower_bound less fuel lo mid in
    if not (ltb lo hi) then lo else if less mid then right else left

abbrev pub less_at : List (List ℕ) → List ℕ → ℕ → Bool
less_at names name i = elim (get_elem? names i) [
  | none ↦ false
  | some exp ↦ export_name_less exp name
]

-- `wah_export_lower_bound`, on the names in the order of `export_order`.
unfoldable pub export_lower_bound : List (List ℕ) → List ℕ → ℕ
unfolding lower_bound export_name_less
export_lower_bound names name = lower_bound (less_at names name) (length names) 0 (length names)

abbrev pub equal_bytes : List ℕ → List ℕ → Bool
equal_bytes [] [] = true
equal_bytes [] (y ∷ ys) = false
equal_bytes (x ∷ xs) [] = false
equal_bytes (x ∷ xs) (y ∷ ys) = let rest = equal_bytes xs ys in x == y && rest

-- `wah_name_matches`
abbrev pub name_matches : List ℕ → List ℕ → Bool
name_matches name expected = length name == length expected && equal_bytes name expected

abbrev found_at : List (List ℕ) → List ℕ → ℕ → Option ℕ
found_at names name pos = elim (get_elem? names pos) [
  | none ↦ none
  | some exp ↦ if name_matches exp name then some pos else none
]

-- `wah_find_export_by_name`: the position in `export_order`.
unfoldable pub find_export_by_name : List (List ℕ) → List ℕ → Option ℕ
unfolding export_lower_bound
find_export_by_name names name = found_at names name (export_lower_bound names name)
