-- ===== src/Leb128/Tests.antt =====
-- Runs of the decoders, and the theorems at concrete inputs.
use wah.Base.{ℕ, List, [], ◌∷◌, ◌++◌, ◌≡◌, refl, arith, u32_max}
use wah.Base.Int.{negsuc}
use wah.Status.{ok, err, too_large, unexpected_eof}
use wah.Leb128.{decode_uleb128, decode_uleb128_64, decode_sleb128_32, decode_sleb128_64}
use wah.Leb128.{uleb128_loop, sleb128_32_loop, sleb128_64_loop, sign_extend, add_group}
use wah.Leb128.Groups.{read_groups}
use wah.Leb128.Encode.{encode_uleb128, decode_uleb128-encode}
use wah.Leb128.Unsigned.{decode_uleb128_lem, decode_uleb128_64_lem}
use wah.Leb128.Signed.{twos, in_range, decode_sleb128_32_lem}
use wah.Leb128.Signed64.{in_i64, decode_sleb128_64_lem}
use wah.Leb128.{i32_min, i32_max}
use wah.Status.{◌>>=◌}
use wah.Base.{leb, u64_max, if◌then◌else◌, ◌*◌}

abbrev seven : List ℕ
seven = 7 ∷ []

abbrev number : List ℕ
number = 0xe5 ∷ 0x8e ∷ 0x26 ∷ 7 ∷ []

unsigned_624485 : decode_uleb128 number ≡ ok (624485, 7 ∷ [])
unfolding decode_uleb128 uleb128_loop add_group
unsigned_624485 = refl

signed_minus_123456 : decode_sleb128_32 (0xc0 ∷ 0xbb ∷ 0x78 ∷ []) ≡ ok (negsuc 123455, [])
unfolding decode_sleb128_32 sleb128_32_loop add_group sign_extend
signed_minus_123456 = refl

signed_eleven_bytes :
    decode_sleb128_64 (0x80 ∷ 0x80 ∷ 0x80 ∷ 0x80 ∷ 0x80 ∷ 0x80 ∷ 0x80 ∷ 0x80 ∷ 0x80 ∷ 0x80 ∷ [])
    ≡ err unexpected_eof
unfolding decode_sleb128_64 sleb128_64_loop add_group
signed_eleven_bytes = refl

decode_uleb128_lem_example : decode_uleb128 number ≡ (
    read_groups 5 number >>= λ g.
    if leb g.value u32_max then ok (g.value, g.rest) else err too_large)
decode_uleb128_lem_example = decode_uleb128_lem number

decode_uleb128_64_lem_example : decode_uleb128_64 number ≡ (
    read_groups 10 number >>= λ g.
    if leb g.value u64_max then ok (g.value, g.rest) else err too_large)
decode_uleb128_64_lem_example =
    decode_uleb128_64_lem number (omega arith, (omega arith, (omega arith, (omega arith, tt))))

decode_sleb128_32_lem_example :
    decode_sleb128_32 number
    ≡ (read_groups 5 number >>= λ g. in_range i32_min i32_max (twos (7 * g.count) g.value) g.rest)
decode_sleb128_32_lem_example = decode_sleb128_32_lem number

decode_sleb128_64_lem_example :
    decode_sleb128_64 number ≡ (read_groups 11 number >>= λ g. in_i64 (7 * g.count) g.value g.rest)
decode_sleb128_64_lem_example =
    decode_sleb128_64_lem number (omega arith, (omega arith, (omega arith, (omega arith, tt))))

decode_uleb128-encode_example :
    decode_uleb128 (encode_uleb128 4 624485 ++ (7 ∷ [])) ≡ ok (624485, 7 ∷ [])
decode_uleb128-encode_example = decode_uleb128-encode 624485 (7 ∷ []) (omega arith)
