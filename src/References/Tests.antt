-- ===== src/References/Tests.antt =====
-- A negative integer in a reference.
use wah.Base.{◌≡◌, ◌%◌, true, arith}
use wah.Base.Int.{negsuc}
use wah.References.{ref_is_i31, ref_make_i31, ref_i31_get_s, ref_i31_get_u, bits32}
use wah.References.RoundTrip.{ref_i31-round_trip}

ref_i31-round_trip_example :
    (ref_is_i31 (ref_make_i31 (negsuc 4)) ≡ true)
    × (ref_i31_get_s (ref_make_i31 (negsuc 4)) ≡ negsuc 4)
    × (ref_i31_get_u (ref_make_i31 (negsuc 4)) ≡ bits32 (negsuc 4) % 2147483648)
ref_i31-round_trip_example = ref_i31-round_trip (negsuc 4) (omega arith)
