-- ===== src/Sections/Limits.antt =====
-- The limits of memories (`wah_parse_memory_section`), and the runs of locals (`wah_parse_local_decls`).
use wah.Base.{
  ℕ, zero, suc, ◌+◌, ◌≤◌, ◌≡◌, refl, Bool, true, false, not, ◌||◌, leb, leb→le, arith, All,
}
use wah.Base.{
  List, [], ◌∷◌, length, u64_max, ap, if◌then◌else◌, ◌==◌, ltb, ◌<◌, u32_max, ◌-◌, ◌*◌, ◌^◌, sym,
  u32, Bool-cases, ◌⊎◌, inl, inr,
}
use wah.Base.Int.{◌==ℤ◌}
use wah.Status.{ok, ok-inj, validation_failed, too_large}
use mathlib.Core.Path.{subst}
use wah.Types.{WahType, i32, i64}
use wah.Types.Parse.{
  Parse, ParseState, pure, next_byte, decode, require_type_features, require_feature,
  shift_multi_memory,
}
use wah.Types.Section.Valid.{bind-ok, ensure-ok}
use wah.Leb128.{decode_uleb128, decode_uleb128_64}
use wah.Types.Decode.{decode_and_validate_count, decode_val_type}
use wah.Sections.{
  memory_addr_type, shift_memory64, add_run, MemoryType, LocalRun, page_limit, check_limits,
  parse_memory_type, parse_memory_types, parse_memory_section, local_entry, check_scope,
  local_entries, parse_local_decls, max_local_count,
}

-- The bytes that a 32-bit or a 64-bit address can address.
abbrev pub addressable : WahType → ℕ
addressable t = if t ==ℤ i32 then 2 ^ 32 else 2 ^ 64

-- The limits of an accepted memory, whose pages have 64 KiB: it has a minimum size, and a maximum unless
-- that is left out, in which case it is UINT64_MAX.
pub record ValidLimits (m : MemoryType) : Type 0 where
  pub address : (m.addr_type ≡ i32) ⊎ (m.addr_type ≡ i64)
  pub ordered : m.min_pages ≤ m.max_pages
  pub min_bytes : m.min_pages * 65536 ≤ addressable m.addr_type
  pub max_bytes : (m.max_pages ≡ u64_max) ⊎ (m.max_pages * 65536 ≤ addressable m.addr_type)

-- A limit in pages is one in bytes.
page_limit-bytes : (t : WahType) (n : ℕ) → leb n (page_limit t) ≡ true → n * 65536 ≤ addressable t
page_limit-bytes t n h = elim (Bool-cases (t ==ℤ i32)) [
  | inl narrow ↦ rw narrow (omega (arith, leb→le n 65536 (rw narrow at h)))
  | inr wide ↦ rw wide (omega (arith, leb→le n 281474976710656 (rw wide at h)))
]

memory_addr_type-ok :
    (flags : ℕ) (t : WahType) (s : ParseState)
    → (memory_addr_type flags s).0 ≡ ok t
    → (t ≡ i32) ⊎ (t ≡ i64)
memory_addr_type-ok flags t s h = elim (Bool-cases (flags == 0 || flags == 1)) [
  | inl narrow ↦ inl (sym (ok-inj (rw narrow at h)))
  | inr other ↦ elim (Bool-cases (flags == 4 || flags == 5)) [
    | inr unknown ↦ cc (rw (other, unknown) at h)
    | inl wide ↦
        let (_, s1, _, h1) = bind-ok (require_feature shift_memory64) _ s (rw (other, wide) at h) in
        inr (sym (ok-inj h1))
  ]
]

check_limits-ok :
    (has_max : Bool) (m m' : MemoryType) (s : ParseState)
    → (m.addr_type ≡ i32) ⊎ (m.addr_type ≡ i64)
    → (has_max ≡ true) ⊎ (m.max_pages ≡ u64_max)
    → (check_limits has_max m s).0 ≡ ok m'
    → ValidLimits m'
check_limits-ok has_max m m' s address given h =
    let (a, h1) = ensure-ok (leb m.min_pages (page_limit m.addr_type)) validation_failed _ s h in
    let (b, h2) =
      ensure-ok (not has_max || leb m.max_pages (page_limit m.addr_type)) validation_failed _ s
        h1 in
    let (c, h3) = ensure-ok (leb m.min_pages m.max_pages) validation_failed _ s h2 in
    subst ValidLimits (ok-inj h3) (record {
      address = address;
      ordered = leb→le m.min_pages m.max_pages c;
      min_bytes = page_limit-bytes m.addr_type m.min_pages a;
      max_bytes = elim given [
        | inl has ↦ inr (page_limit-bytes m.addr_type m.max_pages (rw has at b))
        | inr none_given ↦ inl none_given
      ];
    })

max_given :
    (has_max : Bool) (given : Parse ℕ) (max : ℕ) (s : ParseState)
    → ((if has_max then given else pure u64_max) s).0 ≡ ok max
    → (has_max ≡ true) ⊎ (max ≡ u64_max)
max_given true given max s h = inl refl
max_given false given max s h = inr (sym (ok-inj h))

parse_memory_type-ok :
    (m : MemoryType) (s : ParseState) → (parse_memory_type s).0 ≡ ok m → ValidLimits m
unfolding parse_memory_type
parse_memory_type-ok m s h =
    let (flags, s1, _, h1) = bind-ok next_byte _ s h in
    let (t, s2, e2, h2) = bind-ok (memory_addr_type flags) _ s1 h1 in
    let (low, s3, _, h3) = bind-ok (decode decode_uleb128_64) _ s2 h2 in
    let (high, s4, e4, h4) =
      bind-ok (if flags == 1 || flags == 5 then decode decode_uleb128_64 else pure u64_max) _ s3
        h3 in
    check_limits-ok (flags == 1 || flags == 5)
      (record { addr_type = t; min_pages = low; max_pages = high }) m s4
      (memory_addr_type-ok flags t s1 (ap (λ p. p.0) e2))
      (max_given (flags == 1 || flags == 5) (decode decode_uleb128_64) high s3 (ap (λ p. p.0) e4))
      h4

parse_memory_types-ok :
    (n : ℕ) (ms : List MemoryType) (s : ParseState)
    → (parse_memory_types n s).0 ≡ ok ms
    → All ValidLimits ms × (length ms ≡ n)
unfolding parse_memory_types parse_memory_type
parse_memory_types-ok zero ms s h =
    subst (λ ms. All ValidLimits ms × (length ms ≡ 0)) (ok-inj h) (tt, refl)
parse_memory_types-ok (suc n) ms s h =
    let (m, s1, e, h1) = bind-ok parse_memory_type _ s h in
    let (rest, s2, e2, h2) = bind-ok (parse_memory_types n) _ s1 h1 in
    let (v, l) = parse_memory_types-ok n rest s1 (ap (λ p. p.0) e2) in
    subst (λ ms. All ValidLimits ms × (length ms ≡ suc n)) (ok-inj h2)
      ((parse_memory_type-ok m s (ap (λ p. p.0) e), v), ap suc l)

-- Every memory that an accepted memory section defines has an address of 32 or 64 bits and a minimum
-- that is at most its maximum; the bytes of the minimum, at 64 KiB a page, are at most 2^32 or 2^64,
-- and so are those of the maximum unless it is 2^64 - 1, which stands for an absent one.
pub parse_memory_section-ValidLimits :
    (imported : ℕ) (ms : List MemoryType) (s : ParseState)
    → (parse_memory_section imported s).0 ≡ ok ms
    → All ValidLimits ms
unfolding parse_memory_section
parse_memory_section-ValidLimits imported ms s h =
    let (n, s1, _, h1) = bind-ok (decode_and_validate_count 2) _ s h in
    let (_, s2, _, h2) =
      bind-ok (if ltb 1 (imported + n) then require_feature shift_multi_memory else pure tt) _ s1
        h1 in
    (parse_memory_types-ok n ms s2 h2).0

-- The runs go up from one index to another, and none is empty.
abbrev pub Runs : ℕ → List LocalRun → ℕ → Type 0
Runs start [] total = start ≡ total
Runs start (r ∷ rs) total = (start < r.end) × Runs r.end rs total

add_run-Runs :
    (n start end total : ℕ) (t : WahType) (rs : List LocalRun)
    → end ≡ start + n
    → Runs end rs total
    → Runs start (add_run n (record { end = end; type = t }) rs) total
add_run-Runs n start end total t rs sum h = elim (Bool-cases (ltb 0 n)) [
  | inl some_locals ↦ simp some_locals (ground (arith, sum, some_locals), h)
  | inr no_locals ↦
      let z : end ≡ start = ground (arith, sum, no_locals) in
      simp no_locals (subst (λ k. Runs k rs total) z h)
]

-- The guards keep the total of uint32_t from wrapping around.
local_entry-fits :
    (start end n : ℕ) (t : WahType) (s : ParseState)
    → start ≤ max_local_count
    → (local_entry start s).0 ≡ ok (end, (n, t))
    → (end ≡ start + n) × (end ≤ max_local_count)
unfolding local_entry
local_entry-fits start end n t s hs h =
    let (n', s1, _, h1) = bind-ok (decode decode_uleb128) _ s h in
    let (t', s2, _, h2) = bind-ok decode_val_type _ s1 h1 in
    let (g, h3) = ensure-ok (leb n' (u32_max - start)) too_large _ s2 h2 in
    let (c, h4) = ensure-ok (leb (u32 (start + n')) max_local_count) too_large _ s2 h3 in
    let (_, s5, _, h5) = bind-ok (check_scope t') _ s2 h4 in
    let (_, s6, _, h6) = bind-ok (require_type_features t') _ s5 h5 in
    let same = ok-inj h6 in
    let n_is : n' ≡ n = ap (λ p. p.1.0) same in
    let end_is : u32 (start + n') ≡ end = ap (λ p. p.0) same in
    let room = leb→le n' (u32_max - start) g in
    let whole : u32 (start + n') ≡ start + n' = omega (arith, room, hs) in
    (omega (arith, whole, end_is, n_is), omega (arith, end_is, leb→le _ _ c))

local_entries-Runs :
    (k start : ℕ) (rs : List LocalRun) (total : ℕ) (s : ParseState)
    → start ≤ max_local_count
    → (local_entries k start s).0 ≡ ok (rs, total)
    → Runs start rs total × (total ≤ max_local_count)
unfolding local_entries
local_entries-Runs zero start rs total s hs h =
    subst (λ (p : List LocalRun × ℕ). Runs start p.0 p.1 × (p.1 ≤ max_local_count)) (ok-inj h)
      (refl, hs)
local_entries-Runs (suc k) start rs total s hs h =
    let ((end, (n, t)), s1, e1, h1) = bind-ok (local_entry start) _ s h in
    let ((rest, last), s2, e2, h2) = bind-ok (local_entries k end) _ s1 h1 in
    let (sum, c) = local_entry-fits start end n t s hs (ap (λ p. p.0) e1) in
    let (r, b) = local_entries-Runs k end rest last s1 c (ap (λ p. p.0) e2) in
    subst (λ (p : List LocalRun × ℕ). Runs start p.0 p.1 × (p.1 ≤ max_local_count)) (ok-inj h2)
      (add_run-Runs n start end last t rest sum r, b)

-- The runs of locals of an accepted function body go up from 0 to the total without empty runs, and
-- the total, which is summed up in 32 bits, is within the limit.
pub parse_local_decls-Runs :
    (rs : List LocalRun) (total : ℕ) (s : ParseState)
    → (parse_local_decls s).0 ≡ ok (rs, total)
    → Runs 0 rs total × (total ≤ max_local_count)
unfolding parse_local_decls
parse_local_decls-Runs rs total s h =
    let (n, s1, _, h1) = bind-ok (decode_and_validate_count 2) _ s h in
    local_entries-Runs n 0 rs total s1 (omega arith) h1
