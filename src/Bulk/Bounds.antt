-- ===== src/Bulk/Bounds.antt =====
-- The bounds checks of memory accesses (`wah_check_effective_addr`) and the memory budget.
use wah.Base.{ℕ, ap, ◌+◌, ◌-◌, ◌%◌, ◌≤◌, ◌<◌, ◌≡◌, ◌↔◌, true, leb, arith, u64_max, if◌then◌else◌}
use wah.Status.{ok, err, memory_out_of_bounds}
use wah.Bulk.{
  Budget, check_effective_addr, u64_range_in_bounds, budget_check, budget_charge, budget_release,
}

-- For 64-bit operands, an access is accepted exactly when all its bytes are within the memory, and
-- then at the true sum of the address and the offset; it is out of bounds otherwise.
pub check_effective_addr-exact :
    (addr offset size memory_size : ℕ)
    → addr ≤ u64_max
    → offset ≤ u64_max
    → size ≤ u64_max
    → memory_size ≤ u64_max
    → check_effective_addr addr offset size memory_size ≡ (
        if leb (addr + offset + size) memory_size
        then ok (addr + offset)
        else err memory_out_of_bounds)
unfolding check_effective_addr
check_effective_addr-exact addr offset size memory_size ha ho hs hm = ground arith

-- A range is in bounds exactly when it ends by the limit.
pub u64_range_in_bounds_iff :
    (offset size limit : ℕ)
    → (u64_range_in_bounds offset size limit ≡ true) ↔ (offset + size ≤ limit)
unfolding u64_range_in_bounds
u64_range_in_bounds_iff offset size limit = (λ h. ground arith, λ h. ground arith)

restored :
    (b : Budget) (bytes : ℕ)
    → b.max_memory_bytes < u64_max
    → budget_check b bytes ≡ true
    → ((b.memory_bytes_committed + bytes) % 18446744073709551616 + 18446744073709551616 - bytes)
        % 18446744073709551616
      ≡ b.memory_bytes_committed
unfolding budget_check
restored b bytes hb h = ground arith

-- Where memory is limited, a limit below UINT64_MAX, the budget allows an allocation exactly when the true
-- sum of what is committed and its bytes is within the limit.
pub budget_check_iff :
    (b : Budget) (bytes : ℕ)
    → b.max_memory_bytes < u64_max
    → (budget_check b bytes ≡ true) ↔ (b.memory_bytes_committed + bytes ≤ b.max_memory_bytes)
unfolding budget_check
budget_check_iff b bytes hb = (λ h. ground arith, λ h. ground arith)

-- Where memory is limited (below 2^64 - 1), an allocation that the budget allows is within the limit
-- together with what is committed already, in true sums that do not wrap around; it is charged for
-- exactly its bytes, and releasing it restores the budget.
pub budget_charge-release :
    (b : Budget) (bytes : ℕ)
    → b.max_memory_bytes < u64_max
    → budget_check b bytes ≡ true
    → (b.memory_bytes_committed + bytes ≤ b.max_memory_bytes)
      × ((budget_charge b bytes).memory_bytes_committed ≡ b.memory_bytes_committed + bytes)
      × (budget_release (budget_charge b bytes) bytes ≡ b)
unfolding budget_charge budget_release
budget_charge-release b bytes hb h =
    let fits = (budget_check_iff b bytes hb).0 h in
    (
      fits,
      omega (arith, fits, hb),
      ap (λ c. record b { memory_bytes_committed = c }) (restored b bytes hb h),
    )
