-- ===== src/Bulk/Tests.antt =====
-- A fill and an overlapping copy of a small memory.
use wah.Base.{ℕ, ◌+◌, ◌≤◌, ◌≡◌, ◌⊎◌, refl, Bool, true, false, leb, arith, if◌then◌else◌, some}
use wah.Base.Int.{pos}
use wah.Status.{ok, err, memory_out_of_bounds}
use wah.Bulk.{
  Memory, Meter, Budget, memmove, memory_fill, memory_copy, bulk_loop, bulk_should_stop,
  bulk_fuel_limit, bulk_fuel_charge,
}
use wah.Bulk.{check_effective_addr, budget_check, budget_charge, budget_release}
use wah.Bulk.Fill.{Filled, memory_fill-Ended}
use wah.Bulk.Copy.{is_backward, memory_copy-ends, memory_copy-memmove}
use wah.Bulk.Bounds.{check_effective_addr-exact, budget_charge-release}

abbrev meter : Meter
meter = record { fuel_metering = true; fuel = pos 10 }

abbrev addresses : Memory
addresses p = p

abbrev never : ℕ → Bool
never p = false

memory_fill-Ended_example :
    (d : ℕ) × (after : Memory) × (m' : Meter) × (memory_fill never meter addresses 2 7 3
      ≡ some (d, after, m'))
    × (d ≤ 3)
    × Filled addresses 2 7 d after
    × ((d ≡ 3) ⊎ (bulk_should_stop (never d) m' ≡ true))
memory_fill-Ended_example = memory_fill-Ended never meter addresses 2 7 3

memory_copy-ends_example :
    (d : ℕ) × (after : Memory) × (m' : Meter) × (memory_copy never meter addresses 1 0 3
        (is_backward 1 0 3)
      ≡ some (d, after, m'))
    × (d ≤ 3)
    × ((d ≡ 3) ⊎ (bulk_should_stop (never d) m' ≡ true))
memory_copy-ends_example = memory_copy-ends never meter addresses 1 0 3

abbrev after_copy : Memory
after_copy = memmove addresses 1 addresses 0 3

abbrev meter_after : Meter
meter_after = record { fuel_metering = true; fuel = pos 9 }

copy_run :
    memory_copy never meter addresses 1 0 3 (is_backward 1 0 3) ≡ some (3, after_copy, meter_after)
unfolding memory_copy bulk_loop bulk_should_stop bulk_fuel_limit bulk_fuel_charge
copy_run = refl

memory_copy-memmove_example : after_copy 2 ≡ memmove addresses 1 addresses 0 3 2
memory_copy-memmove_example =
    memory_copy-memmove never meter meter_after addresses after_copy 1 0 3 2 copy_run

check_effective_addr-exact_example :
    check_effective_addr 8 4 4 16
    ≡ (if leb (8 + 4 + 4) 16 then ok (8 + 4) else err memory_out_of_bounds)
check_effective_addr-exact_example =
    check_effective_addr-exact 8 4 4 16 (omega arith) (omega arith) (omega arith) (omega arith)

abbrev budget : Budget
budget = record { max_memory_bytes = 100; memory_bytes_committed = 40 }

budget_allows : budget_check budget 60 ≡ true
unfolding budget_check
budget_allows = refl

budget_charge-release_example :
    (budget.memory_bytes_committed + 60 ≤ 100)
    × ((budget_charge budget 60).memory_bytes_committed ≡ budget.memory_bytes_committed + 60)
    × (budget_release (budget_charge budget 60) 60 ≡ budget)
budget_charge-release_example = budget_charge-release budget 60 (omega arith) budget_allows
