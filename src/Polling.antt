-- ===== src/Polling.antt =====
-- The flags by which a running context is interrupted: `interrupt_flag`, which other threads set, and
-- `poll_flag`, which the interpreter tests. Each access of a flag is one step, and the steps of the running
-- thread and of the threads that request interrupts are interleaved in one order, which the fences ensure.
pub mod Interrupts
mod Tests
use wah.Base.{ℕ, zero, suc, ◌+◌, ◌-◌, ◌*◌, ◌/◌, ◌≡◌, Bool, true, false, not, if◌then◌else◌}
use wah.Base.Int.{ℤ, pos, negsuc}
use wah.Status.{Result, ok, err, Error, yielded, misuse, disabled_feature, ensure, ◌>>◌}
use wah.Bulk.{Meter, minus, bulk_items_per_fuel}

-- Where the running thread is in `wah_recompute_poll_flag`: outside, after its store of 0, or after it saw
-- the interrupt flag set.
pub data Runner : Type 0 where
  outside cleared seen : Runner

-- `pending` threads are in `wah_request_interrupt` between its two stores.
pub record Flags : Type 0 where
  pub interrupt_flag : Bool
  pub poll_flag : Bool
  pub gc_pending : Bool
  pub runner : Runner
  pub pending : ℕ

-- The first and the second store of `wah_request_interrupt`.
abbrev pub request_first : Flags → Flags
request_first f = record f { interrupt_flag = true; pending = suc f.pending }

abbrev pub request_second : ℕ → Flags → Flags
request_second n f = record f { poll_flag = true; pending = n }

-- `wah_request_interrupt` of a thread alone.
unfoldable pub request_interrupt : Flags → Flags
request_interrupt f = request_second f.pending (request_first f)

-- The accesses of `wah_recompute_poll_flag`, from where the running thread is.
abbrev pub recompute_at : Runner → Flags → Flags
recompute_at outside f =
    if f.gc_pending
    then record f { poll_flag = true }
    else record f { poll_flag = false; runner = cleared }
recompute_at cleared f =
    if f.interrupt_flag then record f { runner = seen } else record f { runner = outside }
recompute_at seen f = record f { poll_flag = true; runner = outside }

unfoldable pub recompute_step : Flags → Flags
recompute_step f = recompute_at f.runner f

-- `wah_recompute_poll_flag` without other threads.
unfoldable pub recompute_poll_flag : Flags → Flags
unfolding recompute_step
recompute_poll_flag f =
    if f.gc_pending
    then recompute_step f
    else if f.interrupt_flag
    then recompute_step (recompute_step (recompute_step f))
    else recompute_step (recompute_step f)

-- `wah_poll_handler` without other threads; `gc_step` is the collector's step, on the flags.
unfoldable pub poll_handler : (Flags → Flags) → Flags → Result (Unit {0}) × Flags
unfolding recompute_poll_flag
poll_handler gc_step f =
    if f.interrupt_flag
    then (err yielded, recompute_poll_flag (record f { interrupt_flag = false }))
    else if f.gc_pending
    then (ok tt, recompute_poll_flag (gc_step (record f { gc_pending = false })))
    else (ok tt, recompute_poll_flag f)

-- `wah_is_interrupted`
abbrev pub is_interrupted : Flags → Bool
is_interrupted f = f.interrupt_flag

-- The accesses of all threads: the running thread takes the interrupt in `wah_poll_handler`, goes on in
-- `wah_recompute_poll_flag`, or schedules or begins a collection, and any number of threads request interrupts.
pub data Step : Flags → Flags → Type 0 where
  first : (f : Flags) → Step f (request_first f)
  second : (f : Flags) (n : ℕ) → f.pending ≡ suc n → Step f (request_second n f)
  take : (f : Flags) → f.runner ≡ outside → Step f (record f { interrupt_flag = false })
  recompute : (f : Flags) → Step f (recompute_step f)
  schedule :
      (f : Flags) → f.runner ≡ outside → Step f (record f { gc_pending = true; poll_flag = true })
  collect : (f : Flags) → f.runner ≡ outside → Step f (record f { gc_pending = false })

pub data Steps : Flags → Flags → Type 0 where
  done : {f : Flags} → Steps f f
  more : {f g h : Flags} → Step f g → Steps g h → Steps f h

-- The fuel of a context, with what the functions of the interface test of it.
pub record Fueled : Type 0 where
  pub poisoned : Bool
  pub has_module : Bool
  pub meter : Meter

abbrev is_not_negative : ℤ → Bool
is_not_negative (pos n) = true
is_not_negative (negsuc n) = false

-- `wah_set_fuel`, on a context that is not NULL.
unfoldable pub set_fuel : Fueled → ℤ → Result Fueled
set_fuel c fuel =
    ensure (not c.poisoned) misuse
    >> (ensure c.has_module misuse
        >> (ensure c.meter.fuel_metering disabled_feature
            >> (ensure (is_not_negative fuel) misuse
                >> ok (record c { meter = record c.meter { fuel = fuel } }))))

-- `wah_get_fuel`
abbrev pub get_fuel : Fueled → ℤ
get_fuel c = c.meter.fuel

-- `wah_locals_fuel_charge`
unfoldable pub locals_fuel_charge : Meter → ℕ → Meter
locals_fuel_charge m num_locals =
    if m.fuel_metering
    then record m { fuel = minus m.fuel (16 * num_locals / bulk_items_per_fuel) }
    else m
