-- ===== src/Bulk/Loop.antt =====
-- The loop of the bulk operations, for what every chunk keeps.
use wah.Base.{
  ℕ, zero, suc, ◌+◌, ◌-◌, ◌/◌, ◌≤◌, ◌<◌, ◌≡◌, ◌⊎◌, refl, Bool, true, false, ◌&&◌, not, ltb, arith,
}
use mathlib.Core.Path.{subst}
use wah.Base.{ap, ◌∙◌, Bool-cases, Option, none, some, if◌then◌else◌, inl, inr}
use wah.Base.Int.{ℤ, pos, negsuc}
use wah.Bulk.{
  Memory, Meter, bulk_loop, next_chunk, bulk_fuel_limit, bulk_fuel_charge, bulk_should_stop,
  bulk_check_interval, bulk_items_per_fuel, is_spent, limit_of, minus,
}

chunk-fits : (m : Meter) (size done : ℕ) → done ≤ size → done + next_chunk m size done ≤ size
unfolding bulk_fuel_limit
chunk-fits m size done h = go m.fuel_metering m.fuel
  where
    first : ℕ
    first = if ltb (size - done) bulk_check_interval then size - done else bulk_check_interval

    go : (b : Bool) (f : ℤ) → done + (if b then limit_of f first else first) ≤ size
    go false f = ground arith
    go true (pos n) = ground arith
    go true (negsuc n) = ground arith

-- A round that moves nothing is out of fuel.
empty-spent :
    (m : Meter) (size done : ℕ)
    → done < size
    → next_chunk m size done ≡ 0
    → (m.fuel_metering && is_spent m.fuel) ≡ true
unfolding bulk_fuel_limit
empty-spent m size done h e = go m.fuel_metering m.fuel e
  where
    first : ℕ
    first = if ltb (size - done) bulk_check_interval then size - done else bulk_check_interval

    go : (b : Bool) (f : ℤ) → (if b then limit_of f first else first) ≡ 0 → (b && is_spent f) ≡ true
    go false f e = ground arith
    go true (pos n) e = ground arith
    go true (negsuc n) e = refl

charge-zero : (m : Meter) → bulk_fuel_charge m 0 ≡ m
unfolding bulk_fuel_charge
charge-zero m = go m.fuel_metering
  where
    go :
        (b : Bool)
        → (if b && false
            then record m {
              fuel = minus m.fuel ((0 + bulk_items_per_fuel - 1) / bulk_items_per_fuel);
            }
            else m)
          ≡ m
    go true = refl
    go false = refl

spent-stops :
    (m : Meter) (flag : Bool)
    → (m.fuel_metering && is_spent m.fuel) ≡ true
    → bulk_should_stop flag m ≡ true
unfolding bulk_should_stop
spent-stops m true h = refl
spent-stops m false h = h

empty-stops :
    (m : Meter) (n : ℕ) (flag : Bool)
    → n ≡ 0
    → (m.fuel_metering && is_spent m.fuel) ≡ true
    → bulk_should_stop flag (bulk_fuel_charge m n) ≡ true
empty-stops m n flag e h =
    ap (λ k. bulk_should_stop flag (bulk_fuel_charge m k)) e
    ∙ ap (bulk_should_stop flag) (charge-zero m)
    ∙ spent-stops m flag h

module _ (interrupted : ℕ → Bool) (size : ℕ) (chunk_at : ℕ → ℕ → Memory → Memory)
    (P : ℕ → Memory → Type 0)
    (step : (done n : ℕ) (mem : Memory)
      → done + n ≤ size
      → P done mem
      → P (done + n) (chunk_at done n mem)) where
  -- The loop ended with `P` at its progress, which is the whole unless it was told to stop.
  abbrev pub Ended : ℕ → Option (ℕ × Memory × Meter) → Type 0
  Ended done none = ⊥
  Ended done (some (d, mem, m)) =
      P d mem × (done ≤ d) × (d ≤ size) × ((d ≡ size) ⊎ (bulk_should_stop (interrupted d) m ≡ true))

  later : (done n : ℕ) (r : Option (ℕ × Memory × Meter)) → Ended (done + n) r → Ended done r
  later done n none h = h
  later done n (some (d, mem, m)) (p, h, k, e) = (p, omega (arith, h), k, e)

  pub bulk_loop-Ended :
      (rounds : ℕ) (m : Meter) (done : ℕ) (mem : Memory)
      → done ≤ size
      → size - done < rounds
      → P done mem
      → Ended done (bulk_loop interrupted size chunk_at rounds m done mem)
  unfolding bulk_loop
  bulk_loop-Ended zero m done mem hd hr p = ground arith
  bulk_loop-Ended (suc rounds) m done mem hd hr p = go _ _ refl refl (λ h.
      bulk_loop-Ended rounds m' (done + n) (chunk_at done n mem) fits h (step done n mem fits p))
    where
      n : ℕ
      n = next_chunk m size done

      m' : Meter
      m' = bulk_fuel_charge m n

      fits : done + n ≤ size
      fits = chunk-fits m size done hd

      go :
          (a b : Bool)
          → ltb done size ≡ a
          → (ltb (done + n) size && bulk_should_stop (interrupted (done + n)) m') ≡ b
          → (size - (done + n) < rounds
              → Ended
                  (done + n)
                  (bulk_loop interrupted size chunk_at rounds m' (done + n) (chunk_at done n mem)))
          → Ended done (
              if not a
              then some (size, mem, m)
              else if b
              then some (done + n, chunk_at done n mem, m')
              else bulk_loop interrupted size chunk_at rounds m' (done + n) (chunk_at done n mem))
      go false b ea eb ih =
          let e : done ≡ size = ground arith in
          (subst (λ k. P k mem) e p, omega (arith, e), omega arith, inl refl)
      go true true ea eb ih = (step done n mem fits p, omega arith, fits, inr (ground arith))
      go true false ea eb ih = later done n _ (ih (more (Bool-cases (ltb 0 n))))
        where
          more : (ltb 0 n ≡ true) ⊎ (ltb 0 n ≡ false) → size - (done + n) < rounds
          more (inl c) = ground arith
          more (inr c) =
              let z : n ≡ 0 = ground arith in
              let s =
                empty-stops m n (interrupted (done + n)) z
                  (empty-spent m size done (ground arith) z) in
              ground arith
