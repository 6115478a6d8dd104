-- ===== src/Polling/Interrupts.antt =====
-- The interrupt flag and the poll flag over interleaved accesses.
use wah.Base.{◌≤◌, ◌≡◌, ◌⊎◌, inl, inr, refl, sym, ◌∙◌, Bool, true, false, if◌then◌else◌, arith}
use wah.Polling.{
  Flags, Runner, outside, cleared, seen, Step, Steps, first, second, take, recompute, schedule,
  collect, done, more, recompute_step, recompute_at,
}

-- An interrupt that is requested is seen by the poll flag, or will be by a store that is still to come.
abbrev pub Noticed : Flags → Type 0
Noticed f =
    f.interrupt_flag ≡ true
    → (f.poll_flag ≡ true) ⊎ (f.runner ≡ cleared) ⊎ (f.runner ≡ seen) ⊎ (1 ≤ f.pending)

started-Noticed :
    (f : Flags) (b : Bool)
    → Noticed (
        if b
        then record f { poll_flag = true }
        else record f { poll_flag = false; runner = cleared })
started-Noticed f true = λ e. inl refl
started-Noticed f false = λ e. inr (inl refl)

loaded-Noticed :
    (f : Flags) (b : Bool)
    → f.interrupt_flag ≡ b
    → Noticed (if b then record f { runner = seen } else record f { runner = outside })
loaded-Noticed f true e = λ h. inr (inr (inl refl))
loaded-Noticed f false e = λ h. absurd_bool (sym h ∙ e)
  where
    absurd_bool :
        true ≡ false
        → (f.poll_flag ≡ true) ⊎ (outside ≡ cleared) ⊎ (outside ≡ seen) ⊎ (1 ≤ f.pending)
    absurd_bool k = cc

recompute-Noticed : (f : Flags) → Noticed (recompute_step f)
unfolding recompute_step
recompute-Noticed f = go f.runner
  where
    go : (r : Runner) → Noticed (recompute_at r f)
    go outside = started-Noticed f f.gc_pending
    go cleared = loaded-Noticed f f.interrupt_flag refl
    go seen = λ e. inl refl

Step-Noticed : {f g : Flags} → Step f g → Noticed f → Noticed g
Step-Noticed (first f) h = λ e. inr (inr (inr (omega arith)))
Step-Noticed (second f n e) h = λ e. inl refl
Step-Noticed (take f e) h = λ k. cc
Step-Noticed (recompute f) h = recompute-Noticed f
Step-Noticed (schedule f e) h = λ k. inl refl
Step-Noticed (collect f e) h = h

Steps-Noticed : {f g : Flags} → Steps f g → Noticed f → Noticed g
Steps-Noticed done h = h
Steps-Noticed (more s t) h = Steps-Noticed t (Step-Noticed s h)

abbrev pub idle : Flags
idle = record {
  interrupt_flag = false;
  poll_flag = false;
  gc_pending = false;
  runner = outside;
  pending = 0;
}

-- However the accesses of the running thread and of the threads that request interrupts are
-- interleaved, an interrupt is not lost: when no thread is in the midst of its accesses and the
-- interrupt flag is set, the poll flag is set.
pub Steps-interrupt-polled :
    (f : Flags)
    → Steps idle f
    → f.runner ≡ outside
    → f.pending ≡ 0
    → f.interrupt_flag ≡ true
    → f.poll_flag ≡ true
Steps-interrupt-polled f s r p e = quiet (Steps-Noticed s (λ k. cc) e)
  where
    quiet :
        (f.poll_flag ≡ true) ⊎ (f.runner ≡ cleared) ⊎ (f.runner ≡ seen) ⊎ (1 ≤ f.pending)
        → f.poll_flag ≡ true
    quiet (inl k) = k
    quiet (inr (inl k)) = cc
    quiet (inr (inr (inl k))) = cc
    quiet (inr (inr (inr k))) = ground (arith, p, k)
