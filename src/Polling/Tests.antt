-- ===== src/Polling/Tests.antt =====
-- An interrupt that is requested while the poll flag is recomputed.
use wah.Base.{◌≡◌, refl, true}
use wah.Polling.{
  Flags, Steps, first, second, recompute, more, done, request_first, request_second, recompute_step,
  outside,
}
use wah.Polling.Interrupts.{idle, Steps-interrupt-polled}

-- The store of 0 falls between the two stores of the request, and the load after both.
abbrev raced : Flags
raced = recompute_step (recompute_step (request_second 0 (recompute_step (request_first idle))))

race : Steps idle raced
unfolding recompute_step
race = more (first idle) (
    more (recompute (request_first idle)) (
      more (second (recompute_step (request_first idle)) 0 refl) (
        more (recompute (request_second 0 (recompute_step (request_first idle)))) (
          more (recompute (recompute_step (request_second 0 (recompute_step (request_first idle)))))
            done))))

raced-quiet : (raced.runner ≡ outside) × (raced.pending ≡ 0) × (raced.interrupt_flag ≡ true)
unfolding recompute_step
raced-quiet = (refl, refl, refl)

Steps-interrupt-polled_example : raced.poll_flag ≡ true
Steps-interrupt-polled_example =
    Steps-interrupt-polled raced race raced-quiet.0 raced-quiet.1 raced-quiet.2
