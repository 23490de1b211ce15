-- ===== src/Timer/Tests.antt =====
-- An instance of the theorem about the timer callbacks of kernel/src/timer.c.
use stewieos.Prelude.{◌≡◌, refl, none, some, ◌==◌, if◌then◌else◌, arith}
use stewieos.Timer.{Timers, timer_cancel, free_slot, timer_callback}
use stewieos.Timer.Hang.{timer_callback_hangs}

-- Slot 0 is to fire at tick 10, and the others are free.
abbrev one_timer : Timers
one_timer = record {
  when = λ i. if i == 0 then 10 else timer_cancel;
  callback = λ i. 0;
  context = λ i. 0;
  next_of = λ i. none;
  prev_of = λ i. none;
  next_callback = some 0;
}

timer_callback_hangs_example : timer_callback 1000 128 20 0 7 one_timer ≡ none
timer_callback_hangs_example =
    timer_callback_hangs 1000 128 20 0 7 0 1 one_timer (unfold free_slot in refl)
      (λ e. ground (arith, e)) refl refl (omega arith)
