-- ===== src/KeyboardUart/Port/Tests.antt =====
-- The bound on host wake's backlog of firmware/src/keyboard_uart.h at work.
use open_controller.Prelude.{
  ℕ, zero, suc, ◌+◌, ◌*◌, ◌≤◌, ◌≡◌, refl, inl, true, false, List, [], ◌∷◌, replicate, arith,
}
use open_controller.HostWake.{init, enqueue, step, step_in, have_pending, is_quiet}
use open_controller.HostWake.Bound.{Visit, AreNear, total, visits}
use open_controller.HostWake.Timing.{IsTimed}
use open_controller.HostWake.Trace.{Event, offer, poll, apply, run}
use open_controller.KeyboardUart.Port.{backlog_max_us, port_init}
use open_controller.KeyboardUart.Port.Backlog.{backlog_suffices}
use open_controller.MainLoop.{Build, sleep_drain}

abbrev build : Build
build = record {
  host_wake = true;
  diag_dump = false;
  freq_rtc = 32768;
  backlog_us = backlog_max_us;
}

-- A status frame that has brought the guard time about.
abbrev offered : List Event
offered = offer 0x5B 0x37 ∷ poll 1000 ∷ []

offered-IsTimed : IsTimed (run (port_init 32768).wake offered) 1000 5
unfolding run apply port_init init enqueue step step_in have_pending
offered-IsTimed = record { since_lem = refl; in_time = omega arith }

-- The host never answers, and the loop comes by every 25 ticks.
abbrev silent : ℕ → List Visit
silent n = replicate n (false, 25)

near : (n : ℕ) → AreNear 27 (silent n)
unfolding AreNear
near zero = record {}
near (suc n) = (omega arith, near n)

total-silent : (n : ℕ) → total (silent n) ≡ n * 25
unfolding total
total-silent zero = refl
total-silent (suc n) = omega (arith, total-silent n)

long_enough : sleep_drain build ≤ total (silent 1100)
unfolding sleep_drain
long_enough = omega (arith, total-silent 1100)

backlog_suffices_example :
    is_quiet (visits (run (port_init 32768).wake offered) (1000 + 5) (silent 1100)) ≡ true
backlog_suffices_example =
    backlog_suffices build offered 1000 5 (silent 1100) (inl refl) refl offered-IsTimed (near 1100)
      long_enough
