-- ===== src/KeyboardUart/Port/Backlog.antt =====
-- The bound of firmware/src/keyboard_uart.h on everything that host wake can hold,
-- `KBD_HOST_WAKE_BACKLOG_MAX_US`, against what host wake takes; `Power_Service` of main.c waits so long.
use open_controller.Prelude.{
  ℕ, ◌+◌, ◌*◌, ◌≤◌, ◌≡◌, refl, ap, ◌∙◌, ◌⊎◌, inl, inr, true, List, [], ◌∷◌, arith,
}
use open_controller.RtcClock.{ticks_us}
use open_controller.HostWake.{
  HostWake, init, enqueue, set_latest, on_ack, step, step_in, retire, close_frame, send_next,
  take_next, transmit, is_quiet,
}
use open_controller.HostWake.Bound.{Visit, AreNear, total, visits, drains_within}
use open_controller.HostWake.Invariant.{IsValid, init-IsValid}
use open_controller.HostWake.Timing.{IsPaced, IsTimed, frame_ticks}
use open_controller.HostWake.Trace.{Event, apply, run, run-IsValid}
use open_controller.KeyboardUart.Port.{
  guard_us, ack_timeout_us, attempts, backlog_max_us, port_init,
}
use open_controller.MainLoop.{Build, sleep_drain}

-- The times that `KeyboardUart_Init` has set.
record HasTimes (freq : ℕ) (hw : HostWake) : Type 0 where
  guard_lem : hw.guard_ticks ≡ ticks_us freq guard_us
  ack_lem : hw.ack_timeout_ticks ≡ ticks_us freq ack_timeout_us
  tries_lem : hw.max_attempts ≡ attempts

apply_same :
    (hw : HostWake) (e : Event)
    → ((apply hw e).guard_ticks ≡ hw.guard_ticks)
      × ((apply hw e).ack_timeout_ticks ≡ hw.ack_timeout_ticks)
      × ((apply hw e).max_attempts ≡ hw.max_attempts)
unfolding apply enqueue set_latest on_ack step step_in retire close_frame send_next take_next
    transmit
apply_same hw e = (ground arith, ground arith, ground arith)

run-HasTimes :
    (freq : ℕ) (hw : HostWake) (es : List Event) → HasTimes freq hw → HasTimes freq (run hw es)
unfolding run
run-HasTimes freq hw [] h = h
run-HasTimes freq hw (e ∷ es) h =
    let (before, timeout, tries) = apply_same hw e in
    run-HasTimes freq (apply hw e) es (record {
      guard_lem = before ∙ h.guard_lem;
      ack_lem = timeout ∙ h.ack_lem;
      tries_lem = tries ∙ h.tries_lem;
    })

init-HasTimes : (freq : ℕ) → HasTimes freq (port_init freq).wake
unfolding port_init init
init-HasTimes freq = record { guard_lem = refl; ack_lem = refl; tries_lem = refl }

port-IsValid : (freq : ℕ) → IsValid (port_init freq).wake
unfolding port_init
port-IsValid freq = init-IsValid _ _ attempts (omega arith)

-- What the bound allows, at either frequency of the counter.
enough :
    (freq : ℕ) (hw : HostWake)
    → (freq ≡ 32768) ⊎ (freq ≡ 32000)
    → HasTimes freq hw
    → IsPaced hw 27
      × (hw.guard_ticks + 2 * 27 + 10 * frame_ticks 27 hw ≤ ticks_us freq (20000 + backlog_max_us))
enough freq hw (inl f) h =
    let before : hw.guard_ticks ≡ 34 = h.guard_lem ∙ ap (λ f. ticks_us f guard_us) f in
    let timeout : hw.ack_timeout_ticks ≡ 657 = h.ack_lem ∙ ap (λ f. ticks_us f ack_timeout_us) f in
    (
      record {
        some_slack = omega arith;
        prompt = omega (arith, timeout);
        short_guard = omega (arith, before);
        short_ack = omega (arith, timeout);
      },
      rw (before, timeout, h.tries_lem, f) (omega arith),
    )
enough freq hw (inr f) h =
    let before : hw.guard_ticks ≡ 33 = h.guard_lem ∙ ap (λ f. ticks_us f guard_us) f in
    let timeout : hw.ack_timeout_ticks ≡ 641 = h.ack_lem ∙ ap (λ f. ticks_us f ack_timeout_us) f in
    (
      record {
        some_slack = omega arith;
        prompt = omega (arith, timeout);
        short_guard = omega (arith, before);
        short_ack = omega (arith, timeout);
      },
      rw (before, timeout, h.tries_lem, f) (omega arith),
    )

-- With the counter at 32768 or 32000 Hz and the times that `KeyboardUart_Init` sets: whatever frames,
-- ACKs and steps host wake has had, if its current state has not outlasted its wait and no new frame
-- is handed over, then passes of the loop that each come within 27 ticks (0.8 ms) of the one before
-- leave host wake quiet by the time that `Power_Service` gives up draining, whatever ACKs come.
pub backlog_suffices :
    (build : Build) (es : List Event) (start e : ℕ) (l : List Visit)
    → (build.freq_rtc ≡ 32768) ⊎ (build.freq_rtc ≡ 32000)
    → build.backlog_us ≡ backlog_max_us
    → IsTimed (run (port_init build.freq_rtc).wake es) start e
    → AreNear 27 l
    → sleep_drain build ≤ total l
    → is_quiet (visits (run (port_init build.freq_rtc).wake es) (start + e) l) ≡ true
unfolding sleep_drain
backlog_suffices build es start e l f b t n w =
    let first = (port_init build.freq_rtc).wake in
    let hw = run first es in
    let set = run-HasTimes build.freq_rtc first es (init-HasTimes build.freq_rtc) in
    let (paced, bound) = enough build.freq_rtc hw f set in
    let same = ap (λ b. ticks_us build.freq_rtc (20000 + b)) b in
    drains_within 27 start e hw l (run-IsValid first es (port-IsValid build.freq_rtc)) paced t n
      (omega (arith, same, bound, w))
