-- ===== src/RfTask/Hop/Tests.antt =====
-- Runs of the hop of firmware/src/rf_task.c, and the hypotheses of its theorems at work.
use open_controller.Prelude.{ℕ, ◌≤◌, ◌≡◌, refl, false, List, [], ◌∷◌, arith}
use open_controller.RfTask.Hop.{
  Hop, rtc_add, rtc_delta, servo_deadband, rtc_signed_delta, hop_tick, tick_after, turn_down,
  hop_by, hop_servo, corrected,
}
use open_controller.RfTask.Hop.Servo.{
  magnitude, phase_error, slot, slots, is_due, AreDue, servo_locks,
}
use open_controller.RfTask.Hop.Tracking.{InStep, IsInStep, IsShort, after, after-IsInStep}

-- Twenty ticks before the counter turns.
abbrev late : ℕ
late = 2831155180

rtc_add_test : rtc_add late 30 ≡ 10
unfolding rtc_add turn_down
rtc_add_test = refl

rtc_delta_test : rtc_delta 10 late ≡ 30
unfolding rtc_delta
rtc_delta_test = refl

abbrev followed : Hop
followed = record {
  anchor = late;
  since_rx = 0;
  data_idx = 3;
  provisional = false;
  conn_interval = 28;
}

-- Thirty ticks on is one interval: the counter has turned and the channel is the next.
hop_tick_test : (hop_tick followed 10).0.data_idx ≡ 4
unfolding hop_tick tick_after hop_by rtc_add rtc_delta turn_down
hop_tick_test = refl

starts : InStep late 3 28 followed 2831155185 0 0
starts = record {
  followed = refl;
  cadence = refl;
  anchored = refl;
  channel = refl;
  reached = omega arith;
  near = omega arith;
  early_le = omega arith;
  fresh = λ k. refl;
  settled = omega arith;
}

after-IsInStep_example :
    IsInStep late 3 28
      (after followed 2831155185 (30 ∷ 100 ∷ 7 ∷ [])).0
      (after followed 2831155185 (30 ∷ 100 ∷ 7 ∷ [])).1
unfolding IsShort IsInStep
after-IsInStep_example =
    after-IsInStep late 3 28 followed 2831155185 (30 ∷ 100 ∷ 7 ∷ []) (omega arith) (omega arith)
      (0, 0, starts) (omega arith, (omega arith, (omega arith, record {})))

abbrev times : List ℕ
times = 10 ∷ 39 ∷ []

due : AreDue followed 2831155183 times
unfolding AreDue is_due slot hop_tick tick_after hop_by hop_servo corrected rtc_signed_delta rtc_add
    rtc_delta turn_down
due = (refl, (refl, record {}))

-- The polls are three ticks ahead, and the counter turns.
servo_locks_example :
    phase_error (slots followed 2831155183 times).1 (slots followed 2831155183 times).0.anchor
    ≤ servo_deadband
unfolding magnitude rtc_signed_delta
servo_locks_example =
    servo_locks followed 2831155183 times
      (record {
        caught = refl;
        polled = refl;
        cadence = omega arith;
        anchor_lt = omega arith;
        ref_lt = omega arith;
      })
      due (ground arith)
