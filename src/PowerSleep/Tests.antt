-- ===== src/PowerSleep/Tests.antt =====
-- The deep sleep of firmware/src/power_sleep.c at work, and the hypotheses of its theorems.
use open_controller.Prelude.{◌+◌, ◌-◌, ◌%◌, ◌≤◌, ◌≡◌, refl, true, false, some, List, [], ◌∷◌, arith}
use open_controller.RfTask.Bond.{Bond}
use open_controller.RfTask.Link.{tell}
use open_controller.RfTask.Link.Calls.{rf_task_init, can_deep_sleep}
use open_controller.RfTask.Link.Handlers.{process_event, handle}
use open_controller.RfTask.Link.Histories.{run, booted, when_asked}
use open_controller.SleepProtocol.{elapsed_ticks}
use open_controller.PowerSleep.{
  Sdk, PowerSleep, Boundary, Gates, power_up, backstep_tolerance, rtc_sub, note_activity,
  holdoff_expired, window, sleep_until, sleep_explicit, low_power,
}
use open_controller.PowerSleep.Window.{IsClock, wakes_in_time}
use open_controller.PowerSleep.Holdoff.{
  Look, Watch, noted, checked, watch, visit, is_close, is_level, is_soon, AreSoon, IsTuned,
  active_at, holdoff_kept,
}
use open_controller.PowerSleep.Gate.{Passed, low_power-Passed, linked_gates}

abbrev sdk : Sdk
sdk = record {
  max_count = 0xa8c00000;
  wake_up_max = 40;
  sleep_min = 33;
  sleep_max = 0xa8b00000;
  holdoff = 3277;
}

clock : IsClock sdk
clock = record { turn = omega arith; early = omega arith }

-- Nothing pends; the clock is a hundred ticks in front of its turn.
abbrev still : Boundary
still = record {
  unmasked = true;
  now = 0xa8bfff9c;
  rx_busy = false;
  trigger_due = false;
  edge_before = false;
  trigger_fired = true;
  pin_fired = false;
  woken_at = 0;
  edge_behind = false;
}

abbrev open_gates : Gates
open_gates = record {
  rf_idle = true;
  can_deep_sleep = true;
  openboot_pending = false;
  tx_idle = true;
  rx_quiet = true;
  rx_activity = false;
  now = 0xa8bfff9c;
}

abbrev asked : PowerSleep
asked = record power_up { explicit_request = true }

-- The deadline is a thousand ticks on, behind the turn of the counter.
entered_test : (sleep_until sdk still power_up 900).entered ≡ some 860
unfolding sleep_until rtc_sub window
entered_test = refl

wakes_in_time_example :
    ((still.now + window sdk 860 still.now) % sdk.max_count ≡ 860)
    × ((860 + sdk.wake_up_max) % sdk.max_count ≡ 900)
    × (sdk.sleep_min ≤ window sdk 860 still.now)
    × (window sdk 860 still.now ≤ sdk.sleep_max)
wakes_in_time_example =
    wakes_in_time sdk still power_up 900 860 clock (omega arith) (omega arith) entered_test

asked_test : (low_power sdk open_gates still asked 900).entered ≡ some 860
unfolding low_power sleep_explicit sleep_until rtc_sub window
asked_test = refl

low_power-Passed_example :
    Passed sdk open_gates still asked (low_power sdk open_gates still asked 900)
low_power-Passed_example = low_power-Passed sdk open_gates still asked 900 860 asked_test

abbrev unpaired : Bond
unpaired = record { has_bond = false; dongle_mac = []; session_aa = 0; type_tag = 0 }

linked_test :
    (low_power sdk
      (linked_gates open_gates (run (booted [] true unpaired) []))
      still
      asked
      900).entered
    ≡ some 860
unfolding low_power sleep_explicit sleep_until rtc_sub window linked_gates can_deep_sleep run booted
    rf_task_init when_asked process_event handle tell
linked_test = refl

-- An activity, a look whose reading steps back behind it, one within the hold-off, and one behind
-- it, across the counter's turn.
abbrev looks : List Look
looks = noted 50 0 ∷ checked false 10 40 ∷ checked false 1000 0 ∷ []

abbrev watched : Watch
watched = watch sdk (active_at sdk power_up 2831155000 7) looks

soon : AreSoon sdk (active_at sdk power_up 2831155000 7) looks
unfolding AreSoon is_soon is_close is_level visit note_activity holdoff_expired elapsed_ticks
soon = (refl, (refl, (refl, record {})))

last_soon : is_soon sdk watched (checked false 2270 3) ≡ true
unfolding is_soon is_close is_level watch visit note_activity holdoff_expired elapsed_ticks
last_soon = refl

expired :
    (holdoff_expired sdk watched.sleep false ((watched.now + 2270 - 3) % sdk.max_count)).1 ≡ true
unfolding watch visit note_activity holdoff_expired elapsed_ticks
expired = refl

tuned : IsTuned sdk
tuned = record { turn = omega arith; long = omega arith; held = omega arith }

holdoff_kept_example :
    (watched.shown + sdk.holdoff ≤ watched.now + 2270)
    × (watched.last ≤ watched.shown + backstep_tolerance)
holdoff_kept_example =
    holdoff_kept sdk power_up 2831155000 7 looks false 2270 3 tuned (omega arith) (omega arith) soon
      last_soon expired
