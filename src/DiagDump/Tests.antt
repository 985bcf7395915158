-- ===== src/DiagDump/Tests.antt =====
-- A run behind a reset by the watchdog, with the dumps of firmware/src/diag_dump.c.
use open_controller.Prelude.{◌≡◌, ◌≢◌, refl, true, false, List, [], ◌∷◌, replicate, arith}
use open_controller.DiagFrame.{Snapshot, format, format_empty, finish, put_snapshot}
use open_controller.DiagFrame.Layout.{InRange, Reads}
use open_controller.KeyboardUart.Transmit.{Reading, wait, send_byte, send_all}
use open_controller.PowerSleep.{
  Sdk, PowerSleep, Boundary, Gates, power_up, rtc_sub, window, holdoff_expired,
}
use open_controller.RfTask.Link.{connected}
use open_controller.DiagDump.{
  no_power, pwr_abort, count_wake, count_sleep, count_armed, count_low_power, hal_sleep_init,
  main_init, unless_frozen, thaw, diag_dump_send, diag_dump_zero,
}
use open_controller.DiagDump.Counting.{
  Event, called, idled, passed, dumped, zeroed, turned_away, with_power, left_by, apply, run,
  IsBalanced, run-IsBalanced,
}
use open_controller.DiagDump.PostMortem.{sent_by, post_mortem}

abbrev memory : Snapshot
memory = record {
  rf_state = 0;
  ll_boot_count = 7;
  rf_pair_bcast_count = 70000;
  rf_valid_rx_count = 2;
  entered_connected_count = 1;
  rf_config_count = 3;
  pwr_pair_rx_off_count = 5;
  pwr_wfi_count = 100000;
  pwr_sleep_attempt = 12;
  pwr_sleep_entered = 9;
  pwr_sleep_aborted = 4;
  pwr_wake_gpio = 5;
  pwr_wake_rtc = 3;
  pwr_last_abort_reason = 7;
  rf_last_config_status = 0;
  rf_last_rx_status = 0;
  rf_last_tx_status = 0;
  ll_drop_count = 1;
  boot_reset_status = 2;
  fault_marker = 0;
  fault_mepc = 0;
  fault_mcause = 0;
  fault_mtval = 0;
  pwr_loop_passes = 60000;
  pwr_loop_stage = 0;
  ll_hid_rx = 300;
  ll_hid_tx = 299;
  ll_hid_rx_down = 150;
  ll_hid_tx_down = 149;
  ll_hid_tx_done_down = 149;
  ll_hid_fifo_drop = 0;
}

abbrev free : Reading
free = record { full = false; clock = 0 }

abbrev stuck : Reading
stuck = record { full = true; clock = 0 }

abbrev late : Reading
late = record { full = true; clock = 6 }

-- A dump to a host that stops taking bytes, one over a link, and some idling between.
abbrev events : List Event
events =
    passed
    ∷ idled
    ∷ dumped 3 0 (free ∷ free ∷ stuck ∷ late ∷ [])
    ∷ dumped 3 2 (replicate 3 free)
    ∷ zeroed 2
    ∷ passed
    ∷ []

frozen_test : (run (main_init 2 (hal_sleep_init 2 memory)) events).frozen ≡ true
unfolding run apply main_init hal_sleep_init unless_frozen left_by diag_dump_send thaw send_all
    send_byte wait diag_dump_zero format format_empty finish put_snapshot
frozen_test = refl

range :
    InRange (record (run (main_init 2 (hal_sleep_init 2 memory)) events).counters { rf_state = 0 })
unfolding run apply main_init hal_sleep_init unless_frozen left_by diag_dump_send thaw send_all
    send_byte wait diag_dump_zero format format_empty finish put_snapshot
range = ground arith

thawed_test :
    (left_by (run (main_init 2 (hal_sleep_init 2 memory)) events) (
      diag_dump_send 3 0
        (run (main_init 2 (hal_sleep_init 2 memory)) events)
        (replicate 92 free))).frozen
    ≡ false
unfolding run apply main_init hal_sleep_init unless_frozen left_by diag_dump_send thaw send_all
    send_byte wait diag_dump_zero format format_empty finish put_snapshot
thawed_test = refl

post_mortem_example :
    (0 ≢ connected)
    × Reads
        (with_power memory
          (record (run (main_init 2 (hal_sleep_init 2 memory)) events).counters { rf_state = 0 }))
        (sent_by (
          diag_dump_send 3 0
            (run (main_init 2 (hal_sleep_init 2 memory)) events)
            (replicate 92 free)))
post_mortem_example =
    post_mortem 2 memory events 3 0 (replicate 92 free) refl frozen_test range thawed_test

-- Auto-sleep is armed while a connection is up: one call of the callback is turned away, one behind
-- the connection's end is tried.
abbrev armed : PowerSleep
armed = record power_up { autosleep = true }

abbrev sdk : Sdk
sdk = record {
  max_count = 0xa8c00000;
  wake_up_max = 40;
  sleep_min = 33;
  sleep_max = 0xa8b00000;
  holdoff = 3277;
}

abbrev linked : Gates
linked = record {
  rf_idle = false;
  can_deep_sleep = false;
  openboot_pending = false;
  tx_idle = true;
  rx_quiet = true;
  rx_activity = false;
  now = 100;
}

abbrev still : Boundary
still = record {
  unmasked = true;
  now = 100;
  rx_busy = false;
  trigger_due = false;
  edge_before = false;
  trigger_fired = true;
  pin_fired = false;
  woken_at = 0;
  edge_behind = false;
}

abbrev calls : List Event
calls =
    called sdk linked still armed 5000
    ∷ called sdk (record linked { rf_idle = true }) still armed 5000
    ∷ []

refused_test : (run (main_init 1 (hal_sleep_init 1 memory)) calls).counters.pwr_sleep_aborted ≡ 1
unfolding run apply main_init hal_sleep_init unless_frozen count_low_power count_armed count_sleep
    count_wake pwr_abort holdoff_expired rtc_sub window no_power
refused_test = refl

run-IsBalanced_example :
    IsBalanced
      (turned_away (main_init 1 (hal_sleep_init 1 memory)) 0 calls)
      (run (main_init 1 (hal_sleep_init 1 memory)) calls).counters
run-IsBalanced_example = run-IsBalanced 1 memory calls refl
