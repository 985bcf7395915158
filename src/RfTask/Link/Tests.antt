-- ===== src/RfTask/Link/Tests.antt =====
-- A run of the link of firmware/src/rf_task.c, from power-up over a session to rest and back, and
-- its theorems at work on it.
use open_controller.Prelude.{
  ℕ, ◌≡◌, refl, true, false, none, some, List, [], ◌∷◌, ◌++◌, if◌then◌else◌,
}
use open_controller.RfTask.Bond.{Bond}
use open_controller.RfTask.Reports.{same_bytes, hid_key_held, is_down}
use open_controller.RfTask.Reports.{enter_connected as reports_enter_connected}
use open_controller.RfTask.Reports.History.{contents, initial, first}
use open_controller.RfTask.Reports.History as Reported
use open_controller.RfTask.Link.{
  Outcome, shut, started, is_asked, pairing, connected, resting, evt_pair_bcast,
  evt_enter_connected, evt_rest_idle, evt_rest_probe, evt_rest_probe_timeout, evt_rest_stage2,
  rest_probe_ticks, rest_stage2_ticks, tell, configure_if_needed, start_rx,
}
use open_controller.RfTask.Link.Resting.{
  begin_search, rest_arm_idle, rest_enter, rest_go_quiet, rest_probe_start, rest_cancel,
}
use open_controller.RfTask.Link.Callback.{
  rx_data, eff_interval, relayed_led, on_offer, on_poll_frame, on_frame, status_callback,
}
use open_controller.RfTask.Link.Handlers.{
  process_event, handle, pair_broadcast, pair_channel, enter_connected, begin_session, on_rest_idle,
}
use open_controller.RfTask.Link.Calls.{rf_task_init, can_deep_sleep, rf_queue_hid_report}
use open_controller.RfTask.Link.Histories.{Input, due, interrupted, when_asked, apply, run, booted}
use open_controller.RfTask.Link.Invariant.{Sound, run-Sound}
use open_controller.RfTask.Link.Tuning.{Tuned, run-Tuned, sleeps_shut}
use open_controller.RfTask.Link.Delivery.{of_history, link_delivers}
use open_controller.RfTask.Link.Announcements.{Announced, run-Announced}
use open_controller.RfTask.Link.Cadence.{in_time, IsTimely, probes_on}
use open_controller.RfTask.Link.Waking.{goes_on, GoOn, report_wakes}

abbrev keyboard : List ℕ
keyboard = 0xbd ∷ 0xc3 ∷ 0xab ∷ 0x10 ∷ 0x53 ∷ 0x5c ∷ []

abbrev paired : Bond
paired = record {
  has_bond = true;
  dongle_mac = 1 ∷ 2 ∷ 3 ∷ 4 ∷ 5 ∷ 6 ∷ [];
  session_aa = 0x12345678;
  type_tag = 2;
}

abbrev fine : Outcome
fine = record { config_ok = true; tx_started = true }

-- The dongle's frame of 15 bytes, behind the signal strength and the length.
abbrev offer : List ℕ
offer = 200 ∷ 15 ∷ 0x12 ∷ 0x34 ∷ 0x56 ∷ 0x78 ∷ 2 ∷ 28 ∷ 0 ∷ 0 ∷ 0 ∷ 1 ∷ 2 ∷ 3 ∷ 4 ∷ 5 ∷ 6 ∷ []

abbrev linking : List Input
linking =
    due evt_pair_bcast fine
    ∷ interrupted (rx_data (some offer)) 5000 5000
    ∷ due evt_enter_connected fine
    ∷ []

abbrev polled : List Input
polled = linking ++ interrupted (rx_data (some (200 ∷ 1 ∷ 3 ∷ []))) 5030 5030 ∷ []

abbrev resting_again : List Input
resting_again = linking ++ due evt_rest_idle fine ∷ []

abbrev probed : List Input
probed = resting_again ++ due evt_rest_probe fine ∷ due evt_rest_probe_timeout fine ∷ []

-- The module is linked, and rests again; it may sleep behind its first probe, which is missed.
polled_test :
    ((run (booted keyboard true paired) polled).state ≡ connected)
    × ((run (booted keyboard true paired) polled).answer.is_pending ≡ true)
unfolding run apply when_asked is_asked status_callback on_frame on_offer eff_interval same_bytes
    on_poll_frame relayed_led booted rf_task_init begin_search tell process_event handle
    pair_broadcast pair_channel configure_if_needed start_rx enter_connected reports_enter_connected
    begin_session rest_arm_idle on_rest_idle rest_enter rest_go_quiet hid_key_held is_down
    rest_probe_start rest_cancel can_deep_sleep IsTimely in_time
polled_test = (refl, refl)

rested_test : (run (booted keyboard true paired) resting_again).state ≡ resting
unfolding run apply when_asked is_asked status_callback on_frame on_offer eff_interval same_bytes
    on_poll_frame relayed_led booted rf_task_init begin_search tell process_event handle
    pair_broadcast pair_channel configure_if_needed start_rx enter_connected reports_enter_connected
    begin_session rest_arm_idle on_rest_idle rest_enter rest_go_quiet hid_key_held is_down
    rest_probe_start rest_cancel can_deep_sleep IsTimely in_time
rested_test = refl

probed_test :
    (can_deep_sleep (run (booted keyboard true paired) probed) ≡ true)
    × ((run (booted keyboard true paired) probed).rest.stage ≡ 1)
    × ((run (booted keyboard true paired) probed).rest.wake ≡ false)
    × IsTimely (booted keyboard true paired) probed
unfolding run apply when_asked is_asked status_callback on_frame on_offer eff_interval same_bytes
    on_poll_frame relayed_led booted rf_task_init begin_search tell process_event handle
    pair_broadcast pair_channel configure_if_needed start_rx enter_connected reports_enter_connected
    begin_session rest_arm_idle on_rest_idle rest_enter rest_go_quiet hid_key_held is_down
    rest_probe_start rest_cancel can_deep_sleep IsTimely in_time
probed_test = (refl, refl, refl, (refl, (refl, (refl, (refl, (refl, (refl, record {})))))))

going : GoOn (due evt_pair_bcast fine ∷ [])
unfolding GoOn goes_on
going = (refl, record {})

abbrev a_down : List ℕ
a_down = 0 ∷ 0 ∷ 4 ∷ 0 ∷ 0 ∷ 0 ∷ 0 ∷ 0 ∷ []

run-Sound_example : Sound (run (booted keyboard true paired) probed)
run-Sound_example = run-Sound keyboard true paired probed

run-Tuned_example : Tuned (run (booted keyboard true paired) polled)
run-Tuned_example = run-Tuned keyboard true paired polled

run-Announced_example : Announced (run (booted keyboard true paired) probed)
run-Announced_example = run-Announced keyboard true paired probed

sleeps_shut_example : (run (booted keyboard true paired) probed).radio.mode ≡ shut
sleeps_shut_example = sleeps_shut keyboard true paired probed probed_test.0

link_delivers_example :
    let reports = (run (booted keyboard true paired) polled).reports in
    let session = Reported.run initial (of_history (booted keyboard true paired) polled) in
    (session.gone ++ contents reports ≡ session.log)
    × (session.on_air ≡ (if reports.head_sent then first (contents reports) else none))
link_delivers_example = link_delivers keyboard true paired polled

probes_on_example :
    ((run (booted keyboard true paired) probed).tasks evt_rest_probe ≡ started rest_probe_ticks)
    × ((run (booted keyboard true paired) probed).tasks evt_rest_stage2 ≡ started rest_stage2_ticks)
probes_on_example = probes_on keyboard true paired probed probed_test.3 probed_test.1 probed_test.2

report_wakes_example :
    let rests = run (booted keyboard true paired) resting_again in
    let woken = run (rf_queue_hid_report rests a_down) (due evt_pair_bcast fine ∷ []) in
    let session = process_event woken evt_enter_connected fine in
    (woken.state ≡ pairing)
    × (woken.rest.wake ≡ true)
    × (is_asked (woken.tasks evt_pair_bcast) ≡ true)
    × (session.state ≡ connected)
    × (session.rest.stage ≡ 0)
    × (session.rest.probe ≡ false)
    × (session.calls ≡ woken.calls)
report_wakes_example =
    report_wakes keyboard true paired resting_again a_down (due evt_pair_bcast fine ∷ []) fine
      rested_test going
