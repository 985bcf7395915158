-- ===== src/System/Tests.antt =====
-- Runs of the whole module of firmware/src/main.c, and its theorems at work on them.
use open_controller.Prelude.{ℕ, ◌≡◌, refl, true, false, none, some, List, [], ◌∷◌, ◌++◌, arith}
use open_controller.KeyboardUart.Parser.{callback, host_ack}
use open_controller.KeyboardUart.Port.Line.{IsSteady}
use open_controller.RfTask.Bond.{Bond}
use open_controller.RfTask.Link.{Outcome, evt_pair_bcast, evt_enter_connected, evt_notify_led}
use open_controller.RfTask.Link.Callback.{rx_data}
use open_controller.RfTask.Link.Histories.{booted}
use open_controller.KeyboardUart.Port.{
  port_init, send_host_frame, send_status, send_led, drive, service, take_led_lost, host_wake_idle,
  tx_idle,
}
use open_controller.KeyboardUart.Port.{host_ack as port_ack}
use open_controller.HostWake.{
  init, enqueue, set_latest, on_ack, have_pending, transmit, take_next, send_next, close_frame,
  retire, step, step_in, is_quiet,
}
use open_controller.RfTask.Reports.{same_bytes}
use open_controller.RfTask.Reports.{enter_connected as reports_enter_connected}
use open_controller.RfTask.Link.{tell, configure_if_needed, start_rx, is_asked}
use open_controller.RfTask.Link.Callback.{
  status_callback, on_frame, on_offer, eff_interval, on_poll_frame, relayed_led,
}
use open_controller.RfTask.Link.Calls.{rf_task_init}
use open_controller.RfTask.Link.Handlers.{
  process_event, handle, pair_broadcast, pair_channel, enter_connected, begin_session,
}
use open_controller.RfTask.Link.Histories.{when_asked}
use open_controller.RfTask.Link.Histories.{apply as link_apply}
use open_controller.RfTask.Link.Resting.{begin_search, rest_arm_idle, rest_cancel}
use open_controller.MainLoop.{
  reply, sleep_part, command, handle_uart_frame, openboot_service, power_service,
}
use open_controller.MainLoop.Histories.{services, any_call, is_request_update}
use open_controller.PowerSleep.{
  set_autosleep, note_activity, request_explicit, cancel_explicit, low_power, sleep_explicit,
  sleep_until, rtc_sub, window,
}
use open_controller.RfTask.Link.Calls.{rf_disconnect, rf_flush_bond_save, rest_probing}
use open_controller.SleepProtocol.{on_frame as reduce, arbitrate, is_state_changing}
use open_controller.System.{
  apply, follow, settle, make, make_all, serve, hear, frame, answers, perform, perform_all, attend,
  heartbeat_follow, may_idle, gates, Board, Event, scheduled, on_air, heard, served, attended,
  Readings, Idle, circulate, idles, rest, run, boot,
}
use open_controller.System.Heeding.{said, nothing, IsHeeded, run-IsHeeded}
use open_controller.System.Idling.{OwesNothing, idle-OwesNothing}
use open_controller.System.Leds.{shown_at, led_arrives}
use open_controller.System.Lines.{run-IsSteady}
use open_controller.System.Linked.{Reaches}
use open_controller.System.Simulation.{run-Reaches}
use open_controller.System.Waking.{IsSafe, rest-IsSafe}

abbrev board : Board
board = record {
  build = record { host_wake = true; diag_dump = false; freq_rtc = 32768; backlog_us = 810000 };
  sdk = record {
    max_count = 0xa8c00000;
    wake_up_max = 40;
    sleep_min = 33;
    sleep_max = 0xa8b00000;
    holdoff = 3277;
  };
  freq_rtc = 32768;
}

abbrev mac : List ℕ
mac = 0xbd ∷ 0xc3 ∷ 0xab ∷ 0x10 ∷ 0x53 ∷ 0x5c ∷ []

abbrev paired : Bond
paired = record {
  has_bond = true;
  dongle_mac = 1 ∷ 2 ∷ 3 ∷ 4 ∷ 5 ∷ 6 ∷ [];
  session_aa = 0x12345678;
  type_tag = 2;
}

abbrev unpaired : Bond
unpaired = record { has_bond = false; dongle_mac = []; session_aa = 0; type_tag = 0 }

abbrev fine : Outcome
fine = record { config_ok = true; tx_started = true }

-- The dongle's frame of 15 bytes, behind the signal strength and the length.
abbrev offer : List ℕ
offer = 200 ∷ 15 ∷ 0x12 ∷ 0x34 ∷ 0x56 ∷ 0x78 ∷ 2 ∷ 28 ∷ 0 ∷ 0 ∷ 0 ∷ 1 ∷ 2 ∷ 3 ∷ 4 ∷ 5 ∷ 6 ∷ []

-- The module is linked, and the dongle relays an LED byte.
abbrev relaying : List Event
relaying =
    scheduled evt_pair_bcast fine
    ∷ on_air (rx_data (some offer)) 5000 5000
    ∷ scheduled evt_enter_connected fine
    ∷ on_air (rx_data (some (200 ∷ 3 ∷ 1 ∷ 0xA1 ∷ 5 ∷ []))) 5030 5030
    ∷ scheduled evt_notify_led fine
    ∷ []

-- The host is woken, and ACKs the LED frame and the four status frames.
abbrev acked : List Event
acked =
    relaying
    ++ served 0
      ∷ served 100
      ∷ heard 110 host_ack
      ∷ served 120
      ∷ heard 130 host_ack
      ∷ served 140
      ∷ heard 150 host_ack
      ∷ served 160
      ∷ heard 170 host_ack
      ∷ served 180
      ∷ heard 190 host_ack
      ∷ []

acked_test :
    ((run board (boot board mac true paired) acked).left ≡ false)
    × ((run board (boot board mac true paired) (acked ++ served 200 ∷ [])).link.last_led_sent ≡ 5)
unfolding run boot apply follow settle make make_all serve hear port_init send_host_frame
    send_status send_led drive service take_led_lost init enqueue set_latest on_ack have_pending
    transmit take_next send_next close_frame retire step step_in status_callback on_frame on_offer
    eff_interval on_poll_frame relayed_led process_event handle pair_broadcast pair_channel
    enter_connected reports_enter_connected begin_session begin_search rest_arm_idle tell
    configure_if_needed start_rx rf_task_init when_asked link_apply booted port_ack same_bytes
    is_asked
acked_test = (refl, refl)

quiet_test :
    (is_asked (
        (run board (boot board mac true paired) (acked ++ served 200 ∷ [])).link.tasks
          evt_notify_led)
      ≡ false)
    × (host_wake_idle true (run board (boot board mac true paired) (acked ++ served 200 ∷ [])).port
        ≡ true)
unfolding run boot apply follow settle make make_all serve hear port_init send_host_frame
    send_status send_led drive service take_led_lost init enqueue set_latest on_ack have_pending
    transmit take_next send_next close_frame retire step step_in status_callback on_frame on_offer
    eff_interval on_poll_frame relayed_led process_event handle pair_broadcast pair_channel
    enter_connected reports_enter_connected begin_session begin_search rest_arm_idle tell
    configure_if_needed start_rx rf_task_init when_asked link_apply booted port_ack same_bytes
    is_asked host_wake_idle is_quiet
quiet_test = (refl, refl)

led_arrives_example :
    shown_at board (boot board mac true paired) none (acked ++ served 200 ∷ [])
    ≡ some (run board (boot board mac true paired) (acked ++ served 200 ∷ [])).link.pending_led
led_arrives_example =
    led_arrives board mac true paired acked 200 acked_test.0
      (λ e. absurd (omega (arith, e, acked_test.1))) quiet_test.0 quiet_test.1

run-Reaches_example :
    Reaches (booted mac true paired) (run board (boot board mac true paired) acked).link
run-Reaches_example = run-Reaches board mac true paired acked

run-IsSteady_example : IsSteady (run board (boot board mac true paired) acked).port
run-IsSteady_example = run-IsSteady board mac true paired acked

abbrev drained : Readings
drained = record {
  now = 300;
  tfc = 0;
  all_empty = true;
  later = 300;
  tfc_later = 0;
  all_empty_later = true;
}

-- The host unlocks the sleep protocol, ACKs the answer, and asks for sleep.
abbrev asking : List Event
asking =
    heard 0 (callback 0xA6 0x56 [] 0)
    ∷ served 0
    ∷ served 100
    ∷ heard 110 host_ack
    ∷ served 120
    ∷ heard 200 (callback 0xA6 0x54 [] 0)
    ∷ attended drained
    ∷ attended drained
    ∷ []

run-IsHeeded_example :
    IsHeeded
      (run board (boot board mac true unpaired) asking).device
      (run board (boot board mac true unpaired) asking).power
      (said board (boot board mac true unpaired) nothing asking)
run-IsHeeded_example = run-IsHeeded board mac true unpaired asking

abbrev resting_until : Idle
resting_until = record {
  tfc = 0;
  all_empty = true;
  rx_quiet = true;
  rx_activity = false;
  now = 400;
  boundary = record {
    unmasked = true;
    now = 400;
    rx_busy = false;
    trigger_due = false;
    edge_before = false;
    trigger_fired = true;
    pin_fired = false;
    woken_at = 0;
    edge_behind = false;
  };
  deadline = 2000;
}

asleep_test :
    (rest board resting_until (run board (boot board mac true unpaired) asking)).entered ≡ some 1960
unfolding run boot apply follow settle make make_all serve hear port_init send_host_frame
    send_status send_led drive service take_led_lost init enqueue set_latest on_ack have_pending
    transmit take_next send_next close_frame retire step step_in status_callback on_frame on_offer
    eff_interval on_poll_frame relayed_led process_event handle pair_broadcast pair_channel
    enter_connected reports_enter_connected begin_session begin_search rest_arm_idle tell
    configure_if_needed start_rx rf_task_init when_asked link_apply booted port_ack same_bytes
    is_asked host_wake_idle is_quiet frame handle_uart_frame sleep_part reduce arbitrate
    is_state_changing reply perform perform_all attend services openboot_service power_service rest
    gates low_power command any_call is_request_update set_autosleep note_activity request_explicit
    cancel_explicit sleep_explicit sleep_until rtc_sub window rf_disconnect rf_flush_bond_save
    tx_idle rest_cancel answers
asleep_test = refl

rest-IsSafe_example :
    IsSafe
      (run board (boot board mac true unpaired) asking)
      resting_until
      (said board (boot board mac true unpaired) nothing asking)
rest-IsSafe_example = rest-IsSafe board mac true unpaired asking resting_until 1960 asleep_test

idles_test :
    idles
      (circulate board 0 drained (run board (boot board mac true unpaired) []))
      true
      true
      0
      false
    ≡ true
unfolding run boot apply follow settle make make_all serve hear port_init send_host_frame
    send_status send_led drive service take_led_lost init enqueue set_latest on_ack have_pending
    transmit take_next send_next close_frame retire step step_in status_callback on_frame on_offer
    eff_interval on_poll_frame relayed_led process_event handle pair_broadcast pair_channel
    enter_connected reports_enter_connected begin_session begin_search rest_arm_idle tell
    configure_if_needed start_rx rf_task_init when_asked link_apply booted port_ack same_bytes
    is_asked circulate attend services idles may_idle heartbeat_follow openboot_service
    power_service any_call perform_all host_wake_idle is_quiet rest_probing
idles_test = refl

idle-OwesNothing_example :
    OwesNothing board (circulate board 0 drained (run board (boot board mac true unpaired) []))
idle-OwesNothing_example =
    idle-OwesNothing board mac true unpaired [] 0 drained true true 0 false idles_test
