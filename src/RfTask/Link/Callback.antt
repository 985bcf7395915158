-- ===== src/RfTask/Link/Callback.antt =====
-- The interrupts of firmware/src/rf_task.c: the radio's `RF_2G4StatusCallBack` and the turnaround
-- timer's `TMR0_IRQHandler`.
use open_controller.Prelude.{
  ℕ, ◌+◌, ◌*◌, ◌/◌, ◌^◌, Bool, true, false, not, ◌&&◌, ◌||◌, Option, none, some, List, ltb, leb,
  ◌==◌, if◌then◌else◌, get_or, take, drop, u8,
}
use open_controller.RfTask.Hop.{
  poll_backdate_base, anchor_backdate, pair_interval, rtc_backdate, hop_servo,
}
use open_controller.RfTask.Reports.{same_bytes, on_poll}
use open_controller.RfTask.Link.{
  Link, Rest, evt_rx_restart, evt_enter_connected, evt_respond, evt_notify_led, evt_save_bond, post,
  pairing, connected, probe_answers,
}

-- The callback's `sta`, with what comes along: a frame or none (`rsr` set, or no buffer); the end of
-- a transmission; its failure; anything else.
pub data Status : Type 0 where
  rx_data : Option (List ℕ) → Status
  tx_finish : Status
  tx_fail : Status
  other : Status

abbrev pub restart_rx : Link → Link
restart_rx s = record s { tasks = post s.tasks evt_rx_restart }

-- The bytes of a frame in the buffer, behind the signal strength and the length.
abbrev pub session_aa_of : List ℕ → ℕ
session_aa_of buf =
    get_or buf 2 0 * 2 ^ 24 + get_or buf 3 0 * 2 ^ 16 + get_or buf 4 0 * 2 ^ 8 + get_or buf 5 0

abbrev pub dongle_mac_of : List ℕ → List ℕ
dongle_mac_of buf = take 6 (drop 11 buf)

abbrev pub interval_of : List ℕ → ℕ
interval_of buf = get_or buf 7 0 + get_or buf 8 0 * 2 ^ 8

-- `eff_interval`
unfoldable pub eff_interval : List ℕ → ℕ
eff_interval buf = if interval_of buf == 0 then pair_interval else interval_of buf

-- What a frame of 15 bytes does while the module searches, at a reading of the clock.
unfoldable pub on_offer : Link → List ℕ → ℕ → Link
on_offer s buf now =
    if not s.bond.has_bond
    then restart_rx (record s {
      bond = record {
        has_bond = true;
        dongle_mac = dongle_mac_of buf;
        session_aa = session_aa_of buf;
        type_tag = get_or buf 6 0;
      };
      radio = record s.radio { access_addr = session_aa_of buf };
    })
    else if not (same_bytes s.bond.dongle_mac (dongle_mac_of buf))
    then restart_rx s
    else if ltb (eff_interval buf) 20 || ltb 40 (eff_interval buf)
    then restart_rx s
    else record s {
      caught = record {
        session_aa = session_aa_of buf;
        type_tag = get_or buf 6 0;
        interval = eff_interval buf;
        anchor = rtc_backdate now anchor_backdate;
      };
      tasks = post s.tasks evt_enter_connected;
    }

-- The byte that a frame relays for the LEDs, or else the one that was pending.
unfoldable pub relayed_led : ℕ → List ℕ → ℕ
relayed_led pending buf =
    if get_or buf 1 0 == 3 && get_or buf 3 0 == 0xA1 then get_or buf 4 0 else pending

-- A poll of the connected dongle, at the clock's readings for the servo and for the response.
unfoldable pub on_poll_frame : Link → List ℕ → ℕ → ℕ → Link
on_poll_frame s buf now armed =
    let len = get_or buf 1 0 in
    let rx_ctrl = get_or buf 2 0 in
    let led = relayed_led s.pending_led buf in
    let saved = if s.bond_save_pending then post s.tasks evt_save_bond else s.tasks in
    let relays = len == 3 && get_or buf 3 0 == 0xA1 && not (led == s.last_led_sent) in
    let reports = on_poll s.reports rx_ctrl in
    record s {
      hop = record s.hop {
        anchor = hop_servo s.hop.anchor (rtc_backdate now (poll_backdate_base + len / 8));
        since_rx = 0;
        provisional = false;
      };
      bond_save_pending = false;
      reports = reports;
      pending_led = led;
      tasks = if relays then post saved evt_notify_led else saved;
      supervision_kick = true;
      answer = record {
        channel = s.radio.channel;
        ctrl = reports.tx_ctrl;
        is_pending = true;
        armed_rtc = armed;
      };
      tmr0 = true;
    }

-- A frame received, whose first byte is its signal strength.
unfoldable pub on_frame : Link → List ℕ → ℕ → ℕ → Link
on_frame s₀ buf now armed =
    let s = record s₀ { rssi = get_or buf 0 0 } in
    let len = get_or buf 1 0 in
    if s.state == pairing && len == 15 && ltb (get_or buf 6 0) 5
    then on_offer s buf now
    else if s.state == connected && (len == 1 || len == 3 || len == 10)
    then on_poll_frame s buf now armed
    else restart_rx s

-- The resting policy's part in the end of a transmission.
unfoldable pub count_answer : Bool → Rest → Rest
count_answer pending r =
    let answers = u8 (r.answers + 1) in
    if pending && r.probe && not r.wake
    then record r {
      answers = answers;
      quiet_pending = leb probe_answers answers || r.quiet_pending;
    }
    else r

-- `RF_2G4StatusCallBack`
unfoldable pub status_callback : Link → Status → ℕ → ℕ → Link
status_callback s (rx_data none) now armed = restart_rx s
status_callback s (rx_data (some buf)) now armed = on_frame s buf now armed
status_callback s tx_finish now armed = restart_rx (record s {
  rest = count_answer s.answer.is_pending s.rest;
  answer = record s.answer { is_pending = false };
})
status_callback s tx_fail now armed =
    restart_rx (record s { answer = record s.answer { is_pending = false } })
status_callback s other now armed = restart_rx s

-- `TMR0_IRQHandler`, with the timer's flag set.
unfoldable pub tmr0_irq_handler : Link → Link
tmr0_irq_handler s = record s {
  tmr0 = false;
  tasks = if s.state == connected then post s.tasks evt_respond else s.tasks;
}
