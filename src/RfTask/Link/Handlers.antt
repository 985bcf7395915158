-- ===== src/RfTask/Link/Handlers.antt =====
-- The handlers of firmware/src/rf_task.c: `RF_ProcessEvent` and what it calls, and
-- `RF_ConnectedTick`.
use open_controller.Prelude.{
  ℕ, ◌+◌, ◌*◌, ◌/◌, ◌%◌, ◌^◌, Bool, true, false, not, ◌&&◌, ◌||◌, List, [], ◌∷◌, ◌++◌, leb, ◌==◌,
  if◌then◌else◌, get_or, u8, u32,
}
use open_controller.RfTask.Bond.{default_access_addr}
use open_controller.RfTask.Hop.{
  num_data_channels, pair_interval, data_channels, rtc_delta, hop_interval, hop_tick,
}
use open_controller.RfTask.Reports.{
  hid_key_held, discard_hid_queue, response, do_response_tx, on_disconnect,
}
use open_controller.RfTask.Reports.{enter_connected as reports_enter_connected}
use open_controller.RfTask.Link.{
  Link, sending, shut, Outcome, Event, idle, pairing, connected, resting, pair_bcast_ticks,
  rx_window_ticks, connected_timeout_ticks, rest_probe_ticks, rest_probe_timeout_ticks,
  rest_idle_retry_ticks, dwell_bcasts, pair_channels, evt_start, evt_rx_restart, evt_pair_bcast,
  evt_pair_timeout, evt_enter_connected, evt_respond, evt_notify_led, evt_disconnect, evt_save_bond,
  evt_pair_rx_off, evt_rest_idle, evt_rest_probe, evt_rest_probe_timeout, evt_rest_stage2,
  evt_discard_hid, post, start, stop, send_status, send_led, save_bond, beacon, respond, shut_radio,
  configure_if_needed, start_rx,
}
use open_controller.RfTask.Link.Resting.{
  rest_cancel, rest_arm_idle, rest_enter, rest_probe_start, rest_probe_end, rest_promote_to_normal,
}

-- The payload of a beacon: the keyboard's address, `RF_PAIR_INTERVAL` and `RF_PAIR_TIMEOUT_VALUE`.
abbrev pub pair_payload : List ℕ → List ℕ
pair_payload mac =
    mac ++ pair_interval % 2 ^ 8 ∷ pair_interval / 2 ^ 8 ∷ 600 % 2 ^ 8 ∷ 600 / 2 ^ 8 ∷ []

-- The channel of a beacon by the number of those before it.
unfoldable pub pair_channel : ℕ → ℕ
pair_channel bcast_count = get_or pair_channels (bcast_count / dwell_bcasts % 3) 0

-- `rf_pair_broadcast`
unfoldable pub pair_broadcast : Link → Bool → Link
pair_broadcast s config_ok =
    let channel = pair_channel s.search.bcast_count in
    if not s.mac_valid then record s { state = idle; radio = shut_radio s.radio } else record s {
      radio = record (configure_if_needed (record s.radio { channel = channel }) config_ok) {
        mode = sending;
      };
      calls = beacon channel (pair_payload s.mac) ∷ s.calls;
      search = record s.search {
        bcast_count = u8 (s.search.bcast_count + 1);
        rx_open = true;
        rx_off_armed = false;
      };
      tasks = stop (start s.tasks evt_pair_bcast pair_bcast_ticks) evt_pair_rx_off;
    }

-- `rf_enter_connected`, up to its announcement.
unfoldable pub begin_session : Link → Bool → Bool → Link
begin_session s silent config_ok =
    let idx = (s.caught.type_tag + 1) % num_data_channels in
    record s {
      bond = record s.bond { session_aa = s.caught.session_aa; type_tag = s.caught.type_tag };
      hop = record {
        anchor = s.caught.anchor;
        since_rx = 0;
        data_idx = idx;
        provisional = true;
        conn_interval = s.caught.interval;
      };
      reports = reports_enter_connected s.reports;
      answer = record s.answer { is_pending = false };
      bond_save_pending = not silent;
      state = connected;
      tmr0 = false;
      radio =
          start_rx (record s.radio { access_addr = s.caught.session_aa })
            (get_or data_channels idx 0) config_ok;
      tasks =
          start (stop (stop (stop s.tasks evt_pair_bcast) evt_pair_timeout) evt_pair_rx_off)
            evt_disconnect connected_timeout_ticks;
    }

-- `rf_enter_connected`
unfoldable pub enter_connected : Link → Bool → Link
enter_connected s config_ok =
    let silent = s.rest.probe && not s.rest.wake in
    let c = begin_session s silent config_ok in
    if not (s.state == pairing)
    then s
    else if silent
    then c
    else if s.rest.probe
    then rest_promote_to_normal c
    else rest_arm_idle
        (record c { calls = send_status 0x23 ∷ send_status 0x32 ∷ c.calls; last_led_sent = 0xFF })

-- `rf_do_response_tx`
unfoldable pub answer_poll : Link → Bool → Link
answer_poll s tx_started = if not s.answer.is_pending then s else record s {
  calls = respond s.radio.tuned (response s.reports s.answer.ctrl) ∷ s.calls;
  radio = record s.radio { mode = if tx_started then sending else shut };
  reports = do_response_tx s.reports tx_started;
  answer = record s.answer { is_pending = tx_started };
  tasks = if tx_started then s.tasks else post s.tasks evt_rx_restart;
}

-- The handler of `RF_EVT_RX_RESTART`.
unfoldable pub on_rx_restart : Link → Bool → Link
on_rx_restart s config_ok =
    let searches = s.state == pairing in
    if s.state == connected || searches && s.search.rx_open
    then record s {
      radio = start_rx s.radio s.radio.channel config_ok;
      search = record s.search {
        rx_off_armed = searches && s.search.is_bonded || s.search.rx_off_armed;
      };
      tasks =
          if searches && s.search.is_bonded && not s.search.rx_off_armed
          then start s.tasks evt_pair_rx_off rx_window_ticks
          else s.tasks;
    }
    else s

-- The handler of `RF_EVT_REST_IDLE`.
unfoldable pub on_rest_idle : Link → Link
on_rest_idle s =
    if s.state == connected && not s.rest.probe
    then (if s.reports.tail == s.reports.head
          && not s.answer.is_pending
          && not (hid_key_held s.reports)
        then rest_enter s
        else record s { tasks = start s.tasks evt_rest_idle rest_idle_retry_ticks })
    else s

-- The handler of `RF_EVT_DISCONNECT`, for a connected link.
unfoldable pub on_lapse : Link → Link
on_lapse s =
    let c = rest_cancel s in
    record c {
      tmr0 = false;
      answer = record s.answer { is_pending = false };
      reports = on_disconnect s.reports;
      bond_save_pending = false;
      state = idle;
      radio = shut_radio s.radio;
      calls = send_status 0x33 ∷ s.calls;
    }

-- The handlers of `RF_ProcessEvent`.
unfoldable pub handle : Link → Event → Outcome → Link
handle s evt_start o = record s {
  state = idle;
  radio = record s.radio {
    access_addr = default_access_addr;
    channel = get_or pair_channels 0 0;
    mode = shut;
  };
}
handle s evt_rx_restart o = on_rx_restart s o.config_ok
handle s evt_pair_bcast o = if s.state == pairing then pair_broadcast s o.config_ok else s
handle s evt_pair_rx_off o =
    if s.state == pairing && s.search.is_bonded
    then record s {
      search = record s.search { rx_open = false; rx_off_armed = false };
      radio = shut_radio s.radio;
    }
    else s
handle s evt_pair_timeout o =
    if s.state == pairing
    then record s { state = idle; tasks = stop s.tasks evt_pair_rx_off; radio = shut_radio s.radio }
    else s
handle s evt_enter_connected o = enter_connected s o.config_ok
handle s evt_respond o = if s.state == connected then answer_poll s o.tx_started else s
handle s evt_notify_led o =
    if s.pending_led == s.last_led_sent
    then s
    else record s { last_led_sent = s.pending_led; calls = send_led s.pending_led ∷ s.calls }
handle s evt_discard_hid o =
    if s.state == idle then record s { reports = discard_hid_queue s.reports } else s
handle s evt_save_bond o = record s { calls = save_bond s.bond ∷ s.calls }
handle s evt_rest_idle o = on_rest_idle s
handle s evt_rest_probe o =
    if s.state == resting && s.rest.stage == 1
    then rest_probe_start (record s { tasks = start s.tasks evt_rest_probe rest_probe_ticks })
    else s
handle s evt_rest_probe_timeout o =
    if not s.rest.probe
    then s
    else if s.rest.wake
    then record s { tasks = start s.tasks evt_rest_probe_timeout rest_probe_timeout_ticks }
    else rest_probe_end s
handle s evt_rest_stage2 o =
    if s.rest.stage == 1
    then record s { rest = record s.rest { stage = 2 }; tasks = stop s.tasks evt_rest_probe }
    else s
handle s evt_disconnect o = if s.state == connected then on_lapse s else s

-- `RF_ProcessEvent`, called for one event that the scheduler has due: that is then done with, and
-- can be asked for again.
unfoldable pub process_event : Link → Event → Outcome → Link
process_event s e o = handle (record s { tasks = stop s.tasks e }) e o

-- `RF_ConnectedTick` from the response on, with the supervision timer seen to.
unfoldable pub follow_hop : Link → ℕ → ℕ → Bool → Link
follow_hop s now later config_ok =
    let (hop, advanced) = hop_tick s.hop later in
    if s.answer.is_pending && leb (rtc_delta now s.answer.armed_rtc) (u32 (hop_interval s.hop * 2))
    then s
    else record s {
      answer = record s.answer { is_pending = false };
      hop = hop;
      radio =
          if advanced
          then start_rx s.radio (get_or data_channels hop.data_idx 0) config_ok
          else s.radio;
    }

-- `RF_ConnectedTick`, at the clock's readings for the response and for the hop.
unfoldable pub connected_tick : Link → ℕ → ℕ → Bool → Link
connected_tick s now later config_ok =
    if not (s.state == connected)
    then s
    else if s.rest.quiet_pending && not s.answer.is_pending
    then rest_probe_end s
    else follow_hop
        (record s {
          supervision_kick = false;
          tasks =
              if s.supervision_kick
              then start s.tasks evt_disconnect connected_timeout_ticks
              else s.tasks;
        })
        now later config_ok
