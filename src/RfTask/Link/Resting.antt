-- ===== src/RfTask/Link/Resting.antt =====
-- The resting policy of firmware/src/rf_task.c, from `rest_cancel` to `rest_promote_to_normal`, and
-- the start of a search, which it shares with the calls of the main loop.
use open_controller.Prelude.{ℕ, Bool, true, false, not, ◌&&◌, ◌||◌, ◌==◌, if◌then◌else◌, get_or}
use open_controller.RfTask.Link.{
  idle, pairing, connected, resting, connected_timeout_ticks, rest_idle_ticks, rest_probe_ticks,
  rest_probe_timeout_ticks, rest_stage2_ticks, pair_channels, post, start, stop, Rest, Link,
  shut_radio, evt_pair_bcast, evt_pair_timeout, evt_enter_connected, evt_disconnect,
  evt_pair_rx_off, evt_rest_idle, evt_rest_probe, evt_rest_probe_timeout, evt_rest_stage2,
}

abbrev pub not_resting : Rest
not_resting = record { stage = 0; probe = false; wake = false; answers = 0; quiet_pending = false }

-- `rest_cancel`
unfoldable pub rest_cancel : Link → Link
rest_cancel s = record s {
  tasks =
      stop (stop (stop (stop s.tasks evt_rest_idle) evt_rest_probe) evt_rest_probe_timeout)
        evt_rest_stage2;
  rest = not_resting;
}

-- `rest_arm_idle`
unfoldable pub rest_arm_idle : Link → Link
rest_arm_idle s = record s {
  tasks =
      if s.state == connected && not s.rest.probe
      then start s.tasks evt_rest_idle rest_idle_ticks
      else s.tasks;
}

-- `rest_go_quiet`
unfoldable pub rest_go_quiet : Link → Link
rest_go_quiet s = record s {
  tmr0 = false;
  tasks =
      stop
        (stop
          (stop (stop (stop (stop s.tasks evt_disconnect) evt_pair_bcast) evt_pair_rx_off)
            evt_pair_timeout)
          evt_enter_connected)
        evt_rest_probe_timeout;
  answer = record s.answer { is_pending = false };
  supervision_kick = false;
  search = record s.search { rx_open = false; rx_off_armed = false };
  rest = record not_resting { stage = s.rest.stage };
  state = resting;
  radio = shut_radio s.radio;
}

-- `rest_enter`
unfoldable pub rest_enter : Link → Link
rest_enter s =
    let q = rest_go_quiet s in
    record q {
      rest = record q.rest { stage = 1 };
      tasks =
          start (start q.tasks evt_rest_probe rest_probe_ticks) evt_rest_stage2 rest_stage2_ticks;
    }

-- The start of a search for the dongle, as `RF_TaskInit`, `RF_Select2G4`, `RF_EnterPairing` and
-- `rest_probe_start` share it.
unfoldable pub begin_search : Link → Bool → ℕ → Link
begin_search s bonded access_addr = record s {
  state = pairing;
  search = record { is_bonded = bonded; rx_open = true; rx_off_armed = false; bcast_count = 0 };
  radio = record s.radio {
    access_addr = access_addr;
    configured_valid = not bonded && s.radio.configured_valid;
    channel = get_or pair_channels 0 0;
  };
  tasks = post s.tasks evt_pair_bcast;
}

-- `rest_probe_start`
unfoldable pub rest_probe_start : Link → Link
rest_probe_start s =
    let c = rest_cancel s in
    let p =
      begin_search (record s { radio = shut_radio s.radio; tmr0 = false }) true s.bond.session_aa in
    if not s.bond.has_bond || not s.mac_valid
    then record c { state = idle; radio = shut_radio c.radio }
    else record p {
      rest = record s.rest { probe = true; answers = 0; quiet_pending = false };
      tasks =
          start (stop (stop (stop p.tasks evt_enter_connected) evt_pair_timeout) evt_pair_rx_off)
            evt_rest_probe_timeout rest_probe_timeout_ticks;
    }

-- `rest_probe_end`
abbrev pub rest_probe_end : Link → Link
rest_probe_end s = rest_go_quiet s

-- `rest_promote_to_normal`
unfoldable pub rest_promote_to_normal : Link → Link
rest_promote_to_normal s = rest_arm_idle (record s {
  rest = not_resting;
  tasks =
      start (stop (stop (stop s.tasks evt_rest_probe) evt_rest_probe_timeout) evt_rest_stage2)
        evt_disconnect connected_timeout_ticks;
})
