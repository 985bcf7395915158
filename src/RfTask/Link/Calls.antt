-- ===== src/RfTask/Link/Calls.antt =====
-- The calls of firmware/src/rf_task.c that the main loop makes: `RF_TaskInit`, `RF_Select2G4`,
-- `RF_EnterPairing`, `RF_Disconnect` and those around them.
use open_controller.Prelude.{
  ℕ, Bool, true, false, not, ◌&&◌, ◌||◌, List, [], ◌∷◌, ◌==◌, if◌then◌else◌, get_or,
}
use open_controller.RfTask.Bond.{Bond, default_access_addr, clear_bond_ram}
use open_controller.RfTask.Hop.{pair_interval}
use open_controller.RfTask.Reports.{discard_hid_queue, queue_hid_report, disconnect, task_init}
use open_controller.RfTask.Link.{
  Link, shut, idle, pairing, connected, resting, reselect_keep_ticks, pair_window_ticks,
  pair_channels, evt_start, evt_pair_bcast, evt_pair_timeout, evt_enter_connected, evt_disconnect,
  evt_pair_rx_off, evt_rest_probe, evt_rest_stage2, evt_discard_hid, off, post, start, stop,
  save_bond, clear_flash, shut_radio,
}
use open_controller.RfTask.Link.Resting.{
  not_resting, rest_cancel, rest_arm_idle, begin_search, rest_probe_start, rest_promote_to_normal,
}

-- `RF_TaskInit`, from memory as the start-up code leaves it, with the keyboard's address and the
-- bond that `rf_load_bond_from_flash` leaves behind `rf_clear_bond_ram`.
unfoldable pub rf_task_init : List ℕ → Bool → Bond → Link
rf_task_init mac mac_valid bond =
    let s : Link = record {
      state = idle;
      mac = mac;
      mac_valid = mac_valid;
      rssi = 0;
      pending_led = 0;
      last_led_sent = 0xFF;
      bond_save_pending = false;
      supervision_kick = false;
      bond = bond;
      reports = task_init;
      hop = record {
        anchor = 0;
        since_rx = 0;
        data_idx = 0;
        provisional = false;
        conn_interval = pair_interval;
      };
      radio = record {
        mode = shut;
        access_addr = default_access_addr;
        channel = get_or pair_channels 0 0;
        configured_aa = 0;
        configured_valid = false;
        tuned = 0;
      };
      search = record { is_bonded = false; rx_open = false; rx_off_armed = false; bcast_count = 0 };
      caught = record { type_tag = 0; interval = 0; session_aa = 0; anchor = 0 };
      answer = record { channel = 0; ctrl = 0; is_pending = false; armed_rtc = 0 };
      rest = not_resting;
      tmr0 = false;
      tasks = λ e. off;
      calls = [];
    } in
    if bond.has_bond && mac_valid
    then begin_search s true bond.session_aa
    else record s { tasks = post s.tasks evt_start }

-- `RF_DropQueueUnlessReselected`
unfoldable pub drop_queue_unless_reselected : Link → Link
drop_queue_unless_reselected s = record s {
  tasks = start s.tasks evt_discard_hid reselect_keep_ticks;
}

-- The rest of `RF_Select2G4` for a link that is not connected.
unfoldable pub reselect : Link → Link
reselect s₀ =
    let s = rest_cancel s₀ in
    let p =
      begin_search (record s { radio = shut_radio s.radio; tmr0 = false }) true s.bond.session_aa in
    if not s.bond.has_bond then s else record p {
      tasks = stop (stop (stop p.tasks evt_enter_connected) evt_pair_timeout) evt_pair_rx_off;
    }

-- `RF_Select2G4`, which gives `has_bond` too, or 0.
unfoldable pub rf_select_2g4 : Link → Link × Bool
rf_select_2g4 s₀ =
    let s = record s₀ { tasks = stop s₀.tasks evt_discard_hid } in
    if not s.mac_valid
    then (s, false)
    else if s.state == connected
    then (if s.rest.probe then rest_promote_to_normal s else s, s.bond.has_bond)
    else (reselect s, s.bond.has_bond)

-- `RF_EnterPairing`, and whether it has entered.
unfoldable pub rf_enter_pairing : Link → Link × Bool
rf_enter_pairing s₀ =
    let s = rest_cancel s₀ in
    let p =
      begin_search (record s { radio = shut_radio s.radio; tmr0 = false }) false
        default_access_addr in
    if not s₀.mac_valid || s₀.state == connected then (s₀, false) else (
      record p {
        tasks =
            start (stop (stop p.tasks evt_enter_connected) evt_pair_rx_off) evt_pair_timeout
              pair_window_ticks;
      },
      true,
    )

-- `RF_Disconnect`
unfoldable pub rf_disconnect : Link → Link
rf_disconnect s₀ =
    let s = rest_cancel s₀ in
    record s {
      reports = disconnect s.reports;
      tmr0 = false;
      tasks =
          stop
            (stop (stop (stop (stop s.tasks evt_pair_bcast) evt_pair_timeout) evt_pair_rx_off)
              evt_enter_connected)
            evt_disconnect;
      bond_save_pending = false;
      state = idle;
      radio = shut_radio s.radio;
    }

-- `RF_FlushBondSave`
unfoldable pub rf_flush_bond_save : Link → Link
rf_flush_bond_save s = record s {
  bond_save_pending = false;
  calls = if s.bond_save_pending then save_bond s.bond ∷ s.calls else s.calls;
}

-- `RF_ClearBond`
unfoldable pub rf_clear_bond : Link → Link
rf_clear_bond s₀ =
    let s = rest_cancel s₀ in
    record s {
      bond = clear_bond_ram s.bond;
      bond_save_pending = false;
      calls = clear_flash ∷ s.calls;
      tasks = stop s.tasks evt_discard_hid;
      reports = if s.state == idle then discard_hid_queue s.reports else s.reports;
    }

-- `RF_HasBond`, `RF_GetState`, `RF_GetRSSI` and `RF_IdentityValid` read a field. `RF_CanDeepSleep`:
unfoldable pub can_deep_sleep : Link → Bool
can_deep_sleep s =
    if s.state == idle || s.state == resting
    then true
    else s.state == pairing && s.search.is_bonded && not s.search.rx_open

-- `RF_RestProbing`
unfoldable pub rest_probing : Link → Bool
rest_probing s = s.rest.stage == 1

-- The resting policy's part of `RF_QueueHIDReport`.
unfoldable pub note_report : Link → Link
note_report s =
    let woken : Link = record s { rest = record s.rest { wake = true } } in
    if s.state == resting
    then rest_probe_start
        (record woken { tasks = stop (stop s.tasks evt_rest_probe) evt_rest_stage2 })
    else if s.rest.probe
    then (if s.state == connected
        then rest_promote_to_normal woken
        else record woken { rest = record woken.rest { quiet_pending = false } })
    else rest_arm_idle s

-- `RF_QueueHIDReport`
unfoldable pub rf_queue_hid_report : Link → List ℕ → Link
rf_queue_hid_report s report =
    note_report (record s { reports = queue_hid_report s.reports report })

-- `RF_LedResync`
unfoldable pub rf_led_resync : Link → Link
rf_led_resync s = record s { last_led_sent = 0xFF }
