-- ===== src/DiagDump.antt =====
-- firmware/src/diag_dump.c, and the counters of firmware/src/power_sleep.c and main.c that it dumps
-- (`RF_DIAG_COUNTERS`, `KBD_UART_DIAG_DUMP`, `KBD_IDLE_WFI` and `KBD_DEEP_SLEEP` set,
-- `KBD_IDLECB_FORENSICS` not). The variables that the dump reads are kept as a `Snapshot`, whose
-- `rf_state` stands for none of them.
pub mod Agreement
pub mod Counting
pub mod PostMortem
mod Tests
use open_controller.Prelude.{
  ℕ, ◌+◌, ◌%◌, Bool, true, false, not, ◌&&◌, ◌||◌, Option, none, some, List, [], ◌∷◌, ltb, ◌==◌,
  if◌then◌else◌, length, take, u8, u16, u32,
}
use open_controller.DiagFrame.{Snapshot, format, format_empty}
use open_controller.KeyboardUart.Transmit.{Reading, send_all}
use open_controller.PowerSleep.{Sdk, Boundary, Gates, PowerSleep, rtc_sub, window, holdoff_expired}
use open_controller.RfTask.Link.{connected}

-- `pwr_forensics_frozen` and the counters.
pub record Diag : Type 0 where
  pub frozen : Bool
  pub counters : Snapshot

-- The counters of power_sleep.c and main.c, set to zero.
unfoldable pub no_power : Snapshot → Snapshot
no_power s = record s {
  pwr_sleep_attempt = 0;
  pwr_sleep_entered = 0;
  pwr_sleep_aborted = 0;
  pwr_wake_gpio = 0;
  pwr_wake_rtc = 0;
  pwr_last_abort_reason = 0;
  pwr_loop_passes = 0;
  pwr_loop_stage = 0;
}

-- The part of `HAL_SleepInit` for the counters, on the reset status that the start-up has stored.
unfoldable pub hal_sleep_init : ℕ → Snapshot → Diag
hal_sleep_init reset_status s =
    if reset_status % 8 == 2
    then record { frozen = true; counters = s }
    else record { frozen = false; counters = no_power s }

-- `main` before its loop, for the counter of main.c.
unfoldable pub main_init : ℕ → Diag → Diag
main_init reset_status d =
    if not (reset_status % 8 == 2)
    then record d { counters = record d.counters { pwr_wfi_count = 0 } }
    else d

-- `PWR_ABORT`
unfoldable pub pwr_abort : ℕ → Snapshot → Snapshot
pwr_abort reason s = record s {
  pwr_last_abort_reason = reason;
  pwr_sleep_aborted = u16 (s.pwr_sleep_aborted + 1);
}

-- What `pwr_sleep_until` counts behind the sleep.
unfoldable pub count_wake : Boundary → Snapshot → Snapshot
count_wake b s =
    if b.trigger_fired
    then record s { pwr_wake_rtc = u16 (s.pwr_wake_rtc + 1) }
    else if b.pin_fired
    then record s { pwr_wake_gpio = u16 (s.pwr_wake_gpio + 1) }
    else pwr_abort 6 s

-- What `pwr_sleep_until` counts, unless the record is frozen.
unfoldable pub count_sleep : Sdk → Boundary → ℕ → Snapshot → Snapshot
count_sleep sdk b deadline s₀ =
    let s = record s₀ { pwr_sleep_attempt = u16 (s₀.pwr_sleep_attempt + 1) } in
    let ticks = window sdk (rtc_sub sdk.max_count deadline sdk.wake_up_max) b.now in
    if not b.unmasked
    then pwr_abort 6 s
    else if ltb ticks sdk.sleep_min || ltb sdk.sleep_max ticks
    then pwr_abort 5 s
    else if b.rx_busy
    then pwr_abort 7 s
    else if b.trigger_due
    then pwr_abort 6 s
    else count_wake b (record s { pwr_sleep_entered = u16 (s.pwr_sleep_entered + 1) })

-- What `CH59x_LowPower` counts of an armed sleep, the hold-off looked at.
unfoldable pub count_armed : Sdk → Gates → Boundary → Bool → ℕ → Snapshot → Snapshot
count_armed sdk g b expired deadline s =
    if not expired
    then s
    else if not g.tx_idle
    then pwr_abort 2 s
    else if not g.rx_quiet
    then pwr_abort 3 s
    else if not g.rf_idle && not g.can_deep_sleep
    then pwr_abort 1 s
    else count_sleep sdk b deadline s

-- What `CH59x_LowPower` counts, unless the record is frozen.
unfoldable pub count_low_power : Sdk → Gates → Boundary → PowerSleep → ℕ → Snapshot → Snapshot
count_low_power sdk g b p deadline s =
    if p.explicit_request
    then (if not g.rf_idle || g.openboot_pending || not g.tx_idle || not g.rx_quiet
        then s
        else count_sleep sdk b deadline s)
    else if not p.autosleep
    then s
    else if g.openboot_pending
    then pwr_abort 4 s
    else count_armed sdk g b (holdoff_expired sdk p g.rx_activity g.now).1 deadline s

-- `PWR_DIAG_INC16`, `PWR_DIAG_INC` and `PWR_ABORT` count only while the record is not frozen.
unfoldable pub unless_frozen : (Snapshot → Snapshot) → Diag → Diag
unless_frozen f d = if d.frozen then d else record d { counters = f d.counters }

-- The thaw behind `KeyboardUart_SendRaw`, and what has been sent.
unfoldable pub thaw :
    Bool → ℕ → Diag → Option (List ℕ × List Reading) → Option (Diag × List ℕ × List Reading)
thaw is_connected n d none = none
thaw is_connected n d (some (sent, rs)) =
    some (
      if not is_connected && u8 (length sent) == n then record d { frozen = false } else d,
      sent,
      rs,
    )

-- `DiagDump_Send`, in the link's state, with the readings that sending takes.
unfoldable pub diag_dump_send : ℕ → ℕ → Diag → List Reading → Option (Diag × List ℕ × List Reading)
diag_dump_send bound state d rs =
    let (frame, n) =
      if state == connected
      then format_empty
      else format (record d.counters { rf_state = state }) in
    thaw (state == connected) n d (send_all bound (take n frame) rs)

-- `DiagDump_Zero`
unfoldable pub diag_dump_zero : ℕ → Diag → Diag
diag_dump_zero state d = if state == connected then d else record {
  frozen = false;
  counters = record (no_power d.counters) {
    rf_pair_bcast_count = 0;
    rf_valid_rx_count = 0;
    entered_connected_count = 0;
    rf_config_count = 0;
    pwr_pair_rx_off_count = 0;
    ll_drop_count = 0;
    rf_last_config_status = 0;
    rf_last_rx_status = 0;
    rf_last_tx_status = 0;
    ll_hid_rx = 0;
    ll_hid_tx = 0;
    ll_hid_rx_down = 0;
    ll_hid_tx_down = 0;
    ll_hid_tx_done_down = 0;
    ll_hid_fifo_drop = 0;
    pwr_wfi_count = 0;
    fault_marker = 0;
    fault_mepc = 0;
    fault_mcause = 0;
    fault_mtval = 0;
  };
}
