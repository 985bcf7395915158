-- ===== src/DiagFrame/Tests.antt =====
-- Frames of concrete snapshots.
use open_controller.Prelude.{◌≡◌, refl, [], ◌∷◌, arith}
use open_controller.DiagFrame.{Snapshot, format, format_empty}
use open_controller.DiagFrame.Layout.{Reads, format-Reads}

-- The refused frame is 5D 00 5D.
format_empty_bytes : format_empty ≡ (0x5D ∷ 0 ∷ 0x5D ∷ [], 3)
unfolding format_empty
format_empty_bytes = refl

abbrev snapshot : Snapshot
snapshot = record {
  rf_state = 5;
  ll_boot_count = 42;
  rf_pair_bcast_count = 79;
  rf_valid_rx_count = 116;
  entered_connected_count = 153;
  rf_config_count = 190;
  pwr_pair_rx_off_count = 227;
  pwr_wfi_count = 14;
  pwr_sleep_attempt = 51;
  pwr_sleep_entered = 88;
  pwr_sleep_aborted = 125;
  pwr_wake_gpio = 162;
  pwr_wake_rtc = 199;
  pwr_last_abort_reason = 236;
  rf_last_config_status = 23;
  rf_last_rx_status = 60;
  rf_last_tx_status = 97;
  ll_drop_count = 134;
  boot_reset_status = 171;
  fault_marker = 208;
  fault_mepc = 245;
  fault_mcause = 32;
  fault_mtval = 69;
  pwr_loop_passes = 106;
  pwr_loop_stage = 143;
  ll_hid_rx = 180;
  ll_hid_tx = 217;
  ll_hid_rx_down = 4;
  ll_hid_tx_down = 41;
  ll_hid_tx_done_down = 78;
  ll_hid_fifo_drop = 115;
}

format-Reads_example : Reads snapshot (format snapshot).0
format-Reads_example = format-Reads snapshot (omega arith)
