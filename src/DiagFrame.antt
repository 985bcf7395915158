-- ===== src/DiagFrame.antt =====
-- firmware/src/diag_frame.c and diag_frame.h: the frame of the diagnostic dump. The bytes behind
-- `out` up to the moving pointer `p` are the list `p`; a `put` adds to its end.
pub mod Layout
mod Tests
use open_controller.Prelude.{ℕ, ◌+◌, ◌/◌, ◌^◌, List, [], ◌∷◌, ◌++◌, length, u8, u16}

-- `DIAG_FRAME_HEADER`, `DIAG_PAYLOAD_VERSION` and `DIAG_PAYLOAD_LEN`
abbrev pub frame_header : ℕ
frame_header = 0x5D

abbrev pub payload_version : ℕ
payload_version = 3

abbrev pub payload_len : ℕ
payload_len = 89

-- `diag_snapshot_t`
pub record Snapshot : Type 0 where
  pub rf_state : ℕ
  pub ll_boot_count : ℕ
  pub rf_pair_bcast_count : ℕ
  pub rf_valid_rx_count : ℕ
  pub entered_connected_count : ℕ
  pub rf_config_count : ℕ
  pub pwr_pair_rx_off_count : ℕ
  pub pwr_wfi_count : ℕ
  pub pwr_sleep_attempt : ℕ
  pub pwr_sleep_entered : ℕ
  pub pwr_sleep_aborted : ℕ
  pub pwr_wake_gpio : ℕ
  pub pwr_wake_rtc : ℕ
  pub pwr_last_abort_reason : ℕ
  pub rf_last_config_status : ℕ
  pub rf_last_rx_status : ℕ
  pub rf_last_tx_status : ℕ
  pub ll_drop_count : ℕ
  pub boot_reset_status : ℕ
  pub fault_marker : ℕ
  pub fault_mepc : ℕ
  pub fault_mcause : ℕ
  pub fault_mtval : ℕ
  pub pwr_loop_passes : ℕ
  pub pwr_loop_stage : ℕ
  pub ll_hid_rx : ℕ
  pub ll_hid_tx : ℕ
  pub ll_hid_rx_down : ℕ
  pub ll_hid_tx_down : ℕ
  pub ll_hid_tx_done_down : ℕ
  pub ll_hid_fifo_drop : ℕ

-- `put8`
abbrev pub put8 : List ℕ → ℕ → List ℕ
put8 p v = p ++ (v ∷ [])

-- `put16`
abbrev pub put16 : List ℕ → ℕ → List ℕ
put16 p v = (p ++ (u8 v ∷ [])) ++ (u8 (v / 2 ^ 8) ∷ [])

-- `put32`
abbrev pub put32 : List ℕ → ℕ → List ℕ
put32 p v = put16 (put16 p (u16 v)) (u16 (v / 2 ^ 16))

-- The loop of `finish`, from the sum so far.
unfoldable pub sum_from : ℕ → List ℕ → ℕ
sum_from sum [] = sum
sum_from sum (q ∷ l) = sum_from (u8 (sum + q)) l

-- `finish`: the frame, and its length as a byte.
unfoldable pub finish : List ℕ → List ℕ × ℕ
finish p = let out = p ++ (sum_from 0 p ∷ []) in (out, u8 (length out))

-- `DiagFrame_FormatEmpty`
unfoldable pub format_empty : List ℕ × ℕ
unfolding finish sum_from
format_empty = let p = put8 [] frame_header in finish (put8 p 0)

-- The bytes that `DiagFrame_Format` puts down before the checksum.
unfoldable pub put_snapshot : Snapshot → List ℕ
put_snapshot s =
    let p : List ℕ = [] in
    let p = put8 p frame_header in
    let p = put8 p payload_len in
    let p = put8 p payload_version in
    let p = put8 p s.rf_state in
    let p = put32 p s.ll_boot_count in
    let p = put32 p s.rf_pair_bcast_count in
    let p = put32 p s.rf_valid_rx_count in
    let p = put32 p s.entered_connected_count in
    let p = put32 p s.rf_config_count in
    let p = put32 p s.pwr_pair_rx_off_count in
    let p = put32 p s.pwr_wfi_count in
    let p = put16 p s.pwr_sleep_attempt in
    let p = put16 p s.pwr_sleep_entered in
    let p = put16 p s.pwr_sleep_aborted in
    let p = put16 p s.pwr_wake_gpio in
    let p = put16 p s.pwr_wake_rtc in
    let p = put8 p s.pwr_last_abort_reason in
    let p = put8 p s.rf_last_config_status in
    let p = put8 p s.rf_last_rx_status in
    let p = put8 p s.rf_last_tx_status in
    let p = put32 p s.ll_drop_count in
    let p = put8 p s.boot_reset_status in
    let p = put8 p s.fault_marker in
    let p = put32 p s.fault_mepc in
    let p = put32 p s.fault_mcause in
    let p = put32 p s.fault_mtval in
    let p = put16 p s.pwr_loop_passes in
    let p = put8 p s.pwr_loop_stage in
    let p = put32 p s.ll_hid_rx in
    let p = put32 p s.ll_hid_tx in
    let p = put32 p s.ll_hid_rx_down in
    let p = put32 p s.ll_hid_tx_down in
    let p = put32 p s.ll_hid_tx_done_down in let p = put32 p s.ll_hid_fifo_drop in p

-- `DiagFrame_Format`
unfoldable pub format : Snapshot → List ℕ × ℕ
format s = finish (put_snapshot s)
