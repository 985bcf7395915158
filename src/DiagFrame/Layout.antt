-- ===== src/DiagFrame/Layout.antt =====
-- The frame against the layout that diag_frame.h documents: a header byte, a length byte, then the
-- payload, each field little-endian at its fixed offset, then the checksum.
use open_controller.Prelude.{
  ℕ, ◌+◌, ◌*◌, ◌/◌, ◌%◌, ◌^◌, ◌<◌, ◌≡◌, refl, ◌∙◌, List, [], ◌∷◌, arith, length, get_or, take, u8,
  u16,
}
use open_controller.DiagFrame.{
  Snapshot, put_snapshot, finish, format, sum_from, payload_len, payload_version,
}

-- The values that fit their fields.
pub record InRange (s : Snapshot) : Type 0 where
  pub rf_state : s.rf_state < 2 ^ 8
  pub ll_boot_count : s.ll_boot_count < 2 ^ 32
  pub rf_pair_bcast_count : s.rf_pair_bcast_count < 2 ^ 32
  pub rf_valid_rx_count : s.rf_valid_rx_count < 2 ^ 32
  pub entered_connected_count : s.entered_connected_count < 2 ^ 32
  pub rf_config_count : s.rf_config_count < 2 ^ 32
  pub pwr_pair_rx_off_count : s.pwr_pair_rx_off_count < 2 ^ 32
  pub pwr_wfi_count : s.pwr_wfi_count < 2 ^ 32
  pub pwr_sleep_attempt : s.pwr_sleep_attempt < 2 ^ 16
  pub pwr_sleep_entered : s.pwr_sleep_entered < 2 ^ 16
  pub pwr_sleep_aborted : s.pwr_sleep_aborted < 2 ^ 16
  pub pwr_wake_gpio : s.pwr_wake_gpio < 2 ^ 16
  pub pwr_wake_rtc : s.pwr_wake_rtc < 2 ^ 16
  pub pwr_last_abort_reason : s.pwr_last_abort_reason < 2 ^ 8
  pub rf_last_config_status : s.rf_last_config_status < 2 ^ 8
  pub rf_last_rx_status : s.rf_last_rx_status < 2 ^ 8
  pub rf_last_tx_status : s.rf_last_tx_status < 2 ^ 8
  pub ll_drop_count : s.ll_drop_count < 2 ^ 32
  pub boot_reset_status : s.boot_reset_status < 2 ^ 8
  pub fault_marker : s.fault_marker < 2 ^ 8
  pub fault_mepc : s.fault_mepc < 2 ^ 32
  pub fault_mcause : s.fault_mcause < 2 ^ 32
  pub fault_mtval : s.fault_mtval < 2 ^ 32
  pub pwr_loop_passes : s.pwr_loop_passes < 2 ^ 16
  pub pwr_loop_stage : s.pwr_loop_stage < 2 ^ 8
  pub ll_hid_rx : s.ll_hid_rx < 2 ^ 32
  pub ll_hid_tx : s.ll_hid_tx < 2 ^ 32
  pub ll_hid_rx_down : s.ll_hid_rx_down < 2 ^ 32
  pub ll_hid_tx_down : s.ll_hid_tx_down < 2 ^ 32
  pub ll_hid_tx_done_down : s.ll_hid_tx_done_down < 2 ^ 32
  pub ll_hid_fifo_drop : s.ll_hid_fifo_drop < 2 ^ 32

-- A reader's view: a field of one, two or four bytes, `i` bytes into the frame.
abbrev pub byte_at : List ℕ → ℕ → ℕ
byte_at frame i = get_or frame i 0

abbrev pub le8 : List ℕ → ℕ → ℕ
le8 frame i = byte_at frame i

abbrev pub le16 : List ℕ → ℕ → ℕ
le16 frame i = byte_at frame i + 2 ^ 8 * byte_at frame (i + 1)

abbrev pub le32 : List ℕ → ℕ → ℕ
le32 frame i = le16 frame i + 2 ^ 16 * le16 frame (i + 2)

abbrev pub sum : List ℕ → ℕ
sum [] = 0
sum (x ∷ l) = x + sum l

-- What a reader finds in a frame of the snapshot `s`.
pub record Reads (s : Snapshot) (frame : List ℕ) : Type 0 where
  pub size : length frame ≡ payload_len + 3
  pub header : le8 frame 0 ≡ 0x5D
  pub len : le8 frame 1 ≡ payload_len
  pub version : le8 frame 2 ≡ payload_version
  pub checksum : le8 frame 91 ≡ sum (take 91 frame) % 2 ^ 8
  pub rf_state : le8 frame 3 ≡ s.rf_state
  pub ll_boot_count : le32 frame 4 ≡ s.ll_boot_count
  pub rf_pair_bcast_count : le32 frame 8 ≡ s.rf_pair_bcast_count
  pub rf_valid_rx_count : le32 frame 12 ≡ s.rf_valid_rx_count
  pub entered_connected_count : le32 frame 16 ≡ s.entered_connected_count
  pub rf_config_count : le32 frame 20 ≡ s.rf_config_count
  pub pwr_pair_rx_off_count : le32 frame 24 ≡ s.pwr_pair_rx_off_count
  pub pwr_wfi_count : le32 frame 28 ≡ s.pwr_wfi_count
  pub pwr_sleep_attempt : le16 frame 32 ≡ s.pwr_sleep_attempt
  pub pwr_sleep_entered : le16 frame 34 ≡ s.pwr_sleep_entered
  pub pwr_sleep_aborted : le16 frame 36 ≡ s.pwr_sleep_aborted
  pub pwr_wake_gpio : le16 frame 38 ≡ s.pwr_wake_gpio
  pub pwr_wake_rtc : le16 frame 40 ≡ s.pwr_wake_rtc
  pub pwr_last_abort_reason : le8 frame 42 ≡ s.pwr_last_abort_reason
  pub rf_last_config_status : le8 frame 43 ≡ s.rf_last_config_status
  pub rf_last_rx_status : le8 frame 44 ≡ s.rf_last_rx_status
  pub rf_last_tx_status : le8 frame 45 ≡ s.rf_last_tx_status
  pub ll_drop_count : le32 frame 46 ≡ s.ll_drop_count
  pub boot_reset_status : le8 frame 50 ≡ s.boot_reset_status
  pub fault_marker : le8 frame 51 ≡ s.fault_marker
  pub fault_mepc : le32 frame 52 ≡ s.fault_mepc
  pub fault_mcause : le32 frame 56 ≡ s.fault_mcause
  pub fault_mtval : le32 frame 60 ≡ s.fault_mtval
  pub pwr_loop_passes : le16 frame 64 ≡ s.pwr_loop_passes
  pub pwr_loop_stage : le8 frame 66 ≡ s.pwr_loop_stage
  pub ll_hid_rx : le32 frame 67 ≡ s.ll_hid_rx
  pub ll_hid_tx : le32 frame 71 ≡ s.ll_hid_tx
  pub ll_hid_rx_down : le32 frame 75 ≡ s.ll_hid_rx_down
  pub ll_hid_tx_down : le32 frame 79 ≡ s.ll_hid_tx_down
  pub ll_hid_tx_done_down : le32 frame 83 ≡ s.ll_hid_tx_done_down
  pub ll_hid_fifo_drop : le32 frame 87 ≡ s.ll_hid_fifo_drop

word16 : (v : ℕ) → v < 2 ^ 16 → u8 v + 2 ^ 8 * u8 (v / 2 ^ 8) ≡ v
word16 v h = omega arith

word32 :
    (v : ℕ)
    → v < 2 ^ 32
    → u8 (u16 v)
        + 2 ^ 8 * u8 (u16 v / 2 ^ 8)
        + 2 ^ 16 * (u8 (u16 (v / 2 ^ 16)) + 2 ^ 8 * u8 (u16 (v / 2 ^ 16) / 2 ^ 8))
      ≡ v
word32 v h = omega arith

sum_from-eq : (acc : ℕ) (l : List ℕ) → acc < 256 → sum_from acc l ≡ (acc + sum l) % 256
unfolding sum_from
sum_from-eq acc [] h = omega arith
sum_from-eq acc (x ∷ l) h = sum_from-eq (u8 (acc + x)) l (omega arith) ∙ omega arith

sum_from_zero : (l : List ℕ) → sum_from 0 l ≡ sum l % 2 ^ 8
sum_from_zero l = omega (arith, sum_from-eq 0 l (omega arith))

-- Read at the documented offsets, the frame of a snapshot in range gives back every field, and its
-- length, header, version and checksum are those documented.
pub format-Reads : (s : Snapshot) → InRange s → Reads s (format s).0
unfolding format finish put_snapshot
format-Reads s h = record {
  size = refl;
  header = refl;
  len = refl;
  version = refl;
  checksum = sum_from_zero (put_snapshot s);
  rf_state = refl;
  ll_boot_count = word32 s.ll_boot_count h.ll_boot_count;
  rf_pair_bcast_count = word32 s.rf_pair_bcast_count h.rf_pair_bcast_count;
  rf_valid_rx_count = word32 s.rf_valid_rx_count h.rf_valid_rx_count;
  entered_connected_count = word32 s.entered_connected_count h.entered_connected_count;
  rf_config_count = word32 s.rf_config_count h.rf_config_count;
  pwr_pair_rx_off_count = word32 s.pwr_pair_rx_off_count h.pwr_pair_rx_off_count;
  pwr_wfi_count = word32 s.pwr_wfi_count h.pwr_wfi_count;
  pwr_sleep_attempt = word16 s.pwr_sleep_attempt h.pwr_sleep_attempt;
  pwr_sleep_entered = word16 s.pwr_sleep_entered h.pwr_sleep_entered;
  pwr_sleep_aborted = word16 s.pwr_sleep_aborted h.pwr_sleep_aborted;
  pwr_wake_gpio = word16 s.pwr_wake_gpio h.pwr_wake_gpio;
  pwr_wake_rtc = word16 s.pwr_wake_rtc h.pwr_wake_rtc;
  pwr_last_abort_reason = refl;
  rf_last_config_status = refl;
  rf_last_rx_status = refl;
  rf_last_tx_status = refl;
  ll_drop_count = word32 s.ll_drop_count h.ll_drop_count;
  boot_reset_status = refl;
  fault_marker = refl;
  fault_mepc = word32 s.fault_mepc h.fault_mepc;
  fault_mcause = word32 s.fault_mcause h.fault_mcause;
  fault_mtval = word32 s.fault_mtval h.fault_mtval;
  pwr_loop_passes = word16 s.pwr_loop_passes h.pwr_loop_passes;
  pwr_loop_stage = refl;
  ll_hid_rx = word32 s.ll_hid_rx h.ll_hid_rx;
  ll_hid_tx = word32 s.ll_hid_tx h.ll_hid_tx;
  ll_hid_rx_down = word32 s.ll_hid_rx_down h.ll_hid_rx_down;
  ll_hid_tx_down = word32 s.ll_hid_tx_down h.ll_hid_tx_down;
  ll_hid_tx_done_down = word32 s.ll_hid_tx_done_down h.ll_hid_tx_done_down;
  ll_hid_fifo_drop = word32 s.ll_hid_fifo_drop h.ll_hid_fifo_drop;
}
