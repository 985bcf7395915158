-- ===== src/RfTask/Reports.antt =====
-- The key reports of firmware/src/rf_task.c on their way to the dongle: the ring `hid_fifo`, its
-- filling by `RF_QueueHIDReport`, its sending by `rf_do_response_tx` and its emptying by the
-- dongle's control bit. The resting policy's part of those functions is not in here.
pub mod History
pub mod Order
pub mod Filling
pub mod Faithful
mod Tests
use open_controller.Prelude.{
  ℕ, zero, suc, ◌+◌, ◌-◌, ◌/◌, ◌%◌, Bool, true, false, not, ◌&&◌, ◌||◌, List, [], ◌∷◌, ltb, ◌==◌,
  if◌then◌else◌, get_or, set, replicate, u8, sub8,
}

-- `HID_FIFO_SLOTS`
abbrev pub slots : ℕ
slots = 16

-- `hid_fifo` and its indexes, `hid_head_sent`, `hid_last_queued`, `hid_last_queued_valid` and
-- `tx_ctrl`.
pub record Reports : Type 0 where
  pub fifo : List (List ℕ)
  pub head : ℕ
  pub tail : ℕ
  pub head_sent : Bool
  pub last_queued : List ℕ
  pub last_queued_valid : Bool
  pub tx_ctrl : ℕ

abbrev pub no_report : List ℕ
no_report = replicate 8 0

-- The reports' part of `RF_TaskInit`.
abbrev pub task_init : Reports
task_init = record {
  fifo = replicate slots no_report;
  head = 0;
  tail = 0;
  head_sent = false;
  last_queued = no_report;
  last_queued_valid = false;
  tx_ctrl = 0;
}

-- The comparison of two reports, over so many bytes.
unfoldable pub same_bytes : List ℕ → List ℕ → Bool
same_bytes [] [] = true
same_bytes [] (y ∷ ys) = false
same_bytes (x ∷ xs) [] = false
same_bytes (x ∷ xs) (y ∷ ys) = let rest = same_bytes xs ys in x == y && rest

-- `report[0]|report[1]|...` as a truth value.
unfoldable pub is_down : List ℕ → Bool
is_down [] = false
is_down (x ∷ xs) = let rest = is_down xs in not (x == 0) || rest

-- `hid_key_held`
unfoldable pub hid_key_held : Reports → Bool
hid_key_held s = s.last_queued_valid && is_down s.last_queued

-- `rf_discard_hid_queue`
unfoldable pub discard_hid_queue : Reports → Reports
discard_hid_queue s = record s { head = s.tail; head_sent = false }

-- Whether the report differs from the newest queued one.
unfoldable pub changed : Reports → List ℕ → Bool
changed s report = not s.last_queued_valid || not (same_bytes s.last_queued report)

-- `RF_QueueHIDReport` up to the resting policy.
unfoldable pub queue_hid_report : Reports → List ℕ → Reports
queue_hid_report s report =
    if changed s report
    then (if ltb (sub8 s.tail s.head) slots
        then record s {
          fifo = set s.fifo (s.tail % slots) report;
          tail = u8 (s.tail + 1);
          last_queued = report;
          last_queued_valid = true;
        }
        else record s {
          fifo = set s.fifo (sub8 s.tail 1 % slots) report;
          last_queued = report;
          last_queued_valid = true;
        })
    else s

-- The exclusive or of the control byte's low bit with the dongle's.
unfoldable pub low_bit_differs : ℕ → ℕ → Bool
low_bit_differs a b = not (a % 2 == b % 2)

-- `(((tx_ctrl & ~0x01) | (rx_ctrl & 0x01)) ^ 0x02`
unfoldable pub next_ctrl : ℕ → ℕ → ℕ
next_ctrl tx_ctrl rx_ctrl =
    let c = tx_ctrl - tx_ctrl % 2 + rx_ctrl % 2 in if c / 2 % 2 == 0 then c + 2 else c - 2

-- The control bit's part of the receive callback, for a poll of an accepted length.
unfoldable pub on_poll : Reports → ℕ → Reports
on_poll s rx_ctrl =
    if low_bit_differs rx_ctrl s.tx_ctrl
    then record s {
      tx_ctrl = next_ctrl s.tx_ctrl rx_ctrl;
      head_sent = false;
      head = if s.head_sent && not (s.tail == s.head) then u8 (s.head + 1) else s.head;
    }
    else s

-- The frame that `rf_do_response_tx` builds; nothing is received between its building and the
-- end of its transmission.
unfoldable pub response : Reports → ℕ → List ℕ
response s ctrl =
    if sub8 s.tail s.head == 0
    then ctrl ∷ []
    else ctrl ∷ 0xA1 ∷ get_or s.fifo (s.head % slots) no_report

-- What is left of it behind `RF_Tx`, which tells whether the transmission has started.
unfoldable pub do_response_tx : Reports → Bool → Reports
do_response_tx s started =
    if started && not (sub8 s.tail s.head == 0) then record s { head_sent = true } else s

-- The reports' part of `RF_EVT_DISCONNECT`.
unfoldable pub on_disconnect : Reports → Reports
on_disconnect s = record s { head_sent = false; last_queued_valid = false }

-- The reports' part of `RF_Disconnect`.
unfoldable pub disconnect : Reports → Reports
disconnect s = record s { last_queued_valid = false }

-- The reports' part of `rf_enter_connected`.
unfoldable pub enter_connected : Reports → Reports
enter_connected s = record s { tx_ctrl = 0x02; head_sent = false }
