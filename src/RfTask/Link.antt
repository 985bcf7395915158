-- ===== src/RfTask/Link.antt =====
-- The link of firmware/src/rf_task.c with its dongle: its states, what it has asked of the radio
-- and of the scheduler (TMOS), and the helpers that its handlers share, in the default build
-- (`KBD_REST` and `KBD_PAIR_DUTY_CYCLE` set, the bench options not). An interrupt comes between
-- two functions, not inside one; counters for diagnostics only are left out.
use open_controller.Prelude.{
  ℕ, zero, suc, ◌+◌, ◌-◌, ◌*◌, ◌/◌, ◌%◌, Bool, true, false, not, ◌&&◌, ◌||◌, List, [], ◌∷◌, ltb,
  leb, ◌==◌, if◌then◌else◌, get_or, u8,
}
use open_controller.RfTask.Bond.{Bond}
use open_controller.RfTask.Hop.{Hop}
use open_controller.RfTask.Reports.{Reports}
pub mod Resting
pub mod Callback
pub mod Handlers
pub mod Calls
pub mod Histories
pub mod Invariant
pub mod Tuning
pub mod Delivery
pub mod Announcements
pub mod Cadence
pub mod Waking
mod Tests

-- `RF_STATE_IDLE`, `RF_STATE_PAIRING`, `RF_STATE_CONNECTED` and `RF_STATE_RESTING`
abbrev pub idle : ℕ
idle = 0

abbrev pub pairing : ℕ
pairing = 1

abbrev pub connected : ℕ
connected = 2

abbrev pub resting : ℕ
resting = 3

-- `KBD_RESELECT_KEEP_TICKS`, `RF_PAIR_BCAST_TICKS`, `RF_PAIR_WINDOW_TICKS`,
-- `KBD_PAIR_RX_WINDOW_TICKS`, `RF_CONNECTED_TIMEOUT_TICKS` and the `KBD_REST_*_TICKS`
abbrev pub reselect_keep_ticks : ℕ
reselect_keep_ticks = 800

abbrev pub pair_bcast_ticks : ℕ
pair_bcast_ticks = 32

abbrev pub pair_window_ticks : ℕ
pair_window_ticks = 8480

abbrev pub rx_window_ticks : ℕ
rx_window_ticks = 6

abbrev pub connected_timeout_ticks : ℕ
connected_timeout_ticks = 5000

abbrev pub rest_idle_ticks : ℕ
rest_idle_ticks = 4800

abbrev pub rest_probe_ticks : ℕ
rest_probe_ticks = 1616

abbrev pub rest_probe_timeout_ticks : ℕ
rest_probe_timeout_ticks = 640

abbrev pub rest_stage2_ticks : ℕ
rest_stage2_ticks = 2880000

abbrev pub rest_idle_retry_ticks : ℕ
rest_idle_retry_ticks = 160

-- `KBD_REST_PROBE_ANSWERS`, `RF_PAIR_DWELL_BCASTS` and `pair_channels`
abbrev pub probe_answers : ℕ
probe_answers = 2

abbrev pub dwell_bcasts : ℕ
dwell_bcasts = 12

abbrev pub pair_channels : List ℕ
pair_channels = 8 ∷ 17 ∷ 26 ∷ []

-- The `RF_EVT_*` of the task, each by its bit.
pub data Event : Type 0 where
  evt_start : Event
  evt_rx_restart : Event
  evt_pair_bcast : Event
  evt_pair_timeout : Event
  evt_enter_connected : Event
  evt_respond : Event
  evt_notify_led : Event
  evt_disconnect : Event
  evt_save_bond : Event
  evt_pair_rx_off : Event
  evt_rest_idle : Event
  evt_rest_probe : Event
  evt_rest_probe_timeout : Event
  evt_rest_stage2 : Event
  evt_discard_hid : Event

abbrev pub bit : Event → ℕ
bit evt_start = 0x0001
bit evt_rx_restart = 0x0002
bit evt_pair_bcast = 0x0004
bit evt_pair_timeout = 0x0008
bit evt_enter_connected = 0x0010
bit evt_respond = 0x0020
bit evt_notify_led = 0x0040
bit evt_disconnect = 0x0080
bit evt_save_bond = 0x0100
bit evt_pair_rx_off = 0x0200
bit evt_rest_idle = 0x0400
bit evt_rest_probe = 0x0800
bit evt_rest_probe_timeout = 0x1000
bit evt_rest_stage2 = 0x2000
bit evt_discard_hid = 0x4000

-- What the task has last asked the scheduler for an event: nothing, or nothing since it was
-- handled or stopped; to handle it; or to do so after so many ticks. A request to handle an event now
-- stands for the timer that it may find running, since the event may come at any time in both cases
-- and its handler starts the timer anew (only a beacon is asked for in both ways).
pub data Request : Type 0 where
  off : Request
  posted : Request
  started : ℕ → Request

unfoldable pub is_asked : Request → Bool
is_asked off = false
is_asked posted = true
is_asked (started ticks) = true

-- `rf_set_event_atomic`, `rf_start_task_atomic` and `rf_stop_task_atomic`, by what they ask for.
unfoldable pub tell : (Event → Request) → Event → Request → Event → Request
tell tasks e r e' = if bit e == bit e' then r else tasks e'

abbrev pub post : (Event → Request) → Event → Event → Request
post tasks e = tell tasks e posted

abbrev pub start : (Event → Request) → Event → ℕ → Event → Request
start tasks e ticks = tell tasks e (started ticks)

abbrev pub stop : (Event → Request) → Event → Event → Request
stop tasks e = tell tasks e off

-- The calls that leave the task: `KeyboardUart_SendStatus`, `KeyboardUart_SendLed`,
-- `rf_save_bond_to_flash` with what it saves, `rf_clear_bond_flash`, and `RF_Tx` of a beacon or a
-- response, with the channel.
pub data Call : Type 0 where
  send_status : ℕ → Call
  send_led : ℕ → Call
  save_bond : Bond → Call
  clear_flash : Call
  beacon : ℕ → List ℕ → Call
  respond : ℕ → List ℕ → Call

-- What the radio was last told: `RF_Shut`, `RF_Rx` or `RF_Tx`.
pub data Mode : Type 0 where
  shut : Mode
  listening : Mode
  sending : Mode

-- `rf_access_addr`, `rf_channel`, `rf_configured_aa`, `rf_configured_valid`, and the channel of the
-- last `RF_SetChannel`.
pub record Radio : Type 0 where
  pub mode : Mode
  pub access_addr : ℕ
  pub channel : ℕ
  pub configured_aa : ℕ
  pub configured_valid : Bool
  pub tuned : ℕ

-- `pair_flavor` (whether it is `PAIR_FLAVOR_BONDED`), `pair_rx_open`, `pair_rx_off_armed` and
-- `pair_bcast_count`
pub record Search : Type 0 where
  pub is_bonded : Bool
  pub rx_open : Bool
  pub rx_off_armed : Bool
  pub bcast_count : ℕ

-- `pending_type_tag`, `pending_interval`, `pending_session_aa` and `pending_anchor`
pub record Caught : Type 0 where
  pub type_tag : ℕ
  pub interval : ℕ
  pub session_aa : ℕ
  pub anchor : ℕ

-- `response_channel`, `response_ctrl`, `response_pending` and `response_armed_rtc`
pub record Answer : Type 0 where
  pub channel : ℕ
  pub ctrl : ℕ
  pub is_pending : Bool
  pub armed_rtc : ℕ

-- `rest_stage`, `rest_probe`, `rest_probe_wake`, `rest_answers` and `rest_quiet_pending`
pub record Rest : Type 0 where
  pub stage : ℕ
  pub probe : Bool
  pub wake : Bool
  pub answers : ℕ
  pub quiet_pending : Bool

-- `rf_state`, `keyboard_mac`, `keyboard_mac_valid`, `rf_rssi`, `pending_led`, `last_led_sent`,
-- `bond_save_pending` and `supervision_kick`, and what the groups above and the other parts hold;
-- whether TMR0 is running, and the calls, the newest first.
pub record Link : Type 0 where
  pub state : ℕ
  pub mac : List ℕ
  pub mac_valid : Bool
  pub rssi : ℕ
  pub pending_led : ℕ
  pub last_led_sent : ℕ
  pub bond_save_pending : Bool
  pub supervision_kick : Bool
  pub bond : Bond
  pub reports : Reports
  pub hop : Hop
  pub radio : Radio
  pub search : Search
  pub caught : Caught
  pub answer : Answer
  pub rest : Rest
  pub tmr0 : Bool
  pub tasks : Event → Request
  pub calls : List Call

-- What the vendor's radio library answers: whether `RF_Config` succeeds and whether `RF_Tx` starts.
pub record Outcome : Type 0 where
  pub config_ok : Bool
  pub tx_started : Bool

-- `RF_Shut`
abbrev pub shut_radio : Radio → Radio
shut_radio r = record r { mode = shut }

-- `rf_configure_if_needed`, for `rf_access_addr`; it sets the channel either way.
unfoldable pub configure_if_needed : Radio → Bool → Radio
configure_if_needed r config_ok =
    let needed = not r.configured_valid || not (r.configured_aa == r.access_addr) in
    record r {
      configured_aa = if needed && config_ok then r.access_addr else r.configured_aa;
      configured_valid = needed && config_ok || r.configured_valid;
      tuned = r.channel;
    }

-- `rf_start_rx`
unfoldable pub start_rx : Radio → ℕ → Bool → Radio
start_rx r channel config_ok =
    record (configure_if_needed (record r { channel = channel }) config_ok) { mode = listening }
