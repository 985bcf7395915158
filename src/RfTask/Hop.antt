-- ===== src/RfTask/Hop.antt =====
-- The timed channel hop of firmware/src/rf_task.c: the arithmetic on the RTC32K counter, the servo
-- `hop_servo` and the critical section of `RF_ConnectedTick`, in the default build
-- (`LINK_LOCK_SERVO_FIX` set, the bench options not).
pub mod Arithmetic
pub mod Servo
pub mod Tracking
mod Tests
use open_controller.Prelude.{
  ℕ, zero, suc, ◌+◌, ◌-◌, ◌*◌, ◌/◌, ◌%◌, Bool, true, false, not, ◌&&◌, ltb, leb, ◌==◌,
  if◌then◌else◌, List, [], ◌∷◌, get_or, u32,
}

-- `RTC32K_WRAP`, `RTC32K_BACKSTEP_TOLERANCE`, `RF_HOP_ANCHOR_BACKDATE`, `RF_HOP_DESYNC_INTERVALS`,
-- `NUM_DATA_CHANNELS`, `RF_HOP_MAX_STEP`, `SERVO_DEADBAND` and `RF_PAIR_INTERVAL`
abbrev pub rtc_wrap : ℕ
rtc_wrap = 0xa8c00000

abbrev pub backstep_tolerance : ℕ
backstep_tolerance = 1024

abbrev pub poll_backdate_base : ℕ
poll_backdate_base = 12

abbrev pub anchor_backdate : ℕ
anchor_backdate = poll_backdate_base + 1

abbrev pub desync_intervals : ℕ
desync_intervals = 64

abbrev pub num_data_channels : ℕ
num_data_channels = 5

abbrev pub max_step : ℕ
max_step = num_data_channels

abbrev pub servo_deadband : ℕ
servo_deadband = 1

abbrev pub pair_interval : ℕ
pair_interval = 28

-- `data_channels`
abbrev pub data_channels : List ℕ
data_channels = 4 ∷ 13 ∷ 20 ∷ 28 ∷ 33 ∷ []

-- `rtc_delta_32k`
unfoldable pub rtc_delta : ℕ → ℕ → ℕ
rtc_delta now before =
    if leb before now
    then now - before
    else if leb (before - now) backstep_tolerance
    then 0
    else rtc_wrap - before + now

-- `rtc_backdate_32k`
unfoldable pub rtc_backdate : ℕ → ℕ → ℕ
rtc_backdate t ticks = if leb ticks t then t - ticks else rtc_wrap - (ticks - t)

-- The loop of `rtc_add_32k`; the second number is fuel, and as many rounds as the sum has turns do.
unfoldable pub turn_down : ℕ → ℕ → ℕ
turn_down s zero = s
turn_down s (suc fuel) = elim (leb rtc_wrap s) [ true ↦ turn_down (s - rtc_wrap) fuel | false ↦ s ]

-- `rtc_add_32k`; a 32-bit sum is less than two turns.
unfoldable pub rtc_add : ℕ → ℕ → ℕ
unfolding turn_down
rtc_add t ticks = turn_down (u32 (t + ticks)) 2

-- What `rtc_signed_delta_32k` gives: how far the reference is ahead, or behind.
pub data Error : Type 0 where
  ahead : ℕ → Error
  behind : ℕ → Error

-- `rtc_signed_delta_32k`
unfoldable pub rtc_signed_delta : ℕ → ℕ → Error
rtc_signed_delta ref a =
    let fwd = if leb a ref then ref - a else rtc_wrap - a + ref in
    if leb fwd (rtc_wrap / 2) then ahead fwd else behind (rtc_wrap - fwd)

-- `hop_anchor`, `since_rx`, `prev_data_idx`, `provisional` and `rf_conn_interval`
pub record Hop : Type 0 where
  pub anchor : ℕ
  pub since_rx : ℕ
  pub data_idx : ℕ
  pub provisional : Bool
  pub conn_interval : ℕ

-- The correction of `hop_servo`.
unfoldable pub corrected : ℕ → Error → ℕ
corrected anchor (ahead e) = if ltb servo_deadband e then rtc_add anchor 1 else anchor
corrected anchor (behind e) = if ltb servo_deadband e then rtc_backdate anchor 1 else anchor

-- `hop_servo`
unfoldable pub hop_servo : ℕ → ℕ → ℕ
unfolding corrected rtc_signed_delta rtc_add rtc_backdate
hop_servo anchor ref = corrected anchor (rtc_signed_delta ref anchor)

-- `interval`, as `RF_ConnectedTick` computes it.
abbrev pub hop_interval : Hop → ℕ
hop_interval h = if h.conn_interval == 0 then pair_interval else h.conn_interval

-- The hop by a number of intervals.
unfoldable pub hop_by : Hop → ℕ → ℕ → Hop
hop_by h interval step =
    let anchor = rtc_add h.anchor (u32 (interval * step)) in
    record h {
      anchor = if step == 1 && h.since_rx == 1 then rtc_backdate anchor 1 else anchor;
      data_idx = (h.data_idx + step) % num_data_channels;
      since_rx = if ltb h.since_rx 0xffff then h.since_rx + 1 else h.since_rx;
    }

-- The critical section of `RF_ConnectedTick` once it has read the clock: the state, the counter,
-- whether the link is provisional, the interval and the ticks since the anchor.
unfoldable pub tick_after : Hop → ℕ → Bool → ℕ → ℕ → Hop × Bool
tick_after h now provisional interval elapsed =
    if provisional
    then (if ltb interval elapsed
        then (record h { anchor = rtc_add h.anchor interval }, true)
        else (h, false))
    else if ltb (u32 (interval * desync_intervals)) elapsed
    then (record h { anchor = rtc_backdate now anchor_backdate }, true)
    else if ltb interval elapsed
    then (
      hop_by h interval
          (if ltb max_step (elapsed / interval) then max_step else elapsed / interval),
      true,
    )
    else (h, false)

-- The critical section of `RF_ConnectedTick`, which gives `advanced` too.
unfoldable pub hop_tick : Hop → ℕ → Hop × Bool
hop_tick h now = tick_after h now h.provisional (hop_interval h) (rtc_delta now h.anchor)
