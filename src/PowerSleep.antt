-- ===== src/PowerSleep.antt =====
-- Deep sleep of firmware/src/power_sleep.c: the requests for it, the hold-off, and the decision and
-- the window of TMOS's idle callback (`KBD_SLEEP_BENCH_HOOK` not set). Registers are read through a
-- record of what they say; the sleep itself is the SDK's.
pub mod Window
pub mod Holdoff
pub mod Gate
mod Tests
use open_controller.Prelude.{
  ℕ, ◌+◌, ◌-◌, Bool, true, false, not, ◌&&◌, ◌||◌, Option, none, some, ltb, leb, ◌==◌,
  if◌then◌else◌, u32, sub32,
}
use open_controller.SleepProtocol.{elapsed_ticks}

-- `PWR_RTC32K_BACKSTEP_TOLERANCE`
abbrev pub backstep_tolerance : ℕ
backstep_tolerance = 1024

-- The SDK's `RTC_MAX_COUNT`, `WAKE_UP_RTC_MAX_TIME`, `SLEEP_RTC_MIN_TIME` and `SLEEP_RTC_MAX_TIME`,
-- and what its `MS_TO_RTC` makes of `KBD_AUTOSLEEP_HOLDOFF_MS`.
pub record Sdk : Type 0 where
  pub max_count : ℕ
  pub wake_up_max : ℕ
  pub sleep_min : ℕ
  pub sleep_max : ℕ
  pub holdoff : ℕ

-- `pwr_autosleep`, `pwr_gpio_woke`, `pwr_explicit_request`, `pwr_holdoff_start` and
-- `pwr_holdoff_active`
pub record PowerSleep : Type 0 where
  pub autosleep : Bool
  pub gpio_woke : Bool
  pub explicit_request : Bool
  pub holdoff_start : ℕ
  pub holdoff_active : Bool

abbrev pub power_up : PowerSleep
power_up = record {
  autosleep = false;
  gpio_woke = false;
  explicit_request = false;
  holdoff_start = 0;
  holdoff_active = false;
}

-- What `pwr_sleep_until` reads: whether interrupts were enabled, the clock, whether the receive line
-- or anything behind it is busy, whether the trigger has fired, and an edge latched by the time that
-- a refusal disarms the pin; behind the sleep, whether the trigger's or the pin's interrupt has been
-- handled, the clock, and an edge latched since.
pub record Boundary : Type 0 where
  pub unmasked : Bool
  pub now : ℕ
  pub rx_busy : Bool
  pub trigger_due : Bool
  pub edge_before : Bool
  pub trigger_fired : Bool
  pub pin_fired : Bool
  pub woken_at : ℕ
  pub edge_behind : Bool

-- What the callback asks the other parts: `RF_GetState() == RF_STATE_IDLE`, `RF_CanDeepSleep`,
-- `OpenBoot_EntryPending`, `KeyboardUart_TxIdle`, `KeyboardUart_RxQuiet` and
-- `KeyboardUart_TakeRxActivity`, and the clock for the hold-off.
pub record Gates : Type 0 where
  pub rf_idle : Bool
  pub can_deep_sleep : Bool
  pub openboot_pending : Bool
  pub tx_idle : Bool
  pub rx_quiet : Bool
  pub rx_activity : Bool
  pub now : ℕ

-- What a call leaves: the state, the value returned, and the trigger's time if the sleep was entered.
pub record Pass : Type 0 where
  pub sleep : PowerSleep
  pub rc : ℕ
  pub entered : Option ℕ

-- `pwr_rtc_add`
unfoldable pub rtc_add : ℕ → ℕ → ℕ → ℕ
rtc_add max_count base ticks =
    if leb max_count (u32 (base + ticks))
    then u32 (base + ticks) - max_count
    else u32 (base + ticks)

-- `pwr_rtc_sub`
unfoldable pub rtc_sub : ℕ → ℕ → ℕ → ℕ
rtc_sub max_count base ticks =
    if leb ticks base then base - ticks else u32 (base + sub32 max_count ticks)

-- `pwr_note_activity`, at a reading of the clock.
unfoldable pub note_activity : PowerSleep → ℕ → PowerSleep
note_activity s now = record s { holdoff_start = now; holdoff_active = true }

-- `pwr_holdoff_expired`
unfoldable pub holdoff_expired : Sdk → PowerSleep → Bool → ℕ → PowerSleep × Bool
holdoff_expired sdk s rx_activity now =
    if rx_activity
    then (note_activity s now, false)
    else if not s.holdoff_active
    then (s, true)
    else if leb sdk.holdoff (elapsed_ticks now s.holdoff_start sdk.max_count backstep_tolerance)
    then (record s { holdoff_active = false }, true)
    else (s, false)

-- The ticks to sleep, from the clock to the trigger.
unfoldable pub window : Sdk → ℕ → ℕ → ℕ
window sdk time now = if ltb time now then u32 (time + sub32 sdk.max_count now) else time - now

-- What is done behind `pwr_low_power_sleep`, and by the interrupt handlers before.
unfoldable pub woken : PowerSleep → Boundary → PowerSleep
woken s b = record s {
  gpio_woke = b.pin_fired || b.edge_behind;
  holdoff_start = if not b.trigger_fired && b.pin_fired then b.woken_at else s.holdoff_start;
  holdoff_active = not b.trigger_fired && b.pin_fired || s.holdoff_active;
}

-- `pwr_sleep_until`
unfoldable pub sleep_until : Sdk → Boundary → PowerSleep → ℕ → Pass
sleep_until sdk b s deadline =
    let time = rtc_sub sdk.max_count deadline sdk.wake_up_max in
    let ticks = window sdk time b.now in
    if not b.unmasked
    then record { sleep = s; rc = 3; entered = none }
    else if ltb ticks sdk.sleep_min || ltb sdk.sleep_max ticks
    then record { sleep = s; rc = 2; entered = none }
    else if b.rx_busy || b.trigger_due
    then record { sleep = record s { gpio_woke = b.edge_before }; rc = 3; entered = none }
    else record { sleep = woken s b; rc = 0; entered = some time }

-- `PowerSleep_SetAutosleep`
unfoldable pub set_autosleep : PowerSleep → Bool → ℕ → PowerSleep
set_autosleep s on now = record (if on && not s.autosleep then note_activity s now else s) {
  autosleep = on;
}

-- `PowerSleep_RequestExplicit`
unfoldable pub request_explicit : PowerSleep → PowerSleep
request_explicit s = record s { explicit_request = true }

-- `PowerSleep_CancelExplicit`
unfoldable pub cancel_explicit : PowerSleep → PowerSleep
cancel_explicit s = record s { explicit_request = false }

-- The explicit part of `CH59x_LowPower`.
unfoldable pub sleep_explicit : Sdk → Gates → Boundary → PowerSleep → ℕ → Pass
sleep_explicit sdk g b s deadline =
    let p = sleep_until sdk b s deadline in
    if not g.rf_idle || g.openboot_pending || not g.tx_idle || not g.rx_quiet
    then record { sleep = s; rc = 3; entered = none }
    else record p {
      sleep = record p.sleep {
        explicit_request = p.sleep.explicit_request && not (p.rc == 0 && p.sleep.gpio_woke);
      };
    }

-- The rest of it, with the hold-off looked at.
unfoldable pub sleep_armed : Sdk → Gates → Boundary → PowerSleep × Bool → ℕ → Pass
sleep_armed sdk g b (s, expired) deadline =
    if not expired || not g.tx_idle || not g.rx_quiet || not (g.rf_idle || g.can_deep_sleep)
    then record { sleep = s; rc = 3; entered = none }
    else sleep_until sdk b s deadline

-- `CH59x_LowPower`, TMOS's idle callback, but for its counters, which are `count_low_power` of DiagDump.
unfoldable pub low_power : Sdk → Gates → Boundary → PowerSleep → ℕ → Pass
low_power sdk g b s deadline =
    if s.explicit_request
    then sleep_explicit sdk g b s deadline
    else if not s.autosleep || g.openboot_pending
    then record { sleep = s; rc = 3; entered = none }
    else sleep_armed sdk g b (holdoff_expired sdk s g.rx_activity g.now) deadline
