-- ===== src/RtcClock.antt =====
-- firmware/src/rtc_clock.c and rtc_clock.h: monotonic time on the RTC32K counter.
pub mod Tracking
mod Tests
use open_controller.Prelude.{
  ℕ, ◌+◌, ◌*◌, ◌/◌, ◌%◌, ◌^◌, Bool, true, false, not, ◌&&◌, leb, ◌==◌, if◌then◌else◌, u32, sub32,
}

-- `RTC_CLOCK_TICKS_US`: the product is 64 bits wide, the ticks are 32.
abbrev pub ticks_us : ℕ → ℕ → ℕ
ticks_us freq_rtc us = u32 (u32 (((us * freq_rtc) % 2 ^ 64 + 999999) % 2 ^ 64 / 1000000) + 1)

-- `RTC_CLOCK_BACKSTEP`
abbrev pub backstep_ticks : ℕ
backstep_ticks = 1024

-- `rtc_clock_t`
pub record RtcClock : Type 0 where
  pub started : Bool
  pub last_raw : ℕ
  pub elapsed : ℕ

-- A static `rtc_clock_t` starts zeroed.
abbrev pub initial : RtcClock
initial = record { started = false; last_raw = 0; elapsed = 0 }

-- The modular forward distance that `RtcClock_Advance` computes.
pub forward : ℕ → ℕ → ℕ → ℕ
forward raw last modulus = if leb last raw then sub32 raw last else u32 (raw + sub32 modulus last)

-- `RtcClock_Advance`
pub advance : RtcClock → ℕ → ℕ → ℕ → RtcClock × ℕ
advance clk raw modulus backstep =
    if not clk.started
    then (record clk { started = true; last_raw = raw }, clk.elapsed)
    else let delta = forward raw clk.last_raw modulus in
      if not (delta == 0) && leb (sub32 modulus backstep) delta
      then (clk, clk.elapsed)
      else let elapsed = u32 (clk.elapsed + delta) in
        (record clk { elapsed = elapsed; last_raw = raw }, elapsed)

-- `RtcClock_Now`, on what `RTC_GetCycle32k` returns; the modulus is the SDK's `RTC_MAX_COUNT`.
pub now : RtcClock → ℕ → ℕ → RtcClock × ℕ
now clk cycle_32k rtc_max_count = advance clk cycle_32k rtc_max_count backstep_ticks
