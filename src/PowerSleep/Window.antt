-- ===== src/PowerSleep/Window.antt =====
-- The window of a deep sleep of firmware/src/power_sleep.c ends in front of the deadline.
use open_controller.Prelude.{ℕ, ◌+◌, ◌%◌, ◌^◌, ◌≤◌, ◌<◌, ◌≡◌, ap, ◌∙◌, some, add-mod_cases, arith}
use open_controller.PowerSleep.{Sdk, Boundary, PowerSleep, rtc_sub, window, sleep_until}

-- The counter's turn, in 32 bits, and its readings below it.
pub record IsClock (sdk : Sdk) : Type 0 where
  pub turn : sdk.max_count < 2 ^ 32
  pub early : sdk.wake_up_max < sdk.max_count

-- The trigger of a sleep that is entered, and its window.
entered_lem :
    (sdk : Sdk) (b : Boundary) (s : PowerSleep) (deadline time : ℕ)
    → (sleep_until sdk b s deadline).entered ≡ some time
    → (time ≡ rtc_sub sdk.max_count deadline sdk.wake_up_max)
      × (sdk.sleep_min ≤ window sdk time b.now)
      × (window sdk time b.now ≤ sdk.sleep_max)
unfolding sleep_until
entered_lem sdk b s deadline time e = (ground arith, ground arith, ground arith)

rtc_sub-lt : (m base ticks : ℕ) → m < 2 ^ 32 → base < m → ticks < m → rtc_sub m base ticks < m
unfolding rtc_sub
rtc_sub-lt m base ticks k l h = ground arith

rtc_sub-ahead :
    (m base ticks : ℕ)
    → m < 2 ^ 32
    → base < m
    → ticks < m
    → (rtc_sub m base ticks + ticks) % m ≡ base
unfolding rtc_sub
rtc_sub-ahead m base ticks k l h =
    ground (arith, add-mod_cases (rtc_sub m base ticks) ticks m (rtc_sub-lt m base ticks k l h) h)

window-ahead :
    (sdk : Sdk) (time now : ℕ)
    → sdk.max_count < 2 ^ 32
    → time < sdk.max_count
    → now < sdk.max_count
    → (now + window sdk time now) % sdk.max_count ≡ time
unfolding window
window-ahead sdk time now k l h =
    let w : window sdk time now < sdk.max_count = ground arith in
    ground (arith, add-mod_cases now (window sdk time now) sdk.max_count h w)

-- A sleep that is entered ends by the trigger, `WAKE_UP_RTC_MAX_TIME` in front of the deadline that
-- TMOS has handed over, across the counter's turn or not: from the clock, it is as many ticks to the
-- trigger as the window has, which is neither too short nor too long, and from the trigger as many
-- to the deadline as the margin has.
pub wakes_in_time :
    (sdk : Sdk) (b : Boundary) (s : PowerSleep) (deadline time : ℕ)
    → IsClock sdk
    → b.now < sdk.max_count
    → deadline < sdk.max_count
    → (sleep_until sdk b s deadline).entered ≡ some time
    → ((b.now + window sdk time b.now) % sdk.max_count ≡ time)
      × ((time + sdk.wake_up_max) % sdk.max_count ≡ deadline)
      × (sdk.sleep_min ≤ window sdk time b.now)
      × (window sdk time b.now ≤ sdk.sleep_max)
wakes_in_time sdk b s deadline time c k l e =
    let (t, lo, hi) = entered_lem sdk b s deadline time e in
    let below = rtc_sub-lt sdk.max_count deadline sdk.wake_up_max c.turn l c.early in
    (
      window-ahead sdk time b.now c.turn (omega (arith, t, below)) k,
      ap (λ x. (x + sdk.wake_up_max) % sdk.max_count) t
          ∙ rtc_sub-ahead sdk.max_count deadline sdk.wake_up_max c.turn l c.early,
      lo,
      hi,
    )
