-- ===== src/DiagDump/Agreement.antt =====
-- The counters of firmware/src/power_sleep.c against its idle callback.
use open_controller.Prelude.{ℕ, ◌+◌, ◌≡◌, none, some, arith, u16}
use open_controller.DiagFrame.{Snapshot}
use open_controller.DiagDump.{pwr_abort, count_wake, count_sleep, count_armed, count_low_power}
use open_controller.PowerSleep.{
  Sdk, Boundary, Gates, PowerSleep, low_power, sleep_explicit, sleep_armed, sleep_until,
}

-- A call of the idle callback that enters deep sleep counts one sleep entered, and no other call does.
entered_counted :
    (sdk : Sdk) (g : Gates) (b : Boundary) (p : PowerSleep) (deadline : ℕ) (s : Snapshot)
    → ((low_power sdk g b p deadline).entered ≡ none
        → (count_low_power sdk g b p deadline s).pwr_sleep_entered ≡ s.pwr_sleep_entered)
      × ((time : ℕ)
          → (low_power sdk g b p deadline).entered ≡ some time
          → (count_low_power sdk g b p deadline s).pwr_sleep_entered
            ≡ u16 (s.pwr_sleep_entered + 1))
unfolding low_power sleep_explicit sleep_armed sleep_until count_low_power count_armed count_sleep
    count_wake pwr_abort
entered_counted sdk g b p deadline s = (λ h. ground arith, λ time h. ground arith)
