-- ===== src/RfTask/Hop/Arithmetic.antt =====
-- The arithmetic of firmware/src/rf_task.c on the RTC32K counter.
use open_controller.Prelude.{ℕ, ◌+◌, ◌-◌, ◌%◌, ◌^◌, ◌≤◌, ◌<◌, ◌≡◌, ◌∙◌, arith}
use open_controller.RfTask.Hop.{
  rtc_wrap, backstep_tolerance, rtc_delta, rtc_backdate, rtc_add, turn_down,
}

-- A sum that fits in 32 bits is taken modulo the counter's turn.
pub rtc_add_lem : (t k : ℕ) → t + k < 2 ^ 32 → rtc_add t k ≡ (t + k) % rtc_wrap
unfolding rtc_add turn_down
rtc_add_lem t k h = ground arith

-- Time that is told by a counter: what is added to it is measured again and taken off again, as
-- long as it is further than the tolerance from a whole turn.
pub rtc_add-inverse :
    (t k : ℕ)
    → t < rtc_wrap
    → t + k < 2 ^ 32
    → k + backstep_tolerance < rtc_wrap
    → (rtc_delta (rtc_add t k) t ≡ k)
      × (rtc_backdate (rtc_add t k) k ≡ t)
      × (rtc_add t k < rtc_wrap)
unfolding rtc_delta rtc_backdate
rtc_add-inverse t k h l m = let e = rtc_add_lem t k l in (ground arith, ground arith, ground arith)

-- On true time, which never turns.
pub rtc_delta-true :
    (before now : ℕ)
    → before ≤ now
    → now + backstep_tolerance < before + rtc_wrap
    → rtc_delta (now % rtc_wrap) (before % rtc_wrap) ≡ now - before
unfolding rtc_delta
rtc_delta-true before now h k = ground arith

pub rtc_add-true : (t k : ℕ) → k < 2 ^ 30 → rtc_add (t % rtc_wrap) k ≡ (t + k) % rtc_wrap
rtc_add-true t k h = rtc_add_lem (t % rtc_wrap) k (omega arith) ∙ omega arith

pub rtc_backdate-true : (t : ℕ) → 1 ≤ t → rtc_backdate (t % rtc_wrap) 1 ≡ (t - 1) % rtc_wrap
unfolding rtc_backdate
rtc_backdate-true t h = ground arith
