-- ===== src/PowerSleep/Gate.antt =====
-- What has to hold for the idle callback of firmware/src/power_sleep.c to enter deep sleep.
use open_controller.Prelude.{ℕ, ◌≡◌, ◌≢◌, Bool, true, false, not, ◌||◌, some, List, ◌==◌, arith}
use open_controller.RfTask.Bond.{Bond}
use open_controller.RfTask.Link.{Link, idle, connected, shut}
use open_controller.RfTask.Link.Calls.{can_deep_sleep}
use open_controller.RfTask.Link.Histories.{Input, run, booted}
use open_controller.RfTask.Link.Tuning.{sleeps_shut}
use open_controller.PowerSleep.{
  Sdk, PowerSleep, Boundary, Gates, Pass, note_activity, holdoff_expired, sleep_until,
  sleep_explicit, sleep_armed, woken, low_power,
}

-- The gates that a sleep has passed.
pub record Passed (sdk : Sdk) (g : Gates) (b : Boundary) (s : PowerSleep) (p : Pass) : Type 0 where
  pub no_update : g.openboot_pending ≡ false
  pub sent : g.tx_idle ≡ true
  pub received : g.rx_quiet ≡ true
  pub radio : (g.rf_idle || g.can_deep_sleep) ≡ true
  pub asked : (s.explicit_request || s.autosleep) ≡ true
  pub explicit_idle : s.explicit_request ≡ true → g.rf_idle ≡ true
  pub held_off : s.explicit_request ≡ false → (holdoff_expired sdk s g.rx_activity g.now).1 ≡ true
  pub woken_free : (b.unmasked ≡ true) × (b.rx_busy ≡ false) × (b.trigger_due ≡ false)
  pub done : p.rc ≡ 0
  pub kept : s.explicit_request ≡ true → p.sleep.explicit_request ≡ not p.sleep.gpio_woke

-- A sleep that is entered has passed every gate: no update waits, the UART has sent and handled
-- everything, the radio is idle (or, for an armed auto-sleep, lets the module sleep), the host has
-- asked for it or armed it, and an armed one is held off no more; interrupts are on and nothing is
-- there that they have missed. It returns 0, and a request is done with exactly if the host has woken
-- the module.
pub low_power-Passed :
    (sdk : Sdk) (g : Gates) (b : Boundary) (s : PowerSleep) (deadline time : ℕ)
    → (low_power sdk g b s deadline).entered ≡ some time
    → Passed sdk g b s (low_power sdk g b s deadline)
unfolding low_power sleep_explicit sleep_armed sleep_until holdoff_expired woken note_activity
low_power-Passed sdk g b s deadline time e = ground arith

-- The gates as the link answers them.
unfoldable pub linked_gates : Gates → Link → Gates
linked_gates g link = record g {
  rf_idle = link.state == idle;
  can_deep_sleep = can_deep_sleep link;
}

-- Whatever has come to the link since its start, the module enters deep sleep only with the radio
-- shut and without a connection, on request as by itself.
pub asleep_shut :
    (mac : List ℕ) (mac_valid : Bool) (bond : Bond) (is : List Input) (sdk : Sdk) (g : Gates)
    (b : Boundary) (s : PowerSleep) (deadline time : ℕ)
    → (low_power sdk (linked_gates g (run (booted mac mac_valid bond) is)) b s deadline).entered
      ≡ some time
    → ((run (booted mac mac_valid bond) is).radio.mode ≡ shut)
      × ((run (booted mac mac_valid bond) is).state ≢ connected)
unfolding linked_gates can_deep_sleep
asleep_shut mac mac_valid bond is sdk g b s deadline time e =
    let link = run (booted mac mac_valid bond) is in
    let passed = low_power-Passed sdk (linked_gates g link) b s deadline time e in
    let gate = passed.radio in
    let sleeps : can_deep_sleep link ≡ true = ground arith in
    (sleeps_shut mac mac_valid bond is sleeps, λ k. absurd (ground arith))
