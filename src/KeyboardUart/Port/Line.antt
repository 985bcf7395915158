-- ===== src/KeyboardUart/Port/Line.antt =====
-- The CHWAKE line of firmware/src/keyboard_uart.c with `KBD_HOST_WAKE`: the level, the pin and host
-- wake's state go together.
use open_controller.Prelude.{ℕ, ◌≡◌, refl, sym, ap, ◌∙◌, true, false, not, arith}
use open_controller.HostWake.{
  HostWake, Output, is_quiet, is_idle, enqueue, set_latest, on_ack, step, init,
}
use open_controller.HostWake.Sends.{line_lem}
use open_controller.HostWake.Invariant.{
  IsValid, init-IsValid, enqueue-IsValid, set_latest-IsValid, on_ack-IsValid, step-IsValid,
  taken-IsValid,
}
use open_controller.KeyboardUart.Port.{
  attempts, Port, port_init, send_host_frame, send_status, send_battery, send_led, drive, service,
  take_led_lost, host_ack, host_wake_idle,
}

-- What holds of a port between any two calls.
pub record IsSteady (p : Port) : Type 0 where
  pub valid : IsValid p.wake
  pub level : p.chwake_level ≡ not (is_idle p.wake.state)
  pub driven : p.pin ≡ p.chwake_level

pub port_init-IsSteady : (freq_rtc : ℕ) → IsSteady (port_init freq_rtc)
unfolding port_init init
port_init-IsSteady freq_rtc = record {
  valid = init-IsValid _ _ attempts (omega arith);
  level = refl;
  driven = refl;
}

enqueue-state : (hw : HostWake) (c v : ℕ) → (enqueue hw c v).0.state ≡ hw.state
unfolding enqueue
enqueue-state hw c v = ground arith

pub host_frame-IsSteady :
    {p : Port} (cmd val : ℕ) → IsSteady p → IsSteady (send_host_frame true p cmd val)
unfolding send_host_frame
host_frame-IsSteady {p} cmd val h = record {
  valid = enqueue-IsValid p.wake cmd val h.valid;
  level = h.level ∙ ap (λ s. not (is_idle s)) (sym (enqueue-state p.wake cmd val));
  driven = h.driven;
}

pub status-IsSteady : {p : Port} (sub : ℕ) → IsSteady p → IsSteady (send_status true p sub)
unfolding send_status
status-IsSteady sub h = host_frame-IsSteady 0x5B sub h

pub battery-IsSteady :
    {p : Port} (percent : ℕ) → IsSteady p → IsSteady (send_battery true p percent)
unfolding send_battery
battery-IsSteady percent h = host_frame-IsSteady 0x5C percent h

pub led-IsSteady : {p : Port} (led_mask : ℕ) → IsSteady p → IsSteady (send_led true p led_mask)
unfolding send_led set_latest
led-IsSteady {p} led_mask h = record {
  valid = set_latest-IsValid p.wake 0x5A led_mask h.valid;
  level = h.level;
  driven = h.driven;
}

on_ack-state : (hw : HostWake) → (on_ack hw).state ≡ hw.state
unfolding on_ack
on_ack-state hw = ground arith

pub ack-IsSteady : {p : Port} → IsSteady p → IsSteady (host_ack true p)
unfolding host_ack
ack-IsSteady {p} h = record {
  valid = on_ack-IsValid p.wake h.valid;
  level = h.level ∙ ap (λ s. not (is_idle s)) (sym (on_ack-state p.wake));
  driven = h.driven;
}

pub take-IsSteady : {p : Port} → IsSteady p → IsSteady (take_led_lost true p).0
unfolding take_led_lost
take-IsSteady {p} h = record {
  valid = taken-IsValid p.wake h.valid;
  level = h.level;
  driven = h.driven;
}

-- The pin is written only where the level changes, and still follows it.
pin-drive : (p : Port) (r : HostWake × Output) → p.pin ≡ p.chwake_level → (drive p r).pin ≡ r.1.line
unfolding drive
pin-drive p (hw, out) h = ground arith

pub service-IsSteady : {p : Port} (now : ℕ) → IsSteady p → IsSteady (service true p now)
unfolding service
service-IsSteady {p} now h = record {
  valid = unfold drive in step-IsValid p.wake now h.valid;
  level = unfold drive in line_lem p.wake now;
  driven = unfold drive in pin-drive p (step p.wake now) h.driven;
}

-- While host wake is quiet, CHWAKE is low.
pub quiet-low : {p : Port} → IsSteady p → host_wake_idle true p ≡ true → p.pin ≡ false
unfolding host_wake_idle is_quiet
quiet-low h q = let a = h.level in let b = h.driven in ground arith
