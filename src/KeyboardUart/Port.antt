-- ===== src/KeyboardUart/Port.antt =====
-- The module's own frames to the host, firmware/src/keyboard_uart.c: what `KBD_HOST_WAKE`, the
-- argument `host_wake`, hands to host wake or else to the UART, and `KeyboardUart_Service`.
pub mod Line
pub mod Backlog
mod Tests
use open_controller.Prelude.{
  ℕ, ◌*◌, ◌+◌, Bool, true, false, not, ◌&&◌, ◌||◌, List, [], ◌∷◌, ◌==◌, if◌then◌else◌,
}
use open_controller.RtcClock.{ticks_us}
use open_controller.HostWake.{
  HostWake, Output, queue_size, init, enqueue, set_latest, on_ack, step, is_quiet,
}
use open_controller.HostWake.Trace.{Frame}

-- `KBD_HOST_WAKE_GUARD_US`, `KBD_HOST_WAKE_ACK_TIMEOUT_US` and `KBD_HOST_WAKE_ATTEMPTS`
abbrev pub guard_us : ℕ
guard_us = 1000

abbrev pub ack_timeout_us : ℕ
ack_timeout_us = 20000

abbrev pub attempts : ℕ
attempts = 3

-- `KBD_HOST_WAKE_FRAME_MAX_US` and `KBD_HOST_WAKE_BACKLOG_MAX_US`
abbrev pub frame_max_us : ℕ
frame_max_us = guard_us + (attempts + 1) * ack_timeout_us

abbrev pub backlog_max_us : ℕ
backlog_max_us = (queue_size + 2) * frame_max_us

-- `host_wake` and `chwake_level`, the level of the CHWAKE pin, and the frames given to
-- `uart_send_frame`, the newest first.
pub record Port : Type 0 where
  pub wake : HostWake
  pub chwake_level : Bool
  pub pin : Bool
  pub sent : List Frame

-- The host-wake part of `KeyboardUart_Init`.
unfoldable pub port_init : ℕ → Port
port_init freq_rtc = record {
  wake = init (ticks_us freq_rtc guard_us) (ticks_us freq_rtc ack_timeout_us) attempts;
  chwake_level = false;
  pin = false;
  sent = [];
}

-- `uart_send_frame`, which the bytes of a frame are left to.
abbrev pub uart_send_frame : Port → ℕ → ℕ → Port
uart_send_frame p cmd val = record p { sent = (cmd, val) ∷ p.sent }

-- `send_host_frame`
unfoldable pub send_host_frame : Bool → Port → ℕ → ℕ → Port
send_host_frame host_wake p cmd val =
    if host_wake then record p { wake = (enqueue p.wake cmd val).0 } else uart_send_frame p cmd val

-- `KeyboardUart_SendStatus`
unfoldable pub send_status : Bool → Port → ℕ → Port
send_status host_wake p sub = send_host_frame host_wake p 0x5B sub

-- `KeyboardUart_SendBattery`
unfoldable pub send_battery : Bool → Port → ℕ → Port
send_battery host_wake p percent = send_host_frame host_wake p 0x5C percent

-- `KeyboardUart_SendLed`
unfoldable pub send_led : Bool → Port → ℕ → Port
send_led host_wake p led_mask =
    if host_wake
    then record p { wake = set_latest p.wake 0x5A led_mask }
    else uart_send_frame p 0x5A led_mask

-- What `KeyboardUart_Service` makes of a step: the pin where the level changes, and the frame.
unfoldable pub drive : Port → HostWake × Output → Port
drive p (hw, out) = record p {
  wake = hw;
  pin =
      if (out.line && not p.chwake_level) || (not out.line && p.chwake_level)
      then out.line
      else p.pin;
  chwake_level = out.line;
  sent = if out.send then (out.cmd, out.val) ∷ p.sent else p.sent;
}

-- `KeyboardUart_Service`, at a reading of the clock.
unfoldable pub service : Bool → Port → ℕ → Port
service host_wake p now = if host_wake then drive p (step p.wake now) else p

-- `KeyboardUart_TakeLedLost`
unfoldable pub take_led_lost : Bool → Port → Port × Bool
take_led_lost host_wake p =
    if host_wake
    then (record p { wake = record p.wake { latest_lost = false } }, p.wake.latest_lost)
    else (p, false)

-- `KeyboardUart_HostWakeIdle`
unfoldable pub host_wake_idle : Bool → Port → Bool
host_wake_idle host_wake p = not host_wake || is_quiet p.wake

-- `KeyboardUart_FifoIdle`, on `R8_UART1_TFC` and `RB_LSR_TX_ALL_EMP`.
abbrev pub fifo_idle : ℕ → Bool → Bool
fifo_idle tfc all_empty = tfc == 0 && all_empty

-- `KeyboardUart_TxIdle`
unfoldable pub tx_idle : Bool → Port → ℕ → Bool → Bool
tx_idle host_wake p tfc all_empty = fifo_idle tfc all_empty && host_wake_idle host_wake p

-- The ACK's part of `dispatch_frame`.
unfoldable pub host_ack : Bool → Port → Port
host_ack host_wake p = if host_wake then record p { wake = on_ack p.wake } else p
