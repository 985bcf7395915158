-- ===== src/KeyboardUart/Ring.antt =====
-- The receive ring of firmware/src/keyboard_uart.c (`KBD_IDLE_WFI` and `KBD_DEEP_SLEEP` set):
-- `UART1_IRQHandler` fills it, `KeyboardUart_Poll` empties it into the parser.
pub mod Window
pub mod Contiguity
pub mod Drain
mod Tests
use open_controller.Prelude.{
  ℕ, zero, suc, ◌+◌, ◌%◌, Bool, true, false, not, ◌&&◌, List, [], ◌∷◌, ◌++◌, ltb, ◌==◌,
  if◌then◌else◌, get_or, set, replicate, u8, sub8,
}
use open_controller.KeyboardUart.Parser.{Parser, Effect, feed_byte, reset_parser}

-- `KBD_UART_RING_SIZE`
abbrev pub ring_size : ℕ
ring_size = 64

-- `rx_ring`, its indexes and `rx_overrun_latch`, `rx_activity_latch` and the parser's state.
pub record Receiver : Type 0 where
  pub ring : List ℕ
  pub head : ℕ
  pub tail : ℕ
  pub overrun_latch : Bool
  pub activity_latch : Bool
  pub parser : Parser

abbrev pub power_up : Parser → Receiver
power_up p = record {
  ring = replicate ring_size 0;
  head = 0;
  tail = 0;
  overrun_latch = false;
  activity_latch = false;
  parser = p;
}

-- The loop of `UART1_IRQHandler`, over the bytes that `R8_UART1_RBR` gives.
unfoldable pub receive : Receiver → List ℕ → Receiver
receive r [] = r
receive r (b ∷ bytes) =
    receive
      (if ltb (sub8 r.head r.tail) ring_size
        then record r {
          activity_latch = true;
          ring = set r.ring (r.head % ring_size) b;
          head = u8 (r.head + 1);
        }
        else record r { activity_latch = true; overrun_latch = true })
      bytes

-- `UART1_IRQHandler`; `over_err` says that the cause is the line status and that it reads as an
-- overrun.
pub uart1_irq_handler : Bool → Receiver → List ℕ → Receiver
uart1_irq_handler over_err r bytes =
    receive (if over_err then record r { overrun_latch = true } else r) bytes

-- Where the loop of `KeyboardUart_Poll` stands, which an interrupt can find at any of its
-- statements: at the test of the latch, at the test for bytes, at `feed_byte`, at
-- `rx_ring_tail++`, or past the `break`.
pub data Place : Type 0 where
  at_latch : Place
  at_empty : Place
  at_feed : Place
  at_advance : Place
  done : Place

-- `rx_ring[rx_ring_tail & (KBD_UART_RING_SIZE - 1u)]`
abbrev pub next_byte : Receiver → ℕ
next_byte r = get_or r.ring (r.tail % ring_size) 0

-- The statements under `if (rx_overrun_latch)`, which no interrupt divides.
pub discard : Receiver → Receiver
discard r = record r { tail = r.head; overrun_latch = false; parser = reset_parser r.parser }

-- The statement at which `KeyboardUart_Poll` stands.
unfoldable pub poll_step : Bool → Place → Receiver → Place × Receiver × List Effect
poll_step has_cb at_latch r =
    if r.overrun_latch then (at_latch, discard r, []) else (at_empty, r, [])
poll_step has_cb at_empty r = if r.tail == r.head then (done, r, []) else (at_feed, r, [])
poll_step has_cb at_feed r =
    let (p, es) = feed_byte has_cb r.parser (next_byte r) in
    (at_advance, record r { parser = p }, es)
poll_step has_cb at_advance r = (at_latch, record r { tail = u8 (r.tail + 1) }, [])
poll_step has_cb done r = (done, r, [])

-- `KeyboardUart_Poll` with no interrupt in it, on fuel: the statements until the `break`.
unfoldable pub drain : ℕ → Bool → Place → Receiver → Place × Receiver × List Effect
drain zero has_cb at r = (at, r, [])
drain (suc fuel) has_cb at r =
    let (at', r', es) = poll_step has_cb at r in
    let (at'', r'', es') = drain fuel has_cb at' r' in (at'', r'', es ++ es')

-- `KeyboardUart_RxQuiet`
pub rx_quiet : Receiver → Bool
rx_quiet r = r.tail == r.head && r.parser.len == 0 && not r.overrun_latch

-- `KeyboardUart_TakeRxActivity`, which gives the latch and the state without it.
pub take_rx_activity : Receiver → Bool × Receiver
take_rx_activity r =
    (r.activity_latch, if r.activity_latch then record r { activity_latch = false } else r)
