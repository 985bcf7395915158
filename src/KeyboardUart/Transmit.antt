-- ===== src/KeyboardUart/Transmit.antt =====
-- Transmission on the UART, firmware/src/keyboard_uart.c: `uart_send_byte` and what is built on it.
-- The readings of the transmit FIFO and of the clock are an argument, in the order of the loop's
-- rounds; where they run out, there is no result.
pub mod Bounds
mod Tests
use open_controller.Prelude.{
  ℕ, ◌+◌, Bool, true, false, not, Option, none, some, List, [], ◌∷◌, leb, ◌==◌, if◌then◌else◌,
  length, u8, sub32,
}

-- A reading of the transmit FIFO, whether it is full, with one of the clock.
pub record Reading : Type 0 where
  pub full : Bool
  pub clock : ℕ

-- The loop of `uart_send_byte`, with its bound in ticks and its start.
unfoldable pub wait : ℕ → ℕ → List Reading → Option (Bool × List Reading)
wait bound start [] = none
wait bound start (r ∷ rs) =
    let rest = wait bound start rs in
    if not r.full
    then some (true, rs)
    else if leb bound (sub32 r.clock start)
    then some (false, rs)
    else rest

-- `uart_send_byte`: whether the byte has been written, and the readings that are left.
unfoldable pub send_byte : ℕ → List Reading → Option (Bool × List Reading)
send_byte bound [] = none
send_byte bound (r ∷ rs) =
    let waited = wait bound r.clock rs in if not r.full then some (true, rs) else waited

-- What is sent behind a byte that has been written, with that byte in front; nothing behind one
-- that has not.
abbrev pub in_front : ℕ → Option (List ℕ × List Reading) → Option (List ℕ × List Reading)
in_front b none = none
in_front b (some (bytes, rs)) = some (b ∷ bytes, rs)

abbrev pub behind :
    ℕ
    → Option (Bool × List Reading)
    → (List Reading → Option (List ℕ × List Reading))
    → Option (List ℕ × List Reading)
behind b none others = none
behind b (some (false, rs)) others = some ([], rs)
behind b (some (true, rs)) others = in_front b (others rs)

-- Bytes one behind the other until one is not written, as `uart_send_frame`, `KeyboardUart_SendAck`
-- and `KeyboardUart_SendRaw` send them: those written, and the readings that are left.
unfoldable pub send_all : ℕ → List ℕ → List Reading → Option (List ℕ × List Reading)
send_all bound [] rs = some ([], rs)
send_all bound (b ∷ bytes) rs = behind b (send_byte bound rs) (λ rs'. send_all bound bytes rs')

-- The bytes of `uart_send_frame`, which tells whether all three have been written.
abbrev pub frame_bytes : ℕ → ℕ → List ℕ
frame_bytes cmd val = cmd ∷ val ∷ u8 (cmd + val) ∷ []

-- Those of `KeyboardUart_SendAck`.
abbrev pub ack_bytes : List ℕ
ack_bytes = 0x61 ∷ 0x0D ∷ 0x0A ∷ []
