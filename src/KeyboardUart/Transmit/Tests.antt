-- ===== src/KeyboardUart/Transmit/Tests.antt =====
-- Sending on the UART of firmware/src/keyboard_uart.c at work.
use open_controller.Prelude.{◌≡◌, refl, true, false, some, List, [], ◌∷◌, replicate, arith}
use open_controller.KeyboardUart.Transmit.{wait, send_byte, send_all, frame_bytes}
use open_controller.KeyboardUart.Transmit.Bounds.{
  Step, readings, AreSteady, rounds, budget, Sent, send_all-Sent,
}

abbrev free : Step
free = record { full = false; gap = 0 }

-- Two rounds on one tick, and a third a tick later.
abbrev stuck : Step
stuck = record { full = true; gap = 0 }

abbrev ticked : Step
ticked = record { full = true; gap = 1 }

-- The host takes the first byte and no other.
abbrev stalls : List Step
stalls =
    free
    ∷ ticked
    ∷ stuck
    ∷ ticked
    ∷ stuck
    ∷ ticked
    ∷ stuck
    ∷ ticked
    ∷ stuck
    ∷ ticked
    ∷ stuck
    ∷ replicate 10 ticked

send_all_test :
    send_all 3 (frame_bytes 0x5B 0x32) (readings 4294967290 stalls)
    ≡ some (0x5B ∷ [], readings 4294967294 (stuck ∷ ticked ∷ stuck ∷ replicate 10 ticked))
unfolding send_all send_byte wait readings
send_all_test = refl

steady : AreSteady 2 0 stalls
unfolding AreSteady
steady = ground arith

send_all-Sent_example :
    Sent (frame_bytes 0x5B 0x32) (send_all 3 (frame_bytes 0x5B 0x32) (readings 4294967290 stalls))
unfolding budget rounds
send_all-Sent_example =
    send_all-Sent 2 3 4294967290 0 (frame_bytes 0x5B 0x32) stalls (omega arith) steady (omega arith)
      (omega arith) (omega arith)
