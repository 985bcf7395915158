-- ===== src/HostWake/Trace.antt =====
-- Histories of the calls that keyboard_uart.c makes: frames offered, LED values set, the host's
-- ACKs, and the main loop's steps at the ticks it reads.
use open_controller.Prelude.{ℕ, List, [], ◌∷◌}
use open_controller.HostWake.{HostWake, enqueue, set_latest, on_ack, step}
use open_controller.HostWake.Invariant.{
  IsValid, enqueue-IsValid, set_latest-IsValid, on_ack-IsValid, step-IsValid,
}

-- A frame without its checksum: the command and its value.
abbrev pub Frame : Type 0
Frame = ℕ × ℕ

pub data Event : Type 0 where
  offer : ℕ → ℕ → Event
  set_led : ℕ → ℕ → Event
  ack : Event
  poll : ℕ → Event

unfoldable pub apply : HostWake → Event → HostWake
apply hw (offer c v) = (enqueue hw c v).0
apply hw (set_led c v) = set_latest hw c v
apply hw ack = on_ack hw
apply hw (poll now) = (step hw now).0

unfoldable pub run : HostWake → List Event → HostWake
run hw [] = hw
run hw (e ∷ es) = run (apply hw e) es

pub apply-IsValid : (hw : HostWake) (e : Event) → IsValid hw → IsValid (apply hw e)
unfolding apply
apply-IsValid hw (offer c v) h = enqueue-IsValid hw c v h
apply-IsValid hw (set_led c v) h = set_latest-IsValid hw c v h
apply-IsValid hw ack h = on_ack-IsValid hw h
apply-IsValid hw (poll now) h = step-IsValid hw now h

-- The invariant holds after every history.
pub run-IsValid : (hw : HostWake) (es : List Event) → IsValid hw → IsValid (run hw es)
unfolding run
run-IsValid hw [] h = h
run-IsValid hw (e ∷ es) h = run-IsValid (apply hw e) es (apply-IsValid hw e h)
