-- ===== src/SleepProtocol/Tests.antt =====
-- The reducer on concrete frames, and the theorems there.
use open_controller.Prelude.{◌%◌, ◌≡◌, refl, true, false, [], ◌∷◌, arith, List}
use open_controller.SleepProtocol.{reset, on_frame, elapsed_ticks}
use open_controller.SleepProtocol.History.{Event, frame, after, apply}
use open_controller.SleepProtocol.Actions.{Meaning, on_frame-Meaning}
use open_controller.SleepProtocol.Ticks.{elapsed_ticks-of_readings}

-- Unlock, arm auto-sleep, ask for sleep; the newest event first.
abbrev asked_to_sleep : List Event
asked_to_sleep = frame 0xA6 0x54 false ∷ frame 0xA6 0x57 false ∷ frame 0xA6 0x56 false ∷ []

asked_to_sleep-after :
    after asked_to_sleep ≡ record { unlocked = true; sleep_pending = true; autosleep = true }
unfolding after apply on_frame
asked_to_sleep-after = refl

-- A bare A6 54 is a no-op.
gate_closed : after (frame 0xA6 0x54 false ∷ []) ≡ reset
unfolding after apply on_frame
gate_closed = refl

on_frame-Meaning_example :
    Meaning (on_frame reset 0xA1 0 false).1 reset (on_frame reset 0xA1 0 false).0 0xA1 0 false
on_frame-Meaning_example = on_frame-Meaning reset 0xA1 0 false

-- The second reading steps back over the wrap, from 201 ticks to 198 on a counter of 100.
elapsed_ticks-of_readings_example : elapsed_ticks (198 % 100) (201 % 100) 100 5 ≡ 97
elapsed_ticks-of_readings_example =
    elapsed_ticks-of_readings 201 198 100 5 (omega arith) (omega arith) (omega arith) (omega arith)
