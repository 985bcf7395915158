-- ===== src/HostWake/Tests.antt =====
-- Runs of the machine at concrete ticks, and the theorems at them.
use open_controller.Prelude.{true, ℕ, zero, suc, ◌+◌, ◌≡◌, refl, false, List, [], ◌∷◌, ◌++◌, arith}
use open_controller.HostWake.{
  HostWake, init, enqueue, set_latest, on_ack, have_pending, transmit, take_next, send_next,
  close_frame, retire, step_in, step,
}
use open_controller.HostWake.Invariant.{IsValid, init-IsValid}
use open_controller.HostWake.Trace.{Event, offer, set_led, ack, poll, apply, run}
use open_controller.HostWake.Queue.{contents, all_accepted, all_finished, queue_fifo}
use open_controller.HostWake.Seen.{unseen, seen}
use open_controller.HostWake.Sends.{MaySend, sends_in_turn}
use open_controller.HostWake.Fairness.{Alternates, all_starts, no_starvation}
use open_controller.HostWake.Drain.{Pass}

-- A guard of 3 ticks, an ACK timeout of 5 and two attempts.
abbrev fresh : HostWake
fresh = init 3 5 2

-- Named on an `unfolding` line, it opens every operation of the machine.
after : HostWake → List Event → HostWake
unfolding run apply init enqueue set_latest on_ack step step_in have_pending transmit take_next
    send_next close_frame retire
after hw es = run hw es

fresh-IsValid : IsValid fresh
fresh-IsValid = init-IsValid 3 5 2 (omega arith)

-- Two status frames and an LED value; the LED goes first and is ACKed, the first status frame is
-- never ACKed and is given up.
abbrev script : List Event
script =
    offer 0x5B 0x34
    ∷ offer 0x5B 0x35
    ∷ set_led 0x5A 2
    ∷ poll 10
    ∷ poll 12
    ∷ poll 13
    ∷ ack
    ∷ poll 14
    ∷ poll 19
    ∷ poll 24
    ∷ poll 30
    ∷ []

script_queue : contents (after fresh script) ≡ (0x5B, 0x35) ∷ []
unfolding after
script_queue = refl

queue_fifo_example :
    contents fresh ++ all_accepted fresh script
    ≡ all_finished fresh script ++ contents (run fresh script)
queue_fifo_example = queue_fifo fresh script fresh-IsValid

no_starvation_example : Alternates fresh.last_latest (all_starts fresh script)
no_starvation_example = no_starvation fresh script fresh-IsValid

-- CHWAKE has gone high at tick 10, and a copy sent at 13 lacks its ACK at 18.
abbrev unanswered : List Event
unanswered = offer 0x5B 0x34 ∷ poll 10 ∷ poll 13 ∷ poll 15 ∷ []

sends_in_turn_example :
    ((seen fresh unseen unanswered).high ≡ true)
    × MaySend 3 5 (seen fresh unseen unanswered) 18 (step (run fresh unanswered) 18).1
unfolding after
sends_in_turn_example = sends_in_turn 3 5 2 unanswered 18 refl

-- A pass every 20 ticks, with no ACK ever.
silent_host : ℕ → ℕ → List Pass
silent_host zero now = []
silent_host (suc n) now = (false, now) ∷ silent_host n (now + 20)

abbrev one_attempt : HostWake
one_attempt = (enqueue (init 3 5 1) 0x5B 0x34).0
