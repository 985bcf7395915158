-- ===== src/KeyboardUart/Ring/Tests.antt =====
-- Runs of the receive ring at concrete inputs, and instances of its theorems.
use open_controller.Prelude.{
  ◌≡◌, refl, true, false, List, [], ◌∷◌, ◌++◌, if◌then◌else◌, replicate, sub8, arith,
}
use open_controller.KeyboardUart.Parser.{Parser, feed, reset_parser}
use open_controller.KeyboardUart.Ring.{
  Receiver, at_latch, receive, uart1_irq_handler, poll_step, drain, power_up, rx_quiet,
  take_rx_activity,
}
use open_controller.KeyboardUart.Ring.Window.{contents}
use open_controller.KeyboardUart.Ring.Contiguity.{
  apply, apply, next, is_discard, Event, received, statement, initial, IsPrefix, run, waiting,
}
use open_controller.KeyboardUart.Ring.Contiguity.Stream.{stream_in_order, nothing_lost}
use open_controller.KeyboardUart.Ring.Drain.{statements, Polled, poll_ends}

abbrev empty : Parser
empty = record { buf = replicate 24 0; len = 0; expected = 0 }

-- An A6 command, its last byte arriving while the first is being parsed.
abbrev events : List Event
events = received (0xA6 ∷ 0x11 ∷ []) ∷ statement ∷ statement ∷ received (0xB7 ∷ []) ∷ statement ∷ []

stream_in_order_example :
    let s = run true (initial empty) events in
    IsPrefix s.fed s.arrived
    × (feed true s.start s.fed ≡ (s.rx.parser, s.effects))
    × (s.start.len ≡ 0)
stream_in_order_example = stream_in_order true empty events refl

unlatched : (run true (initial empty) events).rx.overrun_latch ≡ false
unfolding run apply next poll_step uart1_irq_handler receive is_discard
unlatched = refl

nothing_lost_example :
    let s = run true (initial empty) events in
    (s.lost ≡ false) × (s.fed ++ waiting s.at s.rx ≡ s.arrived)
nothing_lost_example = nothing_lost true empty events refl unlatched

-- A ring whose indexes are about to wrap, with a whole A6 command in it.
abbrev wrapping : Receiver
wrapping = record {
  ring = 0xB7 ∷ replicate 61 0 ++ 0xA6 ∷ 0x11 ∷ [];
  head = 1;
  tail = 254;
  overrun_latch = false;
  activity_latch = true;
  parser = empty;
}

poll_ends_example :
    Polled (drain (statements (sub8 wrapping.head wrapping.tail)) true at_latch wrapping) (
      if wrapping.overrun_latch
      then (reset_parser wrapping.parser, [])
      else feed true wrapping.parser (contents wrapping))
poll_ends_example =
    poll_ends true wrapping
      (record { head_lt = omega arith; tail_lt = omega arith; fill = omega arith; size = refl })

-- Fifteen statements are enough for its three bytes, across the wrap.
polled : (drain 15 true at_latch wrapping).1.tail ≡ 1
unfolding drain poll_step
polled = refl

-- A full ring latches the hole.
abbrev brimming : Receiver
brimming = record wrapping { head = 62 }

full_ring : (uart1_irq_handler false brimming (1 ∷ [])).overrun_latch ≡ true
unfolding uart1_irq_handler receive
full_ring = refl

quiet_test : rx_quiet (power_up empty) ≡ true
unfolding rx_quiet
quiet_test = refl

activity_test : (take_rx_activity wrapping).0 ≡ true
unfolding take_rx_activity
activity_test = refl
