-- ===== src/KeyboardUart/Ring/Contiguity/Stream.antt =====
-- The bytes from the host reach the parser of firmware/src/keyboard_uart.c in order.
use open_controller.Prelude.{◌≡◌, refl, Bool, false, List, [], ◌∷◌, ◌++◌, arith}
use open_controller.KeyboardUart.Parser.{Parser, feed}
use open_controller.KeyboardUart.Ring.Window.{window, contents}
use open_controller.KeyboardUart.Ring.Contiguity.{
  Session, Event, received, overrun, call, statement, initial, IsPrefix, IsBusy, waiting, upcoming,
  IsContiguous, apply, run,
}
use open_controller.KeyboardUart.Ring.Contiguity.Prefixes.{IsPrefix-trans, IsPrefix-append}
use open_controller.KeyboardUart.Ring.Contiguity.Preserved.{
  received-IsContiguous, overrun-IsContiguous,
}
use open_controller.KeyboardUart.Ring.Contiguity.Poll.{next-IsContiguous, call-IsContiguous}

apply-IsContiguous :
    (has_cb : Bool) (s : Session) (e : Event)
    → IsContiguous has_cb s
    → IsContiguous has_cb (apply has_cb s e)
unfolding apply
apply-IsContiguous has_cb s (received bytes) c = received-IsContiguous has_cb s bytes c
apply-IsContiguous has_cb s (overrun first before after) c =
    overrun-IsContiguous has_cb s first before after c
apply-IsContiguous has_cb s call c = call-IsContiguous has_cb s s.at c
apply-IsContiguous has_cb s statement c = next-IsContiguous has_cb s s.at c

run-IsContiguous :
    (has_cb : Bool) (s : Session) (events : List Event)
    → IsContiguous has_cb s
    → IsContiguous has_cb (run has_cb s events)
unfolding run
run-IsContiguous has_cb s [] c = c
run-IsContiguous has_cb s (e ∷ events) c =
    run-IsContiguous has_cb (apply has_cb s e) events (apply-IsContiguous has_cb s e c)

initial-IsContiguous : (has_cb : Bool) (p : Parser) → p.len ≡ 0 → IsContiguous has_cb (initial p)
unfolding contents window IsBusy waiting upcoming IsPrefix feed
initial-IsContiguous has_cb p h = record {
  valid = record { head_lt = omega arith; tail_lt = omega arith; fill = omega arith; size = refl };
  start_len = h;
  parsed = refl;
  busy = tt;
  clean = λ l. (refl, refl);
  ordered = ([], refl);
}

-- From power-up with an empty parser, whatever interrupts come between whichever statements of
-- KeyboardUart_Poll, as long as the hardware loses no byte in front of one that it reads on an
-- overrun: the bytes handed to the parser since the last hole was discarded are the first of those
-- that the host has sent since, in order and each once, none of them behind a byte that the
-- hardware lost or the ring refused; and the parser and the effects are what these bytes make of
-- an empty parser.
pub stream_in_order :
    (has_cb : Bool) (p : Parser) (events : List Event)
    → p.len ≡ 0
    → let s = run has_cb (initial p) events in
      IsPrefix s.fed s.arrived
      × (feed has_cb s.start s.fed ≡ (s.rx.parser, s.effects))
      × (s.start.len ≡ 0)
stream_in_order has_cb p events h =
    let s = run has_cb (initial p) events in
    let c = run-IsContiguous has_cb (initial p) events (initial-IsContiguous has_cb p h) in
    (
      IsPrefix-trans s.fed (s.fed ++ upcoming s.at s.rx) s.arrived
          (IsPrefix-append s.fed (upcoming s.at s.rx)) c.ordered,
      c.parsed,
      c.start_len,
    )

-- From power-up with an empty parser, whatever interrupts come between whichever statements of
-- KeyboardUart_Poll: while no hole is latched the hardware has lost nothing since the last one was
-- discarded, and the bytes handed to the parser and those waiting in the ring are all that the
-- host has sent since, in order.
pub nothing_lost :
    (has_cb : Bool) (p : Parser) (events : List Event)
    → p.len ≡ 0
    → (run has_cb (initial p) events).rx.overrun_latch ≡ false
    → let s = run has_cb (initial p) events in
      (s.lost ≡ false) × (s.fed ++ waiting s.at s.rx ≡ s.arrived)
nothing_lost has_cb p events h l =
    (run-IsContiguous has_cb (initial p) events (initial-IsContiguous has_cb p h)).clean l
