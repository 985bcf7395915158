-- ===== src/KeyboardUart/Ring/Contiguity.antt =====
-- What the receive ring of firmware/src/keyboard_uart.c makes of the stream of bytes from the
-- host, with `UART1_IRQHandler` between any two statements of `KeyboardUart_Poll`.
mod Prefixes
mod Received
mod Preserved
mod Poll
pub mod Stream
use open_controller.Prelude.{
  ℕ, ◌≡◌, ◌≢◌, Bool, true, false, List, [], ◌∷◌, ◌++◌, if◌then◌else◌, take, drop,
}
use open_controller.KeyboardUart.Parser.{Parser, Effect, feed}
use open_controller.KeyboardUart.Ring.{
  Receiver, Place, at_latch, at_empty, at_feed, at_advance, done, next_byte, poll_step,
  uart1_irq_handler, power_up,
}
use open_controller.KeyboardUart.Ring.Window.{IsValid, contents}

-- The driver and the history since the last `discard`: the parser it left, the bytes that the
-- host has sent up to the first one that the hardware lost, whether it has lost one, the bytes
-- handed to `feed_byte` and their effects.
pub record Session : Type 0 where
  pub at : Place
  pub rx : Receiver
  pub start : Parser
  pub arrived : List ℕ
  pub lost : Bool
  pub fed : List ℕ
  pub effects : List Effect

abbrev pub initial : Parser → Session
initial p = record {
  at = at_latch;
  rx = power_up p;
  start = p;
  arrived = [];
  lost = false;
  fed = [];
  effects = [];
}

-- An interrupt with the bytes it finds; an interrupt that reports an overrun, which the hardware
-- records behind a FIFO it has filled, so that the lost bytes come after at least one that the
-- handler reads; a call of `KeyboardUart_Poll`; and the next statement of that function.
pub data Event : Type 0 where
  received : List ℕ → Event
  overrun : ℕ → List ℕ → List ℕ → Event
  call : Event
  statement : Event

unfoldable pub called : Place → Place
called done = at_latch
called at_latch = at_latch
called at_empty = at_empty
called at_feed = at_feed
called at_advance = at_advance

-- What the statement at a place hands to `feed_byte`.
unfoldable pub fed_at : Place → Receiver → List ℕ
fed_at at_feed r = next_byte r ∷ []
fed_at at_latch r = []
fed_at at_empty r = []
fed_at at_advance r = []
fed_at done r = []

unfoldable pub is_discard : Place → Receiver → Bool
is_discard at_latch r = r.overrun_latch
is_discard at_empty r = false
is_discard at_feed r = false
is_discard at_advance r = false
is_discard done r = false

unfoldable pub next : Bool → Session → Session
next has_cb s =
    let (at, r, es) = poll_step has_cb s.at s.rx in
    if is_discard s.at s.rx
    then record {
      at = at;
      rx = r;
      start = r.parser;
      arrived = [];
      lost = false;
      fed = [];
      effects = [];
    }
    else record s { at = at; rx = r; fed = s.fed ++ fed_at s.at s.rx; effects = s.effects ++ es }

unfoldable pub apply : Bool → Session → Event → Session
apply has_cb s (received bytes) = record s {
  rx = uart1_irq_handler false s.rx bytes;
  arrived = if s.lost then s.arrived else s.arrived ++ bytes;
}
apply has_cb s (overrun first before after) = record s {
  rx = uart1_irq_handler true s.rx (first ∷ before ++ after);
  arrived = if s.lost then s.arrived else s.arrived ++ first ∷ before;
  lost = true;
}
apply has_cb s call = record s { at = called s.at }
apply has_cb s statement = next has_cb s

unfoldable pub run : Bool → Session → List Event → Session
run has_cb s [] = s
run has_cb s (e ∷ es) = run has_cb (apply has_cb s e) es

unfoldable pub IsPrefix : List ℕ → List ℕ → Type 0
IsPrefix xs ys = (rest : List ℕ) × (xs ++ rest ≡ ys)

-- The bytes in the ring that have not been handed over.
unfoldable pub waiting : Place → Receiver → List ℕ
waiting at_advance r = drop 1 (contents r)
waiting at_latch r = contents r
waiting at_empty r = contents r
waiting at_feed r = contents r
waiting done r = contents r

-- The byte that can be handed over before the latch is tested again.
unfoldable pub upcoming : Place → Receiver → List ℕ
upcoming at_empty r = take 1 (contents r)
upcoming at_feed r = take 1 (contents r)
upcoming at_latch r = []
upcoming at_advance r = []
upcoming done r = []

-- Past the test for bytes there is a byte, and past that of the latch there is one once it is set.
unfoldable pub IsBusy : Place → Receiver → Type 0
IsBusy at_latch r = Unit
IsBusy done r = Unit
IsBusy at_empty r = r.overrun_latch ≡ true → contents r ≢ []
IsBusy at_feed r = contents r ≢ []
IsBusy at_advance r = contents r ≢ []

-- The bytes handed over are the first of those that the host sent; with no hole latched they and
-- those waiting are all of them.
pub record IsContiguous (has_cb : Bool) (s : Session) : Type 0 where
  pub valid : IsValid s.rx
  pub start_len : s.start.len ≡ 0
  pub parsed : feed has_cb s.start s.fed ≡ (s.rx.parser, s.effects)
  pub busy : IsBusy s.at s.rx
  pub clean :
      s.rx.overrun_latch ≡ false → (s.lost ≡ false) × (s.fed ++ waiting s.at s.rx ≡ s.arrived)
  pub ordered : IsPrefix (s.fed ++ upcoming s.at s.rx) s.arrived
