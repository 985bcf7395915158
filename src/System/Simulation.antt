-- ===== src/System/Simulation.antt =====
-- For the link, a history of the whole module is one of the link's own inputs.
use open_controller.Prelude.{
  ℕ, ◌≡◌, refl, Bool, true, false, List, [], ◌∷◌, if◌then◌else◌, Bool-cases, inl, inr, arith,
}
use open_controller.KeyboardUart.Parser.{send_ack, callback, host_ack}
use open_controller.KeyboardUart.Port.{take_led_lost, service, fifo_idle, tx_idle}
use open_controller.MainLoop as Main
use open_controller.MainLoop.{handle_uart_frame}
use open_controller.MainLoop.Histories.{services}
use open_controller.RfTask.Bond.{Bond}
use open_controller.RfTask.Link.{Link}
use open_controller.RfTask.Link.Histories.{
  due, interrupted, turned_around, ticked, led_lost, booted,
}
use open_controller.RfTask.Link.Histories as Histories
use open_controller.System.{
  circulate, Board, System, Event, scheduled, on_air, timed, connected_ticked, heard, served,
  attended, followed, idled, Readings, settle, follow, perform_all, answers, frame, hear, serve,
  attend, heartbeat_follow, apply, run, boot,
}
use open_controller.System.Linked.{Reaches, self-Reaches, one-Reaches, compose-Reaches}
use open_controller.System.Calls.{radio_all, perform_all-link, frame-Reaches, services-Reaches}

follow-Reaches :
    (s : System) (i : Histories.Input) → Reaches s.link (follow s (Histories.apply s.link i)).link
unfolding follow settle
follow-Reaches s i = one-Reaches s.link _ i refl

calls-Reaches :
    (now : ℕ) (cs : List Main.Call) (s : System)
    → Reaches s.link (radio_all cs s.link)
    → Reaches s.link (perform_all now cs s).link
calls-Reaches now cs s f = coe 1 0 (i. Reaches s.link (perform_all-link now cs s i)) f

serve-Reaches : (now : ℕ) (s : System) → Reaches s.link (serve now s).link
unfolding serve follow settle Histories.apply
serve-Reaches now s = elim (Bool-cases (take_led_lost true (service true s.port now)).1) [
  | inl e ↦ rw e (one-Reaches s.link _ led_lost refl)
  | inr e ↦ rw e (self-Reaches s.link)
]

pub heartbeat-link : (s : System) → (heartbeat_follow s).link ≡ s.link
unfolding heartbeat_follow
heartbeat-link s = ground arith

event-Reaches : (board : Board) (s : System) (e : Event) → Reaches s.link (apply board s e).link
unfolding apply hear frame attend
event-Reaches board s (scheduled e o) = follow-Reaches s (due e o)
event-Reaches board s (on_air status now armed) = follow-Reaches s (interrupted status now armed)
event-Reaches board s timed = follow-Reaches s turned_around
event-Reaches board s (connected_ticked now later config_ok) =
    follow-Reaches s (ticked now later config_ok)
event-Reaches board s (heard now send_ack) = self-Reaches s.link
event-Reaches board s (heard now (callback cmd sub payload len)) =
    let r = handle_uart_frame board.build (answers s.link) s.device cmd sub payload in
    calls-Reaches now r.1 (record s { device = r.0 })
      (frame-Reaches board.build s.device cmd sub payload s.link)
event-Reaches board s (heard now host_ack) = self-Reaches s.link
event-Reaches board s (served now) = serve-Reaches now s
event-Reaches board s (attended r) =
    let fifo = fifo_idle r.tfc r.all_empty in
    let tx = tx_idle true s.port r.tfc_later r.all_empty_later in
    let result = services board.build r.now fifo r.later tx s.device in
    calls-Reaches r.later result.1 (record s { device = result.0 })
      (services-Reaches board.build r.now fifo r.later tx s.device s.link)
event-Reaches board s followed =
    coe 1 0 (i. Reaches s.link (heartbeat-link s i)) (self-Reaches s.link)
event-Reaches board s (idled i) = self-Reaches s.link

if-Reaches :
    (l : Link) (b : Bool) (s s' : System)
    → Reaches l s.link
    → Reaches l s'.link
    → Reaches l (if b then s else s').link
if-Reaches l true s s' f g = f
if-Reaches l false s s' f g = g

next-Reaches :
    (board : Board) (s : System) (e : Event)
    → Reaches s.link (if s.left then s else apply board s e).link
next-Reaches board s e =
    if-Reaches s.link s.left s (apply board s e) (self-Reaches s.link) (event-Reaches board s e)

onward-Reaches :
    (board : Board) (s : System) (es : List Event) → Reaches s.link (run board s es).link
unfolding run
onward-Reaches board s [] = self-Reaches s.link
onward-Reaches board s (e ∷ es) =
    compose-Reaches (next-Reaches board s e)
      (onward-Reaches board (if s.left then s else apply board s e) es)

settled-Reaches : (l : Link) → Reaches l (settle l)
unfolding settle Histories.run
settled-Reaches l = record { inputs = []; reaches = refl }

boot-link :
    (board : Board) (mac : List ℕ) (mac_valid : Bool) (bond : Bond)
    → (boot board mac mac_valid bond).link ≡ settle (booted mac mac_valid bond)
unfolding boot
boot-link board mac mac_valid bond = ground arith

-- Whatever comes to the module since its boot, in whatever order, some history of the link's own
-- inputs leads the link to the same state, but for the calls that have been made: the commands, the
-- services and the loss of an LED frame reach it only as those inputs compose their calls.
pub run-Reaches :
    (board : Board) (mac : List ℕ) (mac_valid : Bool) (bond : Bond) (es : List Event)
    → Reaches (booted mac mac_valid bond) (run board (boot board mac mac_valid bond) es).link
run-Reaches board mac mac_valid bond es =
    compose-Reaches
      (coe 1 0 (i. Reaches (booted mac mac_valid bond) (boot-link board mac mac_valid bond i))
        (settled-Reaches (booted mac mac_valid bond)))
      (onward-Reaches board (boot board mac mac_valid bond) es)

-- A pass of the loop adds to such a history.
pub circulate-Reaches :
    (board : Board) (now : ℕ) (r : Readings) (s : System) {l : Link}
    → Reaches l s.link
    → Reaches l (circulate board now r s).link
unfolding circulate apply
circulate-Reaches board now r s f =
    let g = compose-Reaches f (event-Reaches board s (served now)) in
    let h = compose-Reaches g (event-Reaches board (serve now s) (attended r)) in
    compose-Reaches h (event-Reaches board (attend board r (serve now s)) followed)
