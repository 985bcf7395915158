-- ===== src/System/Orderly.antt =====
-- What the services and the heartbeat of firmware/src/main.c keep between any two events.
use open_controller.Prelude.{
  ℕ, ◌≡◌, ◌≢◌, Bool, true, false, ◌&&◌, List, [], ◌∷◌, ◌==◌, if◌then◌else◌, arith,
}
use open_controller.KeyboardUart.Port.{tx_idle, fifo_idle}
use open_controller.MainLoop as Main
use open_controller.MainLoop.{
  Device, Build, Answers, handle_uart_frame, sleep_part, command, openboot_service, power_service,
}
use open_controller.MainLoop.Histories.{services, any_call, is_request_update}
use open_controller.RfTask.Bond.{Bond}
use open_controller.RfTask.Link.{Link, resting}
use open_controller.RfTask.Link.Calls.{rest_probing}
use open_controller.System.Effects.{perform_all-device}
use open_controller.KeyboardUart.Parser.{send_ack, callback, host_ack}
use open_controller.System.{
  run, boot, apply, hear, Event, scheduled, on_air, timed, connected_ticked, heard, served,
  attended, followed, idled, answers, frame, Board, System, Readings, follow, perform, perform_all,
  serve, attend, heartbeat_follow,
}

-- The bootloader's service has begun only for an update that is still asked for.
unfoldable pub HasBegun : Device → Type 0
HasBegun d = d.openboot_state ≢ 0 → d.openboot_entry_pending ≡ true

-- Behind the services, nothing is under way that has not been asked for.
pub services-settled :
    (build : Build) (now : ℕ) (fifo : Bool) (later : ℕ) (tx : Bool) (d : Device)
    → HasBegun d
    → HasBegun (services build now fifo later tx d).0
      × ((services build now fifo later tx d).0.openboot_entry_pending ≡ false
          → (services build now fifo later tx d).0.openboot_state ≡ 0)
      × ((services build now fifo later tx d).0.sleep_proto.sleep_pending ≡ false
          → (services build now fifo later tx d).0.openboot_entry_pending ≡ false
          → (services build now fifo later tx d).0.power_state ≡ 0)
unfolding HasBegun services openboot_service power_service any_call is_request_update
services-settled build now fifo later tx d h =
    (λ n. ground arith, λ e. ground arith, λ e k. ground arith)

handle-openboot :
    (build : Build) (ans : Answers) (d : Device) (cmd sub : ℕ) (payload : List ℕ)
    → HasBegun d
    → HasBegun (handle_uart_frame build ans d cmd sub payload).0
unfolding HasBegun handle_uart_frame sleep_part command
handle-openboot build ans d cmd sub payload h n = ground arith

pub heartbeat_idem : (s : System) → heartbeat_follow (heartbeat_follow s) ≡ heartbeat_follow s
unfolding heartbeat_follow
heartbeat_idem s = ground arith

-- The heartbeat's period goes by `fast`.
unfoldable pub HasBeat : System → Type 0
HasBeat s = s.divisor ≡ (if s.fast then 250 else 5)

heartbeat-HasBeat : (s : System) → HasBeat s → HasBeat (heartbeat_follow s)
unfolding HasBeat heartbeat_follow
heartbeat-HasBeat s h = ground arith

-- Behind the heartbeat's passage, the period is that of the link's state.
pub heartbeat-divisor :
    (s : System)
    → HasBeat s
    → (heartbeat_follow s).divisor ≡ (
        if (heartbeat_follow s).link.state == resting && rest_probing (heartbeat_follow s).link
        then 250
        else 5)
unfolding HasBeat heartbeat_follow
heartbeat-divisor s h = ground arith

perform-beat : (now : ℕ) (c : Main.Call) (s : System) → HasBeat s → HasBeat (perform now c s)
unfolding HasBeat perform follow
perform-beat now c s h = ground arith

perform_all-beat :
    (now : ℕ) (cs : List Main.Call) (s : System) → HasBeat s → HasBeat (perform_all now cs s)
unfolding perform_all
perform_all-beat now [] s h = h
perform_all-beat now (c ∷ cs) s h =
    perform_all-beat now cs (perform now c s) (perform-beat now c s h)

serve-beat : (now : ℕ) (s : System) → HasBeat s → HasBeat (serve now s)
unfolding HasBeat serve follow
serve-beat now s h = ground arith

-- What the loop itself keeps between any two events.
pub record IsOrderly (s : System) : Type 0 where
  pub begun : HasBegun s.device
  pub beat : HasBeat s

frame-IsOrderly :
    (board : Board) (now cmd sub : ℕ) (payload : List ℕ) (s : System)
    → IsOrderly s
    → IsOrderly (frame board now cmd sub payload s)
unfolding frame
frame-IsOrderly board now cmd sub payload s h =
    let (d, calls) = handle_uart_frame board.build (answers s.link) s.device cmd sub payload in
    record {
      begun =
          coe 1 0 (i. HasBegun (perform_all-device now calls (record s { device = d }) i))
            (handle-openboot board.build (answers s.link) s.device cmd sub payload h.begun);
      beat = perform_all-beat now calls (record s { device = d }) (unfold HasBeat in h.beat);
    }

pub attend-IsOrderly :
    (board : Board) (r : Readings) (s : System) → IsOrderly s → IsOrderly (attend board r s)
unfolding attend
attend-IsOrderly board r s h =
    let fifo = fifo_idle r.tfc r.all_empty in
    let tx = tx_idle true s.port r.tfc_later r.all_empty_later in
    let (d, calls) = services board.build r.now fifo r.later tx s.device in
    record {
      begun =
          coe 1 0 (i. HasBegun (perform_all-device r.later calls (record s { device = d }) i))
            (services-settled board.build r.now fifo r.later tx s.device h.begun).0;
      beat = perform_all-beat r.later calls (record s { device = d }) (unfold HasBeat in h.beat);
    }

serve-device : (now : ℕ) (s : System) → (serve now s).device ≡ s.device
unfolding serve follow
serve-device now s = ground arith

pub serve-IsOrderly : (now : ℕ) (s : System) → IsOrderly s → IsOrderly (serve now s)
unfolding HasBegun
serve-IsOrderly now s h = record {
  begun = coe 1 0 (i. HasBegun (serve-device now s i)) h.begun;
  beat = serve-beat now s h.beat;
}

pub heartbeat-device : (s : System) → (heartbeat_follow s).device ≡ s.device
unfolding heartbeat_follow
heartbeat-device s = ground arith

follow-IsOrderly : (s : System) (l : Link) → IsOrderly s → IsOrderly (follow s l)
unfolding follow HasBegun HasBeat
follow-IsOrderly s l h = record { begun = h.begun; beat = h.beat }

event-IsOrderly :
    (board : Board) (s : System) (e : Event) → IsOrderly s → IsOrderly (apply board s e)
unfolding apply hear HasBeat
event-IsOrderly board s (scheduled e o) h = follow-IsOrderly s _ h
event-IsOrderly board s (on_air status now armed) h = follow-IsOrderly s _ h
event-IsOrderly board s timed h = follow-IsOrderly s _ h
event-IsOrderly board s (connected_ticked now later config_ok) h = follow-IsOrderly s _ h
event-IsOrderly board s (heard now send_ack) h = h
event-IsOrderly board s (heard now (callback cmd sub payload len)) h =
    frame-IsOrderly board now cmd sub payload s h
event-IsOrderly board s (heard now host_ack) h = record { begun = h.begun; beat = h.beat }
event-IsOrderly board s (served now) h = serve-IsOrderly now s h
event-IsOrderly board s (attended r) h = attend-IsOrderly board r s h
event-IsOrderly board s followed h = record {
  begun = coe 1 0 (i. HasBegun (heartbeat-device s i)) h.begun;
  beat = heartbeat-HasBeat s h.beat;
}
event-IsOrderly board s (idled i) h = record { begun = h.begun; beat = h.beat }

if-IsOrderly :
    (b : Bool) (s s' : System) → IsOrderly s → IsOrderly s' → IsOrderly (if b then s else s')
if-IsOrderly true s s' h k = h
if-IsOrderly false s s' h k = k

pub onward-IsOrderly :
    (board : Board) (s : System) (es : List Event) → IsOrderly s → IsOrderly (run board s es)
unfolding run
onward-IsOrderly board s [] h = h
onward-IsOrderly board s (e ∷ es) h =
    onward-IsOrderly board (if s.left then s else apply board s e) es
      (if-IsOrderly s.left s (apply board s e) h (event-IsOrderly board s e h))

pub boot-IsOrderly :
    (board : Board) (mac : List ℕ) (mac_valid : Bool) (bond : Bond)
    → IsOrderly (boot board mac mac_valid bond)
unfolding boot HasBegun HasBeat
boot-IsOrderly board mac mac_valid bond = ground arith
