-- ===== src/System/Lines.antt =====
-- The host port within the whole module of firmware/src/main.c: whatever comes to the module keeps
-- host wake valid and CHWAKE with it.
use open_controller.Prelude.{ℕ, Bool, true, false, List, [], ◌∷◌, if◌then◌else◌, ◌≡◌, arith}
use open_controller.KeyboardUart.Parser.{send_ack, callback, host_ack}
use open_controller.KeyboardUart.Port.{Port, take_led_lost, service}
use open_controller.KeyboardUart.Port.Line.{
  IsSteady, port_init-IsSteady, status-IsSteady, battery-IsSteady, led-IsSteady, ack-IsSteady,
  take-IsSteady, service-IsSteady,
}
use open_controller.MainLoop as Main
use open_controller.MainLoop.{handle_uart_frame}
use open_controller.RfTask.Bond.{Bond}
use open_controller.RfTask.Link as Radio
use open_controller.RfTask.Link.{Link}
use open_controller.RfTask.Link.Calls.{rf_led_resync}
use open_controller.System.{
  Board, System, Event, scheduled, on_air, timed, connected_ticked, heard, served, attended,
  followed, idled, make, make_all, follow, perform, perform_all, frame, hear, serve, attend,
  heartbeat_follow, apply, run, boot,
}

make-IsSteady : {p : Port} (c : Radio.Call) → IsSteady p → IsSteady (make c p)
unfolding make
make-IsSteady (Radio.send_status n) h = status-IsSteady n h
make-IsSteady (Radio.send_led v) h = led-IsSteady v h
make-IsSteady (Radio.save_bond b) h = h
make-IsSteady Radio.clear_flash h = h
make-IsSteady (Radio.beacon c payload) h = h
make-IsSteady (Radio.respond c payload) h = h

make_all-IsSteady : {p : Port} (cs : List Radio.Call) → IsSteady p → IsSteady (make_all cs p)
unfolding make_all
make_all-IsSteady [] h = h
make_all-IsSteady (c ∷ cs) h = make-IsSteady c (make_all-IsSteady cs h)

follow-IsSteady : (s : System) (l : Link) → IsSteady s.port → IsSteady (follow s l).port
unfolding follow
follow-IsSteady s l h = make_all-IsSteady l.calls h

perform-IsSteady :
    (now : ℕ) (c : Main.Call) (s : System) → IsSteady s.port → IsSteady (perform now c s).port
unfolding perform
perform-IsSteady now (Main.set_autosleep on) s h = h
perform-IsSteady now Main.note_activity s h = h
perform-IsSteady now Main.cancel_explicit s h = h
perform-IsSteady now Main.request_explicit s h = h
perform-IsSteady now (Main.send_status n) s h = status-IsSteady n h
perform-IsSteady now (Main.send_battery n) s h = battery-IsSteady n h
perform-IsSteady now (Main.queue_hid_report report) s h = follow-IsSteady s _ h
perform-IsSteady now Main.rf_disconnect s h = follow-IsSteady s _ h
perform-IsSteady now Main.drop_queue_unless_reselected s h = follow-IsSteady s _ h
perform-IsSteady now Main.select_2g4 s h = follow-IsSteady s _ h
perform-IsSteady now Main.enter_pairing s h = follow-IsSteady s _ h
perform-IsSteady now Main.clear_bond s h = follow-IsSteady s _ h
perform-IsSteady now Main.flush_bond_save s h = follow-IsSteady s _ h
perform-IsSteady now Main.diag_dump_send s h = h
perform-IsSteady now Main.diag_dump_zero s h = h
perform-IsSteady now Main.mask_interrupts s h = h
perform-IsSteady now Main.request_update s h = h

perform_all-IsSteady :
    (now : ℕ) (cs : List Main.Call) (s : System)
    → IsSteady s.port
    → IsSteady (perform_all now cs s).port
unfolding perform_all
perform_all-IsSteady now [] s h = h
perform_all-IsSteady now (c ∷ cs) s h =
    perform_all-IsSteady now cs (perform now c s) (perform-IsSteady now c s h)

pub if-IsSteady :
    (b : Bool) (s s' : System)
    → IsSteady s.port
    → IsSteady s'.port
    → IsSteady (if b then s else s').port
if-IsSteady true s s' h k = h
if-IsSteady false s s' h k = k

serve-IsSteady : (now : ℕ) (s : System) → IsSteady s.port → IsSteady (serve now s).port
unfolding serve
serve-IsSteady now s h =
    let (p, lost) = take_led_lost true (service true s.port now) in
    let k : IsSteady p = take-IsSteady (service-IsSteady now h) in
    let s' = record s { port = p } in
    if-IsSteady lost (follow s' (rf_led_resync s.link)) s' (follow-IsSteady s' _ k) k

heartbeat-port : (s : System) → (heartbeat_follow s).port ≡ s.port
unfolding heartbeat_follow
heartbeat-port s = ground arith

pub event-IsSteady :
    (board : Board) (s : System) (e : Event) → IsSteady s.port → IsSteady (apply board s e).port
unfolding apply hear frame attend
event-IsSteady board s (scheduled e o) h = follow-IsSteady s _ h
event-IsSteady board s (on_air status now armed) h = follow-IsSteady s _ h
event-IsSteady board s timed h = follow-IsSteady s _ h
event-IsSteady board s (connected_ticked now later config_ok) h = follow-IsSteady s _ h
event-IsSteady board s (heard now send_ack) h = h
event-IsSteady board s (heard now (callback cmd sub payload len)) h = perform_all-IsSteady now _ _ h
event-IsSteady board s (heard now host_ack) h = ack-IsSteady h
event-IsSteady board s (served now) h = serve-IsSteady now s h
event-IsSteady board s (attended r) h = perform_all-IsSteady r.later _ _ h
event-IsSteady board s followed h = coe 1 0 (i. IsSteady (heartbeat-port s i)) h
event-IsSteady board s (idled i) h = h

onward-IsSteady :
    (board : Board) (s : System) (es : List Event)
    → IsSteady s.port
    → IsSteady (run board s es).port
unfolding run
onward-IsSteady board s [] h = h
onward-IsSteady board s (e ∷ es) h =
    onward-IsSteady board (if s.left then s else apply board s e) es
      (if-IsSteady s.left s (apply board s e) h (event-IsSteady board s e h))

pub boot-IsSteady :
    (board : Board) (mac : List ℕ) (mac_valid : Bool) (bond : Bond)
    → IsSteady (boot board mac mac_valid bond).port
unfolding boot
boot-IsSteady board mac mac_valid bond =
    let h = port_init-IsSteady board.freq_rtc in
    if-IsSteady _ _ _ (status-IsSteady 0x35 (status-IsSteady 0x34 h)) h

-- Whatever comes to the module since its boot, in whatever order: host wake's invariant holds,
-- and the pin and the level noted for it are high exactly while host wake is not idle.
pub run-IsSteady :
    (board : Board) (mac : List ℕ) (mac_valid : Bool) (bond : Bond) (es : List Event)
    → IsSteady (run board (boot board mac mac_valid bond) es).port
run-IsSteady board mac mac_valid bond es =
    onward-IsSteady board (boot board mac mac_valid bond) es
      (boot-IsSteady board mac mac_valid bond)
