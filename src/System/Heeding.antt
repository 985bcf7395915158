-- ===== src/System/Heeding.antt =====
-- What the host says about sleep, and that firmware/src/main.c and power_sleep.c heed it.
use open_controller.Prelude.{
  ℕ, ◌≡◌, sym, ap, ◌∙◌, Bool, true, false, not, ◌&&◌, ◌||◌, List, [], ◌∷◌, ◌==◌, if◌then◌else◌,
  arith,
}
use open_controller.KeyboardUart.Parser.{send_ack, callback, host_ack}
use open_controller.KeyboardUart.Port.{fifo_idle, tx_idle}
use open_controller.MainLoop.{Build, Device, handle_uart_frame, openboot_service, power_service}
use open_controller.MainLoop.Histories.{services}
use open_controller.MainLoop.Sleep.{frame-keeps, services-asked}
use open_controller.PowerSleep.{
  PowerSleep, Sdk, Gates, Boundary, low_power, sleep_explicit, sleep_armed, sleep_until,
  holdoff_expired, woken, note_activity,
}
use open_controller.RfTask.Bond.{Bond}
use open_controller.RfTask.Link.{Link}
use open_controller.SleepProtocol.{SleepProto, on_frame, arbitrate, is_state_changing}
use open_controller.System.{
  Board, System, Event, scheduled, on_air, timed, connected_ticked, heard, served, attended,
  followed, idled, Readings, follow, answers, frame, hear, serve, attend, heartbeat_follow, gates,
  rest, apply, run, boot,
}
use open_controller.System.Effects.{
  perform_all-device, perform_all-power, sleep_part-power, services-power, handle-power,
}

-- What the host has said, by the protocol of sleep_protocol.h and POWER_MANAGEMENT_COMPARISON.md: that
-- it knows the sleep protocol, that it wants an update, that it wants sleep (A6 54, with nothing behind
-- it that changes state and no A6 56), that it has taken such a wish back by A6 56 and sent nothing
-- since that changes state, and that the module may sleep by itself.
pub record Said : Type 0 where
  pub unlocked : Bool
  pub update : Bool
  pub sleep : Bool
  pub reset : Bool
  pub auto : Bool

unfoldable pub listen : Said → ℕ → ℕ → Said
listen w cmd sub =
    if cmd == 0xA6 && sub == 0x56
    then record w { unlocked = true; sleep = false; reset = w.reset || w.sleep; auto = false }
    else if cmd == 0xA6 && sub == 0x54
    then record w { sleep = w.sleep || w.unlocked && not w.update }
    else if cmd == 0xA6 && sub == 0x57
    then record w { auto = w.auto || w.unlocked }
    else record w {
      update = w.update || cmd == 0xA6 && sub == 0x81;
      sleep = w.sleep && not (is_state_changing cmd sub);
      reset = w.reset && not (is_state_changing cmd sub);
      auto = w.auto && not (cmd == 0xA6 && (sub == 0x51 || sub == 0x52 || sub == 0x63));
    }

unfoldable pub hears : Said → Event → Said
hears w (heard now (callback cmd sub payload len)) = listen w cmd sub
hears w e = w

-- What the host has said by the end of a history, up to the entry of the bootloader.
unfoldable pub said : Board → System → Said → List Event → Said
said board s w [] = w
said board s w (e ∷ es) =
    said board (if s.left then s else apply board s e) (if s.left then w else hears w e) es

abbrev pub nothing : Said
nothing = record { unlocked = false; update = false; sleep = false; reset = false; auto = false }

pub record IsHeeded (d : Device) (p : PowerSleep) (w : Said) : Type 0 where
  pub unlocked_lem : d.sleep_proto.unlocked ≡ w.unlocked
  pub update_lem : d.openboot_entry_pending ≡ w.update
  pub pending_lem : d.sleep_proto.sleep_pending ≡ true → w.sleep ≡ true
  pub explicit_lem : p.explicit_request ≡ true → (w.sleep || w.reset) ≡ true
  pub auto_lem : d.sleep_proto.autosleep ≡ w.auto
  pub armed_lem : p.autosleep ≡ w.auto

-- The reducer against the host's words.
record Agrees (q : SleepProto) (w : Said) : Type 0 where
  unlocked_lem : q.unlocked ≡ w.unlocked
  pending_lem : q.sleep_pending ≡ true → w.sleep ≡ true
  auto_lem : q.autosleep ≡ w.auto

on_frame-Agrees :
    (q : SleepProto) (cmd sub : ℕ) (w : Said)
    → Agrees q w
    → Agrees (on_frame q cmd sub w.update).0 (listen w cmd sub)
unfolding on_frame arbitrate listen is_state_changing
on_frame-Agrees q cmd sub w h = ground arith

listen_lem :
    (w : Said) (cmd sub : ℕ) (e : Bool)
    → (e ≡ true → (w.sleep || w.reset) ≡ true)
    → ((listen w cmd sub).update ≡ w.update || cmd == 0xA6 && sub == 0x81)
      × ((e && not (is_state_changing cmd sub)) ≡ true
          → ((listen w cmd sub).sleep || (listen w cmd sub).reset) ≡ true)
unfolding listen is_state_changing
listen_lem w cmd sub e h = (ground arith, λ k. ground arith)

frame-IsHeeded :
    (board : Board) (now cmd sub : ℕ) (payload : List ℕ) (s : System) (w : Said)
    → IsHeeded s.device s.power w
    → IsHeeded
        (frame board now cmd sub payload s).device
        (frame board now cmd sub payload s).power
        (listen w cmd sub)
unfolding frame
frame-IsHeeded board now cmd sub payload s w h =
    let (d, calls) = handle_uart_frame board.build (answers s.link) s.device cmd sub payload in
    let s' = record s { device = d } in
    let (proto, update) = frame-keeps board.build (answers s.link) s.device cmd sub payload in
    let power =
      perform_all-power now calls s'
      ∙ handle-power now board.build (answers s.link) s.device cmd sub payload s.power in
    let (auto, explicit) = sleep_part-power now s.device cmd sub s.power in
    let g = on_frame-Agrees s.device.sleep_proto cmd sub w (record {
      unlocked_lem = h.unlocked_lem;
      pending_lem = h.pending_lem;
      auto_lem = h.auto_lem;
    }) in
    let (heard_update, heard_sleep) =
      listen_lem w cmd sub s.power.explicit_request h.explicit_lem in
    let same = ap (λ u. (on_frame s.device.sleep_proto cmd sub u).0) h.update_lem in
    coe 1 0 (i. IsHeeded (perform_all-device now calls s' i) (power i) (listen w cmd sub)) (record {
      unlocked_lem = ap (λ (q : SleepProto). q.unlocked) (proto ∙ same) ∙ g.unlocked_lem;
      update_lem =
          update ∙ ap (λ u. u || cmd == 0xA6 && sub == 0x81) h.update_lem ∙ sym heard_update;
      pending_lem =
          λ e. g.pending_lem (sym (ap (λ (q : SleepProto). q.sleep_pending) (proto ∙ same)) ∙ e);
      explicit_lem = λ e. heard_sleep (sym explicit ∙ e);
      auto_lem = ap (λ (q : SleepProto). q.autosleep) (proto ∙ same) ∙ g.auto_lem;
      armed_lem = auto ∙ ap (λ (q : SleepProto). q.autosleep) same ∙ g.auto_lem;
    })

-- The services only take a wish up, or let it go.
services-keeps :
    (build : Build) (now : ℕ) (fifo : Bool) (later : ℕ) (tx : Bool) (d : Device)
    → ((services build now fifo later tx d).0.sleep_proto.unlocked ≡ d.sleep_proto.unlocked)
      × ((services build now fifo later tx d).0.sleep_proto.autosleep ≡ d.sleep_proto.autosleep)
      × ((services build now fifo later tx d).0.openboot_entry_pending ≡ d.openboot_entry_pending)
      × ((services build now fifo later tx d).0.sleep_proto.sleep_pending ≡ true
          → d.sleep_proto.sleep_pending ≡ true)
unfolding services openboot_service power_service
services-keeps build now fifo later tx d =
    (ground arith, ground arith, ground arith, λ e. ground arith)

or_either :
    {a b wanted : Bool}
    → (a ≡ true → wanted ≡ true)
    → (b ≡ true → wanted ≡ true)
    → (a || b) ≡ true
    → wanted ≡ true
or_either f g h = ground arith

in_front : {a : Bool} (b : Bool) → a ≡ true → (a || b) ≡ true
in_front b h = ground arith

attend-IsHeeded :
    (board : Board) (r : Readings) (s : System) (w : Said)
    → IsHeeded s.device s.power w
    → IsHeeded (attend board r s).device (attend board r s).power w
unfolding attend
attend-IsHeeded board r s w h =
    let fifo = fifo_idle r.tfc r.all_empty in
    let tx = tx_idle true s.port r.tfc_later r.all_empty_later in
    let (d, calls) = services board.build r.now fifo r.later tx s.device in
    let s' = record s { device = d } in
    let (unlocked, auto, update, pending) =
      services-keeps board.build r.now fifo r.later tx s.device in
    let (armed, explicit) =
      services-power r.now r.later board.build fifo r.later tx s.device s.power in
    let asked = services-asked board.build r.now fifo r.later tx s.device in
    coe 1 0
      (i. IsHeeded (perform_all-device r.later calls s' i) (perform_all-power r.later calls s' i) w)
      (record {
        unlocked_lem = unlocked ∙ h.unlocked_lem;
        update_lem = update ∙ h.update_lem;
        pending_lem = λ e. h.pending_lem (pending e);
        explicit_lem = λ e.
            or_either h.explicit_lem (λ k. in_front w.reset (h.pending_lem (asked k).0))
              (sym explicit ∙ e);
        auto_lem = auto ∙ h.auto_lem;
        armed_lem = armed ∙ h.armed_lem;
      })

-- The idle callback arms nothing and asks for nothing.
low_power-keeps :
    (sdk : Sdk) (g : Gates) (b : Boundary) (p : PowerSleep) (deadline : ℕ)
    → ((low_power sdk g b p deadline).sleep.autosleep ≡ p.autosleep)
      × ((low_power sdk g b p deadline).sleep.explicit_request ≡ true → p.explicit_request ≡ true)
unfolding low_power sleep_explicit sleep_armed sleep_until holdoff_expired woken note_activity
low_power-keeps sdk g b p deadline = (ground arith, λ e. ground arith)

follow-IsHeeded :
    (s : System) (l : Link) (w : Said)
    → IsHeeded s.device s.power w
    → IsHeeded (follow s l).device (follow s l).power w
unfolding follow
follow-IsHeeded s l w h = h

serve-same :
    (now : ℕ) (s : System) → ((serve now s).device ≡ s.device) × ((serve now s).power ≡ s.power)
unfolding serve follow
serve-same now s = (ground arith, ground arith)

heartbeat-same :
    (s : System) → ((heartbeat_follow s).device ≡ s.device) × ((heartbeat_follow s).power ≡ s.power)
unfolding heartbeat_follow
heartbeat-same s = (ground arith, ground arith)

event-IsHeeded :
    (board : Board) (s : System) (w : Said) (e : Event)
    → IsHeeded s.device s.power w
    → IsHeeded (apply board s e).device (apply board s e).power (hears w e)
unfolding apply hears hear rest
event-IsHeeded board s w (scheduled e o) h = follow-IsHeeded s _ w h
event-IsHeeded board s w (on_air status now armed) h = follow-IsHeeded s _ w h
event-IsHeeded board s w timed h = follow-IsHeeded s _ w h
event-IsHeeded board s w (connected_ticked now later config_ok) h = follow-IsHeeded s _ w h
event-IsHeeded board s w (heard now send_ack) h = h
event-IsHeeded board s w (heard now (callback cmd sub payload len)) h =
    frame-IsHeeded board now cmd sub payload s w h
event-IsHeeded board s w (heard now host_ack) h = h
event-IsHeeded board s w (served now) h =
    let (d, p) = serve-same now s in coe 1 0 (i. IsHeeded (d i) (p i) w) h
event-IsHeeded board s w (attended r) h = attend-IsHeeded board r s w h
event-IsHeeded board s w followed h =
    let (d, p) = heartbeat-same s in coe 1 0 (i. IsHeeded (d i) (p i) w) h
event-IsHeeded board s w (idled i) h =
    let (armed, asked) = low_power-keeps board.sdk (gates s i) i.boundary s.power i.deadline in
    record {
      unlocked_lem = h.unlocked_lem;
      update_lem = h.update_lem;
      pending_lem = h.pending_lem;
      explicit_lem = λ e. h.explicit_lem (asked e);
      auto_lem = h.auto_lem;
      armed_lem = armed ∙ h.armed_lem;
    }

if-IsHeeded :
    (b : Bool) (s s' : System) (w w' : Said)
    → IsHeeded s.device s.power w
    → IsHeeded s'.device s'.power w'
    → IsHeeded (if b then s else s').device (if b then s else s').power (if b then w else w')
if-IsHeeded true s s' w w' h k = h
if-IsHeeded false s s' w w' h k = k

onward-IsHeeded :
    (board : Board) (s : System) (w : Said) (es : List Event)
    → IsHeeded s.device s.power w
    → IsHeeded (run board s es).device (run board s es).power (said board s w es)
unfolding run said
onward-IsHeeded board s w [] h = h
onward-IsHeeded board s w (e ∷ es) h =
    onward-IsHeeded board (if s.left then s else apply board s e) (if s.left then w else hears w e)
      es (if-IsHeeded s.left s (apply board s e) w (hears w e) h (event-IsHeeded board s w e h))

boot-IsHeeded :
    (board : Board) (mac : List ℕ) (mac_valid : Bool) (bond : Bond)
    → IsHeeded (boot board mac mac_valid bond).device (boot board mac mac_valid bond).power nothing
unfolding boot
boot-IsHeeded board mac mac_valid bond = ground arith

-- Whatever comes to the module since its boot, in whatever order: the module knows as the host's
-- word that it has unlocked sleep, asked for an update and armed auto-sleep, deep sleep's own flag
-- for that included. It holds a request for the explicit sleep in main.c only while the host wants
-- it; one handed to the idle callback is there only while the host wants it, or has taken it back
-- by A6 56 alone.
pub run-IsHeeded :
    (board : Board) (mac : List ℕ) (mac_valid : Bool) (bond : Bond) (es : List Event)
    → IsHeeded
        (run board (boot board mac mac_valid bond) es).device
        (run board (boot board mac mac_valid bond) es).power
        (said board (boot board mac mac_valid bond) nothing es)
run-IsHeeded board mac mac_valid bond es =
    onward-IsHeeded board (boot board mac mac_valid bond) nothing es
      (boot-IsHeeded board mac mac_valid bond)
