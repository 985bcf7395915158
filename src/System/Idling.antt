-- ===== src/System/Idling.antt =====
-- When the core idles: the test of `Main_Circulation` in firmware/src/main.c leaves nothing undone.
use open_controller.Prelude.{
  ℕ, ◌≡◌, ◌≢◌, sym, ap, ◌∙◌, Bool, true, false, ◌&&◌, ◌||◌, Option, none, List, [], ◌==◌,
  if◌then◌else◌, arith,
}
use open_controller.HostWake.{is_quiet}
use open_controller.KeyboardUart.Port.{Port, host_wake_idle, tx_idle, fifo_idle}
use open_controller.KeyboardUart.Port.Line.{IsSteady, quiet-low}
use open_controller.MainLoop.{Device}
use open_controller.MainLoop.Histories.{services}
use open_controller.RfTask.Bond.{Bond}
use open_controller.RfTask.Link.{Link, idle, connected, resting, shut}
use open_controller.RfTask.Link.Calls.{rest_probing, can_deep_sleep}
use open_controller.RfTask.Link.Handlers.{connected_tick}
use open_controller.RfTask.Link.Histories as Histories
use open_controller.System.{
  Board, System, Event, served, attended, followed, connected_ticked, Readings, make_all, settle,
  follow, serve, attend, heartbeat_follow, circulate, apply, run, boot, may_idle, idles,
}
use open_controller.System.Effects.{perform_all-device}
use open_controller.System.Leds.{
  IsWhole, event-IsWhole, onward-IsWhole, boot-IsWhole, serve-none_lost, shown_by, shown_at,
}
use open_controller.System.Orderly.{
  IsOrderly, serve-IsOrderly, attend-IsOrderly, onward-IsOrderly, boot-IsOrderly, heartbeat_idem,
  heartbeat-device, heartbeat-divisor, services-settled,
}
use open_controller.System.Simulation.{circulate-Reaches, run-Reaches}
use open_controller.System.Standing.{IsFree, serve-free, attend-free, attend-port}
use open_controller.System.Waking.{sleeping-shut}

-- Nothing is left to do for the loop until something comes to the module.
pub record OwesNothing (board : Board) (s : System) : Type 0 where
  pub ticks : (now later : ℕ) (ok : Bool) → apply board s (connected_ticked now later ok) ≡ s
  pub serves : (now : ℕ) → serve now s ≡ s
  pub attends : (r : Readings) → attend board r s ≡ s
  pub follows : heartbeat_follow s ≡ s
  pub low : s.port.pin ≡ false
  pub shut_lem : s.link.radio.mode ≡ shut
  pub beats : s.divisor ≡ (if s.link.state == resting && rest_probing s.link then 250 else 5)

tick-same :
    (board : Board) (s : System) (now later : ℕ) (ok : Bool)
    → s.link.calls ≡ []
    → s.link.state ≢ connected
    → apply board s (connected_ticked now later ok) ≡ s
unfolding apply Histories.apply connected_tick follow settle make_all
tick-same board s now later ok c n = ground arith

idle-IsFree :
    (p : Port) → IsSteady p → p.wake.latest_lost ≡ false → host_wake_idle true p ≡ true → IsFree p
unfolding host_wake_idle is_quiet
idle-IsFree p h l q = record {
  idles = ground arith;
  empty = ground arith;
  low = let level = h.level in ground arith;
  taken = l;
}

attend-device :
    (board : Board) (r : Readings) (s : System)
    → (attend board r s).device
      ≡ (services board.build r.now
          (fifo_idle r.tfc r.all_empty)
          r.later
          (tx_idle true s.port r.tfc_later r.all_empty_later)
          s.device).0
unfolding attend
attend-device board r s =
    let (d, calls) =
      services board.build r.now (fifo_idle r.tfc r.all_empty) r.later
        (tx_idle true s.port r.tfc_later r.all_empty_later) s.device in
    perform_all-device r.later calls (record s { device = d })

-- What the test says.
record MayIdle (s : System) : Type 0 where
  asleep : (s.link.state == idle || s.link.state == resting) ≡ true
  no_update : s.device.openboot_entry_pending ≡ false
  quiet : host_wake_idle true s.port ≡ true
  no_sleep : s.device.sleep_proto.sleep_pending ≡ false

idles-MayIdle :
    (s : System) (rx_quiet still_quiet : Bool) (rfc : ℕ) (heartbeat_due : Bool)
    → idles s rx_quiet still_quiet rfc heartbeat_due ≡ true
    → MayIdle s
unfolding idles may_idle
idles-MayIdle s rx_quiet still_quiet rfc heartbeat_due h = ground arith

-- The services' state behind their passage, where neither an update nor a sleep is asked for.
record IsDone (d : Device) : Type 0 where
  no_update : d.openboot_entry_pending ≡ false
  no_sleep : d.sleep_proto.sleep_pending ≡ false
  shut_down : d.openboot_state ≡ 0
  drained : d.power_state ≡ 0

attend-IsDone :
    (board : Board) (r : Readings) (s : System)
    → IsOrderly s
    → (attend board r s).device.openboot_entry_pending ≡ false
    → (attend board r s).device.sleep_proto.sleep_pending ≡ false
    → IsDone (attend board r s).device
attend-IsDone board r s h no_update no_sleep =
    let fifo = fifo_idle r.tfc r.all_empty in
    let tx = tx_idle true s.port r.tfc_later r.all_empty_later in
    let e = attend-device board r s in
    let (begun, shut_down, drained) =
      services-settled board.build r.now fifo r.later tx s.device h.begun in
    let u = ap (λ (d : Device). d.openboot_entry_pending) (sym e) ∙ no_update in
    let p = ap (λ (d : Device). d.sleep_proto.sleep_pending) (sym e) ∙ no_sleep in
    record {
      no_update = no_update;
      no_sleep = no_sleep;
      shut_down = ap (λ (d : Device). d.openboot_state) e ∙ shut_down u;
      drained = ap (λ (d : Device). d.power_state) e ∙ drained p u;
    }

idling-can_sleep :
    (l : Link)
    → (l.state == idle || l.state == resting) ≡ true
    → (can_deep_sleep l ≡ true) × (l.state ≢ connected)
unfolding can_deep_sleep
idling-can_sleep l h = (ground arith, λ e. absurd (ground arith))

heartbeat-port : (s : System) → (heartbeat_follow s).port ≡ s.port
unfolding heartbeat_follow
heartbeat-port s = ground arith

passed-IsDone :
    (board : Board) (r : Readings) (v : System)
    → IsOrderly v
    → MayIdle (heartbeat_follow (attend board r v))
    → IsDone (heartbeat_follow (attend board r v)).device
passed-IsDone board r v o m =
    let u = attend board r v in
    let e = heartbeat-device u in
    coe 1 0 (i. IsDone (e i)) (
      attend-IsDone board r v o
        (ap (λ (d : Device). d.openboot_entry_pending) (sym e) ∙ m.no_update)
        (ap (λ (d : Device). d.sleep_proto.sleep_pending) (sym e) ∙ m.no_sleep))

passed-none_lost :
    (board : Board) (r : Readings) (v : System)
    → v.link.calls ≡ []
    → v.port.wake.latest_lost ≡ false
    → (heartbeat_follow (attend board r v)).port.wake.latest_lost ≡ false
passed-none_lost board r v c l =
    ap (λ (p : Port). p.wake.latest_lost)
      (heartbeat-port (attend board r v) ∙ attend-port board r v c)
    ∙ l

passed-IsWhole :
    (board : Board) (r : Readings) (v : System) (shown : Option ℕ)
    → IsWhole v shown
    → IsWhole (heartbeat_follow (attend board r v)) shown
unfolding apply shown_by
passed-IsWhole board r v shown w =
    event-IsWhole board (attend board r v) shown followed
      (event-IsWhole board v shown (attended r) w)

-- A pass that may idle has settled everything.
passed-OwesNothing :
    (board : Board) (r : Readings) (v : System) (shown : Option ℕ)
    → IsWhole v shown
    → IsOrderly v
    → v.port.wake.latest_lost ≡ false
    → (can_deep_sleep (heartbeat_follow (attend board r v)).link ≡ true
        → (heartbeat_follow (attend board r v)).link.radio.mode ≡ shut)
    → MayIdle (heartbeat_follow (attend board r v))
    → OwesNothing board (heartbeat_follow (attend board r v))
passed-OwesNothing board r v shown w o l radio m =
    let u = attend board r v in
    let t = heartbeat_follow u in
    let end = passed-IsWhole board r v shown w in
    let d = passed-IsDone board r v o m in
    let (sleeps, apart) = idling-can_sleep t.link m.asleep in
    let free =
      idle-IsFree t.port end.steady (passed-none_lost board r v w.kept.settled l) m.quiet in
    record {
      ticks = λ now later ok. tick-same board t now later ok end.kept.settled apart;
      serves = λ now. serve-free now t free;
      attends = λ r'. attend-free board r' t d.shut_down d.no_update d.drained d.no_sleep;
      follows = heartbeat_idem u;
      low = quiet-low end.steady m.quiet;
      shut_lem = radio sleeps;
      beats = heartbeat-divisor u (attend-IsOrderly board r v o).beat;
    }

-- When a pass of the loop, behind whatever has come to the module since its boot, comes to the test
-- under the mask and idles the core, then nothing that the loop does would do anything before
-- something comes to the module: neither `RF_ConnectedTick` nor `KeyboardUart_Service` with the
-- resynchronisation of the LEDs, nor the services for the bootloader and for sleep, whatever the
-- clock and the transmit FIFO read, nor the heartbeat's passage changes anything or makes a call.
-- CHWAKE is low and the radio shut; and the heartbeat has the period that the link's state asks
-- for, 4 ms in the first stage of resting and 200 ms otherwise.
pub idle-OwesNothing :
    (board : Board) (mac : List ℕ) (mac_valid : Bool) (bond : Bond) (es : List Event) (now : ℕ)
    (r : Readings) (rx_quiet still_quiet : Bool) (rfc : ℕ) (heartbeat_due : Bool)
    → idles
        (circulate board now r (run board (boot board mac mac_valid bond) es))
        rx_quiet
        still_quiet
        rfc
        heartbeat_due
      ≡ true
    → OwesNothing board (circulate board now r (run board (boot board mac mac_valid bond) es))
unfolding circulate apply shown_by
idle-OwesNothing board mac mac_valid bond es now r rx_quiet still_quiet rfc heartbeat_due h =
    let b = boot board mac mac_valid bond in
    let s = run board b es in
    let shown = shown_at board b none es in
    let w = onward-IsWhole board b none es (boot-IsWhole board mac mac_valid bond) in
    let o = onward-IsOrderly board b es (boot-IsOrderly board mac mac_valid bond) in
    passed-OwesNothing board r (serve now s) (shown_by s shown (served now))
      (event-IsWhole board s shown (served now) w) (serve-IsOrderly now s o)
      (serve-none_lost now s w.kept.settled)
      (λ k.
        sleeping-shut mac mac_valid bond
          (circulate-Reaches board now r s (run-Reaches board mac mac_valid bond es)) k)
      (idles-MayIdle _ rx_quiet still_quiet rfc heartbeat_due h)
