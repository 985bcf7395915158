-- ===== src/System.antt =====
-- The whole module as firmware/src/main.c puts it together: the dispatch, the link, the host port
-- and deep sleep in one state, each acting on the others, in the build with `KBD_HOST_WAKE`,
-- `KBD_DEEP_SLEEP`, `KBD_REST` and `KBD_IDLE_WFI` set.
pub mod Calls
pub mod Effects
pub mod Linked
pub mod Simulation
pub mod Heeding
pub mod Renewal
pub mod Waking
pub mod Offers
pub mod Holding
pub mod Leds
pub mod Standing
pub mod Orderly
pub mod Idling
pub mod Lines
mod Tests
use open_controller.Prelude.{
  ℕ, Bool, true, false, not, ◌&&◌, ◌||◌, List, [], ◌∷◌, ◌==◌, if◌then◌else◌,
}
use open_controller.KeyboardUart.Parser.{Effect, send_ack, callback, host_ack}
use open_controller.KeyboardUart.Port.{
  Port, port_init, send_status, send_battery, send_led, service, take_led_lost, host_wake_idle,
  fifo_idle, tx_idle,
}
use open_controller.KeyboardUart.Port.{host_ack as port_ack}
use open_controller.MainLoop as Main
use open_controller.MainLoop.{Build, Answers, Device, handle_uart_frame}
use open_controller.MainLoop.Histories.{services}
use open_controller.PowerSleep.{
  Sdk, PowerSleep, Boundary, Gates, Pass, set_autosleep, note_activity, request_explicit,
  cancel_explicit, low_power,
}
use open_controller.PowerSleep as Power
use open_controller.RfTask.Bond.{Bond}
use open_controller.RfTask.Link as Radio
use open_controller.RfTask.Link.{Link, Outcome, idle, resting}
use open_controller.RfTask.Link.Calls.{
  drop_queue_unless_reselected, rf_select_2g4, rf_enter_pairing, rf_disconnect, rf_flush_bond_save,
  rf_clear_bond, can_deep_sleep, rest_probing, rf_queue_hid_report, rf_led_resync,
}
use open_controller.RfTask.Link.Callback.{Status}
use open_controller.RfTask.Link.Histories as Histories
use open_controller.RfTask.Link.Histories.{Input, due, interrupted, turned_around, ticked, booted}

-- The build's constants, and the SDK's.
pub record Board : Type 0 where
  pub build : Build
  pub sdk : Sdk
  pub freq_rtc : ℕ

-- The parts' states; `fast` of `heartbeat_follow_rf_state`, and what `GetSysClock()` is divided by
-- for TMR3; whether the bootloader has been entered.
pub record System : Type 0 where
  pub device : Device
  pub link : Link
  pub port : Port
  pub power : PowerSleep
  pub fast : Bool
  pub divisor : ℕ
  pub left : Bool

-- What a call that the link makes does to the host port; the other calls leave the module.
unfoldable pub make : Radio.Call → Port → Port
make (Radio.send_status n) p = send_status true p n
make (Radio.send_led v) p = send_led true p v
make (Radio.save_bond b) p = p
make Radio.clear_flash p = p
make (Radio.beacon c payload) p = p
make (Radio.respond c payload) p = p

-- The calls of a list that has the newest first.
unfoldable pub make_all : List Radio.Call → Port → Port
make_all [] p = p
make_all (c ∷ cs) p = make c (make_all cs p)

-- The link without the calls that have been made.
unfoldable pub settle : Link → Link
settle link = record link { calls = [] }

-- The link goes on, and its calls are made.
unfoldable pub follow : System → Link → System
follow s link = record s { link = settle link; port = make_all link.calls s.port }

-- What each call of main.c does, at a reading of the clock; those of the diagnostic dump, of the
-- mask and of the vendor's bootloader change nothing here, but that the last does not return.
unfoldable pub perform : ℕ → Main.Call → System → System
perform now (Main.set_autosleep on) s = record s { power = set_autosleep s.power on now }
perform now Main.note_activity s = record s { power = note_activity s.power now }
perform now Main.cancel_explicit s = record s { power = cancel_explicit s.power }
perform now Main.request_explicit s = record s { power = request_explicit s.power }
perform now (Main.send_status n) s = record s { port = send_status true s.port n }
perform now (Main.send_battery n) s = record s { port = send_battery true s.port n }
perform now (Main.queue_hid_report report) s = follow s (rf_queue_hid_report s.link report)
perform now Main.rf_disconnect s = follow s (rf_disconnect s.link)
perform now Main.drop_queue_unless_reselected s = follow s (drop_queue_unless_reselected s.link)
perform now Main.select_2g4 s = follow s (rf_select_2g4 s.link).0
perform now Main.enter_pairing s = follow s (rf_enter_pairing s.link).0
perform now Main.clear_bond s = follow s (rf_clear_bond s.link)
perform now Main.flush_bond_save s = follow s (rf_flush_bond_save s.link)
perform now Main.diag_dump_send s = s
perform now Main.diag_dump_zero s = s
perform now Main.mask_interrupts s = s
perform now Main.request_update s = record s { left = true }

unfoldable pub perform_all : ℕ → List Main.Call → System → System
perform_all now [] s = s
perform_all now (c ∷ cs) s = perform_all now cs (perform now c s)

-- What the link answers to `handle_uart_frame`.
unfoldable pub answers : Link → Answers
answers link = record {
  has_bond = (rf_select_2g4 link).1;
  identity_valid = link.mac_valid;
  pairing_entered = (rf_enter_pairing link).1;
}

-- `handle_uart_frame`, the frame callback, with what its calls do.
unfoldable pub frame : Board → ℕ → ℕ → ℕ → List ℕ → System → System
frame board now cmd sub payload s =
    let (d, calls) = handle_uart_frame board.build (answers s.link) s.device cmd sub payload in
    perform_all now calls (record s { device = d })

-- What a frame of the parser makes happen; the module's own ACK goes to the UART at once.
unfoldable pub hear : Board → ℕ → Effect → System → System
hear board now send_ack s = s
hear board now (callback cmd sub payload len) s = frame board now cmd sub payload s
hear board now host_ack s = record s { port = port_ack true s.port }

-- `KeyboardUart_Service` and the lines of `Main_Circulation` behind it.
unfoldable pub serve : ℕ → System → System
serve now s =
    let (p, lost) = take_led_lost true (service true s.port now) in
    let served = record s { port = p } in
    if lost then follow served (rf_led_resync s.link) else served

-- What the two services read: the clock and the transmit FIFO, each for itself.
pub record Readings : Type 0 where
  pub now : ℕ
  pub tfc : ℕ
  pub all_empty : Bool
  pub later : ℕ
  pub tfc_later : ℕ
  pub all_empty_later : Bool

-- `OpenBoot_Service` and `Power_Service`, with what their calls do.
unfoldable pub attend : Board → Readings → System → System
attend board r s =
    let (d, calls) =
      services board.build r.now (fifo_idle r.tfc r.all_empty) r.later
        (tx_idle true s.port r.tfc_later r.all_empty_later) s.device in
    perform_all r.later calls (record s { device = d })

-- What the idle callback reads beside the parts' states.
pub record Idle : Type 0 where
  pub tfc : ℕ
  pub all_empty : Bool
  pub rx_quiet : Bool
  pub rx_activity : Bool
  pub now : ℕ
  pub boundary : Boundary
  pub deadline : ℕ

-- The gates of the idle callback, by the parts' states.
unfoldable pub gates : System → Idle → Gates
gates s i = record {
  rf_idle = s.link.state == idle;
  can_deep_sleep = can_deep_sleep s.link;
  openboot_pending = s.device.openboot_entry_pending;
  tx_idle = tx_idle true s.port i.tfc i.all_empty;
  rx_quiet = i.rx_quiet;
  rx_activity = i.rx_activity;
  now = i.now;
}

-- `CH59x_LowPower` as the scheduler calls it.
unfoldable pub rest : Board → Idle → System → Pass
rest board i s = low_power board.sdk (gates s i) i.boundary s.power i.deadline

-- `heartbeat_follow_rf_state`, with what it hands to `heartbeat_set`.
unfoldable pub heartbeat_follow : System → System
heartbeat_follow s =
    let want = s.link.state == resting && rest_probing s.link in
    if (want && not s.fast) || (not want && s.fast)
    then record s { fast = want; divisor = if want then 250 else 5 }
    else s

-- A pass of `Main_Circulation` from `KeyboardUart_Service` up to its test for idling.
unfoldable pub circulate : Board → ℕ → Readings → System → System
circulate board now r s = heartbeat_follow (attend board r (serve now s))

-- What comes to the module: an event of the scheduler, the radio's interrupt and the turn-around
-- timer's, a pass of `RF_ConnectedTick`, a parsed frame, the two passages of the loop above, the
-- heartbeat's, and the idle callback.
pub data Event : Type 0 where
  scheduled : Radio.Event → Outcome → Event
  on_air : Status → ℕ → ℕ → Event
  timed : Event
  connected_ticked : ℕ → ℕ → Bool → Event
  heard : ℕ → Effect → Event
  served : ℕ → Event
  attended : Readings → Event
  followed : Event
  idled : Idle → Event

unfoldable pub apply : Board → System → Event → System
apply board s (scheduled e o) = follow s (Histories.apply s.link (due e o))
apply board s (on_air status now armed) =
    follow s (Histories.apply s.link (interrupted status now armed))
apply board s timed = follow s (Histories.apply s.link turned_around)
apply board s (connected_ticked now later config_ok) =
    follow s (Histories.apply s.link (ticked now later config_ok))
apply board s (heard now e) = hear board now e s
apply board s (served now) = serve now s
apply board s (attended r) = attend board r s
apply board s followed = heartbeat_follow s
apply board s (idled i) = record s { power = (rest board i s).sleep }

-- Nothing happens behind the entry of the bootloader.
unfoldable pub run : Board → System → List Event → System
run board s [] = s
run board s (e ∷ es) = run board (if s.left then s else apply board s e) es

-- What `main` makes of the parts' initial states, with the identity and the bond that the link has
-- loaded, at the scheduler's first pass.
unfoldable pub boot : Board → List ℕ → Bool → Bond → System
boot board mac mac_valid bond =
    let s : System = record {
      device = Main.power_up;
      link = settle (booted mac mac_valid bond);
      port = port_init board.freq_rtc;
      power = Power.power_up;
      fast = false;
      divisor = 5;
      left = false;
    } in
    if bond.has_bond && mac_valid
    then record s {
      device = record s.device { transport_is_2g4 = true };
      port = send_status true (send_status true s.port 0x34) 0x35;
    }
    else s

-- The test at which `Main_Circulation` considers to idle.
unfoldable pub may_idle : System → Bool → Bool
may_idle s rx_quiet =
    (s.link.state == idle || s.link.state == resting)
    && not s.device.openboot_entry_pending
    && host_wake_idle true s.port
    && not s.device.sleep_proto.sleep_pending
    && not s.power.explicit_request
    && rx_quiet

-- The test under the mask behind it, on `R8_UART1_RFC` and on the heartbeat's flag.
unfoldable pub idles : System → Bool → Bool → ℕ → Bool → Bool
idles s rx_quiet still_quiet rfc heartbeat_due =
    may_idle s rx_quiet
    && still_quiet
    && rfc == 0
    && not s.device.openboot_entry_pending
    && not heartbeat_due
