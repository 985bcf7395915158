-- ===== src/System/Leds.antt =====
-- The LED byte from the dongle to the host, through firmware/src/rf_task.c, keyboard_uart.c,
-- host_wake.c and the loop of main.c.
use open_controller.Prelude.{
  ℕ, ◌≡◌, ◌≢◌, refl, sym, ap, ◌∙◌, Bool, true, false, Option, none, some, List, [], ◌∷◌, ◌++◌, ◌==◌,
  if◌then◌else◌, Bool-cases, inl, inr, arith,
}
use open_controller.HostWake.{on_ack, is_quiet, have_pending}
use open_controller.HostWake.Latest.{shown_after, IsHeld, step-IsHeld, on_ack-IsHeld}
use open_controller.KeyboardUart.Parser.{send_ack, callback, host_ack}
use open_controller.KeyboardUart.Port.{Port, take_led_lost, service, drive, host_wake_idle}
use open_controller.KeyboardUart.Port.{host_ack as port_ack}
use open_controller.KeyboardUart.Port.Line.{IsSteady}
use open_controller.RfTask.Bond.{Bond}
use open_controller.RfTask.Link.{Link, is_asked, evt_notify_led}
use open_controller.RfTask.Link.Announcements.{Announced, run-Announced}
use open_controller.RfTask.Link.Calls.{rf_task_init, rf_led_resync}
use open_controller.RfTask.Link.Resting.{begin_search}
use open_controller.RfTask.Link.Handlers.{process_event, handle}
use open_controller.RfTask.Link.Histories as Histories
use open_controller.RfTask.Link.Histories.{
  when_asked, booted, selected, pairing_asked, due, interrupted, turned_around, ticked,
}
use open_controller.System.{
  Board, System, Event, scheduled, on_air, timed, connected_ticked, heard, served, attended,
  followed, idled, make_all, settle, follow, frame, hear, serve, attend, heartbeat_follow, apply,
  run, boot,
}
use open_controller.System.Lines.{event-IsSteady, boot-IsSteady}
use open_controller.System.Holding.{Holds, IsKept, follow-IsKept, perform_all-IsKept}
use open_controller.System.Offers.{apply-IsOffered}
use open_controller.System.Simulation.{run-Reaches}

-- A loss is taken up by forgetting the value.
take-Holds :
    (p : Port) {shown : Option ℕ} {v : ℕ}
    → p.wake.latest_lost ≡ false
    → Holds p shown v
    → Holds (take_led_lost true p).0 shown v
unfolding take_led_lost
take-Holds p l h n =
    let k = h n in record { waits = k.waits; sent = k.sent; shown_lem = λ a b c. k.shown_lem a b l }

service-Holds :
    (now : ℕ) (p : Port) {shown : Option ℕ} {v : ℕ}
    → IsSteady p
    → Holds p shown v
    → Holds (service true p now) (shown_after p.wake shown) v
unfolding service drive
service-Holds now p {shown} {v} s h n = step-IsHeld p.wake now shown v s.valid (h n)

if-IsKept :
    (b : Bool) (s s' : System) {shown : Option ℕ}
    → (b ≡ true → IsKept s.link s.port shown)
    → (b ≡ false → IsKept s'.link s'.port shown)
    → IsKept (if b then s else s').link (if b then s else s').port shown
if-IsKept true s s' f g = f refl
if-IsKept false s s' f g = g refl

resync-IsKept :
    (s : System) (shown : Option ℕ)
    → IsKept (follow s (rf_led_resync s.link)).link (follow s (rf_led_resync s.link)).port shown
unfolding follow settle rf_led_resync
resync-IsKept s shown = record { settled = refl; held = λ n. absurd (n refl) }

taken_lost : (p : Port) → (take_led_lost true p).1 ≡ p.wake.latest_lost
unfolding take_led_lost
taken_lost p = refl

serve-IsKept :
    (now : ℕ) (s : System) (shown : Option ℕ)
    → IsSteady s.port
    → IsKept s.link s.port shown
    → IsKept (serve now s).link (serve now s).port (shown_after s.port.wake shown)
unfolding serve
serve-IsKept now s shown v h =
    let q = service true s.port now in
    let s' = record s { port = (take_led_lost true q).0 } in
    if-IsKept (take_led_lost true q).1 (follow s' (rf_led_resync s.link)) s'
      (λ e. resync-IsKept s' (shown_after s.port.wake shown))
      (λ e. record {
        settled = h.settled;
        held = take-Holds q (sym (taken_lost q) ∙ e) (service-Holds now s.port v h.held);
      })

-- The value that the host has last ACKed, by a history's end.
unfoldable pub shown_by : System → Option ℕ → Event → Option ℕ
shown_by s shown (served now) = shown_after s.port.wake shown
shown_by s shown e = shown

unfoldable pub shown_at : Board → System → Option ℕ → List Event → Option ℕ
shown_at board s shown [] = shown
shown_at board s shown (e ∷ es) =
    shown_at board (if s.left then s else apply board s e)
      (if s.left then shown else shown_by s shown e) es

heartbeat-same :
    (s : System) → ((heartbeat_follow s).link ≡ s.link) × ((heartbeat_follow s).port ≡ s.port)
unfolding heartbeat_follow
heartbeat-same s = (ground arith, ground arith)

event-IsKept :
    (board : Board) (s : System) (shown : Option ℕ) (e : Event)
    → IsSteady s.port
    → IsKept s.link s.port shown
    → IsKept (apply board s e).link (apply board s e).port (shown_by s shown e)
unfolding apply shown_by hear frame attend port_ack on_ack
event-IsKept board s shown (scheduled e o) v h =
    follow-IsKept s _ (apply-IsOffered s.link (due e o)) h
event-IsKept board s shown (on_air status now armed) v h =
    follow-IsKept s _ (apply-IsOffered s.link (interrupted status now armed)) h
event-IsKept board s shown timed v h = follow-IsKept s _ (apply-IsOffered s.link turned_around) h
event-IsKept board s shown (connected_ticked now later config_ok) v h =
    follow-IsKept s _ (apply-IsOffered s.link (ticked now later config_ok)) h
event-IsKept board s shown (heard now send_ack) v h = h
event-IsKept board s shown (heard now (callback cmd sub payload len)) v h =
    perform_all-IsKept now _ _ h
event-IsKept board s shown (heard now host_ack) v h = record {
  settled = h.settled;
  held = λ n. on_ack-IsHeld s.port.wake shown s.link.last_led_sent (h.held n);
}
event-IsKept board s shown (served now) v h = serve-IsKept now s shown v h
event-IsKept board s shown (attended r) v h = perform_all-IsKept r.later _ _ h
event-IsKept board s shown followed v h =
    let (l, p) = heartbeat-same s in coe 1 0 (i. IsKept (l i) (p i) shown) h
event-IsKept board s shown (idled i) v h = h

-- What holds of the module's own port and link together.
pub record IsWhole (s : System) (shown : Option ℕ) : Type 0 where
  pub steady : IsSteady s.port
  pub kept : IsKept s.link s.port shown

if-IsWhole :
    (b : Bool) (s s' : System) (shown shown' : Option ℕ)
    → IsWhole s shown
    → IsWhole s' shown'
    → IsWhole (if b then s else s') (if b then shown else shown')
if-IsWhole true s s' shown shown' h k = h
if-IsWhole false s s' shown shown' h k = k

pub event-IsWhole :
    (board : Board) (s : System) (shown : Option ℕ) (e : Event)
    → IsWhole s shown
    → IsWhole (apply board s e) (shown_by s shown e)
event-IsWhole board s shown e h = record {
  steady = event-IsSteady board s e h.steady;
  kept = event-IsKept board s shown e h.steady h.kept;
}

next-IsWhole :
    (board : Board) (s : System) (shown : Option ℕ) (e : Event)
    → IsWhole s shown
    → IsWhole (if s.left then s else apply board s e) (if s.left then shown else shown_by s shown e)
next-IsWhole board s shown e h =
    if-IsWhole s.left s (apply board s e) shown (shown_by s shown e) h
      (event-IsWhole board s shown e h)

pub onward-IsWhole :
    (board : Board) (s : System) (shown : Option ℕ) (es : List Event)
    → IsWhole s shown
    → IsWhole (run board s es) (shown_at board s shown es)
unfolding run shown_at
onward-IsWhole board s shown [] h = h
onward-IsWhole board s shown (e ∷ es) h =
    onward-IsWhole board (if s.left then s else apply board s e)
      (if s.left then shown else shown_by s shown e) es (next-IsWhole board s shown e h)

pub boot-IsWhole :
    (board : Board) (mac : List ℕ) (mac_valid : Bool) (bond : Bond)
    → IsWhole (boot board mac mac_valid bond) none
unfolding boot settle booted rf_task_init begin_search when_asked process_event handle
boot-IsWhole board mac mac_valid bond = record {
  steady = boot-IsSteady board mac mac_valid bond;
  kept = record { settled = ground arith; held = λ n. absurd (ground arith) };
}

pub serve-none_lost :
    (now : ℕ) (s : System) → s.link.calls ≡ [] → (serve now s).port.wake.latest_lost ≡ false
unfolding serve take_led_lost follow rf_led_resync make_all
serve-none_lost now s c = ground arith

if-none_lost :
    (b : Bool) (s s' : System)
    → b ≡ false
    → s'.port.wake.latest_lost ≡ false
    → (if b then s else s').port.wake.latest_lost ≡ false
if-none_lost true s s' h k = absurd (ground arith)
if-none_lost false s s' h k = k

-- A passage of the loop leaves no loss untaken.
last-none_lost :
    (board : Board) (s : System) (shown : Option ℕ) (es : List Event) (now : ℕ)
    → IsWhole s shown
    → (run board s es).left ≡ false
    → (run board s (es ++ served now ∷ [])).port.wake.latest_lost ≡ false
unfolding run apply
last-none_lost board s shown [] now h l =
    if-none_lost s.left s (serve now s) l (serve-none_lost now s h.kept.settled)
last-none_lost board s shown (e ∷ es) now h l =
    last-none_lost board (if s.left then s else apply board s e)
      (if s.left then shown else shown_by s shown e) es now (next-IsWhole board s shown e h) l

idle-shown :
    (p : Port) (shown : Option ℕ) (v : ℕ)
    → IsSteady p
    → IsHeld p.wake shown v
    → p.wake.latest_lost ≡ false
    → host_wake_idle true p ≡ true
    → shown ≡ some v
unfolding host_wake_idle is_quiet have_pending
idle-shown p shown v s h l q =
    let waits = s.valid.latest_waits in h.shown_lem (ground arith) (ground arith) l

-- The LED byte last relayed is the one last sent, unless its sending is asked for.
abbrev Relays : Link → Type 0
Relays l =
    l.last_led_sent ≢ 0xFF
    → is_asked (l.tasks evt_notify_led) ≡ false
    → l.last_led_sent ≡ l.pending_led

Announced-Relays : (l : Link) → Announced l → Relays l
Announced-Relays l a n k = elim (Bool-cases (l.pending_led == l.last_led_sent)) [
  | inl e ↦ ground arith
  | inr e ↦ let asked = a.relays n (λ same. absurd (ground arith)) in absurd (ground arith)
]

run-Relays :
    (board : Board) (mac : List ℕ) (mac_valid : Bool) (bond : Bond) (es : List Event)
    → Relays (run board (boot board mac mac_valid bond) es).link
unfolding settle
run-Relays board mac mac_valid bond es =
    let r = run-Reaches board mac mac_valid bond es in
    coe 1 0 (i. Relays (r.reaches i)) (
      Announced-Relays (Histories.run (booted mac mac_valid bond) r.inputs)
        (run-Announced mac mac_valid bond r.inputs))

-- Behind a pass of `KeyboardUart_Service` that leaves host wake quiet, whatever has come to the module
-- since its boot, in whatever order: if the link notes an LED byte as sent, rather than the 0xFF that
-- stands for none, and no other is on its way to be sent, then the value that the host has last ACKed
-- is the byte that the dongle has last relayed.
pub led_arrives :
    (board : Board) (mac : List ℕ) (mac_valid : Bool) (bond : Bond) (es : List Event) (now : ℕ)
    → (run board (boot board mac mac_valid bond) es).left ≡ false
    → (run board (boot board mac mac_valid bond) (es ++ served now ∷ [])).link.last_led_sent ≢ 0xFF
    → is_asked (
        (run board (boot board mac mac_valid bond) (es ++ served now ∷ [])).link.tasks
          evt_notify_led)
      ≡ false
    → host_wake_idle true (run board (boot board mac mac_valid bond) (es ++ served now ∷ [])).port
      ≡ true
    → shown_at board (boot board mac mac_valid bond) none (es ++ served now ∷ [])
      ≡ some (run board (boot board mac mac_valid bond) (es ++ served now ∷ [])).link.pending_led
led_arrives board mac mac_valid bond es now l n a q =
    let s = boot board mac mac_valid bond in
    let whole = boot-IsWhole board mac mac_valid bond in
    let es' = es ++ served now ∷ [] in
    let end = onward-IsWhole board s none es' whole in
    let lost = last-none_lost board s none es now whole l in
    idle-shown (run board s es').port (shown_at board s none es')
      (run board s es').link.last_led_sent end.steady (end.kept.held n) lost q
    ∙ ap some (run-Relays board mac mac_valid bond es' n a)
