-- ===== src/RfTask/Link/Histories.antt =====
-- Histories of the link of firmware/src/rf_task.c: what the scheduler, the radio, the timer and the
-- main loop do to it, in whatever order.
use open_controller.Prelude.{ℕ, ◌≡◌, refl, Bool, true, List, [], ◌∷◌, if◌then◌else◌}
use open_controller.RfTask.Bond.{Bond}
use open_controller.RfTask.Link.{
  Link, Event, Request, off, posted, started, is_asked, evt_start, Outcome,
}
use open_controller.RfTask.Link.Callback.{Status, status_callback, tmr0_irq_handler}
use open_controller.RfTask.Link.Handlers.{process_event, connected_tick}
use open_controller.RfTask.Link.Calls.{
  rf_task_init, drop_queue_unless_reselected, rf_select_2g4, rf_enter_pairing, rf_disconnect,
  rf_flush_bond_save, rf_clear_bond, rf_queue_hid_report, rf_led_resync,
}

-- An event that the scheduler hands over, the interrupts with the clock's readings, a pass of the
-- main loop with them, and the calls as firmware/src/main.c composes them: for a report, `A6 30`,
-- `A6 51`, `A6 11` and the Bluetooth selections, `A6 52`, `A6 63`, an update or an explicit sleep,
-- and the LED frame that host wake has lost.
pub data Input : Type 0 where
  due : Event → Outcome → Input
  interrupted : Status → ℕ → ℕ → Input
  turned_around : Input
  ticked : ℕ → ℕ → Bool → Input
  reported : List ℕ → Input
  selected : Input
  pairing_asked : Input
  left : Input
  unpaired : Input
  factory_paired : Input
  shut_down : Input
  led_lost : Input

-- An event comes only once it has been asked for.
unfoldable pub when_asked : Request → Link → Link → Link
when_asked off s s' = s
when_asked posted s s' = s'
when_asked (started ticks) s s' = s'

unfoldable pub apply : Link → Input → Link
apply s (due e o) = when_asked (s.tasks e) s (process_event s e o)
apply s (interrupted status now armed) = status_callback s status now armed
apply s turned_around = if s.tmr0 then tmr0_irq_handler s else s
apply s (ticked now later config_ok) = connected_tick s now later config_ok
apply s (reported report) = rf_queue_hid_report s report
apply s selected = (rf_select_2g4 s).0
apply s pairing_asked = (rf_enter_pairing s).0
apply s left = drop_queue_unless_reselected (rf_disconnect s)
apply s unpaired = rf_clear_bond (rf_disconnect s)
apply s factory_paired =
    if s.mac_valid then (rf_enter_pairing (rf_clear_bond (rf_disconnect s))).0 else s
apply s shut_down = rf_disconnect (rf_flush_bond_save s)
apply s led_lost = rf_led_resync s

unfoldable pub run : Link → List Input → Link
run s [] = s
run s (i ∷ is) = run (apply s i) is

-- The link once the scheduler has made its first pass, which comes before the first of any call.
unfoldable pub booted : List ℕ → Bool → Bond → Link
booted mac mac_valid bond =
    let s = rf_task_init mac mac_valid bond in
    when_asked (s.tasks evt_start) s
      (process_event s evt_start (record { config_ok = true; tx_started = true }))

-- What the task keeps when an event has been asked for, it keeps when the event is due.
pub asked_keeps :
    (P : Link → Type 0) {s s' : Link} (r : Request)
    → P s
    → (is_asked r ≡ true → P s')
    → P (when_asked r s s')
unfolding when_asked is_asked
asked_keeps P off p q = p
asked_keeps P posted p q = q refl
asked_keeps P (started ticks) p q = q refl

-- What every input keeps, every history keeps.
pub run_keeps :
    (P : Link → Type 0)
    → ((s : Link) (i : Input) → P s → P (apply s i))
    → (s : Link) (is : List Input) → P s
    → P (run s is)
unfolding run
run_keeps P keeps s [] p = p
run_keeps P keeps s (i ∷ is) p = run_keeps P keeps (apply s i) is (keeps s i p)
