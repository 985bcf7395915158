-- ===== src/RfTask/Link/Delivery.antt =====
-- The link of firmware/src/rf_task.c treats its key reports as RfTask/Reports has them: every input
-- does to the ring what some of the reports' own events do.
use open_controller.Prelude.{
  ℕ, ◌≡◌, refl, sym, ap, ◌∙◌, Bool, none, some, ◌&&◌, ◌||◌, List, [], ◌∷◌, ◌++◌, ◌==◌,
  if◌then◌else◌, get_or, arith,
}
use open_controller.RfTask.Bond.{Bond}
use open_controller.RfTask.Reports.History.{
  contents, Session, initial, queued, polled, responded, discarded, timed_out, disconnected, first,
}
use open_controller.RfTask.Reports.History as Reported
use open_controller.RfTask.Reports.Faithful.{reports_in_order}
use open_controller.RfTask.Link.Callback.{
  Status, rx_data, on_offer, on_poll_frame, on_frame, status_callback, tmr0_irq_handler,
}
use open_controller.RfTask.Link.Handlers.{
  pair_broadcast, begin_session, enter_connected, answer_poll, on_rx_restart, on_rest_idle,
  on_lapse, handle, process_event, follow_hop, connected_tick,
}
use open_controller.RfTask.Link.Calls.{
  rf_task_init, drop_queue_unless_reselected, reselect, rf_select_2g4, rf_enter_pairing,
  rf_disconnect, rf_flush_bond_save, rf_clear_bond, note_report, rf_queue_hid_report, rf_led_resync,
}
use open_controller.RfTask.Link.Histories.{
  Input, due, interrupted, reported, left, unpaired, factory_paired, shut_down, when_asked, apply,
  run, booted,
}
use open_controller.RfTask.Link.{
  Link, Outcome, Event, Request, off, posted, started, is_asked, idle, pairing, connected,
  evt_enter_connected, evt_respond, evt_discard_hid, evt_disconnect, tell,
}
use open_controller.RfTask.Link.Resting.{
  rest_cancel, rest_arm_idle, rest_go_quiet, rest_enter, begin_search, rest_probe_start,
  rest_promote_to_normal,
}

-- What the reports see of an event, and of an input.
unfoldable pub of_event : Link → Event → Outcome → List Reported.Event
of_event s evt_enter_connected o = if s.state == pairing then Reported.connected ∷ [] else []
of_event s evt_respond o =
    if s.state == connected && s.answer.is_pending then responded o.tx_started ∷ [] else []
of_event s evt_discard_hid o = if s.state == idle then discarded ∷ [] else []
of_event s evt_disconnect o = if s.state == connected then timed_out ∷ [] else []
of_event s e o = []

unfoldable pub of_status : Link → Status → List Reported.Event
of_status s (rx_data (some buf)) =
    let len = get_or buf 1 0 in
    if s.state == connected && (len == 1 || len == 3 || len == 10)
    then polled (get_or buf 2 0) ∷ []
    else []
of_status s status = []

unfoldable pub of_input : Link → Input → List Reported.Event
of_input s (due e o) = if is_asked (s.tasks e) then of_event s e o else []
of_input s (interrupted status now armed) = of_status s status
of_input s (reported report) = queued report ∷ []
of_input s left = disconnected ∷ []
of_input s unpaired = disconnected ∷ discarded ∷ []
of_input s factory_paired = if s.mac_valid then disconnected ∷ discarded ∷ [] else []
of_input s shut_down = disconnected ∷ []
of_input s i = []

unfoldable pub of_history : Link → List Input → List Reported.Event
of_history s [] = []
of_history s (i ∷ is) = of_input s i ++ of_history (apply s i) is

event-reports :
    (s : Link) (e : Event) (o : Outcome) (σ : Session)
    → σ.rf ≡ s.reports
    → (process_event s e o).reports ≡ (Reported.run σ (of_event s e o)).rf
unfolding process_event handle of_event Reported.run Reported.apply rest_cancel rest_go_quiet
    begin_search rest_probe_start rest_promote_to_normal rest_arm_idle rest_enter on_lapse
    on_rest_idle enter_connected begin_session pair_broadcast answer_poll on_rx_restart
event-reports s e o σ k = ground arith

status-reports :
    (s : Link) (status : Status) (now armed : ℕ) (σ : Session)
    → σ.rf ≡ s.reports
    → (status_callback s status now armed).reports ≡ (Reported.run σ (of_status s status)).rf
unfolding status_callback on_frame on_offer on_poll_frame of_status Reported.run Reported.apply
status-reports s (rx_data none) now armed σ k = ground arith
status-reports s (rx_data (some buf)) now armed σ k = ground arith
status-reports s status now armed σ k = ground arith

due-reports :
    (s : Link) (e : Event) (o : Outcome) (σ : Session) (r : Request)
    → σ.rf ≡ s.reports
    → (when_asked r s (process_event s e o)).reports
      ≡ (Reported.run σ (if is_asked r then of_event s e o else [])).rf
unfolding when_asked is_asked Reported.run
due-reports s e o σ off k = sym k
due-reports s e o σ posted k = event-reports s e o σ k
due-reports s e o σ (started ticks) k = event-reports s e o σ k

input-reports :
    (s : Link) (i : Input) (σ : Session)
    → σ.rf ≡ s.reports
    → (apply s i).reports ≡ (Reported.run σ (of_input s i)).rf
unfolding apply of_input connected_tick follow_hop rf_queue_hid_report note_report tmr0_irq_handler
    rf_select_2g4 reselect rf_disconnect drop_queue_unless_reselected rf_clear_bond
    rf_flush_bond_save rf_led_resync rf_enter_pairing rest_go_quiet rest_probe_start
    rest_promote_to_normal rest_arm_idle rest_cancel begin_search Reported.run Reported.apply
input-reports s (due e o) σ k = due-reports s e o σ (s.tasks e) k
input-reports s (interrupted status now armed) σ k = status-reports s status now armed σ k
input-reports s i σ k = ground arith

run-append :
    (σ : Session) (es fs : List Reported.Event)
    → Reported.run σ (es ++ fs) ≡ Reported.run (Reported.run σ es) fs
unfolding Reported.run
run-append σ [] fs = refl
run-append σ (e ∷ es) fs = run-append (Reported.apply σ e) es fs

run-reports :
    (s : Link) (is : List Input) (σ : Session)
    → σ.rf ≡ s.reports
    → (Reported.run σ (of_history s is)).rf ≡ (run s is).reports
unfolding run of_history Reported.run
run-reports s [] σ k = k
run-reports s (i ∷ is) σ k =
    ap (λ x. x.rf) (run-append σ (of_input s i) (of_history (apply s i) is))
    ∙ run-reports (apply s i) is (Reported.run σ (of_input s i)) (sym (input-reports s i σ k))

booted-reports :
    (mac : List ℕ) (mac_valid : Bool) (bond : Bond)
    → initial.rf ≡ (booted mac mac_valid bond).reports
unfolding booted rf_task_init begin_search when_asked process_event handle tell
booted-reports mac mac_valid bond = ground arith

-- From the link's start, whatever events that have been asked for, interrupts, passes of the
-- loop and calls come in whatever order, between two of the functions: the reports that the
-- dongle has confirmed or that were discarded, followed by those in the link's ring, are those
-- taken of the reports handed over, in order and each once; and the one that a change of the
-- dongle's control bit retires is the first in the ring.
pub link_delivers :
    (mac : List ℕ) (mac_valid : Bool) (bond : Bond) (is : List Input)
    → let reports = (run (booted mac mac_valid bond) is).reports in
      let session = Reported.run initial (of_history (booted mac mac_valid bond) is) in
      (session.gone ++ contents reports ≡ session.log)
      × (session.on_air ≡ (if reports.head_sent then first (contents reports) else none))
link_delivers mac mac_valid bond is =
    let s = booted mac mac_valid bond in
    let session = Reported.run initial (of_history s is) in
    let same = run-reports s is initial (booted-reports mac mac_valid bond) in
    coe 0 1
      (j.
        (session.gone ++ contents (same j) ≡ session.log)
        × (session.on_air ≡ (if (same j).head_sent then first (contents (same j)) else none)))
      (reports_in_order (of_history s is))
