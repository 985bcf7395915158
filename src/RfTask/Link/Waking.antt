-- ===== src/RfTask/Link/Waking.antt =====
-- A key report wakes a resting link of firmware/src/rf_task.c.
use open_controller.Prelude.{ℕ, ◌≡◌, Bool, true, false, none, some, not, List, [], ◌∷◌, ◌==◌, arith}
use open_controller.RfTask.Bond.{Bond}
use open_controller.RfTask.Link.Callback.{
  Status, rx_data, on_offer, on_poll_frame, on_frame, count_answer, status_callback,
  tmr0_irq_handler,
}
use open_controller.RfTask.Link.Handlers.{
  pair_broadcast, begin_session, enter_connected, answer_poll, on_rx_restart, on_rest_idle,
  on_lapse, handle, process_event, follow_hop, connected_tick,
}
use open_controller.RfTask.Link.Calls.{
  drop_queue_unless_reselected, reselect, rf_select_2g4, rf_enter_pairing, rf_disconnect,
  rf_flush_bond_save, rf_clear_bond, note_report, rf_queue_hid_report, rf_led_resync,
}
use open_controller.RfTask.Link.Histories.{
  Input, due, interrupted, turned_around, ticked, reported, selected, pairing_asked, left, unpaired,
  factory_paired, shut_down, led_lost, apply, run, booted, asked_keeps,
}
use open_controller.RfTask.Link.Invariant.{Sound, apply-Sound, report-Sound, run-Sound}
use open_controller.RfTask.Link.{
  Link, Outcome, Event, is_asked, pairing, connected, resting, evt_pair_bcast, evt_enter_connected,
  tell, bit,
}
use open_controller.RfTask.Link.Resting.{
  rest_cancel, rest_arm_idle, rest_go_quiet, rest_enter, begin_search, rest_probe_start,
  rest_promote_to_normal,
}

-- The inputs that neither catch the dongle nor come of the host's commands.
unfoldable pub goes_on : Input → Bool
goes_on (due e o) = not (bit e == bit evt_enter_connected)
goes_on (interrupted status now armed) = true
goes_on turned_around = true
goes_on (ticked now later config_ok) = true
goes_on (reported report) = true
goes_on selected = false
goes_on pairing_asked = false
goes_on left = false
goes_on unpaired = false
goes_on factory_paired = false
goes_on shut_down = false
goes_on led_lost = true

unfoldable pub GoOn : List Input → Type 0
GoOn [] = record {}
GoOn (i ∷ is) = (goes_on i ≡ true) × GoOn is

event-wake :
    {s : Link} (o : Outcome) (e : Event)
    → Sound s
    → goes_on (due e o) ≡ true
    → s.rest.wake ≡ true
    → is_asked (s.tasks e) ≡ true
    → (process_event s e o).rest.wake ≡ true
unfolding process_event handle tell is_asked rest_cancel rest_go_quiet begin_search rest_probe_start
    rest_promote_to_normal rest_arm_idle rest_enter on_lapse on_rest_idle enter_connected
    begin_session pair_broadcast answer_poll on_rx_restart goes_on
event-wake o e v k w asked = let (probe, search) = v.wakes w in ground arith

callback-wake :
    (s : Link) (status : Status) (now later : ℕ)
    → s.rest.wake ≡ true
    → (status_callback s status now later).rest.wake ≡ true
unfolding status_callback on_frame on_offer on_poll_frame count_answer tell is_asked
callback-wake s (rx_data none) n l w = ground arith
callback-wake s (rx_data (some buf)) n l w = ground arith
callback-wake s status n l w = ground arith

apply-wake :
    {s : Link} (i : Input)
    → Sound s
    → goes_on i ≡ true
    → s.rest.wake ≡ true
    → (apply s i).rest.wake ≡ true
unfolding apply tmr0_irq_handler rf_select_2g4 reselect rf_disconnect drop_queue_unless_reselected
    rf_clear_bond rf_flush_bond_save rf_led_resync rf_enter_pairing rest_promote_to_normal
    rest_arm_idle tell is_asked rest_cancel begin_search goes_on connected_tick follow_hop
    rest_go_quiet rf_queue_hid_report note_report rest_probe_start
apply-wake {s} (due e o) v k w =
    asked_keeps (λ x. x.rest.wake ≡ true) (s.tasks e) w (λ q. event-wake o e v k w q)
apply-wake {s} (interrupted status now armed) v k w = callback-wake s status now armed w
apply-wake i v k w = let (probe, search) = v.wakes w in ground arith

run-wake :
    (s : Link) (is : List Input)
    → Sound s
    → GoOn is
    → s.rest.wake ≡ true
    → Sound (run s is) × ((run s is).rest.wake ≡ true)
unfolding run GoOn
run-wake s [] v k w = (v, w)
run-wake s (i ∷ is) v (k, ks) w = run-wake (apply s i) is (apply-Sound i v) ks (apply-wake i v k w)

report-wake :
    (s : Link) (report : List ℕ)
    → Sound s
    → s.state ≡ resting
    → (rf_queue_hid_report s report).rest.wake ≡ true
unfolding rf_queue_hid_report note_report tell is_asked rest_cancel rest_probe_start begin_search
    rest_promote_to_normal rest_arm_idle
report-wake s report v k = let bonded = v.links in let known = v.identified in ground arith

-- A link that has come to rest starts to search with a key report, and searches on with its beacons
-- asked for and the report's wake kept, whatever events, interrupts and further reports come, until
-- it catches the dongle or the host asks for something else; and the catch, whenever its event is
-- handled, makes it a session, without a word to the host.
pub report_wakes :
    (mac : List ℕ) (mac_valid : Bool) (bond : Bond) (before : List Input) (report : List ℕ)
    (is : List Input) (o : Outcome)
    → (run (booted mac mac_valid bond) before).state ≡ resting
    → GoOn is
    → let rests = run (booted mac mac_valid bond) before in
      let woken = run (rf_queue_hid_report rests report) is in
      let session = process_event woken evt_enter_connected o in
      (woken.state ≡ pairing)
      × (woken.rest.wake ≡ true)
      × (is_asked (woken.tasks evt_pair_bcast) ≡ true)
      × (session.state ≡ connected)
      × (session.rest.stage ≡ 0)
      × (session.rest.probe ≡ false)
      × (session.calls ≡ woken.calls)
unfolding process_event handle enter_connected begin_session rest_promote_to_normal rest_arm_idle
report_wakes mac mac_valid bond before report is o k go =
    let s = run (booted mac mac_valid bond) before in
    let v = run-Sound mac mac_valid bond before in
    let (v', w) =
      run-wake (rf_queue_hid_report s report) is (report-Sound report v) go
        (report-wake s report v k) in
    let (probe, search) = v'.wakes w in
    (search, w, v'.searches search, ground arith, ground arith, ground arith, ground arith)
