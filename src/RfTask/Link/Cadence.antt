-- ===== src/RfTask/Link/Cadence.antt =====
-- The probes of a resting link of firmware/src/rf_task.c keep coming.
use open_controller.Prelude.{
  ℕ, ◌≡◌, Bool, true, false, none, some, not, ◌||◌, List, [], ◌∷◌, ◌==◌, arith,
}
use open_controller.RfTask.Bond.{Bond}
use open_controller.RfTask.Link.Callback.{
  Status, rx_data, on_offer, on_poll_frame, on_frame, count_answer, status_callback,
  tmr0_irq_handler,
}
use open_controller.RfTask.Link.Handlers.{
  pair_broadcast, begin_session, enter_connected, answer_poll, on_rx_restart, on_rest_idle,
  on_lapse, handle, process_event, follow_hop, connected_tick,
}
use open_controller.RfTask.Link.Calls.{
  rf_task_init, drop_queue_unless_reselected, reselect, rf_select_2g4, rf_enter_pairing,
  rf_disconnect, rf_flush_bond_save, rf_clear_bond, note_report, rf_queue_hid_report, rf_led_resync,
}
use open_controller.RfTask.Link.Histories.{
  Input, due, interrupted, reported, when_asked, apply, run, booted, asked_keeps,
}
use open_controller.RfTask.Link.Invariant.{Sound, apply-Sound, booted-Sound, run-Sound}
use open_controller.RfTask.Link.{
  Link, Outcome, Event, started, is_asked, evt_rest_probe, evt_rest_stage2, tell, bit,
  rest_probe_ticks, rest_stage2_ticks,
}
use open_controller.RfTask.Link.Resting.{
  rest_cancel, rest_arm_idle, rest_go_quiet, rest_enter, begin_search, rest_probe_start,
  rest_promote_to_normal,
}

-- The scheduler is in time for a probe: its cadence of `KBD_REST_PROBE_TICKS` is not up before the
-- `KBD_REST_PROBE_TIMEOUT_TICKS` that were asked for with it, which end the probe.
unfoldable pub in_time : Link → Input → Bool
in_time s (due e o) = not (bit e == bit evt_rest_probe) || not s.rest.probe
in_time s i = true

unfoldable pub IsTimely : Link → List Input → Type 0
IsTimely s [] = record {}
IsTimely s (i ∷ is) = (in_time s i ≡ true) × IsTimely (apply s i) is

-- The first resting stage has its next probe asked for.
pub record Paced (s : Link) : Type 0 where
  pub cadence :
      s.rest.stage ≡ 1 → s.rest.wake ≡ false → s.tasks evt_rest_probe ≡ started rest_probe_ticks

event-Paced :
    {s : Link} (o : Outcome) (e : Event)
    → Sound s
    → Paced s
    → in_time s (due e o) ≡ true
    → is_asked (s.tasks e) ≡ true
    → Paced (process_event s e o)
unfolding process_event handle tell is_asked rest_cancel rest_go_quiet begin_search rest_probe_start
    rest_promote_to_normal rest_arm_idle rest_enter on_lapse on_rest_idle enter_connected
    begin_session pair_broadcast answer_poll on_rx_restart in_time
event-Paced o e v p timely asked = ground arith

callback-Paced :
    {s : Link} (status : Status) (now later : ℕ)
    → Paced s
    → Paced (status_callback s status now later)
unfolding status_callback on_frame on_offer on_poll_frame count_answer tell is_asked
callback-Paced (rx_data none) n l p = ground arith
callback-Paced (rx_data (some buf)) n l p = ground arith
callback-Paced status n l p = ground arith

report-Paced :
    {s : Link} (report : List ℕ) → Sound s → Paced s → Paced (rf_queue_hid_report s report)
unfolding rf_queue_hid_report note_report tell is_asked rest_cancel rest_probe_start begin_search
    rest_promote_to_normal rest_arm_idle
report-Paced report v p = ground arith

apply-Paced : {s : Link} (i : Input) → in_time s i ≡ true → Sound s → Paced s → Paced (apply s i)
unfolding apply tmr0_irq_handler rf_select_2g4 reselect rf_disconnect drop_queue_unless_reselected
    rf_clear_bond rf_flush_bond_save rf_led_resync rf_enter_pairing rest_promote_to_normal
    rest_arm_idle tell is_asked rest_cancel begin_search connected_tick follow_hop rest_go_quiet
apply-Paced {s} (due e o) k v p = asked_keeps Paced (s.tasks e) p (λ q. event-Paced o e v p k q)
apply-Paced (interrupted status now armed) k v p = callback-Paced status now armed p
apply-Paced (reported report) k v p = report-Paced report v p
apply-Paced i k v p = ground arith

booted-Paced : (mac : List ℕ) (mac_valid : Bool) (bond : Bond) → Paced (booted mac mac_valid bond)
unfolding booted rf_task_init begin_search when_asked process_event handle tell is_asked
booted-Paced mac mac_valid bond = ground arith

run-Paced : (s : Link) (is : List Input) → IsTimely s is → Sound s → Paced s → Paced (run s is)
unfolding run IsTimely
run-Paced s [] k v p = p
run-Paced s (i ∷ is) (k, ks) v p =
    run-Paced (apply s i) is ks (apply-Sound i v) (apply-Paced i k v p)

-- From the link's start, whatever events that have been asked for, interrupts, passes of the
-- loop and calls come in whatever order, between two of the functions, as long as no probe's
-- cadence is up before the probe's own timeout: a link in the first resting stage, without a
-- wake, has its next probe asked for in KBD_REST_PROBE_TICKS and the second stage in
-- KBD_REST_STAGE2_TICKS.
pub probes_on :
    (mac : List ℕ) (mac_valid : Bool) (bond : Bond) (is : List Input)
    → IsTimely (booted mac mac_valid bond) is
    → (run (booted mac mac_valid bond) is).rest.stage ≡ 1
    → (run (booted mac mac_valid bond) is).rest.wake ≡ false
    → ((run (booted mac mac_valid bond) is).tasks evt_rest_probe ≡ started rest_probe_ticks)
      × ((run (booted mac mac_valid bond) is).tasks evt_rest_stage2 ≡ started rest_stage2_ticks)
probes_on mac mac_valid bond is timely stage wake =
    let s = booted mac mac_valid bond in
    let p =
      run-Paced s is timely (booted-Sound mac mac_valid bond) (booted-Paced mac mac_valid bond) in
    (p.cadence stage wake, (run-Sound mac mac_valid bond is).deepens stage wake)
