-- ===== src/RfTask/Link/Invariant.antt =====
-- The deadlines of the link of firmware/src/rf_task.c: each state that waits has asked the scheduler
-- for what ends the waiting.
use open_controller.Prelude.{
  ℕ, ◌≤◌, ◌≡◌, Bool, true, false, none, some, List, if◌then◌else◌, get_or, arith,
}
use open_controller.RfTask.Link.Callback.{
  Status, rx_data, status_callback, tmr0_irq_handler, on_frame, on_offer, on_poll_frame,
  count_answer, restart_rx,
}
use open_controller.RfTask.Link.Handlers.{
  process_event, handle, connected_tick, follow_hop, on_lapse, on_rest_idle, enter_connected,
  begin_session, pair_broadcast, answer_poll, on_rx_restart,
}
use open_controller.RfTask.Link.Calls.{
  rf_task_init, drop_queue_unless_reselected, rf_select_2g4, rf_enter_pairing, rf_disconnect,
  rf_flush_bond_save, rf_clear_bond, rf_queue_hid_report, rf_led_resync, note_report, reselect,
}
use open_controller.RfTask.Link.Histories.{
  Input, due, interrupted, ticked, reported, when_asked, apply, run, booted, asked_keeps, run_keeps,
}
use open_controller.RfTask.Bond.{Bond}
use open_controller.RfTask.Link.{
  Outcome, Link, Event, off, started, is_asked, pairing, connected, resting, evt_start,
  evt_pair_bcast, evt_pair_timeout, evt_enter_connected, evt_disconnect, evt_rest_idle,
  evt_rest_probe_timeout, evt_rest_stage2, tell, connected_timeout_ticks, pair_window_ticks,
  rest_probe_timeout_ticks, rest_stage2_ticks,
}
use open_controller.RfTask.Link.Resting.{
  rest_cancel, rest_arm_idle, rest_go_quiet, rest_enter, begin_search, rest_probe_start,
  rest_promote_to_normal,
}

-- What a link has asked for in each of its states; the theorem on `run` below reads it out.
pub record Sound (s : Link) : Type 0 where
  pub begun : s.tasks evt_start ≡ off
  pub in_range : s.state ≤ resting
  pub searches : s.state ≡ pairing → is_asked (s.tasks evt_pair_bcast) ≡ true
  pub identified : pairing ≤ s.state → s.mac_valid ≡ true
  pub bounded :
      s.state ≡ pairing
      → s.search.is_bonded ≡ false
      → s.tasks evt_pair_timeout ≡ started pair_window_ticks
  pub unbounded : s.state ≡ pairing → s.search.is_bonded ≡ true → s.tasks evt_pair_timeout ≡ off
  pub supervised : s.state ≡ connected → s.tasks evt_disconnect ≡ started connected_timeout_ticks
  pub idles : s.state ≡ connected → s.rest.probe ≡ false → is_asked (s.tasks evt_rest_idle) ≡ true
  pub catches : is_asked (s.tasks evt_enter_connected) ≡ true → s.bond.has_bond ≡ true
  pub links : connected ≤ s.state → s.bond.has_bond ≡ true
  pub probes :
      s.rest.probe ≡ true → s.tasks evt_rest_probe_timeout ≡ started rest_probe_timeout_ticks
  pub probe_from : s.rest.probe ≡ true → (pairing ≤ s.state) × (s.state ≤ connected)
  pub probe_stage : s.rest.probe ≡ true → 1 ≤ s.rest.stage
  pub probe_bonded : s.rest.probe ≡ true → (s.search.is_bonded ≡ true) × (s.bond.has_bond ≡ true)
  pub rests : s.state ≡ resting → (1 ≤ s.rest.stage) × (s.rest.probe ≡ false)
  pub stages : s.rest.stage ≤ 2
  pub staged : 1 ≤ s.rest.stage → s.rest.probe ≡ false → s.state ≡ resting
  pub deepens :
      s.rest.stage ≡ 1 → s.rest.wake ≡ false → s.tasks evt_rest_stage2 ≡ started rest_stage2_ticks
  pub wakes : s.rest.wake ≡ true → (s.rest.probe ≡ true) × (s.state ≡ pairing)
  pub quiets : s.rest.quiet_pending ≡ true → (s.rest.probe ≡ true) × (s.rest.wake ≡ false)

-- Every event that has been asked for keeps the invariant.
event-Sound :
    {s : Link} (o : Outcome) (e : Event)
    → Sound s
    → is_asked (s.tasks e) ≡ true
    → Sound (process_event s e o)
unfolding process_event handle tell is_asked rest_cancel rest_go_quiet begin_search rest_probe_start
    rest_promote_to_normal rest_arm_idle rest_enter on_lapse on_rest_idle enter_connected
    begin_session pair_broadcast answer_poll on_rx_restart
event-Sound o e v asked = ground arith

if-Sound : {s s' : Link} (b : Bool) → Sound s → Sound s' → Sound (if b then s else s')
if-Sound true v w = v
if-Sound false v w = w

restart-Sound : {s : Link} → Sound s → Sound (restart_rx s)
unfolding tell is_asked
restart-Sound v = ground arith

on_offer-Sound : {s : Link} (buf : List ℕ) (now : ℕ) → Sound s → Sound (on_offer s buf now)
unfolding on_offer tell is_asked
on_offer-Sound buf now v = ground arith

on_poll_frame-Sound :
    {s : Link} (buf : List ℕ) (now armed : ℕ) → Sound s → Sound (on_poll_frame s buf now armed)
unfolding on_poll_frame tell is_asked
on_poll_frame-Sound buf now armed v = ground arith

rssi-Sound : {s : Link} (rssi : ℕ) → Sound s → Sound (record s { rssi = rssi })
rssi-Sound rssi v = ground arith

callback-Sound :
    {s : Link} (status : Status) (now later : ℕ)
    → Sound s
    → Sound (status_callback s status now later)
unfolding status_callback on_frame count_answer tell is_asked
callback-Sound (rx_data none) n l v = restart-Sound v
callback-Sound (rx_data (some buf)) n l v =
    let w = rssi-Sound (get_or buf 0 0) v in
    if-Sound _ (on_offer-Sound buf n w)
      (if-Sound _ (on_poll_frame-Sound buf n l w) (restart-Sound w))
callback-Sound status n l v = ground arith

tick-Sound :
    {s : Link} (now later : ℕ) (config_ok : Bool)
    → Sound s
    → Sound (connected_tick s now later config_ok)
unfolding connected_tick follow_hop tell is_asked rest_go_quiet
tick-Sound now later config_ok v = ground arith

pub report-Sound : {s : Link} (report : List ℕ) → Sound s → Sound (rf_queue_hid_report s report)
unfolding rf_queue_hid_report note_report tell is_asked rest_cancel rest_probe_start begin_search
    rest_promote_to_normal rest_arm_idle
report-Sound report v = ground arith

-- Every input keeps the invariant.
pub apply-Sound : {s : Link} (i : Input) → Sound s → Sound (apply s i)
unfolding apply tmr0_irq_handler rf_select_2g4 reselect rf_disconnect drop_queue_unless_reselected
    rf_clear_bond rf_flush_bond_save rf_led_resync rf_enter_pairing rest_promote_to_normal
    rest_arm_idle tell is_asked rest_cancel begin_search
apply-Sound {s} (due e o) v = asked_keeps Sound (s.tasks e) v (λ k. event-Sound o e v k)
apply-Sound (interrupted status now armed) v = callback-Sound status now armed v
apply-Sound (ticked now later config_ok) v = tick-Sound now later config_ok v
apply-Sound (reported report) v = report-Sound report v
apply-Sound i v = ground arith

-- The link behind the scheduler's first pass.
pub booted-Sound :
    (mac : List ℕ) (mac_valid : Bool) (bond : Bond) → Sound (booted mac mac_valid bond)
unfolding booted rf_task_init begin_search when_asked process_event handle tell is_asked
booted-Sound mac mac_valid bond = ground arith

-- From the link's start, whatever events that have been asked for, interrupts, passes of the
-- loop and calls come in whatever order, between two of the functions: a searching link has its
-- next beacon asked for, and the end of a fresh pairing window; a connected one its supervision
-- timeout and, unless it is a probe, its idle timer; a probe its timeout, and it is searching
-- for or connected to a bonded dongle; a resting one is in the first stage, with the second
-- asked for, or in the second; a wake searches with a probe, and a probe ends quietly only
-- without one; no link is up or caught without a bond.
pub run-Sound :
    (mac : List ℕ) (mac_valid : Bool) (bond : Bond) (is : List Input)
    → Sound (run (booted mac mac_valid bond) is)
run-Sound mac mac_valid bond is =
    run_keeps Sound (λ s i v. apply-Sound i v) (booted mac mac_valid bond) is
      (booted-Sound mac mac_valid bond)
