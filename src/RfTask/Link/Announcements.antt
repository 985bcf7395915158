-- ===== src/RfTask/Link/Announcements.antt =====
-- What the link of firmware/src/rf_task.c tells the host: that it is up, that it is down, and the
-- LED byte that the dongle has relayed.
use open_controller.Prelude.{
  ℕ, ◌≤◌, ◌≡◌, ◌≢◌, Bool, true, false, none, some, not, ◌&&◌, ◌||◌, List, [], ◌∷◌, ◌==◌, arith,
}
use open_controller.RfTask.Bond.{Bond}
use open_controller.RfTask.Link.Callback.{
  Status, rx_data, on_offer, relayed_led, on_poll_frame, on_frame, count_answer, status_callback,
  tmr0_irq_handler,
}
use open_controller.RfTask.Link.Handlers.{
  pair_broadcast, begin_session, enter_connected, answer_poll, on_rx_restart, on_rest_idle,
  on_lapse, handle, process_event, follow_hop, connected_tick,
}
use open_controller.RfTask.Link.Calls.{
  rf_task_init, drop_queue_unless_reselected, reselect, rf_select_2g4, rf_enter_pairing,
  rf_disconnect, rf_flush_bond_save, rf_clear_bond, note_report, rf_queue_hid_report, rf_led_resync,
}
use open_controller.RfTask.Link.Histories.{
  Input, due, interrupted, ticked, reported, when_asked, apply, run, booted, asked_keeps, run_keeps,
}
use open_controller.RfTask.Link.Invariant.{Sound, apply-Sound, booted-Sound}
use open_controller.RfTask.Link.{
  Link, Outcome, Event, is_asked, connected, evt_notify_led, tell, Call, send_status, send_led,
  save_bond, clear_flash, beacon, respond,
}
use open_controller.RfTask.Link.Resting.{
  rest_cancel, rest_arm_idle, rest_go_quiet, rest_enter, begin_search, rest_probe_start,
  rest_promote_to_normal,
}

-- Whether the host was last told that the link is up.
unfoldable pub told_up : List Call → Bool
told_up [] = false
told_up (send_status n ∷ calls) =
    let before = told_up calls in n == 0x32 || not (n == 0x33) && before
told_up (send_led n ∷ calls) = told_up calls
told_up (save_bond b ∷ calls) = told_up calls
told_up (clear_flash ∷ calls) = told_up calls
told_up (beacon c payload ∷ calls) = told_up calls
told_up (respond c payload ∷ calls) = told_up calls

-- Whether every link that the host was told is down had been told to be up.
unfoldable pub are_matched : List Call → Bool
are_matched [] = true
are_matched (send_status n ∷ calls) =
    let before = are_matched calls in (not (n == 0x33) || told_up calls) && before
are_matched (send_led n ∷ calls) = are_matched calls
are_matched (save_bond b ∷ calls) = are_matched calls
are_matched (clear_flash ∷ calls) = are_matched calls
are_matched (beacon c payload ∷ calls) = are_matched calls
are_matched (respond c payload ∷ calls) = are_matched calls

-- What the host has been told, and is to be.
pub record Announced (s : Link) : Type 0 where
  pub up : connected ≤ s.state → told_up s.calls ≡ true
  pub probed : s.rest.probe ≡ true → told_up s.calls ≡ true
  pub matched : are_matched s.calls ≡ true
  pub relays :
      s.last_led_sent ≢ 0xFF
      → s.pending_led ≢ s.last_led_sent
      → is_asked (s.tasks evt_notify_led) ≡ true

event-Announced :
    {s : Link} (o : Outcome) (e : Event)
    → Sound s
    → Announced s
    → is_asked (s.tasks e) ≡ true
    → Announced (process_event s e o)
unfolding process_event handle tell is_asked rest_cancel rest_go_quiet begin_search rest_probe_start
    rest_promote_to_normal rest_arm_idle rest_enter on_lapse on_rest_idle enter_connected
    begin_session pair_broadcast answer_poll on_rx_restart told_up are_matched
event-Announced o e v a asked = ground arith

callback-Announced :
    {s : Link} (status : Status) (now later : ℕ)
    → Announced s
    → Announced (status_callback s status now later)
unfolding status_callback on_frame on_offer on_poll_frame count_answer tell is_asked relayed_led
callback-Announced (rx_data none) n l a = ground arith
callback-Announced (rx_data (some buf)) n l a = ground arith
callback-Announced status n l a = ground arith

tick-Announced :
    {s : Link} (now later : ℕ) (config_ok : Bool)
    → Sound s
    → Announced s
    → Announced (connected_tick s now later config_ok)
unfolding connected_tick follow_hop tell is_asked rest_go_quiet
tick-Announced now later config_ok v a = ground arith

report-Announced :
    {s : Link} (report : List ℕ) → Sound s → Announced s → Announced (rf_queue_hid_report s report)
unfolding rf_queue_hid_report note_report tell is_asked rest_cancel rest_probe_start begin_search
    rest_promote_to_normal rest_arm_idle
report-Announced report v a = ground arith

apply-Announced : {s : Link} (i : Input) → Sound s → Announced s → Announced (apply s i)
unfolding apply tmr0_irq_handler rf_select_2g4 reselect rf_disconnect drop_queue_unless_reselected
    rf_clear_bond rf_flush_bond_save rf_led_resync rf_enter_pairing rest_promote_to_normal
    rest_arm_idle tell is_asked rest_cancel begin_search told_up are_matched
apply-Announced {s} (due e o) v a =
    asked_keeps Announced (s.tasks e) a (λ k. event-Announced o e v a k)
apply-Announced (interrupted status now armed) v a = callback-Announced status now armed a
apply-Announced (ticked now later config_ok) v a = tick-Announced now later config_ok v a
apply-Announced (reported report) v a = report-Announced report v a
apply-Announced i v a = ground arith

booted-Announced :
    (mac : List ℕ) (mac_valid : Bool) (bond : Bond) → Announced (booted mac mac_valid bond)
unfolding booted rf_task_init begin_search when_asked process_event handle tell is_asked told_up
    are_matched
booted-Announced mac mac_valid bond = ground arith

-- From the link's start, whatever events that have been asked for, interrupts, passes of the
-- loop and calls come in whatever order, between two of the functions: a link that is
-- connected, resting or probing was last told to the host as up; every link told as down had
-- been told as up since the last such word; and an LED byte that the dongle has relayed, other
-- than the one last sent, has its sending asked for, unless the last one sent is the 0xFF that
-- stands for none.
pub run-Announced :
    (mac : List ℕ) (mac_valid : Bool) (bond : Bond) (is : List Input)
    → Announced (run (booted mac mac_valid bond) is)
run-Announced mac mac_valid bond is =
    (run_keeps (λ s. Sound s × Announced s) (λ s i (v, a). (apply-Sound i v, apply-Announced i v a))
      (booted mac mac_valid bond) is
      (booted-Sound mac mac_valid bond, booted-Announced mac mac_valid bond)).1
