-- ===== src/RfTask/Identity/Blank.antt =====
-- A module without an address of its own keeps off the air, firmware/src/rf_task.c.
use open_controller.Prelude.{
  ℕ, zero, suc, ◌≤◌, ◌≡◌, ◌≢◌, refl, ap, ◌∙◌, ◌⊎◌, inl, inr, Bool, true, false, List, replicate,
  arith,
}
use open_controller.RfTask.Bond.{Bond}
use open_controller.RfTask.Identity.{are_all, keyboard_mac_valid}
use open_controller.RfTask.Link.Callback.{
  Status, on_offer, on_poll_frame, on_frame, count_answer, status_callback, tmr0_irq_handler,
}
use open_controller.RfTask.Link.Handlers.{
  pair_broadcast, begin_session, enter_connected, answer_poll, on_rx_restart, on_rest_idle,
  on_lapse, handle, process_event, follow_hop, connected_tick,
}
use open_controller.RfTask.Link.Calls.{
  rf_task_init, drop_queue_unless_reselected, reselect, rf_select_2g4, rf_enter_pairing,
  rf_disconnect, rf_flush_bond_save, rf_clear_bond, note_report, rf_queue_hid_report, rf_led_resync,
}
use open_controller.RfTask.Link.Histories.{
  Input, due, interrupted, ticked, reported, when_asked, apply, run, booted, asked_keeps, run_keeps,
}
use open_controller.RfTask.Link.Invariant.{run-Sound}
use open_controller.RfTask.Link.Tuning.{run-Tuned}
use open_controller.RfTask.Link.{Link, Outcome, Event, idle, shut}
use open_controller.RfTask.Link.Resting.{
  rest_cancel, rest_arm_idle, rest_go_quiet, rest_enter, begin_search, rest_probe_start,
  rest_promote_to_normal,
}

-- Whether the address is valid is settled at the start.
event-mac : (l : Link) (e : Event) (o : Outcome) → (process_event l e o).mac_valid ≡ l.mac_valid
unfolding process_event handle rest_cancel rest_go_quiet begin_search rest_probe_start
    rest_promote_to_normal rest_arm_idle rest_enter on_lapse on_rest_idle enter_connected
    begin_session pair_broadcast answer_poll on_rx_restart
event-mac l e o = ground arith

callback-mac :
    (l : Link) (s : Status) (now later : ℕ)
    → (status_callback l s now later).mac_valid ≡ l.mac_valid
unfolding status_callback on_frame on_offer on_poll_frame count_answer
callback-mac l s now later = ground arith

tick-mac :
    (l : Link) (now later : ℕ) (ok : Bool) → (connected_tick l now later ok).mac_valid ≡ l.mac_valid
unfolding connected_tick follow_hop rest_go_quiet
tick-mac l now later ok = ground arith

report-mac : (l : Link) (report : List ℕ) → (rf_queue_hid_report l report).mac_valid ≡ l.mac_valid
unfolding rf_queue_hid_report note_report rest_cancel rest_probe_start begin_search
    rest_promote_to_normal rest_arm_idle
report-mac l report = ground arith

abbrev HasMac : Bool → Link → Type 0
HasMac valid l = l.mac_valid ≡ valid

apply-HasMac : (valid : Bool) (l : Link) (i : Input) → HasMac valid l → HasMac valid (apply l i)
unfolding apply tmr0_irq_handler rf_select_2g4 reselect rf_disconnect drop_queue_unless_reselected
    rf_clear_bond rf_flush_bond_save rf_led_resync rf_enter_pairing rest_promote_to_normal
    rest_arm_idle rest_cancel begin_search
apply-HasMac valid l (due e o) h =
    asked_keeps (HasMac valid) (l.tasks e) h (λ k. event-mac _ e o ∙ h)
apply-HasMac valid l (interrupted status now armed) h = callback-mac l status now armed ∙ h
apply-HasMac valid l (ticked now later config_ok) h = tick-mac l now later config_ok ∙ h
apply-HasMac valid l (reported report) h = report-mac l report ∙ h
apply-HasMac valid l i h = ground arith

booted-HasMac : (mac : List ℕ) (valid : Bool) (bond : Bond) → HasMac valid (booted mac valid bond)
unfolding booted rf_task_init begin_search when_asked process_event handle
booted-HasMac mac valid bond = ground arith

run-HasMac :
    (mac : List ℕ) (valid : Bool) (bond : Bond) (is : List Input)
    → HasMac valid (run (booted mac valid bond) is)
run-HasMac mac valid bond is =
    run_keeps (HasMac valid) (λ l i h. apply-HasMac valid l i h) (booted mac valid bond) is
      (booted-HasMac mac valid bond)

silent : (l : Link) → (1 ≤ l.state → l.mac_valid ≡ true) → l.mac_valid ≡ false → l.state ≡ idle
silent l h k = ground arith

are_all-replicate : (byte n : ℕ) → are_all byte (replicate n byte) ≡ true
unfolding are_all
are_all-replicate byte zero = refl
are_all-replicate byte (suc n) = let k = are_all-replicate byte n in ground arith

-- What makes an address blank: the vendor's call fails, or the bytes are all 0x00 or all 0xFF.
abbrev pub IsBlank : ℕ → List ℕ → Type 0
IsBlank returned mac = (returned ≢ 0) ⊎ ((mac ≡ replicate 6 0x00) ⊎ (mac ≡ replicate 6 0xFF))

blank_lem :
    (returned : ℕ) (mac : List ℕ) → IsBlank returned mac → keyboard_mac_valid returned mac ≡ false
unfolding keyboard_mac_valid
blank_lem returned mac (inl h) = ground arith
blank_lem returned mac (inr (inl h)) =
    let a = ap (are_all 0x00) h ∙ are_all-replicate 0x00 6 in ground arith
blank_lem returned mac (inr (inr h)) =
    let a = ap (are_all 0xFF) h ∙ are_all-replicate 0xFF 6 in ground arith

-- A module whose factory address cannot be read, or reads as all 0x00 or all 0xFF, never leaves the
-- idle state and keeps the radio shut, whatever bond it has and whatever comes to it since its start,
-- in whatever order.
pub blank_silent :
    (returned : ℕ) (mac : List ℕ) (bond : Bond) (is : List Input)
    → IsBlank returned mac
    → ((run (booted mac (keyboard_mac_valid returned mac) bond) is).state ≡ idle)
      × ((run (booted mac (keyboard_mac_valid returned mac) bond) is).radio.mode ≡ shut)
blank_silent returned mac bond is b =
    let valid = keyboard_mac_valid returned mac in
    let l = run (booted mac valid bond) is in
    let rests =
      silent l (run-Sound mac valid bond is).identified
        (run-HasMac mac valid bond is ∙ blank_lem returned mac b) in
    (rests, (run-Tuned mac valid bond is).quiet rests)
