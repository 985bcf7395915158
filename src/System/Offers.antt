-- ===== src/System/Offers.antt =====
-- The LED values that firmware/src/rf_task.c hands over: what it notes as sent is what it has sent.
use open_controller.Prelude.{ℕ, ◌≡◌, ◌≢◌, Bool, List, [], ◌∷◌, arith}
use open_controller.RfTask.Link.Callback.{
  Status, on_offer, on_poll_frame, on_frame, count_answer, status_callback, tmr0_irq_handler,
}
use open_controller.RfTask.Link.Handlers.{
  pair_broadcast, begin_session, enter_connected, answer_poll, on_rx_restart, on_rest_idle,
  on_lapse, handle, process_event, follow_hop, connected_tick,
}
use open_controller.RfTask.Link.Calls.{
  drop_queue_unless_reselected, reselect, rf_select_2g4, rf_enter_pairing, rf_disconnect,
  rf_flush_bond_save, rf_clear_bond, note_report, rf_queue_hid_report, rf_led_resync,
}
use open_controller.RfTask.Link.Histories.{
  Input, due, interrupted, ticked, reported, when_asked, apply,
}
use open_controller.RfTask.Link.{
  Link, Outcome, Event, Request, off, posted, started, Call, send_status, send_led, save_bond,
  clear_flash, beacon, respond,
}
use open_controller.RfTask.Link.Resting.{
  rest_cancel, rest_arm_idle, rest_go_quiet, rest_enter, begin_search, rest_probe_start,
  rest_promote_to_normal,
}

-- The value handed over last, or else the one before.
unfoldable pub led_after : List Call → ℕ → ℕ
led_after [] v = v
led_after (send_status n ∷ cs) v = led_after cs v
led_after (send_led w ∷ cs) v = w
led_after (save_bond b ∷ cs) v = led_after cs v
led_after (clear_flash ∷ cs) v = led_after cs v
led_after (beacon c payload ∷ cs) v = led_after cs v
led_after (respond c payload ∷ cs) v = led_after cs v

-- Unless it is the 0xFF that stands for none, what `l'` notes as sent is the last value handed over
-- since `l`.
unfoldable pub IsOffered : Link → Link → Type 0
IsOffered l l' =
    l.calls ≡ [] → l'.last_led_sent ≢ 0xFF → l'.last_led_sent ≡ led_after l'.calls l.last_led_sent

event-IsOffered : (l : Link) (e : Event) (o : Outcome) → IsOffered l (process_event l e o)
unfolding IsOffered led_after process_event handle rest_cancel rest_go_quiet begin_search
    rest_probe_start rest_promote_to_normal rest_arm_idle rest_enter on_lapse on_rest_idle
    enter_connected begin_session pair_broadcast answer_poll on_rx_restart
event-IsOffered l e o c n = ground arith

callback-IsOffered :
    (l : Link) (status : Status) (now later : ℕ) → IsOffered l (status_callback l status now later)
unfolding IsOffered led_after status_callback on_frame on_offer on_poll_frame count_answer
callback-IsOffered l status now later c n = ground arith

tick-IsOffered :
    (l : Link) (now later : ℕ) (ok : Bool) → IsOffered l (connected_tick l now later ok)
unfolding IsOffered led_after connected_tick follow_hop rest_go_quiet
tick-IsOffered l now later ok c n = ground arith

pub report-IsOffered : (l : Link) (report : List ℕ) → IsOffered l (rf_queue_hid_report l report)
unfolding IsOffered led_after rf_queue_hid_report note_report rest_cancel rest_probe_start
    begin_search rest_promote_to_normal rest_arm_idle
report-IsOffered l report c n = ground arith

asked-IsOffered : (r : Request) (l l' : Link) → IsOffered l l' → IsOffered l (when_asked r l l')
unfolding when_asked IsOffered led_after
asked-IsOffered off l l' h c n = ground arith
asked-IsOffered posted l l' h c n = h c n
asked-IsOffered (started ticks) l l' h c n = h c n

pub apply-IsOffered : (l : Link) (i : Input) → IsOffered l (apply l i)
unfolding apply IsOffered led_after tmr0_irq_handler rf_select_2g4 reselect rf_disconnect
    drop_queue_unless_reselected rf_clear_bond rf_flush_bond_save rf_led_resync rf_enter_pairing
    rest_promote_to_normal rest_arm_idle rest_cancel begin_search
apply-IsOffered l (due e o) = asked-IsOffered (l.tasks e) l _ (event-IsOffered l e o)
apply-IsOffered l (interrupted status now armed) = callback-IsOffered l status now armed
apply-IsOffered l (ticked now later config_ok) = tick-IsOffered l now later config_ok
apply-IsOffered l (reported report) = report-IsOffered l report
apply-IsOffered l i = λ c n. ground arith

-- The calls of the main loop, one by one.
pub drop-IsOffered : (l : Link) → IsOffered l (drop_queue_unless_reselected l)
unfolding IsOffered led_after drop_queue_unless_reselected
drop-IsOffered l c n = ground arith

pub disconnect-IsOffered : (l : Link) → IsOffered l (rf_disconnect l)
unfolding IsOffered led_after rf_disconnect rest_cancel
disconnect-IsOffered l c n = ground arith

pub clear-IsOffered : (l : Link) → IsOffered l (rf_clear_bond l)
unfolding IsOffered led_after rf_clear_bond rest_cancel
clear-IsOffered l c n = ground arith

pub flush-IsOffered : (l : Link) → IsOffered l (rf_flush_bond_save l)
unfolding IsOffered led_after rf_flush_bond_save
flush-IsOffered l c n = ground arith
