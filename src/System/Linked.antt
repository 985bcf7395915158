-- ===== src/System/Linked.antt =====
-- The calls that firmware/src/rf_task.c has made do not act on what it does next.
use open_controller.Prelude.{ℕ, ◌≡◌, refl, sym, ap, ◌∙◌, ◌++◌, Bool, List, [], ◌∷◌, arith}
use open_controller.RfTask.Link.Callback.{
  Status, on_offer, on_poll_frame, on_frame, count_answer, status_callback, tmr0_irq_handler,
}
use open_controller.RfTask.Link.Handlers.{
  pair_broadcast, begin_session, enter_connected, answer_poll, on_rx_restart, on_rest_idle,
  on_lapse, handle, process_event, follow_hop, connected_tick,
}
use open_controller.RfTask.Link.Calls.{
  drop_queue_unless_reselected, reselect, rf_select_2g4, rf_enter_pairing, rf_disconnect,
  rf_flush_bond_save, rf_clear_bond, note_report, rf_queue_hid_report, rf_led_resync,
}
use open_controller.RfTask.Link.Histories.{
  Input, due, interrupted, ticked, reported, when_asked, apply, run,
}
use open_controller.RfTask.Link.{Link, Outcome, Event, Request, off, posted, started}
use open_controller.RfTask.Link.Resting.{
  rest_cancel, rest_arm_idle, rest_go_quiet, rest_enter, begin_search, rest_probe_start,
  rest_promote_to_normal,
}
use open_controller.System.{settle}

event-settle :
    (l : Link) (e : Event) (o : Outcome)
    → settle (process_event (settle l) e o) ≡ settle (process_event l e o)
unfolding settle process_event handle rest_cancel rest_go_quiet begin_search rest_probe_start
    rest_promote_to_normal rest_arm_idle rest_enter on_lapse on_rest_idle enter_connected
    begin_session pair_broadcast answer_poll on_rx_restart
event-settle l e o = ground arith

tick-settle :
    (l : Link) (now later : ℕ) (ok : Bool)
    → settle (connected_tick (settle l) now later ok) ≡ settle (connected_tick l now later ok)
unfolding settle connected_tick follow_hop rest_go_quiet
tick-settle l now later ok = ground arith

callback-settle :
    (l : Link) (st : Status) (now later : ℕ)
    → settle (status_callback (settle l) st now later) ≡ settle (status_callback l st now later)
unfolding settle status_callback on_frame on_offer on_poll_frame count_answer
callback-settle l st now later = ground arith

report-settle :
    (l : Link) (report : List ℕ)
    → settle (rf_queue_hid_report (settle l) report) ≡ settle (rf_queue_hid_report l report)
unfolding settle rf_queue_hid_report note_report rest_cancel rest_probe_start begin_search
    rest_promote_to_normal rest_arm_idle
report-settle l report = ground arith

when_asked-settle :
    (r : Request) (l l' m m' : Link)
    → settle l ≡ settle m
    → settle l' ≡ settle m'
    → settle (when_asked r l l') ≡ settle (when_asked r m m')
unfolding when_asked
when_asked-settle off l l' m m' h k = h
when_asked-settle posted l l' m m' h k = k
when_asked-settle (started ticks) l l' m m' h k = k

apply-settle : (l : Link) (i : Input) → settle (apply (settle l) i) ≡ settle (apply l i)
unfolding apply settle tmr0_irq_handler rf_select_2g4 reselect rf_disconnect
    drop_queue_unless_reselected rf_clear_bond rf_flush_bond_save rf_led_resync rf_enter_pairing
    rest_promote_to_normal rest_arm_idle rest_cancel begin_search
apply-settle l (due e o) = when_asked-settle (l.tasks e) _ _ _ _ refl (event-settle l e o)
apply-settle l (interrupted status now armed) = callback-settle l status now armed
apply-settle l (ticked now later config_ok) = tick-settle l now later config_ok
apply-settle l (reported report) = report-settle l report
apply-settle l i = ground arith

run-settle : (l : Link) (is : List Input) → settle (run (settle l) is) ≡ settle (run l is)
unfolding run settle
run-settle l [] = refl
run-settle l (i ∷ is) =
    sym (run-settle (apply (settle l) i) is)
    ∙ ap (λ m. settle (run m is)) (apply-settle l i)
    ∙ run-settle (apply l i) is

run-append : (l : Link) (is js : List Input) → run l (is ++ js) ≡ run (run l is) js
unfolding run
run-append l [] js = refl
run-append l (i ∷ is) js = run-append (apply l i) is js

-- Some history of the link's inputs leads from one state to the other, but for the calls made.
pub record Reaches (l l' : Link) : Type 0 where
  pub inputs : List Input
  pub reaches : settle l' ≡ settle (run l inputs)

pub self-Reaches : (l : Link) → Reaches l l
unfolding run
self-Reaches l = record { inputs = []; reaches = refl }

pub one-Reaches : (l l' : Link) (i : Input) → settle l' ≡ settle (apply l i) → Reaches l l'
unfolding run
one-Reaches l l' i h = record { inputs = i ∷ []; reaches = h }

pub compose-Reaches : {l l' l'' : Link} → Reaches l l' → Reaches l' l'' → Reaches l l''
compose-Reaches {l} {l'} {l''} f g = record {
  inputs = f.inputs ++ g.inputs;
  reaches =
      g.reaches
      ∙ sym (run-settle l' g.inputs)
      ∙ ap (λ m. settle (run m g.inputs)) f.reaches
      ∙ run-settle (run l f.inputs) g.inputs
      ∙ ap settle (sym (run-append l f.inputs g.inputs));
}
