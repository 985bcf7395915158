-- ===== src/RfTask/Link/Tuning.antt =====
-- The radio of the link of firmware/src/rf_task.c: when it is off, where it is tuned, and for how
-- long a searching module may listen.
use open_controller.Prelude.{
  ℕ, ◌+◌, ◌%◌, ◌<◌, ◌≡◌, Bool, true, false, none, some, ◌||◌, List, ◌∷◌, ◌==◌, if◌then◌else◌,
  get_or, arith,
}
use open_controller.RfTask.Bond.{Bond}
use open_controller.RfTask.Hop.{Hop, hop_by, tick_after, hop_tick, num_data_channels, data_channels}
use open_controller.RfTask.Reports.{response}
use open_controller.RfTask.Link.Callback.{
  Status, rx_data, restart_rx, on_offer, on_poll_frame, on_frame, count_answer, status_callback,
  tmr0_irq_handler,
}
use open_controller.RfTask.Link.Handlers.{
  pair_channel, pair_broadcast, begin_session, enter_connected, answer_poll, on_rx_restart,
  on_rest_idle, on_lapse, handle, process_event, follow_hop, connected_tick,
}
use open_controller.RfTask.Link.Calls.{
  rf_task_init, drop_queue_unless_reselected, reselect, rf_select_2g4, rf_enter_pairing,
  rf_disconnect, rf_flush_bond_save, rf_clear_bond, can_deep_sleep, note_report,
  rf_queue_hid_report, rf_led_resync,
}
use open_controller.RfTask.Link.Histories.{
  Input, due, interrupted, ticked, reported, when_asked, apply, run, booted, asked_keeps, run_keeps,
}
use open_controller.RfTask.Link.Invariant.{Sound, apply-Sound, booted-Sound}
use open_controller.RfTask.Link.{
  Link, Mode, shut, listening, sending, Outcome, Event, started, is_asked, idle, pairing, connected,
  resting, respond, evt_respond, evt_pair_rx_off, tell, configure_if_needed, start_rx,
  rx_window_ticks,
}
use open_controller.RfTask.Link.Resting.{
  rest_cancel, rest_arm_idle, rest_go_quiet, rest_enter, begin_search, rest_probe_start,
  rest_promote_to_normal,
}

unfoldable pub is_shut : Mode → Bool
is_shut shut = true
is_shut listening = false
is_shut sending = false

unfoldable pub is_listening : Mode → Bool
is_listening shut = false
is_listening listening = true
is_listening sending = false

-- The channels of `pair_channels` and `data_channels`.
unfoldable pub is_channel : ℕ → Bool
is_channel c = c == 8 || c == 17 || c == 26 || c == 4 || c == 13 || c == 20 || c == 28 || c == 33

-- What holds of the radio, the channels and the window in each state.
pub record Tuned (s : Link) : Type 0 where
  pub quiet : s.state ≡ idle → s.radio.mode ≡ shut
  pub resting_quiet : s.state ≡ resting → s.radio.mode ≡ shut
  pub closed : s.state ≡ pairing → s.search.rx_open ≡ false → s.radio.mode ≡ shut
  pub tuned : is_shut s.radio.mode ≡ false → s.radio.tuned ≡ s.radio.channel
  pub tuned_in : s.state ≡ connected → s.radio.tuned ≡ s.radio.channel
  pub closes :
      s.state ≡ pairing
      → s.search.is_bonded ≡ true
      → s.search.rx_off_armed ≡ true
      → s.tasks evt_pair_rx_off ≡ started rx_window_ticks
  pub listens :
      s.state ≡ pairing
      → s.search.is_bonded ≡ true
      → is_listening s.radio.mode ≡ true
      → s.tasks evt_pair_rx_off ≡ started rx_window_ticks
  pub in_band : is_channel s.radio.channel ≡ true
  pub in_table : s.hop.data_idx < num_data_channels
  pub on_slot : s.state ≡ connected → s.radio.channel ≡ get_or data_channels s.hop.data_idx 0
  pub answers :
      s.state ≡ connected → s.answer.is_pending ≡ true → s.answer.channel ≡ s.radio.channel

-- A tick without a hop stays on its slot, and one with a hop stays in the table.
hop_tick-in_table :
    (h : Hop) (now : ℕ)
    → h.data_idx < num_data_channels
    → ((hop_tick h now).0.data_idx < num_data_channels)
      × ((hop_tick h now).1 ≡ false → (hop_tick h now).0.data_idx ≡ h.data_idx)
unfolding hop_tick tick_after hop_by
hop_tick-in_table h now k = (ground arith, λ e. ground arith)

data_channels-in_band :
    (i : ℕ) → i < num_data_channels → is_channel (get_or data_channels i 0) ≡ true
unfolding is_channel
data_channels-in_band i k = ground arith

pair_channel-in_band : (n : ℕ) → is_channel (pair_channel n) ≡ true
unfolding is_channel pair_channel
pair_channel-in_band n = ground arith

event-Tuned :
    {s : Link} (o : Outcome) (e : Event)
    → Sound s
    → Tuned s
    → is_asked (s.tasks e) ≡ true
    → Tuned (process_event s e o)
unfolding process_event handle tell is_asked rest_cancel rest_go_quiet begin_search rest_probe_start
    rest_promote_to_normal rest_arm_idle rest_enter on_lapse on_rest_idle enter_connected
    begin_session pair_broadcast answer_poll on_rx_restart start_rx configure_if_needed is_shut
    is_listening is_channel
event-Tuned {s} o e v t asked = ground (
  arith,
  data_channels-in_band ((s.caught.type_tag + 1) % num_data_channels),
  pair_channel-in_band s.search.bcast_count,
)

if-Tuned : {s s' : Link} (b : Bool) → Tuned s → Tuned s' → Tuned (if b then s else s')
if-Tuned true v w = v
if-Tuned false v w = w

restart-Tuned : {s : Link} → Tuned s → Tuned (restart_rx s)
unfolding tell
restart-Tuned t = ground arith

on_offer-Tuned : {s : Link} (buf : List ℕ) (now : ℕ) → Tuned s → Tuned (on_offer s buf now)
unfolding on_offer tell
on_offer-Tuned buf now t = ground arith

on_poll_frame-Tuned :
    {s : Link} (buf : List ℕ) (now armed : ℕ) → Tuned s → Tuned (on_poll_frame s buf now armed)
unfolding on_poll_frame tell
on_poll_frame-Tuned buf now armed t = ground arith

rssi-Tuned : {s : Link} (rssi : ℕ) → Tuned s → Tuned (record s { rssi = rssi })
rssi-Tuned rssi t = ground arith

callback-Tuned :
    {s : Link} (status : Status) (now later : ℕ)
    → Tuned s
    → Tuned (status_callback s status now later)
unfolding status_callback on_frame count_answer tell
callback-Tuned (rx_data none) n l t = restart-Tuned t
callback-Tuned (rx_data (some buf)) n l t =
    let w = rssi-Tuned (get_or buf 0 0) t in
    if-Tuned _ (on_offer-Tuned buf n w)
      (if-Tuned _ (on_poll_frame-Tuned buf n l w) (restart-Tuned w))
callback-Tuned status n l t = ground arith

tick-Tuned :
    {s : Link} (now later : ℕ) (config_ok : Bool)
    → Tuned s
    → Tuned (connected_tick s now later config_ok)
unfolding connected_tick follow_hop tell rest_go_quiet start_rx configure_if_needed is_shut
    is_listening
tick-Tuned {s} now later config_ok t =
    let (table, same) = hop_tick-in_table s.hop later t.in_table in
    ground (arith, data_channels-in_band (hop_tick s.hop later).0.data_idx)

report-Tuned : {s : Link} (report : List ℕ) → Tuned s → Tuned (rf_queue_hid_report s report)
unfolding rf_queue_hid_report note_report tell rest_cancel rest_probe_start begin_search
    rest_promote_to_normal rest_arm_idle is_shut is_listening is_channel
report-Tuned report t = ground arith

apply-Tuned : {s : Link} (i : Input) → Sound s → Tuned s → Tuned (apply s i)
unfolding apply tmr0_irq_handler rf_select_2g4 reselect rf_disconnect drop_queue_unless_reselected
    rf_clear_bond rf_flush_bond_save rf_led_resync rf_enter_pairing rest_promote_to_normal
    rest_arm_idle tell rest_cancel begin_search is_shut is_listening is_channel
apply-Tuned {s} (due e o) v t = asked_keeps Tuned (s.tasks e) t (λ k. event-Tuned o e v t k)
apply-Tuned (interrupted status now armed) v t = callback-Tuned status now armed t
apply-Tuned (ticked now later config_ok) v t = tick-Tuned now later config_ok t
apply-Tuned (reported report) v t = report-Tuned report t
apply-Tuned i v t = ground arith

booted-Tuned : (mac : List ℕ) (mac_valid : Bool) (bond : Bond) → Tuned (booted mac mac_valid bond)
unfolding booted rf_task_init begin_search when_asked process_event handle tell is_shut is_listening
    is_channel
booted-Tuned mac mac_valid bond = ground arith

-- From the link's start, whatever events that have been asked for, interrupts, passes of the
-- loop and calls come in whatever order, between two of the functions: an idle or resting radio
-- is shut, and a searching one outside its window; one that is on is tuned to the link's
-- channel, which is a pairing or data channel, when connected that of the hop's index, which is
-- in the table; a response is due on the channel that its poll came on; and a bonded search
-- that listens has asked for the end of its window in KBD_PAIR_RX_WINDOW_TICKS.
pub run-Tuned :
    (mac : List ℕ) (mac_valid : Bool) (bond : Bond) (is : List Input)
    → Tuned (run (booted mac mac_valid bond) is)
run-Tuned mac mac_valid bond is =
    (run_keeps (λ s. Sound s × Tuned s) (λ s i (v, t). (apply-Sound i v, apply-Tuned i v t))
      (booted mac mac_valid bond) is
      (booted-Sound mac mac_valid bond, booted-Tuned mac mac_valid bond)).1

-- From the link's start, whatever events that have been asked for, interrupts, passes of the
-- loop and calls come in whatever order, between two of the functions: the radio is shut
-- whenever RF_CanDeepSleep lets the module sleep.
pub sleeps_shut :
    (mac : List ℕ) (mac_valid : Bool) (bond : Bond) (is : List Input)
    → can_deep_sleep (run (booted mac mac_valid bond) is) ≡ true
    → (run (booted mac mac_valid bond) is).radio.mode ≡ shut
unfolding can_deep_sleep
sleeps_shut mac mac_valid bond is k = let t = run-Tuned mac mac_valid bond is in ground arith

-- From the link's start, whatever events that have been asked for, interrupts, passes of the
-- loop and calls come in whatever order, between two of the functions: the response event of a
-- connected link with a response due transmits the frame of its reports with the control byte
-- of the poll, on the channel that the poll came on, which is the hop's.
pub answers_where_polled :
    (mac : List ℕ) (mac_valid : Bool) (bond : Bond) (is : List Input) (o : Outcome)
    → (run (booted mac mac_valid bond) is).state ≡ connected
    → (run (booted mac mac_valid bond) is).answer.is_pending ≡ true
    → let s = run (booted mac mac_valid bond) is in
      ((process_event s evt_respond o).calls
        ≡ respond s.answer.channel (response s.reports s.answer.ctrl) ∷ s.calls)
      × (s.answer.channel ≡ get_or data_channels s.hop.data_idx 0)
unfolding process_event handle answer_poll
answers_where_polled mac mac_valid bond is o k pending =
    let t = run-Tuned mac mac_valid bond is in (ground arith, ground arith)
