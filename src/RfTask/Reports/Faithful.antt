-- ===== src/RfTask/Reports/Faithful.antt =====
-- What firmware/src/rf_task.c owes the dongle holds in every history of its key reports.
use open_controller.Prelude.{
  ℕ, ◌≡◌, ◌∙◌, refl, none, some, List, [], ◌∷◌, ◌++◌, if◌then◌else◌, ring_window, ring_contents,
  arith,
}
use open_controller.RfTask.Reports.History.{
  contents, Session, initial, Event, queued, polled, responded, discarded, timed_out, disconnected,
  connected, apply, run, first, IsFaithful, EndsIn,
}
use open_controller.RfTask.Reports.Order.{
  discarded-IsFaithful, timed_out-IsFaithful, disconnected-IsFaithful, connected-IsFaithful,
  responded-IsFaithful, polled-IsFaithful,
}
use open_controller.RfTask.Reports.Filling.{queued-IsFaithful}

apply-IsFaithful : (s : Session) (e : Event) → IsFaithful s → IsFaithful (apply s e)
apply-IsFaithful s (queued r) c = queued-IsFaithful s r c
apply-IsFaithful s (polled rx_ctrl) c = polled-IsFaithful s rx_ctrl c
apply-IsFaithful s (responded started) c = responded-IsFaithful s c started
apply-IsFaithful s discarded c = discarded-IsFaithful s c
apply-IsFaithful s timed_out c = timed_out-IsFaithful s c
apply-IsFaithful s disconnected c = disconnected-IsFaithful s c
apply-IsFaithful s connected c = connected-IsFaithful s c

run-IsFaithful : (s : Session) (es : List Event) → IsFaithful s → IsFaithful (run s es)
unfolding run
run-IsFaithful s [] c = c
run-IsFaithful s (e ∷ es) c = run-IsFaithful (apply s e) es (apply-IsFaithful s e c)

initial-IsFaithful : IsFaithful initial
unfolding contents ring_contents ring_window
initial-IsFaithful = record {
  head_lt = omega arith;
  tail_lt = omega arith;
  fill = omega arith;
  size = refl;
  order = refl;
  newest_lem = refl;
  last_lem = λ r e. absurd (ground arith);
  air_lem = refl;
  sent_lem = λ e. absurd (ground arith);
}

-- From task start, whatever reports, polls, responses and ends and beginnings of sessions come in
-- whatever order: the reports that the dongle has confirmed or that were discarded, followed by
-- those in the ring, are those taken, where one handed over is taken behind the others unless it
-- repeats the newest, and in the newest's place if sixteen are unconfirmed; and the one in the air,
-- which the dongle's next change of its control bit confirms, is the first in the ring.
pub reports_in_order :
    (es : List Event)
    → let s = run initial es in
      (s.gone ++ contents s.rf ≡ s.log)
      × (s.on_air ≡ (if s.rf.head_sent then first (contents s.rf) else none))
reports_in_order es = let c = run-IsFaithful initial es initial-IsFaithful in (c.order, c.air_lem)

-- Whatever reports, polls, responses and ends and beginnings of sessions come from task start, the
-- newest report that still describes the host is the last one taken: it is the last in the ring,
-- or the last that has left it.
pub newest_kept :
    (es : List Event) (r : List ℕ)
    → (run initial es).newest ≡ some r
    → EndsIn ((run initial es).gone ++ contents (run initial es).rf) r
unfolding EndsIn
newest_kept es r h =
    let c = run-IsFaithful initial es initial-IsFaithful in
    let (rs, e) = c.last_lem r h in (rs, c.order ∙ e)
