-- ===== src/RfTask/Reports/History.antt =====
-- Histories of the key reports of firmware/src/rf_task.c, and what the module owes the dongle in
-- them.
use open_controller.Prelude.{
  ℕ, ◌-◌, ◌^◌, ◌≤◌, ◌<◌, ◌≡◌, ◌≢◌, Bool, true, false, Option, none, some, List, [], ◌∷◌, ◌++◌, leb,
  if◌then◌else◌, length, replace_last, ring_contents, IsRingSize, sub8, arith,
}
use open_controller.RfTask.Reports.{
  Reports, slots, no_report, task_init, same_bytes, low_bit_differs, queue_hid_report, on_poll,
  response, do_response_tx, discard_hid_queue, on_disconnect, disconnect, enter_connected,
}

pub slots-IsRingSize : IsRingSize slots
slots-IsRingSize = record {
  apart = λ i n h k. omega arith;
  wraps = λ i. omega arith;
  bounded = λ i. omega arith;
  below = omega arith;
}

-- The reports queued, the oldest first.
unfoldable pub contents : Reports → List (List ℕ)
contents s = ring_contents slots slots-IsRingSize no_report s.fifo s.head s.tail

-- The module's state beside what an observer of its calls and frames knows: the reports handed
-- over and taken, those gone because the dongle has confirmed them or because they were
-- discarded, the newest one that still describes the host, and the one in the air.
pub record Session : Type 0 where
  pub rf : Reports
  pub log : List (List ℕ)
  pub gone : List (List ℕ)
  pub newest : Option (List ℕ)
  pub on_air : Option (List ℕ)

abbrev pub initial : Session
initial = record { rf = task_init; log = []; gone = []; newest = none; on_air = none }

-- A report handed over, a poll with its control byte, a response and whether its transmission
-- starts, and the calls that end or begin a session.
pub data Event : Type 0 where
  queued : List ℕ → Event
  polled : ℕ → Event
  responded : Bool → Event
  discarded : Event
  timed_out : Event
  disconnected : Event
  connected : Event

unfoldable pub is_newest : Option (List ℕ) → List ℕ → Bool
is_newest none r = false
is_newest (some n) r = same_bytes n r

-- The reports taken once one more has come: with sixteen unconfirmed it replaces the newest.
unfoldable pub taken : List (List ℕ) → List (List ℕ) → List ℕ → List (List ℕ)
taken log gone r =
    if leb slots (length log - length gone) then replace_last log r else log ++ r ∷ []

unfoldable pub to_list : Option (List ℕ) → List (List ℕ)
to_list none = []
to_list (some r) = r ∷ []

-- The report that a frame carries, or else what was in the air before.
unfoldable pub carried : List ℕ → Option (List ℕ) → Option (List ℕ)
carried [] before = before
carried (ctrl ∷ []) before = before
carried (ctrl ∷ tag ∷ report) before = some report

unfoldable pub apply : Session → Event → Session
apply s (queued r) =
    if is_newest s.newest r
    then record s { rf = queue_hid_report s.rf r }
    else record s { rf = queue_hid_report s.rf r; newest = some r; log = taken s.log s.gone r }
apply s (polled rx_ctrl) =
    if low_bit_differs rx_ctrl s.rf.tx_ctrl
    then record s { rf = on_poll s.rf rx_ctrl; gone = s.gone ++ to_list s.on_air; on_air = none }
    else record s { rf = on_poll s.rf rx_ctrl }
apply s (responded started) = record s {
  rf = do_response_tx s.rf started;
  on_air = if started then carried (response s.rf s.rf.tx_ctrl) s.on_air else s.on_air;
}
apply s discarded = record s { rf = discard_hid_queue s.rf; gone = s.log; on_air = none }
apply s timed_out = record s { rf = on_disconnect s.rf; newest = none; on_air = none }
apply s disconnected = record s { rf = disconnect s.rf; newest = none }
apply s connected = record s { rf = enter_connected s.rf; on_air = none }

unfoldable pub run : Session → List Event → Session
run s [] = s
run s (e ∷ es) = run (apply s e) es

unfoldable pub first : List (List ℕ) → Option (List ℕ)
first [] = none
first (r ∷ rs) = some r

unfoldable pub EndsIn : List (List ℕ) → List ℕ → Type 0
EndsIn rs r = (before : List (List ℕ)) × (rs ≡ before ++ r ∷ [])

-- Nothing taken is lost, repeated or overtaken; the newest report that still describes the host is
-- the last one taken; and a report that the next confirmation retires is the one in the air.
pub record IsFaithful (s : Session) : Type 0 where
  pub head_lt : s.rf.head < 2 ^ 8
  pub tail_lt : s.rf.tail < 2 ^ 8
  pub fill : sub8 s.rf.tail s.rf.head ≤ slots
  pub size : length s.rf.fifo ≡ slots
  pub order : s.gone ++ contents s.rf ≡ s.log
  pub newest_lem : s.newest ≡ (if s.rf.last_queued_valid then some s.rf.last_queued else none)
  pub last_lem : (r : List ℕ) → s.newest ≡ some r → (rs : List (List ℕ)) × (s.log ≡ rs ++ r ∷ [])
  pub air_lem : s.on_air ≡ (if s.rf.head_sent then first (contents s.rf) else none)
  pub sent_lem : s.rf.head_sent ≡ true → s.rf.head ≢ s.rf.tail
