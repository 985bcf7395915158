-- ===== src/HostWake/Seen.antt =====
-- What is seen on the wires of a host that firmware/src/host_wake.c wakes, and the machine's notes of it.
use open_controller.Prelude.{
  ℕ, ◌≡◌, ◌≢◌, refl, sym, ◌∙◌, Bool, true, false, not, ◌&&◌, ◌||◌, List, [], ◌∷◌, if◌then◌else◌,
  arith,
}
use open_controller.HostWake.{
  HostWake, Output, idle, guard, wait_ack, quarantine, hold, release, init, enqueue, set_latest,
  on_ack, take_next, close_frame, transmit, send_next, step, is_idle,
}
use open_controller.HostWake.Trace.{Event, offer, set_led, ack, poll, apply, run}
use open_controller.HostWake.Moves.{
  Move, rest, wake, wait, first, resend, abandon, late, follow, finish, resume, settle, step-Move,
}

-- What an observer on the wires has seen: whether CHWAKE is high, the tick of the poll that raised it,
-- whether a copy has been sent since, the tick and the frame of the last copy, and whether an ACK has
-- come since that one.
pub record Seen : Type 0 where
  pub high : Bool
  pub up : ℕ
  pub sent : Bool
  pub sent_at : ℕ
  pub cmd : ℕ
  pub val : ℕ
  pub acked : Bool

abbrev pub unseen : Seen
unseen = record { high = false; up = 0; sent = false; sent_at = 0; cmd = 0; val = 0; acked = false }

unfoldable pub look : Seen → ℕ → Output → Seen
look g now out = record {
  high = out.line;
  up = if g.high then g.up else now;
  sent = out.send || g.high && g.sent;
  sent_at = if out.send then now else g.sent_at;
  cmd = if out.send then out.cmd else g.cmd;
  val = if out.send then out.val else g.val;
  acked = if out.send then false else g.acked;
}

unfoldable pub see : HostWake → Seen → Event → Seen
see hw g (offer c v) = g
see hw g (set_led c v) = g
see hw g ack = record g { acked = true }
see hw g (poll now) = look g now (step hw now).1

unfoldable pub seen : HostWake → Seen → List Event → Seen
seen hw g [] = g
seen hw g (e ∷ es) = seen (apply hw e) (see hw g e) es

-- The machine's notes against what has been seen.
pub record Tracks (guard_ticks ack_ticks : ℕ) (hw : HostWake) (g : Seen) : Type 0 where
  pub guard_lem : hw.guard_ticks ≡ guard_ticks
  pub ack_lem : hw.ack_timeout_ticks ≡ ack_ticks
  pub high_lem : g.high ≡ not (is_idle hw.state)
  pub raised : hw.state ≡ guard → (g.up ≡ hw.since) × (g.sent ≡ false)
  pub outstanding :
      hw.state ≡ wait_ack
      → (g.sent ≡ true)
        × (g.sent_at ≡ hw.since)
        × (g.acked ≡ hw.acked)
        × (g.cmd ≡ hw.out_cmd)
        × (g.val ≡ hw.out_val)
  pub over : hw.state ≡ quarantine → (g.sent ≡ true) × (g.sent_at ≡ hw.since)

transmit-Tracks :
    {guard_ticks ack_ticks : ℕ} (hw : HostWake) (g : Seen) (now : ℕ)
    → hw.guard_ticks ≡ guard_ticks
    → hw.ack_timeout_ticks ≡ ack_ticks
    → Tracks guard_ticks ack_ticks (transmit hw now).0 (look g now (transmit hw now).1)
unfolding transmit look
transmit-Tracks hw g now h k = record {
  guard_lem = h;
  ack_lem = k;
  high_lem = refl;
  raised = λ e. absurd (ground arith);
  outstanding = λ e. (refl, refl, refl, refl, refl);
  over = λ e. absurd (ground arith);
}

send_next-Tracks :
    {guard_ticks ack_ticks : ℕ} (hw : HostWake) (g : Seen) (now : ℕ)
    → hw.guard_ticks ≡ guard_ticks
    → hw.ack_timeout_ticks ≡ ack_ticks
    → Tracks guard_ticks ack_ticks (send_next hw now).0 (look g now (send_next hw now).1)
unfolding send_next take_next
send_next-Tracks hw g now h k = transmit-Tracks _ g now (ground arith) (ground arith)

close_frame-ticks :
    (hw : HostWake) (gave_up : Bool)
    → ((close_frame hw gave_up).guard_ticks ≡ hw.guard_ticks)
      × ((close_frame hw gave_up).ack_timeout_ticks ≡ hw.ack_timeout_ticks)
      × ((close_frame hw gave_up).since ≡ hw.since)
unfolding close_frame
close_frame-ticks hw gave_up = (ground arith, ground arith, ground arith)

-- A frame that is closed for good, behind a copy.
closed-Tracks :
    {guard_ticks ack_ticks : ℕ} (hw : HostWake) (g : Seen) (now : ℕ) (gave_up : Bool)
    → Tracks guard_ticks ack_ticks hw g
    → hw.state ≡ wait_ack
    → Tracks guard_ticks ack_ticks
        (record (close_frame hw gave_up) { state = quarantine })
        (look g now hold)
unfolding look
closed-Tracks hw g now gave_up t s =
    let (guard_same, ack_same, since_same) = close_frame-ticks hw gave_up in
    let (sent, at, acked, cmd, val) = t.outstanding s in
    let high = t.high_lem in
    record {
      guard_lem = guard_same ∙ t.guard_lem;
      ack_lem = ack_same ∙ t.ack_lem;
      high_lem = refl;
      raised = λ e. absurd (ground arith);
      outstanding = λ e. absurd (ground arith);
      over = λ e. (ground arith, at ∙ sym since_same);
    }

idle-Tracks :
    {guard_ticks ack_ticks : ℕ} (hw : HostWake) (g : Seen) (now : ℕ)
    → hw.guard_ticks ≡ guard_ticks
    → hw.ack_timeout_ticks ≡ ack_ticks
    → hw.state ≡ idle
    → Tracks guard_ticks ack_ticks hw (look g now release)
unfolding look
idle-Tracks hw g now h k s = record {
  guard_lem = h;
  ack_lem = k;
  high_lem = ground arith;
  raised = λ e. absurd (ground arith);
  outstanding = λ e. absurd (ground arith);
  over = λ e. absurd (ground arith);
}

wait-Tracks :
    {guard_ticks ack_ticks : ℕ} (hw : HostWake) (g : Seen) (now : ℕ)
    → Tracks guard_ticks ack_ticks hw g
    → hw.state ≢ idle
    → Tracks guard_ticks ack_ticks hw (look g now hold)
unfolding look
wait-Tracks hw g now t s =
    let high : g.high ≡ true = let h = t.high_lem in ground arith in
    record {
      guard_lem = t.guard_lem;
      ack_lem = t.ack_lem;
      high_lem = ground arith;
      raised = λ e. let (up, sent) = t.raised e in (ground arith, ground arith);
      outstanding = λ e.
          let (sent, at, acked, cmd, val) = t.outstanding e in (ground arith, at, acked, cmd, val);
      over = λ e. let (sent, at) = t.over e in (ground arith, at);
    }

wake-Tracks :
    {guard_ticks ack_ticks : ℕ} (hw : HostWake) (g : Seen) (now : ℕ)
    → Tracks guard_ticks ack_ticks hw g
    → hw.state ≡ idle
    → Tracks guard_ticks ack_ticks (record hw { state = guard; since = now }) (look g now hold)
unfolding look
wake-Tracks hw g now t s =
    let low : g.high ≡ false = let h = t.high_lem in ground arith in
    record {
      guard_lem = t.guard_lem;
      ack_lem = t.ack_lem;
      high_lem = refl;
      raised = λ e. (ground arith, ground arith);
      outstanding = λ e. absurd (ground arith);
      over = λ e. absurd (ground arith);
    }

Move-Tracks :
    {guard_ticks ack_ticks : ℕ} {hw : HostWake} {now : ℕ} {r : HostWake × Output} (g : Seen)
    → Move hw now r
    → Tracks guard_ticks ack_ticks hw g
    → Tracks guard_ticks ack_ticks r.0 (look g now r.1)
Move-Tracks {hw = hw} {now = now} g (rest s p e) t =
    rw e (idle-Tracks hw g now t.guard_lem t.ack_lem s)
Move-Tracks {hw = hw} {now = now} g (wake s p e) t = rw e (wake-Tracks hw g now t s)
Move-Tracks {hw = hw} {now = now} g (wait s a d e) t = rw e (wait-Tracks hw g now t s)
Move-Tracks {hw = hw} {now = now} g (first s d e) t =
    rw e (send_next-Tracks hw g now t.guard_lem t.ack_lem)
Move-Tracks {hw = hw} {now = now} g (resend s a d m e) t =
    rw e (transmit-Tracks hw g now t.guard_lem t.ack_lem)
Move-Tracks {hw = hw} {now = now} g (abandon s a d m e) t = rw e (closed-Tracks hw g now true t s)
Move-Tracks {hw = hw} {now = now} g (late s a m e) t = rw e (closed-Tracks hw g now false t s)
Move-Tracks {hw = hw} {now = now} g (follow s a m p e) t =
    let (guard_same, ack_same, since_same) = close_frame-ticks hw false in
    rw e (
      send_next-Tracks (close_frame hw false) g now (guard_same ∙ t.guard_lem)
        (ack_same ∙ t.ack_lem))
Move-Tracks {hw = hw} {now = now} g (finish s a m p e) t =
    let (guard_same, ack_same, since_same) = close_frame-ticks hw false in
    rw e (
      idle-Tracks (record (close_frame hw false) { state = idle }) g now (guard_same ∙ t.guard_lem)
        (ack_same ∙ t.ack_lem) refl)
Move-Tracks {hw = hw} {now = now} g (resume s d p e) t =
    rw e (send_next-Tracks hw g now t.guard_lem t.ack_lem)
Move-Tracks {hw = hw} {now = now} g (settle s d p e) t =
    rw e (idle-Tracks (record hw { state = idle }) g now t.guard_lem t.ack_lem refl)

apply-Tracks :
    {guard_ticks ack_ticks : ℕ} (hw : HostWake) (g : Seen) (e : Event)
    → Tracks guard_ticks ack_ticks hw g
    → Tracks guard_ticks ack_ticks (apply hw e) (see hw g e)
unfolding apply see enqueue set_latest on_ack
apply-Tracks hw g (offer c v) t = ground (arith, t)
apply-Tracks hw g (set_led c v) t = ground (arith, t)
apply-Tracks hw g ack t = ground (arith, t)
apply-Tracks hw g (poll now) t = Move-Tracks g (step-Move hw now) t

pub run-Tracks :
    {guard_ticks ack_ticks : ℕ} (hw : HostWake) (g : Seen) (es : List Event)
    → Tracks guard_ticks ack_ticks hw g
    → Tracks guard_ticks ack_ticks (run hw es) (seen hw g es)
unfolding run seen
run-Tracks hw g [] t = t
run-Tracks hw g (e ∷ es) t = run-Tracks (apply hw e) (see hw g e) es (apply-Tracks hw g e t)

pub init-Tracks :
    (guard_ticks ack_ticks attempts : ℕ)
    → Tracks guard_ticks ack_ticks (init guard_ticks ack_ticks attempts) unseen
unfolding init
init-Tracks guard_ticks ack_ticks attempts = record {
  guard_lem = refl;
  ack_lem = refl;
  high_lem = refl;
  raised = λ e. absurd (ground arith);
  outstanding = λ e. absurd (ground arith);
  over = λ e. absurd (ground arith);
}
