-- ===== src/HostWake/Sends.antt =====
-- When `HostWake_Step` sends, what it sends, and the level that it drives CHWAKE to.
use open_controller.Prelude.{ℕ, ◌*◌, ◌≤◌, ◌≡◌, ◌∙◌, true, false, not, List, arith, sub32, u32}
use open_controller.HostWake.{HostWake, Output, init, transmit, send_next, step, is_idle}
use open_controller.HostWake.Seen.{Seen, unseen, seen, Tracks, run-Tracks, init-Tracks}
use open_controller.HostWake.Trace.{Event, run}
use open_controller.HostWake.Moves.{
  Move, rest, wake, wait, first, resend, abandon, late, follow, finish, resume, settle, step-Move,
}

line-Move :
    {hw : HostWake} {now : ℕ} {r : HostWake × Output}
    → Move hw now r
    → r.1.line ≡ not (is_idle r.0.state)
unfolding transmit send_next
line-Move (rest s p e) = ground arith
line-Move (wake s p e) = ground arith
line-Move (wait s a d e) = ground arith
line-Move (first s d e) = ground arith
line-Move (resend s a d m e) = ground arith
line-Move (abandon s a d m e) = ground arith
line-Move (late s a m e) = ground arith
line-Move (follow s a m p e) = ground arith
line-Move (finish s a m p e) = ground arith
line-Move (resume s d p e) = ground arith
line-Move (settle s d p e) = ground arith

-- After every step CHWAKE is high exactly when the machine is not idle.
pub line_lem :
    (hw : HostWake) (now : ℕ) → (step hw now).1.line ≡ not (is_idle (step hw now).0.state)
line_lem hw now = line-Move (step-Move hw now)

-- Why a copy may be sent, by what has been seen.
pub data MaySend (guard_ticks ack_ticks : ℕ) (g : Seen) (now : ℕ) (out : Output) : Type 0 where
  guarded : g.sent ≡ false → guard_ticks ≤ sub32 now g.up → MaySend guard_ticks ack_ticks g now out
  again :
      g.sent ≡ true
      → g.acked ≡ false
      → ack_ticks ≤ sub32 now g.sent_at
      → out.cmd ≡ g.cmd
      → out.val ≡ g.val
      → MaySend guard_ticks ack_ticks g now out
  answered : g.sent ≡ true → g.acked ≡ true → MaySend guard_ticks ack_ticks g now out
  cleared :
      g.sent ≡ true
      → u32 (2 * ack_ticks) ≤ sub32 now g.sent_at
      → MaySend guard_ticks ack_ticks g now out

sends-Move :
    {guard_ticks ack_ticks : ℕ} {hw : HostWake} {now : ℕ} {r : HostWake × Output} (g : Seen)
    → Tracks guard_ticks ack_ticks hw g
    → Move hw now r
    → r.1.send ≡ true
    → (g.high ≡ true) × MaySend guard_ticks ack_ticks g now r.1
unfolding transmit
sends-Move g t (rest s p e) h = absurd (ground arith)
sends-Move g t (wake s p e) h = absurd (ground arith)
sends-Move g t (wait s a d e) h = absurd (ground arith)
sends-Move g t (first s d e) h =
    let (up, sent) = t.raised s in
    let high = t.high_lem in let ticks = t.guard_lem in (ground arith, guarded sent (ground arith))
sends-Move g t (resend s a d m e) h =
    let (sent, at, acked, cmd, val) = t.outstanding s in
    let high = t.high_lem in
    let ticks = t.ack_lem in
    (ground arith, again sent (acked ∙ a) (ground arith) (ground arith) (ground arith))
sends-Move g t (abandon s a d m e) h = absurd (ground arith)
sends-Move g t (late s a m e) h = absurd (ground arith)
sends-Move g t (follow s a m p e) h =
    let (sent, at, acked, cmd, val) = t.outstanding s in
    let high = t.high_lem in (ground arith, answered sent (acked ∙ a))
sends-Move g t (finish s a m p e) h = absurd (ground arith)
sends-Move g t (resume s d p e) h =
    let (sent, at) = t.over s in
    let high = t.high_lem in let ticks = t.ack_lem in (ground arith, cleared sent (ground arith))
sends-Move g t (settle s d p e) h = absurd (ground arith)

-- Whatever frames, LED values, ACKs and polls have come since the start: a poll sends a copy only with
-- CHWAKE high since an earlier poll, and only if it is the first one since CHWAKE went high and the
-- guard time has gone by since; or no ACK has come since the last copy, the ACK timeout has gone by
-- since, and it is the same frame again; or an ACK has come since the last copy; or two ACK timeouts
-- have gone by since the last copy. Ticks and the two timeouts are taken modulo 2 ^ 32.
pub sends_in_turn :
    (guard_ticks ack_ticks attempts : ℕ) (es : List Event) (now : ℕ)
    → (step (run (init guard_ticks ack_ticks attempts) es) now).1.send ≡ true
    → ((seen (init guard_ticks ack_ticks attempts) unseen es).high ≡ true)
      × MaySend guard_ticks ack_ticks
          (seen (init guard_ticks ack_ticks attempts) unseen es)
          now
          (step (run (init guard_ticks ack_ticks attempts) es) now).1
sends_in_turn guard_ticks ack_ticks attempts es now h =
    let hw = init guard_ticks ack_ticks attempts in
    sends-Move (seen hw unseen es)
      (run-Tracks hw unseen es (init-Tracks guard_ticks ack_ticks attempts))
      (step-Move (run hw es) now) h
