-- ===== src/HostWake/Timing.antt =====
-- How long the machine of host_wake.c takes to get rid of everything, polled at least every so many
-- ticks.
use open_controller.Prelude.{
  ℕ, ◌+◌, ◌-◌, ◌*◌, ◌^◌, ◌≤◌, ◌<◌, ◌≡◌, ◌≢◌, refl, ap, ◌∙◌, Bool, true, false, arith, sub32, u8,
  u32, if◌then◌else◌,
}
use open_controller.HostWake.{
  HostWake, Output, State, idle, guard, wait_ack, quarantine, have_pending, transmit, take_next,
  send_next, close_frame, is_quiet,
}
use open_controller.HostWake.Invariant.{IsValid}
use open_controller.HostWake.Drain.{
  waiting, behind, mul_less, after-send_next, waiting-close_frame, pending_state,
}
use open_controller.HostWake.Moves.{
  Move, rest, wake, wait, first, resend, abandon, late, follow, finish, resume, settle, wait_ticks,
}

-- The times in ticks: the guard, the ACK timeout, and how late a poll may come.
pub record IsPaced (hw : HostWake) (slack : ℕ) : Type 0 where
  pub some_slack : 1 ≤ slack
  pub prompt : slack ≤ hw.ack_timeout_ticks
  pub short_guard : hw.guard_ticks < 2 ^ 29
  pub short_ack : hw.ack_timeout_ticks < 2 ^ 29

-- The longest that one frame takes from its first copy on.
abbrev pub frame_ticks : ℕ → HostWake → ℕ
frame_ticks slack hw = hw.max_attempts * (hw.ack_timeout_ticks + slack) + hw.ack_timeout_ticks

-- How many ticks are left at the most, so many ticks into the current state.
abbrev pub left_in : ℕ → State → HostWake → ℕ → ℕ
left_in slack idle hw e =
    if have_pending hw then hw.guard_ticks + 2 * slack + waiting hw * frame_ticks slack hw else 0
left_in slack guard hw e = hw.guard_ticks + slack - e + waiting hw * frame_ticks slack hw
left_in slack wait_ack hw e =
    2 * hw.ack_timeout_ticks
    + slack
    - e
    + (hw.max_attempts - hw.attempts) * (hw.ack_timeout_ticks + slack)
    + behind hw * frame_ticks slack hw
left_in slack quarantine hw e =
    2 * hw.ack_timeout_ticks + slack - e + waiting hw * frame_ticks slack hw

-- How long a state has gone on at the most, where it goes on.
abbrev pub limit : State → HostWake → ℕ → ℕ
limit idle hw e = e
limit guard hw e = hw.guard_ticks
limit wait_ack hw e = hw.ack_timeout_ticks
limit quarantine hw e = 2 * hw.ack_timeout_ticks

-- The machine at a true time, with the clock's 32 bits.
pub record IsTimed (hw : HostWake) (start e : ℕ) : Type 0 where
  pub since_lem : hw.since ≡ u32 start
  pub in_time : e ≤ limit hw.state hw e

-- A step that comes `gap` ticks later takes as much off what is left.
pub record Gone (slack : ℕ) (hw hw' : HostWake) (start e gap : ℕ) : Type 0 where
  pub start' : ℕ
  pub e' : ℕ
  pub same_time : start' + e' ≡ start + e + gap
  pub timed : IsTimed hw' start' e'
  pub less : left_in slack hw'.state hw' e' + gap ≤ left_in slack hw.state hw e

pub left_at :
    (hw : HostWake) {s : State} (slack e : ℕ)
    → hw.state ≡ s
    → left_in slack hw.state hw e ≡ left_in slack s hw e
left_at hw slack e q = ap (λ x. left_in slack x hw e) q

limit_at : (hw : HostWake) {s : State} (e : ℕ) → hw.state ≡ s → limit hw.state hw e ≡ limit s hw e
limit_at hw e q = ap (λ x. limit x hw e) q

-- What the clock says of the current state.
elapsed_lem :
    (hw : HostWake) (start e gap : ℕ)
    → hw.since ≡ u32 start
    → e + gap < 2 ^ 32
    → sub32 (u32 (start + e + gap)) hw.since ≡ e + gap
elapsed_lem hw start e gap h b = omega arith

sent_lem :
    (hw : HostWake) (now : ℕ)
    → ((send_next hw now).0.ack_timeout_ticks ≡ hw.ack_timeout_ticks)
      × ((send_next hw now).0.since ≡ now)
unfolding transmit send_next take_next
sent_lem hw now = (ground arith, ground arith)

-- With the first copy of a frame, that frame's time begins.
left-send_next :
    (slack now : ℕ) (hw : HostWake)
    → hw.count ≤ 8
    → 1 ≤ hw.max_attempts
    → have_pending hw ≡ true
    → left_in slack (send_next hw now).0.state (send_next hw now).0 0
      ≡ waiting hw * frame_ticks slack hw
left-send_next slack now hw h m p =
    let hw' = (send_next hw now).0 in
    let (state, fewer, tries, once) = after-send_next hw now h p in
    let ack = (sent_lem hw now).0 in
    left_at hw' slack 0 state
    ∙ rw (once, tries, ack)
        (omega (
          arith,
          mul_less (waiting hw) (behind hw') (frame_ticks slack hw) fewer,
          mul_less hw.max_attempts (hw.max_attempts - 1) (hw.ack_timeout_ticks + slack)
              (omega arith),
        ))

closed_lem :
    (hw : HostWake) (g : Bool)
    → ((close_frame hw g).ack_timeout_ticks ≡ hw.ack_timeout_ticks)
      × ((close_frame hw g).since ≡ hw.since)
unfolding close_frame
closed_lem hw g = (ground arith, ground arith)

-- A first copy that goes out as the time before it is over.
Gone-send_next :
    (slack : ℕ) (hw old : HostWake) (start e gap : ℕ)
    → hw.count ≤ 8
    → 1 ≤ hw.max_attempts
    → have_pending hw ≡ true
    → waiting hw * frame_ticks slack hw + gap ≤ left_in slack old.state old e
    → Gone slack old (send_next hw (u32 (start + e + gap))).0 start e gap
Gone-send_next slack hw old start e gap c m p less =
    let now = u32 (start + e + gap) in
    let hw' = (send_next hw now).0 in
    let state = (after-send_next hw now c p).0 in
    let left = left-send_next slack now hw c m p in
    record {
      start' = start + e + gap;
      e' = 0;
      same_time = omega arith;
      timed = record {
        since_lem = (sent_lem hw now).1;
        in_time = let l = limit_at hw' 0 state in omega (arith, l);
      };
      less = omega (arith, left);
    }

-- A step that leaves the state and the last copy's time as they are.
Gone-same :
    (slack : ℕ) (hw hw' : HostWake) (start e gap : ℕ)
    → hw'.since ≡ u32 start
    → e + gap ≤ limit hw'.state hw' (e + gap)
    → left_in slack hw'.state hw' (e + gap) + gap ≤ left_in slack hw.state hw e
    → Gone slack hw hw' start e gap
Gone-same slack hw hw' start e gap since in_time less = record {
  start' = start;
  e' = e + gap;
  same_time = omega arith;
  timed = record { since_lem = since; in_time = in_time };
  less = less;
}

Gone-wait :
    (slack : ℕ) (hw : HostWake) (start e gap : ℕ) (s : State)
    → hw.state ≡ s
    → s ≢ idle
    → IsPaced hw slack
    → IsTimed hw start e
    → e + gap < wait_ticks s hw
    → Gone slack hw hw start e gap
Gone-wait slack hw start e gap idle q n k t d = absurd (n refl)
Gone-wait slack hw start e gap guard q n k t d =
    Gone-same slack hw hw start e gap t.since_lem (omega (arith, limit_at hw (e + gap) q, d))
      (omega (arith, left_at hw slack e q, left_at hw slack (e + gap) q, d))
Gone-wait slack hw start e gap wait_ack q n k t d =
    Gone-same slack hw hw start e gap t.since_lem (omega (arith, limit_at hw (e + gap) q, d))
      (omega (arith, left_at hw slack e q, left_at hw slack (e + gap) q, d))
Gone-wait slack hw start e gap quarantine q n k t d =
    let double : e + gap < 2 * hw.ack_timeout_ticks = omega (arith, k.short_ack, d) in
    Gone-same slack hw hw start e gap t.since_lem (omega (arith, limit_at hw (e + gap) q, double))
      (omega (arith, left_at hw slack e q, left_at hw slack (e + gap) q, double))

-- The outstanding frame is done with, and the line stays quiet for a while.
Gone-quarantine :
    (slack : ℕ) (hw : HostWake) (g : Bool) (start e gap : ℕ)
    → hw.state ≡ wait_ack
    → IsValid hw
    → IsPaced hw slack
    → IsTimed hw start e
    → gap ≤ slack
    → Gone slack hw (record (close_frame hw g) { state = quarantine }) start e gap
Gone-quarantine slack hw g start e gap s h k t b =
    let (fewer, tries, small) = waiting-close_frame hw g h s in
    let (ack, since) = closed_lem hw g in
    let i : e ≤ hw.ack_timeout_ticks = omega (arith, t.in_time, limit_at hw e s) in
    Gone-same slack hw (record (close_frame hw g) { state = quarantine }) start e gap
      (since ∙ t.since_lem) (omega (arith, ack, k.prompt))
      (rw (left_at hw slack e s, fewer, tries, ack) (omega (arith, k.prompt)))

-- Nothing is left, in a state that could have gone on.
Gone-idle :
    (slack : ℕ) (hw hw' : HostWake) (start e gap : ℕ)
    → hw'.state ≡ idle
    → have_pending hw' ≡ false
    → hw'.since ≡ u32 start
    → gap ≤ left_in slack hw.state hw e
    → Gone slack hw hw' start e gap
Gone-idle slack hw hw' start e gap s p since less =
    Gone-same slack hw hw' start e gap since (omega (arith, limit_at hw' (e + gap) s))
      (rw (left_at hw' slack (e + gap) s, p) (omega (arith, less)))

-- The current state has not gone on for too long to be told from the clock.
told :
    {hw : HostWake} {slack start e : ℕ} (gap : ℕ)
    → IsPaced hw slack
    → IsTimed hw start e
    → hw.state ≢ idle
    → gap ≤ slack
    → sub32 (u32 (start + e + gap)) hw.since ≡ e + gap
told {hw} {slack} {start} {e} gap k t n g =
    let i = t.in_time in
    let a = k.prompt in
    let b = k.short_guard in
    let c = k.short_ack in elapsed_lem hw start e gap t.since_lem (ground arith)

Gone-transmit :
    (slack : ℕ) (hw : HostWake) (start e gap : ℕ)
    → hw.state ≡ wait_ack
    → IsValid hw
    → IsTimed hw start e
    → gap ≤ slack
    → hw.attempts < hw.max_attempts
    → Gone slack hw (transmit hw (u32 (start + e + gap))).0 start e gap
unfolding transmit
Gone-transmit slack hw start e gap s h t g m =
    let once : u8 (hw.attempts + 1) ≡ hw.attempts + 1 = omega (arith, h.tries_byte) in
    let less =
      mul_less (hw.max_attempts - hw.attempts) (hw.max_attempts - (hw.attempts + 1))
        (hw.ack_timeout_ticks + slack) (omega arith) in
    record {
      start' = start + e + gap;
      e' = 0;
      same_time = omega arith;
      timed = record { since_lem = refl; in_time = omega arith };
      less = rw (left_at hw slack e s, once) (omega (arith, t.in_time, limit_at hw e s, less));
    }

pub Gone-Move :
    {hw : HostWake} {r : HostWake × Output} (slack start e gap : ℕ)
    → Move hw (u32 (start + e + gap)) r
    → IsValid hw
    → IsPaced hw slack
    → IsTimed hw start e
    → gap ≤ slack
    → is_quiet hw ≡ false
    → Gone slack hw r.0 start e gap
Gone-Move {hw} slack start e gap (rest s p q) h k t g b = absurd (unfold is_quiet in ground arith)
Gone-Move {hw} slack start e gap (wake s p q) h k t g b = rw q (record {
  start' = start + e + gap;
  e' = 0;
  same_time = omega arith;
  timed = record { since_lem = refl; in_time = omega arith };
  less = rw (left_at hw slack e s, p) (omega arith);
})
Gone-Move {hw} slack start e gap (wait s a d q) h k t g b =
    rw q (Gone-wait slack hw start e gap hw.state refl s k t (omega (arith, told gap k t s g, d)))
Gone-Move {hw} slack start e gap (first s d q) h k t g b = rw q (
    Gone-send_next slack hw hw start e gap h.count_in h.tries (h.guard_pending s)
      (rw (left_at hw slack e s) (omega (arith, t.in_time, limit_at hw e s))))
Gone-Move {hw} slack start e gap (resend s a d m q) h k t g b =
    rw q (Gone-transmit slack hw start e gap s h t g m)
Gone-Move {hw} slack start e gap (abandon s a d m q) h k t g b =
    rw q (Gone-quarantine slack hw true start e gap s h k t g)
Gone-Move {hw} slack start e gap (late s a m q) h k t g b =
    rw q (Gone-quarantine slack hw false start e gap s h k t g)
Gone-Move {hw} slack start e gap (follow s a m p q) h k t g b =
    let (fewer, tries, small) = waiting-close_frame hw false h s in
    let ack = (closed_lem hw false).0 in
    rw q (
      Gone-send_next slack (close_frame hw false) hw start e gap small
        (omega (arith, tries, h.tries)) p
        (rw (left_at hw slack e s, fewer, tries, ack)
          (omega (arith, t.in_time, limit_at hw e s, k.some_slack))))
Gone-Move {hw} slack start e gap (finish s a m p q) h k t g b = rw q (
    Gone-idle slack hw (record (close_frame hw false) { state = idle }) start e gap refl
      (pending_state (close_frame hw false) idle ∙ p) ((closed_lem hw false).1 ∙ t.since_lem)
      (rw (left_at hw slack e s) (omega (arith, t.in_time, limit_at hw e s))))
Gone-Move {hw} slack start e gap (resume s d p q) h k t g b = rw q (
    Gone-send_next slack hw hw start e gap h.count_in h.tries p
      (rw (left_at hw slack e s) (omega (arith, t.in_time, limit_at hw e s))))
Gone-Move {hw} slack start e gap (settle s d p q) h k t g b = rw q (
    Gone-idle slack hw (record hw { state = idle }) start e gap refl (pending_state hw idle ∙ p)
      t.since_lem (rw (left_at hw slack e s) (omega (arith, t.in_time, limit_at hw e s))))
