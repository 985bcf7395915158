-- ===== src/HostWake/Bound.antt =====
-- A bound in ticks on how long host_wake.c holds anything, and the one that keyboard_uart.h promises.
use open_controller.Prelude.{
  ℕ, ◌+◌, ◌-◌, ◌*◌, ◌≤◌, ◌≡◌, refl, sym, ap, ◌∙◌, Bool, true, false, List, [], ◌∷◌, arith, u32,
  Bool-cases, inl, inr, if◌then◌else◌,
}
use open_controller.HostWake.{
  HostWake, State, idle, guard, wait_ack, quarantine, have_pending, transmit, take_next, step_in,
  send_next, close_frame, retire, step, is_quiet, on_ack, is_wait_ack,
}
use open_controller.HostWake.Invariant.{IsValid, step-IsValid}
use open_controller.HostWake.Drain.{
  waiting, behind, heard, mul_less, mul_mono, heard-IsValid, quiet-step,
}
use open_controller.HostWake.Moves.{step-Move}
use open_controller.HostWake.Timing.{IsPaced, IsTimed, Gone-Move, left_in, limit, frame_ticks}

-- A pass of the loop: whether an ACK has come before it, and the ticks since the pass before.
abbrev pub Visit : Type 0
Visit = Bool × ℕ

-- Every pass comes within so many ticks of the one before.
unfoldable pub AreNear : ℕ → List Visit → Type 0
AreNear slack [] = record {}
AreNear slack ((acked, gap) ∷ l) = (gap ≤ slack) × AreNear slack l

unfoldable pub total : List Visit → ℕ
total [] = 0
total ((acked, gap) ∷ l) = gap + total l

-- The passes from a true time on; the clock has 32 bits.
unfoldable pub visits : HostWake → ℕ → List Visit → HostWake
visits hw t [] = hw
visits hw t ((acked, gap) ∷ l) = visits (step (heard hw acked) (u32 (t + gap))).0 (t + gap) l

step-IsPaced : (slack now : ℕ) (hw : HostWake) → IsPaced hw slack → IsPaced (step hw now).0 slack
unfolding step step_in retire close_frame send_next take_next transmit
step-IsPaced slack now hw k = ground arith

heard-IsPaced :
    (slack : ℕ) (hw : HostWake) (acked : Bool) → IsPaced hw slack → IsPaced (heard hw acked) slack
unfolding on_ack
heard-IsPaced slack hw acked k = ground arith

-- An ACK that has been heard changes no time.
left_acked :
    (slack e : ℕ) (s : State) (hw : HostWake)
    → left_in slack s (record hw { acked = true }) e ≡ left_in slack s hw e
unfolding have_pending
left_acked slack e idle hw = refl
left_acked slack e guard hw = refl
left_acked slack e wait_ack hw = refl
left_acked slack e quarantine hw = refl

limit_acked :
    (e : ℕ) (s : State) (hw : HostWake) → limit s (record hw { acked = true }) e ≡ limit s hw e
limit_acked e idle hw = refl
limit_acked e guard hw = refl
limit_acked e wait_ack hw = refl
limit_acked e quarantine hw = refl

-- What hearing an ACK leaves.
record IsSame (slack start e : ℕ) (hw hw' : HostWake) : Type 0 where
  timed : IsTimed hw' start e
  left : left_in slack hw'.state hw' e ≡ left_in slack hw.state hw e
  quiet : is_quiet hw' ≡ is_quiet hw

noted-IsSame :
    (slack start e : ℕ) (hw : HostWake) (b : Bool)
    → IsTimed hw start e
    → IsSame slack start e hw (if b then record hw { acked = true } else hw)
unfolding is_quiet have_pending
noted-IsSame slack start e hw true t = record {
  timed = record {
    since_lem = t.since_lem;
    in_time = omega (arith, t.in_time, limit_acked e hw.state hw);
  };
  left = left_acked slack e hw.state hw;
  quiet = refl;
}
noted-IsSame slack start e hw false t = record { timed = t; left = refl; quiet = refl }

heard-IsSame :
    (slack start e : ℕ) (hw : HostWake) (acked : Bool)
    → IsTimed hw start e
    → IsSame slack start e hw (heard hw acked)
unfolding on_ack
heard-IsSame slack start e hw true t = noted-IsSame slack start e hw (is_wait_ack hw.state) t
heard-IsSame slack start e hw false t = record { timed = t; left = refl; quiet = refl }

quiet-heard : (hw : HostWake) (acked : Bool) → is_quiet (heard hw acked) ≡ is_quiet hw
unfolding on_ack is_quiet have_pending
quiet-heard hw acked = ground arith

quiet-visits :
    (hw : HostWake) (t : ℕ) (l : List Visit) → is_quiet hw ≡ true → is_quiet (visits hw t l) ≡ true
unfolding visits
quiet-visits hw t [] q = q
quiet-visits hw t ((acked, gap) ∷ l) q =
    let q' = quiet-heard hw acked ∙ q in
    quiet-visits (step (heard hw acked) (u32 (t + gap))).0 (t + gap) l
      (ap is_quiet (quiet-step (heard hw acked) (u32 (t + gap)) q') ∙ q')

-- With no tick left, nothing is left to do.
quiet_at :
    (slack e : ℕ) (s : State) (hw : HostWake)
    → hw.state ≡ s
    → IsPaced hw slack
    → e ≤ limit s hw e
    → left_in slack s hw e ≤ 0
    → is_quiet hw ≡ true
unfolding is_quiet have_pending
quiet_at slack e idle hw q k i w = let a = k.some_slack in ground arith
quiet_at slack e guard hw q k i w = absurd (omega (arith, k.some_slack))
quiet_at slack e wait_ack hw q k i w = absurd (omega (arith, k.some_slack))
quiet_at slack e quarantine hw q k i w = absurd (omega (arith, k.some_slack))

quiet_within :
    (slack start e : ℕ) (hw : HostWake) (l : List Visit)
    → IsValid hw
    → IsPaced hw slack
    → IsTimed hw start e
    → AreNear slack l
    → left_in slack hw.state hw e ≤ total l
    → is_quiet (visits hw (start + e) l) ≡ true
unfolding visits AreNear total
quiet_within slack start e hw [] h k t n w = quiet_at slack e hw.state hw refl k t.in_time w
quiet_within slack start e hw ((acked, gap) ∷ l) h k t n w = elim (Bool-cases (is_quiet hw)) [
  | inl q ↦ quiet-visits hw (start + e) ((acked, gap) ∷ l) q
  | inr busy ↦
      let hw' = heard hw acked in
      let same = heard-IsSame slack start e hw acked t in
      let h' = heard-IsValid hw acked h in
      let k' = heard-IsPaced slack hw acked k in
      let now = u32 (start + e + gap) in
      let g =
        Gone-Move slack start e gap (step-Move hw' now) h' k' same.timed n.0 (same.quiet ∙ busy) in
      let next = (step hw' now).0 in
      ap (λ t. is_quiet (visits next t l)) (sym g.same_time)
      ∙ quiet_within slack g.start' g.e' next l (step-IsValid hw' now h')
          (step-IsPaced slack now hw' k') g.timed n.1 (omega (arith, g.less, same.left, w))
]

-- The outstanding frame's own time and that of the frames behind it, with the queue full.
left-bound :
    (slack e : ℕ) (s : State) (hw : HostWake)
    → hw.state ≡ s
    → IsValid hw
    → left_in slack s hw e ≤ hw.guard_ticks + 2 * slack + 10 * frame_ticks slack hw
left-bound slack e idle hw q h =
    let c = h.count_in in
    let most = mul_mono (waiting hw) 9 (frame_ticks slack hw) (ground arith) in
    elim (Bool-cases (have_pending hw)) [
      | inl p ↦ rw p (omega (arith, most))
      | inr p ↦ rw p (omega arith)
    ]
left-bound slack e guard hw q h =
    let c = h.count_in in
    let most = mul_mono (waiting hw) 9 (frame_ticks slack hw) (ground arith) in omega (arith, most)
left-bound slack e wait_ack hw q h =
    let c = h.count_in in
    let w = h.queue_waits q in
    let most = mul_mono (behind hw) 9 (frame_ticks slack hw) (ground arith) in
    let tries =
      mul_mono (hw.max_attempts - hw.attempts + 1) hw.max_attempts (hw.ack_timeout_ticks + slack)
        (omega (arith, h.waiting q, h.attempts_in)) in
    omega (
      arith,
      most,
      tries,
      mul_less (hw.max_attempts - hw.attempts + 1) (hw.max_attempts - hw.attempts)
          (hw.ack_timeout_ticks + slack) refl,
    )
left-bound slack e quarantine hw q h =
    let c = h.count_in in
    let most = mul_mono (waiting hw) 9 (frame_ticks slack hw) (ground arith) in
    let tries = mul_mono 1 hw.max_attempts (hw.ack_timeout_ticks + slack) h.tries in
    omega (arith, most, tries)

-- From a valid state that has not outlasted its wait, with no new frame handed over: passes of the
-- loop that each come within `slack` ticks of the one before, `slack` no longer than the ACK timeout,
-- leave nothing queued, pending or outstanding, with CHWAKE to go low, once they make up the guard time
-- and, for each of the ten frames that there can be, `max_attempts + 1` ACK timeouts and `slack` ticks
-- for each attempt, whatever ACKs come.
pub drains_within :
    (slack start e : ℕ) (hw : HostWake) (l : List Visit)
    → IsValid hw
    → IsPaced hw slack
    → IsTimed hw start e
    → AreNear slack l
    → hw.guard_ticks + 2 * slack + 10 * frame_ticks slack hw ≤ total l
    → is_quiet (visits hw (start + e) l) ≡ true
drains_within slack start e hw l h k t n w =
    quiet_within slack start e hw l h k t n
      (omega (arith, left-bound slack e hw.state hw refl h, w))
