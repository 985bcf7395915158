-- ===== src/HostWake/Drain.antt =====
-- Polled often enough, the machine gets rid of everything and drops CHWAKE.
use open_controller.Prelude.{
  ℕ, ◌+◌, ◌-◌, ◌*◌, ◌≤◌, ◌<◌, ◌≡◌, refl, ap, ◌∙◌, Bool, true, false, not, List, [], ◌∷◌, arith,
  sub32, flag, length, Bool-cases, inl, inr, if◌then◌else◌,
}
use open_controller.HostWake.{
  HostWake, Output, State, idle, guard, wait_ack, quarantine, have_pending, transmit, take_next,
  step_in, send_next, close_frame, step, is_quiet, on_ack,
}
use open_controller.HostWake.Invariant.{IsValid, on_ack-IsValid, step-IsValid}
use open_controller.HostWake.Moves.{
  Move, rest, wake, wait, first, resend, abandon, late, follow, finish, resume, settle, step-Move,
  wait_ticks,
}

-- The frames waiting when none is outstanding, and those behind the outstanding one.
abbrev pub waiting : HostWake → ℕ
waiting hw = hw.count + flag hw.latest_pending

abbrev pub behind : HostWake → ℕ
behind hw = waiting hw - flag (not hw.sending_latest)

-- A bound on the steps, each at the end of its wait, until nothing is left.
abbrev work_in : State → HostWake → ℕ
work_in idle hw = waiting hw * (hw.max_attempts + 2) + (if have_pending hw then 2 else 0)
work_in guard hw = waiting hw * (hw.max_attempts + 2) + 1
work_in wait_ack hw = behind hw * (hw.max_attempts + 2) + (hw.max_attempts - hw.attempts + 2)
work_in quarantine hw = waiting hw * (hw.max_attempts + 2) + 1

abbrev pub work : HostWake → ℕ
work hw = work_in hw.state hw

work_at : (hw : HostWake) (s : State) → hw.state ≡ s → work hw ≡ work_in s hw
work_at hw s e = ap (λ x. work_in x hw) e

-- The wait of the current state is over at tick `now`.
abbrev pub IsDue : HostWake → ℕ → Type 0
IsDue hw now = wait_ticks hw.state hw ≤ sub32 now hw.since

pub mul_less : (n m k : ℕ) → m + 1 ≡ n → m * k + k ≡ n * k
mul_less n m k e = rw (← e) (omega arith)

-- After the first copy of a frame, one less is left.
pub after-send_next :
    (hw : HostWake) (now : ℕ)
    → hw.count ≤ 8
    → have_pending hw ≡ true
    → let hw' = (send_next hw now).0 in
      (hw'.state ≡ wait_ack)
      × (behind hw' + 1 ≡ waiting hw)
      × (hw'.max_attempts ≡ hw.max_attempts)
      × (hw'.attempts ≡ 1)
unfolding transmit send_next take_next have_pending
after-send_next hw now h p = ground arith

work-send_next :
    (hw : HostWake) (now : ℕ)
    → hw.count ≤ 8
    → 1 ≤ hw.max_attempts
    → have_pending hw ≡ true
    → work (send_next hw now).0 + 1 ≡ waiting hw * (hw.max_attempts + 2)
work-send_next hw now h m p =
    let hw' = (send_next hw now).0 in
    let a = after-send_next hw now h p in
    rw (work_at hw' wait_ack a.0, a.2, a.3)
      (omega (arith, mul_less (waiting hw) (behind hw') (hw.max_attempts + 2) a.1))

-- The outstanding frame is gone, and those behind it are waiting.
pub waiting-close_frame :
    (hw : HostWake) (g : Bool)
    → IsValid hw
    → hw.state ≡ wait_ack
    → (waiting (close_frame hw g) ≡ behind hw)
      × ((close_frame hw g).max_attempts ≡ hw.max_attempts)
      × ((close_frame hw g).count ≤ 8)
unfolding close_frame
waiting-close_frame hw g h w = ground arith

work-close_frame :
    (hw : HostWake) (g : Bool)
    → IsValid hw
    → hw.state ≡ wait_ack
    → waiting (close_frame hw g) * ((close_frame hw g).max_attempts + 2) + 2 ≤ work hw
work-close_frame hw g h s =
    let c = waiting-close_frame hw g h s in rw (work_at hw wait_ack s, c.0, c.1) (omega arith)

work-resend :
    (hw : HostWake) (now : ℕ)
    → IsValid hw
    → hw.state ≡ wait_ack
    → hw.attempts < hw.max_attempts
    → work (transmit hw now).0 < work hw
unfolding transmit
work-resend hw now h s m = rw (work_at hw wait_ack s) (ground arith)

nothing_waiting : (hw : HostWake) → have_pending hw ≡ false → waiting hw ≡ 0
unfolding have_pending
nothing_waiting hw p = ground arith

pub pending_state :
    (hw : HostWake) (s : State) → have_pending (record hw { state = s }) ≡ have_pending hw
unfolding have_pending
pending_state hw s = refl

work-Move :
    {hw : HostWake} {now : ℕ} {r : HostWake × Output}
    → Move hw now r
    → IsValid hw
    → IsDue hw now
    → is_quiet hw ≡ false
    → work r.0 < work hw
work-Move (rest s p e) h d n = absurd (unfold is_quiet in ground arith)
work-Move {hw} (wake s p e) h d n = rw (e, work_at hw idle s) (rw p (omega arith))
work-Move (wait s a t e) h d n = absurd (omega arith)
work-Move {hw} {now} (first s t e) h d n =
    rw (e, work_at hw guard s)
      (omega (arith, work-send_next hw now h.count_in h.tries (h.guard_pending s)))
work-Move {hw} {now} (resend s a t m e) h d n = rw e (work-resend hw now h s m)
work-Move {hw} (abandon s a t m e) h d n = rw e (omega (arith, work-close_frame hw true h s))
work-Move {hw} (late s a m e) h d n = rw e (omega (arith, work-close_frame hw false h s))
work-Move {hw} {now} (follow s a m p e) h d n =
    let closed = close_frame hw false in
    let c = waiting-close_frame hw false h s in
    rw e (
      omega (
        arith,
        work-close_frame hw false h s,
        work-send_next closed now c.2 (omega (arith, c.1, h.tries)) p,
      ))
work-Move {hw} (finish s a m p e) h d n =
    rw (e, pending_state (close_frame hw false) idle, p)
      (omega (arith, work-close_frame hw false h s))
work-Move {hw} {now} (resume s t p e) h d n =
    rw (e, work_at hw quarantine s) (omega (arith, work-send_next hw now h.count_in h.tries p))
work-Move {hw} (settle s t p e) h d n =
    rw (e, work_at hw quarantine s) (rw (pending_state hw idle, p) (omega arith))

-- A pass of the main loop: whether an ACK has come since the last one, and the tick it reads.
abbrev pub Pass : Type 0
Pass = Bool × ℕ

abbrev pub heard : HostWake → Bool → HostWake
heard hw acked = if acked then on_ack hw else hw

-- Each pass comes when the wait of the state that it finds is over.
abbrev pub AllDue : HostWake → List Pass → Type 0
AllDue hw [] = Unit {0}
AllDue hw ((acked, now) ∷ l) = IsDue hw now × AllDue (step (heard hw acked) now).0 l

unfoldable pub passes : HostWake → List Pass → HostWake
passes hw [] = hw
passes hw ((acked, now) ∷ l) = passes (step (heard hw acked) now).0 l

heard_lem :
    (hw : HostWake) (acked : Bool)
    → (work (heard hw acked) ≡ work hw)
      × (is_quiet (heard hw acked) ≡ is_quiet hw)
      × ((now : ℕ) → IsDue hw now → IsDue (heard hw acked) now)
heard_lem hw true = (
  unfold on_ack in ground arith,
  unfold on_ack is_quiet have_pending in ground arith,
  λ now d. unfold on_ack in ground arith,
)
heard_lem hw false = (refl, refl, λ now d. d)

pub heard-IsValid : (hw : HostWake) (acked : Bool) → IsValid hw → IsValid (heard hw acked)
heard-IsValid hw true h = on_ack-IsValid hw h
heard-IsValid hw false h = h

pub quiet-step : (hw : HostWake) (now : ℕ) → is_quiet hw ≡ true → (step hw now).0 ≡ hw
unfolding is_quiet have_pending step step_in
quiet-step hw now q = ground arith

quiet-passes : (hw : HostWake) (l : List Pass) → is_quiet hw ≡ true → is_quiet (passes hw l) ≡ true
unfolding passes
quiet-passes hw [] q = q
quiet-passes hw ((acked, now) ∷ l) q =
    let q' = (heard_lem hw acked).1 ∙ q in
    quiet-passes (step (heard hw acked) now).0 l
      (ap is_quiet (quiet-step (heard hw acked) now q') ∙ q')

quiet_at : (s : State) (hw : HostWake) → hw.state ≡ s → work_in s hw ≤ 0 → is_quiet hw ≡ true
unfolding is_quiet have_pending
quiet_at idle hw e w = ground arith
quiet_at guard hw e w = absurd (omega arith)
quiet_at wait_ack hw e w = absurd (omega arith)
quiet_at quarantine hw e w = absurd (omega arith)

quiet_within :
    (hw : HostWake) (l : List Pass)
    → IsValid hw
    → AllDue hw l
    → work hw ≤ length l
    → is_quiet (passes hw l) ≡ true
unfolding passes
quiet_within hw [] h d w = quiet_at hw.state hw refl w
quiet_within hw ((acked, now) ∷ l) h d w = elim (Bool-cases (is_quiet hw)) [
  | inl q ↦ quiet-passes hw ((acked, now) ∷ l) q
  | inr busy ↦
      let hw' = heard hw acked in
      let same = heard_lem hw acked in
      let h' = heard-IsValid hw acked h in
      let less = work-Move (step-Move hw' now) h' (same.2 now d.0) (same.1 ∙ busy) in
      quiet_within (step hw' now).0 l (step-IsValid hw' now h') d.1 (omega (arith, same.0))
]

pub mul_mono : (n m k : ℕ) → n ≤ m → n * k ≤ m * k
mul_mono n m k h = grind arith

work_in-le : (s : State) (hw : HostWake) → IsValid hw → work_in s hw ≤ 10 * (hw.max_attempts + 2)
work_in-le idle hw h = ground (arith, mul_mono (waiting hw) 9 (hw.max_attempts + 2))
work_in-le guard hw h = ground (arith, mul_mono (waiting hw) 9 (hw.max_attempts + 2))
work_in-le wait_ack hw h = ground (arith, mul_mono (behind hw) 9 (hw.max_attempts + 2))
work_in-le quarantine hw h = ground (arith, mul_mono (waiting hw) 9 (hw.max_attempts + 2))

-- From a valid state with no new frame handed over, main-loop passes that each come once the
-- current wait is over leave nothing queued, pending or outstanding, with CHWAKE low, after
-- `max_attempts + 2` passes for each of the ten frames that there can be, whatever ACKs come.
pub drains :
    (hw : HostWake) (l : List Pass)
    → IsValid hw
    → AllDue hw l
    → 10 * (hw.max_attempts + 2) ≤ length l
    → is_quiet (passes hw l) ≡ true
drains hw l h d n = quiet_within hw l h d (omega (arith, work_in-le hw.state hw h))
