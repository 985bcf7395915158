-- ===== src/HostWake/Moves.antt =====
-- The branches of `HostWake_Step` as a relation: when each is taken, and what it does.
use open_controller.Prelude.{
  ℕ, ◌*◌, ◌≤◌, ◌<◌, ◌≡◌, refl, ◌≢◌, Bool, true, false, arith, sub32, u32, ◌||◌, Bool-cases, inl,
  inr, ltb, leb,
}
use open_controller.HostWake.{
  HostWake, Output, State, idle, guard, wait_ack, quarantine, hold, release, have_pending, transmit,
  send_next, close_frame, retire, step_in, step,
}

-- How many ticks a state waits.
abbrev pub wait_ticks : State → HostWake → ℕ
wait_ticks idle hw = 0
wait_ticks guard hw = hw.guard_ticks
wait_ticks wait_ack hw = hw.ack_timeout_ticks
wait_ticks quarantine hw = u32 (2 * hw.ack_timeout_ticks)

-- `r` is what a step at tick `now` makes of `hw`.
pub data Move (hw : HostWake) (now : ℕ) (r : HostWake × Output) : Type 0 where
  rest : hw.state ≡ idle → have_pending hw ≡ false → r ≡ (hw, release) → Move hw now r
  wake :
      hw.state ≡ idle
      → have_pending hw ≡ true
      → r ≡ (record hw { state = guard; since = now }, hold)
      → Move hw now r
  wait :
      hw.state ≢ idle
      → (hw.acked ≡ true → hw.state ≢ wait_ack)
      → sub32 now hw.since < wait_ticks hw.state hw
      → r ≡ (hw, hold)
      → Move hw now r
  first :
      hw.state ≡ guard → hw.guard_ticks ≤ sub32 now hw.since → r ≡ send_next hw now → Move hw now r
  resend :
      hw.state ≡ wait_ack
      → hw.acked ≡ false
      → hw.ack_timeout_ticks ≤ sub32 now hw.since
      → hw.attempts < hw.max_attempts
      → r ≡ transmit hw now
      → Move hw now r
  abandon :
      hw.state ≡ wait_ack
      → hw.acked ≡ false
      → hw.ack_timeout_ticks ≤ sub32 now hw.since
      → hw.max_attempts ≤ hw.attempts
      → r ≡ (record (close_frame hw true) { state = quarantine }, hold)
      → Move hw now r
  late :
      hw.state ≡ wait_ack
      → hw.acked ≡ true
      → 1 < hw.attempts
      → r ≡ (record (close_frame hw false) { state = quarantine }, hold)
      → Move hw now r
  follow :
      hw.state ≡ wait_ack
      → hw.acked ≡ true
      → hw.attempts ≤ 1
      → have_pending (close_frame hw false) ≡ true
      → r ≡ send_next (close_frame hw false) now
      → Move hw now r
  finish :
      hw.state ≡ wait_ack
      → hw.acked ≡ true
      → hw.attempts ≤ 1
      → have_pending (close_frame hw false) ≡ false
      → r ≡ (record (close_frame hw false) { state = idle }, release)
      → Move hw now r
  resume :
      hw.state ≡ quarantine
      → u32 (2 * hw.ack_timeout_ticks) ≤ sub32 now hw.since
      → have_pending hw ≡ true
      → r ≡ send_next hw now
      → Move hw now r
  settle :
      hw.state ≡ quarantine
      → u32 (2 * hw.ack_timeout_ticks) ≤ sub32 now hw.since
      → have_pending hw ≡ false
      → r ≡ (record hw { state = idle }, release)
      → Move hw now r

or_true : (b : Bool) → (b || true) ≡ true
or_true true = refl
or_true false = refl

retire_quarantine :
    (hw : HostWake) (now : ℕ) (g : Bool)
    → (ltb 1 hw.attempts || g) ≡ true
    → retire hw now g ≡ (record (close_frame hw g) { state = quarantine }, hold)
unfolding retire
retire_quarantine hw now g resent = rw resent

retire_next :
    (hw : HostWake) (now : ℕ)
    → (ltb 1 hw.attempts || false) ≡ false
    → have_pending (close_frame hw false) ≡ true
    → retire hw now false ≡ send_next (close_frame hw false) now
unfolding retire
retire_next hw now once p = rw (once, p)

retire_last :
    (hw : HostWake) (now : ℕ)
    → (ltb 1 hw.attempts || false) ≡ false
    → have_pending (close_frame hw false) ≡ false
    → retire hw now false ≡ (record (close_frame hw false) { state = idle }, release)
unfolding retire
retire_last hw now once p = rw (once, p)

step_in-Move : (s : State) (hw : HostWake) (now : ℕ) → hw.state ≡ s → Move hw now (step_in s hw now)
step_in-Move idle hw now e = elim (Bool-cases (have_pending hw)) [
  | inl p ↦ wake e p (unfold step_in in rw p)
  | inr p ↦ rest e p (unfold step_in in rw p)
]
step_in-Move guard hw now e = elim (Bool-cases (ltb (sub32 now hw.since) hw.guard_ticks)) [
  | inl early ↦ wait (ground arith) (ground arith) (ground arith) (unfold step_in in rw early)
  | inr due ↦ first e (ground arith) (unfold step_in in rw due)
]
step_in-Move wait_ack hw now e = elim (Bool-cases hw.acked) [
  | inl acked ↦ elim (Bool-cases (ltb 1 hw.attempts || false)) [
    | inl more ↦
        late e acked (ground arith)
          (unfold step_in in simp acked (retire_quarantine hw now false more))
    | inr once ↦ elim (Bool-cases (have_pending (close_frame hw false))) [
      | inl p ↦
          follow e acked (ground arith) p (unfold step_in in simp acked (retire_next hw now once p))
      | inr p ↦
          finish e acked (ground arith) p (unfold step_in in simp acked (retire_last hw now once p))
    ]
  ]
  | inr silent ↦ elim (Bool-cases (ltb (sub32 now hw.since) hw.ack_timeout_ticks)) [
    | inl early ↦
        wait (ground arith) (ground arith) (ground arith) (unfold step_in in rw (silent, early))
    | inr due ↦ elim (Bool-cases (leb hw.max_attempts hw.attempts)) [
      | inl spent ↦
          abandon e silent (ground arith) (ground arith) (
            unfold step_in in simp (silent, due, spent) (retire_quarantine hw now true (or_true _)))
      | inr left ↦
          resend e silent (ground arith) (ground arith) (unfold step_in in simp (silent, due, left))
    ]
  ]
]
step_in-Move quarantine hw now e =
    elim (Bool-cases (ltb (sub32 now hw.since) (u32 (2 * hw.ack_timeout_ticks)))) [
      | inl early ↦ wait (ground arith) (ground arith) (ground arith) (unfold step_in in rw early)
      | inr due ↦ elim (Bool-cases (have_pending hw)) [
        | inl p ↦ resume e (ground arith) p (unfold step_in in rw (due, p))
        | inr p ↦ settle e (ground arith) p (unfold step_in in rw (due, p))
      ]
    ]

pub step-Move : (hw : HostWake) (now : ℕ) → Move hw now (step hw now)
step-Move hw now = unfold step in step_in-Move hw.state hw now refl
