-- ===== src/HostWake/Invariant.antt =====
-- What holds of a `host_wake_t` between any two calls, from `HostWake_Init` on.
use open_controller.Prelude.{
  ℕ, ◌+◌, ◌%◌, ◌≤◌, ◌<◌, ◌≡◌, refl, ◌≢◌, Bool, true, false, arith, length, get_or, length-set,
  get_or-set_ne,
}
use open_controller.HostWake.{
  HostWake, Output, State, idle, guard, wait_ack, quarantine, init, enqueue, set_latest, on_ack,
  have_pending, transmit, take_next, send_next, close_frame, step, queue_size,
}
use open_controller.HostWake.Moves.{
  Move, rest, wake, wait, first, resend, abandon, late, follow, finish, resume, settle, step-Move,
}

pub record IsValid (hw : HostWake) : Type 0 where
  pub cmd_slots : length hw.cmd ≡ queue_size
  pub val_slots : length hw.val ≡ queue_size
  pub head_in : hw.head < queue_size
  pub count_in : hw.count ≤ queue_size
  pub tries : 1 ≤ hw.max_attempts
  pub tries_byte : hw.max_attempts < 256
  pub attempts_in : hw.attempts ≤ hw.max_attempts
  pub waiting : hw.state ≡ wait_ack → 1 ≤ hw.attempts
  pub ack_waits : hw.acked ≡ true → hw.state ≡ wait_ack
  pub latest_waits : hw.sending_latest ≡ true → hw.state ≡ wait_ack
  pub queue_waits : hw.state ≡ wait_ack → hw.sending_latest ≡ false → 0 < hw.count
  pub out_is_cmd :
      hw.state ≡ wait_ack → hw.sending_latest ≡ false → hw.out_cmd ≡ get_or hw.cmd hw.head 0
  pub out_is_val :
      hw.state ≡ wait_ack → hw.sending_latest ≡ false → hw.out_val ≡ get_or hw.val hw.head 0
  pub guard_pending : hw.state ≡ guard → have_pending hw ≡ true

pub init-IsValid : (g a m : ℕ) → m < 256 → IsValid (init g a m)
unfolding init have_pending
init-IsValid g a m h = ground arith

pub set_latest-IsValid : (hw : HostWake) (c v : ℕ) → IsValid hw → IsValid (set_latest hw c v)
unfolding set_latest have_pending
set_latest-IsValid hw c v h = ground arith

pub on_ack-IsValid : (hw : HostWake) → IsValid hw → IsValid (on_ack hw)
unfolding on_ack have_pending
on_ack-IsValid hw h = ground arith

-- The slot written is not the one at the head, unless the queue is empty.
slot-ne : (head count : ℕ) → head < 8 → count < 8 → 0 < count → (head + count) % 8 % 256 ≢ head
slot-ne head count h k p = omega arith

pub enqueue-IsValid : (hw : HostWake) (c v : ℕ) → IsValid hw → IsValid (enqueue hw c v).0
unfolding enqueue have_pending
enqueue-IsValid hw c v h =
    let slot = (hw.head + hw.count) % 8 % 256 in
    ground (
      arith,
      length-set hw.cmd slot c,
      length-set hw.val slot v,
      slot-ne hw.head hw.count,
      get_or-set_ne hw.cmd slot hw.head c 0,
      get_or-set_ne hw.val slot hw.head v 0,
    )

pub send_next-IsValid :
    (hw : HostWake) (now : ℕ)
    → IsValid hw
    → have_pending hw ≡ true
    → hw.sending_latest ≡ false
    → IsValid (send_next hw now).0
unfolding send_next take_next transmit have_pending
send_next-IsValid hw now h p s = ground arith

pub close_frame-IsValid :
    (hw : HostWake) (gave_up : Bool) (s : State)
    → IsValid hw
    → hw.state ≡ wait_ack
    → s ≢ wait_ack
    → s ≢ guard
    → IsValid (record (close_frame hw gave_up) { state = s })
unfolding close_frame have_pending
close_frame-IsValid hw g s h w i j = ground arith

pub transmit-IsValid :
    (hw : HostWake) (now : ℕ)
    → IsValid hw
    → hw.state ≡ wait_ack
    → hw.attempts < hw.max_attempts
    → IsValid (transmit hw now).0
unfolding transmit have_pending
transmit-IsValid hw now h w m = ground arith

-- `send_next` does not look at the state that it leaves.
pub send_next_state :
    (hw : HostWake) (s : State) (now : ℕ)
    → send_next (record hw { state = s }) now ≡ send_next hw now
unfolding send_next take_next transmit
send_next_state hw s now = ground arith

wake-IsValid :
    (hw : HostWake) (now : ℕ)
    → IsValid hw
    → have_pending hw ≡ true
    → hw.state ≡ idle
    → IsValid (record hw { state = guard; since = now })
unfolding have_pending
wake-IsValid hw now h p s = ground arith

settle-IsValid :
    (hw : HostWake) → IsValid hw → hw.state ≡ quarantine → IsValid (record hw { state = idle })
unfolding have_pending
settle-IsValid hw h s = ground arith

-- No frame is outstanding outside `wait_ack`.
pub not_sending : (hw : HostWake) → IsValid hw → hw.state ≢ wait_ack → hw.sending_latest ≡ false
not_sending hw h ne = ground arith

pub sending-close_frame : (hw : HostWake) (g : Bool) → (close_frame hw g).sending_latest ≡ false
unfolding close_frame
sending-close_frame hw g = refl

-- Every move of `HostWake_Step` keeps the invariant.
Move-IsValid :
    {hw : HostWake} {now : ℕ} {r : HostWake × Output} → Move hw now r → IsValid hw → IsValid r.0
Move-IsValid (rest s p e) h = rw e h
Move-IsValid {hw} {now} (wake s p e) h = rw e (wake-IsValid hw now h p s)
Move-IsValid (wait s a d e) h = rw e h
Move-IsValid {hw} {now} (first s d e) h =
    rw e (send_next-IsValid hw now h (h.guard_pending s) (not_sending hw h (ground arith)))
Move-IsValid {hw} {now} (resend s a d m e) h = rw e (transmit-IsValid hw now h s m)
Move-IsValid {hw} (abandon s a d m e) h =
    rw e (close_frame-IsValid hw true quarantine h s (cc) (cc))
Move-IsValid {hw} (late s a m e) h = rw e (close_frame-IsValid hw false quarantine h s (cc) (cc))
Move-IsValid {hw} {now} (follow s a m p e) h =
    rw (e, ← send_next_state _ quarantine now)
      (send_next-IsValid _ now (close_frame-IsValid hw false quarantine h s (cc) (cc))
        (unfold have_pending in p) (sending-close_frame hw false))
Move-IsValid {hw} (finish s a m p e) h = rw e (close_frame-IsValid hw false idle h s (cc) (cc))
Move-IsValid {hw} {now} (resume s d p e) h =
    rw e (send_next-IsValid hw now h p (not_sending hw h (ground arith)))
Move-IsValid {hw} (settle s d p e) h = rw e (settle-IsValid hw h s)

pub step-IsValid : (hw : HostWake) (now : ℕ) → IsValid hw → IsValid (step hw now).0
step-IsValid hw now = Move-IsValid (step-Move hw now)

-- The loss of an LED value has been taken up.
pub taken-IsValid : (hw : HostWake) → IsValid hw → IsValid (record hw { latest_lost = false })
unfolding have_pending
taken-IsValid hw h = ground arith
