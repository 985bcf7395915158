-- ===== src/HostWake/Latest.antt =====
-- The latest-value slot of host_wake.c: what becomes of the value last put there.
use open_controller.Prelude.{ℕ, ◌≡◌, true, false, ◌&&◌, Option, some, arith, if◌then◌else◌}
use open_controller.HostWake.{
  HostWake, Output, is_wait_ack, enqueue, set_latest, on_ack, have_pending, transmit, take_next,
  send_next, close_frame, step,
}
use open_controller.HostWake.Invariant.{IsValid}
use open_controller.HostWake.Moves.{
  Move, rest, wake, wait, first, resend, abandon, late, follow, finish, resume, settle, step-Move,
}

-- The value that the host has last ACKed, of the frames from the slot, behind a step.
unfoldable pub shown_after : HostWake → Option ℕ → Option ℕ
shown_after hw shown =
    if is_wait_ack hw.state && hw.acked && hw.sending_latest then some hw.out_val else shown

-- The value `v` waits in the slot, is on the wire, has been given up, or is what the host has.
pub record IsHeld (hw : HostWake) (shown : Option ℕ) (v : ℕ) : Type 0 where
  pub waits : hw.latest_pending ≡ true → hw.latest_val ≡ v
  pub sent : hw.latest_pending ≡ false → hw.sending_latest ≡ true → hw.out_val ≡ v
  pub shown_lem :
      hw.latest_pending ≡ false
      → hw.sending_latest ≡ false
      → hw.latest_lost ≡ false
      → shown ≡ some v

IsHeld-Move :
    {hw : HostWake} {now : ℕ} {r : HostWake × Output} {shown : Option ℕ} {v : ℕ}
    → Move hw now r
    → IsValid hw
    → IsHeld hw shown v
    → IsHeld r.0 (shown_after hw shown) v
unfolding transmit send_next take_next close_frame have_pending shown_after
IsHeld-Move (rest s p e) h k = ground arith
IsHeld-Move (wake s p e) h k = ground arith
IsHeld-Move (wait s a d e) h k = ground arith
IsHeld-Move (first s d e) h k = ground arith
IsHeld-Move (resend s a d m e) h k = ground arith
IsHeld-Move (abandon s a d m e) h k = ground arith
IsHeld-Move (late s a m e) h k = ground arith
IsHeld-Move (follow s a m p e) h k = ground arith
IsHeld-Move (finish s a m p e) h k = ground arith
IsHeld-Move (resume s d p e) h k = ground arith
IsHeld-Move (settle s d p e) h k = ground arith

pub step-IsHeld :
    (hw : HostWake) (now : ℕ) (shown : Option ℕ) (v : ℕ)
    → IsValid hw
    → IsHeld hw shown v
    → IsHeld (step hw now).0 (shown_after hw shown) v
step-IsHeld hw now shown v h k = IsHeld-Move (step-Move hw now) h k

pub enqueue-IsHeld :
    (hw : HostWake) (cmd val : ℕ) (shown : Option ℕ) (v : ℕ)
    → IsHeld hw shown v
    → IsHeld (enqueue hw cmd val).0 shown v
unfolding enqueue
enqueue-IsHeld hw cmd val shown v k = ground arith

pub set_latest-IsHeld :
    (hw : HostWake) (cmd v : ℕ) (shown : Option ℕ) → IsHeld (set_latest hw cmd v) shown v
unfolding set_latest
set_latest-IsHeld hw cmd v shown = ground arith

pub on_ack-IsHeld :
    (hw : HostWake) (shown : Option ℕ) (v : ℕ) → IsHeld hw shown v → IsHeld (on_ack hw) shown v
unfolding on_ack
on_ack-IsHeld hw shown v k = ground arith
