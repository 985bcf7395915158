-- ===== src/HostWake/Queue.antt =====
-- The queue of a `host_wake_t` as the list of its frames, oldest first.
use open_controller.Prelude.{
  ℕ, zero, suc, ◌+◌, ◌-◌, ◌%◌, ◌<◌, ◌≡◌, refl, sym, ap, ap₂, ◌∙◌, ◌≢◌, Bool, true, false, not, ◌&&◌,
  ◌||◌, List, [], ◌∷◌, ◌++◌, append-nil, append_assoc, arith, if◌then◌else◌, leb, sub32, length,
  get_or, set, get_or-set_self, get_or-set_ne, Bool-cases, inl, inr,
}
use open_controller.HostWake.{
  HostWake, Output, wait_ack, enqueue, set_latest, on_ack, transmit, take_next, send_next,
  close_frame, is_wait_ack,
}
use open_controller.HostWake.Invariant.{IsValid}
use open_controller.HostWake.Moves.{
  Move, rest, wake, wait, first, resend, abandon, late, follow, finish, resume, settle, step-Move,
}
use open_controller.HostWake.Trace.{
  Frame, Event, offer, set_led, ack, poll, apply, run, apply-IsValid,
}

module _ (cmd val : List ℕ) where
  -- The frame in slot `i`, counted round the ring.
  abbrev pub slot : ℕ → Frame
  slot i = (get_or cmd (i % 8) 0, get_or val (i % 8) 0)

  -- The frames of `n` slots from `i` on.
  abbrev pub slots : ℕ → ℕ → List Frame
  slots i zero = []
  slots i (suc n) = slot i ∷ slots (i + 1) n

  pub length-slots : (i n : ℕ) → length (slots i n) ≡ n
  length-slots i zero = refl
  length-slots i (suc n) = ap suc (length-slots (i + 1) n)

  slots_mod : (i j n : ℕ) → i % 8 ≡ j % 8 → slots i n ≡ slots j n
  slots_mod i j zero e = refl
  slots_mod i j (suc n) e =
      ap₂ ◌∷◌ (ap (λ k. (get_or cmd k 0, get_or val k 0)) e)
        (slots_mod (i + 1) (j + 1) n (omega arith))

  -- The first of the frames comes off as `retire` moves the head.
  slots_pop :
      (i n : ℕ)
      → 0 < n
      → n < 256
      → slots i n ≡ slot i ∷ slots ((i + 1) % 8 % 256) ((n + 256 - 1) % 256)
  slots_pop i zero p q = absurd (omega arith)
  slots_pop i (suc m) p q =
      ap (◌∷◌ (slot i)) (slots_mod (i + 1) _ m (omega arith) ∙ ap (slots _) (omega arith))

mod_small : (i : ℕ) → i < 8 → i % 8 ≡ i
mod_small i h = omega arith

-- The frames queued, the outstanding one included while it is the queue's.
abbrev pub contents : HostWake → List Frame
contents hw = slots hw.cmd hw.val hw.head hw.count

module _ (cmd val : List ℕ) (c v j : ℕ) (lc : length cmd ≡ 8) (lv : length val ≡ 8) where
  slot-set_self : (i : ℕ) → i % 8 ≡ j → slot (set cmd j c) (set val j v) i ≡ (c, v)
  slot-set_self i e = rw e (
      ap₂ (λ (a b : ℕ). (a, b)) (get_or-set_self cmd j c 0 (omega arith))
        (get_or-set_self val j v 0 (omega arith)))

  slot-set_ne : (i : ℕ) → i % 8 ≢ j → slot (set cmd j c) (set val j v) i ≡ slot cmd val i
  slot-set_ne i ne =
      ap₂ (λ (a b : ℕ). (a, b)) (get_or-set_ne cmd j (i % 8) c 0 (λ e. ne (sym e)))
        (get_or-set_ne val j (i % 8) v 0 (λ e. ne (sym e)))

  -- Writing the slot behind `n` others adds its frame at the end.
  slots-set :
      (i n : ℕ)
      → n < 8
      → (i + n) % 8 ≡ j
      → slots (set cmd j c) (set val j v) i (suc n) ≡ slots cmd val i n ++ ((c, v) ∷ [])
  slots-set i zero h e = ap (λ (f : Frame). f ∷ []) (slot-set_self i (omega arith))
  slots-set i (suc n) h e =
      ap₂ ◌∷◌ (slot-set_ne i (omega arith)) (slots-set (i + 1) n (omega arith) (omega arith))

-- What a call of `HostWake_Enqueue` adds to the queue.
abbrev pub accepted : HostWake → Event → List Frame
accepted hw (offer c v) = if (enqueue hw c v).1 then (c, v) ∷ [] else []
accepted hw _ = []

-- The outstanding frame is given up, or its ACK has come.
pub is_done : HostWake → ℕ → Bool
is_done hw now =
    hw.acked || leb hw.ack_timeout_ticks (sub32 now hw.since) && leb hw.max_attempts hw.attempts

-- The queued frame that an event retires: always the outstanding one.
abbrev pub finished : HostWake → Event → List Frame
finished hw (poll now) =
    if is_wait_ack hw.state && not hw.sending_latest && is_done hw now
    then (hw.out_cmd, hw.out_val) ∷ []
    else []
finished hw _ = []

contents-enqueue :
    (hw : HostWake) (c v : ℕ)
    → IsValid hw
    → contents (enqueue hw c v).0 ≡ contents hw ++ accepted hw (offer c v)
unfolding enqueue
contents-enqueue hw c v h = elim (Bool-cases (leb 8 hw.count)) [
  | inl full ↦ rw full (sym (append-nil _))
  | inr room ↦ rw room (
      ap (slots _ _ hw.head) {y = suc hw.count} (omega arith)
      ∙ slots-set hw.cmd hw.val c v _ h.cmd_slots h.val_slots hw.head hw.count (ground arith)
          (omega arith))
]

-- A new frame on the wire leaves the queue as it was.
contents-send_next : (hw : HostWake) (now : ℕ) → contents (send_next hw now).0 ≡ contents hw
unfolding send_next take_next transmit
contents-send_next hw now = ground arith

contents-close_frame :
    (hw : HostWake) (g : Bool)
    → IsValid hw
    → hw.state ≡ wait_ack
    → contents hw
      ≡ (if hw.sending_latest then [] else (hw.out_cmd, hw.out_val) ∷ [])
        ++ contents (close_frame hw g)
unfolding close_frame
contents-close_frame hw g h w =
    ground (arith, slots_pop hw.cmd hw.val hw.head hw.count, mod_small hw.head)

-- One step makes no frame of the queue but the outstanding one disappear, and adds none.
contents-Move :
    {hw : HostWake} {now : ℕ} {r : HostWake × Output}
    → Move hw now r
    → IsValid hw
    → contents hw ≡ finished hw (poll now) ++ contents r.0
unfolding is_done
contents-Move {hw} {now} (rest s p e) h = rw e (ground arith)
contents-Move {hw} {now} (wake s p e) h = rw e (ground arith)
contents-Move {hw} {now} (wait s a d e) h = rw e (ground arith)
contents-Move {hw} {now} (first s d e) h = rw e (ground (arith, contents-send_next hw now))
contents-Move {hw} {now} (resend s a d m e) h = unfold transmit in rw e (ground arith)
contents-Move {hw} {now} (abandon s a d m e) h =
    rw e (ground (arith, contents-close_frame hw true h s))
contents-Move {hw} {now} (late s a m e) h = rw e (ground (arith, contents-close_frame hw false h s))
contents-Move {hw} {now} (follow s a m p e) h =
    rw (e, contents-send_next (close_frame hw false) now)
      (ground (arith, contents-close_frame hw false h s))
contents-Move {hw} {now} (finish s a m p e) h =
    rw e (ground (arith, contents-close_frame hw false h s))
contents-Move {hw} {now} (resume s d p e) h = rw e (ground (arith, contents-send_next hw now))
contents-Move {hw} {now} (settle s d p e) h = rw e (ground arith)

contents-set_latest : (hw : HostWake) (c v : ℕ) → contents (set_latest hw c v) ≡ contents hw
unfolding set_latest
contents-set_latest hw c v = refl

contents-on_ack : (hw : HostWake) → contents (on_ack hw) ≡ contents hw
unfolding on_ack
contents-on_ack hw = ground arith

contents-apply :
    (hw : HostWake) (e : Event)
    → IsValid hw
    → contents hw ++ accepted hw e ≡ finished hw e ++ contents (apply hw e)
unfolding apply
contents-apply hw (offer c v) h = sym (contents-enqueue hw c v h)
contents-apply hw (set_led c v) h = append-nil _ ∙ sym (contents-set_latest hw c v)
contents-apply hw ack h = append-nil _ ∙ sym (contents-on_ack hw)
contents-apply hw (poll now) h = append-nil _ ∙ contents-Move (step-Move hw now) h

-- The frames that a history accepts into the queue, and those that it retires from it.
pub all_accepted : HostWake → List Event → List Frame
all_accepted hw [] = []
all_accepted hw (e ∷ es) = accepted hw e ++ all_accepted (apply hw e) es

pub all_finished : HostWake → List Event → List Frame
all_finished hw [] = []
all_finished hw (e ∷ es) = finished hw e ++ all_finished (apply hw e) es

-- Over any history of calls from a valid state, the frames queued at the start, followed by those
-- that `HostWake_Enqueue` accepts, are the frames retired, each the outstanding frame at the step
-- that retires it, followed by those still queued: none is lost, repeated or overtaken.
pub queue_fifo :
    (hw : HostWake) (es : List Event)
    → IsValid hw
    → contents hw ++ all_accepted hw es ≡ all_finished hw es ++ contents (run hw es)
unfolding all_accepted all_finished run
queue_fifo hw [] h = append-nil _
queue_fifo hw (e ∷ es) h =
    sym (append_assoc (contents hw) (accepted hw e) _)
    ∙ ap (λ (l : List Frame). l ++ all_accepted (apply hw e) es) (contents-apply hw e h)
    ∙ append_assoc (finished hw e) (contents (apply hw e)) _
    ∙ ap (λ (l : List Frame). finished hw e ++ l)
        (queue_fifo (apply hw e) es (apply-IsValid hw e h))
    ∙ sym (append_assoc (finished hw e) _ _)
