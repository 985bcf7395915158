-- ===== src/HostWake/Fairness.antt =====
-- The LED slot and the queue cannot starve one another.
use open_controller.Prelude.{
  ℕ, ◌≡◌, Bool, false, not, ◌&&◌, List, [], ◌∷◌, ◌++◌, arith, if◌then◌else◌, ◌==◌,
}
use mathlib.Core.Path.{subst}
use open_controller.HostWake.{
  HostWake, Output, enqueue, set_latest, on_ack, have_pending, transmit, take_next, send_next,
  close_frame, step,
}
use open_controller.HostWake.Invariant.{IsValid}
use open_controller.HostWake.Moves.{
  Move, rest, wake, wait, first, resend, abandon, late, follow, finish, resume, settle, step-Move,
}
use open_controller.HostWake.Trace.{Event, offer, set_led, ack, poll, apply, apply-IsValid}

-- A first copy that goes out: whether it is the LED slot's, and what else could have gone.
pub record Start : Type 0 where
  pub led : Bool
  pub queued : Bool
  pub led_offered : Bool

-- The first copy that a step sends, if it sends one: a resend counts its second attempt or later.
abbrev pub starts_of : HostWake → HostWake × Output → List Start
starts_of hw (hw', out) =
    if out.send && hw'.attempts == 1
    then record {
      led = hw'.sending_latest;
      queued = not (hw'.count == 0);
      led_offered = hw.latest_pending;
    }
      ∷ []
    else []

abbrev pub starts : HostWake → Event → List Start
starts hw (poll now) = starts_of hw (step hw now)
starts hw _ = []

pub all_starts : HostWake → List Event → List Start
all_starts hw [] = []
all_starts hw (e ∷ es) = starts hw e ++ all_starts (apply hw e) es

-- With something of the other kind waiting, no kind goes twice running. The flag says whether
-- the frame before was the LED slot's.
abbrev pub Alternates : Bool → List Start → Type 0
Alternates prev [] = Unit {0}
Alternates prev (s ∷ l) =
    (prev && s.led && s.queued ≡ false)
    × (not prev && not s.led && s.led_offered ≡ false)
    × Alternates s.led l

abbrev last_led : Bool → List Start → Bool
last_led prev [] = prev
last_led prev (s ∷ l) = last_led s.led l

-- What one event does to the alternation.
record Fair (hw hw' : HostWake) (l : List Start) : Type 0 where
  alternates : Alternates hw.last_latest l
  remembered : hw'.last_latest ≡ last_led hw.last_latest l

Fair-Move :
    {hw : HostWake} {now : ℕ} {r : HostWake × Output}
    → Move hw now r
    → IsValid hw
    → Fair hw r.0 (starts_of hw r)
unfolding transmit send_next take_next close_frame have_pending
Fair-Move (rest s p e) h = ground arith
Fair-Move (wake s p e) h = ground arith
Fair-Move (wait s a d e) h = ground arith
Fair-Move (first s d e) h = ground arith
Fair-Move (resend s a d m e) h = ground arith
Fair-Move (abandon s a d m e) h = ground arith
Fair-Move (late s a m e) h = ground arith
Fair-Move (follow s a m p e) h = ground arith
Fair-Move (finish s a m p e) h = ground arith
Fair-Move (resume s d p e) h = ground arith
Fair-Move (settle s d p e) h = ground arith

Fair-apply : (hw : HostWake) (e : Event) → IsValid hw → Fair hw (apply hw e) (starts hw e)
unfolding apply enqueue set_latest on_ack
Fair-apply hw (offer c v) h = ground arith
Fair-apply hw (set_led c v) h = ground arith
Fair-apply hw ack h = ground arith
Fair-apply hw (poll now) h = Fair-Move (step-Move hw now) h

Alternates-append :
    (prev : Bool) (l m : List Start)
    → Alternates prev l
    → Alternates (last_led prev l) m
    → Alternates prev (l ++ m)
Alternates-append prev [] m hl hm = hm
Alternates-append prev (s ∷ l) m hl hm = (hl.0, hl.1, Alternates-append s.led l m hl.2 hm)

-- Over any history from a valid state, an LED frame never follows an LED frame while frames are
-- queued, and an LED value on offer is passed over only right behind an LED frame.
pub no_starvation :
    (hw : HostWake) (es : List Event) → IsValid hw → Alternates hw.last_latest (all_starts hw es)
unfolding all_starts
no_starvation hw [] h = tt
no_starvation hw (e ∷ es) h =
    let f = Fair-apply hw e h in
    Alternates-append hw.last_latest (starts hw e) (all_starts (apply hw e) es) f.alternates (
      subst (λ b. Alternates b (all_starts (apply hw e) es)) f.remembered
        (no_starvation (apply hw e) es (apply-IsValid hw e h)))
