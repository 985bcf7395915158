-- ===== src/RfTask/Hop/Servo.antt =====
-- The servo of firmware/src/rf_task.c pulls the hop's anchor to the polls.
use open_controller.Prelude.{
  ℕ, zero, suc, ◌+◌, ◌-◌, ◌*◌, ◌/◌, ◌^◌, ◌≤◌, ◌<◌, ◌%◌, ◌≡◌, refl, ap, ◌∙◌, Bool, true, false, ◌&&◌,
  List, [], ◌∷◌, length, ltb, u32, if◌then◌else◌, arith,
}
use native.Mathlib.Nat.{div-add-mod', mod-lt}
use open_controller.RfTask.Hop.{
  Hop, hop_interval, hop_tick, tick_after, hop_by, rtc_delta, rtc_add, max_step, desync_intervals,
  rtc_wrap, servo_deadband, rtc_backdate, Error, ahead, behind, rtc_signed_delta, corrected,
  hop_servo,
}
use open_controller.RfTask.Hop.Arithmetic.{rtc_add_lem}

-- The size of a phase error, the shorter way round the counter.
unfoldable pub magnitude : Error → ℕ
magnitude (ahead e) = e
magnitude (behind e) = e

abbrev pub phase_error : ℕ → ℕ → ℕ
phase_error ref anchor = magnitude (rtc_signed_delta ref anchor)

-- A correction takes one tick off an error outside the deadband, and leaves one inside alone.
pub hop_servo-closer :
    (ref anchor : ℕ)
    → ref < rtc_wrap
    → anchor < rtc_wrap
    → (hop_servo anchor ref < rtc_wrap)
      × (phase_error ref (hop_servo anchor ref) ≡ (
          if ltb servo_deadband (phase_error ref anchor)
          then phase_error ref anchor - 1
          else phase_error ref anchor))
unfolding hop_servo corrected magnitude rtc_signed_delta rtc_backdate
hop_servo-closer ref anchor h k =
    let e = rtc_add_lem anchor 1 (omega arith) in (ground arith, ground arith)

-- Both carried on by as many ticks, the error stays.
phase_error-shift :
    (ref anchor k : ℕ)
    → ref < rtc_wrap
    → anchor < rtc_wrap
    → k < 2 ^ 30
    → phase_error (rtc_add ref k) (rtc_add anchor k) ≡ phase_error ref anchor
unfolding magnitude rtc_signed_delta
phase_error-shift ref anchor k h l m =
    let e = rtc_add_lem ref k (omega arith) in
    let f = rtc_add_lem anchor k (omega arith) in ground (arith, e, f)

-- A slot of a dongle that polls in each: `RF_ConnectedTick` at a reading of the clock, and the poll, in
-- which the radio's callback runs the servo on the poll's reference and clears `since_rx`.
unfoldable pub slot : Hop → ℕ → ℕ → Hop
slot h now ref =
    let hopped = (hop_tick h now).0 in
    record hopped { anchor = hop_servo hopped.anchor ref; since_rx = 0 }

-- The slots with these readings of the clock; the poll's reference goes on by the interval.
unfoldable pub slots : Hop → ℕ → List ℕ → Hop × ℕ
slots h ref [] = (h, ref)
slots h ref (now ∷ nows) =
    let next = rtc_add ref (hop_interval h) in slots (slot h now next) next nows

-- Each reading comes in the slot's time: more than an interval past the anchor, and less than two.
unfoldable pub is_due : Hop → ℕ → Bool
is_due h now =
    ltb (hop_interval h) (rtc_delta now h.anchor)
    && ltb (rtc_delta now h.anchor) (2 * hop_interval h)

unfoldable pub AreDue : Hop → ℕ → List ℕ → Type 0
AreDue h ref [] = record {}
AreDue h ref (now ∷ nows) =
    let next = rtc_add ref (hop_interval h) in
    (is_due h now ≡ true) × AreDue (slot h now next) next nows

-- A link that follows its dongle's polls, at an interval of 16 bits.
pub record IsFollowing (h : Hop) (ref : ℕ) : Type 0 where
  pub caught : h.provisional ≡ false
  pub polled : h.since_rx ≡ 0
  pub cadence : h.conn_interval < 2 ^ 16
  pub anchor_lt : h.anchor < rtc_wrap
  pub ref_lt : ref < rtc_wrap

rtc_add-lt : (t k : ℕ) → t < rtc_wrap → k < 2 ^ 30 → rtc_add t k < rtc_wrap
rtc_add-lt t k h l = let e = rtc_add_lem t k (omega arith) in omega (arith, e)

one_quotient : (q i r e : ℕ) → q * i + r ≡ e → r < i → i < e → e < 2 * i → q ≡ 1
one_quotient zero i r e d l h k = absurd (omega arith)
one_quotient (suc zero) i r e d l h k = refl
one_quotient (suc (suc q)) i r e d l h k =
    let p : suc (suc q) * i ≡ 2 * i + q * i = omega arith in absurd (omega (arith, p))

-- Between one interval and two, the division gives one.
one_step : (e i : ℕ) → i < e → e < 2 * i → (if ltb max_step (e / i) then max_step else e / i) ≡ 1
one_step e i h l =
    let p : 0 < i = omega arith in
    let d = div-add-mod' e i in
    let r = mod-lt e p in
    let q : e / i ≡ 1 = one_quotient (e / i) i (e % i) e d r h l in ground (arith, q)

-- The tick takes the hop by one interval.
tick_lem :
    (h : Hop) (now interval elapsed : ℕ)
    → h.since_rx ≡ 0
    → interval < 2 ^ 16
    → interval < elapsed
    → elapsed < 2 * interval
    → (tick_after h now false interval elapsed).0 ≡ hop_by h interval 1
unfolding tick_after
tick_lem h now i e k lt l g =
    let one = one_step e i l g in
    let turn : u32 (i * desync_intervals) ≡ i * desync_intervals = omega arith in
    ground (arith, one, turn)

hop_tick_lem :
    (h : Hop) (now ref : ℕ)
    → IsFollowing h ref
    → is_due h now ≡ true
    → (hop_interval h < 2 ^ 16)
      × ((hop_tick h now).0.anchor ≡ rtc_add h.anchor (hop_interval h))
      × ((hop_tick h now).0.provisional ≡ false)
      × ((hop_tick h now).0.conn_interval ≡ h.conn_interval)
unfolding hop_tick hop_by is_due
hop_tick_lem h now ref f d =
    let i = hop_interval h in
    let cadence = f.cadence in
    let small : i < 2 ^ 16 = ground arith in
    let polled = f.polled in
    let same : (tick_after h now h.provisional i (rtc_delta now h.anchor)).0 ≡ hop_by h i 1 =
      ap (λ p. (tick_after h now p i (rtc_delta now h.anchor)).0) f.caught
      ∙ tick_lem h now i (rtc_delta now h.anchor) polled small (ground arith) (ground arith) in
    let whole : u32 (i * 1) ≡ i = omega (arith, small) in
    (
      small,
      ap (λ (h' : Hop). h'.anchor) same ∙ ground (arith, polled, whole),
      ap (λ (h' : Hop). h'.provisional) same ∙ f.caught,
      ap (λ (h' : Hop). h'.conn_interval) same,
    )

-- What a slot leaves: the link still follows, and the error is a tick less outside the deadband.
record Corrected (h h' : Hop) (ref next : ℕ) : Type 0 where
  follows : IsFollowing h' next
  closer : phase_error next h'.anchor ≡ (
      if ltb servo_deadband (phase_error ref h.anchor)
      then phase_error ref h.anchor - 1
      else phase_error ref h.anchor)

slot-Corrected :
    (h : Hop) (now ref : ℕ)
    → IsFollowing h ref
    → is_due h now ≡ true
    → Corrected h (slot h now (rtc_add ref (hop_interval h))) ref (rtc_add ref (hop_interval h))
unfolding slot
slot-Corrected h now ref f d =
    let i = hop_interval h in
    let (small, anchor, caught, cadence) = hop_tick_lem h now ref f d in
    let next = rtc_add ref i in
    let next_lt = rtc_add-lt ref i f.ref_lt (omega (arith, small)) in
    let moved_lt = rtc_add-lt h.anchor i f.anchor_lt (omega (arith, small)) in
    let (in_range, closer) = hop_servo-closer next (rtc_add h.anchor i) next_lt moved_lt in
    let shift = phase_error-shift ref h.anchor i f.ref_lt f.anchor_lt (omega (arith, small)) in
    record {
      follows = record {
        caught = caught;
        polled = refl;
        cadence = coe 1 0 (j. cadence j < 2 ^ 16) f.cadence;
        anchor_lt = coe 1 0 (j. hop_servo (anchor j) next < rtc_wrap) in_range;
        ref_lt = next_lt;
      };
      closer =
          ap (λ a. phase_error next (hop_servo a next)) anchor
          ∙ closer
          ∙ ap (λ e. if ltb servo_deadband e then e - 1 else e) shift;
    }

-- A link behind its catch, that its dongle polls in each slot from the last one on, at an interval of
-- less than 2 ^ 16 ticks and with the clock read once in each slot's time: as many
-- slots as the phase error has ticks bring it within the deadband, from either side and across the
-- counter's turn, and further ones leave it there. The polls' references come at exactly the interval.
pub servo_locks :
    (h : Hop) (ref : ℕ) (nows : List ℕ)
    → IsFollowing h ref
    → AreDue h ref nows
    → phase_error ref h.anchor ≤ length nows + servo_deadband
    → phase_error (slots h ref nows).1 (slots h ref nows).0.anchor ≤ servo_deadband
unfolding slots AreDue
servo_locks h ref [] f d l = omega arith
servo_locks h ref (now ∷ nows) f (d, ds) l =
    let c = slot-Corrected h now ref f d in
    let closer = c.closer in
    let next = rtc_add ref (hop_interval h) in
    servo_locks (slot h now next) next nows c.follows ds (ground (arith, closer))
