-- ===== src/PowerSleep/Holdoff.antt =====
-- The hold-off of firmware/src/power_sleep.c, on true time that the counter shows modulo its turn, at
-- times a little late: a reading can step back behind the one before.
use open_controller.Prelude.{
  ℕ, ◌+◌, ◌-◌, ◌%◌, ◌^◌, ◌≤◌, ◌<◌, ◌≡◌, Bool, true, false, not, ◌&&◌, ◌||◌, List, [], ◌∷◌, ltb, leb,
  if◌then◌else◌, arith,
}
use open_controller.SleepProtocol.{elapsed_ticks}
use open_controller.SleepProtocol.Ticks.{elapsed_ticks-of_readings}
use open_controller.PowerSleep.{Sdk, PowerSleep, backstep_tolerance, note_activity, holdoff_expired}

-- Activity noted, or a look at the hold-off with whether bytes have come since the last one; each so
-- many ticks behind the one before, and with a reading so many ticks late.
pub data Look : Type 0 where
  noted : ℕ → ℕ → Look
  checked : Bool → ℕ → ℕ → Look

-- The state, the true time, that of the last activity, and that which the counter showed for it.
pub record Watch : Type 0 where
  pub sleep : PowerSleep
  pub now : ℕ
  pub last : ℕ
  pub shown : ℕ

unfoldable pub visit : Sdk → Watch → Look → Watch
visit sdk w (noted d lag) = record {
  sleep = note_activity w.sleep ((w.now + d - lag) % sdk.max_count);
  now = w.now + d;
  last = w.now + d;
  shown = w.now + d - lag;
}
visit sdk w (checked rx_activity d lag) = record {
  sleep = (holdoff_expired sdk w.sleep rx_activity ((w.now + d - lag) % sdk.max_count)).0;
  now = w.now + d;
  last = if rx_activity then w.now + d else w.last;
  shown = if rx_activity then w.now + d - lag else w.shown;
}

unfoldable pub watch : Sdk → Watch → List Look → Watch
watch sdk w [] = w
watch sdk w (l ∷ ls) = watch sdk (visit sdk w l) ls

-- A reading is late by at most the tolerance.
unfoldable pub is_close : Watch → ℕ → ℕ → Bool
is_close w d lag = leb lag backstep_tolerance && leb lag (w.now + d)

-- A reading that has stepped back behind the activity's has not stepped back over the counter's wrap.
unfoldable pub is_level : Sdk → ℕ → ℕ → Bool
is_level sdk shown t = leb shown t || leb (shown - t) (shown % sdk.max_count)

-- While the hold-off runs, the next look comes less than a turn of the counter behind the activity.
unfoldable pub is_soon : Sdk → Watch → Look → Bool
is_soon sdk w (noted d lag) = is_close w d lag
is_soon sdk w (checked rx_activity d lag) =
    is_close w d lag
    && (not w.sleep.holdoff_active
        || ltb (w.now + d - lag - w.shown + backstep_tolerance) sdk.max_count
          && is_level sdk w.shown (w.now + d - lag))

unfoldable pub AreSoon : Sdk → Watch → List Look → Type 0
AreSoon sdk w [] = record {}
AreSoon sdk w (l ∷ ls) = (is_soon sdk w l ≡ true) × AreSoon sdk (visit sdk w l) ls

-- The counter's turn, in 32 bits and longer than the tolerance, and a hold-off of some length.
pub record IsTuned (sdk : Sdk) : Type 0 where
  pub turn : sdk.max_count ≤ 2 ^ 32
  pub long : backstep_tolerance < sdk.max_count
  pub held : 0 < sdk.holdoff

record Held (sdk : Sdk) (w : Watch) : Type 0 where
  since : w.last ≤ w.now
  late : w.shown ≤ w.last
  near : w.last ≤ w.shown + backstep_tolerance
  runs : w.sleep.holdoff_active ≡ true → w.sleep.holdoff_start ≡ w.shown % sdk.max_count
  over : w.sleep.holdoff_active ≡ false → w.shown + sdk.holdoff ≤ w.now

-- What a look at the time `t` measures, if that is enough to end the hold-off.
measured :
    (sdk : Sdk) (shown t : ℕ)
    → IsTuned sdk
    → t - shown + backstep_tolerance < sdk.max_count
    → shown ≤ t + backstep_tolerance
    → is_level sdk shown t ≡ true
    → sdk.holdoff
      ≤ elapsed_ticks (t % sdk.max_count) (shown % sdk.max_count) sdk.max_count backstep_tolerance
    → shown + sdk.holdoff ≤ t
unfolding is_level
measured sdk shown t k d b level e =
    let m = sdk.max_count in
    let same = elapsed_ticks-of_readings shown t m backstep_tolerance k.turn k.long d b in
    let held = k.held in ground (arith, same, e, level, held)

ended :
    (sdk : Sdk) (w : Watch) (d lag : ℕ)
    → IsTuned sdk
    → Held sdk w
    → is_soon sdk w (checked false d lag) ≡ true
    → w.sleep.holdoff_active ≡ true
    → sdk.holdoff
      ≤ elapsed_ticks
          ((w.now + d - lag) % sdk.max_count)
          w.sleep.holdoff_start
          sdk.max_count
          backstep_tolerance
    → w.shown + sdk.holdoff ≤ w.now + d
unfolding is_soon is_close
ended sdk w d lag k h soon active e =
    let t = w.now + d - lag in
    let since = h.since in
    let late = h.late in
    let e' =
      coe 0 1
        (i.
          sdk.holdoff
          ≤ elapsed_ticks (t % sdk.max_count) (h.runs active i) sdk.max_count backstep_tolerance)
        e in
    let reached = measured sdk w.shown t k (ground arith) (ground arith) (ground arith) e' in
    omega (arith, reached)

-- A look that lets the module sleep.
expired_late :
    (sdk : Sdk) (w : Watch) (rx_activity : Bool) (d lag : ℕ)
    → IsTuned sdk
    → is_soon sdk w (checked rx_activity d lag) ≡ true
    → Held sdk w
    → (holdoff_expired sdk w.sleep rx_activity ((w.now + d - lag) % sdk.max_count)).1 ≡ true
    → w.shown + sdk.holdoff ≤ w.now + d
unfolding holdoff_expired
expired_late sdk w true d lag k soon h e = absurd (ground arith)
expired_late sdk w false d lag k soon h e = ground (arith, h.over, ended sdk w d lag k h soon)

visit-Held :
    (sdk : Sdk) (w : Watch) (l : Look)
    → IsTuned sdk
    → is_soon sdk w l ≡ true
    → Held sdk w
    → Held sdk (visit sdk w l)
unfolding visit is_soon is_close holdoff_expired note_activity
visit-Held sdk w (noted d lag) k soon h = ground arith
visit-Held sdk w (checked true d lag) k soon h = ground arith
visit-Held sdk w (checked false d lag) k soon h =
    let since = h.since in
    let late = expired_late sdk w false d lag k soon h in
    record {
      since = omega (arith, since);
      late = h.late;
      near = h.near;
      runs = ground (arith, h.runs);
      over = ground (arith, h.over, late);
    }

watch-Held :
    (sdk : Sdk) (w : Watch) (ls : List Look)
    → IsTuned sdk
    → AreSoon sdk w ls
    → Held sdk w
    → Held sdk (watch sdk w ls)
unfolding watch AreSoon
watch-Held sdk w [] k soon h = h
watch-Held sdk w (l ∷ ls) k (soon, rest) h =
    watch-Held sdk (visit sdk w l) ls k rest (visit-Held sdk w l k soon h)

-- An activity at a true time, with a reading so many ticks late.
abbrev pub active_at : Sdk → PowerSleep → ℕ → ℕ → Watch
active_at sdk s t lag = record {
  sleep = note_activity s ((t - lag) % sdk.max_count);
  now = t;
  last = t;
  shown = t - lag;
}

-- Behind an activity, whatever further ones are noted or received, and with readings of the clock
-- that are late by up to the tolerance: a look that lets the module sleep comes at the earliest the
-- hold-off's ticks behind the time that the clock showed for the last activity, which is that of the
-- activity short of at most the tolerance. The looks while the hold-off runs come less than a turn of
-- the counter behind that time, short of the tolerance, and none of their readings steps back from it
-- over the counter's wrap. The counter's turn is longer than the tolerance and at most 2 ^ 32, and the
-- hold-off is not 0.
pub holdoff_kept :
    (sdk : Sdk) (s : PowerSleep) (t first : ℕ) (looks : List Look) (rx_activity : Bool) (d lag : ℕ)
    → IsTuned sdk
    → first ≤ backstep_tolerance
    → first ≤ t
    → AreSoon sdk (active_at sdk s t first) looks
    → is_soon sdk (watch sdk (active_at sdk s t first) looks) (checked rx_activity d lag) ≡ true
    → (holdoff_expired sdk
        (watch sdk (active_at sdk s t first) looks).sleep
        rx_activity
        (((watch sdk (active_at sdk s t first) looks).now + d - lag) % sdk.max_count)).1
      ≡ true
    → ((watch sdk (active_at sdk s t first) looks).shown + sdk.holdoff
        ≤ (watch sdk (active_at sdk s t first) looks).now + d)
      × ((watch sdk (active_at sdk s t first) looks).last
          ≤ (watch sdk (active_at sdk s t first) looks).shown + backstep_tolerance)
unfolding note_activity
holdoff_kept sdk s t first looks rx_activity d lag k close front soon last_soon e =
    let start : Held sdk (active_at sdk s t first) = ground arith in
    let h = watch-Held sdk (active_at sdk s t first) looks k soon start in
    (
      expired_late sdk (watch sdk (active_at sdk s t first) looks) rx_activity d lag k last_soon h
          e,
      h.near,
    )
