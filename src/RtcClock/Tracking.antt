-- ===== src/RtcClock/Tracking.antt =====
-- The clock against true time. A sample is the true number of ticks, not reduced; the code sees it
-- modulo `modulus`.
use open_controller.Prelude.{
  ℕ, ◌+◌, ◌-◌, ◌%◌, ◌^◌, ◌≤◌, ◌<◌, ◌≡◌, refl, ◌∙◌, sym, ap, true, List, [], ◌∷◌, arith,
  if◌then◌else◌, leb, u32, add-mod_cases, Bool-cases, inl, inr,
}
use native.Mathlib.Nat.{mod-lt, mod-add-mod}
use open_controller.RtcClock.{RtcClock, initial, forward, advance}

module _ (modulus backstep : ℕ) where
  -- The later of two samples.
  abbrev pub newer : ℕ → ℕ → ℕ
  newer newest t = if leb newest t then t else newest

  -- No sample is more than `backstep` ticks behind the newest one before it, nor as much ahead of
  -- it as would be a stale read.
  abbrev pub Plausible : ℕ → List ℕ → Type 0
  Plausible newest [] = Unit {0}
  Plausible newest (t ∷ l) =
      (newest ≤ t + backstep) × (t + backstep < newest + modulus) × Plausible (newer newest t) l

  abbrev pub newest_of : ℕ → List ℕ → ℕ
  newest_of newest [] = newest
  newest_of newest (t ∷ l) = newest_of (newer newest t) l

  -- The clock after a list of samples.
  unfoldable pub sampled : RtcClock → List ℕ → RtcClock
  sampled clk [] = clk
  sampled clk (t ∷ l) = sampled (advance clk (t % modulus) modulus backstep).0 l

  record Tracks (origin newest : ℕ) (clk : RtcClock) : Type 0 where
    running : clk.started ≡ true
    raw_is : clk.last_raw ≡ newest % modulus
    elapsed_is : clk.elapsed ≡ u32 (newest - origin)
    in_order : origin ≤ newest

  module _ (nonzero : 0 < modulus) (word : modulus < 2 ^ 32) (less : backstep < modulus) where
    forward_ahead :
        (r d : ℕ) → r < modulus → d < modulus → forward ((r + d) % modulus) r modulus ≡ d
    unfolding forward
    forward_ahead r d hr hd = ground (arith, add-mod_cases r d modulus hr hd)

    forward_behind :
        (r k : ℕ)
        → r < modulus
        → 0 < k
        → k < modulus
        → forward r ((r + k) % modulus) modulus ≡ modulus - k
    unfolding forward
    forward_behind r k hr h0 hk = ground (arith, add-mod_cases r k modulus hr hk)

    later_mod : (a b : ℕ) → a ≤ b → b % modulus ≡ (a % modulus + (b - a)) % modulus
    later_mod a b h =
        ap (λ (x : ℕ). x % modulus) {y = a + (b - a)} (omega arith)
        ∙ sym (mod-add-mod a modulus (b - a))

    forward_true :
        (newest t : ℕ)
        → newest ≤ t
        → t < newest + modulus
        → forward (t % modulus) (newest % modulus) modulus ≡ t - newest
    forward_true newest t h k =
        ap (λ (x : ℕ). forward x (newest % modulus) modulus) (later_mod newest t h)
        ∙ forward_ahead (newest % modulus) (t - newest) (mod-lt newest nonzero) (omega arith)

    forward_stale :
        (newest t : ℕ)
        → t < newest
        → newest < t + modulus
        → forward (t % modulus) (newest % modulus) modulus ≡ modulus - (newest - t)
    forward_stale newest t h k =
        ap (λ (x : ℕ). forward (t % modulus) x modulus) (later_mod t newest (omega arith))
        ∙ forward_behind (t % modulus) (newest - t) (mod-lt t nonzero) (omega arith) (omega arith)

    advance_fresh :
        (clk : RtcClock) (raw d : ℕ)
        → clk.started ≡ true
        → forward raw clk.last_raw modulus ≡ d
        → d + backstep < modulus
        → (advance clk raw modulus backstep).0
          ≡ record clk { elapsed = u32 (clk.elapsed + d); last_raw = raw }
    unfolding advance
    advance_fresh clk raw d s e k = ground arith

    advance_stale :
        (clk : RtcClock) (raw d : ℕ)
        → clk.started ≡ true
        → forward raw clk.last_raw modulus ≡ d
        → 0 < d
        → modulus ≤ d + backstep
        → (advance clk raw modulus backstep).0 ≡ clk
    unfolding advance
    advance_stale clk raw d s e z k = ground arith

    advance-Tracks :
        (origin newest t : ℕ) (clk : RtcClock)
        → newest ≤ t + backstep
        → t + backstep < newest + modulus
        → Tracks origin newest clk
        → Tracks origin (newer newest t) (advance clk (t % modulus) modulus backstep).0
    advance-Tracks origin newest t clk lo hi h = elim (Bool-cases (leb newest t)) [
      | inl fresh ↦
          rw
            (
              fresh,
              advance_fresh clk (t % modulus) (t - newest) h.running
                  (ap (λ (x : ℕ). forward (t % modulus) x modulus) h.raw_is
                    ∙ forward_true newest t (ground arith) (omega arith))
                  (ground arith),
            )
            (record {
              running = h.running;
              raw_is = refl;
              elapsed_is = ground arith;
              in_order = ground arith;
            })
      | inr stale ↦
          rw
            (
              stale,
              advance_stale clk (t % modulus) (modulus - (newest - t)) h.running
                  (ap (λ (x : ℕ). forward (t % modulus) x modulus) h.raw_is
                    ∙ forward_stale newest t (ground arith) (omega arith))
                  (omega arith) (ground arith),
            )
            h
    ]

    sampled-Tracks :
        (l : List ℕ) (origin newest : ℕ) (clk : RtcClock)
        → Plausible newest l
        → Tracks origin newest clk
        → Tracks origin (newest_of newest l) (sampled clk l)
    unfolding sampled
    sampled-Tracks [] origin newest clk p h = h
    sampled-Tracks (t ∷ l) origin newest clk p h =
        sampled-Tracks l origin (newer newest t) _ p.2
          (advance-Tracks origin newest t clk p.0 p.1 h)

    first-Tracks : (t : ℕ) → Tracks t t (advance initial (t % modulus) modulus backstep).0
    unfolding advance
    first-Tracks t = ground arith

    -- On a counter of fewer than 2 ^ 32 values, if no sample after the first is more than `backstep`
    -- ticks behind the newest one before it or within `backstep` of a whole turn ahead of it, the
    -- clock shows the true time, modulo 2 ^ 32, from the first sample to the newest one: stale
    -- reads add nothing, nothing is lost at the counter's wrap, and time never runs backwards.
    pub sampled_elapsed :
        (first : ℕ) (l : List ℕ)
        → Plausible first l
        → (sampled initial (first ∷ l)).elapsed ≡ u32 (newest_of first l - first)
    unfolding sampled
    sampled_elapsed first l p = (sampled-Tracks l first first _ p (first-Tracks first)).elapsed_is
