-- ===== src/RfTask/Hop/Tracking.antt =====
-- The timed hop of firmware/src/rf_task.c follows a dongle that hops once in each interval.
use open_controller.Prelude.{
  ℕ, ◌+◌, ◌-◌, ◌*◌, ◌/◌, ◌%◌, ◌^◌, ◌≤◌, ◌<◌, ◌≡◌, ap, ap₂, ◌∙◌, inl, inr, false, ◌&&◌, ltb, ◌==◌,
  Bool-cases, List, [], ◌∷◌, u32, arith,
}
use native.Mathlib.Nat.{div-add-mod', mod-lt, div-lt_iff_lt-mul, add-mul, mul_comm}
use open_controller.RfTask.Hop.{
  Hop, rtc_wrap, num_data_channels, max_step, desync_intervals, rtc_delta, rtc_backdate, rtc_add,
  hop_interval, hop_by, tick_after, hop_tick,
}
use open_controller.RfTask.Hop.Arithmetic.{rtc_delta-true, rtc_add-true, rtc_backdate-true}

-- At a true time, in the slot with a number since a start: the anchor stands at the slot's
-- beginning, or one tick early (the rollback behind a poll), the channel is the slot's, and the
-- time is at most an interval past the anchor.
pub record InStep (begin first interval : ℕ) (h : Hop) (now slot early : ℕ) : Type 0 where
  pub followed : h.provisional ≡ false
  pub cadence : h.conn_interval ≡ interval
  pub anchored : h.anchor ≡ (begin + slot * interval - early) % rtc_wrap
  pub channel : h.data_idx ≡ (first + slot) % num_data_channels
  pub reached : begin + slot * interval ≤ now + early
  pub near : now + early ≤ begin + slot * interval + interval
  pub early_le : early ≤ 1
  pub fresh : h.since_rx ≤ 1 → early ≡ 0
  pub settled : early ≤ begin + slot * interval

-- In step in some slot, with or without the rollback.
unfoldable pub IsInStep : ℕ → ℕ → ℕ → Hop → ℕ → Type 0
IsInStep begin first interval h now =
    (slot early : ℕ) × InStep begin first interval h now slot early

carry :
    {begin first interval now slot early : ℕ} {h h' : Hop}
    → InStep begin first interval h now slot early
    → h' ≡ h
    → InStep begin first interval h' now slot early
carry {begin} {first} {interval} {now} {slot} {early} s e =
    coe 1 0 (i. InStep begin first interval (e i) now slot early) s

quotient : (e i : ℕ) → 0 < i → (e / i * i ≤ e) × (e < e / i * i + i)
quotient e i h = (omega (arith, div-add-mod' e i), omega (arith, div-add-mod' e i, mod-lt e h))

-- What the hop's anchor has to do with time.
module _ (begin first interval : ℕ) (h : Hop) (now slot early gap : ℕ)
    (s : InStep begin first interval h now slot early) (i_pos : 0 < interval)
    (i_lt : interval < 2 ^ 16) (soon : gap < max_step * interval) where
  abbrev anchor_time : ℕ
  anchor_time = begin + slot * interval - early

  abbrev elapsed : ℕ
  elapsed = now + gap - anchor_time

  elapsed_lem : rtc_delta ((now + gap) % rtc_wrap) h.anchor ≡ elapsed
  elapsed_lem =
      ap (rtc_delta ((now + gap) % rtc_wrap)) s.anchored
      ∙ rtc_delta-true anchor_time (now + gap) (omega (arith, s.reached))
          (omega (arith, s.near, s.reached))

  interval_lem : hop_interval h ≡ interval
  interval_lem = let c = s.cadence in ground arith

  -- Within an interval of the anchor the tick leaves things alone.
  waits : elapsed ≤ interval → InStep begin first interval h (now + gap) slot early
  waits l = record {
    followed = s.followed;
    cadence = s.cadence;
    anchored = s.anchored;
    channel = s.channel;
    reached = omega (arith, s.reached);
    near = omega (arith, l, s.reached);
    early_le = s.early_le;
    fresh = s.fresh;
    settled = s.settled;
  }

  -- Past it, it hops by the intervals gone by.
  hops :
      interval < elapsed
      → (early' : ℕ) × InStep begin first interval
          (hop_by h interval (elapsed / interval))
          (now + gap)
          (slot + elapsed / interval)
          early'
  unfolding hop_by
  hops l =
      let n = elapsed / interval in
      let (q, r) = quotient elapsed interval i_pos in
      let d = add-mul slot n interval in
      let m : u32 (interval * n) ≡ n * interval = omega (arith, mul_comm interval n) in
      let a : rtc_add h.anchor (u32 (interval * n)) ≡ (anchor_time + n * interval) % rtc_wrap =
        ap₂ rtc_add s.anchored m ∙ rtc_add-true anchor_time (n * interval) (omega arith) in
      elim (Bool-cases (n == 1 && h.since_rx == 1)) [
        | inl k ↦ (
          1,
          let one : n ≡ 1 = ground arith in
              let rx : h.since_rx ≡ 1 = ground arith in
              let f = s.fresh (omega arith) in
              let t : anchor_time + n * interval - 1 ≡ begin + (slot + n) * interval - 1 =
                omega (arith, s.settled) in
              record {
                followed = s.followed;
                cadence = s.cadence;
                anchored = rw k (
                    ap (λ x. rtc_backdate x 1) a
                    ∙ rtc_backdate-true (anchor_time + n * interval) (omega arith)
                    ∙ ap (λ x. x % rtc_wrap) t);
                channel = omega (arith, s.channel);
                reached = omega (arith, s.settled);
                near = omega (arith, s.settled);
                early_le = omega arith;
                fresh = λ z. absurd (ground arith);
                settled = omega arith;
              },
        )
        | inr k ↦ (
          early,
          let t : anchor_time + n * interval ≡ begin + (slot + n) * interval - early =
                omega (arith, s.settled) in
              record {
                followed = s.followed;
                cadence = s.cadence;
                anchored = rw k (a ∙ ap (λ x. x % rtc_wrap) t);
                channel = omega (arith, s.channel);
                reached = omega (arith, s.settled);
                near = omega (arith, s.settled);
                early_le = s.early_le;
                fresh = λ z. s.fresh (ground arith);
                settled = omega (arith, s.settled);
              },
        )
      ]

  ticks : IsInStep begin first interval (hop_tick h ((now + gap) % rtc_wrap)).0 (now + gap)
  unfolding hop_tick tick_after IsInStep
  ticks =
      let n = elapsed / interval in
      let (q, r) = quotient elapsed interval i_pos in
      let e : hop_tick h ((now + gap) % rtc_wrap)
          ≡ tick_after h ((now + gap) % rtc_wrap) false interval elapsed =
        λ i.
          tick_after h ((now + gap) % rtc_wrap) (s.followed i) (interval_lem i) (elapsed_lem i) in
      let far : ltb (u32 (interval * desync_intervals)) elapsed ≡ false =
        ground (arith, s.near, s.settled, s.reached) in
      let few : n < 6 = (div-lt_iff_lt-mul i_pos).1 (omega (arith, s.near, s.settled, s.reached)) in
      elim (Bool-cases (ltb interval elapsed)) [
        | inl k ↦
            let (early', t) = hops (ground arith) in
            let g : (tick_after h ((now + gap) % rtc_wrap) false interval elapsed).0
                ≡ hop_by h interval n =
              ground arith in
            (slot + n, early', carry t (ap (λ x. x.0) e ∙ g))
        | inr k ↦
            let g : (tick_after h ((now + gap) % rtc_wrap) false interval elapsed).0 ≡ h =
              ground arith in
            (slot, early, carry (waits (ground arith)) (ap (λ x. x.0) e ∙ g))
      ]

-- The gaps between one tick of the loop and the next, and the state and the time behind them.
unfoldable pub after : Hop → ℕ → List ℕ → Hop × ℕ
after h now [] = (h, now)
after h now (gap ∷ gaps) = after (hop_tick h ((now + gap) % rtc_wrap)).0 (now + gap) gaps

-- Every gap is shorter than the intervals that a tick can make up for.
unfoldable pub IsShort : ℕ → List ℕ → Type 0
IsShort interval [] = record {}
IsShort interval (gap ∷ gaps) = (gap < max_step * interval) × IsShort interval gaps

-- A followed link that is in step with its dongle is in step again behind any run of ticks with
-- no gap as long as five intervals between them: the channel is that of the slot which the time
-- lies in or has just left, and the anchor is the slot's beginning or the tick before it.
pub after-IsInStep :
    (begin first interval : ℕ) (h : Hop) (now : ℕ) (gaps : List ℕ)
    → 0 < interval
    → interval < 2 ^ 16
    → IsInStep begin first interval h now
    → IsShort interval gaps
    → IsInStep begin first interval (after h now gaps).0 (after h now gaps).1
unfolding after IsShort IsInStep
after-IsInStep begin first interval h now [] i_pos i_lt s k = s
after-IsInStep begin first interval h now (gap ∷ gaps) i_pos i_lt (slot, early, s) (k, ks) =
    after-IsInStep begin first interval (hop_tick h ((now + gap) % rtc_wrap)).0 (now + gap) gaps
      i_pos i_lt (ticks begin first interval h now slot early gap s i_pos i_lt k) ks
