-- ===== src/KeyboardUart/Ring/Contiguity/Preserved.antt =====
-- Interrupts keep the stream from the host in order, as firmware/src/keyboard_uart.c queues it.
use open_controller.Prelude.{
  ℕ, ◌≡◌, ◌≢◌, ◌⊎◌, inl, inr, refl, sym, ap, ◌∙◌, Bool, true, false, List, [], ◌∷◌, ◌++◌,
  append_assoc, if◌then◌else◌, Bool-cases, take, drop, arith,
}
use open_controller.KeyboardUart.Ring.{
  Receiver, Place, at_latch, at_empty, at_feed, at_advance, done,
}
use open_controller.KeyboardUart.Ring.Window.{contents}
use open_controller.KeyboardUart.Ring.Contiguity.{
  Session, IsPrefix, IsBusy, waiting, upcoming, IsContiguous, apply, received, overrun,
}
use open_controller.KeyboardUart.Ring.Contiguity.Prefixes.{
  IsPrefix-trans, IsPrefix-append, IsPrefix-behind, IsPrefix-take, IsPrefix-eq, nonempty-append,
  take-nonempty, drop-nonempty,
}
use open_controller.KeyboardUart.Ring.Contiguity.Received.{
  Received, receives, overruns, room, queued-first,
}

-- Bytes behind the queue leave a busy loop busy.
IsBusy-grows :
    (at : Place) (r r' : Receiver) (xs : List ℕ)
    → IsBusy at r
    → contents r' ≡ contents r ++ xs
    → (r'.overrun_latch ≡ true → (r.overrun_latch ≡ true) ⊎ (contents r' ≢ []))
    → IsBusy at r'
unfolding IsBusy
IsBusy-grows at_latch r r' xs b q l = tt
IsBusy-grows done r r' xs b q l = tt
IsBusy-grows at_feed r r' xs b q l = λ z. nonempty-append (contents r) xs b (sym q ∙ z)
IsBusy-grows at_advance r r' xs b q l = λ z. nonempty-append (contents r) xs b (sym q ∙ z)
IsBusy-grows at_empty r r' xs b q l =
    λ e. elim (l e) [ inl k ↦ λ z. nonempty-append (contents r) xs (b k) (sym q ∙ z) | inr k ↦ k ]

waiting-grows :
    (at : Place) (r r' : Receiver) (xs : List ℕ)
    → IsBusy at r
    → contents r' ≡ contents r ++ xs
    → waiting at r' ≡ waiting at r ++ xs
unfolding IsBusy waiting
waiting-grows at_latch r r' xs b q = q
waiting-grows at_empty r r' xs b q = q
waiting-grows at_feed r r' xs b q = q
waiting-grows done r r' xs b q = q
waiting-grows at_advance r r' xs b q = ap (drop 1) q ∙ drop-nonempty (contents r) xs b

-- With a hole latched the byte that comes next is the one it was before.
upcoming-latched :
    (at : Place) (r r' : Receiver) (xs : List ℕ)
    → IsBusy at r
    → r.overrun_latch ≡ true
    → contents r' ≡ contents r ++ xs
    → upcoming at r' ≡ upcoming at r
unfolding IsBusy upcoming
upcoming-latched at_latch r r' xs b l q = refl
upcoming-latched done r r' xs b l q = refl
upcoming-latched at_advance r r' xs b l q = refl
upcoming-latched at_empty r r' xs b l q = ap (take 1) q ∙ take-nonempty (contents r) xs (b l)
upcoming-latched at_feed r r' xs b l q = ap (take 1) q ∙ take-nonempty (contents r) xs b

-- With none, the byte that comes next is one of those waiting or heard.
upcoming-clean :
    (at : Place) (r r' : Receiver) (heard : List ℕ)
    → IsPrefix (take 1 (contents r')) (contents r ++ heard)
    → IsPrefix (upcoming at r') (waiting at r ++ heard)
unfolding upcoming waiting IsPrefix
upcoming-clean at_latch r r' heard p = (contents r ++ heard, refl)
upcoming-clean done r r' heard p = (contents r ++ heard, refl)
upcoming-clean at_advance r r' heard p = (drop 1 (contents r) ++ heard, refl)
upcoming-clean at_empty r r' heard p = p
upcoming-clean at_feed r r' heard p = p

arrived-lost : (lost : Bool) (xs ys : List ℕ) → IsPrefix xs (if lost then xs else xs ++ ys)
arrived-lost true xs ys = IsPrefix-eq xs xs refl
arrived-lost false xs ys = IsPrefix-append xs ys

-- The session behind an interrupt.
abbrev heard_session : Session → Receiver → List ℕ → Bool → Session
heard_session s r heard lost = record s {
  rx = r;
  arrived = if s.lost then s.arrived else s.arrived ++ heard;
  lost = lost;
}

-- An interrupt that queues some of the bytes in front of the first hole, and latches what it
-- could not queue.
interrupt-IsContiguous :
    (has_cb : Bool) (s : Session) (r' : Receiver) (bytes xs heard : List ℕ) (lost : Bool)
    → IsContiguous has_cb s
    → Received s.rx r' bytes
    → contents r' ≡ contents s.rx ++ xs
    → (r'.overrun_latch ≡ false → (lost ≡ s.lost) × (xs ≡ heard))
    → IsPrefix (take 1 (contents r')) (contents s.rx ++ heard)
    → IsContiguous has_cb (heard_session s r' heard lost)
interrupt-IsContiguous has_cb s r' bytes xs heard lost c g q u p =
    let w = waiting s.at s.rx in
    let arrived' = if s.lost then s.arrived else s.arrived ++ heard in
    let all = λ (e : s.lost ≡ false) (k : s.fed ++ w ≡ s.arrived).
      sym (append_assoc s.fed w heard)
      ∙ ap (λ ys. ys ++ heard) k
      ∙ ap (λ b. if b then s.arrived else s.arrived ++ heard) (sym e) in
    record {
      valid = g.valid;
      start_len = c.start_len;
      parsed = c.parsed ∙ ap (λ z. (z, s.effects)) (sym g.same_parser);
      busy = IsBusy-grows s.at s.rx r' xs c.busy q g.latched;
      clean = λ l.
          let (l0, t) = g.unlatched l in
          let (e, k) = c.clean l0 in
          let (n, m) = u l in
          (
            n ∙ e,
            ap (λ ys. s.fed ++ ys) (waiting-grows s.at s.rx r' xs c.busy q ∙ ap (λ ys. w ++ ys) m)
                ∙ all e k,
          );
      ordered = elim (Bool-cases s.rx.overrun_latch) [
        | inl l ↦
            IsPrefix-trans _ _ _
              (IsPrefix-eq _ _
                (ap (λ ys. s.fed ++ ys) (upcoming-latched s.at s.rx r' xs c.busy l q)))
              (IsPrefix-trans _ _ _ c.ordered (arrived-lost s.lost s.arrived heard))
        | inr l ↦
            let (e, k) = c.clean l in
            IsPrefix-trans _ _ _ (IsPrefix-behind s.fed _ _ (upcoming-clean s.at s.rx r' heard p))
              (IsPrefix-eq _ _ (all e k))
      ];
    }

pub received-IsContiguous :
    (has_cb : Bool) (s : Session) (bytes : List ℕ)
    → IsContiguous has_cb s
    → IsContiguous has_cb (apply has_cb s (received bytes))
unfolding apply
received-IsContiguous has_cb s bytes c =
    let g = receives s.rx bytes c.valid in
    let xs = take (room s.rx) bytes in
    interrupt-IsContiguous has_cb s _ bytes xs bytes s.lost c g g.queued
      (λ l. (refl, (g.unlatched l).1))
      (IsPrefix-trans _ _ _ (IsPrefix-trans _ _ _ (IsPrefix-take 1 _) (IsPrefix-eq _ _ g.queued))
        (IsPrefix-behind (contents s.rx) _ _ (IsPrefix-take (room s.rx) bytes)))

pub overrun-IsContiguous :
    (has_cb : Bool) (s : Session) (first : ℕ) (before after : List ℕ)
    → IsContiguous has_cb s
    → IsContiguous has_cb (apply has_cb s (overrun first before after))
unfolding apply
overrun-IsContiguous has_cb s first before after c =
    let (g, l) = overruns s.rx first (before ++ after) c.valid in
    let v = contents s.rx in
    interrupt-IsContiguous has_cb s _ (first ∷ before ++ after) _ (first ∷ before) true c g g.queued
      (λ k. absurd (ground arith))
      (IsPrefix-trans _ _ _
        (IsPrefix-eq _ _ (ap (take 1) g.queued ∙ queued-first s.rx first (before ++ after) c.valid))
        (IsPrefix-trans _ _ _ (IsPrefix-take 1 (v ++ first ∷ []))
          (IsPrefix-behind v _ _ (IsPrefix-append (first ∷ []) before))))
