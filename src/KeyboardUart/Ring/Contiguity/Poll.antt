-- ===== src/KeyboardUart/Ring/Contiguity/Poll.antt =====
-- The statements of `KeyboardUart_Poll` in firmware/src/keyboard_uart.c keep the stream in order.
use open_controller.Prelude.{
  ℕ, ◌≢◌, refl, sym, ap, ◌∙◌, inl, inr, Bool, true, false, List, [], ◌∷◌, ◌++◌, append-nil,
  append_assoc, ◌==◌, Bool-cases, length, take, drop, arith,
}
use open_controller.KeyboardUart.Parser.{Parser, Effect, feed, feed_byte}
use open_controller.KeyboardUart.Parser.Messages.{feed-append}
use open_controller.KeyboardUart.Ring.{
  Place, at_latch, at_empty, at_feed, at_advance, done, next_byte, discard, poll_step,
}
use open_controller.KeyboardUart.Ring.Window.{contents, contents-pop, contents-empty}
use open_controller.KeyboardUart.Ring.Contiguity.{
  Session, IsPrefix, IsBusy, waiting, upcoming, IsContiguous, next, called, fed_at, is_discard,
}
use open_controller.KeyboardUart.Ring.Contiguity.Prefixes.{
  IsPrefix-trans, IsPrefix-append, IsPrefix-behind, IsPrefix-take, IsPrefix-eq,
}

-- The test of the latch.
latch-IsContiguous :
    (has_cb : Bool) (s : Session) (latch : Bool)
    → IsContiguous has_cb (record s { at = at_latch; rx = record s.rx { overrun_latch = latch } })
    → IsContiguous has_cb
        (next has_cb (record s { at = at_latch; rx = record s.rx { overrun_latch = latch } }))
unfolding next poll_step is_discard fed_at discard IsBusy waiting upcoming IsPrefix feed
latch-IsContiguous has_cb s true c = record {
  valid = record {
    head_lt = c.valid.head_lt;
    tail_lt = c.valid.head_lt;
    fill = omega arith;
    size = c.valid.size;
  };
  start_len = refl;
  parsed = refl;
  busy = tt;
  clean = λ l. (refl, contents-empty (discard s.rx) refl);
  ordered = ([], refl);
}
latch-IsContiguous has_cb s false c =
    let r = record s.rx { overrun_latch = false } in
    let (e, k) = c.clean refl in
    rw (append-nil s.fed, append-nil s.effects)
      (record {
        valid = c.valid;
        start_len = c.start_len;
        parsed = c.parsed;
        busy = λ l. absurd (ground arith);
        clean = λ l. (e, k);
        ordered =
            IsPrefix-trans (s.fed ++ take 1 (contents r)) (s.fed ++ contents r) s.arrived
              (IsPrefix-behind s.fed _ _ (IsPrefix-take 1 (contents r))) (IsPrefix-eq _ _ k);
      })

-- The first of what is ordered.
ordered-fed : (xs ys zs : List ℕ) → IsPrefix (xs ++ ys) zs → IsPrefix (xs ++ []) zs
ordered-fed xs ys zs p =
    IsPrefix-trans (xs ++ []) (xs ++ ys) zs
      (IsPrefix-trans (xs ++ []) xs (xs ++ ys) (IsPrefix-eq _ _ (append-nil xs))
        (IsPrefix-append xs ys))
      p

-- The test for bytes.
empty-IsContiguous :
    (has_cb : Bool) (s : Session)
    → IsContiguous has_cb (record s { at = at_empty })
    → IsContiguous has_cb (next has_cb (record s { at = at_empty }))
unfolding next poll_step is_discard fed_at IsBusy waiting upcoming
empty-IsContiguous has_cb s c = elim (Bool-cases (s.rx.tail == s.rx.head)) [
  | inl e ↦
      rw (e, append-nil s.fed, append-nil s.effects)
        (record {
          valid = c.valid;
          start_len = c.start_len;
          parsed = c.parsed;
          busy = tt;
          clean = c.clean;
          ordered = ordered-fed s.fed (take 1 (contents s.rx)) s.arrived c.ordered;
        })
  | inr e ↦
      rw (e, append-nil s.fed, append-nil s.effects)
        (record {
          valid = c.valid;
          start_len = c.start_len;
          parsed = c.parsed;
          busy = λ z.
              omega (arith, ap length (sym (contents-pop s.rx c.valid (λ k. ground arith)) ∙ z));
          clean = c.clean;
          ordered = c.ordered;
        })
]

-- `feed_byte`.
feed-IsContiguous :
    (has_cb : Bool) (s : Session)
    → IsContiguous has_cb (record s { at = at_feed })
    → IsContiguous has_cb (next has_cb (record s { at = at_feed }))
unfolding next poll_step is_discard fed_at IsBusy waiting upcoming feed contents
feed-IsContiguous has_cb s c =
    let b = next_byte s.rx in
    let pop = contents-pop s.rx c.valid (λ k. c.busy (contents-empty s.rx k)) in
    record {
      valid = record {
        head_lt = c.valid.head_lt;
        tail_lt = c.valid.tail_lt;
        fill = c.valid.fill;
        size = c.valid.size;
      };
      start_len = c.start_len;
      parsed =
          feed-append has_cb s.fed (b ∷ []) s.start
          ∙ ap
              (λ (o : Parser × List Effect).
                ((feed_byte has_cb o.0 b).0, o.1 ++ ((feed_byte has_cb o.0 b).1 ++ [])))
              c.parsed
          ∙ ap (λ (es : List Effect). ((feed_byte has_cb s.rx.parser b).0, s.effects ++ es))
              (append-nil (feed_byte has_cb s.rx.parser b).1);
      busy = c.busy;
      clean = λ l.
          let (e, k) = c.clean l in
          (
            e,
            append_assoc s.fed (b ∷ []) (drop 1 (contents s.rx))
                ∙ ap (λ ys. s.fed ++ ys) (ap (λ ys. b ∷ drop 1 ys) pop ∙ sym pop)
                ∙ k,
          );
      ordered =
          IsPrefix-trans _ _ _
            (IsPrefix-eq _ _ (append-nil _ ∙ ap (λ ys. s.fed ++ ys) (sym (ap (take 1) pop))))
            c.ordered;
    }

-- `rx_ring_tail++`.
advance-IsContiguous :
    (has_cb : Bool) (s : Session)
    → IsContiguous has_cb (record s { at = at_advance })
    → IsContiguous has_cb (next has_cb (record s { at = at_advance }))
unfolding next poll_step is_discard fed_at IsBusy waiting upcoming
advance-IsContiguous has_cb s c =
    let h : s.rx.tail ≢ s.rx.head = λ k. c.busy (contents-empty s.rx k) in
    let pop = contents-pop s.rx c.valid h in
    rw (append-nil s.fed, append-nil s.effects)
      (record {
        valid = record {
          head_lt = c.valid.head_lt;
          tail_lt = omega arith;
          fill = omega (arith, h, c.valid.head_lt, c.valid.tail_lt, c.valid.fill);
          size = c.valid.size;
        };
        start_len = c.start_len;
        parsed = c.parsed;
        busy = tt;
        clean =
            λ l. let (e, k) = c.clean l in (e, ap (λ ys. s.fed ++ ys) (sym (ap (drop 1) pop)) ∙ k);
        ordered = c.ordered;
      })

pub next-IsContiguous :
    (has_cb : Bool) (s : Session) (at : Place)
    → IsContiguous has_cb (record s { at = at })
    → IsContiguous has_cb (next has_cb (record s { at = at }))
unfolding next poll_step is_discard fed_at
next-IsContiguous has_cb s at_latch c = latch-IsContiguous has_cb s s.rx.overrun_latch c
next-IsContiguous has_cb s at_empty c = empty-IsContiguous has_cb s c
next-IsContiguous has_cb s at_feed c = feed-IsContiguous has_cb s c
next-IsContiguous has_cb s at_advance c = advance-IsContiguous has_cb s c
next-IsContiguous has_cb s done c = rw (append-nil s.fed, append-nil s.effects) c

pub call-IsContiguous :
    (has_cb : Bool) (s : Session) (at : Place)
    → IsContiguous has_cb (record s { at = at })
    → IsContiguous has_cb (record s { at = called at })
unfolding called IsBusy waiting upcoming
call-IsContiguous has_cb s at_latch c = c
call-IsContiguous has_cb s at_empty c = c
call-IsContiguous has_cb s at_feed c = c
call-IsContiguous has_cb s at_advance c = c
call-IsContiguous has_cb s done c = record {
  valid = c.valid;
  start_len = c.start_len;
  parsed = c.parsed;
  busy = tt;
  clean = c.clean;
  ordered = c.ordered;
}
