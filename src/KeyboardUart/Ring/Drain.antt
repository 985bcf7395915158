-- ===== src/KeyboardUart/Ring/Drain.antt =====
-- A whole call of `KeyboardUart_Poll` of firmware/src/keyboard_uart.c that no interrupt divides.
use open_controller.Prelude.{
  ℕ, zero, suc, ◌+◌, ◌≡◌, ◌≢◌, refl, ap, ◌∙◌, inl, inr, Bool, true, false, List, [], ◌++◌, ◌==◌,
  ==_iff, if◌then◌else◌, Bool-cases, u8, sub8, arith,
}
use open_controller.KeyboardUart.Parser.{Parser, Effect, feed, feed_byte, reset_parser}
use open_controller.KeyboardUart.Ring.{
  Receiver, Place, at_latch, at_empty, at_feed, done, next_byte, discard, poll_step, drain,
}
use open_controller.KeyboardUart.Ring.Window.{IsValid, contents, contents-pop, contents-empty}

-- Four statements for each byte queued; the tests of the latch and for bytes once more, and one
-- to discard.
unfoldable pub statements : ℕ → ℕ
statements zero = 3
statements (suc n) = suc (suc (suc (suc (statements n))))

drain-done : (fuel : ℕ) (has_cb : Bool) (r : Receiver) → drain fuel has_cb done r ≡ (done, r, [])
unfolding drain poll_step
drain-done zero has_cb r = refl
drain-done (suc fuel) has_cb r = drain-done fuel has_cb r

-- One statement in front of the others.
drain-step :
    (fuel : ℕ) (has_cb : Bool) (at at' : Place) (r r' : Receiver) (es : List Effect)
    → poll_step has_cb at r ≡ (at', r', es)
    → drain (suc fuel) has_cb at r ≡ (
      (drain fuel has_cb at' r').0,
      (drain fuel has_cb at' r').1,
      es ++ (drain fuel has_cb at' r').2,
    )
unfolding drain
drain-step fuel has_cb at at' r r' es e =
    ap
      (λ (o : Place × Receiver × List Effect). (
        (drain fuel has_cb o.0 o.1).0,
        (drain fuel has_cb o.0 o.1).1,
        o.2 ++ (drain fuel has_cb o.0 o.1).2,
      ))
      e

choose :
    Place × Receiver × List Effect
    → Place × Receiver × List Effect
    → Bool
    → Place × Receiver × List Effect
choose x y b = if b then x else y

step_clear :
    (has_cb : Bool) (r : Receiver)
    → r.overrun_latch ≡ false
    → poll_step has_cb at_latch r ≡ (at_empty, r, [])
unfolding poll_step choose
step_clear has_cb r l = ap (choose (at_latch, discard r, []) (at_empty, r, [])) l

step_latched :
    (has_cb : Bool) (r : Receiver)
    → r.overrun_latch ≡ true
    → poll_step has_cb at_latch r ≡ (at_latch, discard r, [])
unfolding poll_step choose
step_latched has_cb r l = ap (choose (at_latch, discard r, []) (at_empty, r, [])) l

step_empty :
    (has_cb : Bool) (r : Receiver) → r.tail ≡ r.head → poll_step has_cb at_empty r ≡ (done, r, [])
unfolding poll_step choose
step_empty has_cb r e = ap (choose (done, r, []) (at_feed, r, [])) ((==_iff r.tail r.head).1 e)

step_busy :
    (has_cb : Bool) (r : Receiver)
    → r.tail ≢ r.head
    → poll_step has_cb at_empty r ≡ (at_feed, r, [])
unfolding poll_step choose
step_busy has_cb r h = elim (Bool-cases (r.tail == r.head)) [
  | inl e ↦ absurd (h ((==_iff r.tail r.head).0 e))
  | inr e ↦ ap (choose (done, r, []) (at_feed, r, [])) e
]

-- With nothing queued and no hole latched the call ends.
drain-empty :
    (fuel : ℕ) (has_cb : Bool) (r : Receiver)
    → r.tail ≡ r.head
    → r.overrun_latch ≡ false
    → drain (suc (suc fuel)) has_cb at_latch r ≡ (done, r, [])
drain-empty fuel has_cb r e l =
    drain-step (suc fuel) has_cb at_latch at_empty r r [] (step_clear has_cb r l)
    ∙ drain-step fuel has_cb at_empty done r r [] (step_empty has_cb r e)
    ∙ drain-done fuel has_cb r

discard-empty :
    (fuel : ℕ) (has_cb : Bool) (r : Receiver)
    → r.overrun_latch ≡ true
    → drain (suc (suc (suc fuel))) has_cb at_latch r ≡ (done, discard r, [])
unfolding discard
discard-empty fuel has_cb r l =
    drain-step (suc (suc fuel)) has_cb at_latch at_latch r (discard r) [] (step_latched has_cb r l)
    ∙ drain-empty fuel has_cb (discard r) refl refl

-- With a hole latched the call discards what is queued and ends.
drain-latched :
    (n : ℕ) (has_cb : Bool) (r : Receiver)
    → r.overrun_latch ≡ true
    → drain (statements n) has_cb at_latch r ≡ (done, discard r, [])
unfolding statements
drain-latched zero has_cb r l = discard-empty 0 has_cb r l
drain-latched (suc n) has_cb r l = discard-empty (suc (statements n)) has_cb r l

-- The byte at the tail, taken out and parsed.
abbrev fed_rx : Bool → Receiver → Receiver
fed_rx has_cb r = record r {
  tail = u8 (r.tail + 1);
  parser = (feed_byte has_cb r.parser (next_byte r)).0;
}

-- With a byte queued and no hole latched, four statements parse it.
drain-byte :
    (fuel : ℕ) (has_cb : Bool) (r : Receiver)
    → r.tail ≢ r.head
    → r.overrun_latch ≡ false
    → drain (suc (suc (suc (suc fuel)))) has_cb at_latch r ≡ (
      (drain fuel has_cb at_latch (fed_rx has_cb r)).0,
      (drain fuel has_cb at_latch (fed_rx has_cb r)).1,
      (feed_byte has_cb r.parser (next_byte r)).1
          ++ (drain fuel has_cb at_latch (fed_rx has_cb r)).2,
    )
unfolding drain poll_step
drain-byte fuel has_cb r h l =
    drain-step (suc (suc (suc fuel))) has_cb at_latch at_empty r r [] (step_clear has_cb r l)
    ∙ drain-step (suc (suc fuel)) has_cb at_empty at_feed r r [] (step_busy has_cb r h)

-- What a call leaves: an empty ring, no hole latched, and what has come of the parser.
pub record Polled (o : Place × Receiver × List Effect) (parsed : Parser × List Effect)
    : Type 0 where
  pub ended : o.0 ≡ done
  pub emptied : o.1.tail ≡ o.1.head
  pub unlatched : o.1.overrun_latch ≡ false
  pub parsed_lem : (o.1.parser, o.2) ≡ parsed

Polled-transport :
    (o o' : Place × Receiver × List Effect) (x x' : Parser × List Effect)
    → o ≡ o'
    → x ≡ x'
    → Polled o' x'
    → Polled o x
Polled-transport o o' x x' e k p = rw (e, k) p

drain-clear :
    (n : ℕ) (has_cb : Bool) (r : Receiver)
    → IsValid r
    → n ≡ sub8 r.head r.tail
    → r.overrun_latch ≡ false
    → Polled (drain (statements n) has_cb at_latch r) (feed has_cb r.parser (contents r))
unfolding statements feed contents
drain-clear zero has_cb r v e l =
    let k : r.tail ≡ r.head = omega (arith, v.head_lt, v.tail_lt) in
    Polled-transport _ _ _ _ (drain-empty 1 has_cb r k l)
      (ap (feed has_cb r.parser) (contents-empty r k))
      (record { ended = refl; emptied = k; unlatched = l; parsed_lem = refl })
drain-clear (suc n) has_cb r v e l =
    let h : r.tail ≢ r.head = λ k. omega arith in
    let q = fed_rx has_cb r in
    let p =
      drain-clear n has_cb q
        (record {
          head_lt = v.head_lt;
          tail_lt = omega arith;
          fill = omega (arith, v.head_lt, v.tail_lt, v.fill);
          size = v.size;
        })
        (omega (arith, v.head_lt, v.tail_lt)) l in
    let (b, es) = feed_byte has_cb r.parser (next_byte r) in
    Polled-transport _ _ _ _ (drain-byte (statements n) has_cb r h l)
      (ap (feed has_cb r.parser) (contents-pop r v h))
      (record {
        ended = p.ended;
        emptied = p.emptied;
        unlatched = p.unlatched;
        parsed_lem = ap (λ (o : Parser × List Effect). (o.0, es ++ o.1)) p.parsed_lem;
      })

-- A call of KeyboardUart_Poll that no interrupt divides, on a ring whose indexes are in range,
-- ends within four statements for each byte queued and three more, with the ring empty and no hole
-- latched; it has fed the parser the bytes queued in order if no hole was latched, and else has
-- discarded them and reset the parser.
pub poll_ends :
    (has_cb : Bool) (r : Receiver)
    → IsValid r
    → Polled
        (drain (statements (sub8 r.head r.tail)) has_cb at_latch r)
        (if r.overrun_latch then (reset_parser r.parser, []) else feed has_cb r.parser (contents r))
unfolding discard
poll_ends has_cb r v = elim (Bool-cases r.overrun_latch) [
  | inl l ↦
      Polled-transport _ _ _ _ (drain-latched (sub8 r.head r.tail) has_cb r l)
        (ap (λ b. if b then (reset_parser r.parser, []) else feed has_cb r.parser (contents r)) l)
        (record { ended = refl; emptied = refl; unlatched = refl; parsed_lem = refl })
  | inr l ↦
      Polled-transport _ _ _ _ refl
        (ap (λ b. if b then (reset_parser r.parser, []) else feed has_cb r.parser (contents r)) l)
        (drain-clear (sub8 r.head r.tail) has_cb r v refl l)
]
