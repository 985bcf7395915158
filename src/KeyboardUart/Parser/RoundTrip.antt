-- ===== src/KeyboardUart/Parser/RoundTrip.antt =====
-- Frames as the host builds them, and that each gets through.
use open_controller.Prelude.{
  ℕ, zero, suc, ◌+◌, ◌<◌, ◌≡◌, refl, sym, ap, ◌∙◌, ◌≢◌, ◌⊎◌, inl, inr, Bool, true, false, List, [],
  ◌∷◌, ◌++◌, append-nil, append_assoc, arith, length, length-append, length-take, get_or-take,
  get_or-append, take,
}
use open_controller.KeyboardUart.Parser.{
  Parser, byte, frame_is_valid, dispatch_frame, expected_for_header, shift_rx_buf, is_complete,
  process, feed_byte, feed,
}
use open_controller.KeyboardUart.Parser.Content.{content, frame_is_valid-take, dispatch_frame-take}
use open_controller.KeyboardUart.Parser.Invariant.{
  IsValid, Waits, appended, appended-IsValid, process_stop, process_frame, feed_byte-cases,
  feed_byte-Waits, Waits-len,
}
use open_controller.KeyboardUart.Parser.Segments.{IsFrame, content-appended}

length-content : (p : Parser) → IsValid p → length (content p) ≡ p.len
length-content p v = omega (arith, length-take p.len p.buf, v.slots, v.len_in)

-- The header of a parser that holds the start of the frame `f`.
expected-front :
    (p : Parser) (f rest : List ℕ)
    → IsValid p
    → 0 < p.len
    → content p ++ rest ≡ f
    → p.expected ≡ expected_for_header (byte f 0)
expected-front p f rest v z e =
    v.header z
    ∙ ap expected_for_header (
        sym (get_or-take p.len p.buf 0 0 z)
        ∙ sym (get_or-append (content p) rest 0 0 (omega (arith, length-content p v)))
        ∙ ap (λ (l : List ℕ). byte l 0) e)

-- A byte that is not ignored.
taken_lem :
    (cb : Bool) (p : Parser) (b : ℕ)
    → Waits p
    → (p.len ≢ 0) ⊎ (0 < expected_for_header b)
    → feed_byte cb p b ≡ process (suc p.len) cb (appended p b)
taken_lem cb p b w h = elim (feed_byte-cases cb p b w) [
  | inl (e, n, s) ↦ absurd (ground arith)
  | inr (h', s) ↦
      s ∙ ap (λ (k : ℕ). process k cb (appended p b)) {y = suc p.len} (omega (arith, Waits-len p w))
]

-- The loop does nothing while the frame is short of its length.
appended_short :
    (cb : Bool) (p : Parser) (b : ℕ)
    → Waits p
    → (p.len ≢ 0) ⊎ (0 < expected_for_header b)
    → p.len + 1 < (appended p b).expected
    → feed_byte cb p b ≡ (appended p b, [])
appended_short cb p b w h k = taken_lem cb p b w h ∙ process_stop p.len cb (appended p b) short
  where
    short : is_complete (appended p b) ≡ false
    short = unfold is_complete in ground (arith, Waits-len p w)

process_empty : (fuel : ℕ) (cb : Bool) (p : Parser) → p.len ≡ 0 → process fuel cb p ≡ (p, [])
process_empty zero cb p e = unfold process in refl
process_empty (suc fuel) cb p e = process_stop fuel cb p (unfold is_complete in ground arith)

-- At its last byte a frame is dispatched, and the parser is empty.
appended_whole :
    (cb : Bool) (p : Parser) (b : ℕ)
    → Waits p
    → (p.len ≢ 0) ⊎ (0 < expected_for_header b)
    → p.len + 1 ≡ (appended p b).expected
    → frame_is_valid (appended p b).buf ≡ true
    → ((feed_byte cb p b).1 ≡ dispatch_frame cb (appended p b).buf) × ((feed_byte cb p b).0.len ≡ 0)
appended_whole cb p b w h k ok =
    let a = appended p b in
    let c : is_complete a ≡ true = unfold is_complete in ground (arith, Waits-len p w) in
    let gone : (shift_rx_buf a a.expected).len ≡ 0 =
      unfold shift_rx_buf in ground (arith, Waits-len p w) in
    rw
      (
        taken_lem cb p b w h,
        process_frame p.len cb a c ok,
        process_empty p.len cb (shift_rx_buf a a.expected) gone,
      )
      (append-nil _, gone)

-- The parser with the next byte of a frame.
record Grows (f : List ℕ) (p : Parser) (b : ℕ) (rest : List ℕ) : Type 0 where
  accepted : (p.len ≢ 0) ⊎ (0 < expected_for_header b)
  valid : IsValid (appended p b)
  holds : content (appended p b) ++ rest ≡ f
  expects : (appended p b).expected ≡ length f
  counts : p.len + 1 + length rest ≡ length f

first_header :
    (f rest : List ℕ) (p : Parser) (b : ℕ)
    → IsFrame f
    → content p ++ (b ∷ rest) ≡ f
    → p.len ≡ 0
    → 0 < expected_for_header b
first_header f rest p b isf e z =
    let start : b ∷ rest ≡ f = ap (λ (n : ℕ). take n p.buf ++ (b ∷ rest)) (sym z) ∙ e in
    omega
      (arith, isf.size, isf.some_bytes, ap (λ (l : List ℕ). expected_for_header (byte l 0)) start)

grows :
    (f rest : List ℕ) (p : Parser) (b : ℕ)
    → IsFrame f
    → Waits p
    → content p ++ (b ∷ rest) ≡ f
    → Grows f p b rest
grows f rest p b isf w e =
    let acc : (p.len ≢ 0) ⊎ (0 < expected_for_header b) =
      ground (arith, first_header f rest p b isf e) in
    let v = appended-IsValid p b w acc in
    let held =
      ap (λ (l : List ℕ). l ++ rest) (content-appended p b w.valid (omega (arith, Waits-len p w)))
      ∙ append_assoc (content p) (b ∷ []) rest
      ∙ e in
    record {
      accepted = acc;
      valid = v;
      holds = held;
      expects =
          expected-front (appended p b) f rest v (omega (arith, Waits-len p w)) held ∙ sym isf.size;
      counts =
          omega
            (arith, ap length e, length-append (content p) (b ∷ rest), length-content p w.valid);
    }

-- A parser that holds the start of a frame dispatches it once the rest has come, and is empty.
rest_arrives :
    (cb : Bool) (f rest : List ℕ) (p : Parser)
    → IsFrame f
    → Waits p
    → rest ≢ []
    → content p ++ rest ≡ f
    → ((feed cb p rest).1 ≡ dispatch_frame cb f) × ((feed cb p rest).0.len ≡ 0)
unfolding feed
rest_arrives cb f [] p isf w ne e = absurd (ne refl)
rest_arrives cb f (b ∷ []) p isf w ne e =
    let g = grows f [] p b isf w e in
    let a = appended p b in
    let n = a.len in
    let whole : take n a.buf ≡ f = sym (append-nil _) ∙ g.holds in
    let size : a.expected ≡ n = omega (arith, g.expects, g.counts, Waits-len p w) in
    let header = sym (g.valid.header (omega (arith, Waits-len p w))) ∙ size in
    let ok =
      sym (frame_is_valid-take n a.buf (omega (arith, Waits-len p w)) (omega (arith, header)))
      ∙ ap frame_is_valid whole
      ∙ isf.checked in
    let d = appended_whole cb p b w g.accepted (omega (arith, g.expects, g.counts)) ok in
    (
      append-nil _
          ∙ d.0
          ∙ sym (dispatch_frame-take cb n a.buf header (omega (arith, Waits-len p w)) ok)
          ∙ ap (dispatch_frame cb) whole,
      d.1,
    )
rest_arrives cb f (b ∷ c ∷ rest) p isf w ne e =
    let g = grows f (c ∷ rest) p b isf w e in
    let s = appended_short cb p b w g.accepted (omega (arith, g.expects, g.counts)) in
    rw s (
      rest_arrives cb f (c ∷ rest) (appended p b) isf (rw s at (feed_byte-Waits cb p b w)) (cc)
        g.holds)

-- A whole frame fed to an empty parser is dispatched, once, and leaves the parser empty.
pub frame_arrives :
    (cb : Bool) (f : List ℕ) (p : Parser)
    → Waits p
    → p.len ≡ 0
    → IsFrame f
    → ((feed cb p f).1 ≡ dispatch_frame cb f) × ((feed cb p f).0.len ≡ 0)
frame_arrives cb f p w z isf =
    rest_arrives cb f f p isf w (λ e. omega (arith, isf.some_bytes, ap length e))
      (ap (λ (n : ℕ). take n p.buf ++ f) z)
