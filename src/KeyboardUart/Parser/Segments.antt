-- ===== src/KeyboardUart/Parser/Segments.antt =====
-- What the parser does with a stream of bytes: it splits it into frames and bytes thrown away.
use open_controller.Prelude.{
  ℕ, zero, suc, ◌<◌, ◌≡◌, refl, sym, ap, ◌∙◌, inl, inr, Bool, true, List, [], ◌∷◌, ◌++◌, append-nil,
  append_assoc, arith, length, take, drop, set, take-set, take-append-drop, take-take, length-take,
  get_or-take, Bool-cases,
}
use open_controller.KeyboardUart.Parser.{
  Parser, Effect, byte, frame_is_valid, dispatch_frame, expected_for_header, shift_rx_buf,
  resync_parser, is_complete, process, feed_byte, feed,
}
use open_controller.KeyboardUart.Parser.Content.{
  content, content-shift_rx_buf, frame_is_valid-take, dispatch_frame-take,
}
use open_controller.KeyboardUart.Parser.Invariant.{
  IsValid, Waits, appended, appended-IsValid, shift_rx_buf-IsValid, resync-IsValid, resync-cases,
  process_stop, process_frame, process_resync, complete_lem, feed_byte-cases, feed_byte-Waits,
  Waits-len,
}

-- A whole frame: as long as its header byte says, and with a checksum, or an ACK's tail, that
-- holds.
pub record IsFrame (f : List ℕ) : Type 0 where
  pub size : length f ≡ expected_for_header (byte f 0)
  pub some_bytes : 0 < length f
  pub checked : frame_is_valid f ≡ true

-- `bytes` are whole frames with other bytes between them, and `es` what the frames make happen.
pub data Explains (cb : Bool) : List ℕ → List Effect → Type 0 where
  done : Explains cb [] []
  skip :
      {bytes rest : List ℕ} {es : List Effect} (d : List ℕ)
      → bytes ≡ d ++ rest
      → Explains cb rest es
      → Explains cb bytes es
  frame :
      {bytes rest : List ℕ} {es es' : List Effect} (f : List ℕ)
      → IsFrame f
      → bytes ≡ f ++ rest
      → es ≡ dispatch_frame cb f ++ es'
      → Explains cb rest es'
      → Explains cb bytes es

Explains-append :
    {cb : Bool} {xs ys : List ℕ} {es fs : List Effect}
    → Explains cb xs es
    → Explains cb ys fs
    → Explains cb (xs ++ ys) (es ++ fs)
Explains-append done e = e
Explains-append {ys = ys} (skip {rest = rest} d p h) e =
    skip d (ap (λ (l : List ℕ). l ++ ys) p ∙ append_assoc d rest ys) (Explains-append h e)
Explains-append {cb = cb} {ys = ys} {fs = fs} (frame {rest = rest} {es' = es'} f isf p q h) e =
    frame f isf (ap (λ (l : List ℕ). l ++ ys) p ∙ append_assoc f rest ys)
      (ap (λ (l : List Effect). l ++ fs) q ∙ append_assoc (dispatch_frame cb f) es' fs)
      (Explains-append h e)

-- The bytes `taken` are gone, and explain the effects; the parser holds the others.
pub record Splits (cb : Bool) (held : List ℕ) (r : Parser × List Effect) : Type 0 where
  pub taken : List ℕ
  pub splits : held ≡ taken ++ content r.0
  pub explained : Explains cb taken r.1

-- Shifting throws away what it shifts by, and all the rest where no frame can start.
shift-skips :
    (p : Parser) (n : ℕ)
    → IsValid p
    → 0 < n
    → (d : List ℕ) × (drop n (content p) ≡ d ++ content (shift_rx_buf p n))
shift-skips p n v z =
    elim (content-shift_rx_buf p n z (omega (arith, v.slots, v.len_in)) v.len_in) [
      | inl none_left ↦
          (drop n (content p), sym (ap (◌++◌ (drop n (content p))) none_left ∙ append-nil _))
      | inr kept ↦ ([], sym kept)
    ]

resync-skips :
    (p : Parser) → IsValid p → (d : List ℕ) × (content p ≡ d ++ content (resync_parser p))
resync-skips p v = elim (resync-cases p) [
  | inl e ↦ (content p, sym (ap (λ (q : Parser). content p ++ content q) e ∙ append-nil _))
  | inr (n, z, e) ↦
      let (d, s) = shift-skips p n v z in
      (
        take n (content p) ++ d,
        sym (take-append-drop n (content p))
            ∙ ap (◌++◌ (take n (content p))) (s ∙ ap (λ (q : Parser). d ++ content q) (sym e))
            ∙ sym (append_assoc (take n (content p)) d _),
      )
]

-- The frame at the front of a complete buffer.
front-IsFrame :
    (p : Parser)
    → IsValid p
    → is_complete p ≡ true
    → frame_is_valid p.buf ≡ true
    → IsFrame (take p.expected p.buf)
front-IsFrame p v c ok =
    let k = complete_lem p c in
    let n = p.expected in
    let full : length (take n p.buf) ≡ n =
      omega (arith, length-take n p.buf, v.slots, v.len_in, k.2) in
    let first = get_or-take n p.buf 0 0 k.1 in
    record {
      size = full ∙ v.header k.0 ∙ ap expected_for_header (sym first);
      some_bytes = omega arith;
      checked = frame_is_valid-take n p.buf k.1 (omega (arith, v.header k.0)) ∙ ok;
    }

pub front-dispatch :
    (cb : Bool) (p : Parser)
    → IsValid p
    → is_complete p ≡ true
    → frame_is_valid p.buf ≡ true
    → dispatch_frame cb p.buf ≡ dispatch_frame cb (take p.expected p.buf)
front-dispatch cb p v c ok =
    let k = complete_lem p c in
    sym (dispatch_frame-take cb p.expected p.buf (sym (v.header k.0)) k.1 ok)

process-Splits :
    (fuel : ℕ) (cb : Bool) (p : Parser) → IsValid p → Splits cb (content p) (process fuel cb p)
process-Splits zero cb p v =
    unfold process in record { taken = []; splits = refl; explained = done }
process-Splits (suc fuel) cb p v = elim (Bool-cases (is_complete p)) [
  | inr short ↦
      rw (process_stop fuel cb p short) (record { taken = []; splits = refl; explained = done })
  | inl complete ↦ elim (Bool-cases (frame_is_valid p.buf)) [
    | inr bad ↦
        let (d, s) = resync-skips p v in
        let rest = process-Splits fuel cb (resync_parser p) (resync-IsValid p v) in
        rw (process_resync fuel cb p complete bad) (record {
          taken = d ++ rest.taken;
          splits = s ∙ ap (◌++◌ d) rest.splits ∙ sym (append_assoc d rest.taken _);
          explained = skip d refl rest.explained;
        })
    | inl ok ↦
        let n = p.expected in
        let k = complete_lem p complete in
        let (d, s) = shift-skips p n v k.1 in
        let rest = process-Splits fuel cb (shift_rx_buf p n) (shift_rx_buf-IsValid p n v) in
        let f = take n p.buf in
        rw (process_frame fuel cb p complete ok) (record {
          taken = f ++ (d ++ rest.taken);
          splits =
              sym (take-append-drop n (content p))
              ∙ ap (λ (l : List ℕ). l ++ drop n (content p)) (take-take n p.len p.buf k.2)
              ∙ ap (◌++◌ f) (s ∙ ap (◌++◌ d) rest.splits ∙ sym (append_assoc d rest.taken _))
              ∙ sym (append_assoc f (d ++ rest.taken) _);
          explained =
              frame f (front-IsFrame p v complete ok) refl
                (ap (λ (l : List Effect). l ++ (process fuel cb (shift_rx_buf p n)).1)
                  (front-dispatch cb p v complete ok))
                (skip d refl rest.explained);
        })
  ]
]

pub content-appended :
    (p : Parser) (b : ℕ) → IsValid p → p.len < 24 → content (appended p b) ≡ content p ++ (b ∷ [])
content-appended p b v h =
    ap (λ (n : ℕ). take n (set p.buf p.len b)) {y = suc p.len} (omega arith)
    ∙ take-set p.buf p.len b (omega (arith, v.slots))

feed_byte-Splits :
    (cb : Bool) (p : Parser) (b : ℕ)
    → Waits p
    → Splits cb (content p ++ (b ∷ [])) (feed_byte cb p b)
feed_byte-Splits cb p b w = elim (feed_byte-cases cb p b w) [
  | inl (e, n, s) ↦ rw s (record {
    taken = b ∷ [];
    splits = ap (λ (k : ℕ). take k p.buf ++ (b ∷ [])) e ∙ ap (λ (k : ℕ). b ∷ take k p.buf) (sym e);
    explained = skip (b ∷ []) refl done;
  })
  | inr (h, s) ↦
      rw (s, ← content-appended p b w.valid (omega (arith, Waits-len p w)))
        (process-Splits _ cb (appended p b) (appended-IsValid p b w h))
]

-- Whatever bytes a waiting parser is fed, those that it held and those fed are, in order, whole
-- frames with other bytes between them and then the bytes that it holds; the effects are those of
-- the frames, each once and in order, and of nothing else.
pub feed-Splits :
    (cb : Bool) (bytes : List ℕ) (p : Parser)
    → Waits p
    → Splits cb (content p ++ bytes) (feed cb p bytes)
unfolding feed
feed-Splits cb [] p w = record { taken = []; splits = append-nil _; explained = done }
feed-Splits cb (b ∷ bytes) p w =
    let one = feed_byte-Splits cb p b w in
    let q = (feed_byte cb p b).0 in
    let rest = feed-Splits cb bytes q (feed_byte-Waits cb p b w) in
    record {
      taken = one.taken ++ rest.taken;
      splits =
          sym (append_assoc (content p) (b ∷ []) bytes)
          ∙ ap (λ (l : List ℕ). l ++ bytes) one.splits
          ∙ append_assoc one.taken (content q) bytes
          ∙ ap (◌++◌ one.taken) rest.splits
          ∙ sym (append_assoc one.taken rest.taken _);
      explained = Explains-append one.explained rest.explained;
    }
