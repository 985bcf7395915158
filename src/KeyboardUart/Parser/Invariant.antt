-- ===== src/KeyboardUart/Parser/Invariant.antt =====
-- The parser's invariant, and that the loop of `process_rx_buf` ends by its own test.
use open_controller.Prelude.{
  ℕ, zero, suc, ◌+◌, ◌-◌, ◌≤◌, ◌<◌, ◌≡◌, ◌≢◌, Bool, true, false, ◌&&◌, some, List, ◌++◌, arith,
  length, ◌==◌, if◌then◌else◌, set, length-set, Bool-cases, Option-cases, inl, inr, ◌⊎◌, u8, sub8,
  get_or-set_ne, get_or-set_self, [], ◌∷◌,
}
use open_controller.KeyboardUart.Parser.{
  Parser, initial, max_frame, byte, frame_is_valid, dispatch_frame, expected_for_header,
  shift_rx_buf, find_header, resync_parser, is_complete, process, feed_byte, feed,
}
use open_controller.KeyboardUart.Parser.Content.{length-shift_from, expected_for_header-le}

-- What holds at every round of the loop.
pub record IsValid (p : Parser) : Type 0 where
  pub slots : length p.buf ≡ max_frame
  pub len_in : p.len ≤ max_frame
  pub empty : p.len ≡ 0 → p.expected ≡ 0
  pub header : 0 < p.len → p.expected ≡ expected_for_header (byte p.buf 0)
  pub known : 0 < p.len → 0 < p.expected

-- What holds between two bytes: the frame that has begun is not complete.
pub record Waits (p : Parser) : Type 0 where
  pub valid : IsValid p
  pub partial : 0 < p.len → p.len < p.expected

pub initial-Waits : Waits initial
initial-Waits = omega arith

pub shift_rx_buf-IsValid : (p : Parser) (n : ℕ) → IsValid p → IsValid (shift_rx_buf p n)
unfolding shift_rx_buf
shift_rx_buf-IsValid p n v = ground (arith, length-shift_from p.buf n 0 (sub8 p.len n))

pub len-shift_rx_buf :
    (p : Parser) (n : ℕ) → IsValid p → 0 < n → 0 < p.len → (shift_rx_buf p n).len < p.len
unfolding shift_rx_buf
len-shift_rx_buf p n v z h = ground arith

-- What the search finds is a header behind the first byte.
pub find_header-ge : (buf : List ℕ) (i k : ℕ) {j : ℕ} → find_header buf i k ≡ some j → i ≤ j
unfolding find_header
find_header-ge buf i zero h = cc
find_header-ge buf i (suc k) {j} h = ground (arith, find_header-ge buf (i + 1) k {j = j})

-- A resynchronisation gives up everything, or shifts by one byte at least.
pub resync-cases :
    (p : Parser)
    → (resync_parser p ≡ record p { len = 0; expected = 0 })
      ⊎ ((n : ℕ) × (0 < n) × (resync_parser p ≡ shift_rx_buf p n))
unfolding resync_parser
resync-cases p = elim (Option-cases (find_header p.buf 1 (p.len - 1))) [
  | inl nothing ↦ inl (rw (nothing, resync_parser))
  | inr (i, found) ↦ inr (i, find_header-ge p.buf 1 (p.len - 1) found, rw (found, resync_parser))
]

pub resync-IsValid : (p : Parser) → IsValid p → IsValid (resync_parser p)
resync-IsValid p v = elim (resync-cases p) [
  | inl e ↦ rw e (ground arith)
  | inr (n, z, e) ↦ rw e (shift_rx_buf-IsValid p n v)
]

pub len-resync : (p : Parser) → IsValid p → 0 < p.len → (resync_parser p).len < p.len
len-resync p v h = elim (resync-cases p) [
  | inl e ↦ rw e h
  | inr (n, z, e) ↦ rw e (len-shift_rx_buf p n v z h)
]

-- The three rounds of the loop.
pub process_stop :
    (fuel : ℕ) (cb : Bool) (p : Parser) → is_complete p ≡ false → process (suc fuel) cb p ≡ (p, [])
unfolding process
process_stop fuel cb p done = rw (done, process)

pub process_frame :
    (fuel : ℕ) (cb : Bool) (p : Parser)
    → is_complete p ≡ true
    → frame_is_valid p.buf ≡ true
    → let (q, es) = process fuel cb (shift_rx_buf p p.expected) in
      process (suc fuel) cb p ≡ (q, dispatch_frame cb p.buf ++ es)
unfolding process
process_frame fuel cb p complete ok = rw (complete, ok, process)

pub process_resync :
    (fuel : ℕ) (cb : Bool) (p : Parser)
    → is_complete p ≡ true
    → frame_is_valid p.buf ≡ false
    → process (suc fuel) cb p ≡ process fuel cb (resync_parser p)
unfolding process
process_resync fuel cb p complete bad = rw (complete, bad, process)

pub complete_lem :
    (p : Parser) → is_complete p ≡ true → (0 < p.len) × (0 < p.expected) × (p.expected ≤ p.len)
unfolding is_complete
complete_lem p h = ground arith

incomplete_lem : (p : Parser) → is_complete p ≡ false → IsValid p → 0 < p.len → p.len < p.expected
unfolding is_complete
incomplete_lem p h v z = ground arith

-- With fuel for the bytes held the loop ends by its test, at a frame that is not complete.
pub process-Waits :
    (fuel : ℕ) (cb : Bool) (p : Parser) → IsValid p → p.len ≤ fuel → Waits (process fuel cb p).0
process-Waits zero cb p v h = unfold process in ground arith
process-Waits (suc fuel) cb p v h = elim (Bool-cases (is_complete p)) [
  | inl complete ↦
      let c = complete_lem p complete in
      elim (Bool-cases (frame_is_valid p.buf)) [
        | inl ok ↦ rw (process_frame fuel cb p complete ok) (
            process-Waits fuel cb (shift_rx_buf p p.expected) (shift_rx_buf-IsValid p p.expected v)
              (omega (arith, len-shift_rx_buf p p.expected v c.1 c.0)))
        | inr bad ↦ rw (process_resync fuel cb p complete bad) (
            process-Waits fuel cb (resync_parser p) (resync-IsValid p v)
              (omega (arith, len-resync p v c.0)))
      ]
  | inr done ↦
      rw (process_stop fuel cb p done) (record { valid = v; partial = incomplete_lem p done v })
]

-- The parser with one more byte, before the loop runs.
abbrev pub appended : Parser → ℕ → Parser
appended p b = record p {
  buf = set p.buf p.len b;
  len = u8 (p.len + 1);
  expected = if p.len == 0 then expected_for_header b else p.expected;
}

pub feed_byte-cases :
    (cb : Bool) (p : Parser) (b : ℕ)
    → Waits p
    → ((p.len ≡ 0)
        × (expected_for_header b ≡ 0)
        × (feed_byte cb p b ≡ (record p { expected = 0 }, [])))
      ⊎ ((p.len ≢ 0 ⊎ (0 < expected_for_header b))
          × (feed_byte cb p b ≡ process (u8 (p.len + 1)) cb (appended p b)))
unfolding feed_byte
feed_byte-cases cb p b w = elim (Bool-cases (p.len == 0 && expected_for_header b == 0)) [
  | inl ignored ↦ inl (ground arith, ground arith, ground (arith, expected_for_header-le b))
  | inr taken ↦ inr (ground arith, ground (arith, expected_for_header-le (byte p.buf 0)))
]

pub appended-IsValid :
    (p : Parser) (b : ℕ)
    → Waits p
    → (p.len ≢ 0) ⊎ (0 < expected_for_header b)
    → IsValid (appended p b)
appended-IsValid p b w h = ground (
  arith,
  length-set p.buf p.len b,
  get_or-set_ne p.buf p.len 0 b 0,
  get_or-set_self p.buf p.len b 0,
  expected_for_header-le b,
  expected_for_header-le (byte p.buf 0),
)

-- Every byte leaves the parser waiting for more of at most one frame, inside its buffer.
pub feed_byte-Waits : (cb : Bool) (p : Parser) (b : ℕ) → Waits p → Waits (feed_byte cb p b).0
feed_byte-Waits cb p b w = elim (feed_byte-cases cb p b w) [
  | inl (e, n, s) ↦ rw s (ground arith)
  | inr (h, s) ↦ rw s (process-Waits _ cb (appended p b) (appended-IsValid p b w h) (omega arith))
]

pub feed-Waits : (cb : Bool) (bytes : List ℕ) (p : Parser) → Waits p → Waits (feed cb p bytes).0
unfolding feed
feed-Waits cb [] p w = w
feed-Waits cb (b ∷ bytes) p w = feed-Waits cb bytes (feed_byte cb p b).0 (feed_byte-Waits cb p b w)

pub Waits-len : (p : Parser) → Waits p → p.len < 21
Waits-len p w = ground (arith, expected_for_header-le (byte p.buf 0))
